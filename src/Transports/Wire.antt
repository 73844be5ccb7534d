-- ===== src/Transports/Wire.antt =====
-- src/upstream.rs and src/server.rs: an upstream that frames messages as this server does is understood.
use dotdns.Prelude.{
  ℕ, ◌<◌, ◌≡◌, ◌/◌, ◌*◌, ◌+◌, ◌%◌, ◌^◌, refl, ap, ◌∙◌, false, List, ◌++◌, some, Result, ok, ◌>>=◌,
  length, arith, Result-cases, inl, inr,
}
use dotdns.Server.Framing.{AsyncIo, framed, read_message, read_message-framed}
use dotdns.Text.{Text}
use dotdns.Transports.{exchange, timed}
use mathlib.Core.List.{append_assoc}

module _ {R W Message : Type 0} (tokio : AsyncIo R W)
    (from_bytes : List ℕ → Result Text Message) where
  -- What is written before the response is waited for.
  abbrev pub sends : List ℕ → W → Result Text W
  sends bytes w = tokio.write_u16 (length bytes % 2 ^ 16) w >>= tokio.write_all bytes

  sends-sent :
      (bytes : List ℕ) (w after : W)
      → sends bytes w ≡ ok after
      → tokio.sent after ≡ tokio.sent w ++ framed bytes
  sends-sent bytes w after h = elim (Result-cases (tokio.write_u16 (length bytes % 2 ^ 16) w)) [
    | inr (e, eq) ↦ let k = rw eq at h in cc
    | inl (v, eq) ↦
        tokio.write_all-sent bytes v after (rw eq at h)
        ∙ ap (λ start. start ++ bytes) (tokio.write_u16-sent _ w v eq)
        ∙ append_assoc (tokio.sent w) _ bytes
  ]

  -- A query of 1 to 65,535 bytes that is written to an upstream is what the reader of this server reads
  -- there as a message, and a response that is framed as this server frames it is what the query
  -- gives, with the rest of the stream left for the next one.
  pub exchange-framed :
      (query response : Message) (query_bytes response_bytes later rest : List ℕ) (r server : R)
      (w w' : W)
      → from_bytes query_bytes ≡ ok query
      → from_bytes response_bytes ≡ ok response
      → 0 < length query_bytes
      → length query_bytes < 2 ^ 16
      → length response_bytes < 2 ^ 16
      → sends query_bytes w ≡ ok w'
      → (exchange from_bytes tokio false
            (tokio.before (framed response_bytes ++ later) r, w)
            query_bytes
          ≡ ok (response, tokio.before later r, w'))
        × ((sent : List ℕ) × (tokio.sent w' ≡ tokio.sent w ++ sent)
            × (read_message tokio from_bytes (tokio.before (sent ++ rest) server)
                ≡ ok (some query, tokio.before rest server)))
  unfolding exchange timed
  exchange-framed query response query_bytes response_bytes later rest r server w w' asks answers
        some_bytes query_fits response_fits writes =
      let len = length response_bytes % 2 ^ 16 in
      let joined : len / 2 ^ 8 * 2 ^ 8 + len % 2 ^ 8 ≡ length response_bytes = omega arith in
      (
        rw (writes, tokio.read_u16-before, joined, tokio.read_exact-before, answers) refl,
        (
          framed query_bytes,
          sends-sent query_bytes w w' writes,
          read_message-framed tokio from_bytes query query_bytes rest server asks some_bytes
              query_fits,
        ),
      )
