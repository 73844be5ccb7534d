-- ===== src/Dot/Query/Reuse.antt =====
-- src/upstream.rs, `DotUpstream::query_endpoint`: which connections a query takes, and gives back.
use dotdns.Prelude.{
  ℕ, ◌≡◌, ◌≢◌, ◌⊎◌, inl, inr, refl, true, false, Bool-cases, List, Option, none, some, Result, ok,
  err, Result-cases,
}
use dotdns.Dot.{checkout, checkin}
use dotdns.Dot.Query.{
  Dialing, Turn, Idle, connect, give_back, over_fresh, after_reused, over_idle, query_endpoint,
}
use dotdns.Net.{SocketAddr}
use dotdns.Server.Framing.{AsyncIo}
use dotdns.Text.{Text}
use dotdns.Transports.{exchange}
use dotdns.Upstream.{
  UpstreamError, network, timeout, invalid_response, serialization, all_failed, unsupported_feature,
}

module _ {R W Message : Type 0} (from_bytes : List ℕ → Result Text Message) (tokio : AsyncIo R W)
    (dialing : Dialing (R × W)) where
  -- A query leaves the idle connections without the one that it took, and what it gives back has carried
  -- the answer that it returns: over that connection or over a new one.
  pub data Exchanged (turn : Turn (R × W)) (endpoint : SocketAddr) (bytes : List ℕ)
      (found : Option (R × W)) (idle : Idle (R × W))
      : Idle (R × W) × Result UpstreamError Message → Type 0 where
    kept : (e : UpstreamError) → Exchanged turn endpoint bytes found idle (idle, err e)
    reused :
        (stream : R × W) (msg : Message) (r : R) (w : W)
        → found ≡ some stream
        → exchange from_bytes tokio turn.reused_late stream bytes ≡ ok (msg, r, w)
        → Exchanged turn endpoint bytes found idle
            (checkin turn.checkin_at endpoint (r, w) idle, ok msg)
    opened :
        (stream : R × W) (msg : Message) (r : R) (w : W)
        → connect dialing endpoint ≡ ok stream
        → exchange from_bytes tokio turn.fresh_late stream bytes ≡ ok (msg, r, w)
        → Exchanged turn endpoint bytes found idle
            (checkin turn.checkin_at endpoint (r, w) idle, ok msg)

  module _ (turn : Turn (R × W)) (endpoint : SocketAddr) (bytes : List ℕ) where
    over_fresh-Exchanged :
        (found : Option (R × W)) (idle : Idle (R × W))
        → Exchanged turn endpoint bytes found idle
            (over_fresh from_bytes tokio dialing turn endpoint bytes idle)
    unfolding over_fresh give_back
    over_fresh-Exchanged found idle = elim (Result-cases (connect dialing endpoint)) [
      | inr (e, h) ↦ rw h (kept e)
      | inl (stream, h) ↦
          elim (Result-cases (exchange from_bytes tokio turn.fresh_late stream bytes)) [
            | inr (e, k) ↦ rw (h, k) (kept e)
            | inl ((msg, r, w), k) ↦ elim (Bool-cases turn.checkin_late) [
              | inl late ↦ rw (h, k, late) (kept timeout)
              | inr in_time ↦ rw (h, k, in_time) (opened stream msg r w h k)
            ]
          ]
    ]

    after_reused-Exchanged :
        (stream : R × W) (idle : Idle (R × W)) (outcome : Result UpstreamError (Message × R × W))
        → exchange from_bytes tokio turn.reused_late stream bytes ≡ outcome
        → Exchanged turn endpoint bytes
            (some stream)
            idle
            (after_reused from_bytes tokio dialing turn endpoint bytes outcome idle)
    unfolding after_reused give_back
    after_reused-Exchanged stream idle (ok (msg, r, w)) h = elim (Bool-cases turn.checkin_late) [
      | inl late ↦ rw late (kept timeout)
      | inr in_time ↦ rw in_time (reused stream msg r w refl h)
    ]
    after_reused-Exchanged stream idle (err timeout) h = kept timeout
    after_reused-Exchanged stream idle (err (network e)) h = over_fresh-Exchanged (some stream) idle
    after_reused-Exchanged stream idle (err (invalid_response e)) h =
        over_fresh-Exchanged (some stream) idle
    after_reused-Exchanged stream idle (err (serialization e)) h =
        over_fresh-Exchanged (some stream) idle
    after_reused-Exchanged stream idle (err all_failed) h = over_fresh-Exchanged (some stream) idle
    after_reused-Exchanged stream idle (err (unsupported_feature e)) h =
        over_fresh-Exchanged (some stream) idle

    over_idle-Exchanged :
        (found : Option (R × W)) (idle : Idle (R × W))
        → Exchanged turn endpoint bytes found idle
            (over_idle from_bytes tokio dialing turn endpoint bytes found idle)
    unfolding over_idle
    over_idle-Exchanged none idle = over_fresh-Exchanged none idle
    over_idle-Exchanged (some stream) idle = after_reused-Exchanged stream idle _ refl

    -- A query that does not wait in vain for the lock takes the newest idle connection that is young
    -- enough out of the idle ones. It gives back a connection exactly if it is answered: the one that
    -- carried the answer, which is that one, or a new one. One that fails is never given back.
    pub query_endpoint-Exchanged :
        (idle : Idle (R × W))
        → let out : Idle (R × W) × Result UpstreamError Message =
            query_endpoint from_bytes tokio dialing turn endpoint bytes idle in
          let taken : Idle (R × W) × Option (R × W) = checkout turn.checkout_at endpoint idle in
          ((turn.checkout_late ≡ true) × (out ≡ (idle, err timeout)))
          ⊎ ((turn.checkout_late ≡ false)
              × Exchanged turn endpoint bytes taken.1 (turn.others taken.0) out)
    unfolding query_endpoint
    query_endpoint-Exchanged idle = elim (Bool-cases turn.checkout_late) [
      | inl late ↦ inl (late, rw late refl)
      | inr in_time ↦ inr (
        in_time,
        simp in_time (
            over_idle-Exchanged (checkout turn.checkout_at endpoint idle).1
              (turn.others (checkout turn.checkout_at endpoint idle).0)),
      )
    ]

    over_fresh-answers :
        (stream : R × W) (msg : Message) (r : R) (w : W) (idle : Idle (R × W))
        → turn.checkin_late ≡ false
        → connect dialing endpoint ≡ ok stream
        → exchange from_bytes tokio turn.fresh_late stream bytes ≡ ok (msg, r, w)
        → (over_fresh from_bytes tokio dialing turn endpoint bytes idle).1 ≡ ok msg
    unfolding over_fresh give_back
    over_fresh-answers stream msg r w idle in_time h k = rw (h, k, in_time) refl

    after_reused-answers :
        (stream : R × W) (msg : Message) (r : R) (w : W) (idle : Idle (R × W))
        (outcome : Result UpstreamError (Message × R × W))
        → turn.checkin_late ≡ false
        → outcome ≢ err timeout
        → connect dialing endpoint ≡ ok stream
        → exchange from_bytes tokio turn.fresh_late stream bytes ≡ ok (msg, r, w)
        → (answer : Message) × ((after_reused from_bytes tokio dialing turn endpoint bytes outcome
              idle).1
            ≡ ok answer)
    unfolding after_reused give_back
    after_reused-answers stream msg r w idle (ok (answer, r', w')) in_time runs h k =
        (answer, rw in_time refl)
    after_reused-answers stream msg r w idle (err timeout) in_time runs h k = absurd (runs refl)
    after_reused-answers stream msg r w idle (err (network e)) in_time runs h k =
        (msg, over_fresh-answers stream msg r w idle in_time h k)
    after_reused-answers stream msg r w idle (err (invalid_response e)) in_time runs h k =
        (msg, over_fresh-answers stream msg r w idle in_time h k)
    after_reused-answers stream msg r w idle (err (serialization e)) in_time runs h k =
        (msg, over_fresh-answers stream msg r w idle in_time h k)
    after_reused-answers stream msg r w idle (err all_failed) in_time runs h k =
        (msg, over_fresh-answers stream msg r w idle in_time h k)
    after_reused-answers stream msg r w idle (err (unsupported_feature e)) in_time runs h k =
        (msg, over_fresh-answers stream msg r w idle in_time h k)

    over_idle-answers :
        (stream : R × W) (msg : Message) (r : R) (w : W) (found : Option (R × W))
        (idle : Idle (R × W))
        → turn.checkin_late ≡ false
        → ((old : R × W)
            → found ≡ some old
            → exchange from_bytes tokio turn.reused_late old bytes ≢ err timeout)
        → connect dialing endpoint ≡ ok stream
        → exchange from_bytes tokio turn.fresh_late stream bytes ≡ ok (msg, r, w)
        → (answer : Message) × ((over_idle from_bytes tokio dialing turn endpoint bytes found
              idle).1
            ≡ ok answer)
    unfolding over_idle
    over_idle-answers stream msg r w none idle in_time runs h k =
        (msg, over_fresh-answers stream msg r w idle in_time h k)
    over_idle-answers stream msg r w (some old) idle in_time runs h k =
        after_reused-answers stream msg r w idle _ in_time (runs old refl) h k

    -- An idle connection that turns out to be broken before the time-out of the query does not make it
    -- fail: if the exchange over the idle connection that is taken, if one is, does not use up the
    -- time-out, nor the waits for the lock, and a new connection would then answer, the query is
    -- answered.
    pub query_endpoint-answers :
        (stream : R × W) (msg : Message) (r : R) (w : W) (idle : Idle (R × W))
        → turn.checkout_late ≡ false
        → turn.checkin_late ≡ false
        → ((old : R × W)
            → (checkout turn.checkout_at endpoint idle).1 ≡ some old
            → exchange from_bytes tokio turn.reused_late old bytes ≢ err timeout)
        → connect dialing endpoint ≡ ok stream
        → exchange from_bytes tokio turn.fresh_late stream bytes ≡ ok (msg, r, w)
        → (answer : Message) × ((query_endpoint from_bytes tokio dialing turn endpoint bytes idle).1
            ≡ ok answer)
    unfolding query_endpoint
    query_endpoint-answers stream msg r w idle free in_time runs h k =
        let (left, found) = checkout turn.checkout_at endpoint idle in
        simp free (over_idle-answers stream msg r w found (turn.others left) in_time runs h k)
