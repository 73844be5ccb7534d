-- ===== src/Server/Framing.antt =====
-- src/server.rs, `read_message` and `write_message`: the messages of a DoT connection, each after its
-- length. The reader and the writer are of the crate tokio and the encoding of messages is of the
-- crate hickory_proto: these are parameters.
use dotdns.Prelude.{
  ℕ, ◌+◌, ◌*◌, ◌/◌, ◌%◌, ◌^◌, ◌<◌, ◌≡◌, refl, ap, ◌∙◌, ◌==◌, List, [], ◌∷◌, ◌++◌, Option, none,
  some, Result, ok, err, ◌>>=◌, map_err, length, if◌then◌else◌, arith, Bool, true, false,
  Result-cases, inl, inr,
}
use dotdns.Text.{Text}
use mathlib.Core.List.{append_assoc}

pub data ServerError : Type 0 where
  io : Text → ServerError
  tls : Text → ServerError
  dns : Text → ServerError
  timeout : ServerError

-- `tokio::time::timeout(timeout, …).await`
pub data Timed (A : Type 0) : Type 0 where
  done : A → Timed A
  failed : Text → Timed A
  elapsed : Timed A

-- `AsyncReadExt` and `AsyncWriteExt` on the reader `R` and the writer `W`, which each call hands on.
-- `before bytes r` is the reader to which the bytes come in time, and then what comes to `r`; `sent w`
-- is what was written. Numbers are big-endian.
pub record AsyncIo (R W : Type 0) : Type 0 where
  pub read_u16 : R → Timed (ℕ × R)
  pub read_exact : ℕ → R → Timed (List ℕ × R)
  pub before : List ℕ → R → R
  pub before-nil : (r : R) → before [] r ≡ r
  pub read_u16-before :
      (high low : ℕ) (bytes : List ℕ) (r : R)
      → read_u16 (before (high ∷ low ∷ bytes) r) ≡ done (high * 2 ^ 8 + low, before bytes r)
  pub read_exact-before :
      (bytes later : List ℕ) (r : R)
      → read_exact (length bytes) (before (bytes ++ later) r) ≡ done (bytes, before later r)
  pub write_u16 : ℕ → W → Result Text W
  pub write_all : List ℕ → W → Result Text W
  pub flush : W → Result Text W
  pub sent : W → List ℕ
  pub write_u16-sent :
      (n : ℕ) (w after : W)
      → write_u16 n w ≡ ok after
      → sent after ≡ sent w ++ ((n / 2 ^ 8) ∷ (n % 2 ^ 8) ∷ [])
  pub write_all-sent :
      (bytes : List ℕ) (w after : W) → write_all bytes w ≡ ok after → sent after ≡ sent w ++ bytes
  pub flush-sent : (w after : W) → flush w ≡ ok after → sent after ≡ sent w

-- The two bytes of the length, and the bytes.
abbrev pub framed : List ℕ → List ℕ
framed bytes = (length bytes % 2 ^ 16 / 2 ^ 8) ∷ (length bytes % 2 ^ 16 % 2 ^ 8) ∷ bytes

module _ {R W : Type 0} (tokio : AsyncIo R W) where
  unfoldable pub write_frame : List ℕ → W → Result Text W
  write_frame bytes w =
      tokio.write_u16 (length bytes % 2 ^ 16) w >>= tokio.write_all bytes >>= tokio.flush

  write_frame-sent :
      (bytes : List ℕ) (w after : W)
      → write_frame bytes w ≡ ok after
      → tokio.sent after ≡ tokio.sent w ++ framed bytes
  unfolding write_frame
  write_frame-sent bytes w after h =
      elim (Result-cases (tokio.write_u16 (length bytes % 2 ^ 16) w)) [
        | inr (e, eq) ↦ cc
        | inl (v, eq) ↦ elim (Result-cases (tokio.write_all bytes v)) [
          | inr (e, eq2) ↦ cc
          | inl (u, eq2) ↦
              tokio.flush-sent u after (rw (eq, eq2) at h)
              ∙ tokio.write_all-sent bytes v u eq2
              ∙ ap (λ start. start ++ bytes) (tokio.write_u16-sent _ w v eq)
              ∙ append_assoc (tokio.sent w) _ bytes
        ]
      ]

module _ {R W Message : Type 0} (tokio : AsyncIo R W) where
  pub read_body :
      (List ℕ → Result Text Message) → Timed (List ℕ × R) → Result ServerError (Option Message × R)
  read_body from_bytes elapsed = err timeout
  read_body from_bytes (failed e) = err (io e)
  read_body from_bytes (done (buf, r)) = map_err dns (from_bytes buf) >>= λ m. ok (some m, r)

  unfoldable pub read_message :
      (List ℕ → Result Text Message) → R → Result ServerError (Option Message × R)
  read_message from_bytes r = elim (tokio.read_u16 r) [
    | elapsed ↦ err timeout
    | failed e ↦ err (io e)
    | done (len, rest) ↦
        let body = read_body from_bytes (tokio.read_exact len rest) in
        if len == 0 then ok (none, rest) else body
  ]

  -- `late`: the time-out elapses.
  unfoldable pub write_message :
      (Message → Result Text (List ℕ)) → Message → Bool → W → Result ServerError W
  write_message to_bytes m late w = map_err dns (to_bytes m) >>= λ bytes.
      let written = map_err io (write_frame tokio bytes w) in if late then err timeout else written

  write_message-ok :
      (to_bytes : Message → Result Text (List ℕ)) (m : Message) (bytes : List ℕ) (late : Bool)
      (w after : W)
      → to_bytes m ≡ ok bytes
      → write_message to_bytes m late w ≡ ok after
      → write_frame tokio bytes w ≡ ok after
  unfolding write_message
  write_message-ok to_bytes m bytes true w after encoded h = let k = rw encoded at h in cc
  write_message-ok to_bytes m bytes false w after encoded h =
      elim (Result-cases (write_frame tokio bytes w)) [
        | inl (u, e) ↦ let k = rw (encoded, e) at h in cc
        | inr (u, e) ↦ let k = rw (encoded, e) at h in cc
      ]

  -- What a message that is encoded by the bytes is read as.
  pub read_message-framed :
      (from_bytes : List ℕ → Result Text Message) (m : Message) (bytes later : List ℕ) (r : R)
      → from_bytes bytes ≡ ok m
      → 0 < length bytes
      → length bytes < 2 ^ 16
      → read_message from_bytes (tokio.before (framed bytes ++ later) r)
        ≡ ok (some m, tokio.before later r)
  unfolding read_message read_body
  read_message-framed from_bytes m bytes later r decoded some_bytes fits =
      let len = length bytes % 2 ^ 16 in
      let joined : len / 2 ^ 8 * 2 ^ 8 + len % 2 ^ 8 ≡ length bytes = omega arith in
      let nonzero : (length bytes == 0) ≡ false = ground arith in
      rw (read_message, tokio.read_u16-before, joined, nonzero, tokio.read_exact-before, decoded)
        refl

  pub sent-write_message :
      (to_bytes : Message → Result Text (List ℕ)) (m : Message) (bytes : List ℕ) (late : Bool)
      (w after : W)
      → to_bytes m ≡ ok bytes
      → write_message to_bytes m late w ≡ ok after
      → tokio.sent after ≡ tokio.sent w ++ framed bytes
  sent-write_message to_bytes m bytes late w after encoded h =
      write_frame-sent tokio bytes w after
        (write_message-ok to_bytes m bytes late w after encoded h)

  -- If a message whose encoding has from 1 to 65,535 bytes, and is decoded to the message, is written,
  -- then what was sent is read as the message, and what follows it is left for the next call.
  pub read_message-write_message :
      (to_bytes : Message → Result Text (List ℕ)) (from_bytes : List ℕ → Result Text Message)
      (m : Message) (bytes later : List ℕ) (late : Bool) (w after : W) (r : R)
      → to_bytes m ≡ ok bytes
      → from_bytes bytes ≡ ok m
      → 0 < length bytes
      → length bytes < 2 ^ 16
      → write_message to_bytes m late w ≡ ok after
      → (sent : List ℕ) × (tokio.sent after ≡ tokio.sent w ++ sent)
        × (read_message from_bytes (tokio.before (sent ++ later) r)
            ≡ ok (some m, tokio.before later r))
  read_message-write_message to_bytes from_bytes m bytes later late w after r encoded decoded
        some_bytes fits h =
      (
        framed bytes,
        sent-write_message to_bytes m bytes late w after encoded h,
        read_message-framed from_bytes m bytes later r decoded some_bytes fits,
      )
