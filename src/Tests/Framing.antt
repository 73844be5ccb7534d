-- ===== src/Tests/Framing.antt =====
-- Messages on a DoT connection (src/server.rs), where a message is its own encoding and a connection
-- is the bytes that are left, or were sent.
use dotdns.Prelude.{
  ℕ, zero, suc, ◌+◌, ◌*◌, ◌/◌, ◌%◌, ◌^◌, ◌≡◌, ◌≢◌, refl, List, [], ◌∷◌, ◌++◌, Result, ok, err,
  ◌>>=◌, length, false,
}
use dotdns.Server.Framing.{AsyncIo, Timed, done, failed, elapsed, write_message, write_frame}
use dotdns.Text.{Text, codes}
use dotdns.Transports.{exchange, timed}
use dotdns.Transports.Wire.{sends}
use dotdns.Upstream.{UpstreamError, timeout}

pub read_u16 : List ℕ → Timed (ℕ × List ℕ)
read_u16 [] = failed (codes "unexpected end of file")
read_u16 (high ∷ []) = failed (codes "unexpected end of file")
read_u16 (high ∷ low ∷ bytes) = done (high * 2 ^ 8 + low, bytes)

with_byte : ℕ → Timed (List ℕ × List ℕ) → Timed (List ℕ × List ℕ)
with_byte byte (done (buf, rest)) = done (byte ∷ buf, rest)
with_byte byte other = other

pub read_exact : ℕ → List ℕ → Timed (List ℕ × List ℕ)
read_exact zero bytes = done ([], bytes)
read_exact (suc n) [] = failed (codes "unexpected end of file")
read_exact (suc n) (byte ∷ bytes) = with_byte byte (read_exact n bytes)

pub read_exact-append :
    (bytes later r : List ℕ)
    → read_exact (length bytes) ((bytes ++ later) ++ r) ≡ done (bytes, later ++ r)
unfolding read_exact with_byte
read_exact-append [] later r = refl
read_exact-append (byte ∷ bytes) later r = rw (read_exact-append bytes later r) refl

abbrev pub succeeded : List ℕ → Result Text (List ℕ)
succeeded w = ok w

pub sent_lem : (w after : List ℕ) → succeeded w ≡ succeeded after → after ≡ w
sent_lem w after h = cc

abbrev pub wire : AsyncIo (List ℕ) (List ℕ)
unfolding read_u16
wire = record {
  read_u16 = read_u16;
  read_exact = read_exact;
  before = λ bytes r. bytes ++ r;
  before-nil = λ r. refl;
  read_u16-before = λ high low bytes r. refl;
  read_exact-before = read_exact-append;
  write_u16 = λ n w. ok (w ++ ((n / 2 ^ 8) ∷ (n % 2 ^ 8) ∷ []));
  write_all = λ bytes w. ok (w ++ bytes);
  flush = λ w. ok w;
  sent = λ w. w;
  write_u16-sent = λ n w. sent_lem _;
  write_all-sent = λ bytes w. sent_lem _;
  flush-sent = sent_lem;
}

pub writes : (bytes w : List ℕ) → (w' : List ℕ) × (write_frame wire bytes w ≡ ok w')
unfolding write_frame wire
writes bytes w = (_, refl)

abbrev pub to_bytes : List ℕ → Result Text (List ℕ)
to_bytes m = ok m

abbrev pub from_bytes : List ℕ → Result Text (List ℕ)
from_bytes bytes = ok bytes

-- No call waits.
abbrev pub Ends : {A : Type 0} → Timed A → Type 0
Ends (done a) = Unit
Ends (failed e) = Unit
Ends elapsed = ⊥

with_byte-Ends : (byte : ℕ) (t : Timed (List ℕ × List ℕ)) → Ends t → Ends (with_byte byte t)
unfolding with_byte
with_byte-Ends byte (done (buf, rest)) h = tt
with_byte-Ends byte (failed e) h = tt
with_byte-Ends byte elapsed h = elim h [ ]

read_exact-Ends : (n : ℕ) (bytes : List ℕ) → Ends (read_exact n bytes)
unfolding read_exact
read_exact-Ends zero bytes = tt
read_exact-Ends (suc n) [] = tt
read_exact-Ends (suc n) (byte ∷ bytes) = with_byte-Ends byte _ (read_exact-Ends n bytes)

abbrev finish : List ℕ → List ℕ × List ℕ → Result UpstreamError (List ℕ × List ℕ × List ℕ)
finish w (buf, r) = ok (buf, r, w)

read_rest :
    (w : List ℕ) (t : Timed (List ℕ × List ℕ)) → Ends t → (timed t >>= finish w) ≢ err timeout
unfolding timed
read_rest w (done (buf, r)) h e = cc
read_rest w (failed e) h k = cc
read_rest w elapsed h e = elim h [ ]

pub exchange-ends :
    (old : List ℕ × List ℕ) (bytes : List ℕ)
    → exchange from_bytes wire false old bytes ≢ err timeout
unfolding exchange wire read_u16 timed
exchange-ends ([], w) bytes h = cc
exchange-ends (high ∷ [], w) bytes h = cc
exchange-ends (high ∷ low ∷ rest, w) bytes h =
    read_rest _ (read_exact (high * 2 ^ 8 + low) rest) (read_exact-Ends _ rest) h

pub exchange_fresh :
    exchange from_bytes wire false (0 ∷ 2 ∷ 9 ∷ 9 ∷ [], []) (5 ∷ [])
    ≡ ok (9 ∷ 9 ∷ [], [], 0 ∷ 1 ∷ 5 ∷ [])
unfolding exchange wire read_u16 read_exact with_byte timed
exchange_fresh = refl

pub sent_query : sends wire from_bytes (5 ∷ []) [] ≡ ok (0 ∷ 1 ∷ 5 ∷ [])
unfolding wire
sent_query = refl

abbrev message : List ℕ
message = 18 ∷ 52 ∷ 1 ∷ []

abbrev next : List ℕ
next = 0 ∷ 0 ∷ []

written : write_message wire to_bytes message false [] ≡ ok (0 ∷ 3 ∷ 18 ∷ 52 ∷ 1 ∷ [])
unfolding write_message write_frame wire
written = refl
