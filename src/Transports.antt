-- ===== src/Transports.antt =====
-- src/upstream.rs: the transports to the upstreams. `PlainUpstream`, the loop over the endpoints that
-- `DotUpstream` and `DohUpstream` have, `DotUpstream::exchange`, and `DohUpstream::query_endpoint`.
-- Sockets and the HTTP client are parameters, and streams are read and written by `AsyncIo`. A call
-- that the time-out interrupts is `elapsed`, or `late` where it writes.
pub mod Wire
pub mod Failover
use dotdns.Prelude.{
  ℕ, ◌*◌, ◌/◌, ◌%◌, ◌^◌, Bool, true, false, not, List, [], ◌∷◌, ◌++◌, Result, ok, err, ◌>>=◌, ◌>>◌,
  map_err, length, leb, ltb, ◌==◌, if◌then◌else◌, ◌&&◌,
}
use dotdns.Server.Framing.{AsyncIo, Timed, done, failed, elapsed}
use dotdns.Text.{Text, codes, join}
use dotdns.Upstream.{
  UpstreamError, network, timeout, invalid_response, serialization, all_failed, unsupported_feature,
}

-- The texts of the errors.
unfoldable pub show_error : UpstreamError → Text
show_error (network e) = codes "network error: " ++ e
show_error timeout = codes "timeout"
show_error (invalid_response e) = codes "invalid response: " ++ e
show_error (serialization e) = codes "serialization error: " ++ e
show_error all_failed = codes "all upstreams failed"
show_error (unsupported_feature e) = codes "unsupported feature: " ++ e

-- A call under `tokio::time::timeout`.
unfoldable pub timed : {A : Type 0} → Timed A → Result UpstreamError A
timed (done a) = ok a
timed (failed e) = err (network e)
timed elapsed = err timeout

-- The loop over the endpoints, on the state `S` that the attempts share: `none` is the error where
-- there are no endpoints, and `errors` are the errors so far.
module _ {E S M : Type 0} (show : E → Text) (none : Text)
    (attempt : E → S → S × Result UpstreamError M) where
  all_endpoints_failed : List Text → UpstreamError
  all_endpoints_failed [] = network none
  all_endpoints_failed (e ∷ es) = network (join (codes "; ") (e ∷ es))

  unfoldable pub try_endpoints : List E → List Text → S → S × Result UpstreamError M
  unfolding all_endpoints_failed
  try_endpoints [] errors s = (s, err (all_endpoints_failed errors))
  try_endpoints (endpoint ∷ endpoints) errors s =
      let (s', outcome) = attempt endpoint s in
      elim outcome [
        | ok response ↦ (s', ok response)
        | err e ↦
            try_endpoints endpoints
              (errors ++ ((show endpoint ++ (codes ": " ++ show_error e)) ∷ [])) s'
      ]

abbrev pub plain_udp_timeout_cap : ℕ
plain_udp_timeout_cap = 2 * 10 ^ 9

pub record PlainUpstream : Type 0 where
  pub address : Text
  pub udp_timeout : ℕ
  pub tcp_timeout : ℕ

unfoldable pub new_plain : Text → ℕ → PlainUpstream
new_plain address budget = record {
  address = address;
  udp_timeout = if leb budget plain_udp_timeout_cap then budget else plain_udp_timeout_cap;
  tcp_timeout = budget;
}

-- The calls on sockets: a datagram that answers the bytes that were sent within a time, and a stream.
pub record Sockets (Stream : Type 0) : Type 0 where
  pub bind : Result Text (Unit {0})
  pub send_to : ℕ → Text → List ℕ → Timed (Unit {0})
  pub recv_from : ℕ → Text → List ℕ → Timed (List ℕ)
  pub connect : ℕ → Text → Timed Stream
  pub write_late : Bool

-- The HTTP client of an endpoint: the status and the body of the response to a post.
pub record HttpReply : Type 0 where
  pub is_success : Bool
  pub status : Text
  pub bytes : Result Text (List ℕ)

module _ {R W Message : Type 0} (from_bytes : List ℕ → Result Text Message)
    (tokio : AsyncIo R W) where
  -- The query is written and the response read, both after their lengths.
  unfoldable pub exchange : Bool → R × W → List ℕ → Result UpstreamError (Message × R × W)
  unfolding timed
  exchange late (r, w) msg_bytes =
      map_err network (tokio.write_u16 (length msg_bytes % 2 ^ 16) w >>= tokio.write_all msg_bytes)
      >>= λ w'.
          if late
          then err timeout
          else (timed (tokio.read_u16 r) >>= λ (resp_len, r1).
              timed (tokio.read_exact resp_len r1) >>= λ (resp_buf, r2).
              map_err serialization (from_bytes resp_buf) >>= λ msg. ok (msg, r2, w'))

-- `post` sends the bytes and is an error where no response comes; `lossy` is
-- `String::from_utf8_lossy` of at most 256 bytes.
module _ {Endpoint Message : Type 0} (from_bytes : List ℕ → Result Text Message)
    (post : Endpoint → List ℕ → Result Text HttpReply) (lossy : List ℕ → Text)
    (show : Endpoint → Text) where
  shown_body : Result Text (List ℕ) → Text
  shown_body (ok bytes) = lossy bytes
  shown_body (err e) = codes "failed to read response body: " ++ e

  unfoldable pub query_doh_endpoint : Endpoint → List ℕ → Result UpstreamError Message
  unfolding shown_body
  query_doh_endpoint endpoint msg_bytes = map_err network (post endpoint msg_bytes) >>= λ reply.
      if reply.is_success
      then (map_err network reply.bytes >>= λ resp_bytes.
          map_err serialization (from_bytes resp_bytes))
      else err (
          network (
            codes "HTTP error from "
            ++ (show endpoint
                ++ (codes ": " ++ (reply.status ++ (codes " " ++ shown_body reply.bytes))))))

module _ {Message : Type 0} (to_bytes : Message → Result Text (List ℕ))
    (from_bytes : List ℕ → Result Text Message) where
  -- `bytes.len() >= 3 && (bytes[2] & 0x02) != 0`
  unfoldable pub has_tc_bit : List ℕ → Bool
  has_tc_bit (a ∷ b ∷ flags ∷ bytes) = not (flags / 2 % 2 == 0)
  has_tc_bit bytes = false

  unfoldable pub is_truncated : Message → Bool
  unfolding has_tc_bit
  is_truncated msg = elim (to_bytes msg) [ ok bytes ↦ has_tc_bit bytes | err e ↦ false ]

  module _ {R W : Type 0} (tokio : AsyncIo R W) where
    module _ (sockets : Sockets (R × W)) (u : PlainUpstream) where
      unfoldable pub query_udp : Message → Result UpstreamError Message
      unfolding timed
      query_udp message =
          map_err network sockets.bind
          >> (map_err serialization (to_bytes message) >>= λ msg_bytes.
              timed (sockets.send_to u.udp_timeout u.address msg_bytes)
              >> (timed (sockets.recv_from u.udp_timeout u.address msg_bytes) >>= λ buf.
                  map_err serialization (from_bytes buf)))

      unfoldable pub query_tcp : Message → Result UpstreamError Message
      unfolding timed exchange
      query_tcp message = map_err serialization (to_bytes message) >>= λ msg_bytes.
          timed (sockets.connect u.tcp_timeout u.address) >>= λ stream.
          exchange from_bytes tokio sockets.write_late stream msg_bytes >>= λ (msg, r, w). ok msg

      unfoldable pub query_plain : Message → Result UpstreamError Message
      unfolding query_udp query_tcp is_truncated
      query_plain message =
          let by_tcp = query_tcp message in
          elim (query_udp message) [
            | ok response ↦ if is_truncated response then by_tcp else ok response
            | err e ↦ by_tcp
          ]

  module _ {Endpoint : Type 0} (post : Endpoint → List ℕ → Result Text HttpReply)
      (lossy : List ℕ → Text) (show : Endpoint → Text) where
    unfoldable pub query_doh : List Endpoint → Message → Result UpstreamError Message
    unfolding query_doh_endpoint try_endpoints
    query_doh endpoints message = map_err serialization (to_bytes message) >>= λ msg_bytes.
        (try_endpoints show (codes "no DoH endpoints configured")
          (λ endpoint (s : Unit {0}).
            (s, query_doh_endpoint from_bytes post lossy show endpoint msg_bytes))
          endpoints [] tt).1
