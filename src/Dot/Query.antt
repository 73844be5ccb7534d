-- ===== src/Dot/Query.antt =====
-- src/upstream.rs, `DotUpstream::query`: the endpoints in turn, each over an idle connection if there
-- is one. A connection is a reader and a writer.
pub mod Reuse
use dotdns.Prelude.{
  ℕ, Bool, List, [], ◌∷◌, ◌++◌, Option, none, some, Result, ok, err, ◌>>=◌, map_err, if◌then◌else◌,
}
use dotdns.Dot.{checkout, checkin}
use dotdns.Net.{SocketAddr}
use dotdns.Server.Framing.{AsyncIo, Timed}
use dotdns.Text.{Text, codes}
use dotdns.Transports.{timed, exchange, try_endpoints}
use dotdns.Upstream.{UpstreamError, network, timeout, serialization}

-- TCP, the server's name and TLS.
pub record Dialing (Stream : Type 0) : Type 1 where
  pub TcpStream : Type 0
  pub ServerName : Type 0
  pub tcp_connect : SocketAddr → Timed TcpStream
  pub server_name : Result Text ServerName
  pub tls_connect : ServerName → TcpStream → Timed Stream

module _ (Stream : Type 0) where
  abbrev pub Idle : Type 0
  Idle = List (SocketAddr × List (Stream × ℕ))

  -- What happens around a query: the times of its two looks at the idle connections, what other queries
  -- do to these in between, and where the time-out elapses, waiting for the lock or writing.
  pub record Turn : Type 0 where
    pub checkout_at : ℕ
    pub checkin_at : ℕ
    pub others : Idle → Idle
    pub checkout_late : Bool
    pub checkin_late : Bool
    pub reused_late : Bool
    pub fresh_late : Bool

unfoldable pub connect :
    {Stream : Type 0} (dialing : Dialing Stream) → SocketAddr → Result UpstreamError Stream
unfolding timed
connect dialing endpoint = timed (dialing.tcp_connect endpoint) >>= λ tcp.
    map_err (λ e. network (codes "invalid server name: " ++ e)) dialing.server_name >>= λ name.
    timed (dialing.tls_connect name tcp)

module _ {R W Message : Type 0} (from_bytes : List ℕ → Result Text Message) (tokio : AsyncIo R W)
    (dialing : Dialing (R × W)) where
  unfoldable pub give_back :
      Turn (R × W)
      → SocketAddr
      → Result UpstreamError (Message × R × W)
      → Idle (R × W)
      → Idle (R × W) × Result UpstreamError Message
  give_back turn endpoint (err e) idle = (idle, err e)
  give_back turn endpoint (ok (msg, r, w)) idle =
      if turn.checkin_late
      then (idle, err timeout)
      else (checkin turn.checkin_at endpoint (r, w) idle, ok msg)

  unfoldable pub over_fresh :
      Turn (R × W)
      → SocketAddr
      → List ℕ
      → Idle (R × W)
      → Idle (R × W) × Result UpstreamError Message
  unfolding give_back connect
  over_fresh turn endpoint msg_bytes idle =
      give_back turn endpoint
        (connect dialing endpoint >>= λ stream.
          exchange from_bytes tokio turn.fresh_late stream msg_bytes)
        idle

  -- A time-out is one of the whole query; another error means that the connection is broken.
  unfoldable pub after_reused :
      Turn (R × W)
      → SocketAddr
      → List ℕ
      → Result UpstreamError (Message × R × W)
      → Idle (R × W)
      → Idle (R × W) × Result UpstreamError Message
  unfolding give_back over_fresh
  after_reused turn endpoint msg_bytes (ok done) idle = give_back turn endpoint (ok done) idle
  after_reused turn endpoint msg_bytes (err timeout) idle = (idle, err timeout)
  after_reused turn endpoint msg_bytes (err _) idle = over_fresh turn endpoint msg_bytes idle

  unfoldable pub over_idle :
      Turn (R × W)
      → SocketAddr
      → List ℕ
      → Option (R × W)
      → Idle (R × W)
      → Idle (R × W) × Result UpstreamError Message
  unfolding after_reused over_fresh
  over_idle turn endpoint msg_bytes none idle = over_fresh turn endpoint msg_bytes idle
  over_idle turn endpoint msg_bytes (some stream) idle =
      after_reused turn endpoint msg_bytes
        (exchange from_bytes tokio turn.reused_late stream msg_bytes) idle

  unfoldable pub query_endpoint :
      Turn (R × W)
      → SocketAddr
      → List ℕ
      → Idle (R × W)
      → Idle (R × W) × Result UpstreamError Message
  unfolding over_idle
  query_endpoint turn endpoint msg_bytes idle =
      let (left, found) = checkout turn.checkout_at endpoint idle in
      if turn.checkout_late
      then (idle, err timeout)
      else over_idle turn endpoint msg_bytes found (turn.others left)

  -- Each endpoint with what happens around the attempt on it.
  unfoldable pub query_dot :
      (Message → Result Text (List ℕ))
      → (SocketAddr → Text)
      → List (SocketAddr × Turn (R × W))
      → Message
      → Idle (R × W)
      → Idle (R × W) × Result UpstreamError Message
  unfolding query_endpoint try_endpoints
  query_dot to_bytes show endpoints message idle = elim (to_bytes message) [
    | err e ↦ (idle, err (serialization e))
    | ok msg_bytes ↦
        try_endpoints (λ e. show e.0) (codes "no DoT endpoints configured")
          (λ e idle. query_endpoint e.1 e.0 msg_bytes idle) endpoints [] idle
  ]
