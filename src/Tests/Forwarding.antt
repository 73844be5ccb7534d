-- ===== src/Tests/Forwarding.antt =====
-- The transports of src/upstream.rs at work, over the wire of `Framing`.
use dotdns.Prelude.{
  ℕ, ◌≡◌, ◌⊎◌, refl, true, false, List, [], ◌∷◌, ◌++◌, Option, some, Result, ok, err, arith,
}
use dotdns.Dot.{checkout}
use dotdns.Dot.Query.{Dialing, Turn, Idle, connect, query_endpoint}
use dotdns.Dot.Query.Reuse.{Exchanged, query_endpoint-Exchanged, query_endpoint-answers}
use dotdns.Net.{SocketAddr, v4}
use dotdns.Server.Framing.{done, read_message, framed}
use dotdns.Tests.Framing.{wire, from_bytes, exchange-ends, exchange_fresh, sent_query}
use dotdns.Transports.{exchange, timed}
use dotdns.Transports.Wire.{exchange-framed}
use dotdns.Upstream.{UpstreamError, timeout}

abbrev Stream : Type 0
Stream = List ℕ × List ℕ

abbrev endpoint : SocketAddr
endpoint = record { ip = v4 151587081; port = 853 }

-- A new connection answers with two bytes, and an idle one is closed at the other end.
abbrev dialing : Dialing Stream
dialing = record {
  TcpStream = SocketAddr;
  ServerName = ℕ;
  tcp_connect = λ a. done a;
  server_name = ok 0;
  tls_connect = λ name a. done (0 ∷ 2 ∷ 9 ∷ 9 ∷ [], []);
}

abbrev idle : Idle Stream
idle = (endpoint, (([], []), 5) ∷ []) ∷ []

abbrev turn : Turn Stream
turn = record {
  checkout_at = 10;
  checkin_at = 20;
  others = λ i. i;
  checkout_late = false;
  checkin_late = false;
  reused_late = false;
  fresh_late = false;
}

connects : connect dialing endpoint ≡ ok (0 ∷ 2 ∷ 9 ∷ 9 ∷ [], [])
unfolding connect timed
connects = refl

query_endpoint-answers_example :
    (answer : List ℕ) × ((query_endpoint from_bytes wire dialing turn endpoint (5 ∷ []) idle).1
      ≡ ok answer)
query_endpoint-answers_example =
    query_endpoint-answers from_bytes wire dialing turn endpoint (5 ∷ []) (0 ∷ 2 ∷ 9 ∷ 9 ∷ [], [])
      (9 ∷ 9 ∷ []) [] (0 ∷ 1 ∷ 5 ∷ []) idle refl refl (λ old taken. exchange-ends old (5 ∷ []))
      connects exchange_fresh

query_endpoint-Exchanged_example :
    let out : Idle Stream × Result UpstreamError (List ℕ) =
      query_endpoint from_bytes wire dialing turn endpoint (5 ∷ []) idle in
    let taken : Idle Stream × Option Stream = checkout 10 endpoint idle in
    ((false ≡ true) × (out ≡ (idle, err timeout)))
    ⊎ ((false ≡ false)
        × Exchanged from_bytes wire dialing turn endpoint (5 ∷ []) taken.1 taken.0 out)
query_endpoint-Exchanged_example =
    query_endpoint-Exchanged from_bytes wire dialing turn endpoint (5 ∷ []) idle

exchange-framed_example :
    (exchange from_bytes wire false (wire.before (framed (9 ∷ 9 ∷ []) ++ (1 ∷ [])) [], []) (5 ∷ [])
      ≡ ok (9 ∷ 9 ∷ [], wire.before (1 ∷ []) [], 0 ∷ 1 ∷ 5 ∷ []))
    × ((sent : List ℕ) × (wire.sent (0 ∷ 1 ∷ 5 ∷ []) ≡ wire.sent [] ++ sent)
        × (read_message wire from_bytes (wire.before (sent ++ (2 ∷ [])) [])
            ≡ ok (some (5 ∷ []), wire.before (2 ∷ []) [])))
exchange-framed_example =
    exchange-framed wire from_bytes (5 ∷ []) (9 ∷ 9 ∷ []) (5 ∷ []) (9 ∷ 9 ∷ []) (1 ∷ []) (2 ∷ []) []
      [] [] (0 ∷ 1 ∷ 5 ∷ []) refl refl (omega arith) (omega arith) (omega arith) sent_query
