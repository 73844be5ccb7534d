-- ===== src/Tests/Resolving.antt =====
-- The addresses and the pool of src/upstream.rs at work, on the messages of `Samples`.
use dotdns.Prelude.{
  ℕ, ◌≡◌, refl, true, false, List, [], ◌∷◌, ◌++◌, Option, some, none, Result, ok, err, ◌==◌,
  if◌then◌else◌, ◌*◌, ◌^◌,
}
use dotdns.Config.{UpstreamEntry, tls}
use dotdns.Dns.{View}
use dotdns.Entries.{Urls, Upstream}
use dotdns.Net.{IpAddr, SocketAddr, v4, v6}
use dotdns.Resolution.{
  Family, a, aaaa, dedup, note, ask_servers, resolve_host_with_bootstrap, extract_host,
  port_from_address,
}
use dotdns.Resolution.Bootstrap.{
  BootstrapDns, Datagram, receive, read_reply, matches, is_response, has_question, addresses,
  address,
}
use dotdns.Resolution.Servers.{Outcome, resolve_host_with_bootstrap-Outcome}
use dotdns.Samples.{sample, types, answer, RData, Record}
use dotdns.Text.{Text, codes, eq_text, contains_char, before_char, rsplit_once, parse_u16}
use dotdns.Upstream.{UpstreamError, network}

abbrev first_server : SocketAddr
first_server = record { ip = v4 16843009; port = 53 }

abbrev second_server : SocketAddr
second_server = record { ip = v4 134744072; port = 53 }

-- The first server gives no address, and the second one an IPv4 address.
ask : SocketAddr → Text → Family → Result UpstreamError (List IpAddr)
ask server host aaaa = ok []
ask server host a = elim server.ip [
  | v4 n ↦ if n == 134744072 then ok (v4 151587081 ∷ []) else err (network (codes "unreachable"))
  | v6 n ↦ ok []
]

abbrev show_addr : SocketAddr → Text
show_addr addr = codes "addr"

resolve_host_with_bootstrap-Outcome_example :
    Outcome show_addr ask (codes "dns.quad9.net") (first_server ∷ second_server ∷ []) (
      resolve_host_with_bootstrap show_addr ask
        (codes "dns.quad9.net")
        (first_server ∷ second_server ∷ []))
resolve_host_with_bootstrap-Outcome_example =
    resolve_host_with_bootstrap-Outcome show_addr ask (codes "dns.quad9.net")
      (first_server ∷ second_server ∷ [])

resolved :
    resolve_host_with_bootstrap show_addr ask
      (codes "dns.quad9.net")
      (first_server ∷ second_server ∷ [])
    ≡ ok (v4 151587081 ∷ [])
unfolding resolve_host_with_bootstrap ask_servers note ask dedup
resolved = refl

address_of : RData → Option ℕ
address_of (RData.a n) = some n
address_of other = none

abbrev proto : BootstrapDns sample
proto = record {
  query_op_code = 0;
  from_str = λ s. ok s;
  new_query = λ n t. (n, t, 1);
  add_query = λ q m. record m { queries = q ∷ [] };
  as_a = λ (r : Record). address_of r.rdata;
  as_aaaa = λ (r : Record). none;
}

-- A datagram is the identifier of the message.
from_bytes : List ℕ → Result Text (View types)
from_bytes [] = err (codes "empty")
from_bytes (id ∷ bytes) = ok (record answer { id = id })

abbrev datagrams : List Datagram
datagrams =
    record { late = false; received = ok (8 ∷ []) }
    ∷ record { late = false; received = ok (7 ∷ []) }
    ∷ record { late = true; received = ok [] }
    ∷ []

received :
    receive sample proto from_bytes 7 (codes "ads.example.") a datagrams
    ≡ some (ok (v4 16909060 ∷ []))
unfolding receive read_reply matches is_response has_question addresses address address_of
    from_bytes eq_text
received = refl

abbrev urls : Urls
urls = record {
  Url = Text;
  parse = λ s. ok s;
  scheme = λ u. codes "https";
  path = λ u. [];
  set_path = λ path u. u ++ path;
  to_string = λ u. u;
  host_str = λ u. none;
  port_or_known_default = λ u. none;
}

abbrev build : Text → SocketAddr → ℕ → Result Text ℕ
build host addr budget = ok budget

abbrev resolve : Text → ℕ → Result UpstreamError (List SocketAddr)
resolve host port = ok (record { ip = v4 151587081; port = port } ∷ [])

abbrev entry : UpstreamEntry
entry = record {
  name = codes "quad9";
  address = codes "dns.quad9.net:8853";
  protocol = tls;
  tls_cert_path = none;
  timeout = 5 * 10 ^ 9;
}

port : port_from_address entry.address ≡ some 8853
unfolding port_from_address rsplit_once parse_u16
port = refl

host : extract_host entry.address ≡ codes "dns.quad9.net"
unfolding extract_host rsplit_once contains_char before_char
host = refl
