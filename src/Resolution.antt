-- ===== src/Resolution.antt =====
-- src/upstream.rs: the addresses of an upstream. `extract_host`, `port_from_address`, `resolve_host` and
-- the bootstrap DNS servers that it may ask. The resolver of the system and the parser of
-- addresses are parameters, and so is what comes from the socket that is connected to a server.
pub mod Bootstrap
pub mod Servers
use dotdns.Prelude.{
  ℕ, ◌==◌, true, false, List, [], ◌∷◌, ◌++◌, Option, none, some, Result, ok, err, ◌>>=◌, map_err,
  map, if◌then◌else◌,
}
use dotdns.Net.{IpAddr, ip_eq, SocketAddr}
use dotdns.Text.{Text, codes, contains_char, before_char, rsplit_once, parse_u16, join}
use dotdns.Transports.{show_error}
use dotdns.Upstream.{UpstreamError, network}

host_or : Option (Text × Text) → Text → Text
host_or none address = address
host_or (some (host, port)) address = host

unfoldable pub extract_host : Text → Text
unfolding host_or
extract_host [] = []
extract_host (c ∷ rest) =
    if c == b'['
    then (if contains_char rest b']' then before_char rest b']' else c ∷ rest)
    else host_or (rsplit_once (c ∷ rest) b':') (c ∷ rest)

unfoldable pub port_from_address : Text → Option ℕ
port_from_address address = elim (rsplit_once address b':') [
  | none ↦ none
  | some (host, port) ↦ parse_u16 port
]

drop_repeats : IpAddr → List IpAddr → List IpAddr
drop_repeats ip [] = []
drop_repeats ip (next ∷ ips) = elim (ip_eq ip next) [
  | true ↦ drop_repeats ip ips
  | false ↦ next ∷ drop_repeats next ips
]

-- `Vec::dedup`
unfoldable pub dedup : List IpAddr → List IpAddr
unfolding drop_repeats
dedup [] = []
dedup (ip ∷ ips) = ip ∷ drop_repeats ip ips

pub data Family : Type 0 where
  a aaaa : Family

module _ (show_addr : SocketAddr → Text)
    (ask : SocketAddr → Text → Family → Result UpstreamError (List IpAddr)) where
  -- The addresses and the errors so far, with what a query gives.
  unfoldable pub note :
      SocketAddr
      → Text
      → Result UpstreamError (List IpAddr)
      → List IpAddr × List Text
      → List IpAddr × List Text
  note server label (ok ips) (addrs, errors) = (addrs ++ ips, errors)
  note server label (err e) (addrs, errors) =
      (addrs, errors ++ ((show_addr server ++ (label ++ show_error e)) ∷ []))

  no_addresses : Text → List Text → UpstreamError
  no_addresses host [] =
      network
        (codes "failed to resolve host " ++ (host ++ codes ": no bootstrap DNS servers configured"))
  no_addresses host (e ∷ es) = network (
      codes "failed to resolve host "
      ++ (host ++ (codes " via bootstrap DNS: " ++ join (codes "; ") (e ∷ es))))

  found_or : List IpAddr → Result UpstreamError (List IpAddr) → Result UpstreamError (List IpAddr)
  found_or [] next = next
  found_or (ip ∷ ips) next = ok (dedup (ip ∷ ips))

  unfoldable pub ask_servers :
      Text → List SocketAddr → List Text → Result UpstreamError (List IpAddr)
  unfolding note no_addresses found_or
  ask_servers host [] errors = err (no_addresses host errors)
  ask_servers host (server ∷ servers) errors =
      let by_a = note server (codes " A: ") (ask server host a) ([], errors) in
      let (addrs, errors') = note server (codes " AAAA: ") (ask server host aaaa) by_a in
      found_or addrs (ask_servers host servers errors')

  unfoldable pub resolve_host_with_bootstrap :
      Text → List SocketAddr → Result UpstreamError (List IpAddr)
  unfolding ask_servers
  resolve_host_with_bootstrap host bootstrap_dns = ask_servers host bootstrap_dns []

  module _ (parse_ip : Text → Option IpAddr)
      (to_socket_addrs : Text → ℕ → Result Text (List SocketAddr)) where
    some_addresses : Text → List SocketAddr → Result UpstreamError (List SocketAddr)
    some_addresses host [] =
        err (network (codes "failed to resolve host " ++ (host ++ codes ": no addresses returned")))
    some_addresses host (addr ∷ addrs) = ok (addr ∷ addrs)

    -- `resolve_host` where the host is no address.
    unfoldable pub resolve_name :
        Text → ℕ → List SocketAddr → Result UpstreamError (List SocketAddr)
    unfolding resolve_host_with_bootstrap some_addresses
    resolve_name host port [] =
        map_err (λ e. network (codes "failed to resolve host " ++ (host ++ (codes ": " ++ e))))
          (to_socket_addrs host port)
        >>= some_addresses host
    resolve_name host port (server ∷ servers) =
        resolve_host_with_bootstrap host (server ∷ servers) >>= λ ips.
        ok (map (λ ip. record { ip = ip; port = port }) ips)

    unfoldable pub resolve_host :
        Text → ℕ → List SocketAddr → Result UpstreamError (List SocketAddr)
    unfolding resolve_name
    resolve_host host port bootstrap_dns = elim (parse_ip host) [
      | some ip ↦ ok (record { ip = ip; port = port } ∷ [])
      | none ↦ resolve_name host port bootstrap_dns
    ]
