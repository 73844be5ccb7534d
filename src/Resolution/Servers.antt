-- ===== src/Resolution/Servers.antt =====
-- src/upstream.rs, `resolve_host_with_bootstrap`: whose addresses a name gets.
use dotdns.Prelude.{
  ◌≡◌, ◌≢◌, refl, sym, ap, ◌∙◌, ◌⊎◌, inl, inr, List, [], ◌∷◌, ◌++◌, All, Result, ok, err,
}
use mathlib.Core.List.{append-nil}
use dotdns.Net.{IpAddr, SocketAddr}
use dotdns.Resolution.{
  Family, a, aaaa, note, no_addresses, dedup, found_or, ask_servers, resolve_host_with_bootstrap,
}
use dotdns.Text.{Text, codes}
use dotdns.Upstream.{UpstreamError, network}

-- The addresses of a result, none of an error.
abbrev pub ok_or_none : Result UpstreamError (List IpAddr) → List IpAddr
ok_or_none (ok ips) = ips
ok_or_none (err e) = []

module _ (show_addr : SocketAddr → Text)
    (ask : SocketAddr → Text → Family → Result UpstreamError (List IpAddr)) where
  -- What a server gives for a name.
  abbrev pub given : Text → SocketAddr → List IpAddr
  given host server = ok_or_none (ask server host a) ++ ok_or_none (ask server host aaaa)

  note-addresses :
      (server : SocketAddr) (label : Text) (r : Result UpstreamError (List IpAddr))
      (acc : List IpAddr × List Text)
      → (note show_addr ask server label r acc).0 ≡ acc.0 ++ ok_or_none r
  unfolding note
  note-addresses server label (ok ips) acc = refl
  note-addresses server label (err e) acc = sym (append-nil acc.0)

  abbrev pub Outcome : Text → List SocketAddr → Result UpstreamError (List IpAddr) → Type 0
  Outcome host servers out =
      ((before : List SocketAddr) × (server : SocketAddr) × (after : List SocketAddr) × (servers
          ≡ before ++ (server ∷ after))
        × All (λ s. given host s ≡ []) before
        × (given host server ≢ [])
        × (out ≡ ok (dedup (given host server))))
      ⊎ (All (λ s. given host s ≡ []) servers × ((e : Text) × (out ≡ err (network e))))

  Outcome-cons :
      (host : Text) (server : SocketAddr) (servers : List SocketAddr)
      (out : Result UpstreamError (List IpAddr))
      → given host server ≡ []
      → Outcome host servers out
      → Outcome host (server ∷ servers) out
  Outcome-cons host server servers out h (inl (before, s, after, e, none, some_of, result)) =
      inl (server ∷ before, s, after, ap (◌∷◌ server) e, (h, none), some_of, result)
  Outcome-cons host server servers out h (inr (none, e)) = inr ((h, none), e)

  found_or-Outcome :
      (host : Text) (server : SocketAddr) (servers : List SocketAddr) (addrs : List IpAddr)
      (next : Result UpstreamError (List IpAddr))
      → addrs ≡ given host server
      → Outcome host servers next
      → Outcome host (server ∷ servers) (found_or show_addr ask addrs next)
  unfolding found_or
  found_or-Outcome host server servers [] next h o = Outcome-cons host server servers next (sym h) o
  found_or-Outcome host server servers (ip ∷ ips) next h o = inl (
    [],
    server,
    servers,
    refl,
    tt,
    (λ none. let k = h ∙ none in cc),
    ap (λ ips. ok (dedup ips)) h,
  )

  failed :
      (host : Text) (errors : List Text)
      → (e : Text) × (no_addresses show_addr ask host errors ≡ network e)
  unfolding no_addresses
  failed host [] = (_, refl)
  failed host (e ∷ es) = (_, refl)

  ask_servers-Outcome :
      (host : Text) (servers : List SocketAddr) (errors : List Text)
      → Outcome host servers (ask_servers show_addr ask host servers errors)
  unfolding ask_servers
  ask_servers-Outcome host [] errors = let (e, h) = failed host errors in inr (tt, (e, ap err h))
  ask_servers-Outcome host (server ∷ servers) errors =
      let by_a = note show_addr ask server (codes " A: ") (ask server host a) ([], errors) in
      let both = note show_addr ask server (codes " AAAA: ") (ask server host aaaa) by_a in
      found_or-Outcome host server servers both.0 _
        (note-addresses server (codes " AAAA: ") (ask server host aaaa) by_a
          ∙ ap (λ ips. ips ++ ok_or_none (ask server host aaaa))
              (note-addresses server (codes " A: ") (ask server host a) ([], errors)))
        (ask_servers-Outcome host servers both.1)

  -- A name gets the addresses of the first bootstrap server that gives any, IPv4 before IPv6 and each once
  -- in a row; where no server gives any, there is an error.
  pub resolve_host_with_bootstrap-Outcome :
      (host : Text) (bootstrap_dns : List SocketAddr)
      → Outcome host bootstrap_dns (resolve_host_with_bootstrap show_addr ask host bootstrap_dns)
  unfolding resolve_host_with_bootstrap
  resolve_host_with_bootstrap-Outcome host bootstrap_dns = ask_servers-Outcome host bootstrap_dns []
