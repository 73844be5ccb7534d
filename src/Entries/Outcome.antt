-- ===== src/Entries/Outcome.antt =====
-- src/upstream.rs, `Upstream::from_entry`: an entry gives the upstream or the error of `Kinds`.
use dotdns.Prelude.{
  ℕ, ◌≡◌, ◌⊎◌, refl, inl, inr, true, false, if◌then◌else◌, Bool-cases, ◌||◌, List, [], ◌∷◌, ◌++◌,
  Option-cases, none, Result, ok, err, Result-cases, arith, sym, ap, ◌∙◌, min, leb, ◌*◌, ◌^◌,
}
use dotdns.Config.{UpstreamEntry, UpstreamProtocol, tls, https}
use dotdns.Entries.{
  Urls, DohEndpoint, DohUpstream, Upstream, doh, client_timeout, unwrap_or, normalize_doh_url,
  build_doh_endpoint, build_doh_endpoints, new_doh, new_dot, from_entry, from_protocol,
}
use dotdns.Entries.Kinds.{
  client_budget, NormalUrl, Clients, no_addrs, with_client, NoClient, first, later, Built, a_plain,
  a_dot, a_doh, Unbuilt, certificate, dot_unresolved, url_refused, url_unparsed, hostless,
  doh_unresolved, clientless,
}
use dotdns.Net.{SocketAddr}
use dotdns.Resolution.{extract_host, port_from_address}
use dotdns.Text.{Text, codes, eq_text, is_empty, starts_with, trim}
use dotdns.Transports.{new_plain}
use dotdns.Upstream.{UpstreamError, network}

client_timeout_lem : (t : ℕ) → client_timeout t ≡ client_budget t
unfolding client_timeout
client_timeout_lem t = ground arith

protocol-cases : (p : UpstreamProtocol) → (p ≡ UpstreamProtocol.plain) ⊎ ((p ≡ tls) ⊎ (p ≡ https))
protocol-cases UpstreamProtocol.plain = inl refl
protocol-cases tls = inr (inl refl)
protocol-cases https = inr (inr refl)

plain_built :
    (address : Text) (t : ℕ)
    → new_plain address t
      ≡ record { address = address; udp_timeout = min t (2 * 10 ^ 9); tcp_timeout = t }
unfolding new_plain
plain_built address t =
    let e : (if leb t (2 * 10 ^ 9) then t else 2 * 10 ^ 9) ≡ min t (2 * 10 ^ 9) = ground arith in
    ap (λ n. record { address = address; udp_timeout = n; tcp_timeout = t }) e

module _ (urls : Urls) where
  -- The text that is parsed: the address with a scheme.
  given_url : (raw : Text) → Text
  given_url raw =
      if starts_with raw (codes "https://") || starts_with raw (codes "http://")
      then raw
      else codes "https://" ++ raw

  given_url-cases :
      (raw : Text)
      → ((given_url raw ≡ raw)
          × (starts_with raw (codes "https://") || starts_with raw (codes "http://") ≡ true))
        ⊎ ((given_url raw ≡ codes "https://" ++ raw)
            × (starts_with raw (codes "https://") || starts_with raw (codes "http://") ≡ false))
  unfolding given_url
  given_url-cases raw =
      elim (Bool-cases (starts_with raw (codes "https://") || starts_with raw (codes "http://"))) [
        | inl y ↦ inl (rw y refl, y)
        | inr n ↦ inr (rw n refl, n)
      ]

  -- The URL that is printed: with the default path for the root.
  printed_url : urls.Url → Text
  printed_url url = urls.to_string (
      if is_empty (urls.path url) || eq_text (urls.path url) (codes "/")
      then urls.set_path (codes "/dns-query") url
      else url)

  printed_url-cases :
      (u : urls.Url) (url : Text)
      → printed_url u ≡ url
      → ((url ≡ urls.to_string (urls.set_path (codes "/dns-query") u))
          × (is_empty (urls.path u) || eq_text (urls.path u) (codes "/") ≡ true))
        ⊎ ((url ≡ urls.to_string u)
            × (is_empty (urls.path u) || eq_text (urls.path u) (codes "/") ≡ false))
  unfolding printed_url
  printed_url-cases u url h =
      elim (Bool-cases (is_empty (urls.path u) || eq_text (urls.path u) (codes "/"))) [
        | inl y ↦ inl (sym h ∙ rw (y, printed_url) refl, y)
        | inr n ↦ inr (sym h ∙ rw (n, printed_url) refl, n)
      ]

  answer : Text → Result UpstreamError Text
  answer url = ok url

  ok_inj : {x y : Text} → answer x ≡ answer y → x ≡ y
  unfolding answer
  ok_inj h = cc

  normalize_doh_url-NormalUrl :
      (address url : Text) → normalize_doh_url urls address ≡ ok url → NormalUrl urls address url
  unfolding normalize_doh_url given_url printed_url answer
  normalize_doh_url-NormalUrl address url h =
      elim (Result-cases (urls.parse (given_url (trim address)))) [
        | inr (e, k) ↦ (let bad = rw k at h in cc)
        | inl (u, k) ↦ elim (Bool-cases (eq_text (urls.scheme u) (codes "https"))) [
          | inr n ↦ (let bad = rw (k, n) at h in cc)
          | inl y ↦ record {
            given = given_url (trim address);
            scheme_given = given_url-cases (trim address);
            parsed = u;
            parses = k;
            is_https = y;
            printed = printed_url-cases u url (ok_inj (rw (k, y) at h));
          }
        ]
      ]

  module _ {HttpClient : Type 0} (build : Text → SocketAddr → ℕ → Result Text HttpClient)
      (resolve : Text → ℕ → Result UpstreamError (List SocketAddr)) where
    -- The end of making a DoH upstream: a client for each address, or the first problem.
    build_doh_endpoints-Clients :
        (host : Text) (t : ℕ) (addrs : List SocketAddr)
        → ((endpoints : List (DohEndpoint HttpClient)) × (build_doh_endpoints urls build resolve
                host t addrs
              ≡ ok endpoints)
            × Clients urls build resolve host t addrs endpoints)
          ⊎ ((problem : Text) × (build_doh_endpoints urls build resolve host t addrs
                ≡ err (network problem))
              × NoClient urls build resolve host t addrs problem)
    unfolding build_doh_endpoints build_doh_endpoint
    build_doh_endpoints-Clients host t [] = inl ([], refl, no_addrs)
    build_doh_endpoints-Clients host t (addr ∷ addrs) =
        let e = client_timeout_lem t in
        elim (Result-cases (build host addr (client_budget t))) [
          | inr (problem, h) ↦ inr (problem, rw (e, h) refl, first addr addrs problem h)
          | inl (client, h) ↦ elim (build_doh_endpoints-Clients host t addrs) [
            | inl (endpoints, k, c) ↦ inl (
              record { addr = addr; client = client } ∷ endpoints,
              rw (e, h, k) refl,
              with_client addr addrs client endpoints h c,
            )
            | inr (problem, k, c) ↦
                inr (problem, rw (e, h, k) refl, later addr addrs client problem h c)
          ]
        ]

    new_doh-Outcome :
        (entry : UpstreamEntry)
        → entry.tls_cert_path ≡ none
        → entry.protocol ≡ https
        → ((u : DohUpstream HttpClient) × (new_doh urls build resolve entry ≡ ok u)
            × Built urls build resolve entry (doh u))
          ⊎ ((e : UpstreamError) × (new_doh urls build resolve entry ≡ err e)
              × Unbuilt urls build resolve entry e)
    unfolding new_doh
    new_doh-Outcome entry c p = elim (Result-cases (normalize_doh_url urls entry.address)) [
      | inr (e, h) ↦ inr (e, rw h refl, url_refused e c p h)
      | inl (url, h) ↦
          let n = normalize_doh_url-NormalUrl entry.address url h in
          elim (Result-cases (urls.parse url)) [
            | inr (e, k) ↦ inr (_, rw (h, k) refl, url_unparsed url e c p n k)
            | inl (parts, k) ↦ elim (Option-cases (urls.host_str parts)) [
              | inl l ↦ inr (_, rw (h, k, l) refl, hostless url parts c p n k l)
              | inr (host, l) ↦
                  elim (Result-cases
                    (resolve host (unwrap_or 443 (urls.port_or_known_default parts)))) [
                      | inr (e, m) ↦
                          inr (e, rw (h, k, l, m) refl, doh_unresolved url host parts e c p n k l m)
                      | inl (addrs, m) ↦
                          elim (build_doh_endpoints-Clients host entry.timeout addrs) [
                            | inl (endpoints, b, cs) ↦ inl (
                              _,
                              rw (h, k, l, m, b) refl,
                              a_doh url host parts addrs endpoints c p n k l m cs,
                            )
                            | inr (problem, b, cs) ↦ inr (
                              _,
                              rw (h, k, l, m, b) refl,
                              clientless url host parts addrs problem c p n k l m cs,
                            )
                          ]
                    ]
            ]
          ]
    ]

    -- An entry gives an upstream of `Built`, or the error of `Unbuilt`.
    pub from_entry-Outcome :
        (entry : UpstreamEntry)
        → ((u : Upstream HttpClient) × (from_entry urls build resolve entry ≡ ok u)
            × Built urls build resolve entry u)
          ⊎ ((e : UpstreamError) × (from_entry urls build resolve entry ≡ err e)
              × Unbuilt urls build resolve entry e)
    unfolding from_entry from_protocol new_dot
    from_entry-Outcome entry = elim (Option-cases entry.tls_cert_path) [
      | inr (path, c) ↦ inr (_, rw c refl, certificate path c)
      | inl c ↦ elim (protocol-cases entry.protocol) [
        | inl p ↦ inl (
          _,
          rw (c, p) (ap (λ u. ok (Upstream.plain u)) (plain_built entry.address entry.timeout)),
          a_plain c p,
        )
        | inr (inl p) ↦
            elim (Result-cases (
              resolve (extract_host entry.address)
                (unwrap_or 853 (port_from_address entry.address)))) [
                  | inl (endpoints, h) ↦ inl (_, rw (c, p, h) refl, a_dot endpoints c p h)
                  | inr (e, h) ↦ inr (_, rw (c, p, h) refl, dot_unresolved e c p h)
                ]
        | inr (inr p) ↦ elim (new_doh-Outcome entry c p) [
          | inl (u, h, b) ↦ inl (_, rw (c, p, h) refl, b)
          | inr (e, h, b) ↦ inr (_, rw (c, p, h) refl, b)
        ]
      ]
    ]
