-- ===== src/Config/Validity.antt =====
-- src/config.rs, `Config::validate`: which configurations pass.
use dotdns.Prelude.{
  All, arith, ◌≡◌, ◌≢◌, ◌↔◌, ◌≤◌, ◌<◌, refl, ℕ, suc, Bool, true, false, not, ◌&&◌, List, [], ◌∷◌,
  Option, none, some, Result, ok, err, ◌>>◌, ltb, ◌==◌,
}
use dotdns.Text.{Text, is_empty}
use dotdns.Net.{SocketAddr}
use dotdns.Config.{
  ConfigError, UpstreamProtocol, plain, tls, https, blocklist_path_not_found,
  allowlist_path_not_found, invalid_blocklist_url, invalid_allowlist_url, tls_incomplete, DohConfig,
  UpstreamEntry, ManagementTransport, unix, tcp, Config, is_loopback, host_from_address, no_items,
  is_some, is_tls, refuse, same, is_http,
}
use dotdns.Config.Validate.{
  check_upstream, check_server, check_each, check_doh, check_transport, check_interval, validate,
}

-- A check passes.
abbrev Passes : Result ConfigError (Unit {0}) → Type 0
Passes r = r ≡ ok tt

>>-Passes : (r s : Result ConfigError (Unit {0})) → Passes (r >> s) ↔ (Passes r × Passes s)
>>-Passes (ok tt) s = (λ h. (refl, h), λ h. h.1)
>>-Passes (err e) s = (λ h. cc, λ h. cc)

seq : (r s : Result ConfigError (Unit {0})) → Passes r → Passes s → Passes (r >> s)
seq r s a b = (>>-Passes r s).1 (a, b)

refuse-Passes : (b : Bool) (e : ConfigError) → Passes (refuse b e) ↔ (b ≡ false)
refuse-Passes true e = (λ h. cc, λ h. cc)
refuse-Passes false e = (λ h. refl, λ h. refl)

via : {A B C : Type 0} → A ↔ B → B ↔ C → A ↔ C
via f g = (λ a. g.0 (f.0 a), λ c. f.1 (g.1 c))

-- All of some conditions.
abbrev pub Together : List (Type 0) → Type 0
Together [] = Unit
Together (P ∷ Ps) = P × Together Ps

ok-Passes : Passes (ok tt) ↔ Together []
ok-Passes = (λ h. tt, λ h. refl)

then-Passes :
    {P Q : Type 0} (r s : Result ConfigError (Unit {0}))
    → Passes r ↔ P
    → Passes s ↔ Q
    → Passes (r >> s) ↔ (P × Q)
then-Passes r s p q = via (>>-Passes r s) (λ h. (p.0 h.0, q.0 h.1), λ h. (p.1 h.0, q.1 h.1))

given-Passes :
    {A : Type 0} (xs : List A) (e : ConfigError) → Passes (refuse (no_items xs) e) ↔ (xs ≢ [])
given-Passes [] e = (λ h. cc, λ h. elim (h refl) [ ])
given-Passes (x ∷ xs) e = (λ h n. cc, λ h. refl)

positive-Passes : (n : ℕ) (e : ConfigError) → Passes (refuse (n == 0) e) ↔ (0 < n)
positive-Passes n e = via (refuse-Passes (n == 0) e) (ground arith)

required-Passes : (b : Bool) (e : ConfigError) → Passes (refuse (not b) e) ↔ (b ≡ true)
required-Passes b e = via (refuse-Passes (not b) e) (ground arith)

at_most-Passes : (k n : ℕ) (e : ConfigError) → Passes (refuse (ltb k n) e) ↔ (n ≤ k)
at_most-Passes k n e = via (refuse-Passes (ltb k n) e) (ground arith)

same_iff : (a b : Bool) → (same a b ≡ true) ↔ (a ≡ b)
same_iff true true = (λ h. refl, λ h. refl)
same_iff true false = (λ h. cc, λ h. cc)
same_iff false true = (λ h. cc, λ h. cc)
same_iff false false = (λ h. refl, λ h. refl)

-- An upstream has an address and time, and a DoT upstream has a host name.
pub record UpstreamOk (parses_ip : Text → Bool) (u : UpstreamEntry) : Type 0 where
  pub addressed : u.address ≢ []
  pub timed : 0 < u.timeout
  pub named : u.protocol ≡ tls → parses_ip (host_from_address u.address) ≡ false

is_empty_iff : (s : Text) → (is_empty s ≡ false) ↔ (s ≢ [])
unfolding is_empty
is_empty_iff [] = (λ h. cc, λ h. elim (h refl) [ ])
is_empty_iff (c ∷ s) = (λ h n. cc, λ h. refl)

named_iff : (p : UpstreamProtocol) (b : Bool) → ((is_tls p && b) ≡ false) ↔ (p ≡ tls → b ≡ false)
named_iff plain b = (λ h e. cc, λ h. refl)
named_iff tls b = (λ h e. h, λ h. h refl)
named_iff https b = (λ h e. cc, λ h. refl)

module _ {A : Type 0} (check : ℕ → A → Result ConfigError (Unit {0})) (P : A → Type 0)
    (each : (i : ℕ) (x : A) → Passes (check i x) ↔ P x) where
  check_each-All : (i : ℕ) (xs : List A) → Passes (check_each check i xs) ↔ All P xs
  unfolding check_each
  check_each-All i [] = (λ h. tt, λ h. refl)
  check_each-All i (x ∷ xs) =
      let (rest_to, rest_from) = check_each-All (suc i) xs in
      let (seq_to, seq_from) = >>-Passes (check i x) (check_each check (suc i) xs) in
      (
        λ h. ((each i x).0 (seq_to h).0, rest_to (seq_to h).1),
        λ h. seq_from ((each i x).1 h.0, rest_from h.1),
      )

module _ (exists parses_ip : Text → Bool) (show_addr : SocketAddr → Text) where
  check_upstream-Ok :
      (i : ℕ) (u : UpstreamEntry)
      → Passes (check_upstream exists parses_ip show_addr i u) ↔ UpstreamOk parses_ip u
  unfolding check_upstream
  check_upstream-Ok i u = (
    λ h.
        let (a, t) = (>>-Passes _ _).0 h in
        let (b, c) = (>>-Passes _ _).0 t in
        record {
          addressed = (is_empty_iff u.address).0 ((refuse-Passes _ _).0 a);
          timed = (positive-Passes u.timeout _).0 b;
          named = (named_iff u.protocol _).0 ((refuse-Passes _ _).0 c);
        },
    λ o. seq _ _ ((refuse-Passes _ _).1 ((is_empty_iff u.address).1 o.addressed)) (
        seq _ _ ((positive-Passes u.timeout _).1 o.timed)
          ((refuse-Passes _ _).1 ((named_iff u.protocol _).1 o.named))),
  )

  check_server-positive :
      (i : ℕ) (a : SocketAddr) → Passes (check_server exists parses_ip show_addr i a) ↔ (0 < a.port)
  unfolding check_server
  check_server-positive i a = positive-Passes a.port _

  -- DoH needs an address to listen on, and the certificate.
  abbrev pub DohOk : Option Text → Option DohConfig → Type 0
  DohOk cert_path none = Unit
  DohOk cert_path (some doh) = (doh.binds ≢ []) × (is_some cert_path ≡ true)

  check_doh-Ok :
      (cert_path : Option Text) (doh : Option DohConfig)
      → Passes (check_doh exists parses_ip show_addr cert_path doh) ↔ DohOk cert_path doh
  unfolding check_doh
  check_doh-Ok cert_path none = (λ h. tt, λ h. refl)
  check_doh-Ok cert_path (some doh) = (
    λ h.
        let (a, b) = (>>-Passes _ _).0 h in
        ((given-Passes doh.binds _).0 a, (required-Passes (is_some cert_path) _).0 b),
    λ o. seq _ _ ((given-Passes doh.binds _).1 o.0) ((required-Passes (is_some cert_path) _).1 o.1),
  )

  -- Over TCP the management socket is bound to the loopback interface.
  abbrev pub IsLocal : ManagementTransport → Type 0
  IsLocal (unix path) = Unit
  IsLocal (tcp bind) = is_loopback bind ≡ true

  check_transport-IsLocal :
      (t : ManagementTransport) → Passes (check_transport exists parses_ip show_addr t) ↔ IsLocal t
  unfolding check_transport
  check_transport-IsLocal (unix path) = (λ h. tt, λ h. refl)
  check_transport-IsLocal (tcp bind) = required-Passes (is_loopback bind) _

  abbrev pub Positive : Option ℕ → Type 0
  Positive none = Unit
  Positive (some interval) = 0 < interval

  check_interval-Positive :
      (i : Option ℕ) → Passes (check_interval exists parses_ip show_addr i) ↔ Positive i
  unfolding check_interval
  check_interval-Positive none = (λ h. tt, λ h. refl)
  check_interval-Positive (some interval) = positive-Passes interval _

  abbrev pub IsValid : Config → Type 0
  IsValid c = Together (
      (c.upstreams ≢ [])
      ∷ (c.server.binds ≢ [])
      ∷ All (UpstreamOk parses_ip) c.upstreams
      ∷ All (λ a. 0 < a.port) c.bootstrap.dns
      ∷ (is_some c.tls.cert_path ≡ is_some c.tls.key_path)
      ∷ DohOk c.tls.cert_path c.doh
      ∷ IsLocal c.management
      ∷ All (λ path. exists path ≡ true) c.blocklist.paths
      ∷ All (λ path. exists path ≡ true) c.blocklist.allowlist_paths
      ∷ All (λ url. is_http url ≡ true) c.blocklist.urls
      ∷ All (λ url. is_http url ≡ true) c.blocklist.allowlist_urls
      ∷ Positive c.blocklist.refresh_interval
      ∷ (0 < c.blocklist.download_timeout)
      ∷ (0 < c.blocklist.blocked_ttl)
      ∷ (c.edns.client_subnet.ipv4_prefix ≤ 32)
      ∷ (c.edns.client_subnet.ipv6_prefix ≤ 128)
      ∷ [])

  -- Every path of a list exists, and every URL is HTTP.
  each_required :
      (test : Text → Bool) (e : Text → ConfigError) (xs : List Text)
      → Passes (check_each (λ i x. refuse (not (test x)) (e x)) 0 xs) ↔ All (λ x. test x ≡ true) xs
  each_required test e =
      check_each-All (λ i x. refuse (not (test x)) (e x)) (λ x. test x ≡ true)
        (λ i x. required-Passes (test x) (e x)) 0

  -- `validate` accepts a configuration exactly if it is valid: it has an upstream and an address to
  -- listen on; each upstream has an address and time, and a DoT upstream no IP address; a TLS
  -- certificate comes with its key, and with DoH; management over TCP is bound to the loopback
  -- interface; local lists exist and remote ones are HTTP; times are positive; and the prefixes of the
  -- client subnet are no longer than an address.
  pub validate_iff : (c : Config) → (validate exists parses_ip show_addr c ≡ ok tt) ↔ IsValid c
  unfolding validate
  validate_iff c = then-Passes _ _ (given-Passes c.upstreams _) (
      then-Passes _ _ (given-Passes c.server.binds _) (
        then-Passes _ _ (check_each-All _ (UpstreamOk parses_ip) check_upstream-Ok 0 c.upstreams) (
          then-Passes _ _
            (check_each-All _ (λ a. 0 < a.port) check_server-positive 0 c.bootstrap.dns)
            (then-Passes _ _
              (via
                (required-Passes (same (is_some c.tls.cert_path) (is_some c.tls.key_path))
                  tls_incomplete)
                (same_iff (is_some c.tls.cert_path) (is_some c.tls.key_path)))
              (then-Passes _ _ (check_doh-Ok c.tls.cert_path c.doh) (
                then-Passes _ _ (check_transport-IsLocal c.management) (
                  then-Passes _ _ (each_required exists blocklist_path_not_found c.blocklist.paths)
                    (then-Passes _ _
                      (each_required exists allowlist_path_not_found c.blocklist.allowlist_paths)
                      (then-Passes _ _
                        (each_required is_http invalid_blocklist_url c.blocklist.urls)
                        (then-Passes _ _
                          (each_required is_http invalid_allowlist_url c.blocklist.allowlist_urls)
                          (then-Passes _ _ (check_interval-Positive c.blocklist.refresh_interval) (
                            then-Passes _ _ (positive-Passes c.blocklist.download_timeout _) (
                              then-Passes _ _ (positive-Passes c.blocklist.blocked_ttl _) (
                                then-Passes _ _
                                  (at_most-Passes 32 c.edns.client_subnet.ipv4_prefix _)
                                  (then-Passes _ _
                                    (at_most-Passes 128 c.edns.client_subnet.ipv6_prefix _)
                                    ok-Passes)))))))))))))))
