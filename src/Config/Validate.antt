-- ===== src/Config/Validate.antt =====
-- src/config.rs, `Config::validate`: the checks in their order, of which the first that fails returns.
use dotdns.Prelude.{
  ℕ, suc, Bool, not, ◌&&◌, List, [], ◌∷◌, ◌++◌, Option, none, some, Result, ok, ◌>>◌, ltb, ◌==◌,
}
use dotdns.Text.{Text, codes, is_empty}
use dotdns.Net.{SocketAddr}
use dotdns.Config.{
  ConfigError, invalid_value, no_upstreams, blocklist_path_not_found, allowlist_path_not_found,
  invalid_blocklist_url, invalid_allowlist_url, tls_incomplete, management_not_loopback, SocketAddr,
  DohConfig, UpstreamEntry, ManagementTransport, unix, tcp, Config, is_loopback, host_from_address,
  no_items, is_some, is_tls, refuse, indexed, same, is_http,
}

-- `for (i, x) in xs.iter().enumerate()` with a check that may return.
unfoldable pub check_each :
    {A : Type 0}
    → (ℕ → A → Result ConfigError (Unit {0}))
    → ℕ
    → List A
    → Result ConfigError (Unit {0})
check_each check i [] = ok tt
check_each check i (x ∷ xs) = do check i x; check_each check (suc i) xs

module _ (exists parses_ip : Text → Bool) (show_addr : SocketAddr → Text) where
  -- The body of the loop over `upstreams.iter().enumerate()`.
  unfoldable pub check_upstream : ℕ → UpstreamEntry → Result ConfigError (Unit {0})
  check_upstream i u = do
    refuse (is_empty u.address) (
        invalid_value (indexed (codes "upstreams") i ++ codes ".address")
          (codes "upstream address must not be empty"))
    refuse (u.timeout == 0) (
        invalid_value (indexed (codes "upstreams") i ++ codes ".timeout")
          (codes "upstream timeout must be greater than zero"))
    refuse (is_tls u.protocol && parses_ip (host_from_address u.address)) (
        invalid_value (indexed (codes "upstreams") i ++ codes ".address")
          (codes "DoT upstream needs a hostname, not an IP"))

  unfoldable pub check_server : ℕ → SocketAddr → Result ConfigError (Unit {0})
  check_server i server = refuse (server.port == 0) (
      invalid_value (indexed (codes "bootstrap.dns") i)
        (codes "bootstrap DNS server port must be greater than zero"))

  unfoldable pub check_doh : Option Text → Option DohConfig → Result ConfigError (Unit {0})
  check_doh cert_path none = ok tt
  check_doh cert_path (some doh) = do
    refuse (no_items doh.binds)
        (invalid_value (codes "doh.binds") (codes "at least one listen address is required"))
    refuse (not (is_some cert_path))
        (invalid_value (codes "doh") (codes "DoH requires TLS certificate"))

  unfoldable pub check_transport : ManagementTransport → Result ConfigError (Unit {0})
  check_transport (unix path) = ok tt
  check_transport (tcp bind) =
      refuse (not (is_loopback bind)) (management_not_loopback (show_addr bind))

  unfoldable pub check_interval : Option ℕ → Result ConfigError (Unit {0})
  check_interval none = ok tt
  check_interval (some interval) = refuse (interval == 0) (
      invalid_value (codes "blocklist.refresh_interval")
        (codes "refresh interval must be greater than zero"))

  unfoldable pub validate : Config → Result ConfigError (Unit {0})
  unfolding check_upstream check_server check_each check_doh check_transport check_interval
  validate c = do
    refuse (no_items c.upstreams) no_upstreams
    refuse (no_items c.server.binds)
        (invalid_value (codes "server.binds") (codes "at least one listen address is required"))
    check_each check_upstream 0 c.upstreams
    check_each check_server 0 c.bootstrap.dns
    refuse (not (same (is_some c.tls.cert_path) (is_some c.tls.key_path))) tls_incomplete
    check_doh c.tls.cert_path c.doh
    check_transport c.management
    check_each (λ i path. refuse (not (exists path)) (blocklist_path_not_found path)) 0
        c.blocklist.paths
    check_each (λ i path. refuse (not (exists path)) (allowlist_path_not_found path)) 0
        c.blocklist.allowlist_paths
    check_each (λ i url. refuse (not (is_http url)) (invalid_blocklist_url url)) 0 c.blocklist.urls
    check_each (λ i url. refuse (not (is_http url)) (invalid_allowlist_url url)) 0
        c.blocklist.allowlist_urls
    check_interval c.blocklist.refresh_interval
    refuse (c.blocklist.download_timeout == 0) (
        invalid_value (codes "blocklist.download_timeout")
          (codes "download timeout must be greater than zero"))
    refuse (c.blocklist.blocked_ttl == 0) (
        invalid_value (codes "blocklist.blocked_ttl")
          (codes "blocked TTL must be greater than zero"))
    refuse (ltb 32 c.edns.client_subnet.ipv4_prefix) (
        invalid_value (codes "edns.client_subnet.ipv4_prefix")
          (codes "IPv4 ECS prefix must be between 0 and 32"))
    refuse (ltb 128 c.edns.client_subnet.ipv6_prefix) (
        invalid_value (codes "edns.client_subnet.ipv6_prefix")
          (codes "IPv6 ECS prefix must be between 0 and 128"))
    ok tt
