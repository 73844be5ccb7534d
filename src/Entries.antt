-- ===== src/Entries.antt =====
-- src/upstream.rs: the upstreams that the configuration calls for, and their pool. The parser of URLs and
-- the building of HTTP clients are parameters, and so is `resolve`, which is `resolve_host` with the
-- bootstrap servers.
pub mod Kinds
pub mod Outcome
pub mod Built
use dotdns.Prelude.{
  ℕ, ◌+◌, ◌*◌, ◌-◌, ◌^◌, not, ◌||◌, Bool, List, [], ◌∷◌, ◌++◌, Option, none, some, Result, ok, err,
  ◌>>=◌, map_err, map, leb, if◌then◌else◌,
}
use dotdns.Config.{UpstreamEntry, UpstreamProtocol, tls, https}
use dotdns.Metrics.{MetricsRecorder}
use dotdns.Net.{SocketAddr}
use dotdns.Observability.{ObservabilityRegistry}
use dotdns.Resolution.{extract_host, port_from_address}
use dotdns.Text.{Text, codes, eq_text, is_empty, starts_with, trim}
use dotdns.Transports.{PlainUpstream, new_plain}
use dotdns.Upstream.{
  UpstreamError, UpstreamPool, UpstreamSelectionPolicy, network, invalid_response,
  unsupported_feature, new_pool,
}

-- `reqwest::Url`
pub record Urls : Type 1 where
  pub Url : Type 0
  pub parse : Text → Result Text Url
  pub scheme : Url → Text
  pub path : Url → Text
  pub set_path : Text → Url → Url
  pub to_string : Url → Text
  pub host_str : Url → Option Text
  pub port_or_known_default : Url → Option ℕ

-- `Option::unwrap_or` and `Option::ok_or_else`
abbrev pub unwrap_or : {A : Type 0} → A → Option A → A
unwrap_or default none = default
unwrap_or default (some x) = x

abbrev pub ok_or : {A : Type 0} → UpstreamError → Option A → Result UpstreamError A
ok_or e none = err e
ok_or e (some x) = ok x

abbrev pub max_duration : ℕ
max_duration = 2 ^ 64 * 10 ^ 9 - 1

-- `request_timeout.saturating_add(5s).max(10s)`
unfoldable pub client_timeout : ℕ → ℕ
client_timeout request_timeout =
    let longer = request_timeout + 5 * 10 ^ 9 in
    let bounded = if leb longer max_duration then longer else max_duration in
    if leb (10 * 10 ^ 9) bounded then bounded else 10 * 10 ^ 9

pub record DotUpstream : Type 0 where
  pub address : Text
  pub hostname : Text
  pub endpoints : List SocketAddr
  pub timeout : ℕ

pub record DohEndpoint (HttpClient : Type 0) : Type 0 where
  pub addr : SocketAddr
  pub client : HttpClient

pub record DohUpstream (HttpClient : Type 0) : Type 0 where
  pub url : Text
  pub timeout : ℕ
  pub endpoints : List (DohEndpoint HttpClient)

pub data Upstream (HttpClient : Type 0) : Type 0 where
  plain : PlainUpstream → Upstream HttpClient
  dot : DotUpstream → Upstream HttpClient
  doh : DohUpstream HttpClient → Upstream HttpClient

module _ (urls : Urls) where
  unfoldable pub normalize_doh_url : Text → Result UpstreamError Text
  normalize_doh_url address =
      let raw = trim address in
      let with_scheme =
        if starts_with raw (codes "https://") || starts_with raw (codes "http://")
        then raw
        else codes "https://" ++ raw in
      map_err (λ e. invalid_response (codes "invalid DoH URL: " ++ e)) (urls.parse with_scheme)
      >>= λ url.
          if not (eq_text (urls.scheme url) (codes "https"))
          then err (unsupported_feature (codes "DoH upstreams require https URLs"))
          else ok (
              urls.to_string (
                if is_empty (urls.path url) || eq_text (urls.path url) (codes "/")
                then urls.set_path (codes "/dns-query") url
                else url))

  module _ {HttpClient : Type 0} (build : Text → SocketAddr → ℕ → Result Text HttpClient)
      (resolve : Text → ℕ → Result UpstreamError (List SocketAddr)) where
    unfoldable pub build_doh_endpoint :
        Text → ℕ → SocketAddr → Result UpstreamError (DohEndpoint HttpClient)
    unfolding client_timeout
    build_doh_endpoint host request_timeout addr =
        map_err network (build host addr (client_timeout request_timeout)) >>= λ client.
        ok (record { addr = addr; client = client })

    unfoldable pub build_doh_endpoints :
        Text → ℕ → List SocketAddr → Result UpstreamError (List (DohEndpoint HttpClient))
    unfolding build_doh_endpoint
    build_doh_endpoints host request_timeout [] = ok []
    build_doh_endpoints host request_timeout (addr ∷ addrs) =
        build_doh_endpoint host request_timeout addr >>= λ endpoint.
        build_doh_endpoints host request_timeout addrs >>= λ endpoints. ok (endpoint ∷ endpoints)

    unfoldable pub new_doh : UpstreamEntry → Result UpstreamError (DohUpstream HttpClient)
    unfolding normalize_doh_url build_doh_endpoints
    new_doh entry = normalize_doh_url entry.address >>= λ url.
        map_err (λ e. invalid_response (codes "invalid DoH URL: " ++ e)) (urls.parse url)
        >>= λ parts.
            ok_or (invalid_response (codes "DoH URL has no host")) (urls.host_str parts) >>= λ host.
            resolve host (unwrap_or 443 (urls.port_or_known_default parts)) >>= λ addrs.
            build_doh_endpoints host entry.timeout addrs >>= λ endpoints.
            ok (record { url = url; timeout = entry.timeout; endpoints = endpoints })

    unfoldable pub new_dot : Text → ℕ → Result UpstreamError DotUpstream
    new_dot address budget =
        let hostname = extract_host address in
        resolve hostname (unwrap_or 853 (port_from_address address)) >>= λ endpoints.
        ok (record {
          address = address;
          hostname = hostname;
          endpoints = endpoints;
          timeout = budget;
        })

    from_protocol : UpstreamProtocol → UpstreamEntry → Result UpstreamError (Upstream HttpClient)
    unfolding new_dot new_doh
    from_protocol UpstreamProtocol.plain entry =
        ok (Upstream.plain (new_plain entry.address entry.timeout))
    from_protocol tls entry = new_dot entry.address entry.timeout >>= λ u. ok (dot u)
    from_protocol https entry = new_doh entry >>= λ u. ok (doh u)

    unfoldable pub from_entry : UpstreamEntry → Result UpstreamError (Upstream HttpClient)
    unfolding from_protocol
    from_entry entry = elim entry.tls_cert_path [
      | some path ↦ err (unsupported_feature (codes "tls_cert_path is not supported"))
      | none ↦ from_protocol entry.protocol entry
    ]

    unfoldable pub from_entries :
        List UpstreamEntry → Result UpstreamError (List (Upstream HttpClient × Text))
    unfolding from_entry
    from_entries [] = ok []
    from_entries (entry ∷ entries) = from_entry entry >>= λ upstream.
        from_entries entries >>= λ upstreams. ok ((upstream, entry.name) ∷ upstreams)

    unfoldable pub pool_from_config :
        List UpstreamEntry
        → Option MetricsRecorder
        → Option ObservabilityRegistry
        → UpstreamSelectionPolicy
        → Result UpstreamError (List (Upstream HttpClient) × UpstreamPool)
    unfolding from_entries
    pool_from_config entries metrics observability policy = from_entries entries >>= λ upstreams.
        ok (
          map (λ u. u.0) upstreams,
          new_pool (map (λ u. u.1) upstreams) metrics observability policy,
        )
