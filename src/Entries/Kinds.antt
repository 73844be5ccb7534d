-- ===== src/Entries/Kinds.antt =====
-- src/upstream.rs: which upstream an entry of the configuration gives, and the error of one that gives
-- none, written out for each protocol.
use dotdns.Prelude.{
  ℕ, ◌+◌, ◌*◌, ◌-◌, ◌^◌, min, ◌≡◌, ◌⊎◌, true, false, ◌||◌, List, [], ◌∷◌, ◌++◌, none, some, Result,
  ok, err,
}
use dotdns.Config.{UpstreamEntry, UpstreamProtocol, tls, https}
use dotdns.Entries.{
  Urls, DohEndpoint, Upstream, dot, doh, max_duration, unwrap_or, normalize_doh_url,
}
use dotdns.Net.{SocketAddr}
use dotdns.Resolution.{extract_host, port_from_address}
use dotdns.Text.{Text, codes, eq_text, is_empty, starts_with, trim}
use dotdns.Upstream.{UpstreamError, network, invalid_response, unsupported_feature}

-- Five seconds more than the request may take, and ten at least.
abbrev pub client_budget : ℕ → ℕ
client_budget request_timeout =
    let longer = min (request_timeout + 5 * 10 ^ 9) max_duration in longer + (10 * 10 ^ 9 - longer)

module _ (urls : Urls) where
  -- The URL of an address: https is the default scheme and the only one, /dns-query the default path.
  pub record NormalUrl (address url : Text) : Type 0 where
    pub given : Text
    pub scheme_given :
        ((given ≡ trim address)
          × (starts_with (trim address) (codes "https://")
                || starts_with (trim address) (codes "http://")
              ≡ true))
        ⊎ ((given ≡ codes "https://" ++ trim address)
            × (starts_with (trim address) (codes "https://")
                  || starts_with (trim address) (codes "http://")
                ≡ false))
    pub parsed : urls.Url
    pub parses : urls.parse given ≡ ok parsed
    pub is_https : eq_text (urls.scheme parsed) (codes "https") ≡ true
    pub printed :
        ((url ≡ urls.to_string (urls.set_path (codes "/dns-query") parsed))
          × (is_empty (urls.path parsed) || eq_text (urls.path parsed) (codes "/") ≡ true))
        ⊎ ((url ≡ urls.to_string parsed)
            × (is_empty (urls.path parsed) || eq_text (urls.path parsed) (codes "/") ≡ false))

  module _ {HttpClient : Type 0} (build : Text → SocketAddr → ℕ → Result Text HttpClient)
      (resolve : Text → ℕ → Result UpstreamError (List SocketAddr)) where
    -- A client for each address, in their order.
    pub data Clients (host : Text) (t : ℕ)
        : List SocketAddr → List (DohEndpoint HttpClient) → Type 0 where
      no_addrs : Clients host t [] []
      with_client :
          (addr : SocketAddr) (addrs : List SocketAddr) (client : HttpClient)
          (endpoints : List (DohEndpoint HttpClient))
          → build host addr (client_budget t) ≡ ok client
          → Clients host t addrs endpoints
          → Clients host t (addr ∷ addrs) (record { addr = addr; client = client } ∷ endpoints)

    -- The first address that has no client.
    pub data NoClient (host : Text) (t : ℕ) : List SocketAddr → Text → Type 0 where
      first :
          (addr : SocketAddr) (addrs : List SocketAddr) (problem : Text)
          → build host addr (client_budget t) ≡ err problem
          → NoClient host t (addr ∷ addrs) problem
      later :
          (addr : SocketAddr) (addrs : List SocketAddr) (client : HttpClient) (problem : Text)
          → build host addr (client_budget t) ≡ ok client
          → NoClient host t addrs problem
          → NoClient host t (addr ∷ addrs) problem

    -- The upstream that an entry gives.
    pub data Built (entry : UpstreamEntry) : Upstream HttpClient → Type 0 where
      a_plain :
          entry.tls_cert_path ≡ none
          → entry.protocol ≡ UpstreamProtocol.plain
          → Built entry (
              Upstream.plain (record {
                address = entry.address;
                udp_timeout = min entry.timeout (2 * 10 ^ 9);
                tcp_timeout = entry.timeout;
              }))
      a_dot :
          (endpoints : List SocketAddr)
          → entry.tls_cert_path ≡ none
          → entry.protocol ≡ tls
          → resolve (extract_host entry.address) (unwrap_or 853 (port_from_address entry.address))
            ≡ ok endpoints
          → Built entry (
              dot (record {
                address = entry.address;
                hostname = extract_host entry.address;
                endpoints = endpoints;
                timeout = entry.timeout;
              }))
      a_doh :
          (url host : Text) (parts : urls.Url) (addrs : List SocketAddr)
          (endpoints : List (DohEndpoint HttpClient))
          → entry.tls_cert_path ≡ none
          → entry.protocol ≡ https
          → NormalUrl entry.address url
          → urls.parse url ≡ ok parts
          → urls.host_str parts ≡ some host
          → resolve host (unwrap_or 443 (urls.port_or_known_default parts)) ≡ ok addrs
          → Clients host entry.timeout addrs endpoints
          → Built entry (doh (record { url = url; timeout = entry.timeout; endpoints = endpoints }))

    -- The error of an entry that gives none.
    pub data Unbuilt (entry : UpstreamEntry) : UpstreamError → Type 0 where
      certificate :
          (path : Text)
          → entry.tls_cert_path ≡ some path
          → Unbuilt entry (unsupported_feature (codes "tls_cert_path is not supported"))
      dot_unresolved :
          (e : UpstreamError)
          → entry.tls_cert_path ≡ none
          → entry.protocol ≡ tls
          → resolve (extract_host entry.address) (unwrap_or 853 (port_from_address entry.address))
            ≡ err e
          → Unbuilt entry e
      url_refused :
          (e : UpstreamError)
          → entry.tls_cert_path ≡ none
          → entry.protocol ≡ https
          → normalize_doh_url urls entry.address ≡ err e
          → Unbuilt entry e
      url_unparsed :
          (url problem : Text)
          → entry.tls_cert_path ≡ none
          → entry.protocol ≡ https
          → NormalUrl entry.address url
          → urls.parse url ≡ err problem
          → Unbuilt entry (invalid_response (codes "invalid DoH URL: " ++ problem))
      hostless :
          (url : Text) (parts : urls.Url)
          → entry.tls_cert_path ≡ none
          → entry.protocol ≡ https
          → NormalUrl entry.address url
          → urls.parse url ≡ ok parts
          → urls.host_str parts ≡ none
          → Unbuilt entry (invalid_response (codes "DoH URL has no host"))
      doh_unresolved :
          (url host : Text) (parts : urls.Url) (e : UpstreamError)
          → entry.tls_cert_path ≡ none
          → entry.protocol ≡ https
          → NormalUrl entry.address url
          → urls.parse url ≡ ok parts
          → urls.host_str parts ≡ some host
          → resolve host (unwrap_or 443 (urls.port_or_known_default parts)) ≡ err e
          → Unbuilt entry e
      clientless :
          (url host : Text) (parts : urls.Url) (addrs : List SocketAddr) (problem : Text)
          → entry.tls_cert_path ≡ none
          → entry.protocol ≡ https
          → NormalUrl entry.address url
          → urls.parse url ≡ ok parts
          → urls.host_str parts ≡ some host
          → resolve host (unwrap_or 443 (urls.port_or_known_default parts)) ≡ ok addrs
          → NoClient host entry.timeout addrs problem
          → Unbuilt entry (network problem)
