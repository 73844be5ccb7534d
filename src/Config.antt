-- ===== src/Config.antt =====
-- src/config.rs: the configuration, and `Config::validate`. Reading TOML is a library's. Durations are
-- numbers of nanoseconds. `exists` is `Path::exists`, `parses_ip` whether a text parses as an
-- `IpAddr`, and `show_addr` the text of a socket address.
pub mod Validate
pub mod Validity
pub mod Defaults
use dotdns.Prelude.{
  ℕ, zero, suc, ◌+◌, ◌/◌, ◌^◌, Bool, true, false, not, ◌&&◌, ◌||◌, List, [], ◌∷◌, ◌++◌, Option,
  none, some, Result, ok, err, ◌>>=◌, ◌>>◌, ltb, ◌==◌, if◌then◌else◌,
}
use dotdns.Cache.{CacheConfig}
use dotdns.Net.{IpAddr, v4, v6, SocketAddr}
use dotdns.Server.Ecs.{EdnsConfig}
use dotdns.Server.Responses.{BlocklistConfig}
use dotdns.Text.{
  Text, codes, is_empty, starts_with, contains_char, before_char, padded, rsplit_once,
}
use dotdns.Upstream.{UpstreamSelectionPolicy}

pub data ConfigError : Type 0 where
  invalid_value : Text → Text → ConfigError
  no_upstreams : ConfigError
  blocklist_path_not_found : Text → ConfigError
  allowlist_path_not_found : Text → ConfigError
  invalid_blocklist_url : Text → ConfigError
  invalid_allowlist_url : Text → ConfigError
  tls_incomplete : ConfigError
  management_not_loopback : Text → ConfigError

pub record ServerConfig : Type 0 where
  pub binds : List SocketAddr
  pub idle_timeout : ℕ

pub record DohConfig : Type 0 where
  pub binds : List SocketAddr
  pub idle_timeout : ℕ

pub record TlsConfig : Type 0 where
  pub cert_path : Option Text
  pub key_path : Option Text

pub data UpstreamProtocol : Type 0 where
  plain tls https : UpstreamProtocol

pub record UpstreamEntry : Type 0 where
  pub name : Text
  pub address : Text
  pub protocol : UpstreamProtocol
  pub tls_cert_path : Option Text
  pub timeout : ℕ

pub record BootstrapConfig : Type 0 where
  pub dns : List SocketAddr

pub data ManagementTransport : Type 0 where
  unix : Text → ManagementTransport
  tcp : SocketAddr → ManagementTransport

pub data LogFormat : Type 0 where
  pretty json compact : LogFormat

pub record LoggingConfig : Type 0 where
  pub level : Text
  pub format : LogFormat

pub record Config : Type 0 where
  pub server : ServerConfig
  pub tls : TlsConfig
  pub upstreams : List UpstreamEntry
  pub upstream_selection_policy : UpstreamSelectionPolicy
  pub bootstrap : BootstrapConfig
  pub cache : CacheConfig
  pub edns : EdnsConfig
  pub blocklist : BlocklistConfig
  pub management : ManagementTransport
  pub logging : LoggingConfig
  pub stats_path : Text
  pub doh : Option DohConfig

-- `IpAddr::is_loopback`: 127.0.0.0/8 and ::1.
abbrev pub is_loopback : SocketAddr → Bool
is_loopback a = elim a.ip [ v4 n ↦ n / 2 ^ 24 == 127 | v6 n ↦ n == 1 ]

first_or : Option (Text × Text) → Text → Text
first_or none s = s
first_or (some (host, port)) s = host

-- `strip_prefix('[')` with `split_once(']')`, and otherwise `rsplit_once(':')`.
unfoldable pub host_from_address : Text → Text
unfolding first_or
host_from_address [] = []
host_from_address (c ∷ s) =
    if c == b'['
    then (if contains_char s b']' then before_char s b']' else c ∷ s)
    else first_or (rsplit_once (c ∷ s) b':') (c ∷ s)

abbrev pub no_items : {A : Type 0} → List A → Bool
no_items [] = true
no_items (x ∷ xs) = false

abbrev pub is_some : {A : Type 0} → Option A → Bool
is_some none = false
is_some (some a) = true

abbrev pub is_tls : UpstreamProtocol → Bool
is_tls tls = true
is_tls _ = false

-- `if test { return Err(e) }`
abbrev pub refuse : Bool → ConfigError → Result ConfigError (Unit {0})
refuse true e = err e
refuse false e = ok tt

-- `name[i]`
abbrev pub indexed : Text → ℕ → Text
indexed name i = name ++ (codes "[" ++ (padded 1 i ++ codes "]"))

abbrev pub same : Bool → Bool → Bool
same true b = b
same false b = not b

abbrev pub is_http : Text → Bool
is_http url = starts_with url (codes "http://") || starts_with url (codes "https://")
