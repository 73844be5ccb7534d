-- ===== src/Config/Defaults.antt =====
-- src/config.rs: the default values, and that a configuration that gives only what has none is accepted.
use dotdns.Prelude.{ℕ, ◌*◌, ◌^◌, ◌≡◌, ◌≢◌, refl, Bool, true, false, List, [], none, ok, All, arith}
use dotdns.Cache.{CacheConfig}
use dotdns.Config.{UpstreamEntry, ManagementTransport, unix, LoggingConfig, pretty, Config}
use dotdns.Config.Validate.{validate}
use dotdns.Config.Validity.{UpstreamOk, validate_iff}
use dotdns.Net.{SocketAddr}
use dotdns.Server.Ecs.{EdnsConfig, ClientSubnetConfig}
use dotdns.Server.Responses.{BlocklistConfig, null_ip}
use dotdns.Text.{Text, codes}
use dotdns.Upstream.{sequential}

abbrev pub secs : ℕ → ℕ
secs n = n * 10 ^ 9

abbrev pub default_idle_timeout : ℕ
default_idle_timeout = secs 60

abbrev pub default_cache_capacity : ℕ
default_cache_capacity = 10_000

abbrev pub default_cache : CacheConfig
default_cache = record { capacity = default_cache_capacity; min_ttl = none; max_ttl = none }

abbrev pub default_client_subnet : ClientSubnetConfig
default_client_subnet = record {
  enabled = false;
  ipv4_prefix = 24;
  ipv6_prefix = 56;
  exclude_private = true;
}

abbrev pub default_edns : EdnsConfig
default_edns = record {
  enabled = true;
  preserve_client = true;
  client_subnet = default_client_subnet;
}

abbrev pub default_blocklist : BlocklistConfig
default_blocklist = record {
  paths = [];
  urls = [];
  allowlist_paths = [];
  allowlist_urls = [];
  download_dir = codes "/var/lib/dotdns/blocklists";
  refresh_interval = none;
  download_timeout = secs 30;
  enabled = true;
  response_mode = null_ip;
  blocked_ttl = secs 300;
}

abbrev pub default_management : ManagementTransport
default_management = unix (codes "/tmp/dotdns.sock")

abbrev pub default_logging : LoggingConfig
default_logging = record { level = codes "info"; format = pretty }

-- The configuration that gives the addresses to listen on and the upstreams.
unfoldable pub with_defaults : List SocketAddr → List UpstreamEntry → Config
with_defaults binds upstreams = record {
  server = record { binds = binds; idle_timeout = default_idle_timeout };
  tls = record { cert_path = none; key_path = none };
  upstreams = upstreams;
  upstream_selection_policy = sequential;
  bootstrap = record { dns = [] };
  cache = default_cache;
  edns = default_edns;
  blocklist = default_blocklist;
  management = default_management;
  logging = default_logging;
  stats_path = codes "/var/lib/dotdns/stats.json";
  doh = none;
}

-- A configuration that gives addresses to listen on and proper upstreams, and nothing else, is accepted.
pub validate-with_defaults :
    (exists parses_ip : Text → Bool) (show_addr : SocketAddr → Text) (binds : List SocketAddr)
    (upstreams : List UpstreamEntry)
    → binds ≢ []
    → upstreams ≢ []
    → All (UpstreamOk parses_ip) upstreams
    → validate exists parses_ip show_addr (with_defaults binds upstreams) ≡ ok tt
unfolding with_defaults
validate-with_defaults exists parses_ip show_addr binds upstreams some_bind some_upstream proper =
    (validate_iff exists parses_ip show_addr (with_defaults binds upstreams)).1 (
      some_upstream,
      (
        some_bind,
        (
          proper,
          (
            tt,
            (
              refl,
              (
                tt,
                (
                  tt,
                  (
                    tt,
                    (
                      tt,
                      (
                        tt,
                        (tt, (tt, (omega arith, (omega arith, (omega arith, (omega arith, tt)))))),
                      ),
                    ),
                  ),
                ),
              ),
            ),
          ),
        ),
      ),
    )
