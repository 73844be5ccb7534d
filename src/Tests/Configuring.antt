-- ===== src/Tests/Configuring.antt =====
-- `Config::validate` of src/config.rs at work.
use dotdns.Prelude.{◌≡◌, ◌↔◌, refl, Bool, true, false, [], ◌∷◌, none, ok, err}
use dotdns.Config.{Config, UpstreamEntry, tls, unix, pretty, invalid_value, host_from_address}
use dotdns.Config.Validate.{
  validate, check_each, check_upstream, check_server, check_doh, check_transport, check_interval,
}
use dotdns.Config.Validity.{IsValid, validate_iff}
use dotdns.Net.{v4, SocketAddr}
use dotdns.Server.Responses.{null_ip}
use dotdns.Text.{Text, codes, is_empty, eq_text, contains_char, padded, starts_with, rsplit_once}
use dotdns.Upstream.{sequential}

abbrev upstream : UpstreamEntry
upstream = record {
  name = codes "quad9";
  address = codes "dns.quad9.net:853";
  protocol = tls;
  tls_cert_path = none;
  timeout = 5_000_000_000;
}

abbrev config : Config
config = record {
  server = record { binds = record { ip = v4 0; port = 853 } ∷ []; idle_timeout = 60_000_000_000 };
  tls = record { cert_path = none; key_path = none };
  upstreams = upstream ∷ [];
  upstream_selection_policy = sequential;
  bootstrap = record { dns = [] };
  cache = record { capacity = 10_000; min_ttl = none; max_ttl = none };
  edns = record {
    enabled = true;
    preserve_client = true;
    client_subnet = record {
      enabled = false;
      ipv4_prefix = 24;
      ipv6_prefix = 56;
      exclude_private = true;
    };
  };
  blocklist = record {
    paths = [];
    urls = codes "https://lists.example/ads.txt" ∷ [];
    allowlist_paths = [];
    allowlist_urls = [];
    download_dir = codes "/var/lib/dotdns/blocklists";
    refresh_interval = none;
    download_timeout = 30_000_000_000;
    enabled = true;
    response_mode = null_ip;
    blocked_ttl = 300_000_000_000;
  };
  management = unix (codes "/tmp/dotdns.sock");
  logging = record { level = codes "info"; format = pretty };
  stats_path = codes "/var/lib/dotdns/stats.json";
  doh = none;
}

abbrev exists : Text → Bool
exists path = false

abbrev parses_ip : Text → Bool
parses_ip s = eq_text s (codes "9.9.9.9")

abbrev show_addr : SocketAddr → Text
show_addr a = codes "127.0.0.1:80"

validate_iff_example :
    (validate exists parses_ip show_addr config ≡ ok tt) ↔ IsValid exists parses_ip show_addr config
validate_iff_example = validate_iff exists parses_ip show_addr config

accepted : validate exists parses_ip show_addr config ≡ ok tt
unfolding validate check_each check_upstream check_server check_doh check_transport check_interval
    host_from_address is_empty eq_text contains_char starts_with rsplit_once
accepted = refl

refused :
    validate exists parses_ip show_addr
      (record config { upstreams = record upstream { address = codes "9.9.9.9:853" } ∷ [] })
    ≡ err (
        invalid_value
          (codes "upstreams[0].address")
          (codes "DoT upstream needs a hostname, not an IP"))
unfolding validate check_each check_upstream check_server check_doh check_transport check_interval
    host_from_address is_empty eq_text contains_char starts_with padded rsplit_once
refused = refl
