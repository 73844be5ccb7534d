-- ===== src/Tests/Serving.antt =====
-- The handler of src/server.rs at work, on the messages of `Samples`.
use dotdns.Prelude.{
  ℕ, ◌*◌, ◌+◌, ◌<◌, ◌≡◌, ◌⊎◌, refl, true, false, [], ◌∷◌, Option, none, some, ok, err, arith,
}
use dotdns.Blocklist.{
  BlocklistEngine, domain, decide, is_blocked, normalize_domain, rule_matches, domain_suffixes,
  contains,
}
use dotdns.Blocklist.Loading.{ReloadableBlocklist, decide_reloadable}
use dotdns.Cache.{nanos, clamp_ttl, min_ttl_secs, get}
use dotdns.Cache.Metering.{tallies}
use dotdns.CacheKey.{CacheKey, from_message}
use dotdns.Dns.{View}
use dotdns.Map.{lookup}
use dotdns.Metrics.{new}
use dotdns.Samples.{sample, question, answer, types}
use dotdns.Server.Accounting.{looked, asked, resolve_with_context-looked, lone_ask-Undisturbed}
use dotdns.Server.Answers.{received, resolve_with_context-id, resolve_with_context-blocked}
use dotdns.Server.Blocked.{Sinkhole, make_blocked_response-Sinkhole}
use dotdns.Server.Ecs.{query_with_ecs}
use dotdns.Server.Resolve.{
  lone_ask, pending_key, Stores, ResolveContext, Clock, Ask, look_up, blocks, resolve_with_context,
}
use dotdns.Server.Responses.{BlocklistConfig, null_ip, make_blocked_response}
use dotdns.Text.{
  Text, codes, eq_text, trim, trim_start, trim_end, trim_end_char, is_whitespace, is_empty,
}
use dotdns.Server.Answered.{resolve_with_context-answered}
use dotdns.Upstream.Failover.{Succeeds, order_of}
use dotdns.Upstream.{Exchange, new_health, all_failed, sequential, returns_at, attempt_order}

-- A list that blocks `ads.example`, or nothing.
abbrev with_rules : BlocklistEngine → ReloadableBlocklist
with_rules engine = record {
  engine = engine;
  paths = [];
  allowlist_paths = [];
  remote = record { urls = []; download_dir = []; timeout = 30; file_prefix = [] };
  allowlist_remote = record { urls = []; download_dir = []; timeout = 30; file_prefix = [] };
}

abbrev pub ads : BlocklistEngine
ads = record { blocks = domain (codes "ads.example") ∷ []; exceptions = [] }

abbrev rules_config : BlocklistConfig
rules_config = record {
  paths = [];
  urls = [];
  allowlist_paths = [];
  allowlist_urls = [];
  download_dir = [];
  refresh_interval = none;
  download_timeout = 30 * nanos;
  enabled = true;
  response_mode = null_ip;
  blocked_ttl = 300 * nanos;
}

abbrev pub context : BlocklistEngine → ResolveContext sample
context engine = record {
  blocklist = with_rules engine;
  client_ip = none;
  edns = record {
    enabled = false;
    preserve_client = true;
    client_subnet = record {
      enabled = false;
      ipv4_prefix = 24;
      ipv6_prefix = 56;
      exclude_private = true;
    };
  };
  blocklist_config = rules_config;
}

abbrev no_rules : BlocklistEngine
no_rules = record { blocks = []; exceptions = [] }

abbrev pub stores : Stores sample
stores = record {
  metrics = new 0;
  observability = none;
  cache = record {
    config = record { capacity = 2; min_ttl = none; max_ttl = some (60 * nanos) };
    entries = [];
  };
  pool = record {
    names = codes "quad9" ∷ [];
    metrics = none;
    observability = none;
    policy = sequential;
    round_robin_next = 0;
    health = new_health ∷ [];
  };
}

abbrev pub clock : Clock
clock = record { get_at = 0; insert_at = 0; pick = 0 }

-- Seven seconds later.
abbrev clock' : Clock
clock' = record { get_at = 7_000_000_000; insert_at = 7_000_000_000; pick = 0 }

-- Upstreams that answer, and that fail, with nothing else going on.
abbrev pub answers : Ask sample
answers m s = (s, ok answer)

abbrev fails : Ask sample
fails m s = (s, err all_failed)

abbrev pub lower : Text → Text
lower s = s

ads-blocked : blocks sample lower (context ads) (codes "ads.example.", 1, 1) ≡ true
unfolding blocks decide_reloadable decide is_blocked normalize_domain rule_matches domain_suffixes
    contains eq_text trim trim_start trim_end trim_end_char is_whitespace is_empty
ads-blocked = refl

ads-open : blocks sample lower (context no_rules) (codes "ads.example.", 1, 1) ≡ false
unfolding blocks decide_reloadable decide is_blocked normalize_domain rule_matches domain_suffixes
    contains eq_text trim trim_start trim_end trim_end_char is_whitespace is_empty
ads-open = refl

resolve_with_context-id_example :
    (sample.view
      (resolve_with_context sample lower answers (context ads) clock question stores).1).id
    ≡ 7
resolve_with_context-id_example =
    resolve_with_context-id sample lower answers (context ads) clock question stores

resolve_with_context-blocked_example :
    let out : Stores sample × View types =
      resolve_with_context sample lower answers (context ads) clock question stores in
    let up : View types = query_with_ecs sample question none (context ads).edns in
    let found : Option (View types) = (get sample 0 up (stores.cache, stores.metrics)).1 in
    (out ≡ resolve_with_context sample lower fails (context ads) clock question stores)
    × (((cached : View types) × (found ≡ some cached) × (out.1 ≡ sample.set_id 7 cached))
        ⊎ ((found ≡ none)
            × (out.1 ≡ make_blocked_response sample question (context ads).blocklist_config)))
resolve_with_context-blocked_example =
    resolve_with_context-blocked sample lower answers fails (context ads) clock question
      (codes "ads.example.", 1, 1) [] stores refl ads-blocked

-- An upstream that answers.
abbrev exchange : Exchange (View types)
exchange attempt idx = record { result = ok answer; elapsed_ms = 5; now_ms = 105 }

resolve_with_context-looked_example :
    tallies
      (resolve_with_context sample lower
        (lone_ask sample exchange 100 (λ s. s))
        (context no_rules)
        clock
        question
        stores).0.metrics
    ≡ looked
        (get sample 0
          (query_with_ecs sample question none (context no_rules).edns)
          (stores.cache, stores.metrics)).1
        (asked
          (blocks sample lower (context no_rules) (codes "ads.example.", 1, 1))
          (tallies stores.metrics))
resolve_with_context-looked_example =
    resolve_with_context-looked sample lower (lone_ask sample exchange 100 (λ s. s))
      (context no_rules) clock question (codes "ads.example.", 1, 1) [] stores
      (lone_ask-Undisturbed sample exchange 100 (λ s. s) (λ s. refl)) refl

make_blocked_response-Sinkhole_example :
    Sinkhole sample question null_ip
      (codes "ads.example.", 1, 1)
      300
      (sample.view (make_blocked_response sample question (context ads).blocklist_config))
make_blocked_response-Sinkhole_example =
    make_blocked_response-Sinkhole sample question (context ads).blocklist_config
      (codes "ads.example.", 1, 1) [] refl

abbrev key : CacheKey sample
key = record {
  name = codes "ads.example.";
  qtype = 1;
  qclass = 1;
  rd = true;
  do_bit = false;
  ecs = none;
}

-- The response to the first query, and the stores when it is sent.
abbrev first : Stores sample × View types
first = resolve_with_context sample lower answers (context no_rules) clock question stores

abbrev up : View types
up = query_with_ecs sample question none (context no_rules).edns

abbrev found : Stores sample × Option (View types)
found = look_up sample 0 up (received sample (context no_rules) stores)

abbrev ttl : ℕ
ttl = clamp_ttl stores.cache.config (min_ttl_secs sample first.1 * nanos)

nothing_cached : (get sample 0 up (stores.cache, stores.metrics)).1 ≡ none
unfolding get from_message query_with_ecs lookup
nothing_cached = refl

up-written : pending_key sample up ≡ ok (0 ∷ [])
unfolding pending_key query_with_ecs
up-written = refl

exchange-answers : (b : ℕ) → (r : View types) × ((exchange b 0).result ≡ ok r)
exchange-answers b = (answer, refl)

in_time : returns_at exchange 100 stores.pool < 100 + 10_000
unfolding returns_at attempt_order
in_time = omega arith

resolve_with_context-answered_example :
    (r : View types) × Succeeds exchange 0 (order_of stores.pool 100) r
    × ((resolve_with_context sample lower
          (lone_ask sample exchange 100 (λ s. s))
          (context no_rules)
          clock
          question
          stores).1
        ≡ sample.set_id 7 r)
resolve_with_context-answered_example =
    resolve_with_context-answered sample lower exchange 100 (λ s. s) (context no_rules) clock
      question (codes "ads.example.", 1, 1) [] stores (0 ∷ []) 0 refl ads-open nothing_cached
      up-written in_time (omega arith) exchange-answers
