-- ===== src/Stats.antt =====
-- src/observability.rs: the statistics of one upstream and of one client. Counters are `u64`.
use dotdns.Prelude.{
  ℕ, ◌+◌, ◌-◌, ◌/◌, ◌%◌, ◌^◌, Option, none, some, ltb, ◌==◌, if◌then◌else◌, incr, decr,
}
use dotdns.Net.{IpAddr}
use dotdns.Text.{Text}

pub record UpstreamStats : Type 0 where
  pub success_count : ℕ
  pub failure_count : ℕ
  pub timeout_count : ℕ
  pub total_success_latency_ms : ℕ
  pub last_success_latency_ms : ℕ

abbrev pub new_upstream_stats : UpstreamStats
new_upstream_stats = record {
  success_count = 0;
  failure_count = 0;
  timeout_count = 0;
  total_success_latency_ms = 0;
  last_success_latency_ms = 2 ^ 64 - 1;
}

unfoldable pub record_success : ℕ → UpstreamStats → UpstreamStats
record_success latency_ms s = record s {
  success_count = incr s.success_count;
  total_success_latency_ms = (s.total_success_latency_ms + latency_ms) % 2 ^ 64;
  last_success_latency_ms = latency_ms;
}

unfoldable pub record_failure : UpstreamStats → UpstreamStats
record_failure s = record s { failure_count = incr s.failure_count }

unfoldable pub record_timeout : UpstreamStats → UpstreamStats
record_timeout s = record s { timeout_count = incr s.timeout_count }

pub record UpstreamSnapshot : Type 0 where
  pub name : Text
  pub success_count : ℕ
  pub failure_count : ℕ
  pub timeout_count : ℕ
  pub last_success_latency_ms : Option ℕ
  pub avg_success_latency_ms : Option ℕ

unfoldable pub snapshot_upstream : Text → UpstreamStats → UpstreamSnapshot
snapshot_upstream name s = record {
  name = name;
  success_count = s.success_count;
  failure_count = s.failure_count;
  timeout_count = s.timeout_count;
  last_success_latency_ms =
      if s.last_success_latency_ms == 2 ^ 64 - 1 then none else some s.last_success_latency_ms;
  avg_success_latency_ms =
      if ltb 0 s.success_count then some (s.total_success_latency_ms / s.success_count) else none;
}

pub record ClientStats : Type 0 where
  pub total_queries : ℕ
  pub blocked_queries : ℕ
  pub cache_hits : ℕ
  pub cache_misses : ℕ
  pub active_connections : ℕ
  pub last_activity : ℕ

abbrev pub new_client_stats : ClientStats
new_client_stats = record {
  total_queries = 0;
  blocked_queries = 0;
  cache_hits = 0;
  cache_misses = 0;
  active_connections = 0;
  last_activity = 0;
}

unfoldable pub record_query : ClientStats → ClientStats
record_query s = record s { total_queries = incr s.total_queries }

unfoldable pub record_blocked : ClientStats → ClientStats
record_blocked s = record s { blocked_queries = incr s.blocked_queries }

unfoldable pub record_cache_hit : ClientStats → ClientStats
record_cache_hit s = record s { cache_hits = incr s.cache_hits }

unfoldable pub record_cache_miss : ClientStats → ClientStats
record_cache_miss s = record s { cache_misses = incr s.cache_misses }

unfoldable pub record_connection_opened : ClientStats → ClientStats
record_connection_opened s = record s { active_connections = incr s.active_connections }

unfoldable pub record_connection_closed : ClientStats → ClientStats
record_connection_closed s =
    if ltb 0 s.active_connections
    then record s { active_connections = decr s.active_connections }
    else s

unfoldable pub touch_activity : ℕ → ClientStats → ClientStats
touch_activity tick s = record s { last_activity = tick }

pub record ClientSnapshot : Type 0 where
  pub ip : IpAddr
  pub total_queries : ℕ
  pub blocked_queries : ℕ
  pub cache_hits : ℕ
  pub cache_misses : ℕ
  pub active_connections : ℕ

unfoldable pub snapshot_client : IpAddr → ClientStats → ClientSnapshot
snapshot_client ip s = record {
  ip = ip;
  total_queries = s.total_queries;
  blocked_queries = s.blocked_queries;
  cache_hits = s.cache_hits;
  cache_misses = s.cache_misses;
  active_connections = s.active_connections;
}
