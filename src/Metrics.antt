-- ===== src/Metrics.antt =====
-- src/metrics.rs: the counters that all parts of the server share. Each is a `u64` whose atomic
-- operations are indivisible; an `Instant` is a number of nanoseconds.
pub mod Persistence
pub mod Connections
pub mod Report
pub mod Stored
use dotdns.Prelude.{ℕ, ◌-◌, ◌/◌, ◌^◌, ◌<◌, ltb, if◌then◌else◌, incr, decr}

pub record MetricsRecorder : Type 0 where
  pub start_time : ℕ
  pub total_queries : ℕ
  pub cache_hits : ℕ
  pub cache_misses : ℕ
  pub blocked_queries : ℕ
  pub upstream_failures : ℕ
  pub upstream_successes : ℕ
  pub upstream_timeouts : ℕ
  pub cache_entries : ℕ
  pub cache_evictions : ℕ
  pub accepted_connections : ℕ
  pub active_connections : ℕ
  pub tls_handshake_success : ℕ
  pub tls_handshake_failures : ℕ
  pub dns_read_failures : ℕ
  pub dns_write_failures : ℕ
  pub pending_leaders : ℕ
  pub pending_followers : ℕ
  pub pending_follower_timeouts : ℕ
  pub pending_follower_successes : ℕ

pub record MetricsSnapshot : Type 0 where
  pub uptime_secs : ℕ
  pub total_queries : ℕ
  pub cache_hits : ℕ
  pub cache_misses : ℕ
  pub blocked_queries : ℕ
  pub upstream_failures : ℕ
  pub upstream_successes : ℕ
  pub upstream_timeouts : ℕ
  pub cache_entries : ℕ
  pub cache_evictions : ℕ
  pub accepted_connections : ℕ
  pub active_connections : ℕ
  pub tls_handshake_success : ℕ
  pub tls_handshake_failures : ℕ
  pub dns_read_failures : ℕ
  pub dns_write_failures : ℕ
  pub pending_leaders : ℕ
  pub pending_followers : ℕ
  pub pending_follower_timeouts : ℕ
  pub pending_follower_successes : ℕ

pub record PersistedMetrics : Type 0 where
  pub total_queries : ℕ
  pub cache_hits : ℕ
  pub cache_misses : ℕ
  pub blocked_queries : ℕ
  pub upstream_failures : ℕ
  pub upstream_successes : ℕ
  pub upstream_timeouts : ℕ
  pub cache_evictions : ℕ
  pub accepted_connections : ℕ
  pub tls_handshake_success : ℕ
  pub tls_handshake_failures : ℕ
  pub dns_read_failures : ℕ
  pub dns_write_failures : ℕ
  pub pending_follower_timeouts : ℕ
  pub pending_follower_successes : ℕ

-- `MetricsRecorder::new` at the time `now`.
abbrev pub new : ℕ → MetricsRecorder
new now = record {
  start_time = now;
  total_queries = 0;
  cache_hits = 0;
  cache_misses = 0;
  blocked_queries = 0;
  upstream_failures = 0;
  upstream_successes = 0;
  upstream_timeouts = 0;
  cache_entries = 0;
  cache_evictions = 0;
  accepted_connections = 0;
  active_connections = 0;
  tls_handshake_success = 0;
  tls_handshake_failures = 0;
  dns_read_failures = 0;
  dns_write_failures = 0;
  pending_leaders = 0;
  pending_followers = 0;
  pending_follower_timeouts = 0;
  pending_follower_successes = 0;
}

unfoldable pub from_persisted : ℕ → PersistedMetrics → MetricsRecorder
from_persisted now persisted = record {
  start_time = now;
  total_queries = persisted.total_queries;
  cache_hits = persisted.cache_hits;
  cache_misses = persisted.cache_misses;
  blocked_queries = persisted.blocked_queries;
  upstream_failures = persisted.upstream_failures;
  upstream_successes = persisted.upstream_successes;
  upstream_timeouts = persisted.upstream_timeouts;
  cache_entries = 0;
  cache_evictions = persisted.cache_evictions;
  accepted_connections = persisted.accepted_connections;
  active_connections = 0;
  tls_handshake_success = persisted.tls_handshake_success;
  tls_handshake_failures = persisted.tls_handshake_failures;
  dns_read_failures = persisted.dns_read_failures;
  dns_write_failures = persisted.dns_write_failures;
  pending_leaders = 0;
  pending_followers = 0;
  pending_follower_timeouts = persisted.pending_follower_timeouts;
  pending_follower_successes = persisted.pending_follower_successes;
}

unfoldable pub snapshot : ℕ → MetricsRecorder → MetricsSnapshot
snapshot now m = record {
  uptime_secs = (now - m.start_time) / 10 ^ 9;
  total_queries = m.total_queries;
  cache_hits = m.cache_hits;
  cache_misses = m.cache_misses;
  blocked_queries = m.blocked_queries;
  upstream_failures = m.upstream_failures;
  upstream_successes = m.upstream_successes;
  upstream_timeouts = m.upstream_timeouts;
  cache_entries = m.cache_entries;
  cache_evictions = m.cache_evictions;
  accepted_connections = m.accepted_connections;
  active_connections = m.active_connections;
  tls_handshake_success = m.tls_handshake_success;
  tls_handshake_failures = m.tls_handshake_failures;
  dns_read_failures = m.dns_read_failures;
  dns_write_failures = m.dns_write_failures;
  pending_leaders = m.pending_leaders;
  pending_followers = m.pending_followers;
  pending_follower_timeouts = m.pending_follower_timeouts;
  pending_follower_successes = m.pending_follower_successes;
}

unfoldable pub to_persisted : MetricsRecorder → PersistedMetrics
to_persisted m = record {
  total_queries = m.total_queries;
  cache_hits = m.cache_hits;
  cache_misses = m.cache_misses;
  blocked_queries = m.blocked_queries;
  upstream_failures = m.upstream_failures;
  upstream_successes = m.upstream_successes;
  upstream_timeouts = m.upstream_timeouts;
  cache_evictions = m.cache_evictions;
  accepted_connections = m.accepted_connections;
  tls_handshake_success = m.tls_handshake_success;
  tls_handshake_failures = m.tls_handshake_failures;
  dns_read_failures = m.dns_read_failures;
  dns_write_failures = m.dns_write_failures;
  pending_follower_timeouts = m.pending_follower_timeouts;
  pending_follower_successes = m.pending_follower_successes;
}

unfoldable pub record_query : MetricsRecorder → MetricsRecorder
record_query m = record m { total_queries = incr m.total_queries }

unfoldable pub record_cache_hit : MetricsRecorder → MetricsRecorder
record_cache_hit m = record m { cache_hits = incr m.cache_hits }

unfoldable pub record_cache_miss : MetricsRecorder → MetricsRecorder
record_cache_miss m = record m { cache_misses = incr m.cache_misses }

unfoldable pub record_blocked : MetricsRecorder → MetricsRecorder
record_blocked m = record m { blocked_queries = incr m.blocked_queries }

unfoldable pub record_upstream_failure : MetricsRecorder → MetricsRecorder
record_upstream_failure m = record m { upstream_failures = incr m.upstream_failures }

unfoldable pub record_upstream_success : MetricsRecorder → MetricsRecorder
record_upstream_success m = record m { upstream_successes = incr m.upstream_successes }

unfoldable pub record_upstream_timeout : MetricsRecorder → MetricsRecorder
record_upstream_timeout m = record m { upstream_timeouts = incr m.upstream_timeouts }

unfoldable pub record_cache_eviction : MetricsRecorder → MetricsRecorder
record_cache_eviction m = record m { cache_evictions = incr m.cache_evictions }

unfoldable pub record_tls_handshake_success : MetricsRecorder → MetricsRecorder
record_tls_handshake_success m = record m { tls_handshake_success = incr m.tls_handshake_success }

unfoldable pub record_tls_handshake_failure : MetricsRecorder → MetricsRecorder
record_tls_handshake_failure m = record m { tls_handshake_failures = incr m.tls_handshake_failures }

unfoldable pub record_dns_read_failure : MetricsRecorder → MetricsRecorder
record_dns_read_failure m = record m { dns_read_failures = incr m.dns_read_failures }

unfoldable pub record_dns_write_failure : MetricsRecorder → MetricsRecorder
record_dns_write_failure m = record m { dns_write_failures = incr m.dns_write_failures }

unfoldable pub record_pending_leader_started : MetricsRecorder → MetricsRecorder
record_pending_leader_started m = record m { pending_leaders = incr m.pending_leaders }

unfoldable pub record_pending_follower_joined : MetricsRecorder → MetricsRecorder
record_pending_follower_joined m = record m { pending_followers = incr m.pending_followers }

unfoldable pub set_cache_entries : ℕ → MetricsRecorder → MetricsRecorder
set_cache_entries n m = record m { cache_entries = n }

unfoldable pub record_accepted_connection : MetricsRecorder → MetricsRecorder
record_accepted_connection m = record m {
  accepted_connections = incr m.accepted_connections;
  active_connections = incr m.active_connections;
}

-- The test of the value that was loaded, and `fetch_sub`.
unfoldable pub close_loaded : ℕ → MetricsRecorder → MetricsRecorder
close_loaded current m =
    if ltb 0 current then record m { active_connections = decr m.active_connections } else m

-- `meanwhile` is what other tasks record between the load and `fetch_sub`.
unfoldable pub record_active_connection_closed :
    (MetricsRecorder → MetricsRecorder) → MetricsRecorder → MetricsRecorder
unfolding close_loaded
record_active_connection_closed meanwhile m = close_loaded m.active_connections (meanwhile m)

unfoldable pub record_pending_leader_completed : MetricsRecorder → MetricsRecorder
record_pending_leader_completed m = record m { pending_leaders = decr m.pending_leaders }

unfoldable pub record_pending_follower_resolved : MetricsRecorder → MetricsRecorder
record_pending_follower_resolved m = record m {
  pending_followers = decr m.pending_followers;
  pending_follower_successes = incr m.pending_follower_successes;
}

unfoldable pub record_pending_follower_timeout : MetricsRecorder → MetricsRecorder
record_pending_follower_timeout m = record m {
  pending_followers = decr m.pending_followers;
  pending_follower_timeouts = incr m.pending_follower_timeouts;
}
