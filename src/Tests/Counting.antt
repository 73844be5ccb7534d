-- ===== src/Tests/Counting.antt =====
-- The counters of src/metrics.rs and src/observability.rs at work.
use dotdns.Prelude.{◌≡◌, refl, [], ◌∷◌, arith}
use dotdns.Map.{Distinct, lookup}
use dotdns.Metrics.{PersistedMetrics, new, record_accepted_connection, close_loaded}
use dotdns.Metrics.Connections.{
  loaded, over, started, accepts, loads, subtracts, next, Reach, set_stage, Exact, Reach-Exact,
}
use dotdns.Metrics.Report.{format_uptime}
use dotdns.Text.{codes, padded}
use dotdns.Net.{v4, ip_eq}
use dotdns.Observability.{ObservabilityRegistry, with_client, with_upstreams_and_capacity}
use dotdns.Observability.Clients.{Kept, with_client-Kept}
use dotdns.Observability.Capacity.{IsBounded, record_all, record_all-with_upstreams}
use dotdns.Stats.{new_client_stats, record_query}

-- Two connections close at the same time: both have loaded the gauge before either subtracts.
two_closing : Reach (record {
  metrics = close_loaded 2 (record_accepted_connection (record_accepted_connection (new 0)));
  connections = over ∷ loaded 2 ∷ [];
})
unfolding record_accepted_connection set_stage
two_closing =
    next _ _
      (next _ _ (next _ _ (next _ _ (next _ _ (started 0) accepts) accepts) (loads 0 refl))
        (loads 1 refl))
      (subtracts 0 2 refl)

Reach-Exact_example : Exact (record {
  metrics = close_loaded 2 (record_accepted_connection (record_accepted_connection (new 0)));
  connections = over ∷ loaded 2 ∷ [];
})
Reach-Exact_example = Reach-Exact _ two_closing (omega arith)

abbrev saved : PersistedMetrics
saved = record {
  total_queries = 9;
  cache_hits = 3;
  cache_misses = 4;
  blocked_queries = 2;
  upstream_failures = 1;
  upstream_successes = 4;
  upstream_timeouts = 0;
  cache_evictions = 0;
  accepted_connections = 5;
  tls_handshake_success = 5;
  tls_handshake_failures = 0;
  dns_read_failures = 0;
  dns_write_failures = 0;
  pending_follower_timeouts = 0;
  pending_follower_successes = 0;
}

-- A full registry of two clients, of which 1 was active before 2.
abbrev registry : ObservabilityRegistry
registry = record {
  upstreams = [];
  clients =
      (v4 1, record new_client_stats { last_activity = 1 })
      ∷ (v4 2, record new_client_stats { last_activity = 2 })
      ∷ [];
  client_capacity = 2;
  activity_clock = 3;
}

registry-Distinct : Distinct ip_eq registry.clients
unfolding lookup ip_eq
registry-Distinct = (refl, (refl, tt))

with_client-Kept_example :
    Kept (v4 3) registry (v4 1) (with_client record_query (v4 3) registry).clients
unfolding ip_eq
with_client-Kept_example =
    with_client-Kept record_query (v4 3) (v4 1) registry registry-Distinct refl

record_all-with_upstreams_example : IsBounded (
    record_all
      ((v4 1, record_query) ∷ (v4 2, record_query) ∷ [])
      (with_upstreams_and_capacity [] 1))
record_all-with_upstreams_example =
    record_all-with_upstreams [] 1 ((v4 1, record_query) ∷ (v4 2, record_query) ∷ [])

a_day : format_uptime 90_061 ≡ codes "1d 1h 1m 1s"
unfolding format_uptime padded
a_day = refl
