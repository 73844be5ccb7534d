-- ===== src/Observability.antt =====
-- src/observability.rs: the registry of the statistics per upstream and per client. The locks make
-- each recording one step.
pub mod Clients
pub mod Capacity
use dotdns.Prelude.{
  ℕ, ◌+◌, ◌-◌, ◌/◌, ◌%◌, ◌^◌, Bool, true, false, ◌&&◌, not, List, [], ◌∷◌, Option, none, some, map,
  length, ltb, leb, ◌==◌, if◌then◌else◌, incr, decr,
}
use dotdns.Map.{lookup, insert, remove}
use dotdns.Net.{IpAddr, ip_eq}
use dotdns.Text.{Text, eq_text}
use dotdns.Stats.{
  UpstreamStats, UpstreamSnapshot, ClientStats, ClientSnapshot, new_upstream_stats,
  new_client_stats, record_success, record_failure, record_timeout, snapshot_upstream,
  snapshot_client, record_query, record_blocked, record_cache_hit, record_cache_miss,
  record_connection_opened, record_connection_closed, touch_activity,
}

pub record ObservabilityRegistry : Type 0 where
  pub upstreams : List (Text × UpstreamStats)
  pub clients : List (IpAddr × ClientStats)
  pub client_capacity : ℕ
  pub activity_clock : ℕ

insert_names : List Text → List (Text × UpstreamStats) → List (Text × UpstreamStats)
insert_names [] m = m
insert_names (name ∷ names) m = insert_names names (insert eq_text name new_upstream_stats m)

unfoldable pub with_upstreams_and_capacity : List Text → ℕ → ObservabilityRegistry
unfolding insert_names
with_upstreams_and_capacity upstream_names client_capacity = record {
  upstreams = insert_names upstream_names [];
  clients = [];
  client_capacity = client_capacity;
  activity_clock = 1;
}

unfoldable pub with_upstreams : List Text → ObservabilityRegistry
with_upstreams upstream_names = with_upstreams_and_capacity upstream_names 10_000

-- `next_tick`: the clock before the increment, and the registry after it.
pub next_tick : ObservabilityRegistry → ℕ × ObservabilityRegistry
next_tick r = (r.activity_clock, record r { activity_clock = incr r.activity_clock })

-- `iter().min_by_key(last_activity)`, the first of the least.
oldest_of : IpAddr × ClientStats → List (IpAddr × ClientStats) → IpAddr
oldest_of (ip, s) [] = ip
oldest_of (ip, s) ((ip', s') ∷ rest) =
    oldest_of (if ltb s'.last_activity s.last_activity then (ip', s') else (ip, s)) rest

oldest : List (IpAddr × ClientStats) → Option IpAddr
oldest [] = none
oldest (c ∷ rest) = some (oldest_of c rest)

evict_client : List (IpAddr × ClientStats) → Option IpAddr → List (IpAddr × ClientStats)
evict_client clients none = clients
evict_client clients (some ip) = remove ip_eq ip clients

-- The clients when room is made for one more.
pub make_room : ℕ → List (IpAddr × ClientStats) → List (IpAddr × ClientStats)
unfolding evict_client oldest oldest_of
make_room capacity clients =
    if leb capacity (length clients) && ltb 0 (length clients)
    then evict_client clients (oldest clients)
    else clients

client_found :
    (ClientStats → ClientStats)
    → IpAddr
    → ObservabilityRegistry
    → Option ClientStats
    → ObservabilityRegistry
unfolding next_tick make_room
client_found f ip r (some stats) =
    let (tick, r') = next_tick r in
    record r' { clients = insert ip_eq ip (f (touch_activity tick stats)) r'.clients }
client_found f ip r none =
    let (tick, r') = next_tick r in
    record r' {
      clients =
          insert ip_eq ip (f (touch_activity tick new_client_stats))
            (make_room r.client_capacity r.clients);
    }

-- `with_client`: both look-ups see the same map, since nothing else is interleaved.
unfoldable pub with_client :
    (ClientStats → ClientStats) → IpAddr → ObservabilityRegistry → ObservabilityRegistry
unfolding client_found
with_client f ip r = client_found f ip r (lookup ip_eq ip r.clients)

upstream_found :
    (UpstreamStats → UpstreamStats)
    → Text
    → ObservabilityRegistry
    → Option UpstreamStats
    → ObservabilityRegistry
upstream_found f name r none = r
upstream_found f name r (some stats) = record r {
  upstreams = insert eq_text name (f stats) r.upstreams;
}

pub with_upstream :
    (UpstreamStats → UpstreamStats) → Text → ObservabilityRegistry → ObservabilityRegistry
unfolding upstream_found
with_upstream f name r = upstream_found f name r (lookup eq_text name r.upstreams)

unfoldable pub record_upstream_success : Text → ℕ → ObservabilityRegistry → ObservabilityRegistry
unfolding with_upstream record_success
record_upstream_success name latency_ms = with_upstream (record_success latency_ms) name

unfoldable pub record_upstream_failure : Text → ObservabilityRegistry → ObservabilityRegistry
unfolding with_upstream record_failure
record_upstream_failure name = with_upstream record_failure name

unfoldable pub record_upstream_timeout : Text → ObservabilityRegistry → ObservabilityRegistry
unfolding with_upstream record_timeout
record_upstream_timeout name = with_upstream record_timeout name

unfoldable pub record_client_query : IpAddr → ObservabilityRegistry → ObservabilityRegistry
record_client_query = with_client record_query

unfoldable pub record_client_blocked : IpAddr → ObservabilityRegistry → ObservabilityRegistry
record_client_blocked = with_client record_blocked

unfoldable pub record_client_cache_hit : IpAddr → ObservabilityRegistry → ObservabilityRegistry
record_client_cache_hit = with_client record_cache_hit

unfoldable pub record_client_cache_miss : IpAddr → ObservabilityRegistry → ObservabilityRegistry
record_client_cache_miss = with_client record_cache_miss

unfoldable pub record_client_connection_opened :
    IpAddr → ObservabilityRegistry → ObservabilityRegistry
record_client_connection_opened = with_client record_connection_opened

unfoldable pub record_client_connection_closed :
    IpAddr → ObservabilityRegistry → ObservabilityRegistry
record_client_connection_closed = with_client record_connection_closed

unfoldable pub upstream_snapshot : ObservabilityRegistry → List UpstreamSnapshot
upstream_snapshot r = map (λ e. snapshot_upstream e.0 e.1) r.upstreams

unfoldable pub client_snapshot : ObservabilityRegistry → List ClientSnapshot
client_snapshot r = map (λ e. snapshot_client e.0 e.1) r.clients
