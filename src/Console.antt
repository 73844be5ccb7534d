-- ===== src/Console.antt =====
-- src/main.rs: what the management commands print. `show_ip` is the text of an address.
pub mod Columns
use dotdns.Prelude.{ℕ, List, [], ◌∷◌, ◌++◌, Option, none, some, map}
use dotdns.Metrics.{MetricsSnapshot}
use dotdns.Metrics.Report.{format_uptime, line}
use dotdns.Net.{IpAddr}
use dotdns.Stats.{UpstreamSnapshot, ClientSnapshot}
use dotdns.Text.{Text, codes, decimal, left_aligned, right_aligned, join}
use dotdns.Upstream.{UpstreamSelectionPolicy, sequential, round_robin}

unfoldable pub show_policy : UpstreamSelectionPolicy → Text
show_policy sequential = codes "sequential"
show_policy round_robin = codes "round_robin"

unfoldable pub latency : Option ℕ → Text
latency none = codes "-"
latency (some ms) = decimal ms

unfoldable pub upstream_row : Text → Text → Text → Text → Text → Text → Text
upstream_row name successes failures timeouts last average = join (codes " ") (
    left_aligned 20 name
    ∷ right_aligned 10 successes
    ∷ right_aligned 10 failures
    ∷ right_aligned 10 timeouts
    ∷ right_aligned 12 last
    ∷ right_aligned 12 average
    ∷ [])

unfoldable pub upstream_line : UpstreamSnapshot → Text
unfolding upstream_row latency
upstream_line u =
    upstream_row u.name (decimal u.success_count) (decimal u.failure_count)
      (decimal u.timeout_count) (latency u.last_success_latency_ms)
      (latency u.avg_success_latency_ms)

unfoldable pub policy_line : Option UpstreamSelectionPolicy → List Text
unfolding show_policy
policy_line none = []
policy_line (some policy) = (codes "selection policy: " ++ show_policy policy) ∷ []

unfoldable pub format_upstreams : List UpstreamSnapshot → Option UpstreamSelectionPolicy → Text
unfolding upstream_row upstream_line policy_line
format_upstreams [] policy = codes "no upstreams configured"
format_upstreams (u ∷ us) policy = join (codes "\n") (
    policy_line policy
    ++ (upstream_row (codes "name") (codes "successes") (codes "failures") (codes "timeouts")
          (codes "last_lat_ms") (codes "avg_lat_ms")
        ∷ map upstream_line (u ∷ us)))

unfoldable pub format_activity : MetricsSnapshot → Text
unfolding line format_uptime
format_activity snap = join (codes "\n") (
    (codes "uptime: " ++ format_uptime snap.uptime_secs)
    ∷ line (codes "total queries") snap.total_queries
    ∷ line (codes "accepted connections") snap.accepted_connections
    ∷ line (codes "active connections") snap.active_connections
    ∷ line (codes "pending leaders") snap.pending_leaders
    ∷ line (codes "pending followers") snap.pending_followers
    ∷ line (codes "pending follower timeouts") snap.pending_follower_timeouts
    ∷ line (codes "pending follower successes") snap.pending_follower_successes
    ∷ [])

unfoldable pub client_row : Text → Text → Text → Text → Text → Text → Text
client_row ip queries blocked hits misses active = join (codes " ") (
    left_aligned 20 ip
    ∷ right_aligned 12 queries
    ∷ right_aligned 10 blocked
    ∷ right_aligned 10 hits
    ∷ right_aligned 10 misses
    ∷ right_aligned 10 active
    ∷ [])

module _ (show_ip : IpAddr → Text) where
  unfoldable pub client_line : ClientSnapshot → Text
  unfolding client_row
  client_line c =
      client_row (show_ip c.ip) (decimal c.total_queries) (decimal c.blocked_queries)
        (decimal c.cache_hits) (decimal c.cache_misses) (decimal c.active_connections)

  unfoldable pub format_clients : List ClientSnapshot → Text
  unfolding client_row client_line
  format_clients [] = codes "no clients tracked"
  format_clients (c ∷ cs) = join (codes "\n") (
      client_row (codes "ip") (codes "queries") (codes "blocked") (codes "cache_hits")
        (codes "cache_misses") (codes "active_conn")
      ∷ map client_line (c ∷ cs))
