-- ===== src/Entries/Built.antt =====
-- src/upstream.rs, `pool_from_config`: the pool has an upstream for each entry.
use dotdns.Prelude.{
  ◌≡◌, ◌⊎◌, List, [], ◌∷◌, ◌++◌, map, Result, ok, err, ℕ, Option, some, false, length, get_elem?,
}
use dotdns.Config.{UpstreamEntry}
use dotdns.Entries.{Urls, Upstream, from_entries}
use dotdns.Entries.Kinds.{Built, Unbuilt}
use dotdns.Metrics.{MetricsRecorder}
use dotdns.Net.{SocketAddr}
use dotdns.Observability.{ObservabilityRegistry}
use dotdns.Text.{Text}
use dotdns.Upstream.{
  UpstreamError, UpstreamSelectionPolicy, UpstreamPool, UpstreamHealth, is_degraded,
}

-- A pool as it starts: an upstream and a healthy entry for each name, and the round at its beginning.
pub record Fresh (names : List Text) (metrics : Option MetricsRecorder)
    (observability : Option ObservabilityRegistry) (policy : UpstreamSelectionPolicy)
    (pool : UpstreamPool) : Type 0 where
  pub same_names : pool.names ≡ names
  pub same_metrics : pool.metrics ≡ metrics
  pub same_observability : pool.observability ≡ observability
  pub same_policy : pool.policy ≡ policy
  pub from_first : pool.round_robin_next ≡ 0
  pub one_each : length pool.health ≡ length names
  pub healthy :
      (i now_ms : ℕ) (h : UpstreamHealth)
      → get_elem? pool.health i ≡ some h
      → (is_degraded now_ms h ≡ false) × (h.consecutive_failures ≡ 0)

start_health : List Text → List UpstreamHealth
start_health names = map (λ n. record { consecutive_failures = 0; degraded_until_ms = 0 }) names

module _ (urls : Urls) {HttpClient : Type 0}
    (build : Text → SocketAddr → ℕ → Result Text HttpClient)
    (resolve : Text → ℕ → Result UpstreamError (List SocketAddr)) where
  -- An upstream for each entry, in their order, with its name.
  pub data Each : List UpstreamEntry → List (Upstream HttpClient × Text) → Type 0 where
    no_entries : Each [] []
    more :
        (entry : UpstreamEntry) (entries : List UpstreamEntry) (u : Upstream HttpClient)
        (us : List (Upstream HttpClient × Text))
        → Built urls build resolve entry u
        → Each entries us
        → Each (entry ∷ entries) ((u, entry.name) ∷ us)

  -- The first entry that has no upstream.
  abbrev pub Refused : List UpstreamEntry → UpstreamError → Type 0
  Refused entries e =
      (before : List UpstreamEntry) × (entry : UpstreamEntry) × (after : List UpstreamEntry)
      × (entries ≡ before ++ (entry ∷ after))
      × ((us : List (Upstream HttpClient × Text)) × Each before us)
      × Unbuilt urls build resolve entry e

  abbrev pub Outcome : List UpstreamEntry → Type 0
  Outcome entries =
      ((us : List (Upstream HttpClient × Text)) × (from_entries urls build resolve entries ≡ ok us)
        × Each entries us)
      ⊎ ((e : UpstreamError) × (from_entries urls build resolve entries ≡ err e)
          × Refused entries e)
