-- ===== src/Metrics/Persistence.antt =====
-- src/metrics.rs, `to_persisted` and `from_persisted`: what a restart keeps.
use dotdns.Prelude.{ℕ, ◌≡◌, refl, arith}
use dotdns.Metrics.{PersistedMetrics, from_persisted, to_persisted, snapshot}

-- A restart restores the saved counters and starts the gauges anew: what was saved is what the new
-- recorder would save; the gauges (cache entries, active connections, pending leaders and
-- followers) and the uptime are 0.
pub restart :
    (now : ℕ) (saved : PersistedMetrics)
    → (to_persisted (from_persisted now saved) ≡ saved)
      × ((snapshot now (from_persisted now saved)).cache_entries ≡ 0)
      × ((snapshot now (from_persisted now saved)).active_connections ≡ 0)
      × ((snapshot now (from_persisted now saved)).pending_leaders ≡ 0)
      × ((snapshot now (from_persisted now saved)).pending_followers ≡ 0)
      × ((snapshot now (from_persisted now saved)).uptime_secs ≡ 0)
unfolding from_persisted to_persisted snapshot
restart now saved = (refl, refl, refl, refl, refl, omega arith)
