-- ===== src/Upstream/Health.antt =====
-- src/upstream.rs, `UpstreamHealth`: when an upstream is degraded, as a function of its history.
use dotdns.Prelude.{
  ℕ, suc, ◌+◌, ◌%◌, ◌^◌, ◌≤◌, ◌<◌, ◌≡◌, refl, ◌↔◌, true, false, List, [], ◌∷◌, length, leb,
  if◌then◌else◌, arith,
}
use dotdns.Upstream.{
  UpstreamHealth, new_health, is_degraded, record_health_success, record_health_failure,
  health_cooldown_ms,
}

-- What happened to an upstream; a failure with its time.
pub data Event : Type 0 where
  success : Event
  failure : ℕ → Event

abbrev pub after_event : Event → UpstreamHealth → UpstreamHealth
after_event success h = record_health_success h
after_event (failure now_ms) h = (record_health_failure now_ms h).0

-- The health after a history, the newest event first.
unfoldable pub after : List Event → UpstreamHealth
after [] = new_health
after (e ∷ es) = after_event e (after es)

-- The failures since the last success.
unfoldable pub failures_in_row : List Event → ℕ
failures_in_row [] = 0
failures_in_row (success ∷ es) = 0
failures_in_row (failure t ∷ es) = suc (failures_in_row es)

-- The end of the cooldown that the newest event starts, if it is a failure that degrades.
unfoldable pub cooldown_end : List Event → ℕ
cooldown_end [] = 0
cooldown_end (success ∷ es) = 0
cooldown_end (failure t ∷ es) =
    if leb 3 (suc (failures_in_row es)) then (t + 30_000) % 2 ^ 64 else 0

failures_in_row-le : (es : List Event) → failures_in_row es ≤ length es
unfolding failures_in_row
failures_in_row-le [] = omega arith
failures_in_row-le (success ∷ es) = omega arith
failures_in_row-le (failure t ∷ es) = omega (arith, failures_in_row-le es)

cooldown_end-few : (es : List Event) → failures_in_row es < 3 → cooldown_end es ≡ 0
unfolding failures_in_row cooldown_end
cooldown_end-few [] h = refl
cooldown_end-few (success ∷ es) h = refl
cooldown_end-few (failure t ∷ es) h = ground arith

-- After a history of fewer than 2 ^ 32 events an upstream has counted its failures since the last
-- success, and it is degraded until 30 seconds after the newest failure exactly when these are at
-- least three; otherwise it is not degraded at all.
pub after_lem :
    (es : List Event)
    → length es < 2 ^ 32
    → ((after es).consecutive_failures ≡ failures_in_row es)
      × ((after es).degraded_until_ms ≡ cooldown_end es)
unfolding after failures_in_row cooldown_end record_health_success record_health_failure
after_lem [] h = (refl, refl)
after_lem (success ∷ es) h = (refl, refl)
after_lem (failure t ∷ es) h =
    let (count, end) = after_lem es (omega arith) in
    ground (arith, count, end, failures_in_row-le es, cooldown_end-few es)

-- A failure is reported as the one that degraded the upstream exactly when the upstream was not
-- degraded before it and is degraded after it (where the clock is not about to wrap around).
pub record_health_failure-reports :
    (now_ms : ℕ) (h : UpstreamHealth)
    → now_ms + health_cooldown_ms < 2 ^ 64
    → ((record_health_failure now_ms h).1 ≡ true) ↔ (
        (is_degraded now_ms h ≡ false)
        × (is_degraded now_ms (record_health_failure now_ms h).0 ≡ true))
unfolding record_health_failure
record_health_failure-reports now_ms h small = ground arith
