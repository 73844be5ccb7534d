-- ===== src/Upstream.antt =====
-- src/upstream.rs: the passive health of the upstreams, and the pool that tries them in turn. The
-- exchange with an upstream is the network's: `Exchange` says what the attempt of a number on an
-- upstream gives, how long it took and what time, in milliseconds since `base`, it is afterwards.
pub mod Health
pub mod Order
pub mod Failover
pub mod Metering
use dotdns.Prelude.{
  modify, ℕ, zero, suc, ◌+◌, ◌%◌, ◌^◌, Bool, true, false, List, [], ◌∷◌, ◌++◌, Option, none, some,
  Result, ok, err, length, get_elem?, map, replicate, ltb, leb, if◌then◌else◌, ◌==◌, incr,
}
use dotdns.Metrics.{MetricsRecorder}
use dotdns.Metrics
use mathlib.Core.Option
use dotdns.Observability.{ObservabilityRegistry}
use dotdns.Observability
use dotdns.Text.{Text}

pub data UpstreamError : Type 0 where
  network : Text → UpstreamError
  timeout : UpstreamError
  invalid_response : Text → UpstreamError
  serialization : Text → UpstreamError
  all_failed : UpstreamError
  unsupported_feature : Text → UpstreamError

abbrev pub health_failure_threshold : ℕ
health_failure_threshold = 3

abbrev pub health_cooldown_ms : ℕ
health_cooldown_ms = 30_000

pub record UpstreamHealth : Type 0 where
  pub consecutive_failures : ℕ
  pub degraded_until_ms : ℕ

abbrev pub new_health : UpstreamHealth
new_health = record { consecutive_failures = 0; degraded_until_ms = 0 }

abbrev pub is_degraded : ℕ → UpstreamHealth → Bool
is_degraded now_ms h = ltb now_ms h.degraded_until_ms

unfoldable pub record_health_success : UpstreamHealth → UpstreamHealth
record_health_success h = record { consecutive_failures = 0; degraded_until_ms = 0 }

-- The health after a failure, and whether this failure degraded the upstream.
unfoldable pub record_health_failure : ℕ → UpstreamHealth → UpstreamHealth × Bool
record_health_failure now_ms h =
    let failures = (h.consecutive_failures + 1) % 2 ^ 32 in
    if leb health_failure_threshold failures
    then (
      record {
        consecutive_failures = failures;
        degraded_until_ms = (now_ms + health_cooldown_ms) % 2 ^ 64;
      },
      leb h.degraded_until_ms now_ms,
    )
    else (record h { consecutive_failures = failures }, false)

pub data UpstreamSelectionPolicy : Type 0 where
  sequential round_robin : UpstreamSelectionPolicy

-- The names of `upstreams`, and the state that the clones of a pool share.
pub record UpstreamPool : Type 0 where
  pub names : List Text
  pub metrics : Option MetricsRecorder
  pub observability : Option ObservabilityRegistry
  pub policy : UpstreamSelectionPolicy
  pub round_robin_next : ℕ
  pub health : List UpstreamHealth

unfoldable pub new_pool :
    List Text
    → Option MetricsRecorder
    → Option ObservabilityRegistry
    → UpstreamSelectionPolicy
    → UpstreamPool
new_pool names metrics observability policy = record {
  names = names;
  metrics = metrics;
  observability = observability;
  policy = policy;
  round_robin_next = 0;
  health = map (λ n. new_health) names;
}

-- `health[idx].is_degraded(now_ms)`: the order holds no index out of range.
pub degraded_at : List UpstreamHealth → ℕ → ℕ → Bool
degraded_at health now_ms idx = elim (get_elem? health idx) [
  | none ↦ false
  | some h ↦ is_degraded now_ms h
]

push : Bool → ℕ → List ℕ × List ℕ → List ℕ × List ℕ
push true idx (healthy, degraded) = (healthy, degraded ++ (idx ∷ []))
push false idx (healthy, degraded) = (healthy ++ (idx ∷ []), degraded)

-- `for offset in 0..len`, with the offsets that are left counted down.
pub collect : List UpstreamHealth → ℕ → ℕ → ℕ → ℕ → ℕ → List ℕ × List ℕ → List ℕ × List ℕ
unfolding degraded_at push
collect health now_ms start len offset zero found = found
collect health now_ms start len offset (suc n) found =
    let idx = (start + offset) % len in
    collect health now_ms start len (suc offset) n (push (degraded_at health now_ms idx) idx found)

unfoldable pub attempt_order : UpstreamPool → ℕ → ℕ → List ℕ
unfolding collect
attempt_order pool start now_ms =
    let len = length pool.names in
    let found = collect pool.health now_ms start len 0 len ([], []) in found.0 ++ found.1

-- A recording for the upstream `idx` of the pool, under its name.
observe : (Text → ObservabilityRegistry → ObservabilityRegistry) → ℕ → UpstreamPool → UpstreamPool
observe f idx pool = elim (get_elem? pool.names idx) [
  | none ↦ pool
  | some name ↦ record pool { observability = Option.map (f name) pool.observability }
]

pub succeeded : ℕ → ℕ → UpstreamPool → UpstreamPool
unfolding observe
succeeded idx elapsed_ms pool =
    observe (λ name. Observability.record_upstream_success name elapsed_ms) idx
      (record pool {
        health = modify idx record_health_success pool.health;
        metrics = Option.map Metrics.record_upstream_success pool.metrics;
      })

is_timeout : UpstreamError → Bool
is_timeout timeout = true
is_timeout _ = false

count_failure : UpstreamError → MetricsRecorder → MetricsRecorder
unfolding is_timeout
count_failure e m =
    Metrics.record_upstream_failure (if is_timeout e then Metrics.record_upstream_timeout m else m)

observe_failure : UpstreamError → Text → ObservabilityRegistry → ObservabilityRegistry
unfolding is_timeout
observe_failure e name r =
    if is_timeout e
    then Observability.record_upstream_timeout name r
    else Observability.record_upstream_failure name r

pub failed : ℕ → ℕ → UpstreamError → UpstreamPool → UpstreamPool
unfolding observe count_failure observe_failure
failed idx now_ms e pool = observe (observe_failure e) idx (record pool {
  health = modify idx (λ h. (record_health_failure now_ms h).0) pool.health;
  metrics = Option.map (count_failure e) pool.metrics;
})

pub record Reply (Message : Type 0) : Type 0 where
  pub result : Result UpstreamError Message
  pub elapsed_ms : ℕ
  pub now_ms : ℕ

or_all_failed : Option UpstreamError → UpstreamError
or_all_failed none = all_failed
or_all_failed (some e) = e

-- Where the round starts, and the pool with its counter moved on (a `usize` of 64 bits).
pub next_start : UpstreamPool → ℕ × UpstreamPool
next_start pool = elim pool.policy [
  | sequential ↦ (0, pool)
  | round_robin ↦ (
    pool.round_robin_next % length pool.names,
    record pool { round_robin_next = incr pool.round_robin_next },
  )
]

abbrev pub Exchange : Type 0 → Type 0
Exchange Message = ℕ → ℕ → Reply Message

module _ {Message : Type 0} where
  -- The loop over `order`, from the attempt of the given number.
  pub try_upstreams :
      Exchange Message
      → ℕ
      → List ℕ
      → Option UpstreamError
      → UpstreamPool
      → UpstreamPool × Result UpstreamError Message
  unfolding succeeded failed or_all_failed
  try_upstreams exchange attempt [] last_err pool = (pool, err (or_all_failed last_err))
  try_upstreams exchange attempt (idx ∷ rest) last_err pool =
      let reply = exchange attempt idx in
      elim reply.result [
        | ok response ↦ (succeeded idx reply.elapsed_ms pool, ok response)
        | err e ↦
            try_upstreams exchange (suc attempt) rest (some e) (failed idx reply.now_ms e pool)
      ]

  unfoldable pub query :
      Exchange Message → ℕ → UpstreamPool → UpstreamPool × Result UpstreamError Message
  unfolding try_upstreams next_start
  query exchange now_ms pool =
      if length pool.names == 0
      then (pool, err all_failed)
      else (let (start, next) = next_start pool in
          try_upstreams exchange 0 (attempt_order next start now_ms) none next)

  -- When the last attempt of a loop over the order ends, from the attempt of the given number and the
  -- time `now_ms`.
  ends_at : Exchange Message → ℕ → ℕ → List ℕ → ℕ
  ends_at exchange attempt now_ms [] = now_ms
  ends_at exchange attempt now_ms (idx ∷ rest) =
      let reply = exchange attempt idx in
      elim reply.result [
        | ok response ↦ reply.now_ms
        | err e ↦ ends_at exchange (suc attempt) reply.now_ms rest
      ]

  -- When a query that begins at `now_ms` returns.
  unfoldable pub returns_at : Exchange Message → ℕ → UpstreamPool → ℕ
  unfolding ends_at next_start
  returns_at exchange now_ms pool =
      if length pool.names == 0
      then now_ms
      else (let (start, next) = next_start pool in
          ends_at exchange 0 now_ms (attempt_order next start now_ms))
