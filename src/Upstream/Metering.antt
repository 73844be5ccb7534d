-- ===== src/Upstream/Metering.antt =====
-- src/upstream.rs, `query`: which of the shared counters the pool touches.
use dotdns.Prelude.{
  ℕ, suc, ◌≡◌, refl, ◌∙◌, inl, inr, List, [], ◌∷◌, Option, none, some, Result, ok, err, get_elem?,
  length, arith, Option-cases, if_both, ◌==◌,
}
use dotdns.Cache.Metering.{tallies}
use dotdns.Metrics.{MetricsRecorder}
use dotdns.Metrics
use dotdns.Observability.{ObservabilityRegistry}
use dotdns.Text.{Text}
use dotdns.Upstream.{
  UpstreamError, UpstreamPool, Exchange, observe, succeeded, failed, count_failure, is_timeout,
  try_upstreams, next_start, query, attempt_order,
}

-- The pool's recorder counts as many queries as `m`.
abbrev pub Counts : MetricsRecorder → UpstreamPool → Type 0
Counts m pool = (m' : MetricsRecorder) × (pool.metrics ≡ some m') × (tallies m' ≡ tallies m)

observe-metrics :
    (f : Text → ObservabilityRegistry → ObservabilityRegistry) (idx : ℕ) (pool : UpstreamPool)
    → (observe f idx pool).metrics ≡ pool.metrics
unfolding observe
observe-metrics f idx pool = elim (Option-cases (get_elem? pool.names idx)) [
  | inl e ↦ rw (e, observe)
  | inr (name, e) ↦ rw (e, observe)
]

count_failure-tallies :
    (e : UpstreamError) (m : MetricsRecorder) → tallies (count_failure e m) ≡ tallies m
unfolding count_failure Metrics.record_upstream_failure Metrics.record_upstream_timeout
count_failure-tallies e m =
    if_both {A = MetricsRecorder} (λ x. tallies x ≡ tallies m) (is_timeout e) refl refl

succeeded-Counts :
    (m : MetricsRecorder) (idx elapsed_ms : ℕ) (pool : UpstreamPool)
    → Counts m pool
    → Counts m (succeeded idx elapsed_ms pool)
unfolding succeeded Metrics.record_upstream_success
succeeded-Counts m idx elapsed_ms pool (m', e, t) =
    (Metrics.record_upstream_success m', rw (observe-metrics, e), t)

failed-Counts :
    (m : MetricsRecorder) (idx now_ms : ℕ) (e : UpstreamError) (pool : UpstreamPool)
    → Counts m pool
    → Counts m (failed idx now_ms e pool)
unfolding failed
failed-Counts m idx now_ms e pool (m', h, t) =
    (count_failure e m', rw (observe-metrics, h), count_failure-tallies e m' ∙ t)

module _ {Message : Type 0} (exchange : Exchange Message) where
  after_reply :
      (m : MetricsRecorder) (a i : ℕ) (is : List ℕ) (l : Option UpstreamError) (pool : UpstreamPool)
      (r : Result UpstreamError Message)
      → (exchange a i).result ≡ r
      → Counts m pool
      → ((e : UpstreamError)
          → Counts m (failed i (exchange a i).now_ms e pool)
          → Counts m
              (try_upstreams exchange
                (suc a)
                is
                (some e)
                (failed i (exchange a i).now_ms e pool)).0)
      → Counts m (try_upstreams exchange a (i ∷ is) l pool).0
  unfolding try_upstreams
  after_reply m a i is l pool (ok r) h c rest =
      rw (h, try_upstreams) (succeeded-Counts m i _ pool c)
  after_reply m a i is l pool (err e) h c rest =
      rw (h, try_upstreams) (rest e (failed-Counts m i _ e pool c))

  try_upstreams-Counts :
      (m : MetricsRecorder) (a : ℕ) (order : List ℕ) (l : Option UpstreamError)
      (pool : UpstreamPool)
      → Counts m pool
      → Counts m (try_upstreams exchange a order l pool).0
  unfolding try_upstreams
  try_upstreams-Counts m a [] l pool c = c
  try_upstreams-Counts m a (i ∷ is) l pool c =
      after_reply m a i is l pool (exchange a i).result refl c (λ e d.
        try_upstreams-Counts m (suc a) is (some e) (failed i (exchange a i).now_ms e pool) d)

  next_start-metrics : (pool : UpstreamPool) → (next_start pool).1.metrics ≡ pool.metrics
  unfolding next_start
  next_start-metrics pool = ground arith

  -- A query of the pool counts no query of a client.
  pub query-Counts :
      (m : MetricsRecorder) (now_ms : ℕ) (pool : UpstreamPool)
      → Counts m pool
      → Counts m (query exchange now_ms pool).0
  unfolding query
  query-Counts m now_ms pool (m', e, t) =
      if_both {A = UpstreamPool × Result UpstreamError Message} (λ x. Counts m x.0)
        (length pool.names == 0) (m', e, t)
        (try_upstreams-Counts m 0 (attempt_order (next_start pool).1 (next_start pool).0 now_ms)
          none (next_start pool).1 (m', next_start-metrics pool ∙ e, t))
