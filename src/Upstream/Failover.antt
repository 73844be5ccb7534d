-- ===== src/Upstream/Failover.antt =====
-- src/upstream.rs, `query`: the pool's answer is the first success in the order, or the last error.
use native.Mathlib.Nat.{mod-lt}
use dotdns.Prelude.{
  Result-cases, ℕ, suc, ◌<◌, ◌≡◌, refl, ◌∙◌, ◌⊎◌, inl, inr, true, false, Bool-cases, ==_iff, List,
  [], ◌∷◌, Option, none, some, Result, ok, err, length, ◌==◌, arith,
}
use dotdns.Metrics.{MetricsRecorder}
use dotdns.Observability.{ObservabilityRegistry}
use dotdns.Upstream.{
  UpstreamSelectionPolicy, sequential, round_robin, UpstreamError, UpstreamPool, Exchange,
  or_all_failed, try_upstreams, next_start, failed, attempt_order, query,
}
use dotdns.Upstream.Order.{count, attempt_order-once}

-- The attempts on a list of upstreams from that of the given number: the first that succeeds
-- returns the message, after failures only.
pub data Succeeds {Message : Type 0} (exchange : Exchange Message)
    : ℕ → List ℕ → Message → Type 0 where
  here :
      {a i : ℕ} {is : List ℕ} {r : Message}
      → (exchange a i).result ≡ ok r
      → Succeeds exchange a (i ∷ is) r
  later :
      {a i : ℕ} {is : List ℕ} {r : Message} (e : UpstreamError)
      → (exchange a i).result ≡ err e
      → Succeeds exchange (suc a) is r
      → Succeeds exchange a (i ∷ is) r

-- Each attempt fails, the last with the given error.
pub data Fails {Message : Type 0} (exchange : Exchange Message)
    : ℕ → List ℕ → UpstreamError → Type 0 where
  last : {a i : ℕ} {e : UpstreamError} → (exchange a i).result ≡ err e → Fails exchange a (i ∷ []) e
  before :
      {a i : ℕ} {is : List ℕ} {e : UpstreamError} (d : UpstreamError)
      → (exchange a i).result ≡ err d
      → Fails exchange (suc a) is e
      → Fails exchange a (i ∷ is) e

-- The order of a query's attempts.
pub order_of : UpstreamPool → ℕ → List ℕ
order_of pool now_ms = attempt_order (next_start pool).1 (next_start pool).0 now_ms

names-next_start : (pool : UpstreamPool) → (next_start pool).1.names ≡ pool.names
unfolding next_start
names-next_start pool = ground arith

next_start-lt :
    (pool : UpstreamPool) → 0 < length pool.names → (next_start pool).0 < length pool.names
unfolding next_start
next_start-lt pool h = ground (arith, mod-lt pool.round_robin_next h)

order_of-once :
    (now_ms : ℕ) (pool : UpstreamPool) (i : ℕ)
    → i < length pool.names
    → count i (order_of pool now_ms) ≡ 1
unfolding order_of
order_of-once now_ms pool i h =
    attempt_order-once (next_start pool).1 (next_start pool).0 now_ms i
      (rw (names-next_start pool) (next_start-lt pool (omega (arith, h))))
      (rw (names-next_start pool) h)

policy-cases : (p : UpstreamSelectionPolicy) → (p ≡ sequential) ⊎ (p ≡ round_robin)
policy-cases sequential = inl refl
policy-cases round_robin = inr refl

-- The recorders that a pool is given do not change the order.
pub order_of-shared :
    (pool : UpstreamPool) (m : Option MetricsRecorder) (o : Option ObservabilityRegistry)
    (now_ms : ℕ)
    → order_of (record pool { metrics = m; observability = o }) now_ms ≡ order_of pool now_ms
unfolding order_of next_start attempt_order
order_of-shared pool m o now_ms = elim (policy-cases pool.policy) [
  | inl e ↦ rw (e, next_start)
  | inr e ↦ rw (e, next_start)
]

module _ {Message : Type 0} (exchange : Exchange Message) where
  -- What a query may return, by the outcomes of its attempts.
  pub Answer : ℕ → List ℕ → Result UpstreamError Message → Type 0
  Answer a order result =
      ((r : Message) × (result ≡ ok r) × Succeeds exchange a order r)
      ⊎ ((e : UpstreamError) × (result ≡ err e) × Fails exchange a order e)

  step_ok :
      (a i : ℕ) (is : List ℕ) (l : Option UpstreamError) (p : UpstreamPool) (r : Message)
      → (exchange a i).result ≡ ok r
      → (try_upstreams exchange a (i ∷ is) l p).1 ≡ ok r
  unfolding try_upstreams
  step_ok a i is l p r h = rw (h, try_upstreams)

  step_err :
      (a i : ℕ) (is : List ℕ) (l : Option UpstreamError) (p : UpstreamPool) (e : UpstreamError)
      → (exchange a i).result ≡ err e
      → (try_upstreams exchange a (i ∷ is) l p).1
        ≡ (try_upstreams exchange (suc a) is (some e) (failed i (exchange a i).now_ms e p)).1
  unfolding try_upstreams
  step_err a i is l p e h = rw (h, try_upstreams)

  try_upstreams-Answer :
      (a i : ℕ) (is : List ℕ) (l : Option UpstreamError) (p : UpstreamPool)
      → Answer a (i ∷ is) (try_upstreams exchange a (i ∷ is) l p).1
  unfolding Answer try_upstreams or_all_failed
  try_upstreams-Answer a i [] l p = elim (Result-cases (exchange a i).result) [
    | inl (r, h) ↦ inl (r, step_ok a i [] l p r h, here h)
    | inr (e, h) ↦ inr (e, step_err a i [] l p e h, last h)
  ]
  try_upstreams-Answer a i (j ∷ is) l p = elim (Result-cases (exchange a i).result) [
    | inl (r, h) ↦ inl (r, step_ok a i (j ∷ is) l p r h, here h)
    | inr (e, h) ↦
        let same = step_err a i (j ∷ is) l p e h in
        elim (try_upstreams-Answer (suc a) j is (some e) (failed i (exchange a i).now_ms e p)) [
          | inl (r, res, s) ↦ inl (r, same ∙ res, later e h s)
          | inr (d, res, f) ↦ inr (d, same ∙ res, before e h f)
        ]
  ]

  nonempty-Answer :
      (order : List ℕ) (p : UpstreamPool)
      → count 0 order ≡ 1
      → Answer 0 order (try_upstreams exchange 0 order none p).1
  unfolding count
  nonempty-Answer [] p h = cc
  nonempty-Answer (i ∷ is) p h = try_upstreams-Answer 0 i is none p

  query-try_upstreams :
      (now_ms : ℕ) (pool : UpstreamPool)
      → 0 < length pool.names
      → query exchange now_ms pool
        ≡ try_upstreams exchange 0 (order_of pool now_ms) none (next_start pool).1
  unfolding query order_of
  query-try_upstreams now_ms pool h =
      let some_left : (length pool.names == 0) ≡ false = ground arith in rw (some_left, query)

  -- A query of a pool that has an upstream returns the message of the first attempt that succeeds,
  -- in the order of attempts, or the error of the last attempt where each fails.
  pub query-Answer :
      (now_ms : ℕ) (pool : UpstreamPool)
      → 0 < length pool.names
      → Answer 0 (order_of pool now_ms) (query exchange now_ms pool).1
  unfolding order_of
  query-Answer now_ms pool h =
      rw (query-try_upstreams now_ms pool h)
        (nonempty-Answer (order_of pool now_ms) (next_start pool).1 (order_of-once now_ms pool 0 h))

  good-err :
      (a i j : ℕ) (e : UpstreamError)
      → ((b : ℕ) → (r : Message) × ((exchange b i).result ≡ ok r))
      → (j == i) ≡ true
      → (exchange a j).result ≡ err e
      → ⊥
  good-err a i j e good same h =
      let (r, ok_r) = good a in
      let at_j : (exchange a j).result ≡ ok r = rw ((==_iff j i).0 same) ok_r in cc

  Fails-none :
      (a i : ℕ) (order : List ℕ) (e : UpstreamError)
      → ((b : ℕ) → (r : Message) × ((exchange b i).result ≡ ok r))
      → 0 < count i order
      → Fails exchange a order e
      → ⊥
  unfolding count
  Fails-none a i _ e good c (last {i = j} h) = elim (Bool-cases (j == i)) [
    | inl same ↦ good-err a i j e good same h
    | inr other ↦ elim (rw other at c) [ ]
  ]
  Fails-none a i _ e good c (before {i = j} {is} d h f) = elim (Bool-cases (j == i)) [
    | inl same ↦ good-err a i j d good same h
    | inr other ↦ Fails-none (suc a) i is e good (omega (arith, rw other at c)) f
  ]

  -- That answer, as the first success in the order.
  pub query-first :
      (now_ms : ℕ) (pool : UpstreamPool) (i : ℕ)
      → i < length pool.names
      → ((b : ℕ) → (r : Message) × ((exchange b i).result ≡ ok r))
      → (r : Message) × ((query exchange now_ms pool).1 ≡ ok r)
        × Succeeds exchange 0 (order_of pool now_ms) r
  unfolding Answer
  query-first now_ms pool i h good =
      let positive : 0 < length pool.names = omega (arith, h) in
      elim (query-Answer now_ms pool positive) [
        | inl (r, res, s) ↦ (r, res, s)
        | inr (e, res, f) ↦
            elim (Fails-none 0 i (order_of pool now_ms) e good
              (omega (arith, order_of-once now_ms pool i h)) f) [ ]
      ]

  -- A query is answered if some upstream of the pool answers whenever it is asked, however the others
  -- fail and whatever their health is.
  pub query-succeeds :
      (now_ms : ℕ) (pool : UpstreamPool) (i : ℕ)
      → i < length pool.names
      → ((b : ℕ) → (r : Message) × ((exchange b i).result ≡ ok r))
      → (r : Message) × ((query exchange now_ms pool).1 ≡ ok r)
  query-succeeds now_ms pool i h good =
      let (r, res, s) = query-first now_ms pool i h good in (r, res)
