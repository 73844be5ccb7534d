-- ===== src/Metrics/Connections.antt =====
-- src/metrics.rs: the gauge of active connections, while the tasks of the connections run side by side.
-- `record_active_connection_closed` loads the gauge and subtracts in a second atomic operation, and
-- the other tasks may come in between.
use dotdns.Prelude.{
  ℕ, zero, suc, ◌+◌, ◌<◌, ◌^◌, ◌≡◌, refl, ◌∙◌, inl, inr, Bool, true, false, List, [], ◌∷◌, ◌++◌,
  some, length, get_elem?, modify, modify-cases, append_one-cases, count_of, count_of-append_one,
  count_of-modify, some_inj, arith,
}
use dotdns.Metrics.{
  MetricsRecorder, PersistedMetrics, new, from_persisted, record_accepted_connection, close_loaded,
}

-- How far a connection is: open, its gauge's value loaded, or counted out.
pub data Stage : Type 0 where
  active : Stage
  loaded : ℕ → Stage
  over : Stage

-- The recorder that the tasks share, and the connections in the order they were accepted.
pub record Tasks : Type 0 where
  pub metrics : MetricsRecorder
  pub connections : List Stage

unfoldable pub set_stage : ℕ → Stage → List Stage → List Stage
set_stage i stage = modify i (λ old. stage)

-- One atomic step on the gauge. The additions of `record_accepted_connection` are on two counters, of
-- which the gauge is one.
pub data Step (t : Tasks) : Tasks → Type 0 where
  accepts : Step t (record {
    metrics = record_accepted_connection t.metrics;
    connections = t.connections ++ (active ∷ []);
  })
  loads :
      (i : ℕ)
      → get_elem? t.connections i ≡ some active
      → Step t (record t {
        connections = set_stage i (loaded t.metrics.active_connections) t.connections;
      })
  subtracts :
      (i current : ℕ)
      → get_elem? t.connections i ≡ some (loaded current)
      → Step t (record {
        metrics = close_loaded current t.metrics;
        connections = set_stage i over t.connections;
      })
  -- Any other recording, none of which touches the gauge.
  records :
      (m : MetricsRecorder)
      → m.active_connections ≡ t.metrics.active_connections
      → Step t (record t { metrics = m })

pub data Reach : Tasks → Type 0 where
  started : (now : ℕ) → Reach (record { metrics = new now; connections = [] })
  restored :
      (now : ℕ) (persisted : PersistedMetrics)
      → Reach (record { metrics = from_persisted now persisted; connections = [] })
  next : (t u : Tasks) → Reach t → Step t u → Reach u

unfoldable pub is_open : Stage → Bool
is_open active = true
is_open (loaded n) = true
is_open over = false

-- The gauge is the number of connections that are not counted out, and every value that was loaded
-- is positive.
pub record Exact (t : Tasks) : Type 0 where
  pub gauge : t.metrics.active_connections ≡ count_of is_open t.connections
  pub positive : (i current : ℕ) → get_elem? t.connections i ≡ some (loaded current) → 0 < current

length-append_one : (xs : List Stage) (x : Stage) → length (xs ++ (x ∷ [])) ≡ length xs + 1
length-append_one [] x = refl
length-append_one (y ∷ xs) x = omega (arith, length-append_one xs x)

length-modify : (i : ℕ) (f : Stage → Stage) (xs : List Stage) → length (modify i f xs) ≡ length xs
length-modify i f [] = refl
length-modify zero f (x ∷ xs) = refl
length-modify (suc i) f (x ∷ xs) = omega (arith, length-modify i f xs)

count_of-length : (p : Stage → Bool) (xs : List Stage) → count_of p xs < length xs + 1
count_of-length p [] = omega arith
count_of-length p (x ∷ xs) = ground (arith, count_of-length p xs)

-- An open connection counts.
open_counts :
    (i : ℕ) (xs : List Stage) (x : Stage)
    → get_elem? xs i ≡ some x
    → is_open x ≡ true
    → 0 < count_of is_open xs
open_counts i [] x h o = cc
open_counts zero (y ∷ xs) x h o = rw (some_inj h, o) (omega arith)
open_counts (suc i) (y ∷ xs) x h o = omega (arith, open_counts i xs x h o)

accepts-Exact :
    (t : Tasks)
    → length t.connections + 1 < 2 ^ 64
    → Exact t
    → Exact (record {
      metrics = record_accepted_connection t.metrics;
      connections = t.connections ++ (active ∷ []);
    })
unfolding record_accepted_connection is_open
accepts-Exact t h e = record {
  gauge = omega (
    arith,
    e.gauge,
    count_of-append_one is_open t.connections active,
    count_of-length is_open t.connections,
  );
  positive = λ i current at. elim (append_one-cases t.connections active i (loaded current) at) [
    | inl (_, p) ↦ cc
    | inr g ↦ e.positive i current g
  ];
}

loads-Exact :
    (t : Tasks) (i : ℕ)
    → get_elem? t.connections i ≡ some active
    → Exact t
    → Exact
        (record t { connections = set_stage i (loaded t.metrics.active_connections) t.connections })
unfolding is_open set_stage
loads-Exact t i at e =
    let gauge = t.metrics.active_connections in
    record {
      gauge =
          omega (
            arith,
            e.gauge,
            count_of-modify is_open (λ old. loaded gauge) i t.connections active at,
          );
      positive = λ j current k.
          elim (modify-cases i j (λ old. loaded gauge) t.connections (loaded current) k) [
            | inl (_, _, _, p) ↦
                let q : current ≡ gauge = cc in
                omega (arith, q, e.gauge, open_counts i t.connections active at refl)
            | inr (_, g) ↦ e.positive j current g
          ];
    }

subtracts-Exact :
    (t : Tasks) (i current : ℕ)
    → length t.connections < 2 ^ 64
    → get_elem? t.connections i ≡ some (loaded current)
    → Exact t
    → Exact (record {
      metrics = close_loaded current t.metrics;
      connections = set_stage i over t.connections;
    })
unfolding close_loaded is_open set_stage
subtracts-Exact t i current h at e = record {
  gauge = ground (
    arith,
    e.gauge,
    e.positive i current at,
    count_of-modify is_open (λ old. over) i t.connections (loaded current) at,
    count_of-length is_open t.connections,
  );
  positive = λ j n k. elim (modify-cases i j (λ old. over) t.connections (loaded n) k) [
    | inl (_, _, _, p) ↦ cc
    | inr (_, g) ↦ e.positive j n g
  ];
}

-- From a new or a restored recorder, however the tasks of fewer than 2^64 connections interleave, the
-- gauge is the number of connections that are not counted out yet, and the value that a closing
-- connection has loaded is never 0: each of them subtracts, and the gauge never wraps.
pub Reach-Exact : (t : Tasks) → Reach t → length t.connections < 2 ^ 64 → Exact t
unfolding from_persisted set_stage
Reach-Exact _ (started now) h = record { gauge = refl; positive = λ i current k. cc }
Reach-Exact _ (restored now persisted) h = record { gauge = refl; positive = λ i current k. cc }
Reach-Exact _ (next t _ r accepts) h =
    let l = length-append_one t.connections active in
    accepts-Exact t (omega (arith, l)) (Reach-Exact t r (omega (arith, l)))
Reach-Exact _ (next t _ r (loads i at)) h =
    let l = length-modify i (λ old. loaded t.metrics.active_connections) t.connections in
    loads-Exact t i at (Reach-Exact t r (omega (arith, l)))
Reach-Exact _ (next t _ r (subtracts i current at)) h =
    let l = length-modify i (λ old. over) t.connections in
    subtracts-Exact t i current (omega (arith, l)) at (Reach-Exact t r (omega (arith, l)))
Reach-Exact _ (next t _ r (records m same)) h =
    let e = Reach-Exact t r h in record { gauge = same ∙ e.gauge; positive = e.positive }
