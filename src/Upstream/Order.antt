-- ===== src/Upstream/Order.antt =====
-- src/upstream.rs, `attempt_order`: every upstream is tried once, the healthy ones first.
use native.Mathlib.Nat.{mod-eq_of_lt, mod-eq-sub-mod}
use mathlib.Core.List.{append_assoc, append-nil}
use dotdns.Prelude.{
  ℕ, zero, suc, ◌+◌, ◌-◌, ◌%◌, ◌≤◌, ◌<◌, ◌≡◌, refl, ap, ◌∙◌, Bool, not, List, [], ◌∷◌, ◌++◌, length,
  if◌then◌else◌, ◌==◌, ltb, leb, ◌&&◌, arith, Bool-cases, inl, inr,
}
use dotdns.Upstream.{UpstreamHealth, UpstreamPool, degraded_at, push, collect, attempt_order}

-- `n` upstreams from `start`, round the `len` upstreams of the pool.
unfoldable pub round : ℕ → ℕ → ℕ → ℕ → List ℕ
round start len offset zero = []
round start len offset (suc n) = (start + offset) % len ∷ round start len (suc offset) n

abbrev pub select : (ℕ → Bool) → List ℕ → List ℕ
select p [] = []
select p (i ∷ is) = let rest = select p is in if p i then i ∷ rest else rest

module _ (health : List UpstreamHealth) (now_ms start len : ℕ) where
  abbrev healthy : ℕ → Bool
  healthy i = not (degraded_at health now_ms i)

  collect_lem :
      (offset n : ℕ) (hs ds : List ℕ)
      → collect health now_ms start len offset n (hs, ds) ≡ (
        hs ++ select healthy (round start len offset n),
        ds ++ select (degraded_at health now_ms) (round start len offset n),
      )
  unfolding collect push round
  collect_lem offset zero hs ds = rw (append-nil hs, append-nil ds)
  collect_lem offset (suc n) hs ds =
      let idx = (start + offset) % len in
      elim (Bool-cases (degraded_at health now_ms idx)) [
        | inl bad ↦
            rw (bad, collect_lem (suc offset) n hs (ds ++ (idx ∷ [])))
              (ap (λ l. (hs ++ select healthy (round start len (suc offset) n), l))
                (append_assoc ds (idx ∷ []) _))
        | inr good ↦
            rw (good, collect_lem (suc offset) n (hs ++ (idx ∷ [])) ds)
              (ap
                (λ l.
                  (l, ds ++ select (degraded_at health now_ms) (round start len (suc offset) n)))
                (append_assoc hs (idx ∷ []) _))
      ]

-- The upstreams are tried round the pool from the start, those that are not degraded before those
-- that are, both in that order.
pub attempt_order_lem :
    (pool : UpstreamPool) (start now_ms : ℕ)
    → let all : List ℕ = round start (length pool.names) 0 (length pool.names) in
      attempt_order pool start now_ms
      ≡ select (λ i. not (degraded_at pool.health now_ms i)) all
        ++ select (degraded_at pool.health now_ms) all
unfolding attempt_order
attempt_order_lem pool start now_ms =
    rw (collect_lem pool.health now_ms start (length pool.names) 0 (length pool.names) [] [])

-- How often an index stands in a list.
unfoldable pub count : ℕ → List ℕ → ℕ
count i [] = 0
count i (x ∷ xs) = (if x == i then 1 else 0) + count i xs

count-append : (i : ℕ) (xs ys : List ℕ) → count i (xs ++ ys) ≡ count i xs + count i ys
unfolding count
count-append i [] ys = omega arith
count-append i (x ∷ xs) ys = omega (arith, count-append i xs ys)

count-select :
    (i : ℕ) (p : ℕ → Bool) (xs : List ℕ)
    → count i (select (λ x. not (p x)) xs) + count i (select p xs) ≡ count i xs
unfolding count
count-select i p [] = refl
count-select i p (x ∷ xs) = elim (Bool-cases (p x)) [
  | inl e ↦ rw e (omega (arith, count-select i p xs))
  | inr e ↦ rw e (omega (arith, count-select i p xs))
]

wrapped :
    (start len offset : ℕ)
    → start < len
    → offset < len
    → (start + offset) % len
      ≡ (if ltb (start + offset) len then start + offset else start + offset - len)
wrapped start len offset s o = elim (Bool-cases (ltb (start + offset) len)) [
  | inl e ↦ rw e (mod-eq_of_lt (ground arith))
  | inr e ↦ rw e (mod-eq-sub-mod {n = start + offset} (ground arith) ∙ mod-eq_of_lt (ground arith))
]

-- The offset at which the round reaches the upstream `i`.
abbrev place : ℕ → ℕ → ℕ → ℕ
place start len i = if leb start i then i - start else i + len - start

count-round :
    (i start len offset n : ℕ)
    → start < len
    → i < len
    → offset + n ≤ len
    → count i (round start len offset n)
      ≡ (if leb offset (place start len i) && ltb (place start len i) (offset + n) then 1 else 0)
unfolding count round
count-round i start len offset zero s h o = ground arith
count-round i start len offset (suc n) s h o = ground (
  arith,
  count-round i start len (suc offset) n s h (omega arith),
  wrapped start len offset s (omega arith),
)

-- Each upstream of the pool is tried exactly once, whatever the health of all.
pub attempt_order-once :
    (pool : UpstreamPool) (start now_ms i : ℕ)
    → start < length pool.names
    → i < length pool.names
    → count i (attempt_order pool start now_ms) ≡ 1
attempt_order-once pool start now_ms i s h =
    let len = length pool.names in
    ap (count i) (attempt_order_lem pool start now_ms)
    ∙ count-append i (select (λ x. not (degraded_at pool.health now_ms x)) (round start len 0 len))
        (select (degraded_at pool.health now_ms) (round start len 0 len))
    ∙ count-select i (degraded_at pool.health now_ms) (round start len 0 len)
    ∙ count-round i start len 0 len s h (omega arith)
    ∙ ground arith
