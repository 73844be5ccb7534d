-- ===== src/Map.antt =====
-- `HashMap` as an association list: the order of the list is the order of iteration, which nothing
-- may rely on. Keys are compared by their `Eq`, a Boolean test with the laws of an equivalence.
use dotdns.Prelude.{
  zero, get_elem?, ℕ, suc, ◌+◌, ◌≡◌, refl, Bool, true, List, [], ◌∷◌, Option, none, some, arith,
  length, if◌then◌else◌, Bool-cases, inl, inr,
}

pub record Equality {ℓ} {K : Type ℓ} (eq : K → K → Bool) : Type ℓ where
  pub eq_refl : (a : K) → eq a a ≡ true
  pub eq_sym : (a b : K) → eq a b ≡ true → eq b a ≡ true
  pub eq_trans : (a b c : K) → eq a b ≡ true → eq b c ≡ true → eq a c ≡ true

module _ {K V : Type 0} (eq : K → K → Bool) where
  unfoldable pub lookup : K → List (K × V) → Option V
  lookup k [] = none
  lookup k ((j, v) ∷ m) = if eq j k then some v else lookup k m

  -- `insert` keeps the key that is there.
  unfoldable pub insert : K → V → List (K × V) → List (K × V)
  insert k v [] = (k, v) ∷ []
  insert k v ((j, w) ∷ m) = if eq j k then (j, v) ∷ m else (j, w) ∷ insert k v m

  unfoldable pub remove : K → List (K × V) → List (K × V)
  remove k [] = []
  remove k ((j, w) ∷ m) = if eq j k then m else (j, w) ∷ remove k m

  -- No key stands twice.
  abbrev pub Distinct : List (K × V) → Type 0
  Distinct [] = Unit
  Distinct ((k, v) ∷ m) = (lookup k m ≡ none) × Distinct m

module _ {K : Type 0} (eq : K → K → Bool) (E : Equality eq) where
  eq-cong : (i j k : K) → eq j k ≡ true → eq i j ≡ eq i k
  eq-cong i j k h = elim (Bool-cases (eq i j)) [
    | inl e ↦ ground (arith, E.eq_trans i j k)
    | inr e ↦ ground (arith, E.eq_trans i k j, E.eq_sym j k)
  ]

module _ {K V : Type 0} (eq : K → K → Bool) (E : Equality eq) where
  pub lookup-cong : (j k : K) (m : List (K × V)) → eq j k ≡ true → lookup eq j m ≡ lookup eq k m
  unfolding lookup
  lookup-cong j k [] h = refl
  lookup-cong j k ((i, v) ∷ m) h = ground (arith, eq-cong eq E i j k, lookup-cong j k m)

  pub lookup-insert :
      (k j : K) (v : V) (m : List (K × V))
      → lookup eq j (insert eq k v m) ≡ (if eq k j then some v else lookup eq j m)
  unfolding lookup insert
  lookup-insert k j v [] = refl
  lookup-insert k j v ((i, w) ∷ m) = ground (
    arith,
    lookup-insert k j v m,
    E.eq_trans i k j,
    E.eq_trans k i j,
    E.eq_sym i k,
    E.eq_trans i j k,
    E.eq_sym k j,
  )

  pub insert-Distinct :
      (k : K) (v : V) (m : List (K × V)) → Distinct eq m → Distinct eq (insert eq k v m)
  unfolding insert lookup
  insert-Distinct k v [] d = (refl, tt)
  insert-Distinct k v ((i, w) ∷ m) d =
      ground (arith, lookup-insert k i v m, insert-Distinct k v m d.1, E.eq_sym k i)

  pub length-insert :
      (k : K) (v : V) (m : List (K × V))
      → length (insert eq k v m) ≡ elim (lookup eq k m) [ none ↦ length m + 1 | some w ↦ length m ]
  unfolding insert lookup
  length-insert k v [] = refl
  length-insert k v ((i, w) ∷ m) = ground (arith, length-insert k v m)

  pub lookup-remove :
      (k j : K) (m : List (K × V))
      → Distinct eq m
      → lookup eq j (remove eq k m) ≡ (if eq k j then none else lookup eq j m)
  unfolding lookup remove
  lookup-remove k j [] d = ground arith
  lookup-remove k j ((i, w) ∷ m) d = ground (
    arith,
    lookup-remove k j m d.1,
    E.eq_trans i k j,
    E.eq_trans k i j,
    E.eq_sym i k,
    E.eq_trans i j k,
    E.eq_sym k j,
    lookup-cong i j m,
    lookup-cong k j m,
  )

  pub remove-Distinct : (k : K) (m : List (K × V)) → Distinct eq m → Distinct eq (remove eq k m)
  unfolding remove lookup
  remove-Distinct k [] d = tt
  remove-Distinct k ((i, w) ∷ m) d =
      ground (arith, lookup-remove k i m d.1, remove-Distinct k m d.1)

  pub length-remove :
      (k : K) (m : List (K × V))
      → length (remove eq k m) + elim (lookup eq k m) [ none ↦ 0 | some w ↦ 1 ] ≡ length m
  unfolding remove lookup
  length-remove k [] = refl
  length-remove k ((i, w) ∷ m) = ground (arith, length-remove k m)

  -- A key of the map is found.
  pub lookup-get_elem :
      (m : List (K × V)) (i : ℕ) (k : K) (v : V)
      → get_elem? m i ≡ some (k, v)
      → (w : V) × (lookup eq k m ≡ some w)
  unfolding lookup
  lookup-get_elem [] i k v h = cc
  lookup-get_elem ((j, w) ∷ m) zero k v h = (w, ground (arith, E.eq_refl k))
  lookup-get_elem ((j, w) ∷ m) (suc i) k v h = elim (Bool-cases (eq j k)) [
    | inl e ↦ (w, rw e)
    | inr e ↦ let (u, f) = lookup-get_elem m i k v h in (u, rw e f)
  ]
