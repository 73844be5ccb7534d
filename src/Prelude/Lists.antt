-- ===== src/Prelude/Lists.antt =====
-- Lists measured and indexed by native numbers, under the library's names, and predicates on them.
use Prim.Native.Nat.{ℕ, zero, suc, ◌+◌, ◌<◌}
use mathlib.Core.List.{List, [], ◌∷◌, ◌++◌, map}
use mathlib.Core.Logic.{◌⊎◌, ◌≢◌, inl, inr}
use mathlib.Core.Option.{Option, none, some}
use mathlib.Core.Path.{◌≡◌, refl, sym, ap, ◌∙◌}
use native.Mathlib.Omega.{arith}
use dotdns.Prelude.Tests.{◌==◌, if◌then◌else◌, some_inj}
use mathlib.Core.Option
use mathlib.Core.Bool.{Bool}

module _ {ℓ} {A : Type ℓ} where
  abbrev pub length : List A → ℕ
  length [] = 0
  length (x ∷ xs) = suc (length xs)

  abbrev pub get_elem? : List A → ℕ → Option A
  get_elem? [] i = none
  get_elem? (x ∷ xs) zero = some x
  get_elem? (x ∷ xs) (suc i) = get_elem? xs i

  abbrev pub replicate : ℕ → A → List A
  replicate zero a = []
  replicate (suc n) a = a ∷ replicate n a

  abbrev pub All {κ} : (A → Type κ) → List A → Type κ
  All P [] = Unit
  All P (x ∷ xs) = P x × All P xs

-- The element is one of the list's.
abbrev pub OneOf : {A : Type 0} → A → List A → Type 0
OneOf a [] = ⊥
OneOf a (x ∷ xs) = (a ≡ x) ⊎ OneOf a xs

pub get_elem?-some :
    {A : Type 0} (xs : List A) (i : ℕ) → i < length xs → (x : A) × (get_elem? xs i ≡ some x)
get_elem?-some [] i h = elim h [ ]
get_elem?-some (x ∷ xs) zero h = (x, refl)
get_elem?-some (x ∷ xs) (suc i) h = get_elem?-some xs i (omega arith)

module _ {A : Type 0} where
  abbrev pub modify : ℕ → (A → A) → List A → List A
  modify i f [] = []
  modify zero f (x ∷ xs) = f x ∷ xs
  modify (suc i) f (x ∷ xs) = x ∷ modify i f xs

  pub get_elem?-modify :
      (i j : ℕ) (f : A → A) (xs : List A)
      → get_elem? (modify i f xs) j
        ≡ (if i == j then Option.map f (get_elem? xs j) else get_elem? xs j)
  get_elem?-modify i j f [] = ground arith
  get_elem?-modify zero zero f (x ∷ xs) = refl
  get_elem?-modify zero (suc j) f (x ∷ xs) = ground arith
  get_elem?-modify (suc i) zero f (x ∷ xs) = ground arith
  get_elem?-modify (suc i) (suc j) f (x ∷ xs) = ground (arith, get_elem?-modify i j f xs)

  -- An element of a list with one more at its end.
  pub get_elem?-append_one :
      (xs : List A) (x : A) (j : ℕ)
      → get_elem? (xs ++ (x ∷ [])) j ≡ (if j == length xs then some x else get_elem? xs j)
  get_elem?-append_one [] x zero = ground arith
  get_elem?-append_one [] x (suc j) = ground arith
  get_elem?-append_one (y ∷ xs) x zero = ground arith
  get_elem?-append_one (y ∷ xs) x (suc j) = ground (arith, get_elem?-append_one xs x j)

  pub get_elem?-lt : (xs : List A) (i : ℕ) (x : A) → get_elem? xs i ≡ some x → i < length xs
  get_elem?-lt [] i x h = cc
  get_elem?-lt (y ∷ xs) zero x h = omega arith
  get_elem?-lt (y ∷ xs) (suc i) x h = omega (arith, get_elem?-lt xs i x h)

  -- How many elements pass a test.
  abbrev pub count_of : (A → Bool) → List A → ℕ
  count_of p [] = 0
  count_of p (x ∷ xs) = (if p x then 1 else 0) + count_of p xs

  pub count_of-append_one :
      (p : A → Bool) (xs : List A) (x : A)
      → count_of p (xs ++ (x ∷ [])) ≡ count_of p xs + (if p x then 1 else 0)
  count_of-append_one p [] x = omega arith
  count_of-append_one p (y ∷ xs) x = omega (arith, count_of-append_one p xs x)

  pub count_of-modify :
      (p : A → Bool) (f : A → A) (i : ℕ) (xs : List A) (x : A)
      → get_elem? xs i ≡ some x
      → count_of p (modify i f xs) + (if p x then 1 else 0)
        ≡ count_of p xs + (if p (f x) then 1 else 0)
  count_of-modify p f i [] x h = cc
  count_of-modify p f zero (y ∷ xs) x h = rw (sym (some_inj h)) (omega arith)
  count_of-modify p f (suc i) (y ∷ xs) x h = omega (arith, count_of-modify p f i xs x h)

module _ {A B : Type 0} (g : A → B) where
  pub map-append_one : (xs : List A) (x : A) → map g (xs ++ (x ∷ [])) ≡ map g xs ++ (g x ∷ [])
  map-append_one [] x = refl
  map-append_one (y ∷ xs) x = ap (◌∷◌ (g y)) (map-append_one xs x)

  pub get_elem?-map :
      (xs : List A) (i : ℕ) (x : A) → get_elem? xs i ≡ some x → get_elem? (map g xs) i ≡ some (g x)
  get_elem?-map [] i x h = cc
  get_elem?-map (y ∷ xs) zero x h = ap some (ap g (some_inj h))
  get_elem?-map (y ∷ xs) (suc i) x h = get_elem?-map xs i x h

pub modify_twice :
    {A : Type 0} (i : ℕ) (f g : A → A) (xs : List A)
    → modify i f (modify i g xs) ≡ modify i (λ x. f (g x)) xs
modify_twice i f g [] = refl
modify_twice zero f g (x ∷ xs) = refl
modify_twice (suc i) f g (x ∷ xs) = ap (◌∷◌ x) (modify_twice i f g xs)

-- Where an element of a changed list comes from.
pub modify-cases :
    {A : Type 0} (i j : ℕ) (f : A → A) (xs : List A) (y : A)
    → get_elem? (modify i f xs) j ≡ some y
    → ((x : A) × (j ≡ i) × (get_elem? xs i ≡ some x) × (y ≡ f x))
      ⊎ ((j ≢ i) × (get_elem? xs j ≡ some y))
modify-cases i j f [] y h = cc
modify-cases zero zero f (x ∷ xs) y h = inl (x, refl, refl, sym (some_inj h))
modify-cases zero (suc j) f (x ∷ xs) y h = inr (λ e. omega (arith, e), h)
modify-cases (suc i) zero f (x ∷ xs) y h = inr (λ e. omega (arith, e), h)
modify-cases (suc i) (suc j) f (x ∷ xs) y h = elim (modify-cases i j f xs y h) [
  | inl (z, e, g, p) ↦ inl (z, ap suc e, g, p)
  | inr (n, g) ↦ inr (λ e. n (omega (arith, e)), g)
]

pub append_one-cases :
    {A : Type 0} (xs : List A) (x : A) (j : ℕ) (y : A)
    → get_elem? (xs ++ (x ∷ [])) j ≡ some y
    → ((j ≡ length xs) × (y ≡ x)) ⊎ (get_elem? xs j ≡ some y)
append_one-cases [] x zero y h = inl (refl, sym (some_inj h))
append_one-cases [] x (suc j) y h = cc
append_one-cases (z ∷ xs) x zero y h = inr h
append_one-cases (z ∷ xs) x (suc j) y h = elim (append_one-cases xs x j y h) [
  | inl (e, p) ↦ inl (ap suc e, p)
  | inr g ↦ inr g
]

module _ {A : Type 0} where
  pub get_elem?-modify_self :
      (i : ℕ) (f : A → A) (xs : List A) (x : A)
      → get_elem? xs i ≡ some x
      → get_elem? (modify i f xs) i ≡ some (f x)
  get_elem?-modify_self i f [] x h = cc
  get_elem?-modify_self zero f (y ∷ xs) x h = ap some (ap f (some_inj h))
  get_elem?-modify_self (suc i) f (y ∷ xs) x h = get_elem?-modify_self i f xs x h

  pub get_elem?-append :
      (xs ys : List A) (i : ℕ) (x : A) → get_elem? xs i ≡ some x → get_elem? (xs ++ ys) i ≡ some x
  get_elem?-append [] ys i x h = cc
  get_elem?-append (y ∷ xs) ys zero x h = h
  get_elem?-append (y ∷ xs) ys (suc i) x h = get_elem?-append xs ys i x h

  pub get_elem?-last : (xs : List A) (x : A) → get_elem? (xs ++ (x ∷ [])) (length xs) ≡ some x
  get_elem?-last [] x = refl
  get_elem?-last (y ∷ xs) x = get_elem?-last xs x

  -- What becomes of an element.
  pub modify-at :
      (i j : ℕ) (f : A → A) (xs : List A) (x : A)
      → get_elem? xs j ≡ some x
      → ((j ≡ i) × (get_elem? (modify i f xs) j ≡ some (f x)))
        ⊎ ((j ≢ i) × (get_elem? (modify i f xs) j ≡ some x))
  modify-at i j f [] x h = cc
  modify-at zero zero f (y ∷ xs) x h = inl (refl, ap some (ap f (some_inj h)))
  modify-at zero (suc j) f (y ∷ xs) x h = inr (λ e. omega (arith, e), h)
  modify-at (suc i) zero f (y ∷ xs) x h = inr (λ e. omega (arith, e), h)
  modify-at (suc i) (suc j) f (y ∷ xs) x h = elim (modify-at i j f xs x h) [
    | inl (e, g) ↦ inl (ap suc e, g)
    | inr (n, g) ↦ inr (λ e. n (omega (arith, e)), g)
  ]

pub map-modify :
    {A B : Type 0} (g : A → B) (i : ℕ) (f : A → A) (h : B → B) (xs : List A)
    → ((x : A) → g (f x) ≡ h (g x))
    → map g (modify i f xs) ≡ modify i h (map g xs)
map-modify g i f h [] e = refl
map-modify g zero f h (x ∷ xs) e = ap (λ y. y ∷ map g xs) (e x)
map-modify g (suc i) f h (x ∷ xs) e = ap (◌∷◌ (g x)) (map-modify g i f h xs e)

pub modify_same :
    {A : Type 0} (i : ℕ) (f : A → A) (xs : List A) (x : A)
    → get_elem? xs i ≡ some x
    → f x ≡ x
    → modify i f xs ≡ xs
modify_same i f [] x h e = refl
modify_same zero f (y ∷ xs) x h e = ap (λ z. z ∷ xs) (ap f (some_inj h) ∙ e ∙ sym (some_inj h))
modify_same (suc i) f (y ∷ xs) x h e = ap (◌∷◌ y) (modify_same i f xs x h e)

pub count_of-modify_same :
    {A : Type 0} (p : A → Bool) (f : A → A) (i : ℕ) (xs : List A)
    → ((x : A) → p (f x) ≡ p x)
    → count_of p (modify i f xs) ≡ count_of p xs
count_of-modify_same p f i [] e = refl
count_of-modify_same p f zero (x ∷ xs) e = rw (e x) refl
count_of-modify_same p f (suc i) (x ∷ xs) e =
    ap (λ n. (if p x then 1 else 0) + n) (count_of-modify_same p f i xs e)
