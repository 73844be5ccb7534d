-- ===== src/Prelude/Results.antt =====
-- Fallible code: Rust's `Result`, with `?` as the monad's bind.
use mathlib.Core.Logic.{◌⊎◌, inl, inr}
use mathlib.Core.Path.{◌≡◌, refl}

pub data Result {ℓ} (E : Type 0) (A : Type ℓ) : Type ℓ where
  err : E → Result E A
  ok : A → Result E A

module _ {E : Type 0} where
  infixl 5 ◌>>=◌
  abbrev pub ◌>>=◌ {ℓ κ} : {A : Type ℓ} {B : Type κ} → Result E A → (A → Result E B) → Result E B
  err problem >>= next = err problem
  ok value >>= next = next value

  infixl 5 ◌>>◌
  abbrev pub ◌>>◌ {ℓ} : {B : Type ℓ} → Result E (Unit {0}) → Result E B → Result E B
  err problem >> next = err problem
  ok value >> next = next

  -- `r.map_err(f)`
  abbrev pub map_err {ℓ} : {F : Type 0} {A : Type ℓ} → (E → F) → Result E A → Result F A
  map_err change (err problem) = err (change problem)
  map_err change (ok value) = ok value

-- `?` after `?` may be read in either grouping.
pub >>=-assoc :
    {E A B C : Type 0} (first : Result E A) (next : A → Result E B) (last : B → Result E C)
    → ((first >>= next) >>= last) ≡ (first >>= λ x. next x >>= last)
>>=-assoc (err problem) next last = refl
>>=-assoc (ok value) next last = refl

pub Result-cases :
    {E A : Type 0} (r : Result E A)
    → ((value : A) × (r ≡ ok value)) ⊎ ((problem : E) × (r ≡ err problem))
Result-cases (err problem) = inr (problem, refl)
Result-cases (ok value) = inl (value, refl)
