-- ===== src/Server/Pending/Table.antt =====
-- src/server.rs, the table of pending queries, whose keys are byte strings: look-ups after an
-- insertion and after a removal.
use dotdns.Prelude.{
  ℕ, ◌≡◌, ◌≢◌, ◌⊎◌, refl, sym, ap, ◌∙◌, inl, inr, List, none, some, some_inj, Bool-cases,
  if◌then◌else◌,
}
use dotdns.Map.{lookup, insert, remove, Distinct, lookup-insert, lookup-remove}
use dotdns.Text.{eq_text}
use dotdns.Text.Laws.{eq_text_sound, eq_text_refl, text_Equality}

-- A key that is looked up after an insertion.
pub found-insert :
    (key k : List ℕ) (ch c : ℕ) (inner : List (List ℕ × ℕ))
    → lookup eq_text k (insert eq_text key ch inner) ≡ some c
    → ((key ≡ k) × (c ≡ ch)) ⊎ (lookup eq_text k inner ≡ some c)
found-insert key k ch c inner h =
    let g : (if eq_text key k then some ch else lookup eq_text k inner) ≡ some c =
      sym (lookup-insert eq_text text_Equality key k ch inner) ∙ h in
    elim (Bool-cases (eq_text key k)) [
      | inl e ↦ inl (eq_text_sound key k e, sym (some_inj (rw e at g)))
      | inr e ↦ inr (rw e at g)
    ]

pub kept-insert :
    (key k : List ℕ) (ch c : ℕ) (inner : List (List ℕ × ℕ))
    → lookup eq_text key inner ≡ none
    → lookup eq_text k inner ≡ some c
    → lookup eq_text k (insert eq_text key ch inner) ≡ some c
kept-insert key k ch c inner absent h =
    lookup-insert eq_text text_Equality key k ch inner ∙ elim (Bool-cases (eq_text key k)) [
      | inl e ↦ let same = eq_text_sound key k e in cc (ap (λ x. lookup eq_text x inner) same)
      | inr e ↦ rw e h
    ]

pub found_self :
    (key : List ℕ) (ch : ℕ) (inner : List (List ℕ × ℕ))
    → lookup eq_text key (insert eq_text key ch inner) ≡ some ch
found_self key ch inner =
    lookup-insert eq_text text_Equality key key ch inner ∙ rw (eq_text_refl key) refl

-- A key that is looked up after a removal.
pub found-remove :
    (key k : List ℕ) (c : ℕ) (inner : List (List ℕ × ℕ))
    → Distinct eq_text inner
    → lookup eq_text k (remove eq_text key inner) ≡ some c
    → (key ≢ k) × (lookup eq_text k inner ≡ some c)
found-remove key k c inner d h =
    let g : (if eq_text key k then none else lookup eq_text k inner) ≡ some c =
      sym (lookup-remove eq_text text_Equality key k inner d) ∙ h in
    elim (Bool-cases (eq_text key k)) [
      | inl e ↦ let k = rw e at g in cc
      | inr e ↦ (λ same. cc (ap (eq_text key) same, eq_text_refl key), rw e at g)
    ]

pub kept-remove :
    (key k : List ℕ) (c : ℕ) (inner : List (List ℕ × ℕ))
    → Distinct eq_text inner
    → key ≢ k
    → lookup eq_text k inner ≡ some c
    → lookup eq_text k (remove eq_text key inner) ≡ some c
kept-remove key k c inner d n h =
    lookup-remove eq_text text_Equality key k inner d ∙ elim (Bool-cases (eq_text key k)) [
      | inl e ↦ absurd (n (eq_text_sound key k e))
      | inr e ↦ rw e h
    ]
