-- ===== src/Blocklist/Suffixes.antt =====
-- src/blocklist.rs, `domain_suffixes`: what the iterator yields.
use dotdns.Prelude.{
  OneOf, ℕ, zero, suc, ◌≤◌, ◌≡◌, refl, ◌≢◌, ◌↔◌, ◌⊎◌, inl, inr, [], ◌∷◌, ◌++◌, ap, ◌∙◌, arith,
  length, Bool-cases, ◌==◌,
}
use mathlib.Core.List.{append_assoc}
use dotdns.Text.{Text}
use dotdns.Blocklist.{after_dot, suffixes_from, domain_suffixes}

-- `s` is a whole domain at the end of `d`: `d` itself, or what follows a dot of `d`.
abbrev pub IsLabelSuffix : Text → Text → Type 0
IsLabelSuffix s d = (s ≢ []) × ((s ≡ d) ⊎ ((p : Text) × (d ≡ p ++ (b'.' ∷ s))))

length-after_dot : (d : Text) → length (after_dot d) ≤ length d
unfolding after_dot
length-after_dot [] = omega arith
length-after_dot (c ∷ s) = ground (arith, length-after_dot s)

length-after_dot_cons : (c : ℕ) (s : Text) → length (after_dot (c ∷ s)) ≤ length s
unfolding after_dot
length-after_dot_cons c s = ground (arith, length-after_dot s)

-- Either no dot is followed by anything, or `after_dot d` follows the first dot.
after_dot-split : (d : Text) → (after_dot d ≡ []) ⊎ ((p : Text) × (d ≡ p ++ (b'.' ∷ after_dot d)))
unfolding after_dot
after_dot-split [] = inl refl
after_dot-split (c ∷ s) = elim (Bool-cases (c == b'.')) [
  | inl e ↦ rw (e, after_dot) (inr ([], ground arith))
  | inr e ↦
      rw (e, after_dot)
        (elim (after_dot-split s) [ inl h ↦ inl h | inr (p, h) ↦ inr (c ∷ p, ap (◌∷◌ c) h) ])
]

after_dot-append :
    (p s : Text)
    → (s ≡ after_dot (p ++ (b'.' ∷ s)))
      ⊎ ((q : Text) × (after_dot (p ++ (b'.' ∷ s)) ≡ q ++ (b'.' ∷ s)))
unfolding after_dot
after_dot-append [] s = inl refl
after_dot-append (c ∷ p) s = elim (Bool-cases (c == b'.')) [
  | inl e ↦ rw (e, after_dot) (inr (p, refl))
  | inr e ↦ rw (e, after_dot) (after_dot-append p s)
]

extend-IsLabelSuffix :
    (t d p e : Text) → d ≡ p ++ (b'.' ∷ e) → IsLabelSuffix t e → IsLabelSuffix t d
extend-IsLabelSuffix t d p e h (ne, inl same) = (ne, inr (p, rw (same) h))
extend-IsLabelSuffix t d p e h (ne, inr (q, tail)) =
    (ne, inr (p ++ (b'.' ∷ q), h ∙ rw (append_assoc p (b'.' ∷ q)) (ap (λ r. p ++ (b'.' ∷ r)) tail)))

not-IsLabelSuffix-nil : (t : Text) → IsLabelSuffix t [] → ⊥
not-IsLabelSuffix-nil t (ne, inl e) = ne e
not-IsLabelSuffix-nil t (ne, inr ([], e)) = cc
not-IsLabelSuffix-nil t (ne, inr (c ∷ p, e)) = cc

suffixes_from_sound : (fuel : ℕ) (t d : Text) → OneOf t (suffixes_from fuel d) → IsLabelSuffix t d
unfolding suffixes_from
suffixes_from_sound zero t d h = absurd h
suffixes_from_sound (suc fuel) t [] h = absurd h
suffixes_from_sound (suc fuel) t (c ∷ s) (inl e) = (λ n. cc, inl e)
suffixes_from_sound (suc fuel) t (c ∷ s) (inr h) =
    let ih = suffixes_from_sound fuel t (after_dot (c ∷ s)) h in
    elim (after_dot-split (c ∷ s)) [
      | inl none_left ↦ absurd (not-IsLabelSuffix-nil t (rw none_left at ih))
      | inr (p, e) ↦ extend-IsLabelSuffix t (c ∷ s) p (after_dot (c ∷ s)) e ih
    ]

suffixes_from_complete :
    (fuel : ℕ) (t d : Text) → length d ≤ fuel → IsLabelSuffix t d → OneOf t (suffixes_from fuel d)
unfolding suffixes_from
suffixes_from_complete fuel t [] h m = absurd (not-IsLabelSuffix-nil t m)
suffixes_from_complete zero t (c ∷ s) h m = absurd (omega arith)
suffixes_from_complete (suc fuel) t (c ∷ s) h (ne, inl e) = inl e
suffixes_from_complete (suc fuel) t (c ∷ s) h (ne, inr (p, e)) = inr (
    suffixes_from_complete fuel t (after_dot (c ∷ s)) (omega (arith, length-after_dot_cons c s))
      (ne, rw e (elim (after_dot-append p t) [ inl same ↦ inl same | inr later ↦ inr later ])))

-- `domain_suffixes` yields the domain and what follows each of its dots, and nothing else: a text
-- is among the suffixes of a domain exactly when it is not empty and is the domain itself or
-- stands behind a dot at its end.
pub domain_suffixes_iff : (t d : Text) → OneOf t (domain_suffixes d) ↔ IsLabelSuffix t d
unfolding domain_suffixes
domain_suffixes_iff t d =
    (suffixes_from_sound (length d) t d, suffixes_from_complete (length d) t d (omega arith))
