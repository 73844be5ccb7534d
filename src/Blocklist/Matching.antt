-- ===== src/Blocklist/Matching.antt =====
-- src/blocklist.rs, `rule_matches` and `decide`, against the meaning of a rule: it covers its
-- domain and every subdomain.
use dotdns.Prelude.{
  OneOf, ◌≡◌, if◌then◌else◌, refl, ◌↔◌, ◌⊎◌, inl, inr, Bool, true, false, List, [], ◌∷◌, arith,
  Bool-cases,
}
use dotdns.Text.{Text}
use dotdns.Text.Laws.{eq_text_iff}
use dotdns.Blocklist.{
  BlockDecision, NormalizedRule, domain, contains, insert, BlocklistEngine, domain_suffixes,
  any_contains, rule_matches, normalize_domain, decide,
}
use dotdns.Blocklist.Suffixes.{IsLabelSuffix, domain_suffixes_iff}

contains_eq :
    (r q : NormalizedRule) (rules : List NormalizedRule)
    → contains rules r ≡ true
    → q ≡ r
    → contains rules q ≡ true
contains_eq r q rules h e = rw e h

pub contains-insert :
    (r q : NormalizedRule) (rules : List NormalizedRule)
    → (contains (insert r rules) q ≡ true) ↔ ((q ≡ r) ⊎ (contains rules q ≡ true))
unfolding insert contains
contains-insert (domain d) (domain e) rules =
    ground (arith, eq_text_iff d e, eq_text_iff e d, contains_eq (domain d) (domain e) rules)

-- Some rule covers `d`: the rule's domain is `d` or a parent of it, label by label.
abbrev pub Covers : List NormalizedRule → Text → Type 0
Covers rules d = (s : Text) × (contains rules (domain s) ≡ true) × IsLabelSuffix s d

any_contains_sound :
    (rules : List NormalizedRule) (ss : List Text)
    → any_contains rules ss ≡ true
    → (s : Text) × (contains rules (domain s) ≡ true) × OneOf s ss
unfolding any_contains
any_contains_sound rules [] h = cc
any_contains_sound rules (s ∷ ss) h = elim (Bool-cases (contains rules (domain s))) [
  | inl e ↦ (s, e, inl refl)
  | inr e ↦
      let (t, found, among) = any_contains_sound rules ss (rw (e, any_contains) at h) in
      (t, found, inr among)
]

any_contains_complete :
    (rules : List NormalizedRule) (ss : List Text) (s : Text)
    → contains rules (domain s) ≡ true
    → OneOf s ss
    → any_contains rules ss ≡ true
unfolding any_contains
any_contains_complete rules [] s h m = absurd m
any_contains_complete rules (t ∷ ss) s h (inl e) = rw (← e, h)
any_contains_complete rules (t ∷ ss) s h (inr m) =
    ground (arith, any_contains_complete rules ss s h m)

pub rule_matches_iff :
    (rules : List NormalizedRule) (d : Text) → (rule_matches rules d ≡ true) ↔ Covers rules d
unfolding rule_matches
rule_matches_iff rules d = (
  λ h.
      let (s, found, among) = any_contains_sound rules (domain_suffixes d) h in
      (s, found, (domain_suffixes_iff s d).0 among),
  λ c. any_contains_complete rules (domain_suffixes d) c.0 c.1 ((domain_suffixes_iff c.0 d).1 c.2),
)

-- The three answers, by the two tests.
verdict :
    (a b : Bool) {P Q : Type 0}
    → (a ≡ true) ↔ P
    → (b ≡ true) ↔ Q
    → let v : BlockDecision =
        if a
        then BlockDecision.exception
        else if b
        then BlockDecision.block
        else BlockDecision.allow in
      ((v ≡ BlockDecision.exception) ↔ P)
      × ((v ≡ BlockDecision.block) ↔ ((¬ P) × Q))
      × ((v ≡ BlockDecision.allow) ↔ ((¬ P) × (¬ Q)))
verdict true b p q = (
  (λ _. p.0 refl, λ _. refl),
  (λ e. cc, λ h. absurd (h.0 (p.0 refl))),
  (λ e. cc, λ h. absurd (h.0 (p.0 refl))),
)
verdict false true p q = (
  (λ e. cc, λ h. cc (p.1 h)),
  (λ _. (λ h. cc (p.1 h), q.0 refl), λ _. refl),
  (λ e. cc, λ h. absurd (h.1 (q.0 refl))),
)
verdict false false p q = (
  (λ e. cc, λ h. cc (p.1 h)),
  (λ e. cc, λ h. cc (q.1 h.1)),
  (λ _. (λ h. cc (p.1 h), λ h. cc (q.1 h)), λ _. refl),
)

module _ (lower : Text → Text) (engine : BlocklistEngine) (d : Text) where
  -- `decide` is exact, on the trimmed and lower-cased domain: an exception if an exception rule
  -- covers it, otherwise a block if a block rule covers it, and allowed if neither does.
  pub decide_iff :
      ((decide lower engine d ≡ BlockDecision.exception)
        ↔ Covers engine.exceptions (normalize_domain lower d))
      × ((decide lower engine d ≡ BlockDecision.block) ↔ (
          (¬ Covers engine.exceptions (normalize_domain lower d))
          × Covers engine.blocks (normalize_domain lower d)))
      × ((decide lower engine d ≡ BlockDecision.allow) ↔ (
          (¬ Covers engine.exceptions (normalize_domain lower d))
          × (¬ Covers engine.blocks (normalize_domain lower d))))
  unfolding decide
  decide_iff =
      verdict (rule_matches engine.exceptions (normalize_domain lower d))
        (rule_matches engine.blocks (normalize_domain lower d))
        (rule_matches_iff engine.exceptions (normalize_domain lower d))
        (rule_matches_iff engine.blocks (normalize_domain lower d))
