-- ===== src/Blocklist/Loading/Contents.antt =====
-- src/blocklist.rs, `from_sources`: which rules the engine holds after the files are read, and what
-- the report counts.
use dotdns.Prelude.{
  ◌+◌, ◌%◌, ◌^◌, ◌≡◌, refl, ◌↔◌, ◌⊎◌, inl, inr, true, List, [], ◌∷◌, ◌++◌, length, OneOf, arith,
}
use mathlib.Core.Path.{subst}
use dotdns.Text.{Text}
use dotdns.Blocklist.{
  NormalizedRule, RuleTarget, ParsedLine, ParseReport, BlocklistEngine, contains, parse_line,
}
use dotdns.Blocklist.Matching.{contains-insert}
use dotdns.Blocklist.Loading.{apply_line}

-- What one parsed line of a list adds, by the list that it stands in.
abbrev pub AddsBlock : RuleTarget → ParsedLine → NormalizedRule → Type 0
AddsBlock RuleTarget.block (ParsedLine.block r) q = q ≡ r
AddsBlock _ _ q = ⊥

abbrev pub AddsException : RuleTarget → ParsedLine → NormalizedRule → Type 0
AddsException RuleTarget.allow (ParsedLine.block r) q = q ≡ r
AddsException _ (ParsedLine.exception r) q = q ≡ r
AddsException _ _ q = ⊥

-- The rules before a line and after it.
abbrev pub Step : (NormalizedRule → Type 0) → List NormalizedRule → List NormalizedRule → Type 0
Step Adds before after =
    (q : NormalizedRule) → (contains after q ≡ true) ↔ (Adds q ⊎ (contains before q ≡ true))

keep-Step :
    (Adds : NormalizedRule → Type 0) (rules : List NormalizedRule)
    → ((q : NormalizedRule) → Adds q → ⊥)
    → Step Adds rules rules
keep-Step Adds rules none_added q =
    (λ h. inr h, λ h. elim h [ inl a ↦ absurd (none_added q a) | inr c ↦ c ])

pub apply_line-blocks :
    (target : RuleTarget) (p : ParsedLine) (engine : BlocklistEngine) (report : ParseReport)
    → Step (AddsBlock target p) engine.blocks (apply_line target p (engine, report)).0.blocks
unfolding apply_line
apply_line-blocks RuleTarget.block (ParsedLine.block r) engine report q =
    contains-insert r q engine.blocks
apply_line-blocks RuleTarget.allow ParsedLine.skip engine report q =
    keep-Step (λ q. ⊥) engine.blocks (λ q a. a) q
apply_line-blocks _ _ engine report q = keep-Step (λ q. ⊥) engine.blocks (λ q a. a) q

pub apply_line-exceptions :
    (target : RuleTarget) (p : ParsedLine) (engine : BlocklistEngine) (report : ParseReport)
    → Step
        (AddsException target p)
        engine.exceptions
        (apply_line target p (engine, report)).0.exceptions
unfolding apply_line
apply_line-exceptions RuleTarget.allow (ParsedLine.block r) engine report q =
    contains-insert r q engine.exceptions
apply_line-exceptions RuleTarget.block (ParsedLine.exception r) engine report q =
    contains-insert r q engine.exceptions
apply_line-exceptions RuleTarget.allow (ParsedLine.exception r) engine report q =
    contains-insert r q engine.exceptions
apply_line-exceptions RuleTarget.allow ParsedLine.skip engine report q =
    keep-Step (λ q. ⊥) engine.exceptions (λ q a. a) q
apply_line-exceptions _ _ engine report q = keep-Step (λ q. ⊥) engine.exceptions (λ q a. a) q

apply_line-total :
    (target : RuleTarget) (p : ParsedLine) (engine : BlocklistEngine) (report : ParseReport)
    → (apply_line target p (engine, report)).1.total ≡ (report.total + 1) % 2 ^ 64
unfolding apply_line
apply_line-total RuleTarget.block ParsedLine.skip engine report = refl
apply_line-total RuleTarget.allow ParsedLine.skip engine report = refl
apply_line-total _ _ engine report = refl

module _ (lower : Text → Text) where
  -- The lines of all files of one kind, in order.
  unfoldable pub load_all :
      RuleTarget → List Text → BlocklistEngine × ParseReport → BlocklistEngine × ParseReport
  load_all target [] s = s
  load_all target (line ∷ lines) s =
      load_all target lines (apply_line target (parse_line lower line) s)

  -- Some line of the list adds the rule.
  abbrev pub Adds :
      (RuleTarget → ParsedLine → NormalizedRule → Type 0)
      → RuleTarget
      → List Text
      → NormalizedRule
      → Type 0
  Adds Add target lines q = (line : Text) × OneOf line lines × Add target (parse_line lower line) q

  pub load_all-Step :
      (Add : RuleTarget → ParsedLine → NormalizedRule → Type 0)
      (part : BlocklistEngine → List NormalizedRule)
      → ((target : RuleTarget) (p : ParsedLine) (engine : BlocklistEngine) (report : ParseReport)
          → Step (Add target p) (part engine) (part (apply_line target p (engine, report)).0))
      → (target : RuleTarget) (lines : List Text) (engine : BlocklistEngine) (report : ParseReport)
      → Step (Adds Add target lines) (part engine) (part (load_all target lines (engine, report)).0)
  unfolding load_all
  load_all-Step Add part step target [] engine report q =
      (λ h. inr h, λ h. elim h [ inl (l, m, a) ↦ absurd m | inr c ↦ c ])
  load_all-Step Add part step target (line ∷ lines) engine report q =
      let p = parse_line lower line in
      let (engine', report') = apply_line target p (engine, report) in
      let ih = load_all-Step Add part step target lines engine' report' q in
      let st = step target p engine report q in
      (
        λ h. elim (ih.0 h) [
          | inl (l, m, a) ↦ inl (l, inr m, a)
          | inr c ↦ elim (st.0 c) [ inl a ↦ inl (line, inl refl, a) | inr c' ↦ inr c' ]
        ],
        λ h. elim h [
          | inl (l, m, a) ↦ elim m [
            | inl e ↦ ih.1 (inr (st.1 (inl (subst (λ l'. Add target (parse_line lower l') q) e a))))
            | inr m' ↦ ih.1 (inl (l, m', a))
          ]
          | inr c ↦ ih.1 (inr (st.1 (inr c)))
        ],
      )

  pub load_all-total :
      (target : RuleTarget) (lines : List Text) (engine : BlocklistEngine) (report : ParseReport)
      → (load_all target lines (engine, report)).1.total % 2 ^ 64
        ≡ (report.total + length lines) % 2 ^ 64
  unfolding load_all
  load_all-total target [] engine report = omega arith
  load_all-total target (line ∷ lines) engine report =
      let p = parse_line lower line in
      let (engine', report') = apply_line target p (engine, report) in
      omega (
        arith,
        load_all-total target lines engine' report',
        apply_line-total target p engine report,
      )

  pub load_all-append :
      (target : RuleTarget) (xs ys : List Text) (s : BlocklistEngine × ParseReport)
      → load_all target (xs ++ ys) s ≡ load_all target ys (load_all target xs s)
  unfolding load_all
  load_all-append target [] ys s = refl
  load_all-append target (x ∷ xs) ys s = load_all-append target xs ys _
