-- ===== src/Blocklist/Parsing.antt =====
-- src/blocklist.rs, `parse_line`: what a parsed rule looks like.
use dotdns.Prelude.{
  ℕ, ◌==◌, OneOf, All, arith, refl, ◌≡◌, ◌≢◌, inl, inr, Bool, true, false, ◌||◌, List, [], ◌∷◌,
  Option, none, some, Bool-cases, if◌then◌else◌, if_both,
}
use dotdns.Text.{
  Text, codes, is_empty, starts_with, is_whitespace, no_whitespace, contains_text, contains_char,
  trim, before_char, drop_two, split_whitespace,
}
use dotdns.Blocklist.{
  NormalizedRule, domain, ParsedLine, looks_like_domain, looks_like_ip, target_of, normalize_domain,
  checked, hosts_rule, try_parse_hosts, or_unsupported, parse_rule, parse_line,
}

-- What a domain of a rule looks like, character by character.
pub record IsDomainLike (d : Text) : Type 0 where
  pub dotted : OneOf b'.' d
  pub unbroken : All (λ c. is_whitespace c ≡ false) d
  pub no_path : (s : Text) → d ≢ b'/' ∷ s
  pub no_star : ¬ OneOf b'*' d

-- No rule, or one whose domain looks like a domain.
abbrev pub IsRule : ParsedLine → Type 0
IsRule ParsedLine.skip = Unit
IsRule ParsedLine.unsupported = Unit
IsRule (ParsedLine.block (domain d)) = IsDomainLike d
IsRule (ParsedLine.exception (domain d)) = IsDomainLike d

contains_char-OneOf : (s : Text) (d : ℕ) → contains_char s d ≡ true → OneOf d s
unfolding contains_char
contains_char-OneOf [] d h = cc
contains_char-OneOf (c ∷ s) d h = elim (Bool-cases (c == d)) [
  | inl e ↦ inl (ground arith)
  | inr e ↦ inr (contains_char-OneOf s d (rw e at h))
]

OneOf-contains_char : (s : Text) (d : ℕ) → OneOf d s → contains_char s d ≡ true
unfolding contains_char
OneOf-contains_char [] d h = elim h [ ]
OneOf-contains_char (c ∷ s) d (inl e) = ground arith
OneOf-contains_char (c ∷ s) d (inr h) = ground (arith, OneOf-contains_char s d h)

no_whitespace-All : (s : Text) → no_whitespace s ≡ true → All (λ c. is_whitespace c ≡ false) s
unfolding no_whitespace
no_whitespace-All [] h = tt
no_whitespace-All (c ∷ s) h = (ground arith, no_whitespace-All s (ground arith))

starts_with_slash : (s : Text) → starts_with (b'/' ∷ s) (codes "/") ≡ true
unfolding starts_with
starts_with_slash s = refl

looks_like_domain-IsDomainLike : (d : Text) → looks_like_domain d ≡ true → IsDomainLike d
unfolding looks_like_domain
looks_like_domain-IsDomainLike d h =
    let slash : starts_with d (codes "/") ≡ false = ground arith in
    let star : contains_char d b'*' ≡ false = ground arith in
    record {
      dotted = contains_char-OneOf d b'.' (ground arith);
      unbroken = no_whitespace-All d (ground arith);
      no_path = λ s e. let k = rw e at slash in let k' = starts_with_slash s in cc;
      no_star = λ h'. let k = OneOf-contains_char d b'*' h' in cc;
    }

abbrev IsChecked : Option NormalizedRule → Type 0
IsChecked none = Unit
IsChecked (some (domain d)) = IsDomainLike d

checked-IsChecked : (d : Text) → IsChecked (checked d)
unfolding checked is_empty
checked-IsChecked [] = tt
checked-IsChecked (c ∷ s) = elim (Bool-cases (looks_like_domain (c ∷ s))) [
  | inl e ↦ rw e (looks_like_domain-IsDomainLike (c ∷ s) e)
  | inr e ↦ rw e tt
]

or_unsupported-IsRule :
    (b : Bool) (o : Option NormalizedRule) → IsChecked o → IsRule (or_unsupported b o)
unfolding or_unsupported
or_unsupported-IsRule b none h = tt
or_unsupported-IsRule true (some (domain d)) h = h
or_unsupported-IsRule false (some (domain d)) h = h

ladder-IsRule :
    (a b c d e : Bool) (x y : ParsedLine)
    → IsRule x
    → IsRule y
    → IsRule (
        if a
        then ParsedLine.skip
        else if b
        then ParsedLine.skip
        else if c
        then ParsedLine.unsupported
        else if d
        then ParsedLine.skip
        else if e
        then x
        else y)
ladder-IsRule true b c d e x y hx hy = tt
ladder-IsRule false true c d e x y hx hy = tt
ladder-IsRule false false true d e x y hx hy = tt
ladder-IsRule false false false true e x y hx hy = tt
ladder-IsRule false false false false e x y hx hy = if_both IsRule e hx hy

module _ (lower : Text → Text) where
  hosts_rule-IsChecked : (ws : List Text) → IsChecked (hosts_rule lower ws)
  unfolding hosts_rule
  hosts_rule-IsChecked [] = tt
  hosts_rule-IsChecked (first ∷ []) = tt
  hosts_rule-IsChecked (first ∷ second ∷ rest) =
      if_both IsChecked (looks_like_ip first) (checked-IsChecked (normalize_domain lower second)) tt

  unanchored-IsRule :
      (b : Bool) (o : Option NormalizedRule) (d : Text)
      → IsChecked o
      → IsRule (elim o [ some rule ↦ target_of b rule | none ↦ or_unsupported b (checked d) ])
  unfolding or_unsupported
  unanchored-IsRule b none d h = or_unsupported-IsRule b (checked d) (checked-IsChecked d)
  unanchored-IsRule b (some r) d h = or_unsupported-IsRule b (some r) h

  parse_rule-IsRule : (b : Bool) (rest : Text) → IsRule (parse_rule lower b rest)
  unfolding parse_rule or_unsupported checked try_parse_hosts
  parse_rule-IsRule b rest =
      if_both IsRule (starts_with rest (codes "||"))
        (or_unsupported-IsRule b (checked (normalize_domain lower _)) (checked-IsChecked _))
        (unanchored-IsRule b (try_parse_hosts lower rest) (normalize_domain lower rest)
          (hosts_rule-IsChecked (split_whitespace rest)))

  -- A line of a list file, whatever it holds, gives no rule or one whose domain has a dot and no white
  -- space, does not begin with `/` and has no `*`.
  pub parse_line-IsRule : (line : Text) → IsRule (parse_line lower line)
  unfolding parse_line
  parse_line-IsRule line =
      let t = trim line in
      let w = trim (before_char t b'#') in
      ladder-IsRule (is_empty t) (starts_with t (codes "#") || starts_with t (codes "!"))
        (contains_char t b'$'
          || contains_text t (codes "##")
          || contains_text t (codes "#@#")
          || contains_text t (codes "#?#"))
        (is_empty w) (starts_with w (codes "@@")) (parse_rule lower true (drop_two w))
        (parse_rule lower false w) (parse_rule-IsRule true (drop_two w)) (parse_rule-IsRule false w)
