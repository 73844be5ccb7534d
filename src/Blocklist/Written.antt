-- ===== src/Blocklist/Written.antt =====
-- src/blocklist.rs, `parse_line`: how the written forms of a rule are read.
use dotdns.Prelude.{
  ◌==◌, ◌∙◌, ℕ, ◌≡◌, refl, Bool, true, false, [], ◌∷◌, ◌++◌, none, some, arith, if◌then◌else◌,
}
use dotdns.Text.{
  is_whitespace, Text, codes, is_empty, starts_with, contains_char, drop_two, no_whitespace,
  split_whitespace,
}
use dotdns.Text.Laws.{
  trim_lem, before_char_lem, split_whitespace_lem, contains_char-append, no_whitespace-append,
  ends_with_char-append, drop_last-append, contains_text_absent, starts_with_absent,
}
use dotdns.Blocklist.{
  domain, ParsedLine, looks_like_domain, target_of, normalize_domain, checked, try_parse_hosts,
  or_unsupported, parse_rule, parse_line,
}

-- A domain as list authors write it: it looks like one, is in lower case, and holds or begins with
-- none of the signs that `parse_line` gives a meaning to.
pub record IsPlain (lower : Text → Text) (d : Text) : Type 0 where
  pub looks : looks_like_domain d ≡ true
  pub lowercase : lower d ≡ d
  pub no_hash : contains_char d b'#' ≡ false
  pub no_dollar : contains_char d b'$' ≡ false
  pub no_bang : starts_with d (codes "!") ≡ false
  pub no_at : starts_with d (codes "@@") ≡ false
  pub no_bar : starts_with d (codes "||") ≡ false

-- A line without white space or `#` reaches `parse_rule` whole.
parse_line-word :
    (lower : Text → Text) (s : Text)
    → is_empty s ≡ false
    → no_whitespace s ≡ true
    → contains_char s b'#' ≡ false
    → contains_char s b'$' ≡ false
    → starts_with s (codes "!") ≡ false
    → parse_line lower s ≡ (
        if starts_with s (codes "@@")
        then parse_rule lower true (drop_two s)
        else parse_rule lower false s)
unfolding parse_line
parse_line-word lower s e w h d b = simp (
  trim_lem s w,
  before_char_lem s b'#' h,
  e,
  d,
  b,
  starts_with_absent s b'#' [] h,
  contains_text_absent s b'#' (codes "#") h,
  contains_text_absent s b'#' (codes "@#") h,
  contains_text_absent s b'#' (codes "?#") h,
)

looks-no_whitespace : (d : Text) → looks_like_domain d ≡ true → no_whitespace d ≡ true
unfolding looks_like_domain
looks-no_whitespace d h = ground arith

not-looks-nil : looks_like_domain [] ≡ true → ⊥
unfolding looks_like_domain contains_char
not-looks-nil h = cc

looks-is_empty : (d : Text) → looks_like_domain d ≡ true → is_empty d ≡ false
unfolding is_empty
looks-is_empty [] h = absurd (not-looks-nil h)
looks-is_empty (c ∷ s) h = refl

looks-checked : (d : Text) → looks_like_domain d ≡ true → checked d ≡ some (domain d)
unfolding checked is_empty
looks-checked [] h = absurd (not-looks-nil h)
looks-checked (c ∷ s) h = rw h

try_parse_hosts-word :
    (lower : Text → Text) (d : Text) → no_whitespace d ≡ true → try_parse_hosts lower d ≡ none
unfolding try_parse_hosts split_whitespace
try_parse_hosts-word lower [] h = refl
try_parse_hosts-word lower (c ∷ s) h = rw (split_whitespace_lem c s h)

module _ (lower : Text → Text) (d : Text) (plain : IsPlain lower d) where
  d-word : no_whitespace d ≡ true
  d-word = looks-no_whitespace d plain.looks

  normalize-plain : normalize_domain lower d ≡ d
  unfolding normalize_domain
  normalize-plain = rw (trim_lem d d-word) plain.lowercase

  parse_rule-plain : (b : Bool) → parse_rule lower b d ≡ target_of b (domain d)
  unfolding parse_rule or_unsupported
  parse_rule-plain b = simp (
    plain.no_bar,
    try_parse_hosts-word lower d d-word,
    normalize-plain,
    looks-checked d plain.looks,
  )

  parse_rule-anchored :
      (b : Bool) → parse_rule lower b (codes "||" ++ (d ++ codes "^")) ≡ target_of b (domain d)
  unfolding parse_rule or_unsupported drop_two starts_with
  parse_rule-anchored b = simp (
    ends_with_char-append d b'^',
    drop_last-append d b'^',
    normalize-plain,
    looks-checked d plain.looks,
  )

  caret-no_whitespace : no_whitespace (d ++ codes "^") ≡ true
  unfolding no_whitespace is_whitespace
  caret-no_whitespace = ground (arith, no_whitespace-append d (codes "^"), d-word)

  caret-absent :
      (c : ℕ)
      → contains_char d c ≡ false
      → (b'^' == c) ≡ false
      → contains_char (d ++ codes "^") c ≡ false
  unfolding contains_char
  caret-absent c h n = ground (arith, contains_char-append d (codes "^") c)

  read_plain : parse_line lower d ≡ ParsedLine.block (domain d)
  unfolding target_of
  read_plain =
      parse_line-word lower d (looks-is_empty d plain.looks) d-word plain.no_hash plain.no_dollar
        plain.no_bang
      ∙ rw plain.no_at (parse_rule-plain false)

  read_anchored : parse_line lower (codes "||" ++ (d ++ codes "^")) ≡ ParsedLine.block (domain d)
  unfolding target_of is_empty no_whitespace is_whitespace contains_char starts_with
  read_anchored =
      parse_line-word lower (codes "||" ++ (d ++ codes "^")) refl caret-no_whitespace
        (caret-absent b'#' plain.no_hash refl) (caret-absent b'$' plain.no_dollar refl) refl
      ∙ parse_rule-anchored false

  read_excepted : parse_line lower (codes "@@" ++ d) ≡ ParsedLine.exception (domain d)
  unfolding target_of is_empty no_whitespace is_whitespace contains_char starts_with drop_two
  read_excepted =
      parse_line-word lower (codes "@@" ++ d) refl d-word plain.no_hash plain.no_dollar refl
      ∙ parse_rule-plain true

  read_excepted_anchored :
      parse_line lower (codes "@@||" ++ (d ++ codes "^")) ≡ ParsedLine.exception (domain d)
  unfolding target_of is_empty no_whitespace is_whitespace contains_char starts_with drop_two
  read_excepted_anchored =
      parse_line-word lower (codes "@@||" ++ (d ++ codes "^")) refl caret-no_whitespace
        (caret-absent b'#' plain.no_hash refl) (caret-absent b'$' plain.no_dollar refl) refl
      ∙ parse_rule-anchored true

  -- The four ways of writing a rule for a domain `d` are read as that rule: `d` and `||d^` block it,
  -- `@@d` and `@@||d^` except it, where `d` is plain: it looks like a domain, is in lower case, has no
  -- `#` or `$`, and does not begin with `!`, `@@` or `||`.
  pub parse_line-written :
      (parse_line lower d ≡ ParsedLine.block (domain d))
      × (parse_line lower (codes "||" ++ (d ++ codes "^")) ≡ ParsedLine.block (domain d))
      × (parse_line lower (codes "@@" ++ d) ≡ ParsedLine.exception (domain d))
      × (parse_line lower (codes "@@||" ++ (d ++ codes "^")) ≡ ParsedLine.exception (domain d))
  parse_line-written = (read_plain, read_anchored, read_excepted, read_excepted_anchored)
