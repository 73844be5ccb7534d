-- ===== src/Blocklist.antt =====
-- src/blocklist.rs: the rules, the parser of one line, the matching of a domain, the loading of
-- the list files and the reload.
--
-- `lower` is `str::to_lowercase`, whose Unicode tables are the standard library's data.
pub mod Suffixes
pub mod Matching
pub mod Parsing
pub mod Written
pub mod Loading
pub mod Refresh
use dotdns.Prelude.{
  ℕ, zero, suc, ◌+◌, ◌%◌, ◌^◌, Bool, true, false, not, ◌&&◌, ◌||◌, List, [], ◌∷◌, ◌++◌, Option,
  none, some, length, leb, ◌==◌, if◌then◌else◌, Result, ok, err, ◌>>=◌, map_err,
}
use dotdns.Text.{
  Text, codes, eq_text, is_empty, starts_with, contains_text, contains_char, trim, before_char,
  ends_with_char, drop_last, drop_two, no_whitespace, split_whitespace,
}

pub data BlockDecision : Type 0 where
  allow block exception : BlockDecision

unfoldable pub is_blocked : BlockDecision → Bool
is_blocked block = true
is_blocked _ = false

pub data NormalizedRule : Type 0 where
  domain : Text → NormalizedRule

pub data RuleTarget : Type 0 where
  block allow : RuleTarget

eq_rule : NormalizedRule → NormalizedRule → Bool
eq_rule (domain d) (domain e) = eq_text d e

-- `HashSet::contains` and `HashSet::insert`: a set is a list without repetitions, in any order.
unfoldable pub contains : List NormalizedRule → NormalizedRule → Bool
unfolding eq_rule
contains [] r = false
contains (q ∷ qs) r = eq_rule q r || contains qs r

unfoldable pub insert : NormalizedRule → List NormalizedRule → List NormalizedRule
insert r rules = if contains rules r then rules else r ∷ rules

pub record BlocklistEngine : Type 0 where
  pub blocks : List NormalizedRule
  pub exceptions : List NormalizedRule

-- What `domain[start..]` becomes when `start` moves behind the next dot, or to the end.
after_dot : Text → Text
after_dot [] = []
after_dot (c ∷ s) = if c == b'.' then s else after_dot s

-- The iterator of `domain_suffixes`, whose state is `domain[start..]`; it is empty when `start`
-- has reached the end.
suffixes_from : ℕ → Text → List Text
suffixes_from zero rest = []
suffixes_from (suc fuel) [] = []
suffixes_from (suc fuel) (c ∷ s) = (c ∷ s) ∷ suffixes_from fuel (after_dot (c ∷ s))

-- Each step drops a character at least, so the length is fuel enough.
unfoldable pub domain_suffixes : Text → List Text
unfolding suffixes_from after_dot
domain_suffixes d = suffixes_from (length d) d

any_contains : List NormalizedRule → List Text → Bool
any_contains rules [] = false
any_contains rules (s ∷ ss) =
    let rest = any_contains rules ss in if contains rules (domain s) then true else rest

unfoldable pub rule_matches : List NormalizedRule → Text → Bool
unfolding any_contains
rule_matches rules normalized = any_contains rules (domain_suffixes normalized)

pub data ParsedLine : Type 0 where
  skip : ParsedLine
  block : NormalizedRule → ParsedLine
  exception : NormalizedRule → ParsedLine
  unsupported : ParsedLine

pub record ParseReport : Type 0 where
  pub total : ℕ
  pub unsupported : ℕ

unfoldable pub looks_like_ip : Text → Bool
looks_like_ip [] = false
looks_like_ip (c ∷ s) = (leb b'0' c && leb c b'9') || c == b':'

unfoldable pub looks_like_domain : Text → Bool
looks_like_domain d =
    contains_char d b'.'
    && no_whitespace d
    && not (starts_with d (codes "/"))
    && not (contains_char d b'*')

-- The rule of a line, under `@@` or not.
target_of : Bool → NormalizedRule → ParsedLine
target_of true r = exception r
target_of false r = block r

-- `domain.is_empty() || !looks_like_domain(&domain)` refuses.
checked : Text → Option NormalizedRule
checked d = if is_empty d || not (looks_like_domain d) then none else some (domain d)

or_unsupported : Bool → Option NormalizedRule → ParsedLine
unfolding target_of
or_unsupported is_exception none = unsupported
or_unsupported is_exception (some r) = target_of is_exception r

-- `IoError` stands for `io::Error` and `HttpError` for `reqwest::Error`.
pub data BlocklistError (IoError HttpError : Type 0) : Type 0 where
  io : Text → IoError → BlocklistError IoError HttpError
  http_client : HttpError → BlocklistError IoError HttpError
  download : Text → HttpError → BlocklistError IoError HttpError

module _ (lower : Text → Text) where
  unfoldable pub normalize_domain : Text → Text
  normalize_domain d = lower (trim d)

  unfoldable pub decide : BlocklistEngine → Text → BlockDecision
  decide engine d =
      let normalized = normalize_domain d in
      if rule_matches engine.exceptions normalized
      then exception
      else if rule_matches engine.blocks normalized
      then block
      else allow

  hosts_rule : List Text → Option NormalizedRule
  unfolding checked
  hosts_rule [] = none
  hosts_rule (first ∷ []) = none
  hosts_rule (first ∷ second ∷ rest) =
      if looks_like_ip first then checked (normalize_domain second) else none

  unfoldable pub try_parse_hosts : Text → Option NormalizedRule
  unfolding hosts_rule
  try_parse_hosts rest = hosts_rule (split_whitespace rest)

  -- What follows the optional `@@`.
  unfoldable pub parse_rule : Bool → Text → ParsedLine
  unfolding or_unsupported checked
  parse_rule is_exception rest =
      let body = drop_two rest in
      let anchored = if ends_with_char body b'^' then drop_last body else body in
      let unanchored : ParsedLine = elim (try_parse_hosts rest) [
        | some rule ↦ target_of is_exception rule
        | none ↦ or_unsupported is_exception (checked (normalize_domain rest))
      ] in
      if starts_with rest (codes "||")
      then or_unsupported is_exception (checked (normalize_domain anchored))
      else unanchored

  unfoldable pub parse_line : Text → ParsedLine
  parse_line line =
      let trimmed = trim line in
      let without_comment = trim (before_char trimmed b'#') in
      if is_empty trimmed
      then skip
      else if starts_with trimmed (codes "#") || starts_with trimmed (codes "!")
      then skip
      else if contains_char trimmed b'$'
          || contains_text trimmed (codes "##")
          || contains_text trimmed (codes "#@#")
          || contains_text trimmed (codes "#?#")
      then unsupported
      else if is_empty without_comment
      then skip
      else if starts_with without_comment (codes "@@")
      then parse_rule true (drop_two without_comment)
      else parse_rule false without_comment
