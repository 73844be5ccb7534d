-- ===== src/Tests/Lists.antt =====
-- Rules of src/blocklist.rs at work.
use dotdns.Prelude.{
  ℕ, ◌≡◌, refl, ◌↔◌, List, [], ◌∷◌, ◌++◌, Result, ok, err, OneOf, if◌then◌else◌, map, leb, ◌&&◌,
  ◌+◌,
}
use dotdns.Text.{
  Text, codes, eq_text, is_empty, is_whitespace, starts_with, contains_text, contains_char,
  trim_start, trim_end, trim, before_char, ends_with_char, drop_last, drop_two, no_whitespace,
  split_whitespace,
}
use dotdns.Blocklist.{
  BlockDecision, domain, BlocklistEngine, ParsedLine, looks_like_domain, looks_like_ip,
  domain_suffixes, insert, contains, normalize_domain, decide, parse_line, parse_rule,
  try_parse_hosts,
}
use dotdns.Blocklist.Suffixes.{IsLabelSuffix, domain_suffixes_iff}
use dotdns.Blocklist.Matching.{Covers, decide_iff}
use dotdns.Blocklist.Parsing.{IsRule, parse_line-IsRule}
use dotdns.Blocklist.Written.{IsPlain, parse_line-written}
use dotdns.Blocklist.Loading.{
  ReloadableBlocklist, RemoteBlocklists, empty_engine, from_sources, reload, decide_reloadable,
  all_block_paths, all_allow_paths,
}
use dotdns.Blocklist.Loading.Contents.{AddsBlock, AddsException}
use dotdns.Blocklist.Loading.Reading.{Outcome, read_all, from_sources-Outcome}
use dotdns.Blocklist.Loading.Reload.{ListsCover, decide-reload}

-- `to_lowercase` on ASCII.
abbrev lower_char : ℕ → ℕ
lower_char c = if leb 65 c && leb c 90 then c + 32 else c

abbrev lower : Text → Text
lower s = map lower_char s

abbrev lists : BlocklistEngine
lists = record {
  blocks = domain (codes "example.com") ∷ [];
  exceptions = domain (codes "good.example.com") ∷ [];
}

-- The files: `ads` blocks, `ok` allows, and no other path opens.
abbrev read : Text → Result ℕ (List (Result ℕ Text))
read path =
    if eq_text path (codes "ads")
    then ok (ok (codes "||example.com^") ∷ ok (codes "# note") ∷ [])
    else if eq_text path (codes "ok")
    then ok (ok (codes "good.example.com") ∷ [])
    else err 2

abbrev nothing_remote : RemoteBlocklists
nothing_remote = record {
  urls = [];
  download_dir = codes "/var/lib";
  timeout = 30;
  file_prefix = codes "block";
}

abbrev before : ReloadableBlocklist
before = record {
  engine = empty_engine;
  paths = codes "ads" ∷ [];
  allowlist_paths = codes "ok" ∷ [];
  remote = nothing_remote;
  allowlist_remote = nothing_remote;
}

domain_suffixes_iff_example :
    OneOf (codes "b.c") (domain_suffixes (codes "a.b.c"))
    ↔ IsLabelSuffix (codes "b.c") (codes "a.b.c")
domain_suffixes_iff_example = domain_suffixes_iff (codes "b.c") (codes "a.b.c")

decide_iff_example :
    ((decide lower lists (codes "X.Example.com") ≡ BlockDecision.exception)
      ↔ Covers lists.exceptions (normalize_domain lower (codes "X.Example.com")))
    × ((decide lower lists (codes "X.Example.com") ≡ BlockDecision.block) ↔ (
        (¬ Covers lists.exceptions (normalize_domain lower (codes "X.Example.com")))
        × Covers lists.blocks (normalize_domain lower (codes "X.Example.com"))))
    × ((decide lower lists (codes "X.Example.com") ≡ BlockDecision.allow) ↔ (
        (¬ Covers lists.exceptions (normalize_domain lower (codes "X.Example.com")))
        × (¬ Covers lists.blocks (normalize_domain lower (codes "X.Example.com")))))
decide_iff_example = decide_iff lower lists (codes "X.Example.com")

parse_line-IsRule_example : IsRule (parse_line lower (codes "||example.com^"))
parse_line-IsRule_example = parse_line-IsRule lower (codes "||example.com^")

example_com-IsPlain : IsPlain lower (codes "example.com")
unfolding looks_like_domain is_empty starts_with contains_char is_whitespace no_whitespace
example_com-IsPlain = record {
  looks = refl;
  lowercase = refl;
  no_hash = refl;
  no_dollar = refl;
  no_bang = refl;
  no_at = refl;
  no_bar = refl;
}

parse_line-written_example :
    (parse_line lower (codes "example.com") ≡ ParsedLine.block (domain (codes "example.com")))
    × (parse_line lower (codes "||" ++ (codes "example.com" ++ codes "^"))
        ≡ ParsedLine.block (domain (codes "example.com")))
    × (parse_line lower (codes "@@" ++ codes "example.com")
        ≡ ParsedLine.exception (domain (codes "example.com")))
    × (parse_line lower (codes "@@||" ++ (codes "example.com" ++ codes "^"))
        ≡ ParsedLine.exception (domain (codes "example.com")))
parse_line-written_example = parse_line-written lower (codes "example.com") example_com-IsPlain

from_sources-Outcome_example :
    Outcome ℕ ℕ lower read
      (codes "ads" ∷ [])
      (codes "ok" ∷ [])
      (from_sources lower read (codes "ads" ∷ []) (codes "ok" ∷ []))
from_sources-Outcome_example =
    from_sources-Outcome ℕ ℕ lower read (codes "ads" ∷ []) (codes "ok" ∷ [])

abbrev after : ReloadableBlocklist
after = record before {
  engine = record {
    blocks = domain (codes "example.com") ∷ [];
    exceptions = domain (codes "good.example.com") ∷ [];
  };
}

reload_run :
    reload lower {HttpError = ℕ} read before ≡ (after, ok (record { total = 3; unsupported = 0 }))
unfolding reload from_sources parse_line parse_rule try_parse_hosts normalize_domain
    looks_like_domain looks_like_ip eq_text is_empty starts_with contains_text contains_char
    is_whitespace trim_start trim_end trim before_char ends_with_char drop_last drop_two
    split_whitespace no_whitespace insert contains
reload_run = refl

decide-reload_example :
    (bl : List Text) × (al : List Text) × (read_all ℕ ℕ read (all_block_paths before) ≡ ok bl)
    × (read_all ℕ ℕ read (all_allow_paths before) ≡ ok al)
    × ((decide_reloadable lower after (codes "a.example.com") ≡ BlockDecision.exception)
        ↔ ListsCover lower ℕ ℕ read AddsException bl al
            (normalize_domain lower (codes "a.example.com")))
    × ((decide_reloadable lower after (codes "a.example.com") ≡ BlockDecision.block) ↔ (
        (¬ ListsCover lower ℕ ℕ read AddsException bl al
          (normalize_domain lower (codes "a.example.com")))
        × ListsCover lower ℕ ℕ read AddsBlock bl al
            (normalize_domain lower (codes "a.example.com"))))
decide-reload_example =
    decide-reload lower ℕ ℕ read before after (record { total = 3; unsupported = 0 })
      (codes "a.example.com") reload_run
