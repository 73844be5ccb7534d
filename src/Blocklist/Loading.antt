-- ===== src/Blocklist/Loading.antt =====
-- src/blocklist.rs: `BlocklistEngine::from_sources`, which reads the list files, and
-- `ReloadableBlocklist`, whose engine a reload replaces.
--
-- `read` is what opening a path and reading its lines gives: an error of `File::open`, or the lines
-- up to the end or with the error of the line that could not be read. A counter is a `u64`.
pub mod Contents
pub mod Reading
pub mod Reload
use dotdns.Prelude.{
  ℕ, zero, suc, ◌+◌, ◌%◌, ◌^◌, List, [], ◌∷◌, ◌++◌, map, length, Result, ok, err, ◌>>=◌, map_err,
}
use dotdns.Text.{Text, codes, padded, join_path}
use dotdns.Blocklist.{
  NormalizedRule, RuleTarget, ParsedLine, ParseReport, BlocklistEngine, BlocklistError, io, insert,
  parse_line, BlockDecision, decide,
}

pub insert_rule : RuleTarget → NormalizedRule → BlocklistEngine → BlocklistEngine
insert_rule RuleTarget.block rule engine = record engine { blocks = insert rule engine.blocks }
insert_rule RuleTarget.allow rule engine = record engine {
  exceptions = insert rule engine.exceptions;
}

count_line : ParseReport → ParseReport
count_line report = record report { total = (report.total + 1) % 2 ^ 64 }

-- The `match` of `load_paths` on a parsed line.
pub apply_line :
    RuleTarget → ParsedLine → BlocklistEngine × ParseReport → BlocklistEngine × ParseReport
unfolding insert_rule count_line
apply_line target ParsedLine.skip (engine, report) = (engine, count_line report)
apply_line target (ParsedLine.block rule) (engine, report) =
    (insert_rule target rule engine, count_line report)
apply_line target (ParsedLine.exception rule) (engine, report) =
    (record engine { exceptions = insert rule engine.exceptions }, count_line report)
apply_line target ParsedLine.unsupported (engine, report) =
    (engine, count_line (record report { unsupported = (report.unsupported + 1) % 2 ^ 64 }))

abbrev pub empty_engine : BlocklistEngine
empty_engine = record { blocks = []; exceptions = [] }

abbrev pub empty_report : ParseReport
empty_report = record { total = 0; unsupported = 0 }

module _ (lower : Text → Text) {IoError HttpError : Type 0} where
  -- The lines of one file.
  load_lines :
      Text
      → RuleTarget
      → List (Result IoError Text)
      → BlocklistEngine × ParseReport
      → Result (BlocklistError IoError HttpError) (BlocklistEngine × ParseReport)
  load_lines path target [] s = ok s
  load_lines path target (err e ∷ lines) s = err (io path e)
  load_lines path target (ok line ∷ lines) s =
      load_lines path target lines (apply_line target (parse_line lower line) s)

  module _ (read : Text → Result IoError (List (Result IoError Text))) where
    load_paths :
        List Text
        → RuleTarget
        → BlocklistEngine × ParseReport
        → Result (BlocklistError IoError HttpError) (BlocklistEngine × ParseReport)
    load_paths [] target s = ok s
    load_paths (path ∷ paths) target s = do
      lines ← map_err (io path) (read path)
      s' ← load_lines path target lines s
      load_paths paths target s'

    unfoldable pub from_sources :
        List Text
        → List Text
        → Result (BlocklistError IoError HttpError) (BlocklistEngine × ParseReport)
    unfolding load_paths load_lines apply_line
    from_sources block_paths allow_paths = do
      s ← load_paths block_paths RuleTarget.block (empty_engine, empty_report)
      load_paths allow_paths RuleTarget.allow s

pub record RemoteBlocklists : Type 0 where
  pub urls : List Text
  pub download_dir : Text
  pub timeout : ℕ
  pub file_prefix : Text

unfoldable pub path_for : RemoteBlocklists → ℕ → Text
path_for r idx =
    join_path r.download_dir (r.file_prefix ++ (codes "-" ++ (padded 4 idx ++ codes ".txt")))

paths_from : RemoteBlocklists → ℕ → List Text → List Text
paths_from r idx [] = []
paths_from r idx (url ∷ urls) = path_for r idx ∷ paths_from r (idx + 1) urls

pub remote_paths : RemoteBlocklists → List Text
unfolding paths_from path_for
remote_paths r = paths_from r 0 r.urls

-- The locks are not modelled: `reload` replaces the engine in one assignment under the write lock.
pub record ReloadableBlocklist : Type 0 where
  pub engine : BlocklistEngine
  pub paths : List Text
  pub allowlist_paths : List Text
  pub remote : RemoteBlocklists
  pub allowlist_remote : RemoteBlocklists

pub all_block_paths : ReloadableBlocklist → List Text
all_block_paths b = b.paths ++ remote_paths b.remote

pub all_allow_paths : ReloadableBlocklist → List Text
all_allow_paths b = b.allowlist_paths ++ remote_paths b.allowlist_remote

module _ (lower : Text → Text) {IoError HttpError : Type 0} where
  -- `reload`: an error leaves by `?` before the engine is assigned.
  unfoldable pub reload :
      (read : Text → Result IoError (List (Result IoError Text)))
      → ReloadableBlocklist
      → ReloadableBlocklist × Result (BlocklistError IoError HttpError) ParseReport
  unfolding all_block_paths all_allow_paths remote_paths
  reload read b =
      elim (from_sources lower {HttpError = HttpError} read (all_block_paths b)
        (all_allow_paths b)) [
          | ok (new_engine, report) ↦ (record b { engine = new_engine }, ok report)
          | err e ↦ (b, err e)
        ]

unfoldable pub decide_reloadable : (Text → Text) → ReloadableBlocklist → Text → BlockDecision
decide_reloadable lower b d = decide lower b.engine d
