-- ===== src/Blocklist/Loading/Reload.antt =====
-- src/blocklist.rs, `ReloadableBlocklist::reload` and `decide`: what a reload does to later answers.
use dotdns.Prelude.{◌≡◌, refl, ◌↔◌, ◌⊎◌, List, Result, ok, err}
use mathlib.Core.Path.{subst}
use dotdns.Text.{Text}
use dotdns.Blocklist.{
  BlockDecision, NormalizedRule, domain, RuleTarget, ParsedLine, ParseReport, BlocklistError,
  BlocklistEngine, normalize_domain,
}
use dotdns.Blocklist.Suffixes.{IsLabelSuffix}
use dotdns.Blocklist.Matching.{Covers, decide_iff}
use dotdns.Blocklist.Loading.{
  ReloadableBlocklist, all_block_paths, all_allow_paths, from_sources, reload, decide_reloadable,
}
use dotdns.Blocklist.Loading.Contents.{AddsBlock, AddsException, Adds}
use dotdns.Blocklist.Loading.Reading.{read_all, Outcome, from_sources-Outcome}

module _ (lower : Text → Text) (IoError HttpError : Type 0)
    (read : Text → Result IoError (List (Result IoError Text))) where
  abbrev pub Report : Type 0
  Report = Result (BlocklistError IoError HttpError) ParseReport

  -- The state after a reload, by its result.
  abbrev pub Reloaded : ReloadableBlocklist → ReloadableBlocklist → Report → Type 0
  Reloaded b b' (err e) =
      (b' ≡ b) × (from_sources lower read (all_block_paths b) (all_allow_paths b) ≡ err e)
  Reloaded b b' (ok report) =
      (b' ≡ record b { engine = b'.engine })
      × (from_sources lower {HttpError = HttpError} read (all_block_paths b) (all_allow_paths b)
          ≡ ok (b'.engine, report))

  -- A reload that fails changes nothing, and it fails exactly as loading the files does; after one
  -- that succeeds the engine is what the files hold now, and nothing else has changed.
  pub reload-Reloaded :
      (b : ReloadableBlocklist)
      → Reloaded b (reload lower {HttpError = HttpError} read b).0 (reload lower read b).1
  unfolding reload
  reload-Reloaded b = go (from_sources lower read (all_block_paths b) (all_allow_paths b)) refl
    where
      go :
          (m : Result (BlocklistError IoError HttpError) (BlocklistEngine × ParseReport))
          → from_sources lower read (all_block_paths b) (all_allow_paths b) ≡ m
          → let r : ReloadableBlocklist × Report = elim m [
            | ok (new_engine, report) ↦ (record b { engine = new_engine }, ok report)
            | err e ↦ (b, err e)
          ] in
            Reloaded b r.0 r.1
      go (ok (engine, report)) h = (refl, h)
      go (err e) h = (refl, h)

  -- A rule that some line of the lists gives covers the domain.
  abbrev pub ListsCover :
      (RuleTarget → ParsedLine → NormalizedRule → Type 0) → List Text → List Text → Text → Type 0
  ListsCover Add bl al d =
      (s : Text) × (Adds lower Add RuleTarget.block bl (domain s)
        ⊎ Adds lower Add RuleTarget.allow al (domain s))
      × IsLabelSuffix s d

  loaded_engine :
      (b b' : ReloadableBlocklist) (report : ParseReport)
      → reload lower {HttpError = HttpError} read b ≡ (b', ok report)
      → Outcome IoError HttpError lower read
          (all_block_paths b)
          (all_allow_paths b)
          (ok (b'.engine, report))
  loaded_engine b b' report h =
      let r : Reloaded b b' (ok report) =
        subst (λ out. Reloaded b out.0 out.1) h (reload-Reloaded b) in
      subst (Outcome IoError HttpError lower read (all_block_paths b) (all_allow_paths b)) r.1
        (from_sources-Outcome IoError HttpError lower read (all_block_paths b) (all_allow_paths b))

  -- After a successful reload the answers are those of the files: with `bl` and `al` the lines of
  -- the block and allow lists, a domain is an exception exactly when an exception rule of those
  -- lines covers it, and blocked exactly when none does and a block rule covers it.
  pub decide-reload :
      (b b' : ReloadableBlocklist) (report : ParseReport) (d : Text)
      → reload lower {HttpError = HttpError} read b ≡ (b', ok report)
      → (bl : List Text) × (al : List Text) × (read_all IoError HttpError read (all_block_paths b)
          ≡ ok bl)
        × (read_all IoError HttpError read (all_allow_paths b) ≡ ok al)
        × ((decide_reloadable lower b' d ≡ BlockDecision.exception)
            ↔ ListsCover AddsException bl al (normalize_domain lower d))
        × ((decide_reloadable lower b' d ≡ BlockDecision.block) ↔ (
            (¬ ListsCover AddsException bl al (normalize_domain lower d))
            × ListsCover AddsBlock bl al (normalize_domain lower d)))
  unfolding decide_reloadable
  decide-reload b b' report d h =
      let (bl, al, rb, ra, blocks, exceptions, _) = loaded_engine b b' report h in
      let n = normalize_domain lower d in
      let (de, db, _) = decide_iff lower b'.engine d in
      let e_to : Covers b'.engine.exceptions n → ListsCover AddsException bl al n =
        λ c. (c.0, (exceptions (domain c.0)).0 c.1, c.2) in
      let e_from : ListsCover AddsException bl al n → Covers b'.engine.exceptions n =
        λ c. (c.0, (exceptions (domain c.0)).1 c.1, c.2) in
      let b_to : Covers b'.engine.blocks n → ListsCover AddsBlock bl al n =
        λ c. (c.0, (blocks (domain c.0)).0 c.1, c.2) in
      let b_from : ListsCover AddsBlock bl al n → Covers b'.engine.blocks n =
        λ c. (c.0, (blocks (domain c.0)).1 c.1, c.2) in
      (
        bl,
        al,
        rb,
        ra,
        (λ x. e_to (de.0 x), λ c. de.1 (e_from c)),
        (
          λ x. (λ c. (db.0 x).0 (e_from c), b_to (db.0 x).1),
          λ c. db.1 (λ e. c.0 (e_to e), b_from c.1),
        ),
      )
