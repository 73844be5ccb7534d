-- ===== src/Blocklist/Loading/Reading.antt =====
-- src/blocklist.rs, `from_sources`: the loader reads every line of every file, or stops at the first
-- error; what the engine and the report then hold.
use dotdns.Prelude.{
  >>=-assoc, sym, ◌+◌, ◌%◌, ◌^◌, ◌≡◌, refl, ◌↔◌, ◌⊎◌, inl, inr, true, List, [], ◌∷◌, ◌++◌, length,
  Result, ok, err, ◌>>=◌, map_err, arith, ◌∙◌,
}
use mathlib.Core.Path.{fun_ext}
use dotdns.Text.{Text}
use dotdns.Blocklist.{
  NormalizedRule, RuleTarget, ParseReport, BlocklistEngine, BlocklistError, io, contains,
}
use dotdns.Blocklist.Loading.Contents.{
  AddsBlock, AddsException, Adds, load_all, load_all-append, load_all-total, load_all-Step,
  apply_line-blocks, apply_line-exceptions,
}
use dotdns.Blocklist.Loading.{empty_engine, empty_report, load_lines, load_paths, from_sources}

-- Two loads, from no rules.
two_steps :
    (q : NormalizedRule) (A B : Type 0) (middle after : List NormalizedRule)
    → (contains middle q ≡ true) ↔ (A ⊎ (contains [] q ≡ true))
    → (contains after q ≡ true) ↔ (B ⊎ (contains middle q ≡ true))
    → (contains after q ≡ true) ↔ (A ⊎ B)
unfolding contains
two_steps q A B middle after m a = (
  λ h. elim (a.0 h) [ inl b ↦ inr b | inr c ↦ elim (m.0 c) [ inl x ↦ inl x | inr z ↦ cc z ] ],
  λ h. elim h [ inl x ↦ a.1 (inr (m.1 (inl x))) | inr b ↦ a.1 (inl b) ],
)

module _ (IoError HttpError : Type 0) where
  read_lines :
      Text → List (Result IoError Text) → Result (BlocklistError IoError HttpError) (List Text)
  read_lines path [] = ok []
  read_lines path (err e ∷ lines) = err (io path e)
  read_lines path (ok line ∷ lines) = do rest ← read_lines path lines; ok (line ∷ rest)

  -- The text lines of all the files, or the first error in reading them.
  pub read_all :
      (Text → Result IoError (List (Result IoError Text)))
      → List Text
      → Result (BlocklistError IoError HttpError) (List Text)
  read_all read [] = ok []
  read_all read (path ∷ paths) = do
    lines ← map_err (io path) (read path)
    xs ← read_lines path lines
    ys ← read_all read paths
    ok (xs ++ ys)

  module _ (lower : Text → Text) where
    load_lines-read :
        (path : Text) (target : RuleTarget) (lines : List (Result IoError Text))
        (s : BlocklistEngine × ParseReport)
        → load_lines lower path target lines s
          ≡ (read_lines path lines >>= λ xs. ok (load_all lower target xs s))
    unfolding load_lines read_lines load_all
    load_lines-read path target [] s = refl
    load_lines-read path target (err e ∷ lines) s = refl
    load_lines-read path target (ok line ∷ lines) s =
        load_lines-read path target lines _ ∙ sym (>>=-assoc (read_lines path lines) _ _)

    module _ (read : Text → Result IoError (List (Result IoError Text))) where
      load_paths-read :
          (paths : List Text) (target : RuleTarget) (s : BlocklistEngine × ParseReport)
          → load_paths lower read paths target s
            ≡ (read_all read paths >>= λ xs. ok (load_all lower target xs s))
      unfolding load_paths read_all load_all
      load_paths-read [] target s = refl
      load_paths-read (path ∷ paths) target s = simp (
        >>=-assoc,
        load_lines-read path target,
        load_paths-read paths target,
        load_all-append lower target,
      )

      -- What a run comes to, by its result: the rules that lines add, or the error of a file.
      abbrev pub Outcome :
          List Text
          → List Text
          → Result (BlocklistError IoError HttpError) (BlocklistEngine × ParseReport)
          → Type 0
      Outcome block_paths allow_paths (ok (engine, report)) =
          (bl : List Text) × (al : List Text) × (read_all read block_paths ≡ ok bl)
          × (read_all read allow_paths ≡ ok al)
          × ((q : NormalizedRule)
              → (contains engine.blocks q ≡ true) ↔ (
                  Adds lower AddsBlock RuleTarget.block bl q
                  ⊎ Adds lower AddsBlock RuleTarget.allow al q))
          × ((q : NormalizedRule)
              → (contains engine.exceptions q ≡ true) ↔ (
                  Adds lower AddsException RuleTarget.block bl q
                  ⊎ Adds lower AddsException RuleTarget.allow al q))
          × (report.total % 2 ^ 64 ≡ (length bl + length al) % 2 ^ 64)
      Outcome block_paths allow_paths (err e) =
          (read_all read block_paths ≡ err e)
          ⊎ ((bl : List Text) × (read_all read block_paths ≡ ok bl)
              × (read_all read allow_paths ≡ err e))

      Outcome-of :
          (block_paths allow_paths : List Text)
          (mb ma : Result (BlocklistError IoError HttpError) (List Text))
          → read_all read block_paths ≡ mb
          → read_all read allow_paths ≡ ma
          → Outcome block_paths allow_paths (
              mb >>= λ bl.
              (ma >>= λ al. ok (
                load_all lower RuleTarget.allow al
                  (load_all lower RuleTarget.block bl (empty_engine, empty_report)))))
      Outcome-of block_paths allow_paths (err e) ma hb ha = inl hb
      Outcome-of block_paths allow_paths (ok bl) (err e) hb ha = inr (bl, hb, ha)
      Outcome-of block_paths allow_paths (ok bl) (ok al) hb ha =
          let (e, r) = load_all lower RuleTarget.block bl (empty_engine, empty_report) in
          (
            bl,
            al,
            hb,
            ha,
            λ q.
                two_steps q _ _ _ _
                  (load_all-Step lower AddsBlock (λ n. n.blocks) apply_line-blocks RuleTarget.block
                    bl empty_engine empty_report q)
                  (load_all-Step lower AddsBlock (λ n. n.blocks) apply_line-blocks RuleTarget.allow
                    al e r q),
            λ q.
                two_steps q _ _ _ _
                  (load_all-Step lower AddsException (λ n. n.exceptions) apply_line-exceptions
                    RuleTarget.block bl empty_engine empty_report q)
                  (load_all-Step lower AddsException (λ n. n.exceptions) apply_line-exceptions
                    RuleTarget.allow al e r q),
            omega (
              arith,
              load_all-total lower RuleTarget.block bl empty_engine empty_report,
              load_all-total lower RuleTarget.allow al e r,
            ),
          )

      -- `from_sources` succeeds exactly if each file is read whole. Then the block rules are those
      -- that a line of the lists adds as such, the exceptions are those that a line adds (`@@` lines of
      -- both kinds of list, and the plain rules of the allow lists), and the report counts all lines,
      -- modulo 2^64. Otherwise its error is that of the first file that fails, block lists first.
      pub from_sources-Outcome :
          (block_paths allow_paths : List Text)
          → Outcome block_paths allow_paths (from_sources lower read block_paths allow_paths)
      unfolding from_sources
      from_sources-Outcome block_paths allow_paths =
          rw
            (
              load_paths-read block_paths RuleTarget.block (empty_engine, empty_report),
              >>=-assoc (read_all read block_paths),
              fun_ext (load_paths-read allow_paths RuleTarget.allow),
            )
            (Outcome-of block_paths allow_paths (read_all read block_paths)
              (read_all read allow_paths) refl refl)
