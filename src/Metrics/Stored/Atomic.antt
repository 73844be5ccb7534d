-- ===== src/Metrics/Stored/Atomic.antt =====
-- src/metrics.rs, `save_stats` and `load_stats`: what a later start of the program reads.
use dotdns.Prelude.{◌≡◌, ◌≢◌, refl, sym, ◌∙◌, Option, none, some, Result, ok, err}
use dotdns.Metrics.{PersistedMetrics}
use dotdns.Metrics.Stored.{
  StatsFiles, StatsJson, load_stats, try_then, create_parent, write_json, save_stats,
}
use dotdns.Text.{Text, codes, parent, with_extension}

module _ {F IoError : Type 0} (fs : StatsFiles F IoError) (json : StatsJson IoError) (path : Text)
    (saved : PersistedMetrics) where
  -- After a call on the files `f`: it succeeded and what was saved is loaded, or it failed and the file is
  -- as it was.
  pub data Saved (f : F) : F × Result IoError (Unit {0}) → Type 0 where
    stored : (f' : F) → load_stats fs json path f' ≡ (f', some saved) → Saved f (f', ok tt)
    untouched :
        (f' : F) (e : IoError)
        → fs.read_to_string f' path ≡ fs.read_to_string f path
        → Saved f (f', err e)

  Saved-from :
      (f g : F) (out : F × Result IoError (Unit {0}))
      → fs.read_to_string g path ≡ fs.read_to_string f path
      → Saved g out
      → Saved f out
  Saved-from f g _ same (stored f' loads) = stored f' loads
  Saved-from f g _ same (untouched f' e kept) = untouched f' e (kept ∙ same)

  try_then-Saved :
      (f : F) (first : F × Option IoError) (next : F → F × Result IoError (Unit {0}))
      → fs.read_to_string first.0 path ≡ fs.read_to_string f path
      → (first.1 ≡ none → Saved f (next first.0))
      → Saved f (try_then fs json first next)
  try_then-Saved f (g, some e) next same go_on = untouched g e same
  try_then-Saved f (g, none) next same go_on = go_on refl

  create_parent-reads :
      (dir : Option Text) (f : F)
      → fs.read_to_string (create_parent fs json dir f).0 path ≡ fs.read_to_string f path
  unfolding create_parent
  create_parent-reads none f = refl
  create_parent-reads (some dir) f = fs.read-create_dir_all dir path f

  loads-written :
      (text : Text) (f : F)
      → json.to_vec saved ≡ ok text
      → fs.read_to_string f path ≡ ok text
      → load_stats fs json path f ≡ (f, some saved)
  unfolding load_stats
  loads-written text f written reads =
      rw (load_stats, reads, json.from_str-to_vec saved text written) refl

  renamed-Saved :
      (text : Text) (f : F) (out : F × Option IoError)
      → json.to_vec saved ≡ ok text
      → (out.1 ≡ none → fs.read_to_string out.0 path ≡ ok text)
      → ((e : IoError) → out.1 ≡ some e → fs.read_to_string out.0 path ≡ fs.read_to_string f path)
      → Saved f (try_then fs json out (λ f. (f, ok tt)))
  renamed-Saved text f (g, none) written moved kept =
      stored g (loads-written text g written (moved refl))
  renamed-Saved text f (g, some e) written moved kept = untouched g e (kept e refl)

  write_json-Saved :
      (f : F) (out : Result IoError Text)
      → with_extension (codes "tmp") path ≢ path
      → json.to_vec saved ≡ out
      → Saved f (write_json fs json path out f)
  unfolding write_json
  write_json-Saved f (err e) other h = untouched f e refl
  write_json-Saved f (ok text) other h =
      let tmp = with_extension (codes "tmp") path in
      let first = fs.write tmp text f in
      let kept = fs.read-write_other tmp path text f (λ same. other (sym same)) in
      try_then-Saved f first _ kept (λ wrote.
        renamed-Saved text f (fs.rename tmp path first.0) h
          (λ moved. fs.read-rename tmp path first.0 moved ∙ fs.read-write tmp text f wrote)
          (λ e failed. fs.read-rename_failed tmp path first.0 e failed ∙ kept))

  -- A save that succeeds is what the next load gives, and one that fails, at any step, leaves the file with
  -- the last saved counters as it was, if the file's name does not itself end in `.tmp`.
  pub save_stats-Saved :
      (f : F) → with_extension (codes "tmp") path ≢ path → Saved f (save_stats fs json path saved f)
  unfolding save_stats
  save_stats-Saved f other =
      let first = create_parent fs json (parent path) f in
      try_then-Saved f first _ (create_parent-reads (parent path) f) (λ made.
        Saved-from f first.0 _ (create_parent-reads (parent path) f)
          (write_json-Saved first.0 (json.to_vec saved) other refl))
