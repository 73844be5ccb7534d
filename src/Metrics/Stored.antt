-- ===== src/Metrics/Stored.antt =====
-- src/metrics.rs: `load_stats` and `save_stats`, the counters in a file. `StatsFiles` is what the code
-- uses of `std::fs`, with the files as a state, and `StatsJson` the crate serde_json.
pub mod Atomic
use dotdns.Prelude.{◌≡◌, ◌≢◌, Option, none, some, Result, ok, err, Bool}
use dotdns.Metrics.{PersistedMetrics}
use dotdns.Text.{Text, codes, parent, with_extension}

-- A rename replaces the file in one step: one that fails leaves it as it is.
pub record StatsFiles (F IoError : Type 0) : Type 0 where
  pub read_to_string : F → Text → Result IoError Text
  pub create_dir_all : Text → F → F × Option IoError
  pub write : Text → Text → F → F × Option IoError
  pub rename : Text → Text → F → F × Option IoError
  pub remove_file : Text → F → F
  pub read-create_dir_all :
      (dir p : Text) (f : F) → read_to_string (create_dir_all dir f).0 p ≡ read_to_string f p
  pub read-write :
      (p body : Text) (f : F)
      → (write p body f).1 ≡ none
      → read_to_string (write p body f).0 p ≡ ok body
  pub read-write_other :
      (p q body : Text) (f : F) → q ≢ p → read_to_string (write p body f).0 q ≡ read_to_string f q
  pub read-rename :
      (from to : Text) (f : F)
      → (rename from to f).1 ≡ none
      → read_to_string (rename from to f).0 to ≡ read_to_string f from
  pub read-rename_failed :
      (from to : Text) (f : F) (e : IoError)
      → (rename from to f).1 ≡ some e
      → read_to_string (rename from to f).0 to ≡ read_to_string f to

pub record StatsJson (IoError : Type 0) : Type 0 where
  pub to_vec : PersistedMetrics → Result IoError Text
  pub from_str : Text → Result Text PersistedMetrics
  pub from_str-to_vec :
      (m : PersistedMetrics) (text : Text) → to_vec m ≡ ok text → from_str text ≡ ok m

module _ {F IoError : Type 0} (fs : StatsFiles F IoError) (json : StatsJson IoError) where
  -- The errors of reading differ in what is logged only.
  unfoldable pub load_stats : Text → F → F × Option PersistedMetrics
  load_stats path f = elim (fs.read_to_string f path) [
    | err e ↦ (f, none)
    | ok content ↦ elim (json.from_str content) [
      | ok persisted ↦ (f, some persisted)
      | err e ↦ (fs.remove_file path f, none)
    ]
  ]

  -- `?` on a call
  abbrev pub try_then :
      F × Option IoError → (F → F × Result IoError (Unit {0})) → F × Result IoError (Unit {0})
  try_then (f, some e) next = (f, err e)
  try_then (f, none) next = next f

  create_parent : Option Text → F → F × Option IoError
  create_parent none f = (f, none)
  create_parent (some dir) f = fs.create_dir_all dir f

  write_json : Text → Result IoError Text → F → F × Result IoError (Unit {0})
  write_json path (err e) f = (f, err e)
  write_json path (ok text) f =
      let temp_path = with_extension (codes "tmp") path in
      try_then (fs.write temp_path text f)
        (λ f. try_then (fs.rename temp_path path f) (λ f. (f, ok tt)))

  unfoldable pub save_stats : Text → PersistedMetrics → F → F × Result IoError (Unit {0})
  unfolding create_parent write_json
  save_stats path persisted f =
      try_then (create_parent (parent path) f) (λ f. write_json path (json.to_vec persisted) f)
