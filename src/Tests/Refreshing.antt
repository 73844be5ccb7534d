-- ===== src/Tests/Refreshing.antt =====
-- The downloads of src/blocklist.rs at work, on files that are a function from paths, of which the
-- second list cannot be fetched.
use dotdns.Prelude.{
  ◌≡◌, ◌≢◌, refl, Bool-cases, inl, inr, List, [], ◌∷◌, Option, none, some, Result, ok, err,
  if◌then◌else◌,
}
use dotdns.Blocklist.{download}
use dotdns.Blocklist.Loading.{RemoteBlocklists, ReloadableBlocklist, empty_engine, path_for}
use dotdns.Blocklist.Refresh.{
  FileSystem, refresh, refresh_and_reload, download_all, stage, commit_staged,
}
use dotdns.Blocklist.Refresh.Staging.{Refreshed, refresh-read, refresh_and_reload-Refreshed}
use dotdns.Text.{Text, codes, eq_text}
use dotdns.Text.Laws.{eq_text_sound, text_Equality}

abbrev pub Files : Type 0
Files = Text → Option Text

pub put : Text → Option Text → Files → Files
put p body f q = if eq_text q p then body else f q

pub lines_of : Option Text → Result Text (List (Result Text Text))
lines_of none = err (codes "not found")
lines_of (some body) = ok (ok body ∷ [])

pub put-other :
    (p : Text) (body : Option Text) (f : Files) (q : Text) → q ≢ p → put p body f q ≡ f q
unfolding put
put-other p body f q n = elim (Bool-cases (eq_text q p)) [
  | inl e ↦ absurd (n (eq_text_sound q p e))
  | inr e ↦ rw e refl
]

pub put-same : (p : Text) (body : Option Text) (f : Files) → put p body f p ≡ body
unfolding put
put-same p body f = rw (text_Equality.eq_refl p) refl

pub read_write :
    (p q body : Text) (f : Files) → q ≢ p → lines_of (put p (some body) f q) ≡ lines_of (f q)
read_write p q body f n = rw (put-other p (some body) f q n) refl

pub read_rename :
    (from to q : Text) (f : Files)
    → q ≢ from
    → q ≢ to
    → lines_of (put to (f from) (put from none f) q) ≡ lines_of (f q)
read_rename from to q f n m =
    rw (put-other to (f from) (put from none f) q m, put-other from none f q n) refl

abbrev pub files : FileSystem Files Text
files = record {
  create_dir_all = λ dir f. (f, none);
  write = λ p body f. (put p (some body) f, none);
  rename = λ from to f. (put to (f from) (put from none f), none);
  read = λ f p. lines_of (f p);
  read-create_dir_all = λ dir p f. refl;
  read-write = read_write;
  read-rename = read_rename;
}

abbrev pub fetch : Text → Result Text Text
fetch url = if eq_text url (codes "a") then ok (codes "ads.example") else err (codes "timed out")

abbrev remote : RemoteBlocklists
remote = record {
  urls = codes "a" ∷ codes "b" ∷ [];
  download_dir = codes "/lists";
  timeout = 30;
  file_prefix = codes "subscription";
}

abbrev pub no_files : Files
no_files p = none

failed :
    (refresh files none fetch remote no_files).1 ≡ err (download (codes "b") (codes "timed out"))
unfolding refresh download_all stage commit_staged eq_text put
failed = refl

refresh-read_example :
    lines_of ((refresh files none fetch remote no_files).0 (path_for remote 0))
    ≡ lines_of (no_files (path_for remote 0))
refresh-read_example = refresh-read files none fetch remote remote 0 no_files _ tt failed

abbrev pub rules : ReloadableBlocklist
rules = record {
  engine = empty_engine;
  paths = [];
  allowlist_paths = [];
  remote = record remote { urls = codes "a" ∷ [] };
  allowlist_remote = record remote { urls = []; file_prefix = codes "allowlist" };
}

abbrev pub lower : Text → Text
lower t = t

refresh_and_reload-Refreshed_example :
    Refreshed files none fetch lower rules no_files
      (refresh_and_reload files none fetch lower rules no_files)
refresh_and_reload-Refreshed_example =
    refresh_and_reload-Refreshed files none fetch lower rules no_files
