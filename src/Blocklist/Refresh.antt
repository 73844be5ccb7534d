-- ===== src/Blocklist/Refresh.antt =====
-- src/blocklist.rs: `RemoteBlocklists::refresh`, which downloads the lists to staged files and then
-- renames these, and `ReloadableBlocklist::refresh_and_reload`, which runs under its own lock.
--
-- `FileSystem` is what the code uses of `std::fs`: each operation hands the files on, and an error if
-- it failed. `fetch` is `get`, `send`, `error_for_status`, `bytes` and `from_utf8_lossy` on a URL, with
-- the crate reqwest; `client` is the error of building its client, if any.
pub mod Staging
use dotdns.Prelude.{
  ℕ, ◌+◌, ◌==◌, if◌then◌else◌, ◌≡◌, ◌≢◌, List, [], ◌∷◌, ◌++◌, Option, none, some, Result, ok, err,
  length,
}
use dotdns.Blocklist.{ParseReport, BlocklistError, io, http_client, download}
use dotdns.Blocklist.Loading.{RemoteBlocklists, ReloadableBlocklist, path_for, reload}
use dotdns.Text.{Text, codes, with_extension}

-- Paths are compared as texts: links are left out.
pub record FileSystem (F IoError : Type 0) : Type 0 where
  pub create_dir_all : Text → F → F × Option IoError
  pub write : Text → Text → F → F × Option IoError
  pub rename : Text → Text → F → F × Option IoError
  -- Opening a file and reading its lines.
  pub read : F → Text → Result IoError (List (Result IoError Text))
  pub read-create_dir_all : (dir p : Text) (f : F) → read (create_dir_all dir f).0 p ≡ read f p
  pub read-write : (p q body : Text) (f : F) → q ≢ p → read (write p body f).0 q ≡ read f q
  pub read-rename :
      (from to q : Text) (f : F) → q ≢ from → q ≢ to → read (rename from to f).0 q ≡ read f q

unfoldable pub tmp_path : Text → Text
unfolding with_extension
tmp_path final_path = with_extension (codes "tmp") final_path

module _ {F IoError HttpError : Type 0} (fs : FileSystem F IoError) (client : Option HttpError)
    (fetch : Text → Result HttpError Text) where
  abbrev pub Refreshing : Type 0 → Type 0
  Refreshing A = F × Result (BlocklistError IoError HttpError) A

  -- The loop over the URLs, from the place `idx`, with the files that are staged so far.
  unfoldable pub stage :
      RemoteBlocklists → ℕ → List Text → List (Text × Text) → F → Refreshing (List (Text × Text))
  unfolding tmp_path
  stage r idx [] staged f = (f, ok staged)
  stage r idx (url ∷ urls) staged f = elim (fetch url) [
    | err source ↦ (f, err (download url source))
    | ok body ↦
        let final_path = path_for r idx in
        let (f', written) = fs.write (tmp_path final_path) body f in
        elim written [
          | some e ↦ (f', err (io (tmp_path final_path) e))
          | none ↦ stage r (idx + 1) urls (staged ++ ((tmp_path final_path, final_path) ∷ [])) f'
        ]
  ]

  unfoldable pub commit : List (Text × Text) → F → Refreshing (Unit {0})
  commit [] f = (f, ok tt)
  commit ((tmp, final_path) ∷ staged) f =
      let (f', renamed) = fs.rename tmp final_path f in
      elim renamed [ some e ↦ (f', err (io final_path e)) | none ↦ commit staged f' ]

  unfoldable pub commit_staged : Refreshing (List (Text × Text)) → Refreshing (Unit {0})
  unfolding commit
  commit_staged (f, err e) = (f, err e)
  commit_staged (f, ok staged) = commit staged f

  unfoldable pub download_all : RemoteBlocklists → F → Refreshing (Unit {0})
  unfolding stage commit_staged
  download_all r f = elim client [
    | some e ↦ (f, err (http_client e))
    | none ↦ commit_staged (stage r 0 r.urls [] f)
  ]

  unfoldable pub refresh : RemoteBlocklists → F → Refreshing (Unit {0})
  unfolding download_all
  refresh r f =
      let (f', made) = fs.create_dir_all r.download_dir f in
      let rest : Refreshing (Unit {0}) = elim made [
        | some e ↦ (f', err (io r.download_dir e))
        | none ↦ download_all r f'
      ] in
      if length r.urls == 0 then (f, ok tt) else rest

  module _ (lower : Text → Text) where
    unfoldable pub reload_after :
        ReloadableBlocklist
        → Refreshing (Unit {0})
        → F × ReloadableBlocklist × Result (BlocklistError IoError HttpError) ParseReport
    reload_after b (f, err e) = (f, b, err e)
    reload_after b (f, ok done) =
        let (b', result) = reload lower {HttpError = HttpError} (fs.read f) b in (f, b', result)

    unfoldable pub refresh_allowlist :
        ReloadableBlocklist → Refreshing (Unit {0}) → Refreshing (Unit {0})
    refresh_allowlist b (f, err e) = (f, err e)
    refresh_allowlist b (f, ok done) = refresh b.allowlist_remote f

    unfoldable pub refresh_and_reload :
        ReloadableBlocklist
        → F
        → F × ReloadableBlocklist × Result (BlocklistError IoError HttpError) ParseReport
    unfolding refresh reload_after refresh_allowlist
    refresh_and_reload b f = reload_after b (refresh_allowlist b (refresh b.remote f))
