-- ===== src/Blocklist/Refresh/Staging.antt =====
-- src/blocklist.rs, `RemoteBlocklists::refresh` and `ReloadableBlocklist::refresh_and_reload`: what a
-- failure leaves as it was.
use dotdns.Prelude.{
  ℕ, ◌+◌, ◌≡◌, refl, sym, ap, ◌∙◌, inl, inr, Bool-cases, true, false, List, [], ◌∷◌, ◌++◌, Option,
  Option-cases, Result, Result-cases, ok, err, length, ◌==◌, if_both,
}
use mathlib.Core.List.{append_assoc}
use mathlib.Core.Path.{subst}
use dotdns.Blocklist.{ParseReport, BlocklistError, io, http_client, download}
use dotdns.Blocklist.Loading.{RemoteBlocklists, ReloadableBlocklist, path_for}
use dotdns.Blocklist.Loading.Reload.{Reloaded, reload-Reloaded}
use dotdns.Blocklist.Refresh.{
  FileSystem, tmp_path, Refreshing, stage, commit, commit_staged, download_all, refresh,
  refresh_and_reload, reload_after, refresh_allowlist,
}
use dotdns.Text.{
  Text, codes, ends_with_char, join_path, padded, is_empty, with_extension, without_extension,
}

ends_with_char-tail :
    (xs : Text) (c : ℕ) (s : Text) (d : ℕ)
    → ends_with_char (xs ++ (c ∷ s)) d ≡ ends_with_char (c ∷ s) d
unfolding ends_with_char
ends_with_char-tail [] c s d = refl
ends_with_char-tail (x ∷ []) c s d = refl
ends_with_char-tail (x ∷ y ∷ xs) c s d = ends_with_char-tail (y ∷ xs) c s d

-- A downloaded list ends in "t", and a staged file in "p".
tmp_path-end : (p : Text) → ends_with_char (tmp_path p) b't' ≡ false
unfolding tmp_path with_extension ends_with_char
tmp_path-end p = ends_with_char-tail (without_extension p) b'.' (codes "tmp") b't'

join_path-end :
    (dir name : Text) (c : ℕ) (s : Text) (d : ℕ)
    → ends_with_char (join_path dir (name ++ (c ∷ s))) d ≡ ends_with_char (c ∷ s) d
unfolding join_path
join_path-end dir name c s d = if_both P (is_empty dir) (ends_with_char-tail name c s d) (
    if_both P (ends_with_char dir b'/')
      (rw (← append_assoc dir name (c ∷ s)) (ends_with_char-tail (dir ++ name) c s d))
      (rw (← append_assoc dir (b'/' ∷ name) (c ∷ s))
        (ends_with_char-tail (dir ++ (b'/' ∷ name)) c s d)))
  where
    P : Text → Type 0
    P x = ends_with_char x d ≡ ends_with_char (c ∷ s) d

path_for-end : (r : RemoteBlocklists) (idx : ℕ) → ends_with_char (path_for r idx) b't' ≡ true
unfolding path_for ends_with_char
path_for-end r idx =
    let name = r.file_prefix ++ (b'-' ∷ padded 4 idx) in
    rw (← append_assoc r.file_prefix (b'-' ∷ padded 4 idx) (codes ".txt"))
      (join_path-end r.download_dir name b'.' (codes "txt") b't')

module _ {F IoError HttpError : Type 0} (fs : FileSystem F IoError) (client : Option HttpError)
    (fetch : Text → Result HttpError Text) where
  stage-read :
      (r : RemoteBlocklists) (idx : ℕ) (urls : List Text) (staged : List (Text × Text)) (f : F)
      (p : Text)
      → ends_with_char p b't' ≡ true
      → fs.read (stage fs client fetch r idx urls staged f).0 p ≡ fs.read f p
  unfolding stage
  stage-read r idx [] staged f p h = refl
  stage-read r idx (url ∷ urls) staged f p h = elim (Result-cases (fetch url)) [
    | inr (e, q) ↦ rw (q, stage) refl
    | inl (body, q) ↦
        let tmp = tmp_path (path_for r idx) in
        let kept : fs.read (fs.write tmp body f).0 p ≡ fs.read f p =
          fs.read-write tmp p body f
            (λ same. cc (sym h ∙ ap (λ x. ends_with_char x b't') same ∙ tmp_path-end _)) in
        elim (Option-cases (fs.write tmp body f).1) [
          | inr (e, w) ↦ rw (q, stage) (rw (w, stage) kept)
          | inl w ↦
              rw (q, stage)
                (rw (w, stage) (stage-read r (idx + 1) urls _ (fs.write tmp body f).0 p h ∙ kept))
        ]
  ]

  -- An error before the first file is renamed.
  abbrev pub IsDownload : BlocklistError IoError HttpError → Type 0
  IsDownload (io path e) = ⊥
  IsDownload (http_client e) = Unit
  IsDownload (download url e) = Unit

  commit-not-IsDownload :
      (staged : List (Text × Text)) (f : F) (problem : BlocklistError IoError HttpError)
      → (commit fs client fetch staged f).1 ≡ err problem
      → ¬ IsDownload problem
  unfolding commit
  commit-not-IsDownload [] f problem h d = cc
  commit-not-IsDownload ((tmp, final_path) ∷ staged) f problem h d =
      elim (Option-cases (fs.rename tmp final_path f).1) [
        | inr (e, w) ↦
            let same : err (io final_path e) ≡ err problem = rw (w, commit) at h in
            absurd (subst (λ r. IsErrDownload r → ⊥) same (λ x. x) d)
        | inl w ↦
            commit-not-IsDownload staged (fs.rename tmp final_path f).0 problem
              (rw (w, commit) at h) d
      ]
    where
      IsErrDownload : Result (BlocklistError IoError HttpError) (Unit {0}) → Type 0
      IsErrDownload (err e) = IsDownload e
      IsErrDownload (ok done) = ⊥

  download_all-read :
      (r : RemoteBlocklists) (f : F) (p : Text) (problem : BlocklistError IoError HttpError)
      → ends_with_char p b't' ≡ true
      → IsDownload problem
      → (download_all fs client fetch r f).1 ≡ err problem
      → fs.read (download_all fs client fetch r f).0 p ≡ fs.read f p
  unfolding download_all
  download_all-read r f p problem h d e = elim (Option-cases client) [
    | inr (c, q) ↦ rw (q, download_all) refl
    | inl q ↦
        let staged = stage fs client fetch r 0 r.urls [] f in
        rw (q, download_all)
          (staged_read staged (rw (q, download_all) at e) ∙ stage-read r 0 r.urls [] f p h)
  ]
    where
      staged_read :
          (s : Refreshing fs client fetch (List (Text × Text)))
          → (commit_staged fs client fetch s).1 ≡ err problem
          → fs.read (commit_staged fs client fetch s).0 p ≡ fs.read s.0 p
      staged_read (g, err e) k = refl
      staged_read (g, ok staged) k = absurd (commit-not-IsDownload staged g problem k d)

  -- A refresh in which a download fails, or the client cannot be built, leaves every downloaded list
  -- as it was: nothing is renamed before all lists are there.
  pub refresh-read :
      (r other : RemoteBlocklists) (idx : ℕ) (f : F) (problem : BlocklistError IoError HttpError)
      → IsDownload problem
      → (refresh fs client fetch r f).1 ≡ err problem
      → fs.read (refresh fs client fetch r f).0 (path_for other idx)
        ≡ fs.read f (path_for other idx)
  unfolding refresh
  refresh-read r other idx f problem d e = elim (Bool-cases (length r.urls == 0)) [
    | inl q ↦ rw q refl
    | inr q ↦ elim (Option-cases (fs.create_dir_all r.download_dir f).1) [
      | inr (c, w) ↦ rw q (rw w (fs.read-create_dir_all r.download_dir _ f))
      | inl w ↦ rw q (
          rw w (
            download_all-read r (fs.create_dir_all r.download_dir f).0 _ problem
              (path_for-end other idx) d (rw (q, w, refresh) at e)
            ∙ fs.read-create_dir_all r.download_dir _ f))
    ]
  ]

  module _ (lower : Text → Text) where
    -- What comes of a refresh of the rules `b` on the files `f`: the block lists fail and nothing else is
    -- done, or then the allow lists fail, or both are there and the rules are reloaded from the files
    -- that this leaves.
    pub data Refreshed (b : ReloadableBlocklist) (f : F)
        : F × ReloadableBlocklist × Result (BlocklistError IoError HttpError) ParseReport
          → Type 0 where
      lists_failed :
          (e : BlocklistError IoError HttpError)
          → (refresh fs client fetch b.remote f).1 ≡ err e
          → Refreshed b f ((refresh fs client fetch b.remote f).0, b, err e)
      allowlists_failed :
          (g : F) (e : BlocklistError IoError HttpError)
          → refresh fs client fetch b.remote f ≡ (g, ok tt)
          → (refresh fs client fetch b.allowlist_remote g).1 ≡ err e
          → Refreshed b f ((refresh fs client fetch b.allowlist_remote g).0, b, err e)
      reloaded :
          (g g' : F) (b' : ReloadableBlocklist)
          (result : Result (BlocklistError IoError HttpError) ParseReport)
          → refresh fs client fetch b.remote f ≡ (g, ok tt)
          → refresh fs client fetch b.allowlist_remote g ≡ (g', ok tt)
          → Reloaded lower IoError HttpError (fs.read g') b b' result
          → Refreshed b f (g', b', result)

    after_allowlists :
        (b : ReloadableBlocklist) (f g : F) (two : Refreshing fs client fetch (Unit {0}))
        → refresh fs client fetch b.remote f ≡ (g, ok tt)
        → refresh fs client fetch b.allowlist_remote g ≡ two
        → Refreshed b f (reload_after fs client fetch lower b two)
    unfolding reload_after
    after_allowlists b f g (g', err e) h k =
        subst (λ x. Refreshed b f (x.0, b, err e)) k
          (allowlists_failed g e h (ap {A = Refreshing fs client fetch (Unit {0})} (λ x. x.1) k))
    after_allowlists b f g (g', ok tt) h k =
        reloaded g g' _ _ h k (reload-Reloaded lower IoError HttpError (fs.read g') b)

    after_lists :
        (b : ReloadableBlocklist) (f : F) (one : Refreshing fs client fetch (Unit {0}))
        → refresh fs client fetch b.remote f ≡ one
        → Refreshed b f
            (reload_after fs client fetch lower b (refresh_allowlist fs client fetch lower b one))
    unfolding reload_after refresh_allowlist
    after_lists b f (g, err e) h =
        subst (λ x. Refreshed b f (x.0, b, err e)) h
          (lists_failed e (ap {A = Refreshing fs client fetch (Unit {0})} (λ x. x.1) h))
    after_lists b f (g, ok tt) h = after_allowlists b f g _ h refl

    -- A refresh of the block lists that fails is the result, and the allow lists are not refreshed; so is
    -- one of the allow lists, after it; and in both cases the rules stay as they were. Otherwise the
    -- rules are reloaded from the files that both refreshes left: they are what these hold, or stay
    -- as they were where a list cannot be read.
    pub refresh_and_reload-Refreshed :
        (b : ReloadableBlocklist) (f : F)
        → Refreshed b f (refresh_and_reload fs client fetch lower b f)
    unfolding refresh_and_reload
    refresh_and_reload-Refreshed b f = after_lists b f _ refl
