-- ===== src/Backends/Browser/Calls.antt =====
-- Sequences of calls of the backend, and the URLs that it returns after them.
use zfiles.Common.{
  ℕ, ◌≡◌, ◌≢◌, sym, ap, ◌∙◌, subst, Bool, true, false, ◌||◌, List, [], ◌∷◌, Option, none, some,
  Text, is_empty, if◌then◌else◌, All, lookup, trim,
}
use zfiles.BrowserFs.Paths.{normalize_path, path_is_within, path_segments, join_path, path_parent}
use zfiles.BrowserFs.Store.Types.{Blob, Platform, Db, Failure, Result, ok, err, invalid_name}
use zfiles.BrowserFs.Store.Operations.{read_blob, move}
use zfiles.BrowserFs.Store.Invariant.{IsBounded}
use zfiles.BrowserFs.Store.Methods.Reads.{read_at, read_blob_lem}
use zfiles.BrowserFs.Store.Methods.Replaced.{move-apart, read_blob-move}
use zfiles.Caches.BlobUrls.{BlobUrlCache, get, invalidate}
use zfiles.Caches.BlobUrls.Invalidation.{lookup-invalidate}
use zfiles.Caches.BlobUrls.Lookups.{lookup-get}
use zfiles.Backends.Browser.{
  Backend, Reply, returned, thrown, fs_error, Action, delete, mkdir, rename, copy_action,
  move_action, other_action, RunActionParams, first_or_empty, text_or_empty, download_url, upload,
  run_action, rename_path, finish_rename, notify_changed, read_url, delete_paths, make_dir,
  transfer_all, unknown_action,
}
use zfiles.Backends.Browser.Coherence.{
  Coherent, Shown, made_path, upload-Coherent, delete_paths-Coherent, make_dir-Coherent,
  download_url-Shown,
}

some-ne-none : {A : Type 0} {a : A} → some a ≢ none
some-ne-none = cc

some-injective : {A : Type 0} {a b : A} → some a ≡ some b → a ≡ b
some-injective e = cc

pub data Call : Type 0 where
  ask_url : Option Failure → Text → Call
  upload_file : Option Failure → ℕ → (aborted_before aborted_after : Bool) → Blob → Text → Call
  act : (Text → Option Failure) → ℕ → RunActionParams → Call

abbrev KeepsFiles : Action → RunActionParams → Type 0
KeepsFiles delete params = Unit
KeepsFiles mkdir params = All IsBounded (path_segments (made_path params))
KeepsFiles other_action params = Unit
KeepsFiles _ params = ⊥

-- A call that transfers no file, and that writes under names of code units below 0xffff.
abbrev pub IsPlain : Call → Type 0
IsPlain (ask_url failure path) = Unit
IsPlain (upload_file failure now before after file dest_path) =
    All IsBounded (path_segments dest_path)
IsPlain (act failure now params) = KeepsFiles params.action_id params

module _ (P : Platform) (to_iso : ℕ → Text) (locale_before : Text → Text → Bool)
    (create : ℕ → Blob → Text) (max_entries : ℕ) where
  unfoldable pub perform : Call → Backend P → Backend P
  unfolding download_url upload run_action
  perform (ask_url failure path) b =
      (download_url P to_iso locale_before create max_entries failure path b).1
  perform (upload_file failure now before after file dest_path) b =
      (upload P to_iso locale_before create max_entries failure now before after file dest_path b).1
  perform (act failure now params) b =
      (run_action P to_iso locale_before create max_entries failure now params b).1

  unfoldable pub perform_all : List Call → Backend P → Backend P
  unfolding perform
  perform_all [] b = b
  perform_all (call ∷ calls) b = perform_all calls (perform call b)

  Shown-Coherent :
      (target : Text) (r : Reply Text × Backend P)
      → Shown P to_iso locale_before create max_entries target r
      → Coherent P create r.1
  Shown-Coherent target (thrown e, b) h = h
  Shown-Coherent target (returned url, b) h = h.0

  act-Coherent :
      (failure : Text → Option Failure) (now : ℕ) (params : RunActionParams) (b : Backend P)
      → KeepsFiles params.action_id params
      → Coherent P create b
      → Coherent P create
          (run_action P to_iso locale_before create max_entries failure now params b).1
  unfolding run_action
  act-Coherent failure now params b plain c = go params.action_id plain
    where
      go :
          (a : Action)
          → KeepsFiles a params
          → Coherent P create
              (elim a as (λ x. Reply (Unit {0}) × Backend P) [
                | delete ↦
                    delete_paths P to_iso locale_before create max_entries failure params.paths [] b
                | mkdir ↦
                    make_dir P to_iso locale_before create max_entries
                      (failure (first_or_empty params.paths))
                      now
                      params
                      b
                | rename ↦
                    rename_path P to_iso locale_before create max_entries
                      (failure (first_or_empty params.paths))
                      params
                      b
                | copy_action ↦
                    transfer_all P to_iso locale_before create max_entries failure false params b
                | move_action ↦
                    transfer_all P to_iso locale_before create max_entries failure true params b
                | other_action ↦ (thrown unknown_action, b)
              ]).1
      go delete h =
          delete_paths-Coherent P to_iso locale_before create max_entries failure params.paths [] b
            c
      go mkdir h =
          make_dir-Coherent P to_iso locale_before create max_entries
            (failure (first_or_empty params.paths)) now params b h c
      go other_action h = c
      go rename h = absurd h
      go copy_action h = absurd h
      go move_action h = absurd h

  perform-Coherent :
      (call : Call) (b : Backend P)
      → IsPlain call
      → Coherent P create b
      → Coherent P create (perform call b)
  unfolding perform
  perform-Coherent (ask_url failure path) b plain c =
      Shown-Coherent (normalize_path path)
        (download_url P to_iso locale_before create max_entries failure path b)
        (download_url-Shown P to_iso locale_before create max_entries failure path b c)
  perform-Coherent (upload_file failure now before after file dest_path) b plain c =
      upload-Coherent P to_iso locale_before create max_entries failure now before after file
        dest_path b plain c
  perform-Coherent (act failure now params) b plain c = act-Coherent failure now params b plain c

  pub perform_all-Coherent :
      (calls : List Call) (b : Backend P)
      → All IsPlain calls
      → Coherent P create b
      → Coherent P create (perform_all calls b)
  unfolding perform_all
  perform_all-Coherent [] b plain c = c
  perform_all-Coherent (call ∷ calls) b plain c =
      perform_all-Coherent calls (perform call b) plain.1 (perform-Coherent call b plain.0 c)

-- In a backend whose tree is well formed and whose URLs show the contents of their files, after any
-- calls of downloadUrl, upload, file.delete and file.mkdir, each of which may fail or be aborted: a
-- URL that downloadUrl returns was made of what readBlob returns at the path.
pub download_url-read_blob :
    (P : Platform) (to_iso : ℕ → Text) (locale_before : Text → Text → Bool)
    (create : ℕ → Blob → Text) (max_entries : ℕ) (calls : List Call) (failure : Option Failure)
    (path : Text) (start : Backend P) (url : Text) (after : Backend P)
    → Coherent P create start
    → All IsPlain calls
    → download_url P to_iso locale_before create max_entries failure path
        (perform_all P to_iso locale_before create max_entries calls start)
      ≡ (returned url, after)
    → (blob : Blob) × (n : ℕ) × (url ≡ create n blob)
      × ((read_blob P none path after.db).0 ≡ ok blob)
download_url-read_blob P to_iso locale_before create max_entries calls failure path start url after
      c plain e =
    let b = perform_all P to_iso locale_before create max_entries calls start in
    let shown : Shown P to_iso locale_before create max_entries (normalize_path path)
        (returned url, after) =
      subst (λ r. Shown P to_iso locale_before create max_entries (normalize_path path) r) e
        (download_url-Shown P to_iso locale_before create max_entries failure path b
          (perform_all-Coherent P to_iso locale_before create max_entries calls start plain c)) in
    let (blob, n, made, read, _) = shown.1 in (blob, n, made, read_blob_lem P path after.db ∙ read)

thrown-ne-returned : {A : Type 0} {x : _} {a : A} → thrown x ≢ returned a
thrown-ne-returned = cc

module _ (P : Platform) (to_iso : ℕ → Text) (locale_before : Text → Text → Bool)
    (create : ℕ → Blob → Text) (max_entries : ℕ) where
  -- A rename that is answered without an error has moved its file and released the old URLs.
  finish_rename-returned :
      (path : Text) (r : Result (Unit {0}) × Db P) (b after : Backend P)
      → finish_rename P to_iso locale_before create max_entries path r b ≡ (returned tt, after)
      → (r ≡ (ok tt, after.db)) × (after.urls ≡ invalidate path b.urls)
  unfolding finish_rename notify_changed
  finish_rename-returned path (err x, db) b after e =
      absurd (thrown-ne-returned (ap (λ (r : Reply (Unit {0}) × Backend P). r.0) e))
  finish_rename-returned path (ok u, db) b after e = (
    ap (λ (r : Reply (Unit {0}) × Backend P). (ok tt, r.1.db)) e,
    ap (λ (r : Reply (Unit {0}) × Backend P). r.1.urls) (sym e),
  )

  -- A URL that is held is returned.
  download_url-held :
      (failure : Option Failure) (target : Text) (b : Backend P) (url : Text)
      → normalize_path target ≡ target
      → lookup b.urls.urls target ≡ some url
      → (download_url P to_iso locale_before create max_entries failure target b).0 ≡ returned url
  unfolding download_url
  download_url-held failure target b url normal held = go (get (normalize_path target) b.urls).0 (
      (lookup-get (normalize_path target) b.urls).0
      ∙ ap (lookup b.urls.urls) (ap normalize_path normal ∙ normal)
      ∙ held)
    where
      go :
          (o : Option Text)
          → o ≡ some url
          → (elim o as (λ x. Reply Text × Backend P) [
            | some u ↦ (returned u, record b { urls = (get (normalize_path target) b.urls).1 })
            | none ↦
                read_url P to_iso locale_before create max_entries
                  (normalize_path target)
                  (read_blob P failure (normalize_path target) b.db)
                  b
          ]).0
            ≡ returned url
      go none q = absurd (some-ne-none (sym q))
      go (some u) q = ap returned (some-injective q)

-- The path that a rename gives its file.
unfoldable pub renamed_path : RunActionParams → Text
unfolding first_or_empty text_or_empty
renamed_path params =
    join_path (path_parent (first_or_empty params.paths)) (trim (text_or_empty params.new_name))

-- In a backend whose tree is well formed and whose URLs show the contents of their files, a rename
-- that succeeds moves a file to a path for which a URL is held. Then the URL was made of what
-- readBlob returned at that path before, readBlob returns the moved file there now, and downloadUrl
-- still returns the URL.
pub download_url-rename_path :
    (P : Platform) (to_iso : ℕ → Text) (locale_before : Text → Text → Bool)
    (create : ℕ → Blob → Text) (max_entries : ℕ) (failure again : Option Failure)
    (params : RunActionParams) (b after : Backend P) (url : Text) (moved : Blob)
    → Coherent P create b
    → rename_path P to_iso locale_before create max_entries failure params b ≡ (returned tt, after)
    → (read_blob P none (first_or_empty params.paths) b.db).0 ≡ ok moved
    → lookup b.urls.urls (renamed_path params) ≡ some url
    → ((old : Blob) × (n : ℕ) × (url ≡ create n old)
        × ((read_blob P none (renamed_path params) b.db).0 ≡ ok old))
      × ((read_blob P none (renamed_path params) after.db).0 ≡ ok moved)
      × ((download_url P to_iso locale_before create max_entries again
            (renamed_path params)
            after).0
          ≡ returned url)
unfolding rename_path renamed_path
download_url-rename_path P to_iso locale_before create max_entries failure again params b after url
      moved c e from_ok held =
    let target = renamed_path params in
    let path = first_or_empty params.paths in
    let (old, n, made, read, normal) = c.shows target url held in
    let to_ok = read_blob_lem P target b.db ∙ ap (read_at P b.db) normal ∙ read in
    let (ran, urls) =
      renamed (is_empty path || is_empty (trim (text_or_empty params.new_name))) e in
    let apart : path_is_within target path ≡ false =
      ap (λ t. path_is_within t path) (sym normal)
      ∙ move-apart P failure path target params.overwrite b.db after.db ran in
    (
      (old, n, made, to_ok),
      read_blob-move P failure path target params.overwrite b.db after.db moved old c.well ran
          from_ok to_ok,
      download_url-held P to_iso locale_before create max_entries again target after url normal (
          ap (λ (u : BlobUrlCache). lookup u.urls target) urls
          ∙ lookup-invalidate path b.urls target normal
          ∙ ap (λ t. if t then none else lookup b.urls.urls target) apart
          ∙ held),
    )
  where
    renamed :
        (t : Bool)
        → (if t
            then (thrown (fs_error invalid_name), b)
            else finish_rename P to_iso locale_before create max_entries
                (first_or_empty params.paths)
                (move P failure
                  (first_or_empty params.paths)
                  (join_path
                    (path_parent (first_or_empty params.paths))
                    (trim (text_or_empty params.new_name)))
                  params.overwrite
                  b.db)
                b)
          ≡ (returned tt, after)
        → (move P failure
              (first_or_empty params.paths)
              (join_path
                (path_parent (first_or_empty params.paths))
                (trim (text_or_empty params.new_name)))
              params.overwrite
              b.db
            ≡ (ok tt, after.db))
          × (after.urls ≡ invalidate (first_or_empty params.paths) b.urls)
    renamed true q = absurd (thrown-ne-returned (ap (λ (r : Reply (Unit {0}) × Backend P). r.0) q))
    renamed false q =
        finish_rename-returned P to_iso locale_before create max_entries
          (first_or_empty params.paths) _ b after q
