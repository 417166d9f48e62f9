-- ===== src/Backends/Browser/Coherence.antt =====
-- The URLs that the backend holds, against the contents of the store.
use zfiles.Common.{
  ℕ, ◌≡◌, inl, inr, refl, sym, ap, ◌∙◌, subst, Bool, true, false, List, [], ◌∷◌, Option, none, some,
  Text, text_eq, text_eq_iff, is_empty, if◌then◌else◌, All, lookup, arith, trim, length,
}
use zfiles.BrowserFs.Paths.{normalize_path, path_is_within, path_segments, join_path, path_parent}
use zfiles.BrowserFs.Paths.Laws.{normalize_path_idem}
use zfiles.BrowserFs.Store.Types.{
  Node, Blob, Platform, Db, Failure, Result, ok, err, Error, invalid_name, require_writable_path,
  truthy,
}
use zfiles.BrowserFs.Store.Requests.{run}
use zfiles.BrowserFs.Store.Operations.{
  make_directory, make_body, blob_of, read_blob, write_file, write_body, remove, remove_all,
  require_all,
}
use zfiles.BrowserFs.Store.Invariant.{WellFormed, IsBounded}
use zfiles.BrowserFs.Store.Methods.Trees.{
  write_file-WellFormed, remove-WellFormed, make_directory-WellFormed,
}
use zfiles.BrowserFs.Store.Methods.Reads.{
  read_at, read_node, read_id, read_blob_lem, read_blob-write_file,
}
use zfiles.BrowserFs.Store.Methods.Removed.{read_at-make_directory, read_at-remove, checked-eq-err}
use zfiles.Caches.BlobUrls.{BlobUrlCache, get, set, invalidate}
use zfiles.Caches.BlobUrls.Invalidation.{lookup-invalidate}
use zfiles.Caches.BlobUrls.Lookups.{lookup-get, lookup-set, lookup-invalidate_held}
use zfiles.Backends.Browser.{
  Backend, Reply, returned, thrown, read_url, download_url, finish_upload, upload, delete_one,
  delete_paths, add_name, notify_changed, fs_error, finish_mkdir, make_dir, RunActionParams,
  text_or_empty, first_or_empty,
}

module _ (P : Platform) (create : ℕ → Blob → Text) where
  -- The URL was made of what is read at the path now.
  abbrev pub Shows : Db P → Text → Text → Type 0
  Shows db k url =
      (blob : Blob) × (n : ℕ) × (url ≡ create n blob)
      × (read_at P db k ≡ ok blob)
      × (normalize_path k ≡ k)

  -- The tree is well formed, and every URL that is held shows its path's contents.
  pub record Coherent (b : Backend P) : Type 0 where
    pub well : WellFormed P b.db
    pub shows : (k url : Text) → lookup b.urls.urls k ≡ some url → Shows b.db k url

  -- What is read at a path decides what its URL shows.
  Shows-kept :
      (db after : Db P) (k url : Text)
      → read_at P after k ≡ read_at P db k
      → Shows db k url
      → Shows after k url
  Shows-kept db after k url same (blob, n, u, r, normal) = (blob, n, u, same ∙ r, normal)

  -- A change within a path, whose URLs are released, and nothing else, keeps the rest coherent.
  Coherent-invalidate :
      (path : Text) (b : Backend P) (db : Db P)
      → Coherent b
      → WellFormed P db
      → ((k : Text)
          → normalize_path k ≡ k
          → path_is_within k path ≡ false
          → read_at P db k ≡ read_at P b.db k)
      → (k url : Text) → lookup (invalidate path b.urls).urls k ≡ some url
      → Shows db k url
  Coherent-invalidate path b db c w same k url e =
      let before = lookup-invalidate_held path b.urls k url e in
      let (blob, n, u, r, normal) = c.shows k url before in
      let outside : path_is_within k path ≡ false =
        ground (arith, e, lookup-invalidate path b.urls k normal) in
      (blob, n, u, same k normal outside ∙ r, normal)

  read_blob-eq-ok :
      (failure : Option Failure) (path : Text) (db after : Db P) (blob : Blob)
      → read_blob P failure path db ≡ (ok blob, after)
      → (after ≡ db) × (read_at P db (normalize_path path) ≡ ok blob)
  unfolding read_blob run blob_of read_at read_node read_id
  read_blob-eq-ok (some f) path db after blob e = cc
  read_blob-eq-ok none path db after blob e = ground (arith, e)

  read_blob-eq-err :
      (failure : Option Failure) (path : Text) (db after : Db P) (x : Error)
      → read_blob P failure path db ≡ (err x, after)
      → after ≡ db
  unfolding read_blob run blob_of
  read_blob-eq-err (some f) path db after x e = cc
  read_blob-eq-err none path db after x e = ground (arith, e)

  write_file-eq-err :
      (failure : Option Failure) (now : ℕ) (path : Text) (blob : Blob) (ct : Option Text)
      (db : Db P) (e : Error) (after : Db P)
      → write_file P failure now path blob ct db ≡ (err e, after)
      → after ≡ db
  unfolding write_file
  write_file-eq-err failure now path blob ct db e after q =
      checked-eq-err P (require_writable_path path) (λ t d. write_body P now t blob ct d) failure db
        e after q

  make_directory-eq-err :
      (failure : Option Failure) (now : ℕ) (path : Text) (db : Db P) (e : Error) (after : Db P)
      → make_directory P failure now path db ≡ (err e, after)
      → after ≡ db
  unfolding make_directory
  make_directory-eq-err failure now path db e after q =
      checked-eq-err P (require_writable_path path) (λ t d. make_body P now t d) failure db e after
        q

  remove-eq-err :
      (failure : Option Failure) (path : Text) (db : Db P) (e : Error) (after : Db P)
      → remove P failure (path ∷ []) db ≡ (err e, after)
      → after ≡ db
  unfolding remove
  remove-eq-err failure path db e after q =
      checked-eq-err P (require_all P (path ∷ [])) (λ ts d. remove_all P ts d) failure db e after q

-- The path of a new directory.
unfoldable pub made_path : RunActionParams → Text
made_path params =
    join_path (normalize_path (first_or_empty params.paths)) (trim (text_or_empty params.new_name))

-- The path itself is within the path.
outside-differs :
    (k path : Text)
    → path_is_within k path ≡ false
    → text_eq (normalize_path path) (normalize_path k) ≡ false
unfolding path_is_within
outside-differs k path e = ground (
  arith,
  e,
  text_eq_iff (normalize_path path) (normalize_path k),
  text_eq_iff (normalize_path k) (normalize_path path),
)

module _ (P : Platform) (to_iso : ℕ → Text) (locale_before : Text → Text → Bool)
    (create : ℕ → Blob → Text) (max_entries : ℕ) where
  -- What a call that may return a URL leaves: a coherent backend, whose URL shows the contents.
  abbrev pub Shown : Text → Reply Text × Backend P → Type 0
  Shown target (thrown e, b) = Coherent P create b
  Shown target (returned url, b) = Coherent P create b × Shows P create b.db target url

  read_url-Shown :
      (failure : Option Failure) (target : Text) (b : Backend P)
      → normalize_path target ≡ target
      → Coherent P create b
      → Shown target (
          read_url P to_iso locale_before create max_entries target
            (read_blob P failure target b.db)
            b)
  unfolding read_url set
  read_url-Shown failure target b normal c = go (read_blob P failure target b.db) refl
    where
      go :
          (r : Result Blob × Db P)
          → read_blob P failure target b.db ≡ r
          → Shown target (read_url P to_iso locale_before create max_entries target r b)
      go (err e, db) q =
          let same = read_blob-eq-err P create failure target b.db db e q in
          record {
            well = subst (WellFormed P) (sym same) c.well;
            shows = λ k url h. subst (λ d. Shows P create d k url) (sym same) (c.shows k url h);
          }
      go (ok blob, db) q =
          let (same, read) = read_blob-eq-ok P create failure target b.db db blob q in
          let now : Shows P create db target (create (length b.urls.created) blob) = (
            blob,
            length b.urls.created,
            refl,
            ap (λ d. read_at P d target) same ∙ ap (read_at P b.db) (sym normal) ∙ read,
            normal,
          ) in
          (
            record {
              well = subst (WellFormed P) (sym same) c.well;
              shows = λ k url h. elim (lookup-set create max_entries target blob b.urls k url h) [
                | inl (at, made) ↦
                    subst (λ x. Shows P create db x url) (sym (at ∙ normal))
                      (subst (λ u. Shows P create db target u) (sym made) now)
                | inr before ↦ subst (λ d. Shows P create d k url) (sym same) (c.shows k url before)
              ];
            },
            now,
          )

  pub download_url-Shown :
      (failure : Option Failure) (path : Text) (b : Backend P)
      → Coherent P create b
      → Shown
          (normalize_path path)
          (download_url P to_iso locale_before create max_entries failure path b)
  unfolding download_url
  download_url-Shown failure path b c = go (get target b.urls) refl
    where
      target : Text
      target = normalize_path path

      go :
          (held : Option Text × BlobUrlCache)
          → get (normalize_path path) b.urls ≡ held
          → Shown (normalize_path path) (elim held.0 as (λ x. Reply Text × Backend P) [
            | some url ↦ (returned url, record b { urls = held.1 })
            | none ↦
                read_url P to_iso locale_before create max_entries
                  (normalize_path path)
                  (read_blob P failure (normalize_path path) b.db)
                  b
          ])
      go (none, urls) q =
          read_url-Shown failure (normalize_path path) b (normalize_path_idem path).1 c
      go (some url, urls) q =
          let (first, others) = lookup-get (normalize_path path) b.urls in
          let found : lookup b.urls.urls (normalize_path path) ≡ some url =
            sym (ap (lookup b.urls.urls) (normalize_path_idem path).1)
            ∙ sym first
            ∙ ap (λ (x : Option Text × BlobUrlCache). x.0) q in
          (
            record {
              well = c.well;
              shows = λ k u h. c.shows k u (
                  sym (others k)
                  ∙ ap (λ (x : Option Text × BlobUrlCache). lookup x.1.urls k) q
                  ∙ h);
            },
            c.shows (normalize_path path) url found,
          )

  Coherent-unchanged :
      (b : Backend P) (db : Db P)
      → db ≡ b.db
      → Coherent P create b
      → Coherent P create (record b { db = db })
  Coherent-unchanged b db same c = record {
    well = subst (WellFormed P) (sym same) c.well;
    shows = λ k url h. subst (λ d. Shows P create d k url) (sym same) (c.shows k url h);
  }

  finish_upload-Coherent :
      (failure : Option Failure) (now : ℕ) (file : Blob) (dest_path : Text) (b : Backend P)
      → All IsBounded (path_segments dest_path)
      → Coherent P create b
      → Coherent P create
          (finish_upload P to_iso locale_before create max_entries dest_path file
            (write_file P failure now dest_path file (truthy (some file.mime)) b.db)
            b).1
  unfolding finish_upload notify_changed
  finish_upload-Coherent failure now file dest_path b bounded c =
      go (write_file P failure now dest_path file (truthy (some file.mime)) b.db) refl
    where
      go :
          (r : Result Node × Db P)
          → write_file P failure now dest_path file (truthy (some file.mime)) b.db ≡ r
          → Coherent P create
              (finish_upload P to_iso locale_before create max_entries dest_path file r b).1
      go (err e, db) q =
          Coherent-unchanged b db
            (write_file-eq-err P create failure now dest_path file (truthy (some file.mime)) b.db e
              db q)
            c
      go (ok node, db) q =
          let well : WellFormed P db =
            subst (λ (r : Result Node × Db P). WellFormed P r.1) q
              (write_file-WellFormed P failure now dest_path b.db c.well bounded file
                (truthy (some file.mime))) in
          record {
            well = well;
            shows = Coherent-invalidate P create dest_path b db c well (λ k normal outside.
                ap (read_at P db) (sym normal)
                ∙ sym (read_blob_lem P k db)
                ∙ read_blob-write_file P failure now dest_path file (truthy (some file.mime)) b.db
                    node db c.well bounded q k
                ∙ ap (λ t. if t then ok file else (read_blob P none k b.db).0)
                    (outside-differs k dest_path outside)
                ∙ read_blob_lem P k b.db
                ∙ ap (read_at P b.db) normal);
          }

  pub upload-Coherent :
      (failure : Option Failure) (now : ℕ) (aborted_before aborted_after : Bool) (file : Blob)
      (dest_path : Text) (b : Backend P)
      → All IsBounded (path_segments dest_path)
      → Coherent P create b
      → Coherent P create
          (upload P to_iso locale_before create max_entries failure now aborted_before aborted_after
            file dest_path b).1
  unfolding upload
  upload-Coherent failure now true after file dest_path b bounded c = c
  upload-Coherent failure now false true file dest_path b bounded c = record {
    well = c.well;
    shows = c.shows;
  }
  upload-Coherent failure now false false file dest_path b bounded c =
      finish_upload-Coherent failure now file dest_path _ bounded
        (record { well = c.well; shows = c.shows })

  delete_one-Coherent :
      (failure : Option Failure) (path : Text) (b : Backend P)
      → Coherent P create b
      → Coherent P create
          (delete_one P to_iso locale_before create max_entries path
            (remove P failure (path ∷ []) b.db)
            b).1
  unfolding delete_one
  delete_one-Coherent failure path b c = go (remove P failure (path ∷ []) b.db) refl
    where
      go :
          (r : Result (Unit {0}) × Db P)
          → remove P failure (path ∷ []) b.db ≡ r
          → Coherent P create (delete_one P to_iso locale_before create max_entries path r b).1
      go (err e, db) q = Coherent-unchanged b db (remove-eq-err P create failure path b.db e db q) c
      go (ok u, db) q =
          let well : WellFormed P db =
            subst (λ (r : Result (Unit {0}) × Db P). WellFormed P r.1) q
              (remove-WellFormed P failure (path ∷ []) b.db c.well) in
          record {
            well = well;
            shows =
                Coherent-invalidate P create path b db c well
                  (λ k normal outside. read_at-remove P failure path b.db db k c.well q outside);
          }

  pub delete_paths-Coherent :
      (failure : Text → Option Failure) (paths changed : List Text) (b : Backend P)
      → Coherent P create b
      → Coherent P create
          (delete_paths P to_iso locale_before create max_entries failure paths changed b).1
  unfolding delete_paths notify_changed
  delete_paths-Coherent failure [] changed b c = record { well = c.well; shows = c.shows }
  delete_paths-Coherent failure (path ∷ paths) changed b c =
      go
        (delete_one P to_iso locale_before create max_entries path
          (remove P (failure path) (path ∷ []) b.db) b)
        (delete_one-Coherent (failure path) path b c)
        (delete_paths-Coherent failure paths (add_name changed (path_parent path)))
    where
      go :
          (round : Reply (Unit {0}) × Backend P)
          → Coherent P create round.1
          → ((b' : Backend P)
              → Coherent P create b'
              → Coherent P create
                  (delete_paths P to_iso locale_before create max_entries failure paths
                    (add_name changed (path_parent path))
                    b').1)
          → Coherent P create
              (elim round.0 as (λ x. Reply (Unit {0}) × Backend P) [
                | thrown e ↦ (thrown e, round.1)
                | returned u ↦
                    delete_paths P to_iso locale_before create max_entries failure paths
                      (add_name changed (path_parent path))
                      round.1
              ]).1
      go (thrown e, b') h later = h
      go (returned u, b') h later = later b' h

  finish_mkdir-Coherent :
      (failure : Option Failure) (now : ℕ) (parent path : Text) (b : Backend P)
      → All IsBounded (path_segments path)
      → Coherent P create b
      → Coherent P create
          (finish_mkdir P to_iso locale_before create max_entries parent
            (make_directory P failure now path b.db)
            b).1
  unfolding finish_mkdir notify_changed
  finish_mkdir-Coherent failure now parent path b bounded c =
      go (make_directory P failure now path b.db) refl
    where
      go :
          (r : Result Node × Db P)
          → make_directory P failure now path b.db ≡ r
          → Coherent P create (finish_mkdir P to_iso locale_before create max_entries parent r b).1
      go (err e, db) q =
          Coherent-unchanged b db (make_directory-eq-err P create failure now path b.db e db q) c
      go (ok node, db) q = record {
        well =
            subst (λ (r : Result Node × Db P). WellFormed P r.1) q
              (make_directory-WellFormed P failure now path b.db c.well bounded);
        shows = λ k url h.
            Shows-kept P create b.db db k url
              (read_at-make_directory P failure now path b.db node db k c.well bounded q)
              (c.shows k url h);
      }

  pub make_dir-Coherent :
      (failure : Option Failure) (now : ℕ) (params : RunActionParams) (b : Backend P)
      → All IsBounded (path_segments (made_path params))
      → Coherent P create b
      → Coherent P create
          (make_dir P to_iso locale_before create max_entries failure now params b).1
  unfolding make_dir made_path
  make_dir-Coherent failure now params b bounded c =
      go (is_empty (trim (text_or_empty params.new_name)))
    where
      go :
          (t : Bool)
          → Coherent P create
              (if t
                then (thrown (fs_error invalid_name), b)
                else finish_mkdir P to_iso locale_before create max_entries
                    (normalize_path (first_or_empty params.paths))
                    (make_directory P failure now (made_path params) b.db)
                    b).1
      go true = c
      go false =
          finish_mkdir-Coherent failure now (normalize_path (first_or_empty params.paths))
            (made_path params) b bounded c
