-- ===== src/BrowserFs/Store/Methods.antt =====
-- What the methods of `BrowserFsStore` do to a well-formed tree, on every branch.
pub mod Trees
pub mod Contents
pub mod Reads
pub mod Overwrite
pub mod Removed
pub mod Replaced
use zfiles.Common.{
  ℕ, suc, ◌<◌, ◌≡◌, refl, ap, ◌∙◌, sym, subst, ◌≢◌, ◌⊎◌, inl, inr, Bool, true, false, not, ◌||◌,
  List, [], ◌∷◌, ◌++◌, Option, none, some, Text, is_empty, text_eq, text_eq_iff, text_eq_refl,
  arith, Bool-cases, Option-cases, if◌then◌else◌, All, any, join, append-nil, append_assoc, length,
  length-append, ◌+◌,
}
use zfiles.BrowserFs.Paths.{
  slash, path_segments, path_parent, normalize_path, is_valid_path, path_is_within, init,
}
use zfiles.BrowserFs.Paths.Segments.{
  normalize_path_lem, path_segments-normalize_path, path_segments-IsSegment,
}
use zfiles.BrowserFs.Paths.Laws.{path_segments-path_parent, All-init, init-last}
use zfiles.BrowserFs.Paths.Within.{IsPrefix}
use zfiles.BrowserFs.Store.Types.{
  Node, Blob, BlobRecord, Platform, Db, Failure, Result, ok, err, Error, invalid_name, ◌>>=◌,
  >>=-eq-ok, ok-injective, require_writable_path, truthy,
}
use zfiles.BrowserFs.Store.Requests.{
  get_node, run, ensure_directory, put_directory, directory_node, delete_subtree,
}
use zfiles.BrowserFs.Store.Operations.{
  checked, make_body, make_directory, write_body, write_file, put_file, file_node, remove,
  remove_all, require_all, blob_size,
}
use zfiles.BrowserFs.Store.Invariant.{IsPath, IsBounded, get_record, IsFolder, WellFormed}
use zfiles.BrowserFs.Store.Invariant.Ensure.{Ensured, ensure_directory-Ensured}
use zfiles.BrowserFs.Store.Invariant.Directories.{put_directory-WellFormed}
use zfiles.BrowserFs.Store.Invariant.Files.{Writes, Writes-WellFormed, is_old}
use zfiles.BrowserFs.Store.Invariant.Subtrees.{delete_subtree-WellFormed, get_node-delete_subtree}

-- The path that a write works on.
pub require_writable_path-normalize_path :
    (path target : Text)
    → require_writable_path path ≡ ok target
    → (is_empty target ≡ false) × (target ≡ normalize_path path)
unfolding require_writable_path
require_writable_path-normalize_path path target e = ground arith

pub require_writable_path-IsPath :
    (path target : Text)
    → All IsBounded (path_segments path)
    → require_writable_path path ≡ ok target
    → IsPath target
require_writable_path-IsPath path target h e =
    let (nonempty, same) = require_writable_path-normalize_path path target e in
    let segments : path_segments target ≡ path_segments path =
      ap path_segments same ∙ path_segments-normalize_path path in
    let normal : join slash (path_segments target) ≡ target =
      ap (join slash) segments ∙ sym (normalize_path_lem path) ∙ sym same in
    record {
      named = λ q. let empty : target ≡ [] = sym normal ∙ ap (join slash) q in cc (nonempty, empty);
      normal = normal;
      bounded = subst (All IsBounded) (sym segments) h;
    }

path_parent-IsBounded : (p : Text) → IsPath p → All IsBounded (path_segments (path_parent p))
path_parent-IsBounded p h =
    subst (All IsBounded) (sym (path_segments-path_parent p))
      (All-init IsBounded (path_segments p) h.bounded)

path_parent-normal : (p : Text) → join slash (path_segments (path_parent p)) ≡ path_parent p
path_parent-normal p = ap (join slash) (path_segments-path_parent p) ∙ unfold path_parent in refl

-- A path is not on the way to its own parent.
not-IsPrefix-path_parent :
    (p : Text) → IsPath p → ¬ IsPrefix (path_segments p) (path_segments (path_parent p))
not-IsPrefix-path_parent p h (zs, e) = go (path_segments p) refl h.named
  where
    go : (xs : List Text) → path_segments p ≡ xs → xs ≢ [] → ⊥
    go [] q ne = ne refl
    go (x ∷ xs) q ne =
        let short : length (init (x ∷ xs)) ≡ length (path_segments p) + length zs =
          ap length (sym (ap init q) ∙ sym (path_segments-path_parent p) ∙ e)
          ∙ length-append (path_segments p) zs in
        let whole : length (init (x ∷ xs)) + 1 ≡ length (x ∷ xs) =
          sym (length-append (init (x ∷ xs)) (_ ∷ [])) ∙ ap length (init-last x xs) in
        omega (arith, short, whole, ap length q)

module _ (P : Platform) where
  run_inv :
      {B : Type 0} (Q : Db P → Type 0) (body : Db P → Result (B × Db P)) (db : Db P)
      (r : Result (B × Db P))
      → body db ≡ r
      → Q db
      → ((b : B) (after : Db P) → body db ≡ ok (b, after) → Q after)
      → Q (run P none body db).1
  unfolding run
  run_inv Q body db (ok (b, after)) e q f = rw (e, run) (f b after e)
  run_inv Q body db (err x) e q f = rw (e, run) q

  -- A property of the stores that the body keeps is kept by the call: a failed call changes nothing.
  checked_inv :
      {A B : Type 0} (Q : Db P → Type 0) (m : Result A) (body : A → Db P → Result (B × Db P))
      (failure : Option Failure) (db : Db P)
      → Q db
      → ((a : A) (b : B) (after : Db P) → m ≡ ok a → body a db ≡ ok (b, after) → Q after)
      → Q (checked P m body failure db).1
  checked_inv Q (err e) body failure db q f = q
  checked_inv Q (ok a) body (some x) db q f = unfold run in q
  checked_inv Q (ok a) body none db q f =
      run_inv Q (body a) db (body a db) refl q (λ b after. f a b after refl)
