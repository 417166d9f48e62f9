-- ===== src/BrowserFs/Store/Methods/Trees.antt =====
-- Every method of `BrowserFsStore` that writes, but the transfers, keeps the tree well formed.
use zfiles.Common.{
  ℕ, ◌≡◌, refl, ap, ◌∙◌, sym, subst, inl, inr, false, List, [], ◌∷◌, Option, none, some, Text,
  is_empty, arith, Option-cases, if◌then◌else◌, All, join,
}
use zfiles.BrowserFs.Paths.{slash, path_segments, path_parent}
use zfiles.BrowserFs.Paths.Within.{IsPrefix}
use zfiles.BrowserFs.Store.Types.{
  Node, Blob, Platform, Db, Failure, Result, ok, err, >>=-eq-ok, ok-injective,
  require_writable_path, already_exists, not_found, truthy,
}
use zfiles.BrowserFs.Store.Requests.{get_node, ensure_directory, put_directory, delete_subtree}
use zfiles.BrowserFs.Store.Operations.{
  make_body, make_directory, write_body, write_file, put_file, file_node, remove, remove_all,
  remove_one, require_all, old_blob, clear_blob,
}
use zfiles.BrowserFs.Store.Invariant.{IsPath, IsBounded, get_record, IsFolder, WellFormed}
use zfiles.BrowserFs.Store.Invariant.Ensure.{Ensured, ensure_directory-Ensured}
use zfiles.BrowserFs.Store.Invariant.Directories.{put_directory-WellFormed}
use zfiles.BrowserFs.Store.Invariant.Files.{Writes, Writes-WellFormed, is_old}
use zfiles.BrowserFs.Store.Invariant.Subtrees.{delete_subtree-WellFormed}
use zfiles.BrowserFs.Store.Methods.{
  require_writable_path-IsPath, path_parent-IsBounded, path_parent-normal, not-IsPrefix-path_parent,
  checked_inv,
}

module _ (P : Platform) (now : ℕ) (target : Text) (is : IsPath target) (db ready : Db P)
    (w : WellFormed P db) (e : ensure_directory P now (path_parent target) db ≡ ok ready) where
  pub parent-Ensured : Ensured P db (join slash (path_segments (path_parent target))) ready
  parent-Ensured =
      ensure_directory-Ensured P now (path_parent target) db ready w
        (path_parent-IsBounded target is) e

  pub parent-IsFolder : IsFolder P ready (path_parent target)
  parent-IsFolder = subst (IsFolder P ready) (path_parent-normal target) parent-Ensured.there

  -- Making the directories above a path does not put one at the path.
  pub get_node-ready : get_node P ready target ≡ get_node P db target
  get_node-ready = elim (parent-Ensured.adds target) [
    | inl same ↦ same
    | inr (n, _, _, _, _, pre) ↦ absurd (
        not-IsPrefix-path_parent target is (
          subst (λ q. IsPrefix (path_segments target) (path_segments q)) (path_parent-normal target)
            pre))
  ]

  make_ready-WellFormed :
      get_node P db target ≡ none → WellFormed P (put_directory P now target ready)
  make_ready-WellFormed free =
      put_directory-WellFormed P now target ready parent-Ensured.well (get_node-ready ∙ free) is
        parent-IsFolder

truthy→eq : (o : Option Text) (k : Text) → truthy o ≡ some k → o ≡ some k
truthy→eq none k h = h
truthy→eq (some []) k h = cc
truthy→eq (some (c ∷ s)) k h = h

truthy_of_nonempty : (o : Option Text) (k : Text) → o ≡ some k → is_empty k ≡ false → o ≡ truthy o
truthy_of_nonempty none k e h = refl
truthy_of_nonempty (some []) [] e h = cc
truthy_of_nonempty (some []) (c ∷ s) e h = cc
truthy_of_nonempty (some (c ∷ s)) k e h = refl

module _ (P : Platform) (now : ℕ) (target : Text) (blob : Blob) (content_type : Option Text)
    (db : Db P) (w : WellFormed P db) (existing : Option Node)
    (at : get_node P db target ≡ existing)
    (file : (n : Node) → existing ≡ some n → n.is_dir ≡ false) where
  abbrev pub wrote : Node × Db P
  wrote = put_file P now target blob content_type existing db

  get_record-clear_blob :
      (old : Option Text) (k : Text)
      → P.Blobs.get (clear_blob P old db) k ≡ (if is_old old k then none else get_record P db k)
  get_record-clear_blob none k = refl
  get_record-clear_blob (some o) k = P.Blobs.get-delete db.blobs o k

  replaced_file :
      (n : Node)
      → get_node P db target ≡ some n
      → (n.is_dir ≡ false) × (n.blob_id ≡ old_blob existing)
  replaced_file n e =
      let f = file n (sym at ∙ e) in
      let (id, _, b, ne, _, _) = (w.placed target n e).stored f in
      (f, truthy_of_nonempty n.blob_id id b ne ∙ ap old_blob (sym e ∙ at))

  old_owner :
      (o : Option Node) (k : Text)
      → get_node P db target ≡ o
      → old_blob o ≡ some k
      → (n : Node) × (get_node P db target ≡ some n) × (n.blob_id ≡ some k)
  old_owner none k e q = cc
  old_owner (some n) k e q = (n, e, truthy→eq n.blob_id k q)

  pub put_file-Writes : Writes P db wrote.1 target (old_blob existing) wrote.0 blob
  unfolding put_file file_node
  put_file-Writes = record {
    nodes = λ k. P.Nodes.get-put db.nodes wrote.0 k;
    blobs = λ k. ground (
      arith,
      P.Blobs.get-put (clear_blob P (old_blob existing) db)
          (record { id = P.create_id db.issued; blob = blob }) k,
      get_record-clear_blob (old_blob existing) k,
    );
    issued = refl;
    new_file = (refl, refl, refl);
    new_place = (refl, refl);
    replaced = replaced_file;
    owner = λ o q. old_owner existing o at q;
  }

  put_file-WellFormed : IsPath target → IsFolder P db (path_parent target) → WellFormed P wrote.1
  put_file-WellFormed =
      Writes-WellFormed P db wrote.1 target (old_blob existing) wrote.0 blob w put_file-Writes

-- A successful `writeFile` is a directory made ready and a file put into it.
pub record Wrote (P : Platform) (now : ℕ) (target : Text) (blob : Blob) (ct : Option Text)
    (db : Db P) (node : Node) (after : Db P) : Type 0 where
  pub ready : Db P
  pub made : ensure_directory P now (path_parent target) db ≡ ok ready
  pub existing : Option Node
  pub at : get_node P ready target ≡ existing
  pub file : (n : Node) → existing ≡ some n → n.is_dir ≡ false
  pub put : put_file P now target blob ct existing ready ≡ (node, after)

pub write_body-Wrote :
    (P : Platform) (now : ℕ) (target : Text) (blob : Blob) (ct : Option Text) (db : Db P)
    (node : Node) (after : Db P)
    → write_body P now target blob ct db ≡ ok (node, after)
    → Wrote P now target blob ct db node after
unfolding write_body
write_body-Wrote P now target blob ct db node after e =
    let (ready, made, e') = >>=-eq-ok (ensure_directory P now (path_parent target) db) _ e in
    go ready made (get_node P ready target) refl e'
  where
    finish : Db P → Option Node → Result (Node × Db P)
    finish ready o = elim o [
      | none ↦ ok (put_file P now target blob ct none ready)
      | some n ↦
          if n.is_dir then err already_exists else ok (put_file P now target blob ct (some n) ready)
    ]

    go :
        (ready : Db P)
        → ensure_directory P now (path_parent target) db ≡ ok ready
        → (o : Option Node) → get_node P ready target ≡ o
        → finish ready o ≡ ok (node, after)
        → Wrote P now target blob ct db node after
    go ready made none at q = record {
      ready = ready;
      made = made;
      existing = none;
      at = at;
      file = λ n h. cc;
      put = ok-injective q;
    }
    go ready made (some m) at q = record {
      ready = ready;
      made = made;
      existing = some m;
      at = at;
      file = λ n h. ground arith;
      put = ground arith;
    }

-- A successful `makeDirectory` is the parent made ready and a directory put where nothing was.
pub make_body-cases :
    (P : Platform) (now : ℕ) (target : Text) (db : Db P) (node : Node) (after : Db P)
    → make_body P now target db ≡ ok (node, after)
    → (ready : Db P) × (get_node P db target ≡ none)
      × (ensure_directory P now (path_parent target) db ≡ ok ready)
      × (after ≡ put_directory P now target ready)
unfolding make_body
make_body-cases P now target db node after e = go (get_node P db target) refl
  where
    go :
        (o : Option Node)
        → get_node P db target ≡ o
        → (ready : Db P) × (get_node P db target ≡ none)
          × (ensure_directory P now (path_parent target) db ≡ ok ready)
          × (after ≡ put_directory P now target ready)
    go (some n) at =
        let q : err already_exists ≡ ok (node, after) = sym (rw (at, make_body)) ∙ e in cc q
    go none at =
        let (ready, made, q) =
          >>=-eq-ok (ensure_directory P now (path_parent target) db) _ (rw (at, make_body) at e) in
        (ready, at, made, cc q)

pub remove_one-cases :
    (P : Platform) (target : Text) (db mid : Db P)
    → remove_one P target db ≡ ok mid
    → (n : Node) × (get_node P db target ≡ some n) × (mid ≡ delete_subtree P target db)
unfolding remove_one
remove_one-cases P target db mid e = elim (Option-cases (get_node P db target)) [
  | inl nothing ↦ let q : err not_found ≡ ok mid = sym (rw (nothing, remove_one)) ∙ e in cc q
  | inr (n, at) ↦ (n, at, sym (ok-injective (sym (rw (at, remove_one)) ∙ e)))
]

remove_all-WellFormed :
    (P : Platform) (targets : List Text) (db : Db P) (u : Unit {0}) (after : Db P)
    → WellFormed P db
    → remove_all P targets db ≡ ok (u, after)
    → WellFormed P after
unfolding remove_all remove_one
remove_all-WellFormed P [] db u after w e = subst (WellFormed P) (cc e) w
remove_all-WellFormed P (target ∷ targets) db u after w e =
    let (mid, e₁, e₂) = >>=-eq-ok (remove_one P target db) (remove_all P targets) e in
    remove_all-WellFormed P targets mid u after
      (let (n, at, same) = remove_one-cases P target db mid e₁ in
        subst (WellFormed P) (sym same) (delete_subtree-WellFormed P db w target n at))
      e₂

module _ (P : Platform) (failure : Option Failure) (now : ℕ) (path : Text) (db : Db P)
    (w : WellFormed P db) (bounded : All IsBounded (path_segments path)) where
  -- `makeDirectory` keeps the tree well formed, whether it succeeds or fails.
  pub make_directory-WellFormed : WellFormed P (make_directory P failure now path db).1
  unfolding make_directory
  make_directory-WellFormed =
      checked_inv P (WellFormed P) (require_writable_path path) _ failure db w
        λ target node after r e.
          let is = require_writable_path-IsPath path target bounded r in
          let (ready, free, made, same) = make_body-cases P now target db node after e in
          subst (WellFormed P) (sym same)
            (make_ready-WellFormed P now target is db ready w made free)

  -- `writeFile` keeps the tree well formed, whether it succeeds or fails.
  pub write_file-WellFormed :
      (blob : Blob) (content_type : Option Text)
      → WellFormed P (write_file P failure now path blob content_type db).1
  unfolding write_file
  write_file-WellFormed blob content_type =
      checked_inv P (WellFormed P) (require_writable_path path) _ failure db w
        λ target node after r e.
          let is = require_writable_path-IsPath path target bounded r in
          let h = write_body-Wrote P now target blob content_type db node after e in
          let up = parent-IsFolder P now target is db h.ready w h.made in
          let well = (parent-Ensured P now target is db h.ready w h.made).well in
          subst (λ (x : Node × Db P). WellFormed P x.1) h.put
            (put_file-WellFormed P now target blob content_type h.ready well h.existing h.at h.file
              is up)

-- `remove` keeps the tree well formed, whether it succeeds or fails.
pub remove-WellFormed :
    (P : Platform) (failure : Option Failure) (paths : List Text) (db : Db P)
    → WellFormed P db
    → WellFormed P (remove P failure paths db).1
unfolding remove
remove-WellFormed P failure paths db w =
    checked_inv P (WellFormed P) (require_all P paths) _ failure db w
      λ targets u after r e. remove_all-WellFormed P targets db u after w e
