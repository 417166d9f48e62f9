-- ===== src/BrowserFs/Store/Methods/Removed.antt =====
-- What is read after a removal or a new directory, and after a call that fails.
use zfiles.Common.{
  ℕ, join, All, text_eq, text_eq_iff, ◌≡◌, refl, ap, ◌∙◌, sym, subst, inl, inr, false, [], ◌∷◌,
  Option, none, some, Text, arith, if◌then◌else◌, Bool-cases, Option-cases,
}
use zfiles.BrowserFs.Paths.{slash, path_segments, path_parent, path_is_within}
use zfiles.BrowserFs.Paths.Within.{path_is_within-normalize_path}
use zfiles.BrowserFs.Store.Types.{
  Node, Platform, Db, Failure, Result, ok, err, Error, >>=-eq-ok, ok-injective,
  require_writable_path,
}
use zfiles.BrowserFs.Store.Requests.{get_node, put_directory, directory_node, delete_subtree, run}
use zfiles.BrowserFs.Store.Operations.{
  make_directory, make_body, remove, remove_all, remove_one, require_all, checked,
}
use zfiles.BrowserFs.Store.Invariant.{WellFormed, IsBounded, get_record}
use zfiles.BrowserFs.Store.Invariant.Subtrees.{
  delete_subtree-WellFormed, get_node-delete_subtree, get_record-left,
}
use zfiles.BrowserFs.Store.Methods.{
  require_writable_path-normalize_path, require_writable_path-IsPath,
}
use zfiles.BrowserFs.Store.Methods.Trees.{
  remove_one-cases, make_body-cases, get_node-ready, parent-Ensured,
}
use zfiles.BrowserFs.Store.Methods.Contents.{checked-eq-ok}
use zfiles.BrowserFs.Store.Methods.Reads.{
  read_at, read_at_missing, read_at_file, stored_at, read_at-Ensured, read_node,
}

module _ (P : Platform) where
  -- A node that stays, in stores whose contents were all there before, is read as before.
  read_at-kept :
      (db after : Db P) (p : Text)
      → WellFormed P db
      → WellFormed P after
      → get_node P after p ≡ get_node P db p
      → ((id : Text) (r : _) → get_record P after id ≡ some r → get_record P db id ≡ some r)
      → read_at P after p ≡ read_at P db p
  read_at-kept db after p w w' same left = elim (Option-cases (get_node P db p)) [
    | inl free ↦
        read_at_missing P after p (inl (same ∙ free)) ∙ sym (read_at_missing P db p (inl free))
    | inr (n, at) ↦ elim (Bool-cases n.is_dir) [
      | inl d ↦
          read_at_missing P after p (inr (n, same ∙ at, d))
          ∙ sym (read_at_missing P db p (inr (n, at, d)))
      | inr f ↦
          let (id, r, b, t, h) = stored_at P after p n w' (same ∙ at) f in
          read_at_file P after p n id r (same ∙ at) f t h
          ∙ sym (read_at_file P db p n id r at f t (left id r h))
    ]
  ]

  pub read_at-delete_subtree :
      (db : Db P) (target : Text) (n : Node) (p : Text)
      → WellFormed P db
      → get_node P db target ≡ some n
      → path_is_within p target ≡ false
      → read_at P (delete_subtree P target db) p ≡ read_at P db p
  read_at-delete_subtree db target n p w at away =
      read_at-kept db (delete_subtree P target db) p w
        (delete_subtree-WellFormed P db w target n at)
        (get_node-delete_subtree P db w target n at p
          ∙ ap (λ b. if b then none else get_node P db p) away)
        (get_record-left P db w target n at)

  -- After a path is removed, every path that is not within it is read as before.
  pub read_at-remove :
      (failure : Option Failure) (path : Text) (db after : Db P) (p : Text)
      → WellFormed P db
      → remove P failure (path ∷ []) db ≡ (ok tt, after)
      → path_is_within p path ≡ false
      → read_at P after p ≡ read_at P db p
  unfolding remove remove_all require_all
  read_at-remove failure path db after p w e away =
      let (targets, e₁, e₂) = checked-eq-ok P (require_all P (path ∷ [])) _ failure db tt after e in
      let (t, e₃, e₄) = >>=-eq-ok (require_writable_path path) _ e₁ in
      let only : t ∷ [] ≡ targets = ok-injective e₄ in
      let (mid, e₅, e₆) =
        >>=-eq-ok (remove_one P t db) (remove_all P [])
          (subst (λ ts. remove_all P ts db ≡ ok (tt, after)) (sym only) e₂) in
      let (n, at, same) = remove_one-cases P t db mid e₅ in
      let (_, normal) = require_writable_path-normalize_path path t e₃ in
      let last : mid ≡ after = cc e₆ in
      let apart : path_is_within p t ≡ false =
        ap (path_is_within p) normal ∙ path_is_within-normalize_path p path ∙ away in
      ap (λ d. read_at P d p) (sym last ∙ same) ∙ read_at-delete_subtree db t n p w at apart

  -- A call that fails leaves the stores as they were.
  pub checked-eq-err :
      {A B : Type 0} (m : Result A) (body : A → Db P → Result (B × Db P)) (failure : Option Failure)
      (db : Db P) (e : Error) (after : Db P)
      → checked P m body failure db ≡ (err e, after)
      → after ≡ db
  unfolding run
  checked-eq-err (err x) body failure db e after h = cc
  checked-eq-err (ok a) body (some f) db e after h = cc
  checked-eq-err {B = B} (ok a) body none db e after h = go (body a db) refl
    where
      go : (r : Result (B × Db P)) → body a db ≡ r → after ≡ db
      go (ok x) q = let w : (ok x.0, x.1) ≡ (err e, after) = sym (rw (q, run)) ∙ h in cc w
      go (err x) q = let w : (err x, db) ≡ (err e, after) = sym (rw (q, run)) ∙ h in cc w

  read_at-put_directory :
      (now : ℕ) (target : Text) (db : Db P) (p : Text)
      → get_node P db target ≡ none
      → read_at P (put_directory P now target db) p ≡ read_at P db p
  unfolding put_directory read_at directory_node
  read_at-put_directory now target db p free = elim (Bool-cases (text_eq target p)) [
    | inl t ↦
        read_at_missing P (put_directory P now target db) p (
          inr (
            directory_node now target,
            ground (arith, t, P.Nodes.get-put db.nodes (directory_node now target) p),
            refl,
          ))
        ∙ sym (
            read_at_missing P db p
              (inl (ap (get_node P db) (sym ((text_eq_iff target p).0 t)) ∙ free)))
    | inr t ↦
        ap (read_node P db.blobs)
          (ground (arith, t, P.Nodes.get-put db.nodes (directory_node now target) p))
  ]

  -- A new directory hides no file.
  pub read_at-make_directory :
      (failure : Option Failure) (now : ℕ) (path : Text) (db : Db P) (node : Node) (after : Db P)
      (p : Text)
      → WellFormed P db
      → All IsBounded (path_segments path)
      → make_directory P failure now path db ≡ (ok node, after)
      → read_at P after p ≡ read_at P db p
  unfolding make_directory
  read_at-make_directory failure now path db node after p w bounded e =
      let (target, r, e') =
        checked-eq-ok P (require_writable_path path) (λ t d. make_body P now t d) failure db node
          after e in
      let is = require_writable_path-IsPath path target bounded r in
      let (ready, free, made, same) = make_body-cases P now target db node after e' in
      ap (λ d. read_at P d p) same
      ∙ read_at-put_directory now target ready p
          (get_node-ready P now target is db ready w made ∙ free)
      ∙ read_at-Ensured P (join slash (path_segments (path_parent target))) db ready
          (parent-Ensured P now target is db ready w made) p
