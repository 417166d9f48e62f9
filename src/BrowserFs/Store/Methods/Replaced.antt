-- ===== src/BrowserFs/Store/Methods/Replaced.antt =====
-- `move` of web/src/browserfs/store.ts of one file onto another one.
use zfiles.Common.{
  ℕ, zero, suc, ◌≡◌, ◌≢◌, refl, ap, ◌∙◌, sym, subst, inl, inr, Bool, true, false, not, join, List,
  [], ◌∷◌, ◌++◌, Option, none, some, Text, text_eq_refl, arith, if◌then◌else◌, Bool-cases,
  Option-cases, In, append_assoc, append-nil, append_cancel_left, length, length-append,
  starts_with,
}
use zfiles.BrowserFs.Paths.{
  slash, path_segments, path_parent, normalize_path, path_is_within, init, last_or_empty,
}
use zfiles.BrowserFs.Paths.Laws.{path_segments-path_parent, init-last, init-snoc}
use zfiles.BrowserFs.Paths.Within.{
  path_is_within_iff, path_is_within-normalize_path, starts_with→append,
}
use zfiles.BrowserFs.Store.Types.{
  Node, Platform, Db, Failure, ok, >>=-eq-ok, ok-injective, relocate, require_transfer_paths,
  require_writable_path, Blob, guard, into_descendant,
}
use zfiles.BrowserFs.Store.Requests.{get_node, subtree_nodes, delete_subtree, prepare_transfer}
use zfiles.BrowserFs.Store.Operations.{move, move_body, move_nodes, read_blob}
use zfiles.BrowserFs.Store.Invariant.{WellFormed}
use zfiles.BrowserFs.Store.Invariant.Subtrees.{
  delete_subtree-WellFormed, get_node-delete_subtree, path_is_within-IsPath,
}
use zfiles.BrowserFs.Store.Subtree.{subtree_nodes-below}
use zfiles.BrowserFs.Store.Methods.{require_writable_path-normalize_path}
use zfiles.BrowserFs.Store.Methods.Contents.{checked-eq-ok}
use zfiles.BrowserFs.Store.Methods.Overwrite.{In-nothing}
use zfiles.BrowserFs.Store.Methods.Reads.{
  read_at, read_node, read_blob_lem, read_at_file, stored_at,
}
use zfiles.BrowserFs.Store.Methods.Removed.{read_at-delete_subtree}

init-append_cons :
    (xs : List Text) (z : Text) (zs : List Text) → init (xs ++ (z ∷ zs)) ≡ xs ++ init (z ∷ zs)
init-append_cons xs z zs =
    let l = last_or_empty (z ∷ zs) in
    ap (λ ys. init (xs ++ ys)) (sym (init-last z zs))
    ∙ ap init (sym (append_assoc xs (init (z ∷ zs)) (l ∷ [])))
    ∙ init-snoc (xs ++ init (z ∷ zs)) l

length-init : (z : Text) (zs : List Text) → suc (length (init (z ∷ zs))) ≡ length (z ∷ zs)
length-init z zs =
    omega (
      arith,
      length-append (init (z ∷ zs)) (last_or_empty (z ∷ zs) ∷ []),
      ap length (init-last z zs),
    )

append-eq-nil : (xs ys : List Text) → xs ++ ys ≡ [] → xs ≡ []
append-eq-nil [] ys e = refl
append-eq-nil (x ∷ xs) ys e = cc

ne-file : (d f : Node) → d.is_dir ≡ true → f.is_dir ≡ false → some d ≢ some f
ne-file d f h k e = cc

-- A path does not begin with itself and a slash.
not_below_itself : (p : Text) → starts_with p (p ++ (slash ∷ [])) ≢ true
not_below_itself p h =
    let (r, e) = starts_with→append p (p ++ (slash ∷ [])) h in
    let more : [] ≡ slash ∷ r =
      append_cancel_left p [] (slash ∷ r) (append-nil p ∙ e ∙ append_assoc p (slash ∷ []) r) in
    cc more

module _ (P : Platform) (db : Db P) (w : WellFormed P db) where
  -- Nothing stands below a file.
  file-alone :
      (t : Text) (f : Node)
      → get_node P db t ≡ some f
      → f.is_dir ≡ false
      → (k : ℕ) (p : Text) (n : Node) (zs : List Text) → get_node P db p ≡ some n
      → length zs ≡ k
      → path_segments p ≡ path_segments t ++ zs
      → p ≡ t
  file-alone t f at file k p n [] here l e =
      sym (w.placed p n here).path.normal
      ∙ ap (join slash) (e ∙ append-nil (path_segments t))
      ∙ (w.placed t f at).path.normal
  file-alone t f at file zero p n (z ∷ zs) here l e = absurd (omega arith)
  file-alone t f at file (suc k) p n (z ∷ zs) here l e = elim (w.placed p n here).folder [
    | inl root ↦ absurd (
        (w.placed t f at).path.named (
          append-eq-nil (path_segments t) (init (z ∷ zs)) (
            sym (path_segments-path_parent p ∙ ap init e ∙ init-append_cons (path_segments t) z zs)
            ∙ ap path_segments root
            ∙ unfold path_segments in refl)))
    | inr (d, above, dir) ↦
        let same : path_parent p ≡ t =
          file-alone t f at file k (path_parent p) d (init (z ∷ zs)) above
            (omega (arith, l, length-init z zs))
            (path_segments-path_parent p ∙ ap init e ∙ init-append_cons (path_segments t) z zs) in
        absurd (ne-file d f dir file (sym above ∙ ap (get_node P db) same ∙ at))
  ]

  within-file :
      (t p : Text) (f n : Node)
      → get_node P db t ≡ some f
      → f.is_dir ≡ false
      → get_node P db p ≡ some n
      → path_is_within p t ≡ true
      → p ≡ t
  within-file t p f n at file here inside =
      let (zs, e) = (path_is_within_iff p t).0 inside in
      file-alone t f at file (length zs) p n zs here refl e

  no_descendant :
      (t : Text) (f : Node)
      → get_node P db t ≡ some f
      → f.is_dir ≡ false
      → (m : Node) → ¬ In m (subtree_nodes P db t)
  no_descendant t f at file m i =
      let is = (w.placed t f at).path in
      let (here, below) = subtree_nodes-below P db t m is i in
      let inside : path_is_within m.path t ≡ true =
        ground (arith, below, path_is_within-IsPath m.path t (w.placed m.path m here).path is) in
      not_below_itself t (
        subst (λ q. starts_with q (t ++ (slash ∷ [])) ≡ true)
          (within-file t m.path f m at file here inside) below)

  read_at-eq-ok :
      (p : Text) (b : Blob)
      → read_at P db p ≡ ok b
      → (n : Node) × (get_node P db p ≡ some n) × (n.is_dir ≡ false)
  unfolding read_at read_node
  read_at-eq-ok p b e = elim (Option-cases (get_node P db p)) [
    | inl free ↦ cc (e, free)
    | inr (n, at) ↦ elim (Bool-cases n.is_dir) [
      | inl dir ↦ ground (arith, e, at, dir)
      | inr file ↦ (n, at, file)
    ]
  ]

-- What a transfer onto a node finds and leaves, where it may overwrite it.
prepare_transfer-onto :
    (P : Platform) (from to : Text) (overwrite : Bool) (db : Db P) (n d : Node)
    (ready : Node × Db P)
    → get_node P db from ≡ some n
    → get_node P db to ≡ some d
    → prepare_transfer P from to overwrite db ≡ ok ready
    → ready ≡ (n, delete_subtree P to db)
unfolding prepare_transfer
prepare_transfer-onto P from to overwrite db n d ready at there e = ground (arith, at, there, e)

require_transfer_paths-apart :
    (source dest from to : Text)
    → require_transfer_paths source dest ≡ ok (from, to)
    → (from ≡ normalize_path source) × (to ≡ normalize_path dest) × (path_is_within to from ≡ false)
unfolding require_transfer_paths
require_transfer_paths-apart source dest from to e =
    let (f, e₁, e₂) = >>=-eq-ok (require_writable_path source) _ e in
    let (t, e₃, e₄) = >>=-eq-ok (require_writable_path dest) _ e₂ in
    let (u, e₅, e₆) = >>=-eq-ok (guard (not (path_is_within t f)) into_descendant) _ e₄ in
    let same : (f, t) ≡ (from, to) = ok-injective e₆ in
    (
      sym (ap (λ (x : Text × Text). x.0) same)
          ∙ (require_writable_path-normalize_path source f e₁).1,
      sym (ap (λ (x : Text × Text). x.1) same) ∙ (require_writable_path-normalize_path dest t e₃).1,
      subst (λ (x : Text × Text). path_is_within x.1 x.0 ≡ false) same (ground (arith, e₅)),
    )

module _ (P : Platform) (db : Db P) (w : WellFormed P db) (from to : Text) (n d : Node)
    (at : get_node P db from ≡ some n) (file : n.is_dir ≡ false) (there : get_node P db to ≡ some d)
    (onto : d.is_dir ≡ false) (apart : path_is_within to from ≡ false) where
  abbrev cleared : Db P
  cleared = delete_subtree P to db

  abbrev replaced : Db P
  replaced = record cleared {
    nodes = P.Nodes.put (P.Nodes.delete cleared.nodes from) (relocate n to);
  }

  away : path_is_within from to ≡ false
  away = elim (Bool-cases (path_is_within from to)) [
    | inr outside ↦ outside
    | inl inside ↦
        let same = within-file P db w to from d n there onto at inside in cc (same, apart)
  ]

  left : get_node P cleared from ≡ some n
  left =
      get_node-delete_subtree P db w to d there from
      ∙ ap (λ b. if b then none else get_node P db from) away
      ∙ at

  nothing_below : subtree_nodes P cleared from ≡ []
  nothing_below =
      In-nothing (subtree_nodes P cleared from)
        (no_descendant P cleared (delete_subtree-WellFormed P db w to d there) from n left file)

  move_body-onto :
      (overwrite : Bool) (after : Db P)
      → move_body P from to overwrite db ≡ ok (tt, after)
      → after ≡ replaced
  unfolding move_body move_nodes
  move_body-onto overwrite after e =
      let (ready, e₁, e₂) = >>=-eq-ok (prepare_transfer P from to overwrite db) _ e in
      let same = prepare_transfer-onto P from to overwrite db n d ready at there e₁ in
      sym (ap (λ (x : Unit {0} × Db P). x.1) (ok-injective e₂))
      ∙ ap (λ (r : Node × Db P). left_by r (subtree_nodes P r.1 from)) same
      ∙ ap (left_by (n, cleared)) nothing_below
    where
      left_by : Node × Db P → List Node → Db P
      left_by r ds =
          move_nodes P from to ds
            (record r.1 { nodes = P.Nodes.put (P.Nodes.delete r.1.nodes from) (relocate r.0 to) })

  read_at-replaced : read_at P replaced to ≡ read_at P db from
  unfolding relocate
  read_at-replaced =
      let (id, r, b, t, g) =
        stored_at P cleared from n (delete_subtree-WellFormed P db w to d there) left file in
      read_at_file P replaced to (relocate n to) id r
        (ground (
          arith,
          P.Nodes.get-put (P.Nodes.delete cleared.nodes from) (relocate n to) to,
          text_eq_refl to,
        ))
        file t g
      ∙ sym (read_at_file P cleared from n id r left file t g)
      ∙ read_at-delete_subtree P db to d from w there away

-- Nothing is moved into itself.
pub move-apart :
    (P : Platform) (failure : Option Failure) (source dest : Text) (overwrite : Bool)
    (db after : Db P)
    → move P failure source dest overwrite db ≡ (ok tt, after)
    → path_is_within (normalize_path dest) source ≡ false
unfolding move
move-apart P failure source dest overwrite db after e =
    let ((from, to), e₁, _) =
      checked-eq-ok P (require_transfer_paths source dest)
        (λ paths x. move_body P paths.0 paths.1 overwrite x) failure db tt after e in
    let (from_path, to_path, apart) = require_transfer_paths-apart source dest from to e₁ in
    sym (path_is_within-normalize_path (normalize_path dest) source)
    ∙ ap (path_is_within (normalize_path dest)) (sym from_path)
    ∙ ap (λ t. path_is_within t from) (sym to_path)
    ∙ apart

-- A file is moved onto another one: what was read at the one is read at the other one after.
pub read_blob-move :
    (P : Platform) (failure : Option Failure) (source dest : Text) (overwrite : Bool)
    (db after : Db P) (moved old : Blob)
    → WellFormed P db
    → move P failure source dest overwrite db ≡ (ok tt, after)
    → (read_blob P none source db).0 ≡ ok moved
    → (read_blob P none dest db).0 ≡ ok old
    → (read_blob P none dest after).0 ≡ ok moved
unfolding move
read_blob-move P failure source dest overwrite db after moved old w e from_ok to_ok =
    let ((from, to), e₁, e₂) =
      checked-eq-ok P (require_transfer_paths source dest)
        (λ paths x. move_body P paths.0 paths.1 overwrite x) failure db tt after e in
    let (from_path, to_path, apart) = require_transfer_paths-apart source dest from to e₁ in
    let read : read_at P db from ≡ ok moved =
      ap (read_at P db) from_path ∙ sym (read_blob_lem P source db) ∙ from_ok in
    let shown : read_at P db to ≡ ok old =
      ap (read_at P db) to_path ∙ sym (read_blob_lem P dest db) ∙ to_ok in
    let (n, at, file) = read_at-eq-ok P db w from moved read in
    let (d, there, onto) = read_at-eq-ok P db w to old shown in
    read_blob_lem P dest after
    ∙ ap (read_at P after) (sym to_path)
    ∙ ap (λ x. read_at P x to)
        (move_body-onto P db w from to n d at file there onto apart overwrite after e₂)
    ∙ read_at-replaced P db w from to n d at file there onto apart
    ∙ read
