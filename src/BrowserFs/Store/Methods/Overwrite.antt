-- ===== src/BrowserFs/Store/Methods/Overwrite.antt =====
-- `move` of web/src/browserfs/store.ts onto a directory that holds the source, with overwrite.
use zfiles.Common.{
  ◌≡◌, refl, ap, ◌∙◌, sym, subst, inl, inr, true, List, ◌∷◌, ◌++◌, [], none, some, Text, text_eq,
  arith, Bool-cases, if◌then◌else◌, In, append_assoc,
}
use zfiles.BrowserFs.Paths.{path_segments, normalize_path, path_is_within}
use zfiles.BrowserFs.Paths.Segments.{path_segments-normalize_path}
use zfiles.BrowserFs.Paths.Within.{path_is_within_iff}
use zfiles.BrowserFs.Store.Types.{
  Node, Platform, Db, Result, ok, err, truthy, not_found, relocate, require_transfer_paths,
}
use zfiles.BrowserFs.Store.Requests.{
  get_node, subtree_nodes, delete_subtree, assert_parent_directory, prepare_transfer, run,
}
use zfiles.BrowserFs.Store.Operations.{move, move_body, move_nodes, read_blob, checked}
use zfiles.BrowserFs.Store.Invariant.{get_record, WellFormed}
use zfiles.BrowserFs.Store.Invariant.Subtrees.{
  get_node-delete_subtree, get_record-delete_subtree, path_is_within-IsPath,
}
use zfiles.BrowserFs.Store.Subtree.{subtree_nodes-below}
use zfiles.BrowserFs.Store.Methods.Reads.{
  read_at, read_node, read_id, read_blob_lem, read_at_missing, stored_at,
}

path_is_within_trans :
    (p q r : Text)
    → path_is_within p q ≡ true
    → path_is_within q r ≡ true
    → path_is_within p r ≡ true
path_is_within_trans p q r h k =
    let (u, e) = (path_is_within_iff p q).0 h in
    let (v, f) = (path_is_within_iff q r).0 k in
    let xs = path_segments r in
    (path_is_within_iff p r).1 (v ++ u, e ∙ ap (λ t. t ++ u) f ∙ append_assoc xs v u)

normalize_path-within :
    (q r : Text) → path_is_within q r ≡ true → path_is_within (normalize_path q) r ≡ true
normalize_path-within q r h =
    let (u, e) = (path_is_within_iff q r).0 h in
    (path_is_within_iff (normalize_path q) r).1 (u, path_segments-normalize_path q ∙ e)

pub In-nothing : (xs : List Node) → ((m : Node) → ¬ In m xs) → xs ≡ []
In-nothing [] h = refl
In-nothing (x ∷ xs) h = absurd (h x (inl refl))

read_at_dangling :
    (P : Platform) (db : Db P) (p : Text) (n : Node) (id : Text)
    → get_node P db p ≡ some n
    → truthy n.blob_id ≡ some id
    → get_record P db id ≡ none
    → read_at P db p ≡ err not_found
unfolding read_at read_node read_id
read_at_dangling P db p n id e t g = ground arith

module _ (P : Platform) (db : Db P) (w : WellFormed P db) (from to : Text) (n d : Node)
    (at : get_node P db from ≡ some n) (there : get_node P db to ≡ some d)
    (inside : path_is_within from to ≡ true) where
  abbrev cleared : Db P
  cleared = delete_subtree P to db

  parent-ok : assert_parent_directory P db to ≡ ok tt
  unfolding assert_parent_directory
  parent-ok = elim (w.placed to d there).folder [
    | inl root ↦ rw root refl
    | inr (f, h, t) ↦ ground (arith, h, t)
  ]

  prepare_transfer-ok : prepare_transfer P from to true db ≡ ok (n, cleared)
  unfolding prepare_transfer
  prepare_transfer-ok = ground (arith, at, there, parent-ok)

  not_descendant : (m : Node) → ¬ In m (subtree_nodes P cleared from)
  not_descendant m i =
      let is = (w.placed from n at).path in
      let (found, below) = subtree_nodes-below P cleared from m is i in
      let left = get_node-delete_subtree P db w to d there m.path in
      elim (Bool-cases (path_is_within m.path to)) [
        | inl h ↦ cc (found, left, ap (λ b. if b then none else get_node P db m.path) h)
        | inr h ↦
            let old : get_node P db m.path ≡ some m =
              sym (left ∙ ap (λ b. if b then none else get_node P db m.path) h) ∙ found in
            let is' = (w.placed m.path m old).path in
            let up : path_is_within m.path from ≡ true =
              ground (arith, path_is_within-IsPath m.path from is' is, below) in
            cc (h, path_is_within_trans m.path from to up inside)
      ]

  moved : Db P
  moved = record cleared { nodes = P.Nodes.put (P.Nodes.delete cleared.nodes from) (relocate n to) }

  move_body-ok : move_body P from to true db ≡ ok (tt, moved)
  unfolding move_body move_nodes moved
  move_body-ok =
      ground (arith, prepare_transfer-ok, In-nothing (subtree_nodes P cleared from) not_descendant)

  nodes :
      (p : Text)
      → get_node P moved p ≡ (
          if text_eq to p
          then some (relocate n to)
          else (if text_eq from p then none else get_node P cleared p))
  unfolding moved relocate
  nodes p = ground (
    arith,
    P.Nodes.get-put (P.Nodes.delete cleared.nodes from) (relocate n to) p,
    P.Nodes.get-delete cleared.nodes from p,
  )

  gone : (q : Text) → path_is_within q to ≡ true → get_node P cleared q ≡ none
  gone q h =
      get_node-delete_subtree P db w to d there q ∙ ap (λ b. if b then none else get_node P db q) h

  lost : (q : Text) → path_is_within q to ≡ true → read_at P moved q ≡ err not_found
  unfolding relocate moved delete_subtree
  lost q h = elim (Bool-cases (text_eq to q)) [
    | inl same ↦
        let here : get_node P moved q ≡ some (relocate n to) = ground (arith, nodes q) in
        elim (Bool-cases n.is_dir) [
          | inl dir ↦ read_at_missing P moved q (inr (relocate n to, here, dir))
          | inr file ↦
              let (id, r, b, t, g) = stored_at P db from n w at file in
              read_at_dangling P moved q (relocate n to) id here t
                (get_record-delete_subtree P db w to d there from n id at inside b)
        ]
    | inr away ↦ read_at_missing P moved q (inl (ground (arith, nodes q, gone q h)))
  ]

-- `move` with overwrite onto a folder that holds the source reports success, and nothing can be
-- read any more at or below the destination: neither the moved node nor anything it held.
pub move_onto_ancestor :
    (P : Platform) (source dest from to : Text) (db : Db P) (n d : Node)
    → WellFormed P db
    → require_transfer_paths source dest ≡ ok (from, to)
    → get_node P db from ≡ some n
    → get_node P db to ≡ some d
    → path_is_within from to ≡ true
    → ((move P none source dest true db).0 ≡ ok tt)
      × ((q : Text)
          → path_is_within q to ≡ true
          → (read_blob P none q (move P none source dest true db).1).0 ≡ err not_found)
unfolding move run
move_onto_ancestor P source dest from to db n d w r at there inside =
    subst
      (λ (e : Result (Unit {0}) × Db P).
        (e.0 ≡ ok tt)
        × ((q : Text) → path_is_within q to ≡ true → (read_blob P none q e.1).0 ≡ err not_found))
      (sym ran)
      (
        refl,
        λ q h.
            read_blob_lem P q after
            ∙ lost P db w from to n d at there inside (normalize_path q)
                (normalize_path-within q to h),
      )
  where
    after : Db P
    after = moved P db w from to n d at there inside

    ran : move P none source dest true db ≡ (ok tt, after)
    ran =
        ap
          (λ (t : Result (Text × Text)).
            checked P t (λ paths x. move_body P paths.0 paths.1 true x) none db)
          r
        ∙ ap
            (λ (t : Result (Unit {0} × Db P)). elim t [
              | ok (a, x) ↦ (ok a, x)
              | err e ↦ (err e, db)
            ])
            (move_body-ok P db w from to n d at there inside)
