-- ===== src/BrowserFs/Store/Invariant/Subtrees.antt =====
-- `deleteSubtree` deletes exactly the nodes within a path.
use zfiles.Common.{
  ◌≡◌, refl, ap, ◌∙◌, sym, subst, ◌≢◌, inl, inr, Bool, true, ◌||◌, List, [], ◌∷◌, ◌++◌, none, some,
  Text, text_eq, text_eq_iff, starts_with, arith, Bool-cases, Option-cases, bool_eq_of_iff,
  if◌then◌else◌, any, In, append_assoc,
}
use zfiles.BrowserFs.Paths.{slash, path_segments, path_parent, path_is_within, last_or_empty, init}
use zfiles.BrowserFs.Paths.Within.{IsPrefix, path_is_within_iff}
use zfiles.BrowserFs.Paths.Laws.{path_segments-path_parent, init-last}
use zfiles.BrowserFs.Store.Types.{Node, BlobRecord, Platform, Db}
use zfiles.BrowserFs.Store.Requests.{
  get_node, delete_entries, delete_subtree, subtree_nodes, max_key_suffix,
}
use zfiles.BrowserFs.Store.Subtree.{
  In-subtree_nodes, IsPath-IsBounded, normalize_path-IsPath, is_empty-IsPath,
  descendant_prefix-IsPath, is_empty-snoc,
}
use zfiles.BrowserFs.Store.Invariant.{get_record, IsPath, IsBounded, WellFormed}
use zfiles.BrowserFs.Store.Invariant.Removal.{
  IsClosed, at_path, owns, id-nonempty, eq-truthy, get_record-delete_entries, any→In, In→any,
  get_node-delete_entries, delete_entries-WellFormed,
}

pub path_is_within-IsPath :
    (p q : Text)
    → IsPath p
    → IsPath q
    → path_is_within p q ≡ (text_eq p q || starts_with p (q ++ (slash ∷ [])))
unfolding path_is_within
path_is_within-IsPath p q hp hq =
    rw (normalize_path-IsPath p hp, normalize_path-IsPath q hq, is_empty-IsPath q hq) refl

-- What holds a path's parent holds the path.
pub path_is_within-path_parent :
    (p q : Text) → IsPath p → path_is_within (path_parent p) q ≡ true → path_is_within p q ≡ true
path_is_within-path_parent p q hp h =
    (path_is_within_iff p q).1 (go (path_segments p) refl hp.named)
  where
    up : IsPrefix (path_segments q) (path_segments (path_parent p))
    up = (path_is_within_iff (path_parent p) q).0 h

    go :
        (xs : List Text)
        → path_segments p ≡ xs
        → xs ≢ []
        → IsPrefix (path_segments q) (path_segments p)
    go [] e ne = absurd (ne refl)
    go (x ∷ xs) e ne = (
      up.0 ++ (last_or_empty (x ∷ xs) ∷ []),
      e
          ∙ sym (init-last x xs)
          ∙ ap (λ t. t ++ (last_or_empty (x ∷ xs) ∷ []))
              (sym (path_segments-path_parent p ∙ ap init e) ∙ up.1)
          ∙ append_assoc (path_segments q) up.0 (last_or_empty (x ∷ xs) ∷ []),
    )

module _ (P : Platform) (db : Db P) (w : WellFormed P db) (target : Text) (node : Node)
    (e : get_node P db target ≡ some node) where
  abbrev entries : List Node
  entries = node ∷ subtree_nodes P db target

  is : IsPath target
  is = (w.placed target node e).path

  node-path : node.path ≡ target
  node-path = P.Nodes.get-key db.nodes target node e

  standing : (d : Node) → In d entries → get_node P db d.path ≡ some d
  unfolding subtree_nodes
  standing d (inl q) =
      subst (λ (m : Node). get_node P db m.path ≡ some m) q
        (subst (λ r. get_node P db r ≡ some node) (sym node-path) e)
  standing d (inr i) =
      ((P.Nodes.In-get_range db.nodes (target ++ (slash ∷ []))
          ((target ++ (slash ∷ [])) ++ max_key_suffix) d).0
        (rw (descendant_prefix-IsPath target is, is_empty-snoc target slash) at i)).0

  module _ (p : Text) (n : Node) (h : get_node P db p ≡ some n) where
    abbrev below : Bool
    below = starts_with p (target ++ (slash ∷ []))

    within-below : path_is_within p target ≡ (text_eq p target || below)
    within-below = path_is_within-IsPath p target (w.placed p n h).path is

    In-subtree-below : (d : Node) → In d (subtree_nodes P db target) → d.path ≡ p → below ≡ true
    In-subtree-below d i q =
        let bounded = IsPath-IsBounded d.path (w.placed d.path d (standing d (inr i))).path in
        let (_, s) = (In-subtree_nodes P db target d is bounded).0 i in
        subst (λ r. starts_with r (target ++ (slash ∷ [])) ≡ true) q s

    listed→within : any (at_path p) entries ≡ true → path_is_within p target ≡ true
    listed→within k = go (any→In (at_path p) entries k)
      where
        go : (d : Node) × In d entries × (at_path p d ≡ true) → path_is_within p target ≡ true
        go (d, inl q, s) =
            let same : p ≡ target = cc (q, (text_eq_iff d.path p).0 s, node-path) in
            ground (arith, within-below, (text_eq_iff p target).1 same)
        go (d, inr i, s) =
            ground (arith, within-below, In-subtree-below d i ((text_eq_iff d.path p).0 s))

    n-path : n.path ≡ p
    n-path = P.Nodes.get-key db.nodes p n h

    below→listed : below ≡ true → any (at_path p) entries ≡ true
    below→listed b =
        let bounded =
          subst (λ r. IsBounded r) (sym n-path) (IsPath-IsBounded p (w.placed p n h).path) in
        let i = (In-subtree_nodes P db target n is bounded).1 (
          subst (λ r. get_node P db r ≡ some n) (sym n-path) h,
          subst (λ r. starts_with r (target ++ (slash ∷ [])) ≡ true) (sym n-path) b,
        ) in
        In→any (at_path p) entries n (inr i) ((text_eq_iff n.path p).1 n-path)

    -- A node is listed for deletion exactly when it is within the path.
    listed : any (at_path p) entries ≡ path_is_within p target
    listed = bool_eq_of_iff (any (at_path p) entries) (path_is_within p target) listed→within λ k.
        elim (Bool-cases (text_eq p target)) [
          | inl same ↦
              In→any (at_path p) entries node (inl refl)
                ((text_eq_iff node.path p).1 (node-path ∙ sym ((text_eq_iff p target).0 same)))
          | inr differ ↦ below→listed (ground (arith, within-below))
        ]

  downwards :
      (p : Text) (n : Node)
      → get_node P db p ≡ some n
      → any (at_path (path_parent p)) entries ≡ true
      → any (at_path p) entries ≡ true
  downwards p n h k =
      let (d, i, q) = any→In (at_path (path_parent p)) entries k in
      let same = (text_eq_iff d.path (path_parent p)).0 q in
      let at : get_node P db (path_parent p) ≡ some d =
        subst (λ r. get_node P db r ≡ some d) same (standing d i) in
      let up : path_is_within (path_parent p) target ≡ true =
        sym (listed (path_parent p) d at) ∙ k in
      listed p n h ∙ path_is_within-path_parent p target (w.placed p n h).path up

  subtree-IsClosed : IsClosed P db entries
  subtree-IsClosed = record { standing = standing; downwards = downwards }

  opened : delete_subtree P target db ≡ delete_entries P entries db
  unfolding delete_subtree
  opened = rw (e, delete_subtree)

  pub delete_subtree-WellFormed : WellFormed P (delete_subtree P target db)
  delete_subtree-WellFormed =
      subst (WellFormed P) (sym opened) (delete_entries-WellFormed P db entries w subtree-IsClosed)

  -- Within the path nothing is left, and elsewhere nothing has changed.
  pub get_node-delete_subtree :
      (p : Text)
      → get_node P (delete_subtree P target db) p
        ≡ (if path_is_within p target then none else get_node P db p)
  get_node-delete_subtree p = elim (Option-cases (get_node P db p)) [
    | inl nothing ↦
        ground (arith, ap (λ d. get_node P d p) opened, get_node-delete_entries P entries db p)
    | inr (n, h) ↦ ground (
      arith,
      ap (λ d. get_node P d p) opened,
      get_node-delete_entries P entries db p,
      listed p n h,
    )
  ]

  -- The contents of what was within the path are gone.
  pub get_record-delete_subtree :
      (p : Text) (n : Node) (id : Text)
      → get_node P db p ≡ some n
      → path_is_within p target ≡ true
      → n.blob_id ≡ some id
      → get_record P (delete_subtree P target db) id ≡ none
  get_record-delete_subtree p n id h within b =
      let (d, i, q) = any→In (at_path p) entries (listed p n h ∙ within) in
      let same : n ≡ d = cc (h, standing d i, (text_eq_iff d.path p).0 q) in
      let nonempty = id-nonempty P db entries w subtree-IsClosed p n id h b in
      let owned : any (owns id) entries ≡ true =
        In→any (owns id) entries d i (eq-truthy d.blob_id id (cc (b, same)) nonempty) in
      ground (
        arith,
        ap (λ (x : Db P). get_record P x id) opened,
        get_record-delete_entries P entries db id,
        owned,
      )

  -- The contents that are left were there before.
  pub get_record-left :
      (id : Text) (r : BlobRecord)
      → get_record P (delete_subtree P target db) id ≡ some r
      → get_record P db id ≡ some r
  get_record-left id r e = ground (
    arith,
    e,
    ap (λ (x : Db P). get_record P x id) opened,
    get_record-delete_entries P entries db id,
  )
