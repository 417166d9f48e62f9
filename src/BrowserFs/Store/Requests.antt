-- ===== src/BrowserFs/Store/Requests.antt =====
-- web/src/browserfs/store.ts: what a transaction's body asks of the two object stores.
use zfiles.Common.{
  ℕ, Bool, true, List, [], ◌∷◌, ◌++◌, Option, none, some, Text, is_empty, if◌then◌else◌,
}
use zfiles.BrowserFs.Paths.{slash, path_segments, path_parent, path_name, descendant_prefix}
use zfiles.BrowserFs.Store.Types.{
  Node, not_found, already_exists, Failure, Result, ok, err, ◌>>=◌, ◌>>◌, guard, Platform,
  to_browser_fs_error, truthy, Db,
}

-- The upper end of a scan: no code unit sorts above it.
abbrev pub max_key_suffix : Text
max_key_suffix = 0xffff ∷ []

unfoldable pub directory_node : ℕ → Text → Node
directory_node now path = record {
  path = path;
  parent = path_parent path;
  name = path_name path;
  is_dir = true;
  size = 0;
  modified = now;
  content_type = none;
  blob_id = none;
}

unfoldable pub step_into : Text → Text → Text
step_into current segment = if is_empty current then segment else current ++ (slash ∷ segment)

module _ (P : Platform) where
  abbrev pub get_node : Db P → Text → Option Node
  get_node db path = P.Nodes.get db.nodes path

  abbrev pub child_nodes : Db P → Text → List Node
  child_nodes db parent = P.Nodes.get_index db.nodes parent

  unfoldable pub subtree_nodes : Db P → Text → List Node
  subtree_nodes db path =
      let prefix = descendant_prefix path in
      if is_empty prefix
      then P.Nodes.get_all db.nodes
      else P.Nodes.get_range db.nodes prefix (prefix ++ max_key_suffix)

  -- One round of the loop in `deleteSubtree`.
  unfoldable pub delete_entry : Node → Db P → Db P
  delete_entry entry db = record db {
    nodes = P.Nodes.delete db.nodes entry.path;
    blobs = elim (truthy entry.blob_id) [ none ↦ db.blobs | some id ↦ P.Blobs.delete db.blobs id ];
  }

  unfoldable pub delete_entries : List Node → Db P → Db P
  delete_entries [] db = db
  delete_entries (entry ∷ entries) db = delete_entries entries (delete_entry entry db)

  unfoldable pub delete_subtree : Text → Db P → Db P
  delete_subtree path db = elim (get_node db path) [
    | none ↦ db
    | some node ↦ delete_entries (node ∷ subtree_nodes db path) db
  ]

  unfoldable pub assert_parent_directory : Db P → Text → Result (Unit {0})
  assert_parent_directory db path =
      let parent = path_parent path in
      if is_empty parent then ok tt else elim (get_node db parent) [
        | none ↦ err not_found
        | some node ↦ guard node.is_dir already_exists
      ]

  unfoldable pub put_directory : ℕ → Text → Db P → Db P
  put_directory now path db = record db { nodes = P.Nodes.put db.nodes (directory_node now path) }

  -- One round of the loop in `ensureDirectory`, at the path that it has reached.
  unfoldable pub ensure_one : ℕ → Text → Db P → Result (Db P)
  ensure_one now current db = elim (get_node db current) [
    | none ↦ ok (put_directory now current db)
    | some node ↦ if node.is_dir then ok db else err already_exists
  ]

  unfoldable pub ensure_from : ℕ → Text → List Text → Db P → Result (Db P)
  ensure_from now current [] db = ok db
  ensure_from now current (segment ∷ segments) db =
      ensure_one now (step_into current segment) db
      >>= ensure_from now (step_into current segment) segments

  unfoldable pub ensure_directory : ℕ → Text → Db P → Result (Db P)
  ensure_directory now path db = ensure_from now [] (path_segments path) db

  -- `prepareTransfer`: the node to transfer, and the stores with the target cleared.
  unfoldable pub prepare_transfer : Text → Text → Bool → Db P → Result (Node × Db P)
  prepare_transfer from to overwrite db = elim (get_node db from) [
    | none ↦ err not_found
    | some node ↦ do
      assert_parent_directory db to
      elim (get_node db to) [
        | none ↦ ok (node, db)
        | some existing ↦ if overwrite then ok (node, delete_subtree to db) else err already_exists
      ]
  ]

  -- A body runs to its end or throws. A failed request or commit, as a throw, undoes all of it.
  unfoldable pub run :
      {A : Type 0} → Option Failure → (Db P → Result (A × Db P)) → Db P → Result A × Db P
  run failure body db = elim failure [
    | some f ↦ (err (to_browser_fs_error f), db)
    | none ↦ elim (body db) [ ok (a, after) ↦ (ok a, after) | err e ↦ (err e, db) ]
  ]
