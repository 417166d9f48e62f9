-- ===== src/BrowserFs/Store/Operations.antt =====
-- web/src/browserfs/store.ts: the methods of `BrowserFsStore`. Each is one transaction; `failure`
-- is what the browser makes of it.
use zfiles.Common.{
  ℕ, suc, ◌+◌, Bool, false, List, [], ◌∷◌, ◌++◌, Option, none, some, or_else, Text, is_empty, drop,
  length, if◌then◌else◌,
}
use zfiles.BrowserFs.Paths.{normalize_path, path_parent, path_name}
use zfiles.BrowserFs.Store.Types.{
  Node, Blob, not_found, already_exists, Failure, Result, ok, err, ◌>>=◌, Platform, truthy,
  relocate, require_writable_path, require_transfer_paths, Db,
}
use zfiles.BrowserFs.Store.Requests.{
  get_node, child_nodes, subtree_nodes, delete_subtree, directory_node, put_directory,
  ensure_directory, prepare_transfer, run,
}

abbrev pub blob_size : Blob → ℕ
blob_size blob = length blob.bytes

-- `options.contentType ?? (blob.type || undefined)`.
abbrev content_type_of : Option Text → Blob → Option Text
content_type_of given blob = or_else given (truthy (some blob.mime))

unfoldable pub file_node : ℕ → Text → Blob → Option Text → Text → Node
file_node now path blob content_type id = record {
  path = path;
  parent = path_parent path;
  name = path_name path;
  is_dir = false;
  size = blob_size blob;
  modified = now;
  content_type = content_type_of content_type blob;
  blob_id = some id;
}

-- `existing?.blobId`, where it is true.
abbrev pub old_blob : Option Node → Option Text
old_blob none = none
old_blob (some n) = truthy n.blob_id

-- `new Blob()`.
abbrev pub empty_blob : Blob
empty_blob = record { bytes = []; mime = [] }

abbrev node_size : Node → ℕ
node_size n = if n.is_dir then 0 else n.size

abbrev pub total_size : List Node → ℕ
total_size [] = 0
total_size (n ∷ ns) = node_size n + total_size ns

module _ (P : Platform) where
  unfoldable pub list_children : Option Failure → Text → Db P → Result (List Node) × Db P
  unfolding run
  list_children failure path =
      let target = normalize_path path in
      run P failure λ db.
        if is_empty target then ok (child_nodes P db target, db) else elim (get_node P db target) [
          | none ↦ err not_found
          | some node ↦ if node.is_dir then ok (child_nodes P db target, db) else err already_exists
        ]

  unfoldable pub get_node_at : Option Failure → Text → Db P → Result (Option Node) × Db P
  unfolding run
  get_node_at failure path = run P failure λ db. ok (get_node P db (normalize_path path), db)

  unfoldable pub blob_of : Db P → Option Text → Result (Blob × Db P)
  blob_of db none = err not_found
  blob_of db (some id) = elim (P.Blobs.get db.blobs id) [
    | none ↦ err not_found
    | some r ↦ ok (r.blob, db)
  ]

  unfoldable pub read_blob : Option Failure → Text → Db P → Result Blob × Db P
  unfolding run blob_of
  read_blob failure path = run P failure λ db. elim (get_node P db (normalize_path path)) [
    | none ↦ err not_found
    | some node ↦ if node.is_dir then err not_found else blob_of db (truthy node.blob_id)
  ]

  -- `blobs.delete(id)`, where there is an id.
  abbrev pub clear_blob : Option Text → Db P → P.Blobs.Records
  clear_blob none db = db.blobs
  clear_blob (some id) db = P.Blobs.delete db.blobs id

  -- The end of `writeFile`: the old contents go, the new ones and the node are stored.
  unfoldable pub put_file : ℕ → Text → Blob → Option Text → Option Node → Db P → Node × Db P
  unfolding file_node
  put_file now target blob content_type existing db =
      let kept = clear_blob (old_blob existing) db in
      let blob_id = P.create_id db.issued in
      let node = file_node now target blob content_type blob_id in
      (
        node,
        record {
          nodes = P.Nodes.put db.nodes node;
          blobs = P.Blobs.put kept (record { id = blob_id; blob = blob });
          issued = suc db.issued;
        },
      )

  unfoldable pub write_body : ℕ → Text → Blob → Option Text → Db P → Result (Node × Db P)
  write_body now target blob content_type db = do
    ready ← ensure_directory P now (path_parent target) db
    elim (get_node P ready target) [
      | none ↦ ok (put_file now target blob content_type none ready)
      | some n ↦
          if n.is_dir
          then err already_exists
          else ok (put_file now target blob content_type (some n) ready)
    ]

  -- The paths are checked before the transaction is opened.
  abbrev pub checked :
      {A B : Type 0}
      → Result A
      → (A → Db P → Result (B × Db P))
      → Option Failure
      → Db P
      → Result B × Db P
  checked (err e) body failure db = (err e, db)
  checked (ok a) body failure db = run P failure (body a) db

  unfoldable pub write_file :
      Option Failure → ℕ → Text → Blob → Option Text → Db P → Result Node × Db P
  unfolding run write_body put_file
  write_file failure now path blob content_type =
      checked (require_writable_path path) (λ target db. write_body now target blob content_type db)
        failure

  unfoldable pub make_body : ℕ → Text → Db P → Result (Node × Db P)
  make_body now target db = elim (get_node P db target) [
    | some existing ↦ err already_exists
    | none ↦ do
      ready ← ensure_directory P now (path_parent target) db
      ok (directory_node now target, put_directory P now target ready)
  ]

  unfoldable pub make_directory : Option Failure → ℕ → Text → Db P → Result Node × Db P
  unfolding run make_body
  make_directory failure now path =
      checked (require_writable_path path) (λ target db. make_body now target db) failure

  unfoldable pub require_all : List Text → Result (List Text)
  require_all [] = ok []
  require_all (path ∷ paths) = do
    target ← require_writable_path path
    targets ← require_all paths
    ok (target ∷ targets)

  unfoldable pub remove_one : Text → Db P → Result (Db P)
  remove_one target db = elim (get_node P db target) [
    | none ↦ err not_found
    | some node ↦ ok (delete_subtree P target db)
  ]

  unfoldable pub remove_all : List Text → Db P → Result (Unit {0} × Db P)
  unfolding remove_one
  remove_all [] db = ok (tt, db)
  remove_all (target ∷ targets) db = remove_one target db >>= remove_all targets

  unfoldable pub remove : Option Failure → List Text → Db P → Result (Unit {0}) × Db P
  unfolding run remove_all require_all
  remove failure paths = checked (require_all paths) (λ targets db. remove_all targets db) failure

  -- The path of a descendant of `from` after the transfer: `${to}${child.path.slice(from.length)}`.
  abbrev pub carried : Text → Text → Text → Text
  carried from to path = to ++ drop (length from) path

  unfoldable pub move_node : Node → Text → Db P → Db P
  move_node node next_path db = record db {
    nodes = P.Nodes.put (P.Nodes.delete db.nodes node.path) (relocate node next_path);
  }

  unfoldable pub move_nodes : Text → Text → List Node → Db P → Db P
  unfolding move_node
  move_nodes from to [] db = db
  move_nodes from to (child ∷ children) db =
      move_nodes from to children (move_node child (carried from to child.path) db)

  unfoldable pub move_body : Text → Text → Bool → Db P → Result (Unit {0} × Db P)
  move_body from to overwrite db = do
    ready ← prepare_transfer P from to overwrite db
    let (node, cleared) = ready
    let descendants = subtree_nodes P cleared from
    let moved = record cleared {
      nodes = P.Nodes.put (P.Nodes.delete cleared.nodes from) (relocate node to);
    }
    ok (tt, move_nodes from to descendants moved)

  unfoldable pub move : Option Failure → Text → Text → Bool → Db P → Result (Unit {0}) × Db P
  unfolding run move_body move_nodes
  move failure source dest overwrite =
      checked (require_transfer_paths source dest)
        (λ paths db. move_body paths.0 paths.1 overwrite db) failure

  -- The contents that a clone is given: those of the source, or none where they are missing.
  clone_blob : Db P → Text → Blob
  clone_blob db id = elim (P.Blobs.get db.blobs id) [ none ↦ empty_blob | some r ↦ r.blob ]

  unfoldable pub clone_node : Node → Text → Db P → Db P
  unfolding clone_blob
  clone_node node next_path db =
      let clone = relocate node next_path in
      elim (truthy node.blob_id) [
        | none ↦ record db { nodes = P.Nodes.put db.nodes clone }
        | some id ↦
            let new_id = P.create_id db.issued in
            record {
              nodes = P.Nodes.put db.nodes (record clone { blob_id = some new_id });
              blobs = P.Blobs.put db.blobs (record { id = new_id; blob = clone_blob db id });
              issued = suc db.issued;
            }
      ]

  unfoldable pub clone_nodes : Text → Text → List Node → Db P → Db P
  unfolding clone_node
  clone_nodes from to [] db = db
  clone_nodes from to (child ∷ children) db =
      clone_nodes from to children (clone_node child (carried from to child.path) db)

  unfoldable pub copy_body : Text → Text → Bool → Db P → Result (Unit {0} × Db P)
  copy_body from to overwrite db = do
    ready ← prepare_transfer P from to overwrite db
    let (node, cleared) = ready
    let descendants = subtree_nodes P cleared from
    ok (tt, clone_nodes from to descendants (clone_node node to cleared))

  unfoldable pub copy : Option Failure → Text → Text → Bool → Db P → Result (Unit {0}) × Db P
  unfolding run copy_body clone_nodes
  copy failure source dest overwrite =
      checked (require_transfer_paths source dest)
        (λ paths db. copy_body paths.0 paths.1 overwrite db) failure

  unfoldable pub usage_bytes : Option Failure → Db P → Result ℕ × Db P
  unfolding run
  usage_bytes failure = run P failure λ db. ok (total_size (P.Nodes.get_all db.nodes), db)

  unfoldable pub count_blobs : Option Failure → Db P → Result ℕ × Db P
  unfolding run
  count_blobs failure = run P failure λ db. ok (P.Blobs.count db.blobs, db)
