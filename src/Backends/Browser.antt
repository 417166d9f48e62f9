-- ===== src/Backends/Browser.antt =====
-- web/src/backend/browserBackend.ts: the explorer's backend over the browser's filesystem and the
-- cache of object URLs.
pub mod Coherence
pub mod Calls
use zfiles.Common.{
  ℕ, Bool, true, false, not, ◌&&◌, ◌||◌, List, [], ◌∷◌, ◌++◌, Option, none, some, Text, is_empty,
  text_eq, if◌then◌else◌, trim, has_name, length, map,
}
use zfiles.BrowserFs.Paths.{normalize_path, join_path, path_name, path_parent}
use zfiles.BrowserFs.Store.Types.{
  Node, Blob, Platform, Db, Failure, Result, ok, err, Error, not_found, invalid_name, truthy,
}
use zfiles.BrowserFs.Store.Operations.{
  list_children, get_node_at, read_blob, write_file, make_directory, remove, move, copy, blob_size,
}
use zfiles.Caches.BlobUrls.{BlobUrlCache, get, set, invalidate}

pub data BackendEvent : Type 0 where
  filesystem_changed : Text → BackendEvent
  upload_started : BackendEvent
  upload_progress : (offset length : ℕ) → BackendEvent

pub record FileEntry : Type 0 where
  pub name : Text
  pub path : Text
  pub is_dir : Bool
  pub size : ℕ
  pub modified : Text

pub record FileStat : Type 0 where
  pub path : Text
  pub is_dir : Bool
  pub size : ℕ
  pub modified : Option Text
  pub content_type : Option Text

-- What a call throws: an error of the filesystem, an abort, or that the action is unknown.
pub data Thrown : Type 0 where
  fs_error : Error → Thrown
  aborted : Thrown
  unknown_action : Thrown

pub data Reply (A : Type 0) : Type 0 where
  returned : A → Reply A
  thrown : Thrown → Reply A

pub data Action : Type 0 where
  delete : Action
  mkdir : Action
  rename : Action
  copy_action : Action
  move_action : Action
  other_action : Action

pub record RunActionParams : Type 0 where
  pub action_id : Action
  pub paths : List Text
  pub dest_dir : Option Text
  pub new_name : Option Text
  pub overwrite : Bool

-- The fields of the backend, with the store's contents; `events` has what the listeners are told,
-- in order.
pub record Backend (P : Platform) : Type 0 where
  pub db : Db P
  pub urls : BlobUrlCache
  pub last_listed_path : Text
  pub persist_requested : Bool
  pub events : List BackendEvent

-- `new Set(paths)`.
unfoldable pub add_name : List Text → Text → List Text
add_name names name = if has_name names name then names else names ++ (name ∷ [])

unfoldable pub text_or_empty : Option Text → Text
text_or_empty none = []
text_or_empty (some s) = s

unfoldable pub first_or_empty : List Text → Text
first_or_empty [] = []
first_or_empty (p ∷ ps) = p

-- `newName && paths.length === 1 ? newName : pathName(source)`.
unfoldable pub transfer_name : RunActionParams → Text → Text
transfer_name params source = elim (truthy params.new_name) [
  | none ↦ path_name source
  | some name ↦ elim params.paths [ p ∷ [] ↦ name | _ ↦ path_name source ]
]

-- What the program takes from the browser: dates as text, the order of names, and the URL that the
-- n-th call of `createObjectURL` returns for a blob.
module _ (P : Platform) (to_iso : ℕ → Text) (locale_before : Text → Text → Bool)
    (create : ℕ → Blob → Text) (max_entries : ℕ) where
  unfoldable pub to_file_entry : Node → FileEntry
  to_file_entry node = record {
    name = node.name;
    path = node.path;
    is_dir = node.is_dir;
    size = node.size;
    modified = to_iso node.modified;
  }

  -- Whether the first entry sorts before the second or with it.
  unfoldable pub compare_entries : FileEntry → FileEntry → Bool
  compare_entries a b =
      if a.is_dir && not b.is_dir
      then true
      else if not a.is_dir && b.is_dir
      then false
      else not (locale_before b.name a.name)

  unfoldable pub insert_entry : FileEntry → List FileEntry → List FileEntry
  unfolding compare_entries
  insert_entry e [] = e ∷ []
  insert_entry e (x ∷ xs) =
      let later = insert_entry e xs in if compare_entries e x then e ∷ x ∷ xs else x ∷ later

  unfoldable pub sort_entries : List FileEntry → List FileEntry
  unfolding insert_entry
  sort_entries [] = []
  sort_entries (e ∷ es) = insert_entry e (sort_entries es)

  unfoldable pub notify_changed : List Text → Backend P → Backend P
  notify_changed paths b = record b { events = b.events ++ map filesystem_changed paths }

  unfoldable pub list : Option Failure → Text → Backend P → Reply (List FileEntry) × Backend P
  unfolding sort_entries to_file_entry
  list failure path b =
      let read = list_children P failure path b.db in
      elim read.0 [
        | err e ↦ (thrown (fs_error e), record b { db = read.1 })
        | ok nodes ↦ (
          returned (sort_entries (map to_file_entry nodes)),
          record b { db = read.1; last_listed_path = normalize_path path },
        )
      ]

  unfoldable pub stat_of : Node → FileStat
  stat_of node = record {
    path = node.path;
    is_dir = node.is_dir;
    size = node.size;
    modified = some (to_iso node.modified);
    content_type = truthy node.content_type;
  }

  unfoldable pub found_stat : Result (Option Node) → Reply FileStat
  unfolding stat_of
  found_stat (err e) = thrown (fs_error e)
  found_stat (ok none) = thrown (fs_error not_found)
  found_stat (ok (some node)) = returned (stat_of node)

  unfoldable pub stat : Option Failure → Text → Backend P → Reply FileStat × Backend P
  unfolding found_stat
  stat failure path b =
      let target = normalize_path path in
      let read = get_node_at P failure target b.db in
      if is_empty target
      then (
        returned
            (record { path = []; is_dir = true; size = 0; modified = none; content_type = none }),
        b,
      )
      else (found_stat read.0, record b { db = read.1 })

  -- The contents of a file that has no URL yet.
  unfoldable pub read_url : Text → Result Blob × Db P → Backend P → Reply Text × Backend P
  read_url target (err e, db) b = (thrown (fs_error e), record b { db = db })
  read_url target (ok blob, db) b =
      let made = set create max_entries target blob b.urls in
      (returned made.0, record b { db = db; urls = made.1 })

  unfoldable pub download_url : Option Failure → Text → Backend P → Reply Text × Backend P
  unfolding read_url
  download_url failure path b =
      let target = normalize_path path in
      let held = get target b.urls in
      elim held.0 [
        | some url ↦ (returned url, record b { urls = held.1 })
        | none ↦ read_url target (read_blob P failure target b.db) b
      ]

  -- The end of `upload`, once the store has written the file or thrown.
  unfoldable pub finish_upload :
      Text → Blob → Result Node × Db P → Backend P → Reply (Unit {0}) × Backend P
  unfolding notify_changed
  finish_upload dest_path file (err e, db) b = (thrown (fs_error e), record b { db = db })
  finish_upload dest_path file (ok node, db) b = (
    returned tt,
    notify_changed (path_parent dest_path ∷ []) (record b {
      db = db;
      urls = invalidate dest_path b.urls;
      events = b.events ++ (upload_progress (blob_size file) (blob_size file) ∷ []);
    }),
  )

  -- The two flags say whether the signal is aborted at the call and after the storage was asked for.
  unfoldable pub upload :
      Option Failure → ℕ → Bool → Bool → Blob → Text → Backend P → Reply (Unit {0}) × Backend P
  unfolding finish_upload
  upload failure now aborted_before aborted_after file dest_path b =
      let asked : Backend P = record b { persist_requested = true } in
      let started : Backend P = record asked {
        events = b.events ++ (upload_started ∷ upload_progress 0 (blob_size file) ∷ []);
      } in
      if aborted_before
      then (thrown aborted, b)
      else if aborted_after
      then (thrown aborted, asked)
      else finish_upload dest_path file
          (write_file P failure now dest_path file (truthy (some file.mime)) b.db) started

  -- One round of the loop of `file.delete`.
  unfoldable pub delete_one :
      Text → Result (Unit {0}) × Db P → Backend P → Reply (Unit {0}) × Backend P
  delete_one path (err e, db) b = (thrown (fs_error e), record b { db = db })
  delete_one path (ok u, db) b = (returned u, record b { db = db; urls = invalidate path b.urls })

  -- The transaction of each path has its own failure.
  unfoldable pub delete_paths :
      (Text → Option Failure) → List Text → List Text → Backend P → Reply (Unit {0}) × Backend P
  unfolding delete_one add_name notify_changed
  delete_paths failure [] changed b = (returned tt, notify_changed changed b)
  delete_paths failure (path ∷ paths) changed b =
      let round = delete_one path (remove P (failure path) (path ∷ []) b.db) b in
      elim round.0 [
        | thrown e ↦ (thrown e, round.1)
        | returned u ↦ delete_paths failure paths (add_name changed (path_parent path)) round.1
      ]

  unfoldable pub finish_mkdir : Text → Result Node × Db P → Backend P → Reply (Unit {0}) × Backend P
  unfolding notify_changed
  finish_mkdir parent (err e, db) b = (thrown (fs_error e), record b { db = db })
  finish_mkdir parent (ok node, db) b =
      (returned tt, notify_changed (parent ∷ []) (record b { db = db }))

  unfoldable pub make_dir :
      Option Failure → ℕ → RunActionParams → Backend P → Reply (Unit {0}) × Backend P
  unfolding finish_mkdir text_or_empty first_or_empty
  make_dir failure now params b =
      let parent = normalize_path (first_or_empty params.paths) in
      let name = trim (text_or_empty params.new_name) in
      if is_empty name
      then (thrown (fs_error invalid_name), b)
      else finish_mkdir parent (make_directory P failure now (join_path parent name) b.db) b

  unfoldable pub finish_rename :
      Text → Result (Unit {0}) × Db P → Backend P → Reply (Unit {0}) × Backend P
  unfolding notify_changed
  finish_rename path (err e, db) b = (thrown (fs_error e), record b { db = db })
  finish_rename path (ok u, db) b = (
    returned u,
    notify_changed (path_parent path ∷ []) (record b { db = db; urls = invalidate path b.urls }),
  )

  unfoldable pub rename_path :
      Option Failure → RunActionParams → Backend P → Reply (Unit {0}) × Backend P
  unfolding finish_rename text_or_empty first_or_empty
  rename_path failure params b =
      let path = first_or_empty params.paths in
      let name = trim (text_or_empty params.new_name) in
      if is_empty path || is_empty name
      then (thrown (fs_error invalid_name), b)
      else finish_rename path
          (move P failure path (join_path (path_parent path) name) params.overwrite b.db) b

  -- One round of the loop of `file.copy` and `file.move`.
  unfoldable pub transfer_one :
      Bool → Text → Text → Result (Unit {0}) × Db P → Backend P → Reply (Unit {0}) × Backend P
  transfer_one moves source target (err e, db) b = (thrown (fs_error e), record b { db = db })
  transfer_one moves source target (ok u, db) b =
      let cleared = if moves then invalidate source b.urls else b.urls in
      (returned u, record b { db = db; urls = invalidate target cleared })

  unfoldable pub transfer_paths :
      (Text → Option Failure)
      → Bool
      → Text
      → RunActionParams
      → List Text
      → List Text
      → Backend P
      → Reply (Unit {0}) × Backend P
  unfolding transfer_one add_name notify_changed transfer_name
  transfer_paths failure moves dest params [] changed b = (returned tt, notify_changed changed b)
  transfer_paths failure moves dest params (source ∷ sources) changed b =
      let target = join_path dest (transfer_name params source) in
      let done : Result (Unit {0}) × Db P =
        if moves
        then move P (failure source) source target params.overwrite b.db
        else copy P (failure source) source target params.overwrite b.db in
      let changed' = if moves then add_name changed (path_parent source) else changed in
      let round = transfer_one moves source target done b in
      elim round.0 [
        | thrown e ↦ (thrown e, round.1)
        | returned u ↦ transfer_paths failure moves dest params sources changed' round.1
      ]

  unfoldable pub transfer_all :
      (Text → Option Failure) → Bool → RunActionParams → Backend P → Reply (Unit {0}) × Backend P
  unfolding transfer_paths
  transfer_all failure moves params b = elim params.dest_dir [
    | none ↦ (thrown (fs_error invalid_name), b)
    | some dir ↦
        let dest = normalize_path dir in
        transfer_paths failure moves dest params params.paths (dest ∷ []) b
  ]

  -- `failure` says of each path whether the browser fails its transaction.
  unfoldable pub run_action :
      (Text → Option Failure) → ℕ → RunActionParams → Backend P → Reply (Unit {0}) × Backend P
  unfolding delete_paths make_dir rename_path transfer_all
  run_action failure now params b = elim params.action_id [
    | delete ↦ delete_paths failure params.paths [] b
    | mkdir ↦ make_dir (failure (first_or_empty params.paths)) now params b
    | rename ↦ rename_path (failure (first_or_empty params.paths)) params b
    | copy_action ↦ transfer_all failure false params b
    | move_action ↦ transfer_all failure true params b
    | other_action ↦ (thrown unknown_action, b)
  ]
