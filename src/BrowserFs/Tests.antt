-- ===== src/BrowserFs/Tests.antt =====
-- A browser filesystem run on lists, and the theorems at concrete trees.
use zfiles.Common.{
  ℕ, ◌≡◌, refl, ◌↔◌, true, false, List, [], ◌∷◌, none, some, Text, codes, arith, if◌then◌else◌,
  text_eq, trim,
}
use zfiles.BrowserFs.Paths.{
  path_segments, normalize_path, path_parent, path_name, join_path, path_is_within, init,
  last_or_empty, is_valid_path, descendant_prefix,
}
use zfiles.BrowserFs.Paths.Laws.{join_path-path_parent-path_name, path_parent-path_name-join_path}
use zfiles.BrowserFs.Paths.Within.{IsPrefix, path_is_within_iff}
use zfiles.BrowserFs.Store.Types.{
  Node, Blob, Db, quota, Result, ok, err, quota_exceeded, not_found, already_exists,
  require_writable_path, require_transfer_paths, relocate, to_browser_fs_error,
}
use zfiles.BrowserFs.Store.Requests.{
  run, subtree_nodes, delete_entry, delete_entries, delete_subtree, assert_parent_directory,
  directory_node, put_directory, ensure_one, step_into, ensure_from, ensure_directory,
  prepare_transfer,
}
use zfiles.BrowserFs.Store.Operations.{
  list_children, read_blob, write_file, make_directory, remove, move, copy, usage_bytes,
  count_blobs,
}
use zfiles.BrowserFs.Store.Empty.{lists, empty_db, empty_db-WellFormed}
use zfiles.BrowserFs.Store.Invariant.{WellFormed}
use zfiles.BrowserFs.Store.Methods.Trees.{
  make_directory-WellFormed, write_file-WellFormed, remove-WellFormed,
}
use zfiles.BrowserFs.Store.Methods.Contents.{get_node-remove, is_within_any}
use zfiles.BrowserFs.Store.Methods.Overwrite.{move_onto_ancestor}
use zfiles.BrowserFs.Store.Methods.Reads.{read_blob-write_file}

store : Unit {0}
unfolding run subtree_nodes delete_entries delete_entry delete_subtree assert_parent_directory
    directory_node put_directory ensure_one step_into ensure_from ensure_directory prepare_transfer
    list_children read_blob write_file make_directory remove move copy usage_bytes count_blobs
    relocate require_writable_path require_transfer_paths path_segments normalize_path path_parent
    path_name join_path path_is_within init last_or_empty is_valid_path descendant_prefix
    to_browser_fs_error trim
store = tt

abbrev text_blob : List ℕ → Blob
text_blob bytes = record { bytes = bytes; mime = codes "text/plain" }

-- `a/b.txt` is written into an empty volume.
one_file : Result Node × Db lists
one_file = write_file lists none 7 (codes "a/b.txt") (text_blob (1 ∷ 2 ∷ [])) none empty_db

one_file_read :
    (read_blob lists none (codes "/a//b.txt") one_file.1).0 ≡ ok (text_blob (1 ∷ 2 ∷ []))
unfolding store one_file
one_file_read = refl

one_file_usage : (usage_bytes lists none one_file.1).0 ≡ ok 2
unfolding store one_file
one_file_usage = refl

write_over_directory :
    (write_file lists none 8 (codes "a") (text_blob []) none one_file.1).0 ≡ err already_exists
unfolding store one_file
write_over_directory = refl

quota_is_reported :
    (make_directory lists (some quota) 8 (codes "c") one_file.1).0 ≡ err quota_exceeded
unfolding store one_file
quota_is_reported = refl

one_file-WellFormed : WellFormed lists one_file.1
unfolding one_file
one_file-WellFormed =
    write_file-WellFormed lists none 7 (codes "a/b.txt") empty_db empty_db-WellFormed
      (unfold store in omega arith) (text_blob (1 ∷ 2 ∷ [])) none

write_file-WellFormed_example :
    WellFormed lists
      (write_file lists none 9 (codes "a/c/d") (text_blob (3 ∷ [])) none one_file.1).1
write_file-WellFormed_example =
    write_file-WellFormed lists none 9 (codes "a/c/d") one_file.1 one_file-WellFormed
      (unfold store in omega arith) (text_blob (3 ∷ [])) none

make_directory-WellFormed_example :
    WellFormed lists (make_directory lists none 9 (codes "a/c/d") one_file.1).1
make_directory-WellFormed_example =
    make_directory-WellFormed lists none 9 (codes "a/c/d") one_file.1 one_file-WellFormed
      (unfold store in omega arith)

remove-WellFormed_example : WellFormed lists (remove lists none (codes "a" ∷ []) one_file.1).1
remove-WellFormed_example =
    remove-WellFormed lists none (codes "a" ∷ []) one_file.1 one_file-WellFormed

removed : Db lists
removed = (remove lists none (codes "a" ∷ []) one_file.1).1

get_node-remove_example : lists.Nodes.get removed.nodes (codes "a/b.txt") ≡ (
    if is_within_any (codes "a" ∷ []) (codes "a/b.txt")
    then none
    else lists.Nodes.get one_file.1.nodes (codes "a/b.txt"))
get_node-remove_example =
    get_node-remove lists none (codes "a" ∷ []) one_file.1 removed one_file-WellFormed
      (unfold store one_file removed in refl) (codes "a/b.txt")

abbrev rewritten : Text
rewritten = codes "a/b.txt"

abbrev new_blob : Blob
new_blob = text_blob (4 ∷ [])

two_files : Result Node × Db lists
two_files = write_file lists none 9 (codes "a/c") new_blob none one_file.1

two_files_node : Node
two_files_node = record {
  path = codes "a/c";
  parent = codes "a";
  name = codes "c";
  is_dir = false;
  size = 1;
  modified = 9;
  content_type = some (codes "text/plain");
  blob_id = some (1 ∷ []);
}

read_blob-write_file_example : (read_blob lists none rewritten two_files.1).0 ≡ (
    if text_eq (normalize_path (codes "a/c")) (normalize_path rewritten)
    then ok new_blob
    else (read_blob lists none rewritten one_file.1).0)
read_blob-write_file_example =
    read_blob-write_file lists none 9 (codes "a/c") new_blob none one_file.1 two_files_node
      two_files.1 one_file-WellFormed (unfold store in omega arith)
      (unfold store one_file two_files two_files_node in refl) rewritten

-- `x/x` is a file, and is moved onto its folder `x`.
nested : Db lists
nested = (write_file lists none 9 (codes "x/x") new_blob none empty_db).1

nested_file : Node
nested_file = record {
  path = codes "x/x";
  parent = codes "x";
  name = codes "x";
  is_dir = false;
  size = 1;
  modified = 9;
  content_type = some (codes "text/plain");
  blob_id = some (0 ∷ []);
}

nested_directory : Node
nested_directory = record {
  path = codes "x";
  parent = [];
  name = codes "x";
  is_dir = true;
  size = 0;
  modified = 9;
  content_type = none;
  blob_id = none;
}

nested-WellFormed : WellFormed lists nested
unfolding nested
nested-WellFormed =
    write_file-WellFormed lists none 9 (codes "x/x") empty_db empty_db-WellFormed
      (unfold store in omega arith) new_blob none

move_onto_ancestor_example :
    ((move lists none (codes "x/x") (codes "x") true nested).0 ≡ ok tt)
    × ((q : Text)
        → path_is_within q (codes "x") ≡ true
        → (read_blob lists none q (move lists none (codes "x/x") (codes "x") true nested).1).0
          ≡ err not_found)
move_onto_ancestor_example =
    move_onto_ancestor lists (codes "x/x") (codes "x") (codes "x/x") (codes "x") nested nested_file
      nested_directory nested-WellFormed (unfold store in refl)
      (unfold store nested nested_file in refl) (unfold store nested nested_directory in refl)
      (unfold store in refl)

join_path-path_parent-path_name_example :
    join_path (path_parent (codes "/a/b/c")) (path_name (codes "/a/b/c"))
    ≡ normalize_path (codes "/a/b/c")
join_path-path_parent-path_name_example =
    join_path-path_parent-path_name (codes "/a/b/c") (unfold store in λ e. cc)

path_parent-path_name-join_path_example :
    (path_parent (join_path (codes "a/") (codes "b")) ≡ normalize_path (codes "a/"))
    × (path_name (join_path (codes "a/") (codes "b")) ≡ codes "b")
path_parent-path_name-join_path_example =
    path_parent-path_name-join_path (codes "a/") (codes "b") (unfold store in refl)

path_is_within_iff_example :
    (path_is_within (codes "ab/c") (codes "a") ≡ true)
    ↔ IsPrefix (path_segments (codes "a")) (path_segments (codes "ab/c"))
path_is_within_iff_example = path_is_within_iff (codes "ab/c") (codes "a")
