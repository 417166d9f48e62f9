-- ===== src/Backends/Tests.antt =====
-- The browser's backend over an empty volume.
use zfiles.Common.{
  ℕ, ◌≡◌, refl, true, false, List, [], ◌∷◌, ◌++◌, none, some, Text, codes, show_number, All, lookup,
  arith, text_le, trim,
}
use zfiles.BrowserFs.Paths.{
  normalize_path, path_is_within, path_segments, path_parent, join_path, init, is_valid_path,
  descendant_prefix,
}
use zfiles.BrowserFs.Store.Types.{Blob, ok, require_writable_path, require_transfer_paths, relocate}
use zfiles.BrowserFs.Store.Requests.{
  subtree_nodes, delete_entry, delete_entries, delete_subtree, assert_parent_directory, ensure_from,
  ensure_directory, prepare_transfer,
}
use zfiles.BrowserFs.Store.Operations.{read_blob, write_file, move}
use zfiles.BrowserFs.Store.Empty.{lists, empty_db, empty_db-WellFormed}
use zfiles.Caches.BlobUrls.{empty_cache, get, set, invalidate}
use zfiles.Backends.Browser.{
  Backend, returned, rename, RunActionParams, first_or_empty, download_url, rename_path,
}
use zfiles.Backends.Browser.Coherence.{Coherent}
use zfiles.Backends.Browser.Calls.{
  Call, ask_url, upload_file, IsPlain, renamed_path, perform_all, perform_all-Coherent,
  download_url-read_blob, download_url-rename_path,
}

volume : Unit {0}
unfolding get write_file require_writable_path normalize_path is_valid_path trim ensure_directory
    ensure_from path_parent init invalidate read_blob set show_number
volume = tt

transfer : Unit {0}
unfolding move require_transfer_paths join_path path_is_within prepare_transfer
    assert_parent_directory subtree_nodes descendant_prefix delete_subtree delete_entries
    delete_entry relocate
transfer = tt

abbrev create : ℕ → Blob → Text
create n blob = codes "blob:" ++ show_number n

abbrev bytes : List ℕ → Blob
bytes b = record { bytes = b; mime = [] }

abbrev start : Backend lists
start = record {
  db = empty_db;
  urls = empty_cache;
  last_listed_path = [];
  persist_requested = false;
  events = [];
}

start-Coherent : Coherent lists create start
start-Coherent = record { well = empty_db-WellFormed; shows = λ k url h. unfold lookup in cc h }

-- `a` is written and shown, and written again; then `b` is.
abbrev calls : List Call
calls =
    upload_file none 1 false false (bytes (1 ∷ [])) (codes "a")
    ∷ ask_url none (codes "a")
    ∷ upload_file none 2 false false (bytes (2 ∷ [])) (codes "a")
    ∷ upload_file none 3 false false (bytes (3 ∷ [])) (codes "b")
    ∷ ask_url none (codes "b")
    ∷ []

calls-IsPlain : All IsPlain calls
unfolding path_segments
calls-IsPlain = omega arith

backend : Backend lists
backend = perform_all lists show_number text_le create 32 calls start

asked : download_url lists show_number text_le create 32 none (codes "a") backend ≡ (
  returned (codes "blob:2"),
  (download_url lists show_number text_le create 32 none (codes "a") backend).1,
)
unfolding volume backend perform_all
asked = refl

download_url-read_blob_example :
    (blob : Blob) × (n : ℕ) × (codes "blob:2" ≡ create n blob)
    × ((read_blob lists none
          (codes "a")
          (download_url lists show_number text_le create 32 none (codes "a") backend).1.db).0
        ≡ ok blob)
unfolding perform_all backend
download_url-read_blob_example =
    download_url-read_blob lists show_number text_le create 32 calls none (codes "a") start
      (codes "blob:2") (download_url lists show_number text_le create 32 none (codes "a") backend).1
      start-Coherent calls-IsPlain asked

abbrev replace_b : RunActionParams
replace_b = record {
  action_id = rename;
  paths = codes "a" ∷ [];
  dest_dir = none;
  new_name = some (codes "b");
  overwrite = true;
}

renamed : Backend lists
renamed = (rename_path lists show_number text_le create 32 none replace_b backend).1

replaced :
    rename_path lists show_number text_le create 32 none replace_b backend ≡ (returned tt, renamed)
unfolding volume transfer backend perform_all rename_path renamed
replaced = refl

shown : lookup backend.urls.urls (codes "b") ≡ some (codes "blob:1")
unfolding volume backend perform_all lookup
shown = refl

stored : (read_blob lists none (codes "a") backend.db).0 ≡ ok (bytes (2 ∷ []))
unfolding volume backend perform_all
stored = refl

backend-Coherent : Coherent lists create backend
unfolding backend
backend-Coherent =
    perform_all-Coherent lists show_number text_le create 32 calls start calls-IsPlain
      start-Coherent

-- The first contents of `b` are shown after `a` has replaced it.
download_url-rename_path_example :
    ((blob : Blob) × (n : ℕ) × (codes "blob:1" ≡ create n blob)
      × ((read_blob lists none (codes "b") backend.db).0 ≡ ok blob))
    × ((read_blob lists none (codes "b") renamed.db).0 ≡ ok (bytes (2 ∷ [])))
    × ((download_url lists show_number text_le create 32 none (codes "b") renamed).0
        ≡ returned (codes "blob:1"))
unfolding renamed_path normalize_path first_or_empty join_path path_parent trim path_segments init
download_url-rename_path_example =
    download_url-rename_path lists show_number text_le create 32 none none replace_b backend renamed
      (codes "blob:1") (bytes (2 ∷ [])) backend-Coherent replaced stored shown
