-- ===== src/Uploads/Sessions.antt =====
-- The records of unfinished uploads, by scope (web/src/local/tusSessions.ts and
-- web/src/cloud/multipartSessions.ts). The store is what `readStore` parses and `writeStore` saves.
pub mod Scopes
pub mod Laws
pub mod Others
use zfiles.Common.{
  ℕ, ◌<◌, ◌≤◌, ◌≡◌, refl, Bool, true, false, ◌&&◌, ◌||◌, List, [], ◌∷◌, ◌++◌, Option, none, some,
  Text, text_eq, filter, not, if◌then◌else◌, arith, find, any, split, ◌==◌, ◌*◌, ◌+◌, ◌/◌, length,
  is_some, is_empty, ltb, codes,
}
use zfiles.BrowserFs.Paths.{slash, last_or_empty}
use zfiles.Uploads.Sessions.Scopes.{ScopedStore, records_of, set_scope, delete_scope, has_scope}

-- What the queue reads of a browser's `File`.
pub record File : Type 0 where
  pub name : Text
  pub size : ℕ
  pub last_modified : ℕ

pub record TusSessionRecord : Type 0 where
  pub upload_id : Text
  pub tus_location : Text
  pub dest_path : Text
  pub file_name : Text
  pub file_size : ℕ
  pub file_last_modified : ℕ
  pub checksum_sha256 : Text
  pub created_at : Text

pub record MultipartSessionRecord : Type 0 where
  pub upload_id : Text
  pub object_key : Text
  pub dest_path : Text
  pub file_name : Text
  pub file_size : ℕ
  pub file_last_modified : ℕ
  pub part_size : ℕ
  pub checksum_validation : Bool
  pub checksum_sha256 : Option Text
  pub bytes_uploaded : Option ℕ
  pub created_at : Text

unfoldable pub tus_upload_id_from_location : Text → Text
tus_upload_id_from_location location = last_or_empty (split slash location)

unfoldable pub file_matches_tus_record : File → TusSessionRecord → Bool
file_matches_tus_record file r =
    text_eq file.name r.file_name
    && (file.size == r.file_size)
    && (file.last_modified == r.file_last_modified)

unfoldable pub compute_multipart_part_size : ℕ → ℕ
compute_multipart_part_size file_size =
    let min_part_size = 5 * 1024 * 1024 in
    let share = (file_size + 9999) / 10000 in
    if ltb min_part_size share then share else min_part_size

unfoldable pub file_matches_multipart_record_by_handle : File → MultipartSessionRecord → Bool
file_matches_multipart_record_by_handle file r =
    text_eq file.name r.file_name && (file.size == r.file_size)

unfoldable pub file_matches_multipart_record : File → MultipartSessionRecord → Bool
unfolding file_matches_multipart_record_by_handle
file_matches_multipart_record file r =
    file_matches_multipart_record_by_handle file r && (file.last_modified == r.file_last_modified)

-- The scope with the records that are left: it goes where none is.
unfoldable pub save_scope : {R : Type 0} → ScopedStore R → Text → List R → ScopedStore R
save_scope store scope_id [] = delete_scope store scope_id
save_scope store scope_id (r ∷ rs) = set_scope store scope_id (r ∷ rs)

unfoldable pub find_tus_record :
    ScopedStore TusSessionRecord → Text → Text → Option TusSessionRecord
find_tus_record store scope_id upload_id =
    find (λ entry. text_eq entry.upload_id upload_id) (records_of store scope_id)

unfoldable pub upsert_tus_record :
    Text → TusSessionRecord → ScopedStore TusSessionRecord → ScopedStore TusSessionRecord
upsert_tus_record scope_id r store = set_scope store scope_id (
    filter (λ entry. not (text_eq entry.upload_id r.upload_id)) (records_of store scope_id)
    ++ (r ∷ []))

unfoldable pub remove_tus_record :
    Text → Text → ScopedStore TusSessionRecord → ScopedStore TusSessionRecord
unfolding save_scope
remove_tus_record scope_id upload_id store =
    if has_scope store scope_id
    then save_scope store scope_id
        (filter (λ entry. not (text_eq entry.upload_id upload_id)) (records_of store scope_id))
    else store

-- Another session for the same destination.
unfoldable pub is_other : Text → Text → TusSessionRecord → Bool
is_other dest_path keep_upload_id entry =
    text_eq entry.dest_path dest_path && not (text_eq entry.upload_id keep_upload_id)

unfoldable pub remove_other_tus_records :
    Text
    → Text
    → Text
    → ScopedStore TusSessionRecord
    → List TusSessionRecord × ScopedStore TusSessionRecord
unfolding save_scope is_other
remove_other_tus_records scope_id dest_path keep_upload_id store =
    let existing = records_of store scope_id in
    let next = filter (λ entry. not (is_other dest_path keep_upload_id entry)) existing in
    elim (filter (is_other dest_path keep_upload_id) existing) [
      | [] ↦ ([], store)
      | r ∷ rs ↦ (r ∷ rs, save_scope store scope_id next)
    ]

unfoldable pub find_multipart_record :
    ScopedStore MultipartSessionRecord → Text → Text → Option MultipartSessionRecord
find_multipart_record store scope_id upload_id =
    find (λ entry. text_eq entry.upload_id upload_id) (records_of store scope_id)

-- A record that an upsert leaves in place.
unfoldable pub is_unrelated : MultipartSessionRecord → MultipartSessionRecord → Bool
is_unrelated r entry =
    not (text_eq entry.upload_id r.upload_id) && not (text_eq entry.object_key r.object_key)

unfoldable pub upsert_multipart_record :
    Text
    → MultipartSessionRecord
    → ScopedStore MultipartSessionRecord
    → ScopedStore MultipartSessionRecord
unfolding is_unrelated
upsert_multipart_record scope_id r store =
    set_scope store scope_id (filter (is_unrelated r) (records_of store scope_id) ++ (r ∷ []))

unfoldable pub remove_multipart_record :
    Text → Text → ScopedStore MultipartSessionRecord → ScopedStore MultipartSessionRecord
unfolding save_scope
remove_multipart_record scope_id upload_id store =
    if has_scope store scope_id
    then save_scope store scope_id
        (filter (λ entry. not (text_eq entry.upload_id upload_id)) (records_of store scope_id))
    else store

unfoldable pub prune_stale_multipart_records :
    Text → List Text → ScopedStore MultipartSessionRecord → ScopedStore MultipartSessionRecord
unfolding save_scope
prune_stale_multipart_records scope_id active_upload_ids store =
    let existing = records_of store scope_id in
    let next = filter (λ entry. any (λ u. text_eq u entry.upload_id) active_upload_ids) existing in
    if not (has_scope store scope_id) || (length next == length existing)
    then store
    else save_scope store scope_id next

unfoldable pub clear_scoped_records : {R : Type 0} → Text → ScopedStore R → ScopedStore R
clear_scoped_records scope_id store =
    if has_scope store scope_id then delete_scope store scope_id else store
