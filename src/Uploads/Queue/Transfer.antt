-- ===== src/Uploads/Queue/Transfer.antt =====
-- The queue while an upload runs.
use zfiles.Common.{
  ℕ, Bool, true, false, ◌&&◌, ◌∷◌, Option, none, some, Text, not, if◌then◌else◌, get_or, lookup,
  assign, is_empty, ◌==◌,
}
use zfiles.Uploads.Sessions.{
  MultipartSessionRecord, upsert_multipart_record, find_multipart_record,
  compute_multipart_part_size,
}
use zfiles.Uploads.Queue.Items.{
  UploadItemStatus, hashing, UploadQueueItem, Backend, s3, kernel, other, MultipartUpload,
  truthy_id,
}
use zfiles.Uploads.Queue.Progress.{upload_status_for_progress}
use zfiles.Uploads.Queue.State.{
  store_file_handle, Queue, has, update_where, find_item, update, call, commit_progress_item,
  ingest_progress, is_active,
}
use zfiles.Uploads.Queue.Worker.{reset_samples}

-- What the queue saves of a multipart upload.
unfoldable pub multipart_record_of :
    Text
    → UploadQueueItem
    → MultipartUpload
    → ℕ
    → Bool
    → Option Text
    → Option ℕ
    → MultipartSessionRecord
multipart_record_of stamp item u part_size validation checksum bytes_uploaded = record {
  upload_id = u.upload_id;
  object_key = u.object_key;
  dest_path = item.dest_path;
  file_name = item.file_name;
  file_size = item.total;
  file_last_modified = item.file.last_modified;
  part_size = part_size;
  checksum_validation = validation;
  checksum_sha256 = checksum;
  bytes_uploaded = bytes_uploaded;
  created_at = stamp;
}

unfoldable pub begin_multipart :
    Text → Text → Text → MultipartUpload → ℕ → Bool → Option Text → UploadQueueItem → Queue → Queue
unfolding upsert_multipart_record multipart_record_of update_where
begin_multipart stamp scope_id queue_id u part_size validation checksum item q =
    if has q.initialized_sessions u.upload_id
    then q
    else update queue_id (λ entry. record entry { multipart_upload = some u })
        (record q {
          initialized_sessions = u.upload_id ∷ q.initialized_sessions;
          multipart_sessions =
              upsert_multipart_record scope_id
                (multipart_record_of stamp item u part_size validation checksum none)
                q.multipart_sessions;
        })

unfoldable pub on_multipart_session :
    Backend → Text → Text → MultipartUpload → ℕ → Bool → Option Text → Queue → Queue
unfolding find_item begin_multipart
on_multipart_session (s3 scope_id v) stamp queue_id u part_size validation checksum q =
    elim (find_item queue_id q.items) [
      | none ↦ q
      | some item ↦ begin_multipart stamp scope_id queue_id u part_size validation checksum item q
    ]
on_multipart_session (kernel scope_id) stamp queue_id u part_size validation checksum q = q
on_multipart_session other stamp queue_id u part_size validation checksum q = q

pub record UploadProgress : Type 0 where
  pub id : Text
  pub offset : ℕ
  pub length : Option ℕ
  pub multipart_upload_id : Option Text
  pub committed_offset : Option ℕ

-- The key of the object that the item is uploaded to, which a report without one gives by its id.
unfoldable pub object_key_of : UploadQueueItem → UploadProgress → Text
object_key_of item progress = elim item.multipart_upload [
  | none ↦ progress.id
  | some u ↦ u.object_key
]

unfoldable pub record_or :
    Option MultipartSessionRecord → MultipartSessionRecord → MultipartSessionRecord
record_or none fresh = fresh
record_or (some old) fresh = record fresh {
  part_size = old.part_size;
  checksum_validation = old.checksum_validation;
  checksum_sha256 = old.checksum_sha256;
  created_at = old.created_at;
}

-- `shouldPersistMultipartCommittedBytes`.
unfoldable pub should_persist : Option ℕ → ℕ → Bool
should_persist none committed_bytes = true
should_persist (some last) committed_bytes = not (last == committed_bytes)

unfoldable pub persist_handle : Text → Text → UploadQueueItem → Queue → Queue
persist_handle scope_id upload_id item q =
    if item.has_source_file_handle && not (has q.persisted_handles upload_id)
    then call (store_file_handle scope_id upload_id)
        (record q { persisted_handles = upload_id ∷ q.persisted_handles })
    else q

unfoldable pub persist_bytes :
    Text → Text → Bool → MultipartUpload → ℕ → UploadQueueItem → Queue → Queue
unfolding should_persist record_or find_multipart_record upsert_multipart_record multipart_record_of
    compute_multipart_part_size
persist_bytes stamp scope_id validation u bytes item q =
    if should_persist (lookup q.last_persisted u.upload_id) bytes
    then record q {
      last_persisted = assign q.last_persisted u.upload_id bytes;
      multipart_sessions =
          upsert_multipart_record scope_id
            (record_or (find_multipart_record q.multipart_sessions scope_id u.upload_id) (
              multipart_record_of stamp item u (compute_multipart_part_size item.total) validation
                none (some bytes)))
            q.multipart_sessions;
    }
    else q

unfoldable pub persist_progress :
    Backend → Text → UploadQueueItem → UploadProgress → Text → Queue → Queue
unfolding persist_handle persist_bytes object_key_of
persist_progress (s3 scope_id validation) stamp item progress upload_id q =
    persist_bytes stamp scope_id validation
      (record { upload_id = upload_id; object_key = object_key_of item progress })
      (get_or progress.committed_offset progress.offset) item
      (persist_handle scope_id upload_id item q)
persist_progress (kernel scope_id) stamp item progress upload_id q = q
persist_progress other stamp item progress upload_id q = q

-- The hashing of a file ends with the first report of its transfer.
unfoldable pub leave_hashing : Text → UploadItemStatus → UploadQueueItem → Queue → Queue
unfolding is_active reset_samples
leave_hashing queue_id status item q =
    if is_active status && elim item.status [ hashing ↦ true | _ ↦ false ]
    then reset_samples queue_id q
    else q

unfoldable pub multipart_after : UploadQueueItem → UploadProgress → Option MultipartUpload
unfolding object_key_of truthy_id
multipart_after item progress = elim (truthy_id progress.multipart_upload_id) [
  | none ↦ item.multipart_upload
  | some u ↦
      let key = object_key_of item progress in
      some (record { upload_id = u; object_key = if is_empty key then progress.id else key })
]

unfoldable pub ingest_report :
    Backend → Text → ℕ → Text → UploadProgress → UploadQueueItem → Queue → Queue
unfolding truthy_id upload_status_for_progress leave_hashing persist_progress multipart_after
    ingest_progress commit_progress_item
ingest_report backend stamp now queue_id progress item q =
    let status = upload_status_for_progress progress.id in
    let left = leave_hashing queue_id status item q in
    let saved : Queue = elim (truthy_id progress.multipart_upload_id) [
      | none ↦ left
      | some u ↦ persist_progress backend stamp item progress u left
    ] in
    let (updated, next) =
      ingest_progress now queue_id
        (record item { status = status; multipart_upload = multipart_after item progress })
        progress.offset progress.length (some progress.id) progress.committed_offset saved in
    commit_progress_item now queue_id updated false next

unfoldable pub on_upload_progress : Backend → Text → ℕ → Text → UploadProgress → Queue → Queue
unfolding find_item ingest_report
on_upload_progress backend stamp now queue_id progress q =
    if has q.cancelled_ids queue_id then q else elim (find_item queue_id q.items) [
      | none ↦ q
      | some item ↦ ingest_report backend stamp now queue_id progress item q
    ]
