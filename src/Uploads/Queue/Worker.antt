-- ===== src/Uploads/Queue/Worker.antt =====
-- The worker of the queue: its `run`, cut where it awaits, and the callbacks of an upload.
use zfiles.Common.{
  Bool, true, ◌||◌, List, [], ◌∷◌, none, some, Text, not, if◌then◌else◌, find, any, is_some, get_or,
  erase, assign,
}
use zfiles.Uploads.Sessions.{TusSessionRecord, remove_other_tus_records, upsert_tus_record}
use zfiles.Uploads.Queue.Items.{
  UploadItemStatus, pending, hashing, active, verifying, awaiting_conflict, cancelled,
  UploadQueueItem, Backend, kernel, with_status, is_pending, is_in_flight,
}
use zfiles.Uploads.Queue.State.{
  UploadConflictResolution, replace, keep_both, skip, by_cancel, abort_tus_session,
  tus_sessions_changed, idle, checking, uploading, Queue, has, remove_id, update_where, find_item,
  update, call, clear_progress_flush, abort_signal, is_active,
}

-- The answer of the user to a conflict, as far as the first `await`.
unfoldable pub resolve_upload_conflict : Text → UploadConflictResolution → Bool → Queue → Queue
unfolding update_where find_item with_status
resolve_upload_conflict queue_id resolution for_all q =
    let asked = if for_all then record q { apply_to_all = some resolution } else q in
    elim (find_item queue_id q.items) [
      | none ↦ asked
      | some item ↦ elim item.status [
        | awaiting_conflict ↦ elim resolution [
          | skip ↦ update queue_id (with_status cancelled) asked
          | keep_both ↦ asked
          | replace ↦
              update queue_id
                (λ entry. record entry { status = pending; overwrite_existing = true }) asked
        ]
        | _ ↦ asked
      ]
    ]

-- What follows where both files are kept, once a free path is found.
unfoldable pub resolve_keep_both : Text → Text → Queue → Queue
unfolding update_where
resolve_keep_both queue_id new_path q =
    update queue_id (λ entry. record entry { dest_path = new_path; status = pending }) q

-- The start of `run`, which the change of the items calls: it awaits the check for a conflict.
unfoldable pub begin_run : Queue → Queue
unfolding is_pending is_in_flight
begin_run q = elim q.worker [
  | idle ↦
      if any (λ item. is_in_flight item.status) q.items
      then q
      else elim (find (λ item. is_pending item.status) q.items) [
        | none ↦ q
        | some item ↦
            if has q.cancelled_ids item.id
            then record q { cancelled_ids = remove_id item.id q.cancelled_ids }
            else record q { worker = checking item }
      ]
  | _ ↦ q
]

-- `run` with the conflict settled: it starts the upload, of the item as it now is.
unfoldable pub proceed : UploadQueueItem → Text → Queue → Queue
unfolding find_item update_where is_pending is_active abort_signal
proceed item dest_path q =
    let ready = get_or (find_item item.id q.items) item in
    if is_pending ready.status || is_active ready.status
    then (let started =
          record (update item.id (λ entry. record entry { dest_path = dest_path }) q) {
            abort_controllers = assign q.abort_controllers item.id none;
            worker = uploading item ready dest_path;
          } in
        if has q.cancelled_ids item.id then abort_signal item.id by_cancel started else started)
    else record q { worker = idle }

-- `handleUploadConflict` where the destination is taken, and `run` after it. A path that keeps
-- both files is looked for only where the answer for all asks for it.
unfoldable pub handle_taken : UploadQueueItem → Text → Queue → Queue
unfolding proceed update_where with_status
handle_taken item free_path q = elim q.apply_to_all [
  | none ↦ record (update item.id (λ entry. record entry { status = awaiting_conflict }) q) {
    worker = idle;
  }
  | some skip ↦ record (update item.id (with_status cancelled) q) { worker = idle }
  | some keep_both ↦
      proceed item free_path (update item.id (λ entry. record entry { dest_path = free_path }) q)
  | some replace ↦
      proceed item item.dest_path
        (update item.id (λ entry. record entry { overwrite_existing = true }) q)
]

-- An item that is uploaded without a check of its destination.
unfoldable pub skips_check : UploadQueueItem → Bool
skips_check item = is_some item.multipart_resume || item.overwrite_existing

unfoldable pub end_check : Bool → Text → Queue → Queue
unfolding handle_taken proceed skips_check
end_check exists free_path q = elim q.worker [
  | checking item ↦
      if skips_check item || not exists
      then proceed item item.dest_path q
      else handle_taken item free_path q
  | _ ↦ q
]

unfoldable pub patch_queue_item : Text → (UploadQueueItem → UploadQueueItem) → Queue → Queue
unfolding clear_progress_flush update_where
patch_queue_item queue_id patch q = update queue_id patch (clear_progress_flush queue_id q)

-- A phase begins: the samples of the speed go, and the next report is shown at once.
unfoldable pub reset_samples : Text → Queue → Queue
reset_samples queue_id q = record q {
  samples = assign q.samples queue_id [];
  last_progress_ui_at = erase q.last_progress_ui_at queue_id;
}

unfoldable pub begin_upload_phase : Text → Bool → Queue → Queue
unfolding reset_samples patch_queue_item with_status
begin_upload_phase queue_id reset_offset q =
    patch_queue_item queue_id
      (λ item. record (with_status active item) {
        offset = if reset_offset then 0 else item.offset;
      })
      (reset_samples queue_id q)

unfoldable pub begin_local_phase : UploadItemStatus → Text → Queue → Queue
unfolding reset_samples patch_queue_item with_status
begin_local_phase status queue_id q =
    patch_queue_item queue_id (λ item. record (with_status status item) { offset = 0 })
      (reset_samples queue_id q)

unfoldable pub on_hashing : Text → Queue → Queue
unfolding begin_local_phase
on_hashing queue_id q = begin_local_phase hashing queue_id q

unfoldable pub on_verifying : Text → Queue → Queue
unfolding begin_local_phase
on_verifying queue_id q = begin_local_phase verifying queue_id q

-- An item that has something to resume.
unfoldable pub is_resume : UploadQueueItem → Bool
is_resume item = is_some item.tus_resume || is_some item.multipart_resume

unfoldable pub on_upload_start : Text → Queue → Queue
unfolding abort_signal find_item begin_upload_phase is_resume
on_upload_start queue_id q =
    if has q.cancelled_ids queue_id
    then abort_signal queue_id by_cancel q
    else elim (find_item queue_id q.items) [
      | none ↦ begin_upload_phase queue_id true q
      | some item ↦ begin_upload_phase queue_id (not (is_resume item)) q
    ]

unfoldable pub abort_stale : List TusSessionRecord → Queue → Queue
abort_stale [] q = q
abort_stale (r ∷ rs) q = abort_stale rs (call (abort_tus_session r.upload_id) q)

unfoldable pub report_stale : List TusSessionRecord → Queue → Queue
unfolding abort_stale
report_stale [] q = q
report_stale (r ∷ rs) q = call tus_sessions_changed (abort_stale (r ∷ rs) q)

unfoldable pub tus_record_of : Text → UploadQueueItem → Text → Text → Text → TusSessionRecord
tus_record_of stamp item upload_id location checksum = record {
  upload_id = upload_id;
  tus_location = location;
  dest_path = item.dest_path;
  file_name = item.file_name;
  file_size = item.total;
  file_last_modified = item.file.last_modified;
  checksum_sha256 = checksum;
  created_at = stamp;
}

-- The sessions kept for the item: the others for its destination are dropped and aborted.
unfoldable pub keep_tus_session : Text → Text → UploadQueueItem → Text → Text → Text → Queue → Queue
unfolding report_stale tus_record_of remove_other_tus_records upsert_tus_record
keep_tus_session stamp scope_id item upload_id location checksum q =
    let (stale, sessions) =
      remove_other_tus_records scope_id item.dest_path upload_id q.tus_sessions in
    report_stale stale (record q {
      tus_sessions =
          upsert_tus_record scope_id (tus_record_of stamp item upload_id location checksum)
            sessions;
    })

unfoldable pub on_transfer_session : Backend → Text → Text → Text → Text → Text → Queue → Queue
unfolding find_item update_where keep_tus_session
on_transfer_session backend stamp queue_id upload_id location checksum q =
    let known =
      update queue_id
        (λ item. record item {
          backend_upload_id = some upload_id;
          tus_resume = some (record { location = location; checksum_sha256 = checksum });
        })
        q in
    elim (find_item queue_id q.items) [
      | none ↦ known
      | some item ↦ elim backend [
        | kernel scope_id ↦ keep_tus_session stamp scope_id item upload_id location checksum known
        | _ ↦ known
      ]
    ]
