-- ===== src/Uploads/Queue/Outcomes.antt =====
-- What the end of an upload makes of its item.
use zfiles.Common.{
  ℕ, Bool, true, false, ◌||◌, Option, none, some, Text, if◌then◌else◌, get_or, erase, is_empty,
}
use zfiles.Uploads.Queue.Items.{
  hashing, verifying, paused, cancelled, done, failed, UploadQueueItem, Backend, s3, kernel, other,
  with_status, finished_upload_session_ids,
}
use zfiles.Uploads.Queue.State.{
  multipart_session_finished, tus_session_finished, item_complete, item_failed, idle, uploading,
  pausing, Queue, has, remove_id, find_item, call, clear_progress_flush, commit_progress_item,
}

-- How the awaited upload ends: it returns, or throws a pause, an abort or another error, of which
-- `handleAuthError` takes some.
pub data Outcome : Type 0 where
  returned : Outcome
  pause_error : Outcome
  abort_error : Outcome
  other_error : (message : Text) (is_auth : Bool) → Outcome

unfoldable pub forget_samples : Text → Queue → Queue
forget_samples queue_id q = record q {
  samples = erase q.samples queue_id;
  last_progress_ui_at = erase q.last_progress_ui_at queue_id;
}

-- The `finally` of `run`.
unfoldable pub end_run : Text → Queue → Queue
end_run queue_id q = record q {
  abort_controllers = erase q.abort_controllers queue_id;
  worker = idle;
}

unfoldable pub report_finished : Option Text → Option Text → Text → Queue → Queue
report_finished multipart tus dest_path q =
    let first : Queue = elim multipart [
      | none ↦ q
      | some id ↦ call (multipart_session_finished id) q
    ] in
    let both : Queue = elim tus [
      | none ↦ first
      | some id ↦ call (tus_session_finished id dest_path) first
    ] in
    call item_complete both

unfoldable pub succeed : ℕ → UploadQueueItem → UploadQueueItem → Text → Queue → Queue
unfolding find_item clear_progress_flush commit_progress_item with_status forget_samples
    finished_upload_session_ids report_finished end_run
succeed now item ready dest_path q =
    let last = get_or (find_item item.id q.items) item in
    let (multipart, tus) = finished_upload_session_ids (get_or (find_item item.id q.items) ready) in
    end_run item.id (
      report_finished multipart tus dest_path (
        forget_samples item.id (
          commit_progress_item now item.id (record (with_status done last) { offset = last.total })
            true (clear_progress_flush item.id q))))

-- A failure is told to the user where the error is not one of signing in.
unfoldable pub report_failure : Text → Bool → Queue → Queue
report_failure message is_auth q = if is_auth then q else call (item_failed message) q

unfoldable pub fail : ℕ → Text → UploadQueueItem → Text → Bool → Queue → Queue
unfolding commit_progress_item with_status forget_samples report_failure end_run
fail now queue_id last message is_auth q = end_run queue_id (
    forget_samples queue_id (
      report_failure message is_auth (
        commit_progress_item now queue_id
          (record (with_status failed last) { error = some message }) true q)))

unfoldable pub stop_cancelled : ℕ → Text → UploadQueueItem → Queue → Queue
unfolding commit_progress_item with_status forget_samples end_run
stop_cancelled now queue_id last q = end_run queue_id (
    forget_samples queue_id (commit_progress_item now queue_id (with_status cancelled last) true q))

unfoldable pub is_pause : Outcome → Bool
is_pause outcome = elim outcome [ pause_error ↦ true | _ ↦ false ]

-- The `catch` of `run`: a pause is found before a cancel, and a cancel before a failure.
unfoldable pub catch_error : ℕ → UploadQueueItem → Outcome → Queue → Queue
unfolding find_item clear_progress_flush fail stop_cancelled is_pause
catch_error now item outcome q =
    let last = get_or (find_item item.id q.items) item in
    let known = record (clear_progress_flush item.id q) {
      paused_ids = remove_id item.id q.paused_ids;
      cancelled_ids = remove_id item.id q.cancelled_ids;
    } in
    if has q.paused_ids item.id || is_pause outcome
    then record known { worker = pausing item last }
    else if has q.cancelled_ids item.id
    then stop_cancelled now item.id last known
    else elim outcome [
      | other_error message is_auth ↦ fail now item.id last message is_auth known
      | _ ↦ stop_cancelled now item.id last known
    ]

-- The end of the awaited upload. One that returns after a cancel is thrown away as an abort.
unfoldable pub end_outcome : ℕ → UploadQueueItem → UploadQueueItem → Text → Outcome → Queue → Queue
unfolding succeed catch_error
end_outcome now item ready dest_path returned q =
    if has q.cancelled_ids item.id
    then catch_error now item abort_error q
    else succeed now item ready dest_path q
end_outcome now item ready dest_path pause_error q = catch_error now item pause_error q
end_outcome now item ready dest_path abort_error q = catch_error now item abort_error q
end_outcome now item ready dest_path (other_error message is_auth) q =
    catch_error now item (other_error message is_auth) q

unfoldable pub end_upload : ℕ → Outcome → Queue → Queue
unfolding end_outcome
end_upload now outcome q = elim q.worker [
  | uploading item ready dest_path ↦ end_outcome now item ready dest_path outcome q
  | _ ↦ q
]

-- `resolvePausedUploadOffset`, given what the server answers where it is asked.
unfoldable pub resolve_paused_upload_offset : Backend → Option ℕ → UploadQueueItem → ℕ
resolve_paused_upload_offset backend remote item = elim item.status [
  | hashing ↦ 0
  | verifying ↦ 0
  | _ ↦ elim backend [
    | s3 scope_id v ↦ elim item.multipart_upload [
      | none ↦ get_or item.committed_upload_offset 0
      | some u ↦ get_or remote (get_or item.committed_upload_offset 0)
    ]
    | kernel scope_id ↦ elim item.tus_resume [
      | none ↦ get_or item.committed_upload_offset 0
      | some r ↦
          if is_empty r.location then get_or item.committed_upload_offset 0 else get_or remote 0
    ]
    | other ↦ get_or item.committed_upload_offset 0
  ]
]

unfoldable pub end_pause : Backend → ℕ → Option ℕ → Queue → Queue
unfolding resolve_paused_upload_offset commit_progress_item with_status forget_samples end_run
end_pause backend now remote q = elim q.worker [
  | pausing item source ↦
      let offset = resolve_paused_upload_offset backend remote source in
      end_run item.id (
        forget_samples item.id (
          commit_progress_item now item.id
            (record (with_status paused source) {
              offset = offset;
              committed_upload_offset = some offset;
            })
            true q))
  | _ ↦ q
]
