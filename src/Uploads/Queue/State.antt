-- ===== src/Uploads/Queue/State.antt =====
-- The state of the queue, and what the user and the server make of it. A change of the items is
-- taken to be rendered before the next step: `items` is both the React state and its ref.
use zfiles.Common.{
  ℕ, Bool, true, false, ◌&&◌, List, [], ◌∷◌, ◌++◌, Option, none, some, Text, text_eq, filter, not,
  if◌then◌else◌, find, any, or_else, map, get_or, Entries, lookup, erase, assign, is_empty,
}
use zfiles.BrowserFs.Paths.{slash}
use zfiles.Uploads.Sessions.{File, TusSessionRecord, MultipartSessionRecord}
use zfiles.Uploads.Sessions.Scopes.{ScopedStore}
use zfiles.Uploads.Queue.Items.{
  UploadItemStatus, pending, active, paused, awaiting_conflict, cancelled, UploadQueueItem, Backend,
  s3, kernel, other, with_status, is_in_flight, is_finished, create_queue_item,
  create_resume_queue_item, create_tus_resume_queue_item, tus_upload_id,
  enrich_paused_item_for_resume, remove_done_upload_item,
}
use zfiles.Uploads.Queue.Progress.{ProgressSample, should_commit_progress_ui, apply_progress_update}

pub data UploadConflictResolution : Type 0 where
  replace : UploadConflictResolution
  keep_both : UploadConflictResolution
  skip : UploadConflictResolution

-- Why an upload's signal was aborted.
pub data AbortReason : Type 0 where
  by_pause : AbortReason
  by_cancel : AbortReason

-- Calls of what is outside the queue, in the order in which they are made.
pub data Call : Type 0 where
  abort_multipart_session : (object_key upload_id : Text) → Call
  abort_tus_session : (upload_id : Text) → Call
  store_file_handle : (scope_id upload_id : Text) → Call
  multipart_session_finished : (upload_id : Text) → Call
  tus_session_finished : (upload_id dest_path : Text) → Call
  tus_sessions_changed : Call
  item_complete : Call
  item_failed : (message : Text) → Call

-- Where the worker's `run` stands: not running, awaiting the check for a conflict, awaiting the
-- upload, or awaiting the offset of an upload that was paused.
pub data Worker : Type 0 where
  idle : Worker
  checking : (item : UploadQueueItem) → Worker
  uploading : (item ready : UploadQueueItem) (dest_path : Text) → Worker
  pausing : (item source : UploadQueueItem) → Worker

pub record Queue : Type 0 where
  pub items : List UploadQueueItem
  pub samples : Entries (List ProgressSample)
  pub last_progress_ui_at : Entries ℕ
  -- An item whose display waits, and with it the timer that will show it.
  pub pending_progress : Entries UploadQueueItem
  pub abort_controllers : Entries (Option AbortReason)
  pub cancelled_ids : List Text
  pub paused_ids : List Text
  pub apply_to_all : Option UploadConflictResolution
  pub initialized_sessions : List Text
  pub persisted_handles : List Text
  pub last_persisted : Entries ℕ
  pub tus_sessions : ScopedStore TusSessionRecord
  pub multipart_sessions : ScopedStore MultipartSessionRecord
  pub worker : Worker
  pub calls : List Call

abbrev pub has : List Text → Text → Bool
has ids id = any (λ i. text_eq i id) ids

abbrev pub remove_id : Text → List Text → List Text
remove_id id = filter (λ i. not (text_eq i id))

-- `prev.map((item) => (item.id === queueId ? f(item) : item))`.
unfoldable pub update_where :
    Text → (UploadQueueItem → UploadQueueItem) → List UploadQueueItem → List UploadQueueItem
update_where queue_id f [] = []
update_where queue_id f (item ∷ items) =
    (if text_eq item.id queue_id then f item else item) ∷ update_where queue_id f items

unfoldable pub find_item : Text → List UploadQueueItem → Option UploadQueueItem
find_item queue_id items = find (λ item. text_eq item.id queue_id) items

abbrev pub update : Text → (UploadQueueItem → UploadQueueItem) → Queue → Queue
update queue_id f q = record q { items = update_where queue_id f q.items }

abbrev pub call : Call → Queue → Queue
call c q = record q { calls = q.calls ++ (c ∷ []) }

unfoldable pub clear_progress_flush : Text → Queue → Queue
clear_progress_flush queue_id q = record q { pending_progress = erase q.pending_progress queue_id }

unfoldable pub show_item : ℕ → Text → UploadQueueItem → Queue → Queue
unfolding update_where
show_item now queue_id updated q = record (update queue_id (λ item. updated) q) {
  last_progress_ui_at = assign q.last_progress_ui_at queue_id now;
}

unfoldable pub commit_progress_item : ℕ → Text → UploadQueueItem → Bool → Queue → Queue
unfolding should_commit_progress_ui clear_progress_flush show_item
commit_progress_item now queue_id updated force q =
    if should_commit_progress_ui (lookup q.last_progress_ui_at queue_id) now force
    then show_item now queue_id updated (clear_progress_flush queue_id q)
    else record q { pending_progress = assign q.pending_progress queue_id updated }

-- The timer of an item whose display waits.
unfoldable pub flush_progress : ℕ → Text → Queue → Queue
unfolding clear_progress_flush show_item
flush_progress now queue_id q = elim (lookup q.pending_progress queue_id) [
  | none ↦ q
  | some waiting ↦ show_item now queue_id waiting (clear_progress_flush queue_id q)
]

unfoldable pub ingest_progress :
    ℕ
    → Text
    → UploadQueueItem
    → ℕ
    → Option ℕ
    → Option Text
    → Option ℕ
    → Queue
    → UploadQueueItem × Queue
unfolding apply_progress_update
ingest_progress now queue_id item offset total backend_upload_id committed q =
    let (updated, next) =
      apply_progress_update item offset total now (get_or (lookup q.samples queue_id) [])
        backend_upload_id committed in
    (updated, record q { samples = assign q.samples queue_id next })

-- The path of a file that is dropped on a folder.
abbrev pub dropped_path : Text → Text → Text
dropped_path base_path name = if is_empty base_path then name else base_path ++ (slash ∷ name)

-- A dropped file, with the id that its item will have.
pub record Dropped : Type 0 where
  pub id : Text
  pub file : File
  pub has_handle : Bool

unfoldable pub enqueue : Bool → ℕ → List Dropped → Text → Queue → Queue
unfolding create_queue_item
enqueue read_only now dropped base_path q = if read_only then q else record q {
  items =
      q.items
      ++ map
          (λ d. create_queue_item d.id now d.file (dropped_path base_path d.file.name) d.has_handle)
          dropped;
}

unfoldable pub enqueue_resume : Bool → Text → ℕ → File → MultipartSessionRecord → ℕ → Queue → Queue
unfolding create_resume_queue_item
enqueue_resume read_only id now file r initial_offset q = if read_only then q else record q {
  items = q.items ++ (create_resume_queue_item id now file r initial_offset ∷ []);
}

unfoldable pub enqueue_tus_resume : Bool → Text → ℕ → File → TusSessionRecord → ℕ → Queue → Queue
unfolding create_tus_resume_queue_item
enqueue_tus_resume read_only id now file r initial_offset q = if read_only then q else record q {
  items = q.items ++ (create_tus_resume_queue_item id now file r initial_offset ∷ []);
}

unfoldable pub clear_finished : Queue → Queue
unfolding is_finished
clear_finished q = record q { items = filter (λ item. not (is_finished item.status)) q.items }

unfoldable pub clear_done : Text → Queue → Queue
unfolding remove_done_upload_item
clear_done queue_id q = record q { items = remove_done_upload_item queue_id q.items }

-- The abort of an item's session on the server: where it succeeds the session's end is reported,
-- and where it fails nothing is.
unfoldable pub abort_session : Backend → UploadQueueItem → Queue → Queue
unfolding tus_upload_id
abort_session (s3 scope_id v) item q = elim item.multipart_upload [
  | none ↦ q
  | some u ↦ call (abort_multipart_session u.object_key u.upload_id) q
]
abort_session (kernel scope_id) item q = elim (tus_upload_id item) [
  | none ↦ q
  | some [] ↦ q
  | some (c ∷ id) ↦ call (abort_tus_session (c ∷ id)) q
]
abort_session other item q = q

-- An aborted signal keeps its first reason.
unfoldable pub abort_signal : Text → AbortReason → Queue → Queue
abort_signal queue_id reason q = elim (lookup q.abort_controllers queue_id) [
  | none ↦ q
  | some signal ↦ record q {
    abort_controllers = assign q.abort_controllers queue_id (or_else signal (some reason));
  }
]

abbrev pub drop_item : Text → Queue → Queue
drop_item queue_id q = record q {
  items = filter (λ entry. not (text_eq entry.id queue_id)) q.items;
  cancelled_ids = remove_id queue_id q.cancelled_ids;
}

unfoldable pub cancel_paused : Backend → Text → UploadQueueItem → Queue → Queue
unfolding abort_session update_where with_status
cancel_paused backend queue_id item q =
    update queue_id (with_status cancelled)
      (abort_session backend item (record q { cancelled_ids = remove_id queue_id q.cancelled_ids }))

unfoldable pub cancel_in_flight : Backend → Text → UploadQueueItem → Queue → Queue
unfolding abort_session abort_signal
cancel_in_flight backend queue_id item q =
    abort_session backend item (abort_signal queue_id by_cancel q)

unfoldable pub cancel_status : Backend → Text → UploadQueueItem → Queue → Queue
unfolding cancel_paused cancel_in_flight is_in_flight
cancel_status backend queue_id item q = elim item.status [
  | pending ↦ drop_item queue_id q
  | awaiting_conflict ↦ drop_item queue_id q
  | paused ↦ cancel_paused backend queue_id item q
  | _ ↦ if is_in_flight item.status then cancel_in_flight backend queue_id item q else q
]

unfoldable pub cancel_upload : Backend → Text → Queue → Queue
unfolding find_item clear_progress_flush cancel_status
cancel_upload backend queue_id q = elim (find_item queue_id q.items) [
  | none ↦ q
  | some item ↦ cancel_status backend queue_id item (
      clear_progress_flush queue_id
        (record q { cancelled_ids = queue_id ∷ remove_id queue_id q.cancelled_ids }))
]

unfoldable pub is_active : UploadItemStatus → Bool
is_active status = elim status [ active ↦ true | _ ↦ false ]

unfoldable pub pause_upload : Text → Queue → Queue
unfolding find_item clear_progress_flush abort_signal is_active
pause_upload queue_id q = elim (find_item queue_id q.items) [
  | none ↦ q
  | some item ↦
      if is_active item.status
      then abort_signal queue_id by_pause (
          clear_progress_flush queue_id
            (record q { paused_ids = queue_id ∷ remove_id queue_id q.paused_ids }))
      else q
]

unfoldable pub resume_upload : Backend → Text → Queue → Queue
unfolding update_where enrich_paused_item_for_resume
resume_upload backend queue_id q =
    update queue_id (enrich_paused_item_for_resume backend q.multipart_sessions) q

-- The item that a report of the server is about: an active one, with its id or still without one.
unfoldable pub reported_item : Text → List UploadQueueItem → Option UploadQueueItem
unfolding is_active
reported_item progress_id items =
    find
      (λ item.
        is_active item.status
        && elim item.backend_upload_id [ none ↦ true | some id ↦ text_eq id progress_id ])
      items

unfoldable pub apply_remote_progress : ℕ → Text → ℕ → Option ℕ → Option ℕ → Queue → Queue
unfolding reported_item ingest_progress commit_progress_item
apply_remote_progress now progress_id offset total committed q =
    elim (reported_item progress_id q.items) [
      | none ↦ q
      | some item ↦
          let (updated, next) =
            ingest_progress now item.id item offset total (some progress_id) committed q in
          commit_progress_item now item.id updated false next
    ]
