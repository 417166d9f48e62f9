-- ===== src/Uploads/Queue/Steps.antt =====
-- The steps of the queue: what the user, the server, the timers and the worker's awaits bring.
use zfiles.Common.{ℕ, Bool, List, [], ◌∷◌, Option, none, Text}
use zfiles.Uploads.Sessions.{File, TusSessionRecord, MultipartSessionRecord}
use zfiles.Uploads.Sessions.Scopes.{ScopedStore}
use zfiles.Uploads.Queue.Items.{Backend, MultipartUpload}
use zfiles.Uploads.Queue.State.{
  Queue, idle, uploading, UploadConflictResolution, Dropped, enqueue, enqueue_resume,
  enqueue_tus_resume, clear_finished, clear_done, cancel_upload, pause_upload, resume_upload,
  apply_remote_progress, flush_progress,
}
use zfiles.Uploads.Queue.Worker.{
  resolve_upload_conflict, resolve_keep_both, begin_run, end_check, on_hashing, on_verifying,
  on_upload_start, on_transfer_session,
}
use zfiles.Uploads.Queue.Transfer.{UploadProgress, on_multipart_session, on_upload_progress}
use zfiles.Uploads.Queue.Outcomes.{Outcome, end_upload, end_pause}

pub data Event : Type 0 where
  enqueued : (read_only : Bool) (now : ℕ) (dropped : List Dropped) (base_path : Text) → Event
  enqueued_resume :
      (read_only : Bool) (id : Text) (now : ℕ) (file : File) (r : MultipartSessionRecord)
      (offset : ℕ)
      → Event
  enqueued_tus_resume :
      (read_only : Bool) (id : Text) (now : ℕ) (file : File) (r : TusSessionRecord) (offset : ℕ)
      → Event
  cleared_finished : Event
  cleared_done : (id : Text) → Event
  cancel_asked : (id : Text) → Event
  pause_asked : (id : Text) → Event
  resume_asked : (id : Text) → Event
  conflict_answered : (id : Text) (resolution : UploadConflictResolution) (for_all : Bool) → Event
  free_path_found : (id path : Text) → Event
  progress_reported : (id : Text) (now offset : ℕ) (total committed : Option ℕ) → Event
  timer_fired : (id : Text) (now : ℕ) → Event
  run_began : Event
  check_ended : (exists : Bool) (free_path : Text) → Event
  hashing_began : Event
  upload_began : Event
  verifying_began : Event
  transfer_session : (stamp upload_id location checksum : Text) → Event
  multipart_session :
      (stamp : Text) (u : MultipartUpload) (part_size : ℕ) (validation : Bool)
      (checksum : Option Text)
      → Event
  upload_progressed : (stamp : Text) (now : ℕ) (progress : UploadProgress) → Event
  upload_ended : (now : ℕ) (outcome : Outcome) → Event
  pause_ended : (now : ℕ) (remote : Option ℕ) → Event

-- A callback of the backend: it is called for the upload that the worker awaits.
unfoldable pub for_upload : (Text → Queue → Queue) → Queue → Queue
for_upload f q = elim q.worker [ uploading item ready dest_path ↦ f item.id q | _ ↦ q ]

unfoldable pub step : Backend → Event → Queue → Queue
unfolding for_upload
step backend (enqueued read_only now dropped base_path) q =
    enqueue read_only now dropped base_path q
step backend (enqueued_resume read_only id now file r offset) q =
    enqueue_resume read_only id now file r offset q
step backend (enqueued_tus_resume read_only id now file r offset) q =
    enqueue_tus_resume read_only id now file r offset q
step backend cleared_finished q = clear_finished q
step backend (cleared_done id) q = clear_done id q
step backend (cancel_asked id) q = cancel_upload backend id q
step backend (pause_asked id) q = pause_upload id q
step backend (resume_asked id) q = resume_upload backend id q
step backend (conflict_answered id resolution for_all) q =
    resolve_upload_conflict id resolution for_all q
step backend (free_path_found id path) q = resolve_keep_both id path q
step backend (progress_reported id now offset total committed) q =
    apply_remote_progress now id offset total committed q
step backend (timer_fired id now) q = flush_progress now id q
step backend run_began q = begin_run q
step backend (check_ended exists free_path) q = end_check exists free_path q
step backend hashing_began q = for_upload on_hashing q
step backend upload_began q = for_upload on_upload_start q
step backend verifying_began q = for_upload on_verifying q
step backend (transfer_session stamp upload_id location checksum) q =
    for_upload (λ id p. on_transfer_session backend stamp id upload_id location checksum p) q
step backend (multipart_session stamp u part_size validation checksum) q =
    for_upload (λ id p. on_multipart_session backend stamp id u part_size validation checksum p) q
step backend (upload_progressed stamp now progress) q =
    for_upload (λ id p. on_upload_progress backend stamp now id progress p) q
step backend (upload_ended now outcome) q = end_upload now outcome q
step backend (pause_ended now remote) q = end_pause backend now remote q

unfoldable pub steps : Backend → List Event → Queue → Queue
unfolding step
steps backend [] q = q
steps backend (e ∷ es) q = steps backend es (step backend e q)

-- The queue when the page is opened, with the sessions that the browser has kept.
abbrev pub opened : ScopedStore TusSessionRecord → ScopedStore MultipartSessionRecord → Queue
opened tus multipart = record {
  items = [];
  samples = [];
  last_progress_ui_at = [];
  pending_progress = [];
  abort_controllers = [];
  cancelled_ids = [];
  paused_ids = [];
  apply_to_all = none;
  initialized_sessions = [];
  persisted_handles = [];
  last_persisted = [];
  tus_sessions = tus;
  multipart_sessions = multipart;
  worker = idle;
  calls = [];
}
