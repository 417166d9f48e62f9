-- ===== src/Uploads/Queue/Flight/Single.antt =====
-- The items in flight after any sequence of steps.
use zfiles.Common.{◌≡◌, refl, ◌∙◌, sym, subst, true, List, [], ◌∷◌, Text, In, lookup}
use zfiles.Uploads.Sessions.{TusSessionRecord, MultipartSessionRecord}
use zfiles.Uploads.Sessions.Scopes.{ScopedStore}
use zfiles.Uploads.Queue.Items.{UploadQueueItem, Backend, is_in_flight}
use zfiles.Uploads.Queue.State.{Queue, Worker, idle, checking, uploading, pausing}
use zfiles.Uploads.Queue.Worker.{on_hashing, on_upload_start, on_verifying, on_transfer_session}
use zfiles.Uploads.Queue.Transfer.{on_multipart_session, on_upload_progress}
use zfiles.Uploads.Queue.Steps.{
  Event, enqueued, enqueued_resume, enqueued_tus_resume, cleared_finished, cleared_done,
  cancel_asked, pause_asked, resume_asked, conflict_answered, free_path_found, progress_reported,
  timer_fired, run_began, check_ended, hashing_began, upload_began, verifying_began,
  transfer_session, multipart_session, upload_progressed, upload_ended, pause_ended, for_upload,
  step, steps, opened,
}
use zfiles.Uploads.Queue.Flight.{IsOnly, IsSingle, Holds}
use zfiles.Uploads.Queue.Flight.Events.{
  Keeps, Keeps-IsSingle, Keeps-enqueue, Keeps-enqueue_resume, Keeps-enqueue_tus_resume,
  Keeps-clear_finished, Keeps-clear_done,
}
use zfiles.Uploads.Queue.Flight.Users.{Keeps-cancel_upload, Keeps-pause_upload, Keeps-resume_upload}
use zfiles.Uploads.Queue.Flight.Answers.{
  Keeps-resolve_upload_conflict, Keeps-resolve_keep_both, Keeps-apply_remote_progress,
}
use zfiles.Uploads.Queue.Flight.Callbacks.{
  Keeps-on_hashing, Keeps-on_upload_start, Keeps-on_verifying, Keeps-on_transfer_session,
  Keeps-on_multipart_session,
}
use zfiles.Uploads.Queue.Flight.Reports.{Keeps-on_upload_progress, Keeps-flush_progress}
use zfiles.Uploads.Queue.Flight.Runs.{begin_run-IsSingle, end_check-IsSingle}
use zfiles.Uploads.Queue.Flight.Ends.{end_upload-IsSingle, end_pause-IsSingle}

for_upload-IsSingle :
    (f : Text → Queue → Queue) (q : Queue)
    → ((Ok : Text → Type 0) (id : Text) → Ok id → IsOnly Ok q → Keeps Ok q (f id q))
    → IsSingle q
    → IsSingle (for_upload f q)
unfolding for_upload
for_upload-IsSingle f q keeps s = go q.worker refl
  where
    go :
        (w : Worker)
        → q.worker ≡ w
        → IsSingle (elim w [ uploading item ready dest_path ↦ f item.id q | _ ↦ q ])
    go (uploading item ready dest_path) e = Keeps-IsSingle q (f item.id q) s (
        keeps (Holds q.worker) item.id (subst (λ (w : Worker). Holds w item.id) (sym e) refl)
          s.only)
    go idle e = s
    go (checking item) e = s
    go (pausing item source) e = s

-- No step of the queue puts a second item in flight.
pub step-IsSingle :
    (backend : Backend) (e : Event) (q : Queue) → IsSingle q → IsSingle (step backend e q)
unfolding step
step-IsSingle backend (enqueued read_only now dropped base_path) q s =
    Keeps-IsSingle q (step backend (enqueued read_only now dropped base_path) q) s
      (Keeps-enqueue (Holds q.worker) q s.only read_only now dropped base_path)
step-IsSingle backend (enqueued_resume read_only id now file r offset) q s =
    Keeps-IsSingle q (step backend (enqueued_resume read_only id now file r offset) q) s
      (Keeps-enqueue_resume (Holds q.worker) q s.only read_only id now file r offset)
step-IsSingle backend (enqueued_tus_resume read_only id now file r offset) q s =
    Keeps-IsSingle q (step backend (enqueued_tus_resume read_only id now file r offset) q) s
      (Keeps-enqueue_tus_resume (Holds q.worker) q s.only read_only id now file r offset)
step-IsSingle backend (cleared_finished) q s =
    Keeps-IsSingle q (step backend (cleared_finished) q) s
      (Keeps-clear_finished (Holds q.worker) q s.only)
step-IsSingle backend (cleared_done id) q s =
    Keeps-IsSingle q (step backend (cleared_done id) q) s
      (Keeps-clear_done (Holds q.worker) q s.only id)
step-IsSingle backend (cancel_asked id) q s =
    Keeps-IsSingle q (step backend (cancel_asked id) q) s
      (Keeps-cancel_upload (Holds q.worker) backend id q s.only)
step-IsSingle backend (pause_asked id) q s =
    Keeps-IsSingle q (step backend (pause_asked id) q) s
      (Keeps-pause_upload (Holds q.worker) backend id q s.only)
step-IsSingle backend (resume_asked id) q s =
    Keeps-IsSingle q (step backend (resume_asked id) q) s
      (Keeps-resume_upload (Holds q.worker) backend id q s.only)
step-IsSingle backend (conflict_answered id resolution for_all) q s =
    Keeps-IsSingle q (step backend (conflict_answered id resolution for_all) q) s
      (Keeps-resolve_upload_conflict (Holds q.worker) backend id resolution for_all q s.only)
step-IsSingle backend (free_path_found id path) q s =
    Keeps-IsSingle q (step backend (free_path_found id path) q) s
      (Keeps-resolve_keep_both (Holds q.worker) backend id path q s.only)
step-IsSingle backend (progress_reported id now offset total committed) q s =
    Keeps-IsSingle q (step backend (progress_reported id now offset total committed) q) s
      (Keeps-apply_remote_progress (Holds q.worker) backend id now offset total committed q s.only)
step-IsSingle backend (timer_fired id now) q s =
    Keeps-IsSingle q (step backend (timer_fired id now) q) s
      (Keeps-flush_progress (Holds q.worker) id now q s.only)
step-IsSingle backend run_began q s = begin_run-IsSingle q s
step-IsSingle backend (check_ended exists free_path) q s = end_check-IsSingle exists free_path q s
step-IsSingle backend (hashing_began) q s =
    for_upload-IsSingle on_hashing q (λ Ok id ok o. Keeps-on_hashing Ok id ok q o) s
step-IsSingle backend (upload_began) q s =
    for_upload-IsSingle on_upload_start q (λ Ok id ok o. Keeps-on_upload_start Ok id ok q o) s
step-IsSingle backend (verifying_began) q s =
    for_upload-IsSingle on_verifying q (λ Ok id ok o. Keeps-on_verifying Ok id ok q o) s
step-IsSingle backend (transfer_session stamp upload_id location checksum) q s =
    for_upload-IsSingle (λ id p. on_transfer_session backend stamp id upload_id location checksum p)
      q
      (λ Ok id ok o.
        Keeps-on_transfer_session Ok id ok q o backend stamp upload_id location checksum)
      s
step-IsSingle backend (multipart_session stamp u part_size validation checksum) q s =
    for_upload-IsSingle
      (λ id p. on_multipart_session backend stamp id u part_size validation checksum p) q
      (λ Ok id ok o.
        Keeps-on_multipart_session Ok id ok q o backend stamp u part_size validation checksum)
      s
step-IsSingle backend (upload_progressed stamp now progress) q s =
    for_upload-IsSingle (λ id p. on_upload_progress backend stamp now id progress p) q
      (λ Ok id ok o. Keeps-on_upload_progress Ok id ok backend stamp now progress q o) s
step-IsSingle backend (upload_ended now outcome) q s = end_upload-IsSingle now outcome q s
step-IsSingle backend (pause_ended now remote) q s = end_pause-IsSingle backend now remote q s

steps-IsSingle :
    (backend : Backend) (es : List Event) (q : Queue) → IsSingle q → IsSingle (steps backend es q)
unfolding steps
steps-IsSingle backend [] q s = s
steps-IsSingle backend (e ∷ es) q s =
    steps-IsSingle backend es (step backend e q) (step-IsSingle backend e q s)

Holds-unique : (w : Worker) (a b : Text) → Holds w a → Holds w b → a ≡ b
Holds-unique idle a b h k = absurd h
Holds-unique (checking item) a b h k = absurd h
Holds-unique (uploading item ready dest_path) a b h k = sym h ∙ k
Holds-unique (pausing item source) a b h k = sym h ∙ k

-- Whatever happens after the page is opened, in whatever order, two items that are in flight have
-- the same id, and no item is in flight unless the worker is uploading or pausing one.
pub steps-Holds :
    (backend : Backend) (es : List Event) (tus : ScopedStore TusSessionRecord)
    (multipart : ScopedStore MultipartSessionRecord)
    → let q = steps backend es (opened tus multipart) in
      ((x y : UploadQueueItem)
        → In x q.items
        → In y q.items
        → is_in_flight x.status ≡ true
        → is_in_flight y.status ≡ true
        → x.id ≡ y.id)
      × ((x : UploadQueueItem) → In x q.items → is_in_flight x.status ≡ true → Holds q.worker x.id)
steps-Holds backend es tus multipart =
    let s = steps-IsSingle backend es (opened tus multipart) start in
    (
      λ x y i j e f.
          Holds-unique (steps backend es (opened tus multipart)).worker x.id y.id
            (s.only.flying x i e) (s.only.flying y j f),
      s.only.flying,
    )
  where
    start : IsSingle (opened tus multipart)
    start = record {
      only = record { flying = λ x i e. absurd i; waiting = λ k x e. unfold lookup in cc e };
      own = tt;
    }
