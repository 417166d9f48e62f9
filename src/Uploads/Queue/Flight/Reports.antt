-- ===== src/Uploads/Queue/Flight/Reports.antt =====
-- The items in flight after a report of the progress of an upload.
use zfiles.Common.{
  ℕ, ◌≡◌, refl, Bool, false, Option, none, some, Text, arith, lookup, Bool-cases, inl, inr,
}
use zfiles.Uploads.Queue.Items.{UploadQueueItem, UploadItemStatus, Backend, s3, kernel, other}
use zfiles.Uploads.Queue.Progress.{apply_progress_update}
use zfiles.Uploads.Queue.State.{
  Queue, clear_progress_flush, show_item, find_item, has, ingest_progress,
}
use zfiles.Uploads.Queue.Flight.{IsOnly}
use zfiles.Uploads.Queue.Flight.Updates.{In-find_item}
use zfiles.Uploads.Queue.Flight.Events.{Keeps, Keeps-same, Keeps-trans, Keeps-commit_progress_item}
use zfiles.Uploads.Queue.Items.{MultipartUpload, truthy_id}
use zfiles.Uploads.Queue.Flight.Updates.{flush_progress-IsOnly}
use zfiles.Uploads.Queue.State.{flush_progress}
use zfiles.Uploads.Queue.Worker.{reset_samples}
use zfiles.Uploads.Queue.Transfer.{
  UploadProgress, persist_handle, persist_bytes, persist_progress, leave_hashing, ingest_report,
  on_upload_progress, should_persist,
}
use zfiles.Uploads.Queue.Progress.{upload_status_for_progress}

module _ (Ok : Text → Type 0) (id : Text) (ok : Ok id) where
  Keeps-persist_handle :
      (scope_id upload_id : Text) (item : UploadQueueItem) (q : Queue)
      → IsOnly Ok q
      → Keeps Ok q (persist_handle scope_id upload_id item q)
  unfolding persist_handle
  Keeps-persist_handle scope_id upload_id item q o =
      Keeps-same Ok q _ o (ground arith) (ground arith) (ground arith)

  Keeps-persist_bytes :
      (stamp scope_id : Text) (v : Bool) (u : MultipartUpload) (bytes : ℕ) (item : UploadQueueItem)
      (q : Queue)
      → IsOnly Ok q
      → Keeps Ok q (persist_bytes stamp scope_id v u bytes item q)
  unfolding persist_bytes
  Keeps-persist_bytes stamp scope_id v u bytes item q o =
      elim (Bool-cases (should_persist (lookup q.last_persisted u.upload_id) bytes)) [
        | inl h ↦ rw h (Keeps-same Ok q _ o refl refl refl)
        | inr h ↦ rw h (Keeps-same Ok q q o refl refl refl)
      ]

  Keeps-persist_progress :
      (backend : Backend) (stamp : Text) (item : UploadQueueItem) (progress : UploadProgress)
      (upload_id : Text) (q : Queue)
      → IsOnly Ok q
      → Keeps Ok q (persist_progress backend stamp item progress upload_id q)
  unfolding persist_progress
  Keeps-persist_progress (s3 scope_id v) stamp item progress upload_id q o =
      let first = Keeps-persist_handle scope_id upload_id item q o in
      Keeps-trans Ok q (persist_handle scope_id upload_id item q) _ first (
        Keeps-persist_bytes stamp scope_id v _ _ item (persist_handle scope_id upload_id item q)
          first.only)
  Keeps-persist_progress (kernel scope_id) stamp item progress upload_id q o =
      Keeps-same Ok q q o refl refl refl
  Keeps-persist_progress other stamp item progress upload_id q o =
      Keeps-same Ok q q o refl refl refl

  Keeps-leave_hashing :
      (status : UploadItemStatus) (item : UploadQueueItem) (q : Queue)
      → IsOnly Ok q
      → Keeps Ok q (leave_hashing id status item q)
  unfolding leave_hashing reset_samples
  Keeps-leave_hashing status item q o =
      Keeps-same Ok q _ o (ground arith) (ground arith) (ground arith)

  Keeps-ingest_report :
      (backend : Backend) (stamp : Text) (now : ℕ) (progress : UploadProgress)
      (item : UploadQueueItem) (q : Queue)
      → IsOnly Ok q
      → item.id ≡ id
      → Keeps Ok q (ingest_report backend stamp now id progress item q)
  unfolding ingest_report ingest_progress apply_progress_update
  Keeps-ingest_report backend stamp now progress item q o named =
      let next = Keeps-same Ok saved _ saved-Keeps.only refl refl refl in
      Keeps-trans Ok q saved _ saved-Keeps (
        Keeps-trans Ok saved _ _ next
          (Keeps-commit_progress_item Ok now id _ false _ next.only ok named))
    where
      left : Queue
      left = leave_hashing id (upload_status_for_progress progress.id) item q

      saved : Queue
      saved = elim (truthy_id progress.multipart_upload_id) [
        | none ↦ left
        | some u ↦ persist_progress backend stamp item progress u left
      ]

      go :
          (u : Option Text)
          → Keeps Ok left (elim u [
            | none ↦ left
            | some u ↦ persist_progress backend stamp item progress u left
          ])
      go none =
          Keeps-same Ok left left
            (Keeps-leave_hashing (upload_status_for_progress progress.id) item q o).only refl refl
            refl
      go (some u) =
          Keeps-persist_progress backend stamp item progress u left
            (Keeps-leave_hashing (upload_status_for_progress progress.id) item q o).only

      saved-Keeps : Keeps Ok q saved
      saved-Keeps =
          Keeps-trans Ok q left saved
            (Keeps-leave_hashing (upload_status_for_progress progress.id) item q o)
            (go (truthy_id progress.multipart_upload_id))

  pub Keeps-on_upload_progress :
      (backend : Backend) (stamp : Text) (now : ℕ) (progress : UploadProgress) (q : Queue)
      → IsOnly Ok q
      → Keeps Ok q (on_upload_progress backend stamp now id progress q)
  unfolding on_upload_progress
  Keeps-on_upload_progress backend stamp now progress q o =
      elim (Bool-cases (has q.cancelled_ids id)) [
        | inl h ↦ rw h (Keeps-same Ok q q o refl refl refl)
        | inr h ↦ rw h (go (find_item id q.items) (λ x e. (In-find_item id q.items x e).1))
      ]
    where
      go :
          (found : Option UploadQueueItem)
          → ((x : UploadQueueItem) → found ≡ some x → x.id ≡ id)
          → Keeps Ok q (elim found [
            | none ↦ q
            | some item ↦ ingest_report backend stamp now id progress item q
          ])
      go none h = Keeps-same Ok q q o refl refl refl
      go (some item) h = Keeps-ingest_report backend stamp now progress item q o (h item refl)

module _ (Ok : Text → Type 0) (id : Text) where
  pub Keeps-flush_progress :
      (now : ℕ) (q : Queue) → IsOnly Ok q → Keeps Ok q (flush_progress now id q)
  unfolding flush_progress show_item clear_progress_flush
  Keeps-flush_progress now q o = record {
    only = flush_progress-IsOnly Ok id q o now;
    worker = ground arith;
  }
