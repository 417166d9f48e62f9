-- ===== src/Uploads/Queue/Flight/Callbacks.antt =====
-- The items in flight after the callbacks of an upload.
use zfiles.Common.{
  ℕ, ◌≡◌, refl, ◌∙◌, sym, subst, Bool, true, List, [], ◌∷◌, Option, none, some, Text, not,
  Bool-cases, inl, inr,
}
use zfiles.Uploads.Sessions.Scopes.{ScopedStore}
use zfiles.Uploads.Sessions.{
  remove_other_tus_records, upsert_tus_record, TusSessionRecord, MultipartSessionRecord,
}
use zfiles.Uploads.Queue.Items.{UploadQueueItem, Backend, s3, kernel, other, with_status}
use zfiles.Uploads.Queue.State.{
  Queue, by_cancel, call, abort_tus_session, clear_progress_flush, update, find_item, has,
}
use zfiles.Uploads.Queue.Worker.{patch_queue_item}
use zfiles.Uploads.Queue.Flight.{IsOnly}
use zfiles.Uploads.Queue.Flight.Events.{
  Keeps, Keeps-same, Keeps-trans, Keeps-abort_signal, Keeps-update, Keeps-clear_progress_flush,
}
use zfiles.Uploads.Queue.Items.{MultipartUpload}
use zfiles.Uploads.Queue.Worker.{
  tus_record_of, reset_samples, begin_upload_phase, begin_local_phase, on_hashing, on_verifying,
  on_upload_start, is_resume, abort_stale, report_stale, keep_tus_session, on_transfer_session,
}
use zfiles.Uploads.Queue.Transfer.{begin_multipart, on_multipart_session}

module _ (Ok : Text → Type 0) where
  Keeps-abort_stale :
      (rs : List TusSessionRecord) (q : Queue) → IsOnly Ok q → Keeps Ok q (abort_stale rs q)
  unfolding abort_stale
  Keeps-abort_stale [] q o = Keeps-same Ok q q o refl refl refl
  Keeps-abort_stale (r ∷ rs) q o =
      let first = Keeps-same Ok q (call (abort_tus_session r.upload_id) q) o refl refl refl in
      Keeps-trans Ok q (call (abort_tus_session r.upload_id) q)
        (abort_stale rs (call (abort_tus_session r.upload_id) q)) first
        (Keeps-abort_stale rs (call (abort_tus_session r.upload_id) q) first.only)

  Keeps-report_stale :
      (rs : List TusSessionRecord) (q : Queue) → IsOnly Ok q → Keeps Ok q (report_stale rs q)
  unfolding report_stale
  Keeps-report_stale [] q o = Keeps-same Ok q q o refl refl refl
  Keeps-report_stale (r ∷ rs) q o =
      let first = Keeps-abort_stale (r ∷ rs) q o in
      Keeps-trans Ok q (abort_stale (r ∷ rs) q) (report_stale (r ∷ rs) q) first
        (Keeps-same Ok (abort_stale (r ∷ rs) q) (report_stale (r ∷ rs) q) first.only refl refl refl)

  report_kept :
      (stale : List TusSessionRecord) (sessions : ScopedStore TusSessionRecord) (q : Queue)
      → IsOnly Ok q
      → Keeps Ok q (report_stale stale (record q { tus_sessions = sessions }))
  report_kept stale sessions q o =
      let known = record q { tus_sessions = sessions } in
      let first = Keeps-same Ok q known o refl refl refl in
      Keeps-trans Ok q known (report_stale stale known) first
        (Keeps-report_stale stale known first.only)

  Keeps-keep_tus_session :
      (stamp scope_id : Text) (item : UploadQueueItem) (upload_id location checksum : Text)
      (q : Queue)
      → IsOnly Ok q
      → Keeps Ok q (keep_tus_session stamp scope_id item upload_id location checksum q)
  unfolding keep_tus_session
  Keeps-keep_tus_session stamp scope_id item upload_id location checksum q o =
      let removed = remove_other_tus_records scope_id item.dest_path upload_id q.tus_sessions in
      report_kept removed.0
        (upsert_tus_record scope_id (tus_record_of stamp item upload_id location checksum)
          removed.1)
        q o

module _ (Ok : Text → Type 0) (id : Text) (ok : Ok id) where
  own_update :
      (f : UploadQueueItem → UploadQueueItem) (q : Queue)
      → ((y : UploadQueueItem) → (f y).id ≡ y.id)
      → IsOnly Ok q
      → Keeps Ok q (update id f q)
  own_update f q h o = Keeps-update Ok id f q o λ y i e t. subst Ok (sym (h y ∙ e)) ok

  own_patch :
      (f : UploadQueueItem → UploadQueueItem) (q : Queue)
      → ((y : UploadQueueItem) → (f y).id ≡ y.id)
      → IsOnly Ok q
      → Keeps Ok q (patch_queue_item id f (reset_samples id q))
  unfolding patch_queue_item reset_samples
  own_patch f q h o =
      let known = Keeps-same Ok q (reset_samples id q) o refl refl refl in
      let cleared = Keeps-clear_progress_flush Ok id (reset_samples id q) known.only in
      Keeps-trans Ok q (clear_progress_flush id (reset_samples id q))
        (patch_queue_item id f (reset_samples id q))
        (Keeps-trans Ok q (reset_samples id q) (clear_progress_flush id (reset_samples id q)) known
          cleared)
        (own_update f (clear_progress_flush id (reset_samples id q)) h cleared.only)

  module _ (q : Queue) (o : IsOnly Ok q) where
    pub Keeps-on_hashing : Keeps Ok q (on_hashing id q)
    unfolding on_hashing begin_local_phase with_status
    Keeps-on_hashing = own_patch _ q (λ y. refl) o

    pub Keeps-on_verifying : Keeps Ok q (on_verifying id q)
    unfolding on_verifying begin_local_phase with_status
    Keeps-on_verifying = own_patch _ q (λ y. refl) o

    Keeps-begin_upload_phase : (reset : Bool) → Keeps Ok q (begin_upload_phase id reset q)
    unfolding begin_upload_phase with_status
    Keeps-begin_upload_phase reset = own_patch _ q (λ y. refl) o

    pub Keeps-on_upload_start : Keeps Ok q (on_upload_start id q)
    unfolding on_upload_start
    Keeps-on_upload_start = elim (Bool-cases (has q.cancelled_ids id)) [
      | inl h ↦ rw h (Keeps-abort_signal Ok id by_cancel q o)
      | inr h ↦ rw h (go (find_item id q.items))
    ]
      where
        go :
            (found : Option UploadQueueItem)
            → Keeps Ok q (elim found [
              | none ↦ begin_upload_phase id true q
              | some item ↦ begin_upload_phase id (not (is_resume item)) q
            ])
        go none = Keeps-begin_upload_phase true
        go (some item) = Keeps-begin_upload_phase (not (is_resume item))

    pub Keeps-on_transfer_session :
        (backend : Backend) (stamp upload_id location checksum : Text)
        → Keeps Ok q (on_transfer_session backend stamp id upload_id location checksum q)
    unfolding on_transfer_session
    Keeps-on_transfer_session backend stamp upload_id location checksum = go (find_item id q.items)
      where
        f : UploadQueueItem → UploadQueueItem
        f item = record item {
          backend_upload_id = some upload_id;
          tus_resume = some (record { location = location; checksum_sha256 = checksum });
        }

        known : Keeps Ok q (update id f q)
        known = own_update f q (λ y. refl) o

        kept :
            (b : Backend) (item : UploadQueueItem)
            → Keeps Ok q (elim b [
              | kernel scope_id ↦
                  keep_tus_session stamp scope_id item upload_id location checksum (update id f q)
              | _ ↦ update id f q
            ])
        kept (s3 scope_id v) item = known
        kept (kernel scope_id) item =
            Keeps-trans Ok q (update id f q)
              (keep_tus_session stamp scope_id item upload_id location checksum (update id f q))
              known
              (Keeps-keep_tus_session Ok stamp scope_id item upload_id location checksum
                (update id f q) known.only)
        kept other item = known

        go :
            (found : Option UploadQueueItem)
            → Keeps Ok q (elim found [
              | none ↦ update id f q
              | some item ↦ elim backend [
                | kernel scope_id ↦
                    keep_tus_session stamp scope_id item upload_id location checksum (update id f q)
                | _ ↦ update id f q
              ]
            ])
        go none = known
        go (some item) = kept backend item

    Keeps-begin_multipart :
        (stamp scope_id : Text) (u : MultipartUpload) (part_size : ℕ) (validation : Bool)
        (checksum : Option Text) (item : UploadQueueItem)
        → Keeps Ok q (begin_multipart stamp scope_id id u part_size validation checksum item q)
    unfolding begin_multipart
    Keeps-begin_multipart stamp scope_id u part_size validation checksum item =
        elim (Bool-cases (has q.initialized_sessions u.upload_id)) [
          | inl h ↦ rw h (Keeps-same Ok q q o refl refl refl)
          | inr h ↦ rw h (started _ _)
        ]
      where
        started :
            (sessions : ScopedStore MultipartSessionRecord) (ids : List Text)
            → Keeps Ok q (
                update id
                  (λ entry. record entry { multipart_upload = some u })
                  (record q { initialized_sessions = ids; multipart_sessions = sessions }))
        started sessions ids =
            let known = record q { initialized_sessions = ids; multipart_sessions = sessions } in
            let first = Keeps-same Ok q known o refl refl refl in
            Keeps-trans Ok q known
              (update id (λ entry. record entry { multipart_upload = some u }) known) first
              (own_update (λ entry. record entry { multipart_upload = some u }) known (λ y. refl)
                first.only)

    pub Keeps-on_multipart_session :
        (backend : Backend) (stamp : Text) (u : MultipartUpload) (part_size : ℕ) (validation : Bool)
        (checksum : Option Text)
        → Keeps Ok q (on_multipart_session backend stamp id u part_size validation checksum q)
    unfolding on_multipart_session
    Keeps-on_multipart_session (s3 scope_id v) stamp u part_size validation checksum =
        go (find_item id q.items)
      where
        go :
            (found : Option UploadQueueItem)
            → Keeps Ok q (elim found [
              | none ↦ q
              | some item ↦ begin_multipart stamp scope_id id u part_size validation checksum item q
            ])
        go none = Keeps-same Ok q q o refl refl refl
        go (some item) = Keeps-begin_multipart stamp scope_id u part_size validation checksum item
    Keeps-on_multipart_session (kernel scope_id) stamp u part_size validation checksum =
        Keeps-same Ok q q o refl refl refl
    Keeps-on_multipart_session other stamp u part_size validation checksum =
        Keeps-same Ok q q o refl refl refl
