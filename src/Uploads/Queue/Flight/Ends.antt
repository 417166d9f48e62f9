-- ===== src/Uploads/Queue/Flight/Ends.antt =====
-- The items in flight at the end of an upload.
use zfiles.Common.{
  ℕ, ◌≡◌, refl, subst, Bool, true, false, ◌||◌, Option, none, some, Text, text_eq_iff,
  if◌then◌else◌, Bool-cases, inl, inr, get_or,
}
use zfiles.Uploads.Queue.Items.{
  UploadQueueItem, done, failed, cancelled, paused, is_in_flight, Backend, with_status,
  finished_upload_session_ids,
}
use zfiles.Uploads.Queue.State.{
  Queue, Worker, idle, checking, uploading, pausing, has, remove_id, find_item,
  clear_progress_flush, commit_progress_item,
}
use zfiles.Uploads.Queue.Outcomes.{
  Outcome, returned, pause_error, abort_error, other_error, forget_samples, end_run,
  report_finished, succeed, report_failure, fail, stop_cancelled, is_pause, catch_error,
  end_outcome, end_upload, resolve_paused_upload_offset, end_pause,
}
use zfiles.Uploads.Queue.Flight.{IsOnly, IsSingle, Holds}
use zfiles.Uploads.Queue.Flight.Updates.{commit_forced-IsOnly, In-find_item}
use zfiles.Uploads.Queue.Flight.Events.{Keeps-clear_progress_flush}
use zfiles.Uploads.Queue.Flight.Runs.{None, resting-IsSingle}

module _ (now : ℕ) (id : Text) (q : Queue) (o : IsOnly (λ k. id ≡ k) q) where
  -- The item that was in flight is shown with a status that is not.
  laid_down :
      (updated : UploadQueueItem)
      → is_in_flight updated.status ≡ false
      → IsOnly None (commit_progress_item now id updated true q)
  laid_down updated f =
      commit_forced-IsOnly (λ k. id ≡ k) None id q o (λ k e away. cc (away, (text_eq_iff id k).1 e))
        now updated (λ t. cc (f, t))

  fail-IsSingle :
      (last : UploadQueueItem) (message : Text) (is_auth : Bool)
      → IsSingle (fail now id last message is_auth q)
  unfolding fail with_status forget_samples report_failure end_run
  fail-IsSingle last message is_auth = go is_auth
    where
      shown : Queue
      shown =
          commit_progress_item now id (record (with_status failed last) { error = some message })
            true q

      go : (b : Bool) → IsSingle (end_run id (forget_samples id (report_failure message b shown)))
      go true = resting-IsSingle shown _ (laid_down _ (unfold is_in_flight in refl)) refl refl tt
      go false = resting-IsSingle shown _ (laid_down _ (unfold is_in_flight in refl)) refl refl tt

  stop_cancelled-IsSingle : (last : UploadQueueItem) → IsSingle (stop_cancelled now id last q)
  unfolding stop_cancelled with_status forget_samples end_run
  stop_cancelled-IsSingle last =
      resting-IsSingle (commit_progress_item now id (with_status cancelled last) true q) _
        (laid_down (with_status cancelled last) (unfold is_in_flight in refl)) refl refl tt

module _ (now : ℕ) (item : UploadQueueItem) (q : Queue) (o : IsOnly (λ k. item.id ≡ k) q) where
  cleared : IsOnly (λ k. item.id ≡ k) (clear_progress_flush item.id q)
  cleared = (Keeps-clear_progress_flush (λ k. item.id ≡ k) item.id q o).only

  last_id : (get_or (find_item item.id q.items) item).id ≡ item.id
  last_id = go (find_item item.id q.items) λ x e. (In-find_item item.id q.items x e).1
    where
      go :
          (found : Option UploadQueueItem)
          → ((x : UploadQueueItem) → found ≡ some x → x.id ≡ item.id)
          → (get_or found item).id ≡ item.id
      go none h = refl
      go (some x) h = h x refl

  catch_error-IsSingle : (outcome : Outcome) → IsSingle (catch_error now item outcome q)
  unfolding catch_error
  catch_error-IsSingle outcome = elim (Bool-cases (has q.paused_ids item.id || is_pause outcome)) [
    | inl h ↦ rw h record {
      only = record { flying = cleared.flying; waiting = cleared.waiting };
      own = last_id;
    }
    | inr h ↦ rw h (elim (Bool-cases (has q.cancelled_ids item.id)) [
      | inl c ↦ rw c (stop_cancelled-IsSingle now item.id known known-IsOnly last)
      | inr c ↦ rw c (go outcome)
    ])
  ]
    where
      last : UploadQueueItem
      last = get_or (find_item item.id q.items) item

      known : Queue
      known = record (clear_progress_flush item.id q) {
        paused_ids = remove_id item.id q.paused_ids;
        cancelled_ids = remove_id item.id q.cancelled_ids;
      }

      known-IsOnly : IsOnly (λ k. item.id ≡ k) known
      known-IsOnly = record { flying = cleared.flying; waiting = cleared.waiting }

      go :
          (r : Outcome)
          → IsSingle (elim r [
            | other_error message is_auth ↦ fail now item.id last message is_auth known
            | _ ↦ stop_cancelled now item.id last known
          ])
      go (other_error message is_auth) =
          fail-IsSingle now item.id known known-IsOnly last message is_auth
      go returned = stop_cancelled-IsSingle now item.id known known-IsOnly last
      go pause_error = stop_cancelled-IsSingle now item.id known known-IsOnly last
      go abort_error = stop_cancelled-IsSingle now item.id known known-IsOnly last

  succeed-IsSingle :
      (ready : UploadQueueItem) (dest_path : Text) → IsSingle (succeed now item ready dest_path q)
  unfolding succeed with_status forget_samples end_run report_finished
  succeed-IsSingle ready dest_path =
      go (finished_upload_session_ids (get_or (find_item item.id q.items) ready)).0
        (finished_upload_session_ids (get_or (find_item item.id q.items) ready)).1
    where
      last : UploadQueueItem
      last = get_or (find_item item.id q.items) item

      shown : Queue
      shown =
          commit_progress_item now item.id (record (with_status done last) { offset = last.total })
            true (clear_progress_flush item.id q)

      rest : IsOnly None shown
      rest =
          laid_down now item.id (clear_progress_flush item.id q) cleared
            (record (with_status done last) { offset = last.total }) (unfold is_in_flight in refl)

      go :
          (a b : Option Text)
          → IsSingle
              (end_run item.id (report_finished a b dest_path (forget_samples item.id shown)))
      go none none = resting-IsSingle shown _ rest refl refl tt
      go none (some x) = resting-IsSingle shown _ rest refl refl tt
      go (some x) none = resting-IsSingle shown _ rest refl refl tt
      go (some x) (some y) = resting-IsSingle shown _ rest refl refl tt

  end_outcome-IsSingle :
      (ready : UploadQueueItem) (dest_path : Text) (outcome : Outcome)
      → IsSingle (end_outcome now item ready dest_path outcome q)
  unfolding end_outcome
  end_outcome-IsSingle ready dest_path returned = either (has q.cancelled_ids item.id)
    where
      either :
          (b : Bool)
          → IsSingle
              (if b then catch_error now item abort_error q else succeed now item ready dest_path q)
      either true = catch_error-IsSingle abort_error
      either false = succeed-IsSingle ready dest_path
  end_outcome-IsSingle ready dest_path pause_error = catch_error-IsSingle pause_error
  end_outcome-IsSingle ready dest_path abort_error = catch_error-IsSingle abort_error
  end_outcome-IsSingle ready dest_path (other_error message is_auth) =
      catch_error-IsSingle (other_error message is_auth)

pub end_upload-IsSingle :
    (now : ℕ) (outcome : Outcome) (q : Queue) → IsSingle q → IsSingle (end_upload now outcome q)
unfolding end_upload
end_upload-IsSingle now outcome q s = go q.worker refl
  where
    go :
        (w : Worker)
        → q.worker ≡ w
        → IsSingle (elim w [
          | uploading item ready dest_path ↦ end_outcome now item ready dest_path outcome q
          | _ ↦ q
        ])
    go (uploading item ready dest_path) e =
        end_outcome-IsSingle now item q (subst (λ (w : Worker). IsOnly (Holds w) q) e s.only) ready
          dest_path outcome
    go idle e = s
    go (checking item) e = s
    go (pausing item source) e = s

pub end_pause-IsSingle :
    (backend : Backend) (now : ℕ) (remote : Option ℕ) (q : Queue)
    → IsSingle q
    → IsSingle (end_pause backend now remote q)
unfolding end_pause with_status forget_samples end_run
end_pause-IsSingle backend now remote q s = go q.worker refl
  where
    shown : UploadQueueItem → UploadQueueItem → Queue
    shown item source =
        commit_progress_item now item.id
          (record (with_status paused source) {
            offset = resolve_paused_upload_offset backend remote source;
            committed_upload_offset = some (resolve_paused_upload_offset backend remote source);
          })
          true q

    go :
        (w : Worker)
        → q.worker ≡ w
        → IsSingle (elim w [
          | pausing item source ↦ end_run item.id (forget_samples item.id (shown item source))
          | _ ↦ q
        ])
    go (pausing item source) e =
        let o : IsOnly (λ k. item.id ≡ k) q = subst (λ (w : Worker). IsOnly (Holds w) q) e s.only in
        resting-IsSingle (shown item source) _
          (laid_down now item.id q o _ (unfold is_in_flight in refl)) refl refl tt
    go idle e = s
    go (checking item) e = s
    go (uploading item ready dest_path) e = s
