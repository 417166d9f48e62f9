-- ===== src/Uploads/Queue/Flight/Users.antt =====
-- The items in flight after what the user asks of the queue.
use zfiles.Common.{
  ◌≡◌, refl, sym, subst, Bool, true, false, ◌∷◌, Option, none, some, Text, text_eq, not,
  if◌then◌else◌,
}
use zfiles.Uploads.Sessions.Scopes.{ScopedStore}
use zfiles.Uploads.Sessions.{MultipartSessionRecord}
use zfiles.Uploads.Queue.Items.{
  UploadQueueItem, UploadItemStatus, pending, hashing, active, verifying, paused, awaiting_conflict,
  done, failed, cancelled, is_in_flight, Backend, with_status, enrich_paused_item_for_resume,
  resumed,
}
use zfiles.Uploads.Queue.State.{
  Queue, by_pause, by_cancel, clear_progress_flush, update, find_item, remove_id, abort_session,
  abort_signal, drop_item, cancel_paused, cancel_in_flight, cancel_status, cancel_upload, is_active,
  pause_upload, resume_upload,
}
use zfiles.Uploads.Queue.Flight.{IsOnly}
use zfiles.Uploads.Queue.Flight.Events.{
  Keeps, Keeps-same, Keeps-trans, Keeps-filter, Keeps-abort_session, Keeps-abort_signal,
  Keeps-update, Keeps-clear_progress_flush,
}

module _ (Ok : Text → Type 0) (q : Queue) (o : IsOnly Ok q) where
  -- A status that is not in flight may be given to any item.
  resting :
      (id : Text) (status : UploadItemStatus)
      → is_in_flight status ≡ false
      → Keeps Ok q (update id (with_status status) q)
  unfolding with_status
  resting id status f = Keeps-update Ok id (with_status status) q o λ y i e t. cc (f, t)

  Keeps-drop_item : (id : Text) → Keeps Ok q (drop_item id q)
  Keeps-drop_item id =
      Keeps-filter Ok (λ entry. not (text_eq entry.id id)) (remove_id id q.cancelled_ids) q o

-- Resuming gives back an item that is not in flight, unless it changes nothing.
enrich_in_flight :
    (backend : Backend) (sessions : ScopedStore MultipartSessionRecord) (y : UploadQueueItem)
    → is_in_flight (enrich_paused_item_for_resume backend sessions y).status ≡ true
    → enrich_paused_item_for_resume backend sessions y ≡ y
unfolding enrich_paused_item_for_resume resumed with_status is_in_flight
enrich_in_flight backend sessions y t = go y.status t
  where
    go :
        (s : UploadItemStatus)
        → is_in_flight
            (elim s as (λ x. UploadQueueItem) [
              | paused ↦ resumed backend sessions y
              | _ ↦ y
            ]).status
          ≡ true
        → (elim s as (λ x. UploadQueueItem) [ paused ↦ resumed backend sessions y | _ ↦ y ]) ≡ y
    go paused e = cc e
    go pending e = refl
    go hashing e = refl
    go active e = refl
    go verifying e = refl
    go awaiting_conflict e = refl
    go done e = refl
    go failed e = refl
    go cancelled e = refl

module _ (Ok : Text → Type 0) (backend : Backend) (id : Text) where
  Keeps-cancel_paused :
      (item : UploadQueueItem) (q : Queue)
      → IsOnly Ok q
      → Keeps Ok q (cancel_paused backend id item q)
  unfolding cancel_paused
  Keeps-cancel_paused item q o =
      let known = record q { cancelled_ids = remove_id id q.cancelled_ids } in
      let first = Keeps-same Ok q known o refl refl refl in
      let second =
        Keeps-trans Ok q known (abort_session backend item known) first
          (Keeps-abort_session Ok backend item known first.only) in
      Keeps-trans Ok q (abort_session backend item known) (cancel_paused backend id item q) second (
        resting Ok (abort_session backend item known) second.only id cancelled
          (unfold is_in_flight in refl))

  Keeps-cancel_in_flight :
      (item : UploadQueueItem) (q : Queue)
      → IsOnly Ok q
      → Keeps Ok q (cancel_in_flight backend id item q)
  unfolding cancel_in_flight
  Keeps-cancel_in_flight item q o =
      let first = Keeps-abort_signal Ok id by_cancel q o in
      Keeps-trans Ok q (abort_signal id by_cancel q) (cancel_in_flight backend id item q) first
        (Keeps-abort_session Ok backend item (abort_signal id by_cancel q) first.only)

  Keeps-in_flight_or :
      (item : UploadQueueItem) (q : Queue) (b : Bool)
      → IsOnly Ok q
      → Keeps Ok q (if b then cancel_in_flight backend id item q else q)
  Keeps-in_flight_or item q true o = Keeps-cancel_in_flight item q o
  Keeps-in_flight_or item q false o = Keeps-same Ok q q o refl refl refl

  Keeps-cancel_status :
      (item : UploadQueueItem) (q : Queue)
      → IsOnly Ok q
      → Keeps Ok q (cancel_status backend id item q)
  unfolding cancel_status
  Keeps-cancel_status item q o = go item.status
    where
      go :
          (s : UploadItemStatus)
          → Keeps Ok q (elim s [
            | pending ↦ drop_item id q
            | awaiting_conflict ↦ drop_item id q
            | paused ↦ cancel_paused backend id item q
            | _ ↦ if is_in_flight item.status then cancel_in_flight backend id item q else q
          ])
      go pending = Keeps-drop_item Ok q o id
      go awaiting_conflict = Keeps-drop_item Ok q o id
      go paused = Keeps-cancel_paused item q o
      go hashing = Keeps-in_flight_or item q (is_in_flight item.status) o
      go active = Keeps-in_flight_or item q (is_in_flight item.status) o
      go verifying = Keeps-in_flight_or item q (is_in_flight item.status) o
      go done = Keeps-in_flight_or item q (is_in_flight item.status) o
      go failed = Keeps-in_flight_or item q (is_in_flight item.status) o
      go cancelled = Keeps-in_flight_or item q (is_in_flight item.status) o

  pub Keeps-cancel_upload : (q : Queue) → IsOnly Ok q → Keeps Ok q (cancel_upload backend id q)
  unfolding cancel_upload
  Keeps-cancel_upload q o = go (find_item id q.items)
    where
      marked : Queue
      marked = record q { cancelled_ids = id ∷ remove_id id q.cancelled_ids }

      go :
          (found : Option UploadQueueItem)
          → Keeps Ok q (elim found [
            | none ↦ q
            | some item ↦ cancel_status backend id item (clear_progress_flush id marked)
          ])
      go none = Keeps-same Ok q q o refl refl refl
      go (some item) =
          let first = Keeps-same Ok q marked o refl refl refl in
          let second =
            Keeps-trans Ok q marked (clear_progress_flush id marked) first
              (Keeps-clear_progress_flush Ok id marked first.only) in
          Keeps-trans Ok q (clear_progress_flush id marked)
            (cancel_status backend id item (clear_progress_flush id marked)) second
            (Keeps-cancel_status item (clear_progress_flush id marked) second.only)

  pub Keeps-pause_upload : (q : Queue) → IsOnly Ok q → Keeps Ok q (pause_upload id q)
  unfolding pause_upload
  Keeps-pause_upload q o = go (find_item id q.items)
    where
      marked : Queue
      marked = record q { paused_ids = id ∷ remove_id id q.paused_ids }

      paused_one :
          (b : Bool)
          → Keeps Ok q (if b then abort_signal id by_pause (clear_progress_flush id marked) else q)
      paused_one true =
          let first = Keeps-same Ok q marked o refl refl refl in
          let second =
            Keeps-trans Ok q marked (clear_progress_flush id marked) first
              (Keeps-clear_progress_flush Ok id marked first.only) in
          Keeps-trans Ok q (clear_progress_flush id marked)
            (abort_signal id by_pause (clear_progress_flush id marked)) second
            (Keeps-abort_signal Ok id by_pause (clear_progress_flush id marked) second.only)
      paused_one false = Keeps-same Ok q q o refl refl refl

      go :
          (found : Option UploadQueueItem)
          → Keeps Ok q (elim found [
            | none ↦ q
            | some item ↦
                if is_active item.status
                then abort_signal id by_pause (clear_progress_flush id marked)
                else q
          ])
      go none = Keeps-same Ok q q o refl refl refl
      go (some item) = paused_one (is_active item.status)

  pub Keeps-resume_upload : (q : Queue) → IsOnly Ok q → Keeps Ok q (resume_upload backend id q)
  unfolding resume_upload
  Keeps-resume_upload q o =
      let enrich = enrich_paused_item_for_resume backend q.multipart_sessions in
      Keeps-update Ok id enrich q o λ y i e t.
        let same = enrich_in_flight backend q.multipart_sessions y t in
        subst (λ (z : UploadQueueItem). Ok z.id) (sym same)
          (o.flying y i (subst (λ (z : UploadQueueItem). is_in_flight z.status ≡ true) same t))
