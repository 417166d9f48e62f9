-- ===== src/Uploads/Queue/Cancelled.antt =====
-- A cancel while the destination of a pending item is checked (`cancelUpload` and `run` of
-- web/src/upload-queue.ts).
use zfiles.Common.{
  ◌≡◌, refl, ap, ◌∙◌, sym, subst, Bool, false, List, [], ◌∷◌, none, some, Text, text_eq,
  text_eq_refl, filter, not, arith, find, lookup, assign, lookup-assign, Bool-cases, inl, inr,
}
use zfiles.Uploads.Queue.Items.{UploadQueueItem, pending, is_pending, Backend}
use zfiles.Uploads.Queue.State.{
  Queue, checking, uploading, cancel_upload, cancel_status, find_item, has, remove_id, update_where,
  clear_progress_flush, drop_item,
}
use zfiles.Uploads.Queue.Worker.{end_check, proceed, skips_check}

find-filter-not :
    {A : Type 0} (p : A → Bool) (xs : List A) → find p (filter (λ x. not (p x)) xs) ≡ none
find-filter-not p [] = refl
find-filter-not p (x ∷ xs) = ground (arith, find-filter-not p xs)

has-remove_id : (id : Text) (ids : List Text) → has (remove_id id ids) id ≡ false
has-remove_id id [] = refl
has-remove_id id (i ∷ ids) = ground (arith, has-remove_id id ids)

find_item-update_where :
    (id : Text) (f : UploadQueueItem → UploadQueueItem) (items : List UploadQueueItem)
    → find_item id items ≡ none
    → find_item id (update_where id f items) ≡ none
unfolding find_item update_where
find_item-update_where id f [] h = refl
find_item-update_where id f (x ∷ xs) h = ground (arith, find_item-update_where id f xs)

module _ (backend : Backend) (q : Queue) (item : UploadQueueItem) (free_path : Text) where
  abbrev cancelled_queue : Queue
  cancelled_queue = drop_item item.id (
      clear_progress_flush item.id
        (record q { cancelled_ids = item.id ∷ remove_id item.id q.cancelled_ids }))

  cancel-pending :
      item.status ≡ pending
      → find_item item.id q.items ≡ some item
      → cancel_upload backend item.id q ≡ cancelled_queue
  unfolding cancel_upload cancel_status
  cancel-pending p s = rw (cancel_upload, s, cancel_status, p) refl

  gone : find_item item.id cancelled_queue.items ≡ none
  unfolding find_item clear_progress_flush
  gone = find-filter-not (λ (x : UploadQueueItem). text_eq x.id item.id) q.items

  check-ends :
      q.worker ≡ checking item
      → end_check false free_path cancelled_queue ≡ proceed item item.dest_path cancelled_queue
  unfolding end_check clear_progress_flush
  check-ends w = elim (Bool-cases (skips_check item)) [
    | inl h ↦ rw (end_check, w, h) refl
    | inr h ↦ rw (end_check, w, h) refl
  ]

  abbrev started : Queue
  started =
      record (record cancelled_queue {
        items =
            update_where item.id (λ entry. record entry { dest_path = item.dest_path })
              cancelled_queue.items;
      }) {
        abort_controllers = assign cancelled_queue.abort_controllers item.id none;
        worker = uploading item item item.dest_path;
      }

  proceed-started : item.status ≡ pending → proceed item item.dest_path cancelled_queue ≡ started
  unfolding proceed is_pending clear_progress_flush assign
  proceed-started p =
      rw (proceed, gone, p, has-remove_id item.id (item.id ∷ remove_id item.id q.cancelled_ids))
        refl

  still_gone : find_item item.id started.items ≡ none
  still_gone =
      find_item-update_where item.id (λ entry. record entry { dest_path = item.dest_path })
        cancelled_queue.items gone

  cancel_again : cancel_upload backend item.id started ≡ started
  unfolding cancel_upload
  cancel_again = rw (cancel_upload, still_gone) refl

-- A pending item that the user cancels while its destination is checked is uploaded all the same,
-- where the destination is free: the upload runs, its signal is not aborted, the item is not in the
-- queue any more, and cancelling it again does nothing.
pub cancel_upload-end_check :
    (backend : Backend) (q : Queue) (item : UploadQueueItem) (free_path : Text)
    → q.worker ≡ checking item
    → item.status ≡ pending
    → find_item item.id q.items ≡ some item
    → let after = end_check false free_path (cancel_upload backend item.id q) in
      (after.worker ≡ uploading item item item.dest_path)
      × (lookup after.abort_controllers item.id ≡ some none)
      × (find_item item.id after.items ≡ none)
      × (cancel_upload backend item.id after ≡ after)
unfolding assign lookup clear_progress_flush
cancel_upload-end_check backend q item free_path w p s =
    subst
      (λ (after : Queue).
        (after.worker ≡ uploading item item item.dest_path)
        × (lookup after.abort_controllers item.id ≡ some none)
        × (find_item item.id after.items ≡ none)
        × (cancel_upload backend item.id after ≡ after))
      (sym (
        ap (end_check false free_path) (cancel-pending backend q item free_path p s)
        ∙ check-ends backend q item free_path w
        ∙ proceed-started backend q item free_path p))
      (
        refl,
        lookup-assign q.abort_controllers item.id item.id none
            ∙ ground (arith, text_eq_refl item.id),
        still_gone backend q item free_path,
        cancel_again backend q item free_path,
      )
