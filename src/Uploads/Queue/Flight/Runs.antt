-- ===== src/Uploads/Queue/Flight/Runs.antt =====
-- The items in flight when the worker takes an upload up.
use zfiles.Common.{
  ◌≡◌, refl, ap, ◌∙◌, sym, subst, Bool, true, ◌||◌, Option, none, some, Text, not, if◌then◌else◌,
  find, any, lookup, assign, Bool-cases, In, inl, inr, get_or,
}
use zfiles.Uploads.Queue.Items.{
  UploadQueueItem, cancelled, awaiting_conflict, is_in_flight, is_pending, with_status,
}
use zfiles.Uploads.Queue.State.{
  Queue, Worker, idle, checking, uploading, pausing, by_cancel, UploadConflictResolution, skip,
  keep_both, replace, has, remove_id, update, find_item, abort_signal, is_active,
}
use zfiles.Uploads.Queue.Worker.{begin_run, proceed, handle_taken, end_check, skips_check}
use zfiles.Uploads.Queue.Flight.{IsOnly, IsSingle, Holds, IsOwn}
use zfiles.Uploads.Queue.Flight.Events.{Keeps, Keeps-update, Keeps-abort_signal, Keeps-IsSingle}

-- Nothing is in flight.
abbrev pub None : Text → Type 0
None id = ⊥

-- Where nothing is in flight, no worker holds a thing that it should not.
pub resting-IsSingle :
    (q after : Queue)
    → IsOnly None q
    → after.items ≡ q.items
    → after.pending_progress ≡ q.pending_progress
    → IsOwn after.worker
    → IsSingle after
resting-IsSingle q after o i p own = record {
  only = record {
    flying = λ x j e. absurd (o.flying x (subst (λ xs. In x xs) i j) e);
    waiting = λ k x e. absurd (o.waiting k x (ap (λ m. lookup m k) (sym p) ∙ e)).0;
  };
  own = own;
}

pub begin_run-IsSingle : (q : Queue) → IsSingle q → IsSingle (begin_run q)
unfolding begin_run
begin_run-IsSingle q s = go q.worker refl
  where
    chosen :
        IsOnly None q
        → (found : Option UploadQueueItem)
        → IsSingle (elim found [
          | none ↦ q
          | some item ↦
              if has q.cancelled_ids item.id
              then record q { cancelled_ids = remove_id item.id q.cancelled_ids }
              else record q { worker = checking item }
        ])
    chosen o none = s
    chosen o (some item) = elim (Bool-cases (has q.cancelled_ids item.id)) [
      | inl h ↦
          rw h record {
            only = record { flying = s.only.flying; waiting = s.only.waiting };
            own = s.own;
          }
      | inr h ↦ rw h (resting-IsSingle q (record q { worker = checking item }) o refl refl tt)
    ]

    go :
        (w : Worker)
        → q.worker ≡ w
        → IsSingle (elim w [
          | idle ↦
              if any (λ item. is_in_flight item.status) q.items
              then q
              else elim (find (λ item. is_pending item.status) q.items) [
                | none ↦ q
                | some item ↦
                    if has q.cancelled_ids item.id
                    then record q { cancelled_ids = remove_id item.id q.cancelled_ids }
                    else record q { worker = checking item }
              ]
          | _ ↦ q
        ])
    go idle e = elim (Bool-cases (any (λ item. is_in_flight item.status) q.items)) [
      | inl h ↦ rw h s
      | inr h ↦ rw h (
          chosen (subst (λ (w : Worker). IsOnly (Holds w) q) e s.only)
            (find (λ item. is_pending item.status) q.items))
    ]
    go (checking item) e = s
    go (uploading item ready dest_path) e = s
    go (pausing item source) e = s

-- The upload begins where nothing is in flight.
proceed-IsSingle :
    (item : UploadQueueItem) (dest_path : Text) (q : Queue)
    → IsOnly None q
    → IsSingle (proceed item dest_path q)
unfolding proceed
proceed-IsSingle item dest_path q o = begun (get_or (find_item item.id q.items) item)
  where
    f : UploadQueueItem → UploadQueueItem
    f entry = record entry { dest_path = dest_path }

    moved : Keeps None q (update item.id f q)
    moved = Keeps-update None item.id f q o λ y i e t. o.flying y i t

    started : UploadQueueItem → Queue
    started ready = record (update item.id f q) {
      abort_controllers = assign q.abort_controllers item.id none;
      worker = uploading item ready dest_path;
    }

    started-IsSingle : (ready : UploadQueueItem) → IsSingle (started ready)
    started-IsSingle ready =
        resting-IsSingle (update item.id f q) (started ready) moved.only refl refl tt

    begun :
        (ready : UploadQueueItem)
        → IsSingle (
            if is_pending ready.status || is_active ready.status
            then (if has q.cancelled_ids item.id
                then abort_signal item.id by_cancel (started ready)
                else started ready)
            else record q { worker = idle })
    begun ready = elim (Bool-cases (is_pending ready.status || is_active ready.status)) [
      | inl h ↦ rw h (elim (Bool-cases (has q.cancelled_ids item.id)) [
        | inl c ↦ rw c (
            Keeps-IsSingle (started ready) _ (started-IsSingle ready) (
              Keeps-abort_signal (Holds (started ready).worker) item.id by_cancel (started ready)
                (started-IsSingle ready).only))
        | inr c ↦ rw c (started-IsSingle ready)
      ])
      | inr h ↦ rw h (resting-IsSingle q (record q { worker = idle }) o refl refl tt)
    ]

handle_taken-IsSingle :
    (item : UploadQueueItem) (free_path : Text) (q : Queue)
    → IsOnly None q
    → IsSingle (handle_taken item free_path q)
unfolding handle_taken with_status is_in_flight
handle_taken-IsSingle item free_path q o = go q.apply_to_all
  where
    kept :
        (f : UploadQueueItem → UploadQueueItem)
        → ((y : UploadQueueItem) → is_in_flight (f y).status ≡ true → is_in_flight y.status ≡ true)
        → IsOnly None (update item.id f q)
    kept f h = (Keeps-update None item.id f q o λ y i e t. o.flying y i (h y t)).only

    go :
        (r : Option UploadConflictResolution)
        → IsSingle (elim r [
          | none ↦
              record (update item.id (λ entry. record entry { status = awaiting_conflict }) q) {
                worker = idle;
              }
          | some skip ↦ record (update item.id (with_status cancelled) q) { worker = idle }
          | some keep_both ↦
              proceed item free_path
                (update item.id (λ entry. record entry { dest_path = free_path }) q)
          | some replace ↦
              proceed item item.dest_path
                (update item.id (λ entry. record entry { overwrite_existing = true }) q)
        ])
    go none =
        resting-IsSingle _ _
          (kept (λ entry. record entry { status = awaiting_conflict }) (λ y t. cc t)) refl refl tt
    go (some skip) = resting-IsSingle _ _ (kept (with_status cancelled) (λ y t. cc t)) refl refl tt
    go (some keep_both) =
        proceed-IsSingle item free_path _
          (kept (λ entry. record entry { dest_path = free_path }) (λ y t. t))
    go (some replace) =
        proceed-IsSingle item item.dest_path _
          (kept (λ entry. record entry { overwrite_existing = true }) (λ y t. t))

pub end_check-IsSingle :
    (exists : Bool) (free_path : Text) (q : Queue)
    → IsSingle q
    → IsSingle (end_check exists free_path q)
unfolding end_check
end_check-IsSingle exists free_path q s = go q.worker refl
  where
    go :
        (w : Worker)
        → q.worker ≡ w
        → IsSingle (elim w [
          | checking item ↦
              if skips_check item || not exists
              then proceed item item.dest_path q
              else handle_taken item free_path q
          | _ ↦ q
        ])
    go (checking item) e =
        let o : IsOnly None q = subst (λ (w : Worker). IsOnly (Holds w) q) e s.only in
        elim (Bool-cases (skips_check item || not exists)) [
          | inl h ↦ rw h (proceed-IsSingle item item.dest_path q o)
          | inr h ↦ rw h (handle_taken-IsSingle item free_path q o)
        ]
    go idle e = s
    go (uploading item ready dest_path) e = s
    go (pausing item source) e = s
