-- ===== src/Uploads/Queue/Flight/Events.antt =====
-- The items in flight after the operations that leave the worker where it is.
use zfiles.Common.{
  ℕ, ◌≡◌, refl, ap, ◌∙◌, sym, subst, Bool, true, false, List, [], ◌∷◌, ◌++◌, none, Text, text_eq,
  filter, not, if◌then◌else◌, arith, lookup, lookup-erase, Bool-cases, In, In-append, In-of_filter,
  inl, inr, map,
}
use zfiles.Uploads.Sessions.{File, TusSessionRecord, MultipartSessionRecord}
use zfiles.Uploads.Queue.Items.{
  UploadQueueItem, is_in_flight, Backend, create_queue_item, create_resume_queue_item,
  create_tus_resume_queue_item, remove_done_upload_item, is_finished,
}
use zfiles.Uploads.Queue.State.{
  Queue, Worker, AbortReason, clear_progress_flush, commit_progress_item, show_item, update,
  abort_session, abort_signal, enqueue, Dropped, dropped_path, clear_finished, clear_done,
  enqueue_resume, enqueue_tus_resume,
}
use zfiles.Uploads.Queue.Flight.{IsOnly, IsSingle, Holds, IsOwn}
use zfiles.Uploads.Queue.Flight.Updates.{commit_progress_item-IsOnly, update_plain-IsOnly}

-- The worker stays, and what is in flight stays its own.
pub record Keeps (Ok : Text → Type 0) (q after : Queue) : Type 0 where
  pub only : IsOnly Ok after
  pub worker : after.worker ≡ q.worker

pub Keeps-IsSingle :
    (q after : Queue) → IsSingle q → Keeps (Holds q.worker) q after → IsSingle after
Keeps-IsSingle q after s k = record {
  only = subst (λ (w : Worker). IsOnly (Holds w) after) (sym k.worker) k.only;
  own = subst IsOwn (sym k.worker) s.own;
}

module _ (Ok : Text → Type 0) where
  pub Keeps-same :
      (q after : Queue)
      → IsOnly Ok q
      → after.items ≡ q.items
      → after.pending_progress ≡ q.pending_progress
      → after.worker ≡ q.worker
      → Keeps Ok q after
  Keeps-same q after o i p w = record {
    only = record {
      flying = λ x j e. o.flying x (subst (λ xs. In x xs) i j) e;
      waiting = λ k x e. o.waiting k x (ap (λ m. lookup m k) (sym p) ∙ e);
    };
    worker = w;
  }

  pub Keeps-trans : (a b c : Queue) → Keeps Ok a b → Keeps Ok b c → Keeps Ok a c
  Keeps-trans a b c h k = record { only = k.only; worker = k.worker ∙ h.worker }

  pub Keeps-filter :
      (p : UploadQueueItem → Bool) (ids : List Text) (q : Queue)
      → IsOnly Ok q
      → Keeps Ok q (record q { items = filter p q.items; cancelled_ids = ids })
  Keeps-filter p ids q o = record {
    only = record {
      flying = λ x i e. o.flying x (In-of_filter p q.items i).0 e;
      waiting = o.waiting;
    };
    worker = refl;
  }

  Keeps-append :
      (new : List UploadQueueItem) (q : Queue)
      → IsOnly Ok q
      → ((x : UploadQueueItem) → In x new → is_in_flight x.status ≡ false)
      → Keeps Ok q (record q { items = q.items ++ new })
  Keeps-append new q o h = record {
    only = record {
      flying = λ x i e. elim (In-append q.items new x i) [
        | inl j ↦ o.flying x j e
        | inr j ↦ cc (e, h x j)
      ];
      waiting = o.waiting;
    };
    worker = refl;
  }

  pub Keeps-abort_session :
      (backend : Backend) (item : UploadQueueItem) (q : Queue)
      → IsOnly Ok q
      → Keeps Ok q (abort_session backend item q)
  unfolding abort_session
  Keeps-abort_session backend item q o =
      Keeps-same q (abort_session backend item q) o (ground arith) (ground arith) (ground arith)

  pub Keeps-abort_signal :
      (id : Text) (reason : AbortReason) (q : Queue)
      → IsOnly Ok q
      → Keeps Ok q (abort_signal id reason q)
  unfolding abort_signal
  Keeps-abort_signal id reason q o =
      Keeps-same q (abort_signal id reason q) o (ground arith) (ground arith) (ground arith)

  pub Keeps-update :
      (id : Text) (f : UploadQueueItem → UploadQueueItem) (q : Queue)
      → IsOnly Ok q
      → ((y : UploadQueueItem)
          → In y q.items
          → y.id ≡ id
          → is_in_flight (f y).status ≡ true
          → Ok (f y).id)
      → Keeps Ok q (update id f q)
  Keeps-update id f q o h = record { only = update_plain-IsOnly Ok id q o f h; worker = refl }

  pub Keeps-clear_progress_flush :
      (id : Text) (q : Queue) → IsOnly Ok q → Keeps Ok q (clear_progress_flush id q)
  unfolding clear_progress_flush
  Keeps-clear_progress_flush id q o = record {
    only = record {
      flying = o.flying;
      waiting = λ k x e. elim (Bool-cases (text_eq id k)) [
        | inl same ↦ cc (
          e,
          lookup-erase q.pending_progress id k,
          ap (λ b. if b then none else lookup q.pending_progress k) same,
        )
        | inr away ↦ o.waiting k x (
            sym (
              lookup-erase q.pending_progress id k
              ∙ ap (λ b. if b then none else lookup q.pending_progress k) away)
            ∙ e)
      ];
    };
    worker = refl;
  }

  pub Keeps-commit_progress_item :
      (now : ℕ) (id : Text) (updated : UploadQueueItem) (force : Bool) (q : Queue)
      → IsOnly Ok q
      → Ok id
      → updated.id ≡ id
      → Keeps Ok q (commit_progress_item now id updated force q)
  unfolding commit_progress_item show_item clear_progress_flush
  Keeps-commit_progress_item now id updated force q o ok e = record {
    only = commit_progress_item-IsOnly Ok id q o now updated force ok e;
    worker = ground arith;
  }

  module _ (q : Queue) (o : IsOnly Ok q) where
    pub Keeps-enqueue :
        (read_only : Bool) (now : ℕ) (dropped : List Dropped) (base : Text)
        → Keeps Ok q (enqueue read_only now dropped base q)
    unfolding enqueue
    Keeps-enqueue true now dropped base = Keeps-same q q o refl refl refl
    Keeps-enqueue false now dropped base = Keeps-append (map item_of dropped) q o (created dropped)
      where
        item_of : Dropped → UploadQueueItem
        item_of d = create_queue_item d.id now d.file (dropped_path base d.file.name) d.has_handle

        created :
            (ds : List Dropped) (x : UploadQueueItem)
            → In x (map item_of ds)
            → is_in_flight x.status ≡ false
        created [] x i = absurd i
        created (d ∷ ds) x (inl e) =
            subst (λ (y : UploadQueueItem). is_in_flight y.status ≡ false) e
              (unfold create_queue_item is_in_flight in refl)
        created (d ∷ ds) x (inr i) = created ds x i

    single_new :
        (new : UploadQueueItem)
        → is_in_flight new.status ≡ false
        → Keeps Ok q (record q { items = q.items ++ (new ∷ []) })
    single_new new h = Keeps-append (new ∷ []) q o go
      where
        go : (x : UploadQueueItem) → In x (new ∷ []) → is_in_flight x.status ≡ false
        go x (inl e) = subst (λ (y : UploadQueueItem). is_in_flight y.status ≡ false) e h
        go x (inr i) = absurd i

    pub Keeps-enqueue_resume :
        (read_only : Bool) (id : Text) (now : ℕ) (file : File) (r : MultipartSessionRecord)
        (offset : ℕ)
        → Keeps Ok q (enqueue_resume read_only id now file r offset q)
    unfolding enqueue_resume
    Keeps-enqueue_resume true id now file r offset = Keeps-same q q o refl refl refl
    Keeps-enqueue_resume false id now file r offset =
        single_new (create_resume_queue_item id now file r offset)
          (unfold create_resume_queue_item is_in_flight in refl)

    pub Keeps-enqueue_tus_resume :
        (read_only : Bool) (id : Text) (now : ℕ) (file : File) (r : TusSessionRecord) (offset : ℕ)
        → Keeps Ok q (enqueue_tus_resume read_only id now file r offset q)
    unfolding enqueue_tus_resume
    Keeps-enqueue_tus_resume true id now file r offset = Keeps-same q q o refl refl refl
    Keeps-enqueue_tus_resume false id now file r offset =
        single_new (create_tus_resume_queue_item id now file r offset)
          (unfold create_tus_resume_queue_item is_in_flight in refl)

    pub Keeps-clear_finished : Keeps Ok q (clear_finished q)
    unfolding clear_finished
    Keeps-clear_finished = Keeps-filter (λ item. not (is_finished item.status)) q.cancelled_ids q o

    pub Keeps-clear_done : (id : Text) → Keeps Ok q (clear_done id q)
    unfolding clear_done remove_done_upload_item
    Keeps-clear_done id = Keeps-filter _ q.cancelled_ids q o
