-- ===== src/Uploads/Queue/Flight/Answers.antt =====
-- The items in flight after the answers to a conflict and the reports of the server.
use zfiles.Common.{
  ℕ, ◌≡◌, refl, Bool, true, false, ◌&&◌, List, Option, none, some, Text, if◌then◌else◌, arith, In,
  find-holds,
}
use zfiles.Uploads.Queue.Items.{
  UploadQueueItem, UploadItemStatus, pending, hashing, active, verifying, paused, awaiting_conflict,
  done, failed, cancelled, is_in_flight, Backend, with_status,
}
use zfiles.Uploads.Queue.Progress.{apply_progress_update}
use zfiles.Uploads.Queue.State.{
  Queue, UploadConflictResolution, replace, keep_both, skip, commit_progress_item, update,
  find_item, is_active, reported_item, apply_remote_progress, ingest_progress,
}
use zfiles.Uploads.Queue.Worker.{resolve_upload_conflict, resolve_keep_both}
use zfiles.Uploads.Queue.Flight.{IsOnly}
use zfiles.Uploads.Queue.Flight.Events.{
  Keeps, Keeps-same, Keeps-trans, Keeps-update, Keeps-commit_progress_item,
}

-- A report of the server is about an item in flight.
reported :
    (id : Text) (items : List UploadQueueItem) (x : UploadQueueItem)
    → reported_item id items ≡ some x
    → In x items × (is_in_flight x.status ≡ true)
unfolding reported_item is_active is_in_flight
reported id items x e = let (i, h) = find-holds _ items x e in (i, flies x.status _ h)
  where
    flies : (s : UploadItemStatus) (b : Bool) → (is_active s && b) ≡ true → is_in_flight s ≡ true
    flies s b h = ground arith

module _ (Ok : Text → Type 0) (backend : Backend) (id : Text) where
  pub Keeps-resolve_keep_both :
      (path : Text) (q : Queue) → IsOnly Ok q → Keeps Ok q (resolve_keep_both id path q)
  unfolding resolve_keep_both is_in_flight
  Keeps-resolve_keep_both path q o = Keeps-update Ok id _ q o λ y i e t. cc t

  pub Keeps-resolve_upload_conflict :
      (resolution : UploadConflictResolution) (for_all : Bool) (q : Queue)
      → IsOnly Ok q
      → Keeps Ok q (resolve_upload_conflict id resolution for_all q)
  unfolding resolve_upload_conflict is_in_flight with_status
  Keeps-resolve_upload_conflict resolution for_all q o = go (find_item id q.items)
    where
      asked : Queue
      asked = if for_all then record q { apply_to_all = some resolution } else q

      asked-Keeps :
          (b : Bool) → Keeps Ok q (if b then record q { apply_to_all = some resolution } else q)
      asked-Keeps true =
          Keeps-same Ok q (record q { apply_to_all = some resolution }) o refl refl refl
      asked-Keeps false = Keeps-same Ok q q o refl refl refl

      then_asked : (after : Queue) → Keeps Ok asked after → Keeps Ok q after
      then_asked after k = Keeps-trans Ok q asked after (asked-Keeps for_all) k

      only_asked : IsOnly Ok asked
      only_asked = (asked-Keeps for_all).only

      answer :
          (r : UploadConflictResolution)
          → Keeps Ok q (elim r [
            | skip ↦ update id (with_status cancelled) asked
            | keep_both ↦ asked
            | replace ↦
                update id
                  (λ entry. record entry { status = pending; overwrite_existing = true })
                  asked
          ])
      answer skip =
          then_asked _ (Keeps-update Ok id (with_status cancelled) asked only_asked λ y i e t. cc t)
      answer keep_both = asked-Keeps for_all
      answer replace = then_asked _ (
          Keeps-update Ok id (λ entry. record entry { status = pending; overwrite_existing = true })
            asked only_asked λ y i e t. cc t)

      stands :
          (s : UploadItemStatus)
          → Keeps Ok q (elim s [
            | awaiting_conflict ↦ elim resolution [
              | skip ↦ update id (with_status cancelled) asked
              | keep_both ↦ asked
              | replace ↦
                  update id
                    (λ entry. record entry { status = pending; overwrite_existing = true })
                    asked
            ]
            | _ ↦ asked
          ])
      stands awaiting_conflict = answer resolution
      stands pending = asked-Keeps for_all
      stands hashing = asked-Keeps for_all
      stands active = asked-Keeps for_all
      stands verifying = asked-Keeps for_all
      stands paused = asked-Keeps for_all
      stands done = asked-Keeps for_all
      stands failed = asked-Keeps for_all
      stands cancelled = asked-Keeps for_all

      go :
          (found : Option UploadQueueItem)
          → Keeps Ok q (elim found [
            | none ↦ asked
            | some item ↦ elim item.status [
              | awaiting_conflict ↦ elim resolution [
                | skip ↦ update id (with_status cancelled) asked
                | keep_both ↦ asked
                | replace ↦
                    update id
                      (λ entry. record entry { status = pending; overwrite_existing = true })
                      asked
              ]
              | _ ↦ asked
            ]
          ])
      go none = asked-Keeps for_all
      go (some item) = stands item.status

  pub Keeps-apply_remote_progress :
      (now : ℕ) (offset : ℕ) (total committed : Option ℕ) (q : Queue)
      → IsOnly Ok q
      → Keeps Ok q (apply_remote_progress now id offset total committed q)
  unfolding apply_remote_progress ingest_progress apply_progress_update
  Keeps-apply_remote_progress now offset total committed q o =
      go (reported_item id q.items) (reported id q.items)
    where
      go :
          (found : Option UploadQueueItem)
          → ((x : UploadQueueItem) → found ≡ some x → In x q.items × (is_in_flight x.status ≡ true))
          → Keeps Ok q (elim found [
            | none ↦ q
            | some item ↦
                let (updated, next) =
                  ingest_progress now item.id item offset total (some id) committed q in
                commit_progress_item now item.id updated false next
          ])
      go none h = Keeps-same Ok q q o refl refl refl
      go (some item) h =
          let next = (ingest_progress now item.id item offset total (some id) committed q).1 in
          let first = Keeps-same Ok q next o refl refl refl in
          let (i, f) = h item refl in
          Keeps-trans Ok q next _ first (
            Keeps-commit_progress_item Ok now item.id
              (ingest_progress now item.id item offset total (some id) committed q).0 false next
              first.only (o.flying item i f) refl)
