-- ===== src/Uploads/Tests.antt =====
-- The theorems on uploads at concrete sessions and at a queue with two files.
use zfiles.Common.{
  ◌≡◌, ◌≢◌, ◌≤◌, ◌*◌, ◌↔◌, refl, true, false, List, [], ◌∷◌, none, some, Text, codes, In, lookup,
}
use zfiles.Uploads.Sessions.{
  File, TusSessionRecord, MultipartSessionRecord, compute_multipart_part_size,
  find_multipart_record, upsert_multipart_record, remove_other_tus_records,
}
use zfiles.Uploads.Sessions.Scopes.{ScopedStore, records_of}
use zfiles.Uploads.Sessions.Laws.{
  compute_multipart_part_size-bounds, find_multipart_record-upsert_multipart_record, IsKeyed,
  upsert_multipart_record-IsKeyed,
}
use zfiles.Uploads.Sessions.Others.{remove_other_tus_records_lem}
use zfiles.Uploads.Queue.Items.{
  UploadQueueItem, Backend, kernel, is_in_flight, is_pending, create_queue_item,
}
use zfiles.Common.{◌⊎◌, length, get_or, ltb, ◌≤◌, ◌+◌}
use zfiles.Uploads.Queue.Items.{active, hashing, verifying, done, failed, cancelled}
use zfiles.Uploads.Panel.{aggregate_upload_stats, upload_header_segments}
use zfiles.Uploads.Panel.Counts.{
  occurrences, aggregate_upload_stats-counts, upload_header_segments-sum, sum_of_segments,
  NoneEmpty,
}
use zfiles.Uploads.Queue.State.{Queue, checking, uploading, enqueue, cancel_upload, find_item}
use zfiles.Uploads.Queue.Worker.{begin_run, end_check}
use zfiles.Uploads.Queue.Steps.{
  Event, enqueued, run_began, check_ended, hashing_began, upload_began, steps, opened,
}
use zfiles.Uploads.Queue.Flight.{Holds}
use zfiles.Uploads.Queue.Flight.Single.{steps-Holds}
use zfiles.Uploads.Queue.Cancelled.{cancel_upload-end_check}

abbrev session : MultipartSessionRecord
session = record {
  upload_id = codes "u1";
  object_key = codes "k";
  dest_path = codes "a/k";
  file_name = codes "k";
  file_size = 6000000;
  file_last_modified = 1;
  part_size = 5242880;
  checksum_validation = true;
  checksum_sha256 = none;
  bytes_uploaded = none;
  created_at = codes "t";
}

abbrev one_scope : ScopedStore MultipartSessionRecord
one_scope = (codes "s", record session { upload_id = codes "u0" } ∷ []) ∷ []

compute_multipart_part_size-bounds_example :
    (60000000000 ≤ 10000 * compute_multipart_part_size 60000000000)
    × (5242880 ≤ compute_multipart_part_size 60000000000)
compute_multipart_part_size-bounds_example = compute_multipart_part_size-bounds 60000000000

find_multipart_record-upsert_multipart_record_example :
    let after = upsert_multipart_record (codes "s") session one_scope in
    (find_multipart_record after (codes "s") session.upload_id ≡ some session)
    × ((u : Text) (e : MultipartSessionRecord)
        → u ≢ session.upload_id
        → e.object_key ≢ session.object_key
        → find_multipart_record one_scope (codes "s") u ≡ some e
        → find_multipart_record after (codes "s") u ≡ some e)
    × ((other u : Text)
        → other ≢ codes "s"
        → find_multipart_record after other u ≡ find_multipart_record one_scope other u)
find_multipart_record-upsert_multipart_record_example =
    find_multipart_record-upsert_multipart_record (codes "s") session one_scope

none-IsKeyed : (s : Text) → IsKeyed (records_of {R = MultipartSessionRecord} [] s)
unfolding IsKeyed records_of
none-IsKeyed s = (tt, tt)

upsert_multipart_record-IsKeyed_example :
    IsKeyed (records_of (upsert_multipart_record (codes "s") session []) (codes "s"))
upsert_multipart_record-IsKeyed_example =
    upsert_multipart_record-IsKeyed (codes "s") session [] none-IsKeyed (codes "s")

abbrev tus : TusSessionRecord
tus = record {
  upload_id = codes "t1";
  tus_location = codes "/files/t1";
  dest_path = codes "a/k";
  file_name = codes "k";
  file_size = 10;
  file_last_modified = 1;
  checksum_sha256 = codes "h";
  created_at = codes "t";
}

abbrev tus_scope : ScopedStore TusSessionRecord
tus_scope = (codes "o", tus ∷ record tus { upload_id = codes "t2" } ∷ []) ∷ []

remove_other_tus_records_lem_example :
    let after = remove_other_tus_records (codes "o") (codes "a/k") (codes "t2") tus_scope in
    (In tus (records_of after.1 (codes "o")) ↔ (
      In tus (records_of tus_scope (codes "o"))
      × (tus.dest_path ≢ codes "a/k" ⊎ (tus.upload_id ≡ codes "t2"))))
    × (In tus after.0 ↔ (
        In tus (records_of tus_scope (codes "o"))
        × (tus.dest_path ≡ codes "a/k")
        × (tus.upload_id ≢ codes "t2")))
    × ((other : Text) → other ≢ codes "o" → records_of after.1 other ≡ records_of tus_scope other)
remove_other_tus_records_lem_example =
    remove_other_tus_records_lem (codes "o") (codes "a/k") (codes "t2") tus_scope tus

abbrev file : File
file = record { name = codes "f"; size = 10; last_modified = 1 }

abbrev events : List Event
events =
    enqueued false 1
      (record { id = codes "1"; file = file; has_handle = false }
        ∷ record { id = codes "2"; file = file; has_handle = false }
        ∷ [])
      (codes "d")
    ∷ run_began
    ∷ check_ended false []
    ∷ hashing_began
    ∷ upload_began
    ∷ []

abbrev backend : Backend
backend = kernel (codes "o")

steps-Holds_example :
    let q = steps backend events (opened tus_scope one_scope) in
    ((x y : UploadQueueItem)
      → In x q.items
      → In y q.items
      → is_in_flight x.status ≡ true
      → is_in_flight y.status ≡ true
      → x.id ≡ y.id)
    × ((x : UploadQueueItem) → In x q.items → is_in_flight x.status ≡ true → Holds q.worker x.id)
steps-Holds_example = steps-Holds backend events tus_scope one_scope

waiting_item : UploadQueueItem
waiting_item = create_queue_item (codes "1") 1 file (codes "d/f") false

-- One file is queued, and its destination is being checked.
checked : Queue
checked = record (opened [] []) { items = waiting_item ∷ []; worker = checking waiting_item }

checked_reached :
    begin_run (
      enqueue false 1
        (record { id = codes "1"; file = file; has_handle = false } ∷ [])
        (codes "d")
        (opened [] []))
    ≡ checked
unfolding checked waiting_item create_queue_item begin_run enqueue is_in_flight is_pending
checked_reached = refl

cancel_upload-end_check_example :
    let after = end_check false [] (cancel_upload backend waiting_item.id checked) in
    (after.worker ≡ uploading waiting_item waiting_item waiting_item.dest_path)
    × (lookup after.abort_controllers waiting_item.id ≡ some none)
    × (find_item waiting_item.id after.items ≡ none)
    × (cancel_upload backend waiting_item.id after ≡ after)
cancel_upload-end_check_example =
    cancel_upload-end_check backend checked waiting_item [] (unfold checked in refl)
      (unfold waiting_item create_queue_item in refl)
      (unfold checked waiting_item create_queue_item find_item in refl)

-- One upload is in transfer beside one that waits.
abbrev two_items : List UploadQueueItem
two_items =
    record waiting_item { status = active; offset = 4 }
    ∷ record waiting_item { id = codes "2" }
    ∷ []

aggregate_upload_stats-counts_example :
    let stats = aggregate_upload_stats two_items in
    (stats.in_flight + stats.pending_count + stats.user_paused + stats.awaiting + stats.finished
      ≡ length two_items)
    × (stats.in_flight
        ≡ occurrences active two_items
          + occurrences hashing two_items
          + occurrences verifying two_items)
    × (stats.finished
        ≡ occurrences done two_items
          + occurrences failed two_items
          + occurrences cancelled two_items)
    × (stats.has_pending_work ≡ ltb stats.finished (length two_items))
    × (stats.active_bytes_uploaded ≤ stats.active_bytes_total)
    × (get_or stats.percent 0 ≤ 100)
aggregate_upload_stats-counts_example = aggregate_upload_stats-counts two_items

in_transfer : (aggregate_upload_stats two_items).percent ≡ some 40
unfolding aggregate_upload_stats waiting_item create_queue_item
in_transfer = refl

upload_header_segments-sum_example :
    (sum_of_segments (upload_header_segments two_items 3) ≡ length two_items + 3)
    × NoneEmpty (upload_header_segments two_items 3)
upload_header_segments-sum_example = upload_header_segments-sum two_items 3
