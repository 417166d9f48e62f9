-- ===== src/Uploads/Queue/Items.antt =====
-- The items of the queue, and what is read of them.
use zfiles.Common.{
  ℕ, Bool, true, false, ◌||◌, List, [], ◌∷◌, Option, none, some, Text, text_eq, filter, not,
  if◌then◌else◌, or_else,
}
use zfiles.Uploads.Sessions.{
  File, TusSessionRecord, MultipartSessionRecord, tus_upload_id_from_location,
  find_multipart_record,
}
use zfiles.Uploads.Sessions.Scopes.{ScopedStore}

pub data UploadItemStatus : Type 0 where
  pending : UploadItemStatus
  hashing : UploadItemStatus
  active : UploadItemStatus
  verifying : UploadItemStatus
  paused : UploadItemStatus
  awaiting_conflict : UploadItemStatus
  done : UploadItemStatus
  failed : UploadItemStatus
  cancelled : UploadItemStatus

-- A quotient of two numbers, where JavaScript keeps a floating-point one.
pub record Fraction : Type 0 where
  pub num : ℕ
  pub den : ℕ

pub record TusUploadResume : Type 0 where
  pub location : Text
  pub checksum_sha256 : Text

pub record MultipartUpload : Type 0 where
  pub upload_id : Text
  pub object_key : Text

pub record MultipartResume : Type 0 where
  pub upload_id : Text
  pub object_key : Text
  pub part_size : ℕ
  pub checksum_validation : Bool
  pub checksum_sha256 : Option Text

pub record UploadQueueItem : Type 0 where
  pub id : Text
  pub file : File
  pub has_source_file_handle : Bool
  pub file_name : Text
  pub dest_path : Text
  pub enqueued_at : ℕ
  pub overwrite_existing : Bool
  pub status : UploadItemStatus
  pub offset : ℕ
  pub total : ℕ
  pub committed_upload_offset : Option ℕ
  pub speed_bps : Option Fraction
  pub eta_seconds : Option Fraction
  pub error : Option Text
  pub backend_upload_id : Option Text
  pub tus_resume : Option TusUploadResume
  pub multipart_upload : Option MultipartUpload
  pub multipart_resume : Option MultipartResume

-- The kind of backend, with what the queue reads of it: the scope of its sessions, and whether
-- uploads to it are validated by checksum.
pub data Backend : Type 0 where
  s3 : (scope_id : Text) (checksum_validation : Bool) → Backend
  kernel : (scope_id : Text) → Backend
  other : Backend

unfoldable pub create_queue_item : Text → ℕ → File → Text → Bool → UploadQueueItem
create_queue_item id now file dest_path has_handle = record {
  id = id;
  file = file;
  has_source_file_handle = has_handle;
  file_name = file.name;
  dest_path = dest_path;
  enqueued_at = now;
  overwrite_existing = false;
  status = pending;
  offset = 0;
  total = file.size;
  committed_upload_offset = none;
  speed_bps = none;
  eta_seconds = none;
  error = none;
  backend_upload_id = none;
  tus_resume = none;
  multipart_upload = none;
  multipart_resume = none;
}

unfoldable pub multipart_resume_from_record : MultipartSessionRecord → MultipartResume
multipart_resume_from_record r = record {
  upload_id = r.upload_id;
  object_key = r.object_key;
  part_size = r.part_size;
  checksum_validation = r.checksum_validation;
  checksum_sha256 = r.checksum_sha256;
}

unfoldable pub create_resume_queue_item :
    Text → ℕ → File → MultipartSessionRecord → ℕ → UploadQueueItem
unfolding create_queue_item multipart_resume_from_record
create_resume_queue_item id now file r initial_offset =
    record (create_queue_item id now file r.dest_path false) {
      file_name = r.file_name;
      offset = initial_offset;
      committed_upload_offset = some initial_offset;
      total = r.file_size;
      multipart_resume = some (multipart_resume_from_record r);
      multipart_upload = some (record { upload_id = r.upload_id; object_key = r.object_key });
    }

unfoldable pub create_tus_resume_queue_item :
    Text → ℕ → File → TusSessionRecord → ℕ → UploadQueueItem
unfolding create_queue_item
create_tus_resume_queue_item id now file r initial_offset =
    record (create_queue_item id now file r.dest_path false) {
      file_name = r.file_name;
      offset = initial_offset;
      committed_upload_offset = some initial_offset;
      total = r.file_size;
      backend_upload_id = some r.upload_id;
      tus_resume = some (record { location = r.tus_location; checksum_sha256 = r.checksum_sha256 });
    }

unfoldable pub is_finished : UploadItemStatus → Bool
is_finished status = elim status [ done ↦ true | failed ↦ true | cancelled ↦ true | _ ↦ false ]

-- An item that the worker has begun to upload.
unfoldable pub is_in_flight : UploadItemStatus → Bool
is_in_flight status = elim status [ active ↦ true | hashing ↦ true | verifying ↦ true | _ ↦ false ]

unfoldable pub is_pending : UploadItemStatus → Bool
is_pending status = elim status [ pending ↦ true | _ ↦ false ]

-- A text that JavaScript takes for true.
unfoldable pub truthy_id : Option Text → Option Text
truthy_id none = none
truthy_id (some []) = none
truthy_id (some (c ∷ s)) = some (c ∷ s)

-- `item.multipartResume?.uploadId ?? item.multipartUpload?.uploadId`.
unfoldable pub multipart_upload_id : UploadQueueItem → Option Text
multipart_upload_id item = elim item.multipart_resume [
  | some r ↦ some r.upload_id
  | none ↦ elim item.multipart_upload [ some u ↦ some u.upload_id | none ↦ none ]
]

unfoldable pub tus_upload_id : UploadQueueItem → Option Text
unfolding tus_upload_id_from_location
tus_upload_id item = elim item.backend_upload_id [
  | some id ↦ some id
  | none ↦ elim item.tus_resume [
    | some r ↦ some (tus_upload_id_from_location r.location)
    | none ↦ none
  ]
]

-- The ids that are set, of the items that are not finished: a JavaScript `Set` as a list.
unfoldable pub active_ids : (UploadQueueItem → Option Text) → List UploadQueueItem → List Text
unfolding truthy_id is_finished
active_ids upload_id [] = []
active_ids upload_id (item ∷ items) =
    let rest = active_ids upload_id items in
    if is_finished item.status
    then rest
    else elim (truthy_id (upload_id item)) [ none ↦ rest | some id ↦ id ∷ rest ]

unfoldable pub active_multipart_upload_ids : List UploadQueueItem → List Text
unfolding active_ids multipart_upload_id
active_multipart_upload_ids items = active_ids multipart_upload_id items

unfoldable pub active_tus_upload_ids : List UploadQueueItem → List Text
unfolding active_ids tus_upload_id
active_tus_upload_ids items = active_ids tus_upload_id items

unfoldable pub finished_upload_session_ids : UploadQueueItem → Option Text × Option Text
unfolding truthy_id multipart_upload_id tus_upload_id
finished_upload_session_ids item =
    (truthy_id (multipart_upload_id item), truthy_id (tus_upload_id item))

-- The status with the speed and the time left cleared, as every change of status leaves them.
unfoldable pub with_status : UploadItemStatus → UploadQueueItem → UploadQueueItem
with_status status item = record item { status = status; speed_bps = none; eta_seconds = none }

unfoldable pub find_resume :
    Backend → ScopedStore MultipartSessionRecord → UploadQueueItem → Option MultipartResume
unfolding find_multipart_record multipart_resume_from_record
find_resume (s3 scope_id v) sessions item = elim item.multipart_upload [
  | none ↦ none
  | some u ↦ elim (find_multipart_record sessions scope_id u.upload_id) [
    | none ↦ none
    | some r ↦ some (multipart_resume_from_record r)
  ]
]
find_resume (kernel scope_id) sessions item = none
find_resume other sessions item = none

-- What a resumed item is given, for one that is paused.
unfoldable pub resumed :
    Backend → ScopedStore MultipartSessionRecord → UploadQueueItem → UploadQueueItem
unfolding with_status find_resume
resumed backend sessions item = record (with_status pending item) {
  multipart_resume = or_else item.multipart_resume (find_resume backend sessions item);
}

unfoldable pub enrich_paused_item_for_resume :
    Backend → ScopedStore MultipartSessionRecord → UploadQueueItem → UploadQueueItem
unfolding resumed
enrich_paused_item_for_resume backend sessions item = elim item.status [
  | paused ↦ resumed backend sessions item
  | _ ↦ item
]

unfoldable pub is_done : UploadItemStatus → Bool
is_done status = elim status [ done ↦ true | _ ↦ false ]

unfoldable pub remove_done_upload_item : Text → List UploadQueueItem → List UploadQueueItem
unfolding is_done
remove_done_upload_item queue_id items =
    filter (λ item. not (text_eq item.id queue_id) || not (is_done item.status)) items
