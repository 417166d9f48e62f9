-- ===== src/Uploads/Queue/Flight.antt =====
-- Which items of the queue are in flight, and which one the worker holds.
pub mod Updates
pub mod Events
pub mod Users
pub mod Answers
pub mod Callbacks
pub mod Reports
pub mod Runs
pub mod Ends
pub mod Single
use zfiles.Common.{◌≡◌, Bool, true, Option, some, Text, List, lookup, Entries, In}
use zfiles.Uploads.Queue.Items.{UploadQueueItem, is_in_flight}
use zfiles.Uploads.Queue.State.{Worker, idle, checking, uploading, pausing, Queue}

-- The item with this id is the worker's to upload.
abbrev pub Holds : Worker → Text → Type 0
Holds idle id = ⊥
Holds (checking item) id = ⊥
Holds (uploading item ready dest_path) id = item.id ≡ id
Holds (pausing item source) id = item.id ≡ id

-- What waits for the answer to a pause is the worker's own item.
abbrev pub IsOwn : Worker → Type 0
IsOwn idle = Unit
IsOwn (checking item) = Unit
IsOwn (uploading item ready dest_path) = Unit
IsOwn (pausing item source) = source.id ≡ item.id

-- Every item in flight, displayed or waiting to be, has an id of a kind.
pub record IsOnly (Ok : Text → Type 0) (q : Queue) : Type 0 where
  pub flying :
      (item : UploadQueueItem) → In item q.items → is_in_flight item.status ≡ true → Ok item.id
  pub waiting :
      (id : Text) (item : UploadQueueItem)
      → lookup q.pending_progress id ≡ some item
      → Ok id × (item.id ≡ id)

-- An item in flight is the one that the worker holds.
pub record IsSingle (q : Queue) : Type 0 where
  pub only : IsOnly (Holds q.worker) q
  pub own : IsOwn q.worker
