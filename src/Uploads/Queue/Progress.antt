-- ===== src/Uploads/Queue/Progress.antt =====
-- What a report of progress makes of an item.
use zfiles.Common.{
  ℕ, Bool, true, ◌&&◌, ◌||◌, List, [], ◌∷◌, ◌++◌, Option, none, some, Text, text_eq, codes, filter,
  if◌then◌else◌, ◌*◌, ◌+◌, ◌-◌, ltb, leb, or_else, get_or,
}
use zfiles.Uploads.Queue.Items.{
  UploadItemStatus, active, hashing, verifying, UploadQueueItem, Fraction,
}

pub record ProgressSample : Type 0 where
  pub time : ℕ
  pub offset : ℕ

abbrev pub progress_ui_min_interval_ms : ℕ
progress_ui_min_interval_ms = 1000

unfoldable pub should_commit_progress_ui : Option ℕ → ℕ → Bool → Bool
should_commit_progress_ui last_commit now force = elim last_commit [
  | none ↦ true
  | some last ↦ force || leb (last + progress_ui_min_interval_ms) now
]

-- The samples of the last two seconds. Where the clock has gone back a sample is kept.
unfoldable pub trim_samples : ℕ → List ProgressSample → List ProgressSample
trim_samples now = filter (λ sample. leb now (sample.time + 2000))

-- Bytes per second since the oldest sample that is kept, where there are two and time has passed.
unfoldable pub speed_of : ℕ → ℕ → List ProgressSample → Option Fraction
speed_of offset now [] = none
speed_of offset now (oldest ∷ []) = none
speed_of offset now (oldest ∷ next ∷ rest) =
    if ltb oldest.time now
    then some (record { num = (offset - oldest.offset) * 1000; den = now - oldest.time })
    else none

unfoldable pub eta_of : ℕ → ℕ → Option Fraction → Option Fraction
eta_of offset length none = none
eta_of offset length (some speed) =
    if ltb 0 speed.num && ltb offset length
    then some (record { num = (length - offset) * speed.den; den = speed.num })
    else none

unfoldable pub apply_progress_update :
    UploadQueueItem
    → ℕ
    → Option ℕ
    → ℕ
    → List ProgressSample
    → Option Text
    → Option ℕ
    → UploadQueueItem × List ProgressSample
unfolding trim_samples speed_of eta_of
apply_progress_update item offset total now samples backend_upload_id committed =
    let length = get_or total item.total in
    let trimmed = trim_samples now (samples ++ (record { time = now; offset = offset } ∷ [])) in
    let speed = speed_of offset now trimmed in
    (
      record item {
        offset = offset;
        total = length;
        speed_bps = speed;
        eta_seconds = eta_of offset length speed;
        backend_upload_id = or_else backend_upload_id item.backend_upload_id;
        committed_upload_offset = or_else committed item.committed_upload_offset;
      },
      trimmed,
    )

unfoldable pub upload_status_for_progress : Text → UploadItemStatus
upload_status_for_progress progress_id =
    if text_eq progress_id (codes "hashing")
    then hashing
    else if text_eq progress_id (codes "verifying")
    then verifying
    else active
