-- ===== src/Uploads/Panel.antt =====
-- What the upload button and the panel show of the queue: web/src/uploadTray.ts, the header of
-- web/src/uploadPanelRows.ts, and countUploadsByStatus of web/src/upload-queue.ts.
pub mod Counts
use zfiles.Common.{
  ℕ, zero, suc, ◌+◌, ◌-◌, ◌*◌, ◌/◌, min, Bool, true, false, not, ◌&&◌, ◌||◌, List, [], ◌∷◌, ◌++◌,
  Option, none, some, if◌then◌else◌, ltb, ◌==◌, length,
}
use zfiles.Uploads.Queue.Items.{
  UploadItemStatus, pending, hashing, active, verifying, paused, awaiting_conflict, done, failed,
  cancelled, Fraction, UploadQueueItem,
}

abbrev pub status_index : UploadItemStatus → ℕ
status_index pending = 0
status_index hashing = 1
status_index active = 2
status_index verifying = 3
status_index paused = 4
status_index awaiting_conflict = 5
status_index done = 6
status_index failed = 7
status_index cancelled = 8

-- `===` on statuses.
abbrev pub status_eq : UploadItemStatus → UploadItemStatus → Bool
status_eq a b = status_index a == status_index b

abbrev pub StatusCounts : Type 0
StatusCounts = UploadItemStatus → ℕ

unfoldable pub empty_status_counts : StatusCounts
empty_status_counts s = 0

-- `counts[status] += 1`.
unfoldable pub count_status : UploadItemStatus → StatusCounts → StatusCounts
count_status status counts s = if status_eq status s then suc (counts s) else counts s

unfoldable pub count_uploads_by_status : List UploadQueueItem → StatusCounts → StatusCounts
unfolding count_status
count_uploads_by_status [] counts = counts
count_uploads_by_status (item ∷ items) counts =
    count_uploads_by_status items (count_status item.status counts)

-- The variables of the loop in `aggregateUploadStats`.
pub record Sums : Type 0 where
  pub counts : StatusCounts
  pub bytes_total : ℕ
  pub bytes_uploaded : ℕ
  pub speed_sum : Fraction
  pub has_speed_sample : Bool

pub record UploadTrayStats : Type 0 where
  pub total : ℕ
  pub active_count : ℕ
  pub hashing_count : ℕ
  pub verifying_count : ℕ
  pub pending_count : ℕ
  pub user_paused : ℕ
  pub awaiting : ℕ
  pub failed_count : ℕ
  pub done_count : ℕ
  pub cancelled_count : ℕ
  pub in_flight : ℕ
  pub finished : ℕ
  pub has_in_flight : Bool
  pub has_pending_work : Bool
  pub active_bytes_total : ℕ
  pub active_bytes_uploaded : ℕ
  pub percent : Option ℕ
  pub speed_bps : Option Fraction
  pub eta_seconds : Option Fraction

-- The sum of two quotients.
unfoldable pub add_speed : Fraction → Fraction → Fraction
add_speed a b = record { num = a.num * b.den + b.num * a.den; den = a.den * b.den }

unfoldable pub sum_active : UploadQueueItem → Sums → Sums
unfolding add_speed
sum_active item s =
    let bytes : Sums = record s {
      bytes_total = s.bytes_total + item.total;
      bytes_uploaded = s.bytes_uploaded + min item.offset item.total;
    } in
    elim item.speed_bps [
      | none ↦ bytes
      | some speed ↦ record bytes {
        speed_sum = add_speed s.speed_sum speed;
        has_speed_sample = true;
      }
    ]

unfoldable pub sum_item : UploadQueueItem → Sums → Sums
unfolding count_status sum_active
sum_item item s =
    let counted : Sums = record s { counts = count_status item.status s.counts } in
    if status_eq item.status active then sum_active item counted else counted

unfoldable pub sum_items : List UploadQueueItem → Sums → Sums
unfolding sum_item
sum_items [] s = s
sum_items (item ∷ items) s = sum_items items (sum_item item s)

-- `Math.min(100, Math.round((uploaded / total) * 100))`, in exact arithmetic.
unfoldable pub percent_of : ℕ → ℕ → Option ℕ
percent_of uploaded zero = none
percent_of uploaded (suc t) = some (min 100 ((200 * uploaded + suc t) / (2 * suc t)))

unfoldable pub speed_of_sums : Sums → Option Fraction
speed_of_sums s = if s.has_speed_sample && ltb 0 s.speed_sum.num then some s.speed_sum else none

unfoldable pub eta_of_sums : ℕ → Option Fraction → Option Fraction
eta_of_sums remaining none = none
eta_of_sums zero (some speed) = none
eta_of_sums (suc r) (some speed) =
    if ltb 0 speed.num then some (record { num = suc r * speed.den; den = speed.num }) else none

unfoldable pub stats_of : ℕ → Sums → UploadTrayStats
unfolding percent_of speed_of_sums eta_of_sums
stats_of total s =
    let c = s.counts in
    let in_flight = c active + c hashing + c verifying in
    record {
      total = total;
      active_count = c active;
      hashing_count = c hashing;
      verifying_count = c verifying;
      pending_count = c pending;
      user_paused = c paused;
      awaiting = c awaiting_conflict;
      failed_count = c failed;
      done_count = c done;
      cancelled_count = c cancelled;
      in_flight = in_flight;
      finished = c done + c failed + c cancelled;
      has_in_flight = ltb 0 in_flight;
      has_pending_work =
          ltb 0 in_flight || ltb 0 (c pending) || ltb 0 (c paused) || ltb 0 (c awaiting_conflict);
      active_bytes_total = s.bytes_total;
      active_bytes_uploaded = s.bytes_uploaded;
      percent = percent_of s.bytes_uploaded s.bytes_total;
      speed_bps = speed_of_sums s;
      eta_seconds = eta_of_sums (s.bytes_total - s.bytes_uploaded) (speed_of_sums s);
    }

unfoldable pub aggregate_upload_stats : List UploadQueueItem → UploadTrayStats
unfolding sum_items stats_of empty_status_counts
aggregate_upload_stats items = stats_of (length items) (
    sum_items items (record {
      counts = empty_status_counts;
      bytes_total = 0;
      bytes_uploaded = 0;
      speed_sum = record { num = 0; den = 1 };
      has_speed_sample = false;
    }))

-- A segment of the header: that of a status, or that of the unfinished sessions.
pub data SegmentKey : Type 0 where
  of_status : UploadItemStatus → SegmentKey
  unfinished : SegmentKey

abbrev pub header_status_order : List UploadItemStatus
header_status_order =
    active ∷ hashing ∷ verifying ∷ paused ∷ awaiting_conflict ∷ pending ∷ done ∷ failed ∷ cancelled
    ∷ []

unfoldable pub segment_if : SegmentKey → ℕ → List (SegmentKey × ℕ)
segment_if key zero = []
segment_if key (suc n) = (key, suc n) ∷ []

unfoldable pub segments_of : StatusCounts → ℕ → List UploadItemStatus → List (SegmentKey × ℕ)
unfolding segment_if
segments_of counts session_count [] = []
segments_of counts session_count (status ∷ order) =
    (if status_eq status done then segment_if unfinished session_count else [])
    ++ (segment_if (of_status status) (counts status) ++ segments_of counts session_count order)

unfoldable pub upload_header_segments : List UploadQueueItem → ℕ → List (SegmentKey × ℕ)
unfolding segments_of count_uploads_by_status empty_status_counts
upload_header_segments items session_count =
    segments_of (count_uploads_by_status items empty_status_counts) session_count
      header_status_order

pub record TrayAutoOpenState : Type 0 where
  pub had_pending_work : Bool

unfoldable pub reduce_tray_auto_open : TrayAutoOpenState → Bool → Bool × TrayAutoOpenState
reduce_tray_auto_open prev has_pending_work =
    (not prev.had_pending_work && has_pending_work, record { had_pending_work = has_pending_work })

unfoldable pub upload_tray_attention : UploadTrayStats → Bool
upload_tray_attention stats =
    ltb 0 stats.user_paused || ltb 0 stats.awaiting || ltb 0 stats.failed_count
