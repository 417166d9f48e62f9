-- ===== src/Uploads/Panel/Counts.antt =====
-- The counts of the tray and of the header against the items of the queue.
use zfiles.Common.{
  ℕ, zero, suc, ◌+◌, ◌≤◌, ◌<◌, min, ◌≡◌, refl, ap, ◌∙◌, Bool, true, false, ◌||◌, List, [], ◌∷◌,
  ◌++◌, Option, none, some, get_or, if◌then◌else◌, ltb, length, filter, All, arith, Bool-cases, inl,
  inr,
}
use zfiles.Uploads.Queue.Items.{
  UploadItemStatus, pending, hashing, active, verifying, paused, awaiting_conflict, done, failed,
  cancelled, Fraction, UploadQueueItem,
}
use zfiles.Uploads.Panel.{
  status_eq, StatusCounts, empty_status_counts, count_status, count_uploads_by_status, Sums,
  add_speed, sum_active, sum_item, sum_items, percent_of, stats_of, aggregate_upload_stats,
  SegmentKey, of_status, unfinished, segment_if, segments_of, upload_header_segments,
  header_status_order,
}

-- How many items have a status.
abbrev pub occurrences : UploadItemStatus → List UploadQueueItem → ℕ
occurrences s items = length (filter (λ (i : UploadQueueItem). status_eq i.status s) items)

-- The nine counts.
abbrev sum_counts : StatusCounts → ℕ
sum_counts c =
    c pending
    + c hashing
    + c active
    + c verifying
    + c paused
    + c awaiting_conflict
    + c done
    + c failed
    + c cancelled

sum_counts-count_status :
    (s : UploadItemStatus) (c : StatusCounts) → sum_counts (count_status s c) ≡ suc (sum_counts c)
unfolding count_status
sum_counts-count_status pending c = omega arith
sum_counts-count_status hashing c = omega arith
sum_counts-count_status active c = omega arith
sum_counts-count_status verifying c = omega arith
sum_counts-count_status paused c = omega arith
sum_counts-count_status awaiting_conflict c = omega arith
sum_counts-count_status done c = omega arith
sum_counts-count_status failed c = omega arith
sum_counts-count_status cancelled c = omega arith

-- The bytes and the speed of an item in transfer leave the counts alone, and no more is uploaded
-- than there is.
sum_active-counts :
    (item : UploadQueueItem) (s : Sums)
    → ((sum_active item s).counts ≡ s.counts)
      × (s.bytes_uploaded ≤ s.bytes_total
          → (sum_active item s).bytes_uploaded ≤ (sum_active item s).bytes_total)
unfolding sum_active
sum_active-counts item s = go item.speed_bps
  where
    bytes : Sums
    bytes = record s {
      bytes_total = s.bytes_total + item.total;
      bytes_uploaded = s.bytes_uploaded + min item.offset item.total;
    }

    after : Option Fraction → Sums
    after o = elim o [
      | none ↦ record s {
        bytes_total = s.bytes_total + item.total;
        bytes_uploaded = s.bytes_uploaded + min item.offset item.total;
      }
      | some speed ↦ record s {
        bytes_total = s.bytes_total + item.total;
        bytes_uploaded = s.bytes_uploaded + min item.offset item.total;
        speed_sum = add_speed s.speed_sum speed;
        has_speed_sample = true;
      }
    ]

    go :
        (o : Option Fraction)
        → ((after o).counts ≡ s.counts)
          × (s.bytes_uploaded ≤ s.bytes_total → (after o).bytes_uploaded ≤ (after o).bytes_total)
    go none = (refl, λ h. omega (arith, h))
    go (some speed) = (refl, λ h. omega (arith, h))

sum_item-bytes :
    (item : UploadQueueItem) (s : Sums)
    → s.bytes_uploaded ≤ s.bytes_total
    → (sum_item item s).bytes_uploaded ≤ (sum_item item s).bytes_total
unfolding sum_item
sum_item-bytes item s h = go (status_eq item.status active)
  where
    go :
        (b : Bool)
        → (if b
            then sum_active item (record s { counts = count_status item.status s.counts })
            else record s { counts = count_status item.status s.counts }).bytes_uploaded
          ≤ (if b
              then sum_active item (record s { counts = count_status item.status s.counts })
              else record s { counts = count_status item.status s.counts }).bytes_total
    go true = (sum_active-counts item (record s { counts = count_status item.status s.counts })).1 h
    go false = h

sum_item-counts :
    (item : UploadQueueItem) (s : Sums)
    → (sum_item item s).counts ≡ count_status item.status s.counts
unfolding sum_item
sum_item-counts item s = go (status_eq item.status active)
  where
    go :
        (b : Bool)
        → (if b
            then sum_active item (record s { counts = count_status item.status s.counts })
            else record s { counts = count_status item.status s.counts }).counts
          ≡ count_status item.status s.counts
    go true = (sum_active-counts item (record s { counts = count_status item.status s.counts })).0
    go false = refl

sum_items-counts :
    (items : List UploadQueueItem) (s : Sums)
    → (sum_items items s).counts ≡ count_uploads_by_status items s.counts
unfolding sum_items count_uploads_by_status
sum_items-counts [] s = refl
sum_items-counts (item ∷ items) s =
    sum_items-counts items (sum_item item s)
    ∙ ap (count_uploads_by_status items) (sum_item-counts item s)

count_uploads_by_status-occurrences :
    (items : List UploadQueueItem) (c : StatusCounts) (s : UploadItemStatus)
    → count_uploads_by_status items c s ≡ c s + occurrences s items
unfolding count_uploads_by_status count_status
count_uploads_by_status-occurrences [] c s = omega arith
count_uploads_by_status-occurrences (item ∷ items) c s =
    ground (arith, count_uploads_by_status-occurrences items (count_status item.status c) s)

sum_counts-count_uploads_by_status :
    (items : List UploadQueueItem) (c : StatusCounts)
    → sum_counts (count_uploads_by_status items c) ≡ sum_counts c + length items
unfolding count_uploads_by_status
sum_counts-count_uploads_by_status [] c = omega arith
sum_counts-count_uploads_by_status (item ∷ items) c = omega (
  arith,
  sum_counts-count_uploads_by_status items (count_status item.status c),
  sum_counts-count_status item.status c,
)

sum_items-bytes :
    (items : List UploadQueueItem) (s : Sums)
    → s.bytes_uploaded ≤ s.bytes_total
    → (sum_items items s).bytes_uploaded ≤ (sum_items items s).bytes_total
unfolding sum_items
sum_items-bytes [] s h = h
sum_items-bytes (item ∷ items) s h =
    sum_items-bytes items (sum_item item s) (sum_item-bytes item s h)

percent_of-bound : (uploaded total : ℕ) → get_or (percent_of uploaded total) 0 ≤ 100
unfolding percent_of
percent_of-bound uploaded zero = omega arith
percent_of-bound uploaded (suc t) = omega arith

-- The counts that an empty start leads to.
counts-occurrences :
    (items : List UploadQueueItem) (s : Sums) (x : UploadItemStatus)
    → s.counts ≡ empty_status_counts
    → (sum_items items s).counts x ≡ occurrences x items
unfolding empty_status_counts
counts-occurrences items s x e =
    ap (λ (c : StatusCounts). c x) (sum_items-counts items s ∙ ap (count_uploads_by_status items) e)
    ∙ count_uploads_by_status-occurrences items empty_status_counts x
    ∙ omega arith

sum_counts-length :
    (items : List UploadQueueItem) (s : Sums)
    → s.counts ≡ empty_status_counts
    → sum_counts (sum_items items s).counts ≡ length items
unfolding empty_status_counts
sum_counts-length items s e =
    ap sum_counts (sum_items-counts items s ∙ ap (count_uploads_by_status items) e)
    ∙ sum_counts-count_uploads_by_status items empty_status_counts
    ∙ omega arith

pending_work :
    (f p u a d n : ℕ) → f + p + u + a + d ≡ n → (ltb 0 f || ltb 0 p || ltb 0 u || ltb 0 a) ≡ ltb d n
pending_work f p u a d n e = ground (arith, e)

-- The tray's counts add up to the number of items; those in flight and finished are the items with such a
-- status; there is pending work exactly where not all items are finished; no more is uploaded than
-- there is, and the percentage is at most 100.
pub aggregate_upload_stats-counts :
    (items : List UploadQueueItem)
    → let stats = aggregate_upload_stats items in
      (stats.in_flight + stats.pending_count + stats.user_paused + stats.awaiting + stats.finished
        ≡ length items)
      × (stats.in_flight
          ≡ occurrences active items + occurrences hashing items + occurrences verifying items)
      × (stats.finished
          ≡ occurrences done items + occurrences failed items + occurrences cancelled items)
      × (stats.has_pending_work ≡ ltb stats.finished (length items))
      × (stats.active_bytes_uploaded ≤ stats.active_bytes_total)
      × (get_or stats.percent 0 ≤ 100)
unfolding aggregate_upload_stats stats_of
aggregate_upload_stats-counts items =
    let counted : (x : UploadItemStatus) → c x ≡ occurrences x items =
      λ x. counts-occurrences items start x refl in
    let whole = sum_counts-length items start refl in
    (
      omega (arith, whole),
      omega (arith, counted active, counted hashing, counted verifying),
      omega (arith, counted done, counted failed, counted cancelled),
      pending_work (c active + c hashing + c verifying) (c pending) (c paused) (c awaiting_conflict)
          (c done + c failed + c cancelled) (length items) (omega (arith, whole)),
      sum_items-bytes items start (omega arith),
      percent_of-bound (sum_items items start).bytes_uploaded (sum_items items start).bytes_total,
    )
  where
    start : Sums
    start = record {
      counts = empty_status_counts;
      bytes_total = 0;
      bytes_uploaded = 0;
      speed_sum = record { num = 0; den = 1 };
      has_speed_sample = false;
    }

    c : StatusCounts
    c = (sum_items items start).counts

abbrev pub sum_of_segments : List (SegmentKey × ℕ) → ℕ
sum_of_segments [] = 0
sum_of_segments ((key, n) ∷ segments) = n + sum_of_segments segments

sum_of_segments-segment_if :
    (key : SegmentKey) (n : ℕ) (rest : List (SegmentKey × ℕ))
    → sum_of_segments (segment_if key n ++ rest) ≡ n + sum_of_segments rest
unfolding segment_if
sum_of_segments-segment_if key zero rest = omega arith
sum_of_segments-segment_if key (suc n) rest = refl

abbrev pub NoneEmpty : List (SegmentKey × ℕ) → Type 0
NoneEmpty segments = All (λ (s : SegmentKey × ℕ). 0 < s.1) segments

NoneEmpty-segment_if :
    (key : SegmentKey) (n : ℕ) (rest : List (SegmentKey × ℕ))
    → NoneEmpty rest
    → NoneEmpty (segment_if key n ++ rest)
unfolding segment_if
NoneEmpty-segment_if key zero rest h = h
NoneEmpty-segment_if key (suc n) rest h = (omega arith, h)

abbrev counted_in : StatusCounts → ℕ → List UploadItemStatus → ℕ
counted_in c n [] = 0
counted_in c n (s ∷ order) = (if status_eq s done then n else 0) + (c s + counted_in c n order)

segments_of-counted_in :
    (c : StatusCounts) (n : ℕ) (order : List UploadItemStatus)
    → (sum_of_segments (segments_of c n order) ≡ counted_in c n order)
      × NoneEmpty (segments_of c n order)
unfolding segments_of
segments_of-counted_in c n [] = (refl, tt)
segments_of-counted_in c n (s ∷ order) =
    let (sum, full) = segments_of-counted_in c n order in
    let rest = segment_if (of_status s) (c s) ++ segments_of c n order in
    let later = sum_of_segments-segment_if (of_status s) (c s) (segments_of c n order) in
    let full' = NoneEmpty-segment_if (of_status s) (c s) (segments_of c n order) full in
    elim (Bool-cases (status_eq s done)) [
      | inl e ↦ rw e (
        omega (arith, sum, later, sum_of_segments-segment_if unfinished n rest),
        NoneEmpty-segment_if unfinished n rest full',
      )
      | inr e ↦ rw e (omega (arith, sum, later), full')
    ]

-- The segments of the header add up to the items and the unfinished sessions, and none of them is
-- for nothing.
pub upload_header_segments-sum :
    (items : List UploadQueueItem) (session_count : ℕ)
    → (sum_of_segments (upload_header_segments items session_count) ≡ length items + session_count)
      × NoneEmpty (upload_header_segments items session_count)
unfolding upload_header_segments empty_status_counts
upload_header_segments-sum items n =
    let c = count_uploads_by_status items empty_status_counts in
    let (sum, full) = segments_of-counted_in c n header_status_order in
    (omega (arith, sum, sum_counts-count_uploads_by_status items empty_status_counts), full)
