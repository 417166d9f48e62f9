-- ===== src/Explorer/GridMoves/Bounds.antt =====
-- The bounds of the moves of web/src/explorer/listingGridNavigation.ts.
use zfiles.Common.{
  ℕ, zero, suc, ◌+◌, ◌-◌, ◌*◌, ◌/◌, ◌%◌, ◌<◌, ◌≤◌, ◌≡◌, refl, Bool, true, false, ◌&&◌, ◌||◌, Option,
  if◌then◌else◌, ltb, leb, ◌==◌, arith, ℤ, pos, ◌+ℤ◌, ◌-ℤ◌, ◌*ℤ◌, ltb_ℤ, pos_add, pos_sub, pos_mul,
  ap, ◌∙◌, Bool-cases, inl, inr,
}
use native.Mathlib.Nat.{le-div_iff_mul-le, div-eq_of_lt, zero-mod}
use zfiles.Explorer.GridMoves.{
  GridMoveDirection, left, right, up, down, clamp_index, last_in_row, last_folder_row_start,
  move_right, move_down_from, move_up_from, move_sectioned, move_sectioned_grid_index, move_plain,
  is_sectioned, folders, move_grid_index,
}

-- A number that is the index of an item.
unfoldable pub IsItem : ℕ → ℤ → Type 0
IsItem length z = (k : ℕ) × (z ≡ pos k) × (k < length)

item : (length k : ℕ) → k < length → IsItem length (pos k)
unfolding IsItem
item length k h = (k, refl, h)

IsItem-if :
    (length : ℕ) (b : Bool) (x y : ℤ)
    → (b ≡ true → IsItem length x)
    → (b ≡ false → IsItem length y)
    → IsItem length (if b then x else y)
IsItem-if length true x y h k = h refl
IsItem-if length false x y h k = k refl

-- A difference is an item where it does not fall below 0.
IsItem-minus : (length i n : ℕ) → i < length → n ≤ i → IsItem length (pos i -ℤ pos n)
unfolding IsItem
IsItem-minus length i n h k = (i - n, pos_sub i n k, omega arith)

clamp_index_bound : (index : ℤ) (length : ℕ) → 0 < length → clamp_index index length < length
unfolding clamp_index
clamp_index_bound index length h = omega arith

last_in_row_bound :
    (row folder_count fallback col length : ℕ)
    → fallback < length
    → folder_count ≤ length
    → IsItem length (last_in_row (pos row) folder_count fallback col)
unfolding last_in_row
last_in_row_bound row folder_count fallback zero length h k =
    IsItem-if length (ltb_ℤ (pos row) (pos folder_count)) (pos row) (pos fallback)
      (λ e. item length row (ground arith)) (λ e. item length fallback h)
last_in_row_bound row folder_count fallback (suc col) length h k =
    IsItem-if length (ltb_ℤ (pos row +ℤ pos (suc col)) (pos folder_count))
      (pos row +ℤ pos (suc col)) (last_in_row (pos row) folder_count fallback col)
      (rw (pos_add row (suc col)) (λ e. item length (row + suc col) (ground arith)))
      (λ e. last_in_row_bound row folder_count fallback col length h k)

not_first : (n columns : ℕ) → ((n % columns) == 0) ≡ false → 1 ≤ n
not_first zero columns e = ground (arith, e, zero-mod columns)
not_first (suc n) columns e = omega arith

not_top : (i columns : ℕ) → 0 < columns → ((i / columns) == 0) ≡ false → columns ≤ i
not_top i columns c e = elim (Bool-cases (ltb i columns)) [
  | inl below ↦ ground (arith, e, div-eq_of_lt {n = i} {m = columns} (ground arith))
  | inr above ↦ ground arith
]

-- With a folder there is a row of folders.
last_folder_row_start_pos :
    (folder_count column_count : ℕ)
    → 0 < folder_count
    → 0 < column_count
    → (row : ℕ) × (last_folder_row_start folder_count column_count ≡ pos row)
unfolding last_folder_row_start
last_folder_row_start_pos folder_count column_count h k =
    let rows = (folder_count + (column_count - 1)) / column_count in
    let some_row : 1 ≤ rows = (le-div_iff_mul-le k).1 (omega arith) in
    (
      (rows - 1) * column_count,
      ap (λ z. z *ℤ pos column_count) (pos_sub rows 1 some_row) ∙ pos_mul (rows - 1) column_count,
    )

module _ (i columns length : ℕ) (h : i < length) where
  move_right_bound :
      (column section_end : ℕ)
      → section_end ≤ length
      → IsItem length (move_right i column columns section_end)
  unfolding move_right
  move_right_bound column section_end k =
      IsItem-if length (leb columns (column + 1) || leb section_end (i + 1)) (pos i) (pos (i + 1))
        (λ e. item length i h) (λ e. item length (i + 1) (ground arith))

  move_down_from_bound :
      (b : Bool) (column folder_count : ℕ)
      → folder_count ≤ length
      → IsItem length (move_down_from b i column columns length folder_count)
  unfolding move_down_from
  move_down_from_bound b column folder_count k =
      IsItem-if length (ltb (i + columns) (if b then folder_count else length)) (pos (i + columns))
        (if b && ltb (folder_count + column) length then pos (folder_count + column) else pos i)
        (λ e. item length (i + columns) (ground arith))
        (λ e.
          IsItem-if length (b && ltb (folder_count + column) length) (pos (folder_count + column))
            (pos i) (λ f. item length (folder_count + column) (ground arith))
            (λ f. item length i h))

  move_up_from_bound :
      (b : Bool) (column folder_count : ℕ)
      → 0 < folder_count
      → 0 < columns
      → folder_count ≤ length
      → IsItem length (move_up_from b i column columns folder_count)
  unfolding move_up_from
  move_up_from_bound b column folder_count some_folder some_column k =
      let (row, start) = last_folder_row_start_pos folder_count columns some_folder some_column in
      let in_row : IsItem length
          (last_in_row (last_folder_row_start folder_count columns) folder_count i column) =
        rw start (last_in_row_bound row folder_count i column length h k) in
      IsItem-if length (ltb_ℤ (pos i -ℤ pos columns) (pos (if b then 0 else folder_count)))
        (if b
          then pos i
          else last_in_row (last_folder_row_start folder_count columns) folder_count i column)
        (pos i -ℤ pos columns)
        (λ e. IsItem-if length b (pos i) _ (λ f. item length i h) (λ f. in_row))
        (λ e. IsItem-minus length i columns h (not_below (if b then 0 else folder_count) e))
    where
      not_below : (n : ℕ) → ltb_ℤ (pos i -ℤ pos columns) (pos n) ≡ false → columns ≤ i
      not_below n e = unfold ◌-ℤ◌ in ground arith

  section_bound :
      (b : Bool) (folder_count : ℕ)
      → folder_count ≤ length
      → (if b then folder_count else length) ≤ length
  section_bound true folder_count k = k
  section_bound false folder_count k = omega arith

  -- A step to the left out of a column that is not the first one.
  left_bound :
      (n : ℕ) → n ≤ i → IsItem length (if (n % columns) == 0 then pos i else pos i -ℤ pos 1)
  left_bound n k =
      IsItem-if length ((n % columns) == 0) (pos i) (pos i -ℤ pos 1) (λ e. item length i h)
        (λ e. IsItem-minus length i 1 h (ground (arith, k, not_first n columns e)))

  move_sectioned_bound :
      (direction : GridMoveDirection) (folder_count : ℕ)
      → 0 < folder_count
      → 0 < columns
      → folder_count ≤ length
      → IsItem length (move_sectioned i direction columns length folder_count)
  unfolding move_sectioned
  move_sectioned_bound left folder_count f c k =
      left_bound (i - (if ltb i folder_count then 0 else folder_count)) (omega arith)
  move_sectioned_bound right folder_count f c k =
      move_right_bound _ _ (section_bound (ltb i folder_count) folder_count k)
  move_sectioned_bound up folder_count f c k =
      move_up_from_bound (ltb i folder_count) _ folder_count f c k
  move_sectioned_bound down folder_count f c k =
      move_down_from_bound (ltb i folder_count) _ folder_count k

  move_plain_bound :
      (direction : GridMoveDirection)
      → 0 < columns
      → IsItem length (move_plain i direction columns length)
  unfolding move_plain
  move_plain_bound left c = left_bound i (omega arith)
  move_plain_bound right c = move_right_bound (i % columns) length (omega arith)
  move_plain_bound up c =
      IsItem-if length ((i / columns) == 0) (pos i) (pos i -ℤ pos columns) (λ e. item length i h)
        (λ e. IsItem-minus length i columns h (not_top i columns c e))
  move_plain_bound down c =
      IsItem-if length (leb length (i + columns)) (pos i) (pos (i + columns)) (λ e. item length i h)
        (λ e. item length (i + columns) (ground arith))

-- In a listing that is not empty every move in the grid ends at an item of it, at an index that is
-- neither negative nor beyond the last one, wherever it starts and however many columns and folders
-- there are.
pub move_grid_index_bound :
    (index : ℤ) (direction : GridMoveDirection) (columns length : ℕ) (folder_count : Option ℕ)
    → 0 < length
    → (k : ℕ) × (move_grid_index index direction columns length folder_count ≡ pos k) × (k < length)
unfolding move_grid_index move_sectioned_grid_index IsItem
move_grid_index_bound index direction columns length folder_count h =
    go ((length == 0) || (columns == 0)) (is_sectioned folder_count length) refl refl
  where
    start : clamp_index index length < length
    start = clamp_index_bound index length h

    counted : (o : Option ℕ) → is_sectioned o length ≡ true → (0 < folders o) × (folders o ≤ length)
    counted o e = unfold is_sectioned folders in ground arith

    go :
        (b c : Bool)
        → ((length == 0) || (columns == 0)) ≡ b
        → is_sectioned folder_count length ≡ c
        → IsItem length (
            if b
            then pos 0
            else if c
            then (if b
                then pos 0
                else move_sectioned
                    (clamp_index index length)
                    direction
                    columns
                    length
                    (folders folder_count))
            else move_plain (clamp_index index length) direction columns length)
    go true c d e = item length 0 h
    go false true d e =
        let (some_folder, few) = counted folder_count e in
        move_sectioned_bound (clamp_index index length) columns length start direction
          (folders folder_count) some_folder (ground (arith, d)) few
    go false false d e =
        move_plain_bound (clamp_index index length) columns length start direction
          (ground (arith, d))
