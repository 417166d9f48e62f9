-- ===== src/Explorer/GridMoves.antt =====
-- The moves of the selection in the grid (web/src/explorer/listingGridNavigation.ts). An index is
-- signed, as it is given and as it is returned; counts and lengths are not negative. The index that
-- has been clamped is not negative either.
pub mod Bounds
use zfiles.Common.{
  ℕ, zero, suc, ◌+◌, ◌-◌, ◌*◌, ◌/◌, ◌%◌, min, ℤ, pos, pos_part, ◌+ℤ◌, ◌-ℤ◌, ◌*ℤ◌, ltb_ℤ, Bool, true,
  false, not, ◌&&◌, ◌||◌, Option, none, some, if◌then◌else◌, ltb, leb, ◌==◌,
}

pub data GridMoveDirection : Type 0 where
  left : GridMoveDirection
  right : GridMoveDirection
  up : GridMoveDirection
  down : GridMoveDirection

-- `Math.min(Math.max(index, 0), length - 1)`, for a length that is not 0.
unfoldable pub clamp_index : ℤ → ℕ → ℕ
clamp_index index length = min (pos_part index) (length - 1)

unfoldable pub move_linear_index : ℤ → ℤ → ℕ → ℕ
unfolding clamp_index
move_linear_index index delta length =
    if length == 0 then 0 else clamp_index (index +ℤ delta) length

-- The last folder at the column or before it, in the row that starts at an index.
unfoldable pub last_in_row : ℤ → ℕ → ℕ → ℕ → ℤ
last_in_row row_start folder_count fallback zero =
    if ltb_ℤ row_start (pos folder_count) then row_start else pos fallback
last_in_row row_start folder_count fallback (suc col) =
    let before = last_in_row row_start folder_count fallback col in
    let target = row_start +ℤ pos (suc col) in
    if ltb_ℤ target (pos folder_count) then target else before

unfoldable pub move_right : ℕ → ℕ → ℕ → ℕ → ℤ
move_right safe_index column column_count section_end =
    if leb column_count (column + 1) || leb section_end (safe_index + 1)
    then pos safe_index
    else pos (safe_index + 1)

unfoldable pub move_down_from : Bool → ℕ → ℕ → ℕ → ℕ → ℕ → ℤ
move_down_from in_folders safe_index column column_count length folder_count =
    if ltb (safe_index + column_count) (if in_folders then folder_count else length)
    then pos (safe_index + column_count)
    else if in_folders && ltb (folder_count + column) length
    then pos (folder_count + column)
    else pos safe_index

-- `(folderRows - 1) * columnCount`.
unfoldable pub last_folder_row_start : ℕ → ℕ → ℤ
last_folder_row_start folder_count column_count =
    (pos ((folder_count + (column_count - 1)) / column_count) -ℤ pos 1) *ℤ pos column_count

unfoldable pub move_up_from : Bool → ℕ → ℕ → ℕ → ℕ → ℤ
unfolding last_in_row last_folder_row_start
move_up_from in_folders safe_index column column_count folder_count =
    let next_in_section = pos safe_index -ℤ pos column_count in
    let folder_row =
      last_in_row (last_folder_row_start folder_count column_count) folder_count safe_index
        column in
    if ltb_ℤ next_in_section (pos (if in_folders then 0 else folder_count))
    then (if in_folders then pos safe_index else folder_row)
    else next_in_section

unfoldable pub move_sectioned : ℕ → GridMoveDirection → ℕ → ℕ → ℕ → ℤ
unfolding move_right move_down_from move_up_from
move_sectioned safe_index direction column_count length folder_count =
    let in_folders = ltb safe_index folder_count in
    let column = (safe_index - (if in_folders then 0 else folder_count)) % column_count in
    elim direction [
      | left ↦ if column == 0 then pos safe_index else pos safe_index -ℤ pos 1
      | right ↦
          move_right safe_index column column_count (if in_folders then folder_count else length)
      | up ↦ move_up_from in_folders safe_index column column_count folder_count
      | down ↦ move_down_from in_folders safe_index column column_count length folder_count
    ]

unfoldable pub move_sectioned_grid_index : ℤ → GridMoveDirection → ℕ → ℕ → ℕ → ℤ
unfolding clamp_index move_sectioned
move_sectioned_grid_index index direction column_count length folder_count =
    if (length == 0) || (column_count == 0)
    then pos 0
    else move_sectioned (clamp_index index length) direction column_count length folder_count

unfoldable pub move_plain : ℕ → GridMoveDirection → ℕ → ℕ → ℤ
unfolding move_right
move_plain safe_index direction column_count length = elim direction [
  | left ↦ if (safe_index % column_count) == 0 then pos safe_index else pos safe_index -ℤ pos 1
  | right ↦ move_right safe_index (safe_index % column_count) column_count length
  | up ↦
      if (safe_index / column_count) == 0
      then pos safe_index
      else pos safe_index -ℤ pos column_count
  | down ↦
      if leb length (safe_index + column_count)
      then pos safe_index
      else pos (safe_index + column_count)
]

-- The sections are used where there are folders, and something after them.
unfoldable pub is_sectioned : Option ℕ → ℕ → Bool
is_sectioned none length = false
is_sectioned (some folder_count) length = ltb 0 folder_count && ltb folder_count length

unfoldable pub folders : Option ℕ → ℕ
folders none = 0
folders (some folder_count) = folder_count

unfoldable pub move_grid_index : ℤ → GridMoveDirection → ℕ → ℕ → Option ℕ → ℤ
unfolding clamp_index move_sectioned_grid_index move_plain is_sectioned folders
move_grid_index index direction column_count length folder_count =
    if (length == 0) || (column_count == 0)
    then pos 0
    else if is_sectioned folder_count length
    then move_sectioned_grid_index index direction column_count length (folders folder_count)
    else move_plain (clamp_index index length) direction column_count length
