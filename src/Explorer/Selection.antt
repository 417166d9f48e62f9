-- ===== src/Explorer/Selection.antt =====
-- The selection of a listing: web/src/explorer/listingSelectionStore.ts, the range of
-- web/src/explorer/listingSelection.ts, and what a refresh of the listing leaves of it
-- (web/src/listingRefresh.ts).
pub mod Changes
use zfiles.Common.{
  ℕ, zero, suc, ◌+◌, ◌-◌, min, max, Bool, true, false, not, ◌&&◌, List, [], ◌∷◌, ◌++◌, Option, none,
  some, Text, is_empty, text_eq, if◌then◌else◌, has_name, get_elem?, filter, length,
}

-- The snapshot, and what was told: to the listeners of a path, and to those of the selection. Each
-- change is told in order.
pub data Notice : Type 0 where
  path_changed : Text → Notice
  selection_changed : Notice

pub record SelectionStore : Type 0 where
  pub selected_paths : List Text
  pub notices : List Notice

-- The paths of one set that are not in the other one, each told to its listeners.
unfoldable pub notify_absent : List Text → List Text → List Notice
unfolding has_name
notify_absent [] other = []
notify_absent (path ∷ paths) other =
    let rest = notify_absent paths other in
    if has_name other path then rest else path_changed path ∷ rest

-- `same` says whether the set is the very object of the snapshot.
unfoldable pub set_listing_selection_paths : Bool → List Text → SelectionStore → SelectionStore
unfolding notify_absent
set_listing_selection_paths same next s =
    let changed : SelectionStore = record {
      selected_paths = next;
      notices =
          s.notices
          ++ (notify_absent s.selected_paths next
              ++ (notify_absent next s.selected_paths ++ (selection_changed ∷ [])));
    } in
    if same then s else changed

-- `set.add(path)`.
unfoldable pub add_path : List Text → Text → List Text
unfolding has_name
add_path paths path = if has_name paths path then paths else paths ++ (path ∷ [])

-- The rounds of the loop from an index on.
unfoldable pub range_from : List Text → ℕ → ℕ → List Text → List Text
unfolding add_path
range_from entries zero i next = next
range_from entries (suc n) i next = range_from entries n (suc i) (elim (get_elem? entries i) [
  | none ↦ next
  | some path ↦ if is_empty path then next else add_path next path
])

-- The entries are given by their paths.
unfoldable pub paths_in_index_range : List Text → ℕ → ℕ → List Text
unfolding range_from
paths_in_index_range entries anchor_index target_index =
    let start = min anchor_index target_index in
    let end = max anchor_index target_index in range_from entries (suc end - start) start []

unfoldable pub index_from : List Text → Text → ℕ → Option ℕ
index_from [] path i = none
index_from (e ∷ es) path i =
    let rest = index_from es path (suc i) in if text_eq e path then some i else rest

unfoldable pub selected_row_index_for_path : List Text → Text → Option ℕ
unfolding index_from
selected_row_index_for_path entries path = index_from entries path 0

pub record Restored : Type 0 where
  pub paths : List Text
  pub focus_path : Text
  pub index : ℕ

-- `focusPath && paths.has(focusPath) ? focusPath : first`.
unfoldable pub next_focus : List Text → Option Text → Text → Text
unfolding has_name
next_focus paths none first = first
next_focus paths (some focus) first =
    if not (is_empty focus) && has_name paths focus then focus else first

unfoldable pub restore_from : List Text → List Text → Option Text → Option Restored
unfolding next_focus selected_row_index_for_path
restore_from entries [] focus_path = none
restore_from entries (first ∷ paths) focus_path =
    let focus = next_focus (first ∷ paths) focus_path first in
    elim (selected_row_index_for_path entries focus) [
      | none ↦ none
      | some index ↦ some (record { paths = first ∷ paths; focus_path = focus; index = index })
    ]

unfoldable pub restore_selection_from_listing :
    List Text → List Text → Option Text → Option Restored
unfolding restore_from has_name
restore_selection_from_listing entries previous_paths focus_path =
    restore_from entries (filter (has_name entries) previous_paths) focus_path
