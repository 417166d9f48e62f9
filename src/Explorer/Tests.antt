-- ===== src/Explorer/Tests.antt =====
-- The theorems on the explorer's state at concrete stacks.
use zfiles.Common.{
  ℕ, pos, negsuc, none, ◌+ℤ◌, ◌-ℤ◌, ◌*ℤ◌, ◌≡◌, ◌⊎◌, ◌↔◌, refl, true, false, List, [], ◌∷◌, ◌++◌,
  some, Text, codes, Distinct, ◌<◌, arith, inl, inr, In, filter, has_name, get_elem?,
}
use zfiles.BrowserFs.Paths.{init, last_or_empty}
use zfiles.Explorer.GridMoves.{
  up, move_grid_index, move_sectioned_grid_index, move_sectioned, move_up_from, last_in_row,
  clamp_index, is_sectioned, folders, move_plain,
}
use zfiles.Explorer.GridMoves.Bounds.{move_grid_index_bound}
use zfiles.Explorer.History.{Moved, navigate_back, navigate_forward}
use zfiles.Explorer.History.Timeline.{
  go_back, go_forward, timeline, moves, timeline-moves, navigate_back-navigate_forward,
}
use zfiles.Explorer.PanelStack.{
  Panels, bring_floating_panel_to_front, register_floating_panel, unregister_floating_panel,
  get_floating_panel_z_index, is_topmost_floating_panel, index_of, splice_one, without, notify,
}
use zfiles.Explorer.PanelStack.Order.{
  others, bring_floating_panel_to_front-order, z_index-bring_floating_panel_to_front,
}
use zfiles.Explorer.Selection.{
  Notice, path_changed, selection_changed, SelectionStore, set_listing_selection_paths, Restored,
  restore_selection_from_listing,
}
use zfiles.Explorer.Selection.Changes.{
  set_listing_selection_paths-notices, restore_selection_from_listing-kept,
}

abbrev here : Moved
here = record {
  stacks = record { back = codes "a" ∷ codes "b" ∷ []; forward = codes "d" ∷ [] };
  path = codes "c";
}

abbrev there : Moved
there = record {
  stacks = record { back = codes "a" ∷ []; forward = codes "c" ∷ codes "d" ∷ [] };
  path = codes "b";
}

timeline-moves_example :
    timeline (moves (go_back ∷ go_forward ∷ go_forward ∷ []) here) ≡ timeline here
timeline-moves_example = timeline-moves (go_back ∷ go_forward ∷ go_forward ∷ []) here

navigate_back-navigate_forward_example :
    ((navigate_back here.stacks (codes "c") ≡ some there)
      → (navigate_forward there.stacks there.path
          ≡ some (record { stacks = here.stacks; path = codes "c" })))
    × ((navigate_forward here.stacks (codes "c") ≡ some there)
        → (navigate_back there.stacks there.path
            ≡ some (record { stacks = here.stacks; path = codes "c" })))
navigate_back-navigate_forward_example =
    navigate_back-navigate_forward here.stacks (codes "c") there

back_moves : navigate_back here.stacks (codes "c") ≡ some there
unfolding navigate_back init last_or_empty
back_moves = refl

abbrev panel_p : Text
panel_p = 1 ∷ []

abbrev panel_q : Text
panel_q = 2 ∷ []

abbrev panel_r : Text
panel_r = 3 ∷ []

abbrev panels : Panels
panels = record { stack = panel_p ∷ panel_q ∷ panel_r ∷ []; notified = 3 }

panels-Distinct : Distinct panels.stack
panels-Distinct = ground arith

bring_floating_panel_to_front-order_example :
    Distinct (bring_floating_panel_to_front panel_p panels).stack
    × (is_topmost_floating_panel (bring_floating_panel_to_front panel_p panels).stack panel_p
        ≡ true)
    × (others panel_p (bring_floating_panel_to_front panel_p panels).stack
        ≡ others panel_p panels.stack)
bring_floating_panel_to_front-order_example =
    bring_floating_panel_to_front-order panel_p panels panels-Distinct

z_index-bring_floating_panel_to_front_example :
    get_floating_panel_z_index (bring_floating_panel_to_front panel_p panels).stack panel_r
    < get_floating_panel_z_index (bring_floating_panel_to_front panel_p panels).stack panel_p
z_index-bring_floating_panel_to_front_example =
    z_index-bring_floating_panel_to_front panel_p panel_r panels panels-Distinct
      (inr (inr (inl refl))) (λ e. cc e)

raised : (register_floating_panel panel_q panels).stack ≡ panel_p ∷ panel_r ∷ panel_q ∷ []
unfolding register_floating_panel bring_floating_panel_to_front without index_of splice_one notify
raised = refl

unregistered : (unregister_floating_panel panel_q panels).stack ≡ panel_p ∷ panel_r ∷ []
unfolding unregister_floating_panel index_of splice_one notify
unregistered = refl

-- Five folders and four files in three columns: from the first row of files up to the folders.
move_grid_index_bound_example :
    (k : ℕ) × (move_grid_index (pos 7) up 3 9 (some 5) ≡ pos k) × (k < 9)
move_grid_index_bound_example = move_grid_index_bound (pos 7) up 3 9 (some 5) (omega arith)

up_to_folders : move_grid_index (pos 7) up 3 9 (some 5) ≡ pos 4
unfolding move_grid_index move_sectioned_grid_index move_sectioned move_up_from last_in_row
    clamp_index is_sectioned folders ◌-ℤ◌ ◌+ℤ◌ ◌*ℤ◌
up_to_folders = refl

-- From before the first item, and in the first row, there is nothing above.
up_from_below_zero : move_grid_index (negsuc 2) up 3 9 none ≡ pos 0
unfolding move_grid_index move_plain clamp_index is_sectioned
up_from_below_zero = refl

abbrev selection : SelectionStore
selection = record { selected_paths = codes "a" ∷ codes "b" ∷ []; notices = [] }

abbrev reselected : List Text
reselected = codes "b" ∷ codes "c" ∷ []

set_listing_selection_paths-notices_example :
    (told : List Notice) × ((set_listing_selection_paths false reselected selection).notices
      ≡ [] ++ (told ++ (selection_changed ∷ [])))
    × ((set_listing_selection_paths false reselected selection).selected_paths ≡ reselected)
    × (In (path_changed (codes "c")) told ↔ (
        (In (codes "c") selection.selected_paths × (¬ In (codes "c") reselected))
        ⊎ (In (codes "c") reselected × (¬ In (codes "c") selection.selected_paths))))
set_listing_selection_paths-notices_example =
    set_listing_selection_paths-notices reselected selection (codes "c")

abbrev listed : List Text
listed = codes "b" ∷ codes "c" ∷ codes "d" ∷ []

restore_selection_from_listing-kept_example :
    (r : Restored) × (restore_selection_from_listing listed selection.selected_paths
        (some (codes "a"))
      ≡ some r)
    × (r.paths ≡ filter (has_name listed) selection.selected_paths)
    × In r.focus_path r.paths
    × (get_elem? listed r.index ≡ some r.focus_path)
restore_selection_from_listing-kept_example =
    restore_selection_from_listing-kept listed selection.selected_paths (some (codes "a"))
      (codes "b") (inr (inl refl)) (inl refl)
