-- ===== src/Explorer/History.antt =====
-- The back and forward stacks of the explorer's paths (web/src/explorer/navigationHistory.ts).
pub mod Timeline
use zfiles.Common.{
  ℕ, ◌≡◌, refl, ap, ◌∙◌, sym, Bool, true, false, List, [], ◌∷◌, ◌++◌, Option, none, some, Text,
  text_eq, if◌then◌else◌, arith, append_assoc,
}
use zfiles.BrowserFs.Paths.{init, last_or_empty}

pub record NavigationStacks : Type 0 where
  pub back : List Text
  pub forward : List Text

-- The stacks, and the path that the explorer shows: what the two moves return.
pub record Moved : Type 0 where
  pub stacks : NavigationStacks
  pub path : Text

abbrev pub create_navigation_stacks : NavigationStacks
create_navigation_stacks = record { back = []; forward = [] }

unfoldable pub push_navigation_path : NavigationStacks → Text → Text → Option NavigationStacks
push_navigation_path stacks current_path next_path =
    if text_eq next_path current_path
    then none
    else some (record { back = stacks.back ++ (current_path ∷ []); forward = [] })

unfoldable pub navigate_back : NavigationStacks → Text → Option Moved
unfolding init last_or_empty
navigate_back stacks current_path = elim stacks.back [
  | [] ↦ none
  | p ∷ ps ↦ some (record {
    path = last_or_empty (p ∷ ps);
    stacks = record { back = init (p ∷ ps); forward = current_path ∷ stacks.forward };
  })
]

unfoldable pub navigate_forward : NavigationStacks → Text → Option Moved
navigate_forward stacks current_path = elim stacks.forward [
  | [] ↦ none
  | p ∷ ps ↦ some (record {
    path = p;
    stacks = record { back = stacks.back ++ (current_path ∷ []); forward = ps };
  })
]
