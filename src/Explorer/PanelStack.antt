-- ===== src/Explorer/PanelStack.antt =====
-- The stack of the floating panels, topmost last (web/src/floatingPanelStack.ts).
pub mod Order
use zfiles.Common.{
  ℕ, zero, suc, ◌<◌, ◌+◌, ◌≡◌, refl, Bool, true, false, ◌&&◌, List, [], ◌∷◌, ◌++◌, Option, none,
  some, Text, text_eq, filter, not, if◌then◌else◌, arith, map,
}
use zfiles.BrowserFs.Paths.{last_or_empty}

-- The module's state: the stack, and how often its listeners have been told of a change.
pub record Panels : Type 0 where
  pub stack : List Text
  pub notified : ℕ

abbrev pub base_z_index : ℕ
base_z_index = 50

-- `stack.indexOf(id)`.
unfoldable pub index_of : List Text → Text → Option ℕ
index_of [] id = none
index_of (p ∷ ps) id =
    let rest = index_of ps id in
    if text_eq p id then some 0 else elim rest [ none ↦ none | some i ↦ some (suc i) ]

-- `stack.splice(index, 1)`.
unfoldable pub splice_one : List Text → ℕ → List Text
splice_one [] i = []
splice_one (p ∷ ps) zero = ps
splice_one (p ∷ ps) (suc i) = p ∷ splice_one ps i

unfoldable pub notify : Panels → Panels
notify s = record s { notified = suc s.notified }

unfoldable pub unregister_floating_panel : Text → Panels → Panels
unfolding notify
unregister_floating_panel id s = elim (index_of s.stack id) [
  | none ↦ s
  | some index ↦ notify (record s { stack = splice_one s.stack index })
]

unfoldable pub without : List Text → Text → List Text
without stack id = elim (index_of stack id) [ none ↦ stack | some index ↦ splice_one stack index ]

unfoldable pub bring_floating_panel_to_front : Text → Panels → Panels
unfolding notify without
bring_floating_panel_to_front id s = notify (record s { stack = without s.stack id ++ (id ∷ []) })

unfoldable pub register_floating_panel : Text → Panels → Panels
unfolding bring_floating_panel_to_front
register_floating_panel id s = bring_floating_panel_to_front id s

unfoldable pub get_floating_panel_z_index : List Text → Text → ℕ
get_floating_panel_z_index stack id = elim (index_of stack id) [
  | none ↦ base_z_index
  | some index ↦ base_z_index + index
]

unfoldable pub is_empty_stack : List Text → Bool
is_empty_stack [] = true
is_empty_stack (p ∷ ps) = false

unfoldable pub is_topmost_floating_panel : List Text → Text → Bool
unfolding is_empty_stack
is_topmost_floating_panel stack id = not (is_empty_stack stack) && text_eq (last_or_empty stack) id
