-- ===== src/Common/Maps.antt =====
-- A JavaScript `Map` from texts, as an association list.
use mathlib.Core.Path.{◌≡◌}
use mathlib.Core.Option.{Option, none, some}
use mathlib.Core.List.{List, [], ◌∷◌}
use native.Mathlib.Omega.{arith}
use zfiles.Common.Tests.{if◌then◌else◌}
use zfiles.Common.Texts.{Text, text_eq, text_eq_iff}

abbrev pub Entries : Type 0 → Type 0
Entries V = List (Text × V)

unfoldable pub lookup : {V : Type 0} → Entries V → Text → Option V
lookup [] k = none
lookup ((j, v) ∷ rest) k = let found = lookup rest k in if text_eq j k then some v else found

unfoldable pub erase : {V : Type 0} → Entries V → Text → Entries V
erase [] k = []
erase ((j, v) ∷ rest) k =
    let others = erase rest k in if text_eq j k then others else (j, v) ∷ others

unfoldable pub assign : {V : Type 0} → Entries V → Text → V → Entries V
unfolding erase
assign entries k v = (k, v) ∷ erase entries k

module _ {V : Type 0} where
  pub lookup-erase :
      (m : Entries V) (j k : Text)
      → lookup (erase m j) k ≡ (if text_eq j k then none else lookup m k)
  unfolding lookup erase
  lookup-erase [] j k = ground arith
  lookup-erase ((i, v) ∷ rest) j k =
      ground (arith, lookup-erase rest j k, text_eq_iff i j, text_eq_iff j k, text_eq_iff i k)

  pub lookup-assign :
      (m : Entries V) (j k : Text) (v : V)
      → lookup (assign m j v) k ≡ (if text_eq j k then some v else lookup m k)
  unfolding lookup assign
  lookup-assign m j k v = ground (arith, lookup-erase m j k)
