-- ===== src/Explorer/History/Timeline.antt =====
-- The stacks and the path shown are one line of paths with a place on it.
use zfiles.Common.{
  ℕ, ◌≡◌, refl, ap, ◌∙◌, sym, ap₂, subst, List, [], ◌∷◌, ◌++◌, some, Text, append_assoc, length,
  get_or,
}
use zfiles.BrowserFs.Paths.{init, last_or_empty}
use zfiles.BrowserFs.Paths.Laws.{init-last, init-snoc, last-snoc}
use zfiles.Explorer.History.{NavigationStacks, Moved, navigate_back, navigate_forward}

pub data Move : Type 0 where
  go_back : Move
  go_forward : Move

-- All paths in the order in which they were visited.
unfoldable pub timeline : Moved → List Text
timeline m = m.stacks.back ++ (m.path ∷ m.stacks.forward)

-- How many paths come before the one shown.
unfoldable pub place : Moved → ℕ
place m = length m.stacks.back

-- A button that can do nothing changes nothing.
unfoldable pub move : Move → Moved → Moved
move go_back m = get_or (navigate_back m.stacks m.path) m
move go_forward m = get_or (navigate_forward m.stacks m.path) m

unfoldable pub moves : List Move → Moved → Moved
moves [] m = m
moves (x ∷ xs) m = moves xs (move x m)

-- The state with the given parts.
abbrev at : List Text → Text → List Text → Moved
at back path forward = record { stacks = record { back = back; forward = forward }; path = path }

snoc_left :
    (p : Text) (ps rest : List Text)
    → init (p ∷ ps) ++ (last_or_empty (p ∷ ps) ∷ rest) ≡ p ∷ (ps ++ rest)
snoc_left p ps rest =
    sym (append_assoc (init (p ∷ ps)) (last_or_empty (p ∷ ps) ∷ []) rest)
    ∙ ap (λ xs. xs ++ rest) (init-last p ps)

timeline-back :
    (b : List Text) (c : Text) (f : List Text)
    → timeline (move go_back (at b c f)) ≡ timeline (at b c f)
unfolding timeline move navigate_back
timeline-back [] c f = refl
timeline-back (p ∷ ps) c f = snoc_left p ps (c ∷ f)

timeline-forward :
    (b : List Text) (c : Text) (f : List Text)
    → timeline (move go_forward (at b c f)) ≡ timeline (at b c f)
unfolding timeline move navigate_forward
timeline-forward b c [] = refl
timeline-forward b c (p ∷ ps) = append_assoc b (c ∷ []) (p ∷ ps)

-- Going back and forward never loses, adds or reorders a visited path.
pub timeline-moves : (xs : List Move) (m : Moved) → timeline (moves xs m) ≡ timeline m
unfolding moves
timeline-moves [] m = refl
timeline-moves (go_back ∷ xs) m =
    timeline-moves xs (move go_back m) ∙ timeline-back m.stacks.back m.path m.stacks.forward
timeline-moves (go_forward ∷ xs) m =
    timeline-moves xs (move go_forward m) ∙ timeline-forward m.stacks.back m.path m.stacks.forward

back_then_forward :
    (b : List Text) (c : Text) (f : List Text) (m : Moved)
    → navigate_back (record { back = b; forward = f }) c ≡ some m
    → navigate_forward m.stacks m.path ≡ some (at b c f)
unfolding navigate_back navigate_forward
back_then_forward [] c f m e = cc
back_then_forward (p ∷ ps) c f m e =
    subst (λ (x : Moved). navigate_forward x.stacks x.path ≡ some (at (p ∷ ps) c f)) (found e)
      (ap (λ b. some (at b c f)) (init-last p ps))
  where
    found : {x : Moved} → some x ≡ some m → x ≡ m
    found h = cc

forward_then_back :
    (b : List Text) (c : Text) (f : List Text) (m : Moved)
    → navigate_forward (record { back = b; forward = f }) c ≡ some m
    → navigate_back m.stacks m.path ≡ some (at b c f)
unfolding navigate_forward navigate_back
forward_then_back b c [] m e = cc
forward_then_back b c (p ∷ ps) m e =
    subst (λ (x : Moved). navigate_back x.stacks x.path ≡ some (at b c (p ∷ ps))) (found e)
      (snoc_back b)
  where
    found : {x : Moved} → some x ≡ some m → x ≡ m
    found h = cc

    snoc_back :
        (b : List Text)
        → navigate_back (record { back = b ++ (c ∷ []); forward = ps }) p ≡ some (at b c (p ∷ ps))
    snoc_back [] = refl
    snoc_back (x ∷ xs) =
        ap₂ (λ l i. some (at i l (p ∷ ps))) (last-snoc (x ∷ xs) c) (init-snoc (x ∷ xs) c)

-- A step back is undone by a step forward and a step forward by a step back, exactly.
pub navigate_back-navigate_forward :
    (s : NavigationStacks) (p : Text) (m : Moved)
    → ((navigate_back s p ≡ some m)
        → (navigate_forward m.stacks m.path ≡ some (record { stacks = s; path = p })))
      × ((navigate_forward s p ≡ some m)
          → (navigate_back m.stacks m.path ≡ some (record { stacks = s; path = p })))
navigate_back-navigate_forward s p m =
    (back_then_forward s.back p s.forward m, forward_then_back s.back p s.forward m)
