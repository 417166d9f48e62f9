-- ===== src/Explorer/PanelStack/Order.antt =====
-- The order of the panels of web/src/floatingPanelStack.ts.
use zfiles.Common.{
  ℕ, ◌<◌, ◌≡◌, refl, ap, ◌∙◌, sym, ◌≢◌, true, false, List, [], ◌∷◌, ◌++◌, Option, none, some, Text,
  text_eq, text_eq_iff, text_eq_refl, filter, not, ap₂, append-nil, arith, Distinct, In,
  filter-append, inl, inr, Bool-cases, Option-cases, In-append, suc, In-filter, In-of_filter,
  length, subst,
}
use zfiles.BrowserFs.Paths.Laws.{last-snoc}
use zfiles.Explorer.PanelStack.{
  Panels, index_of, splice_one, without, bring_floating_panel_to_front, get_floating_panel_z_index,
  is_topmost_floating_panel, is_empty_stack, notify,
}

-- The panels other than one, in their order.
unfoldable pub others : Text → List Text → List Text
others id = filter (λ p. not (text_eq p id))

others_self : (xs : List Text) (id : Text) → ¬ In id xs → others id xs ≡ xs
unfolding others
others_self [] id h = refl
others_self (x ∷ xs) id h = elim (Bool-cases (text_eq x id)) [
  | inl e ↦ absurd (h (inl ((text_eq_iff x id).0 e)))
  | inr e ↦ rw e (ap (◌∷◌ x) (others_self xs id λ i. h (inr i)))
]

-- Taking out the first occurrence takes out all where there is one at most.
without-Distinct : (xs : List Text) (id : Text) → Distinct xs → without xs id ≡ others id xs
unfolding without others index_of splice_one
without-Distinct [] id d = refl
without-Distinct (x ∷ xs) id d = elim (Bool-cases (text_eq x id)) [
  | inl e ↦
      rw (without, index_of, e)
        (sym (others_self xs id (subst (λ y. ¬ In y xs) ((text_eq_iff x id).0 e) d.0)))
  | inr e ↦ elim (Option-cases (index_of xs id)) [
    | inl h ↦
        rw (without, index_of, e, h)
          (ap (◌∷◌ x) (
            ap (λ (o : Option ℕ). elim o [ none ↦ xs | some i ↦ splice_one xs i ]) (sym h)
            ∙ without-Distinct xs id d.1))
    | inr (i, h) ↦
        rw (without, index_of, e, h)
          (ap (◌∷◌ x) (
            ap (λ (o : Option ℕ). elim o [ none ↦ xs | some i ↦ splice_one xs i ]) (sym h)
            ∙ without-Distinct xs id d.1))
  ]
]

In-others : (xs : List Text) (id p : Text) → In p (others id xs) → In p xs × (text_eq p id ≡ false)
unfolding others
In-others xs id p i =
    let (j, e) = In-of_filter (λ p. not (text_eq p id)) xs i in (j, ground (arith, e))

others-Distinct : (xs : List Text) (id : Text) → Distinct xs → Distinct (others id xs)
unfolding others
others-Distinct [] id d = tt
others-Distinct (x ∷ xs) id d = elim (Bool-cases (text_eq x id)) [
  | inl e ↦ rw e (others-Distinct xs id d.1)
  | inr e ↦ rw e (λ i. d.0 (In-others xs id x i).0, others-Distinct xs id d.1)
]

snoc-Distinct : (xs : List Text) (x : Text) → ¬ In x xs → Distinct xs → Distinct (xs ++ (x ∷ []))
snoc-Distinct [] x h d = (λ i. i, tt)
snoc-Distinct (y ∷ ys) x h d = (
  λ i. elim (In-append ys (x ∷ []) y i) [
    | inl j ↦ d.0 j
    | inr (inl e) ↦ h (inl (sym e))
    | inr (inr j) ↦ j
  ],
  snoc-Distinct ys x (λ i. h (inr i)) d.1,
)

index_of-snoc :
    (xs : List Text) (x : Text) → ¬ In x xs → index_of (xs ++ (x ∷ [])) x ≡ some (length xs)
unfolding index_of
index_of-snoc [] x h = rw (text_eq_refl x) refl
index_of-snoc (y ∷ ys) x h = elim (Bool-cases (text_eq y x)) [
  | inl e ↦ absurd (h (inl ((text_eq_iff y x).0 e)))
  | inr e ↦ rw (e, index_of-snoc ys x (λ i. h (inr i))) refl
]

index_of-before :
    (xs : List Text) (x p : Text)
    → In p xs
    → (i : ℕ) × (index_of (xs ++ (x ∷ [])) p ≡ some i) × (i < length xs)
unfolding index_of
index_of-before [] x p i = absurd i
index_of-before (y ∷ ys) x p (inl e) = (0, rw (e, text_eq_refl p) refl, omega arith)
index_of-before (y ∷ ys) x p (inr i) =
    let (k, e, l) = index_of-before ys x p i in
    elim (Bool-cases (text_eq y p)) [
      | inl s ↦ (0, rw s refl, omega arith)
      | inr s ↦ (suc k, rw (s, e) refl, omega arith)
    ]

not-In-others : (xs : List Text) (id : Text) → ¬ In id (others id xs)
not-In-others xs id i = cc ((In-others xs id id i).1, text_eq_refl id)

others-snoc : (xs : List Text) (id : Text) → others id (others id xs ++ (id ∷ [])) ≡ others id xs
unfolding others
others-snoc xs id =
    filter-append (λ p. not (text_eq p id)) (others id xs) (id ∷ [])
    ∙ ap₂ ◌++◌ (others_self (others id xs) id (not-In-others xs id)) (rw (text_eq_refl id) refl)
    ∙ append-nil (others id xs)

topmost : (xs : List Text) (id : Text) → is_topmost_floating_panel (xs ++ (id ∷ [])) id ≡ true
unfolding is_topmost_floating_panel is_empty_stack
topmost [] id = rw (last-snoc [] id) (text_eq_refl id)
topmost (x ∷ xs) id = rw (last-snoc (x ∷ xs) id) (text_eq_refl id)

-- Raising a panel puts it on top, keeps the others in their order and no panel stands twice.
pub bring_floating_panel_to_front-order :
    (id : Text) (s : Panels)
    → Distinct s.stack
    → Distinct (bring_floating_panel_to_front id s).stack
      × (is_topmost_floating_panel (bring_floating_panel_to_front id s).stack id ≡ true)
      × (others id (bring_floating_panel_to_front id s).stack ≡ others id s.stack)
unfolding bring_floating_panel_to_front notify
bring_floating_panel_to_front-order id s d = rw (without-Distinct s.stack id d) (
  snoc-Distinct (others id s.stack) id (not-In-others s.stack id) (others-Distinct s.stack id d),
  topmost (others id s.stack) id,
  others-snoc s.stack id,
)

-- The raised panel is drawn above every other registered one.
pub z_index-bring_floating_panel_to_front :
    (id p : Text) (s : Panels)
    → Distinct s.stack
    → In p s.stack
    → p ≢ id
    → get_floating_panel_z_index (bring_floating_panel_to_front id s).stack p
      < get_floating_panel_z_index (bring_floating_panel_to_front id s).stack id
unfolding bring_floating_panel_to_front notify get_floating_panel_z_index others
z_index-bring_floating_panel_to_front id p s d i ne =
    let kept : In p (others id s.stack) =
      In-filter (λ q. not (text_eq q id)) s.stack i (ground (arith, ne, text_eq_iff p id)) in
    let (k, e, l) = index_of-before (others id s.stack) id p kept in
    rw
      (
        without-Distinct s.stack id d,
        get_floating_panel_z_index,
        e,
        index_of-snoc (others id s.stack) id (not-In-others s.stack id),
      )
      (omega arith)
