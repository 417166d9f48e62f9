-- ===== src/Explorer/Selection/Changes.antt =====
-- What is told of a change of the selection, and what a refresh leaves of it.
use zfiles.Common.{
  ℕ, suc, ◌+◌, ◌≡◌, ◌≢◌, ◌⊎◌, ◌↔◌, inl, inr, refl, sym, ap, ◌∙◌, subst, false, not, ◌&&◌, List, [],
  ◌∷◌, ◌++◌, Option, none, some, append_assoc, Text, is_empty, text_eq, text_eq_iff, has_name,
  has_name_iff, get_elem?, filter, In, In-append, In-append_left, In-append_right, In-filter,
  In-of_filter, arith, Bool-cases,
}
use zfiles.Explorer.Selection.{
  Notice, path_changed, selection_changed, SelectionStore, notify_absent,
  set_listing_selection_paths, index_from, selected_row_index_for_path, Restored, next_focus,
  restore_from, restore_selection_from_listing,
}

not-has_name : (xs : List Text) (p : Text) → (has_name xs p ≡ false) ↔ (¬ In p xs)
not-has_name xs p = (
  λ e i. ground (arith, e, (has_name_iff xs p).1 i),
  λ h. elim (Bool-cases (has_name xs p)) [
    | inl t ↦ absurd (h ((has_name_iff xs p).0 t))
    | inr f ↦ f
  ],
)

path_changed-injective : (p q : Text) → path_changed p ≡ path_changed q → p ≡ q
path_changed-injective p q e = cc

selection_changed-ne : (p : Text) → selection_changed ≢ path_changed p
selection_changed-ne p = cc

some-injective : {A : Type 0} {a b : A} → some a ≡ some b → a ≡ b
some-injective e = cc

-- A path is told of where it is in the one set and not in the other.
notify_absent_iff :
    (paths other : List Text) (p : Text)
    → In (path_changed p) (notify_absent paths other) ↔ (In p paths × (¬ In p other))
unfolding notify_absent
notify_absent_iff [] other p = (λ i. absurd i, λ h. absurd h.0)
notify_absent_iff (x ∷ xs) other p = elim (Bool-cases (has_name other x)) [
  | inl t ↦ rw t (
    λ i. let (j, n) = (notify_absent_iff xs other p).0 i in (inr j, n),
    λ (i, n). elim i [
      | inl same ↦ absurd (n (subst (λ y. In y other) same ((has_name_iff other x).0 t)))
      | inr j ↦ (notify_absent_iff xs other p).1 (j, n)
    ],
  )
  | inr f ↦ rw f (
    λ i. elim i [
      | inl same ↦
          let here : x ≡ p = path_changed-injective x p same in
          (inl here, subst (λ y. ¬ In y other) here ((not-has_name other x).0 f))
      | inr j ↦ let (k, n) = (notify_absent_iff xs other p).0 j in (inr k, n)
    ],
    λ (i, n). elim i [
      | inl same ↦ inl (ap path_changed same)
      | inr j ↦ inr ((notify_absent_iff xs other p).1 (j, n))
    ],
  )
]

-- A new selection is taken over, and the listeners of a path are told exactly where the path has
-- come into the selection or has left it. The listeners of the selection are told last.
pub set_listing_selection_paths-notices :
    (next : List Text) (s : SelectionStore) (p : Text)
    → (told : List Notice) × ((set_listing_selection_paths false next s).notices
        ≡ s.notices ++ (told ++ (selection_changed ∷ [])))
      × ((set_listing_selection_paths false next s).selected_paths ≡ next)
      × (In (path_changed p) told
          ↔ ((In p s.selected_paths × (¬ In p next)) ⊎ (In p next × (¬ In p s.selected_paths))))
unfolding set_listing_selection_paths
set_listing_selection_paths-notices next s p =
    let left = notify_absent s.selected_paths next in
    let come = notify_absent next s.selected_paths in
    (
      left ++ come,
      ap (λ t. s.notices ++ t) (sym (append_assoc left come (selection_changed ∷ []))),
      refl,
      (
        λ i. elim (In-append left come (path_changed p) i) [
          | inl j ↦ inl ((notify_absent_iff s.selected_paths next p).0 j)
          | inr j ↦ inr ((notify_absent_iff next s.selected_paths p).0 j)
        ],
        λ h. elim h [
          | inl j ↦
              In-append_left left come (path_changed p)
                ((notify_absent_iff s.selected_paths next p).1 j)
          | inr j ↦
              In-append_right left come (path_changed p)
                ((notify_absent_iff next s.selected_paths p).1 j)
        ],
      ),
    )

index_from-get_elem :
    (entries : List Text) (p : Text) (i : ℕ)
    → In p entries
    → (k : ℕ) × (index_from entries p i ≡ some (i + k)) × (get_elem? entries k ≡ some p)
unfolding index_from
index_from-get_elem [] p i h = absurd h
index_from-get_elem (e ∷ es) p i h = elim (Bool-cases (text_eq e p)) [
  | inl t ↦ (0, rw t (ap some (omega arith)), ap some ((text_eq_iff e p).0 t))
  | inr f ↦ elim h [
    | inl same ↦ absurd (ground (arith, f, (text_eq_iff e p).1 same))
    | inr j ↦
        let (k, found, at) = index_from-get_elem es p (suc i) j in
        (suc k, rw f (found ∙ ap some (omega arith)), at)
  ]
]

next_focus-In :
    (paths : List Text) (focus : Option Text) (first : Text)
    → In first paths
    → In (next_focus paths focus first) paths
unfolding next_focus
next_focus-In paths none first h = h
next_focus-In paths (some focus) first h =
    elim (Bool-cases (not (is_empty focus) && has_name paths focus)) [
      | inl t ↦ rw t ((has_name_iff paths focus).0 (ground (arith, t)))
      | inr f ↦ rw f h
    ]

restored_at : List Text → Text → Option ℕ → Option Restored
restored_at paths focus o = elim o [
  | none ↦ none
  | some index ↦ some (record { paths = paths; focus_path = focus; index = index })
]

restore_from-first :
    (entries : List Text) (first : Text) (kept : List Text) (focus : Option Text) (k : ℕ)
    → index_from entries (next_focus (first ∷ kept) focus first) 0 ≡ some k
    → restore_from entries (first ∷ kept) focus
      ≡ some (record {
        paths = first ∷ kept;
        focus_path = next_focus (first ∷ kept) focus first;
        index = k;
      })
unfolding restore_from selected_row_index_for_path restored_at
restore_from-first entries first kept focus k found =
    ap (restored_at (first ∷ kept) (next_focus (first ∷ kept) focus first)) found

-- Where a selected path is still listed, a refresh keeps the selection, less the paths that are no
-- longer listed; the focus is a selected path, and its index is its row in the listing.
pub restore_selection_from_listing-kept :
    (entries previous_paths : List Text) (focus_path : Option Text) (p : Text)
    → In p previous_paths
    → In p entries
    → (r : Restored) × (restore_selection_from_listing entries previous_paths focus_path ≡ some r)
      × (r.paths ≡ filter (has_name entries) previous_paths)
      × In r.focus_path r.paths
      × (get_elem? entries r.index ≡ some r.focus_path)
unfolding restore_selection_from_listing
restore_selection_from_listing-kept entries previous focus p i j =
    go (filter (has_name entries) previous) refl
      (In-filter (has_name entries) previous i ((has_name_iff entries p).1 j))
  where
    go :
        (kept : List Text)
        → filter (has_name entries) previous ≡ kept
        → In p kept
        → (r : Restored) × (restore_from entries kept focus ≡ some r)
          × (r.paths ≡ kept)
          × In r.focus_path r.paths
          × (get_elem? entries r.index ≡ some r.focus_path)
    go [] e h = absurd h
    go (first ∷ kept) e h =
        let focused = next_focus (first ∷ kept) focus first in
        let held = next_focus-In (first ∷ kept) focus first (inl refl) in
        let (_, listed) =
          In-of_filter (has_name entries) previous (subst (λ xs. In focused xs) (sym e) held) in
        let (k, found, at) =
          index_from-get_elem entries focused 0 ((has_name_iff entries focused).0 listed) in
        (
          record { paths = first ∷ kept; focus_path = focused; index = k },
          restore_from-first entries first kept focus k (found ∙ ap some (omega arith)),
          refl,
          held,
          at,
        )
