-- ===== src/FileOperations/Names/Free.antt =====
-- The names that are found.
use zfiles.Common.{
  ℕ, suc, ◌<◌, ◌≤◌, ◌≡◌, ◌≢◌, ◌↔◌, ◌⊎◌, inl, inr, refl, sym, ap, ◌∙◌, subst, Bool, true, false,
  List, [], ◌∷◌, map, Option, none, some, Text, length, has_name, has_name_iff, first_free,
  first_free-some, first_free-none, first_free-enough, show_number, show_number-injective, In,
  arith, trim, Bool-cases, append_cancel_left, append_cancel_right,
}
use zfiles.FileOperations.Names.{
  numbered, stem_of, ext_of, unique_sibling_name, suffixed, base_or_fallback,
  unique_connection_name, suggest_keep_both_path, Stat, path_exists_as_file, find_keep_both_path,
}

-- A name that is found among candidates: the first that is not taken.
abbrev pub FirstFree : (ℕ → Text) → ℕ → (ℕ → Type 0) → Text → Type 0
FirstFree candidate start Taken name =
    (k : ℕ) × (start ≤ k) × (name ≡ candidate k) × ((j : ℕ) → start ≤ j → j < k → Taken j)

cons-injective : (c : ℕ) (s t : Text) → c ∷ s ≡ c ∷ t → s ≡ t
cons-injective c s t e = cc

numbered-injective : (stem ext : Text) (i j : ℕ) → numbered stem ext i ≡ numbered stem ext j → i ≡ j
unfolding numbered
numbered-injective stem ext i j e = show_number-injective i j (
    append_cancel_right (show_number i) (show_number j) (41 ∷ ext)
      (cons-injective 40 _ _ (cons-injective 32 _ _ (append_cancel_left stem _ _ e))))

suffixed-injective : (base : Text) (i j : ℕ) → suffixed base i ≡ suffixed base j → i ≡ j
unfolding suffixed
suffixed-injective base i j e =
    show_number-injective i j (cons-injective 32 _ _ (append_cancel_left base _ _ e))

Nat-compare : (k l : ℕ) → (k < l) ⊎ ((k ≡ l) ⊎ (l < k))
Nat-compare k l = omega arith

true-ne-false : true ≢ false
true-ne-false = cc

some-injective : {A : Type 0} {a b : A} → some a ≡ some b → a ≡ b
some-injective e = cc

length-map : (f : Text → Text) (xs : List Text) → length (map f xs) ≡ length xs
length-map f [] = refl
length-map f (x ∷ xs) = ap suc (length-map f xs)

not-has_name : (names : List Text) (name : Text) → has_name names name ≡ false → ¬ In name names
not-has_name names name e i = ground (arith, has_name_iff names name)

-- A search among different names, with a try more than there are names, finds the first free one.
search :
    (key : ℕ → Text)
    → ((i j : ℕ) → key i ≡ key j → i ≡ j)
    → (names : List Text) (f start : ℕ) → length names < f
    → (k : ℕ) × (first_free (λ i. has_name names (key i)) f start ≡ some k)
      × (start ≤ k)
      × (¬ In (key k) names)
      × ((j : ℕ) → start ≤ j → j < k → In (key j) names)
search key distinct names f start h =
    let (k, e) = first_free-enough key distinct names f start h in
    let (above, within, free, before) = first_free-some (λ i. has_name names (key i)) f start k e in
    (
      k,
      e,
      above,
      not-has_name names (key k) free,
      λ j a b. (has_name_iff names (key j)).0 (before j a b),
    )

-- For every name and every list of names, the name found is none of them. It is the name itself,
-- or, where that is taken, the numbered name with the least number from 1 on that is free.
pub unique_sibling_name-free :
    (base_name : Text) (existing_names : List Text)
    → (name : Text) × (unique_sibling_name base_name existing_names ≡ some name)
      × (¬ In name existing_names)
      × ((name ≡ base_name)
          ⊎ (In base_name existing_names
              × FirstFree
                  (numbered (stem_of base_name) (ext_of base_name))
                  1
                  (λ j. In (numbered (stem_of base_name) (ext_of base_name) j) existing_names)
                  name))
unfolding unique_sibling_name
unique_sibling_name-free base existing = elim (Bool-cases (has_name existing base)) [
  | inl e ↦
      let (k, found, above, free, before) =
        search (numbered (stem_of base) (ext_of base))
          (numbered-injective (stem_of base) (ext_of base)) existing (suc (length existing)) 1
          (omega arith) in
      (
        numbered (stem_of base) (ext_of base) k,
        rw (e, found) refl,
        free,
        inr ((has_name_iff existing base).0 e, (k, above, refl, before)),
      )
  | inr e ↦ (base, rw e refl, not-has_name existing base e, inl refl)
]

-- Where lower case leaves a number after a space as it is, the name found for a connection differs
-- from every taken name, also where case and outer white space are disregarded. It is the name asked
-- for, or that name with the least suffix from 2 on that is free.
pub unique_connection_name-free :
    (to_lower_case : Text → Text) (base : Text) (taken : List Text)
    → ((s : Text) (n : ℕ) → to_lower_case (suffixed s n) ≡ suffixed (to_lower_case s) n)
    → (name : Text) × (unique_connection_name to_lower_case base taken ≡ some name)
      × (¬ In (to_lower_case name) (map (λ t. to_lower_case (trim t)) taken))
      × ((name ≡ base_or_fallback base)
          ⊎ (In (to_lower_case (base_or_fallback base)) (map (λ t. to_lower_case (trim t)) taken)
              × FirstFree
                  (suffixed (base_or_fallback base))
                  2
                  (λ j.
                    In
                      (to_lower_case (suffixed (base_or_fallback base) j))
                      (map (λ t. to_lower_case (trim t)) taken))
                  name))
unfolding unique_connection_name
unique_connection_name-free lower base taken keeps =
    elim (Bool-cases (has_name used (lower first))) [
      | inl e ↦
          let (k, found, above, free, before) =
            search (λ i. lower (suffixed first i)) distinct used (suc (length taken)) 2
              (omega (arith, length-map (λ t. lower (trim t)) taken)) in
          (
            suffixed first k,
            rw (e, found) refl,
            free,
            inr ((has_name_iff used (lower first)).0 e, (k, above, refl, before)),
          )
      | inr e ↦ (first, rw e refl, not-has_name used (lower first) e, inl refl)
    ]
  where
    first : Text
    first = base_or_fallback base

    used : List Text
    used = map (λ t. lower (trim t)) taken

    distinct : (i j : ℕ) → lower (suffixed first i) ≡ lower (suffixed first j) → i ≡ j
    distinct i j e = suffixed-injective (lower first) i j (sym (keeps first i) ∙ e ∙ keeps first j)

-- A path that is kept beside an existing file is found exactly where it is the first, of the 9,999
-- numbered ones, that is no file; the search fails exactly where all of them are files.
pub find_keep_both_path-free :
    (stat : Text → Stat) (dest_path path : Text)
    → ((find_keep_both_path stat dest_path ≡ none) ↔ (
        (j : ℕ)
        → 1 ≤ j
        → j < 10000
        → path_exists_as_file stat (suggest_keep_both_path dest_path j) ≡ true))
      × ((find_keep_both_path stat dest_path ≡ some path) ↔ (
          (k : ℕ) × (1 ≤ k)
          × (k < 10000)
          × (path ≡ suggest_keep_both_path dest_path k)
          × (path_exists_as_file stat path ≡ false)
          × ((j : ℕ)
              → 1 ≤ j
              → j < k
              → path_exists_as_file stat (suggest_keep_both_path dest_path j) ≡ true)))
unfolding find_keep_both_path
find_keep_both_path-free stat dest path = go (first_free taken 9999 1) refl
  where
    taken : ℕ → Bool
    taken j = path_exists_as_file stat (suggest_keep_both_path dest j)

    go :
        (r : Option ℕ)
        → first_free taken 9999 1 ≡ r
        → (((elim r as (λ x. Option Text) [
          | none ↦ none
          | some k ↦ some (suggest_keep_both_path dest k)
        ])
              ≡ none)
            ↔ ((j : ℕ) → 1 ≤ j → j < 10000 → taken j ≡ true))
          × (((elim r as (λ x. Option Text) [
            | none ↦ none
            | some k ↦ some (suggest_keep_both_path dest k)
          ])
                ≡ some path)
              ↔ ((k : ℕ) × (1 ≤ k)
                  × (k < 10000)
                  × (path ≡ suggest_keep_both_path dest k)
                  × (path_exists_as_file stat path ≡ false)
                  × ((j : ℕ) → 1 ≤ j → j < k → taken j ≡ true)))
    go none e = (
      (λ q j a b. first_free-none taken 9999 1 e j a (omega arith), λ h. refl),
      (
        λ q. cc,
        λ (k, a, b, same, free, before). absurd (
            true-ne-false (
              sym (first_free-none taken 9999 1 e k a (omega (arith, b)))
              ∙ sym (ap (path_exists_as_file stat) same)
              ∙ free)),
      ),
    )
    go (some k) e =
        let (above, within, free, before) = first_free-some taken 9999 1 k e in
        (
          (λ q. cc, λ h. absurd (true-ne-false (sym (h k above (omega arith)) ∙ free))),
          (
            λ q.
                let same : suggest_keep_both_path dest k ≡ path = some-injective q in
                (
                  k,
                  above,
                  omega (arith, within),
                  sym same,
                  subst (λ p. path_exists_as_file stat p ≡ false) same free,
                  before,
                ),
            λ (l, a, b, same, free', before').
                let free_l : taken l ≡ false = sym (ap (path_exists_as_file stat) same) ∙ free' in
                let equal : k ≡ l = elim (Nat-compare k l) [
                  | inl less ↦ absurd (true-ne-false (sym (before' k above less) ∙ free))
                  | inr rest ↦ elim rest [
                    | inl same' ↦ same'
                    | inr more ↦ absurd (true-ne-false (sym (before l a more) ∙ free_l))
                  ]
                ] in
                ap (λ i. some (suggest_keep_both_path dest i)) equal ∙ ap some (sym same),
          ),
        )
