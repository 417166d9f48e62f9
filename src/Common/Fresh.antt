-- ===== src/Common/Fresh.antt =====
-- The search for the first of a row of names that is not taken, and why it ends.
use Prim.Native.Nat.{ℕ, zero, suc, ◌+◌, ◌<◌, ◌≤◌}
use mathlib.Core.Path.{◌≡◌, refl, sym, subst, ap, ◌∙◌}
use mathlib.Core.Logic.{◌↔◌, ◌⊎◌, ◌≢◌, inl, inr}
use mathlib.Core.Bool.{Bool, true, false, not}
use mathlib.Core.List.{List, [], ◌∷◌}
use mathlib.Core.Option.{Option, none, some}
use native.Mathlib.Omega.{arith}
use zfiles.Common.Tests.{if◌then◌else◌, Bool-cases, Option-cases}
use zfiles.Common.Texts.{Text, text_eq, text_eq_iff}
use zfiles.Common.Lists.{
  In, Distinct, length, filter, filter_of_All, All-of_In, In-of_filter, Distinct-filter,
}

-- `set.has(name)` on the names of a set.
unfoldable pub has_name : List Text → Text → Bool
has_name [] name = false
has_name (x ∷ xs) name = let later = has_name xs name in if text_eq x name then true else later

pub has_name_iff : (xs : List Text) (name : Text) → (has_name xs name ≡ true) ↔ In name xs
unfolding has_name
has_name_iff [] name = (λ e. absurd (cc), λ i. absurd i)
has_name_iff (x ∷ xs) name = elim (Bool-cases (text_eq x name)) [
  | inl e ↦ rw e (λ h. inl ((text_eq_iff x name).0 e), λ i. refl)
  | inr e ↦ rw e (
    λ h. inr ((has_name_iff xs name).0 h),
    λ i. elim i [
      | inl same ↦ absurd (ground (arith, text_eq_iff x name))
      | inr j ↦ (has_name_iff xs name).1 j
    ],
  )
]

-- The first index from `i` on whose candidate passes, among as many as the fuel says.
unfoldable pub first_free : (ℕ → Bool) → ℕ → ℕ → Option ℕ
first_free taken zero i = none
first_free taken (suc f) i =
    let later = first_free taken f (suc i) in if taken i then later else some i

Nat-cases : (i j : ℕ) → i ≤ j → (i ≡ j) ⊎ (suc i ≤ j)
Nat-cases i j h = omega arith

some-ne-none : {A : Type 0} {a : A} → some a ≢ none
some-ne-none = cc

-- An index that the search returns is free, and no index before it is.
pub first_free-some :
    (taken : ℕ → Bool) (f i k : ℕ)
    → first_free taken f i ≡ some k
    → (i ≤ k) × (k < i + f) × (taken k ≡ false) × ((j : ℕ) → i ≤ j → j < k → taken j ≡ true)
unfolding first_free
first_free-some taken zero i k e = cc
first_free-some taken (suc f) i k e = elim (Bool-cases (taken i)) [
  | inl t ↦
      let rest = first_free-some taken f (suc i) k (rw t at e) in
      (
        omega (arith, rest.0),
        omega (arith, rest.1),
        rest.2,
        λ j h l. elim (Nat-cases i j h) [
          | inl same ↦ subst (λ x. taken x ≡ true) same t
          | inr above ↦ rest.3 j above l
        ],
      )
  | inr t ↦
      let same : i ≡ k = ground (arith, e, t) in
      (
        omega (arith, same),
        omega (arith, same),
        subst (λ x. taken x ≡ false) same t,
        λ j h l. absurd (omega (arith, same)),
      )
]

-- The search fails only where every index it tries is taken.
pub first_free-none :
    (taken : ℕ → Bool) (f i : ℕ)
    → first_free taken f i ≡ none
    → (j : ℕ) → i ≤ j
    → j < i + f
    → taken j ≡ true
unfolding first_free
first_free-none taken zero i e j h l = absurd (omega arith)
first_free-none taken (suc f) i e j h l = elim (Bool-cases (taken i)) [
  | inl t ↦ elim (Nat-cases i j h) [
    | inl same ↦ subst (λ x. taken x ≡ true) same t
    | inr above ↦ first_free-none taken f (suc i) (rw t at e) j above (omega arith)
  ]
  | inr t ↦ absurd (some-ne-none (rw t at e))
]

differs : (z y : Text) → z ≢ y → not (text_eq z y) ≡ true
differs z y n = ground (arith, text_eq_iff z y)

not_self : (x y : Text) → x ≡ y → not (text_eq x y) ≡ true → ⊥
not_self x y same e = ground (arith, text_eq_iff x y)

-- Names without repetition that all stand in a list are no more than it has.
length-others :
    (y : Text) (xs : List Text)
    → Distinct xs
    → length xs ≤ suc (length (filter (λ x. not (text_eq x y)) xs))
length-others y [] d = omega arith
length-others y (x ∷ xs) d = elim (Bool-cases (text_eq x y)) [
  | inl e ↦ rw e (
      omega (
        arith,
        ap length (
            filter_of_All (λ z. not (text_eq z y)) xs
              (All-of_In (λ z. not (text_eq z y) ≡ true) xs
                (λ z i.
                  differs z y
                    (λ same. d.0 (subst (λ w. In w xs) (same ∙ sym ((text_eq_iff x y).0 e)) i))))),
      ))
  | inr e ↦ rw e (omega (arith, length-others y xs d.1))
]

pub Distinct-length :
    (ys xs : List Text) → Distinct xs → ((x : Text) → In x xs → In x ys) → length xs ≤ length ys
Distinct-length [] [] d h = omega arith
Distinct-length [] (x ∷ xs) d h = absurd (h x (inl refl))
Distinct-length (y ∷ ys) xs d h = omega (
  arith,
  length-others y xs d,
  Distinct-length ys (filter (λ x. not (text_eq x y)) xs)
      (Distinct-filter (λ x. not (text_eq x y)) xs d)
      (λ x i.
        let (j, e) = In-of_filter (λ x. not (text_eq x y)) xs i in
        elim (h x j) [ inl same ↦ absurd (not_self x y (sym same) e) | inr k ↦ k ]),
)

abbrev row : (ℕ → Text) → ℕ → ℕ → List Text
row name zero i = []
row name (suc f) i = name i ∷ row name f (suc i)

row-above :
    (name : ℕ → Text) (f i : ℕ) (x : Text)
    → In x (row name f i)
    → (j : ℕ) × (i ≤ j) × (j < i + f) × (x ≡ name j)
row-above name zero i x h = absurd h
row-above name (suc f) i x (inl e) = (i, omega arith, omega arith, sym e)
row-above name (suc f) i x (inr h) =
    let (j, a, b, e) = row-above name f (suc i) x h in (j, omega (arith, a), omega (arith, b), e)

row-length : (name : ℕ → Text) (f i : ℕ) → length (row name f i) ≡ f
row-length name zero i = refl
row-length name (suc f) i = ap suc (row-length name f (suc i))

module _ (name : ℕ → Text) (distinct : (i j : ℕ) → name i ≡ name j → i ≡ j) where
  row-Distinct : (f i : ℕ) → Distinct (row name f i)
  row-Distinct zero i = tt
  row-Distinct (suc f) i = (
    λ h.
        let (j, a, b, e) = row-above name f (suc i) (name i) h in
        absurd (omega (arith, distinct i j e, a)),
    row-Distinct f (suc i),
  )

  -- One more try than there are names is enough.
  pub first_free-enough :
      (names : List Text) (f i : ℕ)
      → length names < f
      → (k : ℕ) × (first_free (λ j. has_name names (name j)) f i ≡ some k)
  first_free-enough names f i h =
      elim (Option-cases (first_free (λ j. has_name names (name j)) f i)) [
        | inl e ↦ absurd (
            omega (
              arith,
              row-length name f i,
              Distinct-length names (row name f i) (row-Distinct f i) (λ x p.
                  let (j, a, b, same) = row-above name f i x p in
                  subst (λ y. In y names) (sym same)
                    ((has_name_iff names (name j)).0
                      (first_free-none (λ j. has_name names (name j)) f i e j a b))),
            ))
        | inr found ↦ found
      ]
