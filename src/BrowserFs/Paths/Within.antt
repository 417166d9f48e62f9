-- ===== src/BrowserFs/Paths/Within.antt =====
-- When one path lies within another: a prefix of names, not of characters.
use zfiles.Common.{
  ◌≡◌, refl, ap, ◌∙◌, sym, ◌≢◌, ◌↔◌, ◌⊎◌, inl, inr, Bool, true, List, [], ◌∷◌, ◌++◌, Text, is_empty,
  join, arith, All, Bool-cases, append_assoc, append-nil, text_eq, text_eq_iff, text_eq_refl,
  starts_with, if◌then◌else◌, ◌||◌,
}
use zfiles.BrowserFs.Paths.{slash, path_segments, normalize_path, path_is_within}
use zfiles.BrowserFs.Paths.Segments.{
  IsSegment, path_segments-IsSegment, path_segments-join, path_segments-append, normalize_path_lem,
  path_segments-normalize_path, is_empty-join, join-append,
}

-- `ys` begins with the names of `xs`.
abbrev pub IsPrefix : List Text → List Text → Type 0
IsPrefix xs ys = (zs : List Text) × (ys ≡ xs ++ zs)

pub starts_with→append : (s t : Text) → starts_with s t ≡ true → (r : Text) × (s ≡ t ++ r)
starts_with→append s [] h = (s, refl)
starts_with→append [] (d ∷ t) h = cc
starts_with→append (c ∷ s) (d ∷ t) h =
    let (r, e) = starts_with→append s t (ground arith) in (r, ground arith)

pub starts_with-append : (t r : Text) → starts_with (t ++ r) t ≡ true
starts_with-append [] r = refl
starts_with-append (c ∷ t) r = ground (arith, starts_with-append t r)

-- The test of the source, on two paths in normal form.
abbrev within : Text → Text → Bool
within c a = text_eq c a || starts_with c (a ++ (slash ∷ []))

within-cases : (c a : Text) → within c a ≡ true → (c ≡ a) ⊎ ((r : Text) × (c ≡ a ++ (slash ∷ r)))
within-cases c a h = elim (Bool-cases (text_eq c a)) [
  | inl e ↦ inl ((text_eq_iff c a).0 e)
  | inr e ↦
      let (r, q) = starts_with→append c (a ++ (slash ∷ [])) (ground arith) in
      inr (r, q ∙ append_assoc a (slash ∷ []) r)
]

module _ (xs ys : List Text) (hx : All IsSegment xs) (hy : All IsSegment ys) where
  within→IsPrefix : within (join slash ys) (join slash xs) ≡ true → IsPrefix xs ys
  within→IsPrefix h = elim (within-cases _ _ h) [
    | inl e ↦ ([], back ∙ ap path_segments e ∙ front ∙ sym (append-nil xs))
    | inr (r, e) ↦ (
      path_segments r,
      back
          ∙ ap path_segments e
          ∙ path_segments-append (join slash xs) r
          ∙ ap (λ t. t ++ path_segments r) front,
    )
  ]
    where
      back : ys ≡ path_segments (join slash ys)
      back = sym (path_segments-join ys hy)

      front : path_segments (join slash xs) ≡ xs
      front = path_segments-join xs hx

  IsPrefix→within : xs ≢ [] → IsPrefix xs ys → within (join slash ys) (join slash xs) ≡ true
  IsPrefix→within h ([], e) = rw (e ∙ append-nil xs, text_eq_refl (join slash xs)) refl
  IsPrefix→within h (z ∷ zs, e) =
      let t = join slash xs ++ (slash ∷ []) in
      let r = join slash (z ∷ zs) in
      let split : join slash ys ≡ t ++ r =
        ap (join slash) e
        ∙ join-append xs z zs h
        ∙ sym (append_assoc (join slash xs) (slash ∷ []) r) in
      let found : starts_with (join slash ys) t ≡ true = rw split (starts_with-append t r) in
      ground (arith, found)

-- `pathIsWithin` holds exactly when the names of the ancestor begin those of the child, so `ab` is
-- not within `a`, and the root has everything within it.
pub path_is_within_iff :
    (child ancestor : Text)
    → (path_is_within child ancestor ≡ true)
      ↔ IsPrefix (path_segments ancestor) (path_segments child)
unfolding path_is_within
path_is_within_iff child ancestor =
    rw (normalize_path_lem child, normalize_path_lem ancestor)
      (elim (Bool-cases (is_empty (join slash xs))) [
        | inl e ↦ rw e (λ _. (ys, ap (λ t. t ++ ys) (sym (is_empty-join xs hx e))), λ _. refl)
        | inr e ↦ rw e (within→IsPrefix xs ys hx hy, IsPrefix→within xs ys hx hy (λ n. cc (e, n)))
      ])
  where
    xs : List Text
    xs = path_segments ancestor

    ys : List Text
    ys = path_segments child

    hx : All IsSegment xs
    hx = path_segments-IsSegment ancestor

    hy : All IsSegment ys
    hy = path_segments-IsSegment child

-- Only the names of the ancestor count.
pub path_is_within-normalize_path :
    (p q : Text) → path_is_within p (normalize_path q) ≡ path_is_within p q
unfolding path_is_within
path_is_within-normalize_path p q =
    ap
      (λ a.
        if is_empty a
        then true
        else text_eq (normalize_path p) a || starts_with (normalize_path p) (a ++ (slash ∷ [])))
      (normalize_path_lem (normalize_path q)
        ∙ ap (join slash) (path_segments-normalize_path q)
        ∙ sym (normalize_path_lem q))
