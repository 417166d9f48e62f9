-- ===== src/BrowserFs/Paths/Segments.antt =====
-- A path seen as the list of its names: splitting, joining, and that they undo one another.
use zfiles.Common.{
  ◌≡◌, refl, ap, ap₂, ◌∙◌, sym, ◌≢◌, true, false, List, [], ◌∷◌, ◌++◌, Text, is_empty, split, join,
  filter, arith, All, filter-append, All-filter, All-self, append_assoc,
}
use zfiles.BrowserFs.Paths.{slash, non_empty, path_segments, normalize_path}

abbrev pub NoSlash : Text → Type 0
NoSlash [] = Unit
NoSlash (c ∷ s) = (c ≢ slash) × NoSlash s

-- The names that a normal path is made of.
abbrev pub IsSegment : Text → Type 0
IsSegment s = (is_empty s ≡ false) × NoSlash s

split-ne-nil : (s : Text) → split slash s ≢ []
split-ne-nil [] = cc
split-ne-nil (c ∷ s) = ground (arith, split-ne-nil s)

split-append : (s t : Text) → split slash (s ++ (slash ∷ t)) ≡ split slash s ++ split slash t
split-append [] t = refl
split-append (c ∷ s) t = ground (arith, split-append s t, split-ne-nil s)

split-NoSlash : (s : Text) → NoSlash s → split slash s ≡ s ∷ []
split-NoSlash [] h = refl
split-NoSlash (c ∷ s) h = ground (arith, split-NoSlash s h.1)

All-NoSlash-split : (s : Text) → All NoSlash (split slash s)
All-NoSlash-split [] = (tt, tt)
All-NoSlash-split (c ∷ s) = ground (arith, All-NoSlash-split s)

-- The names of two paths set side by side.
pub path_segments-append :
    (s t : Text) → path_segments (s ++ (slash ∷ t)) ≡ path_segments s ++ path_segments t
unfolding path_segments
path_segments-append s t =
    rw (split-append s t) (filter-append non_empty (split slash s) (split slash t))

pub path_segments-IsSegment : (s : Text) → All IsSegment (path_segments s)
unfolding path_segments
path_segments-IsSegment s =
    both (filter non_empty (split slash s)) (All-self non_empty (split slash s))
      (All-filter NoSlash non_empty (split slash s) (All-NoSlash-split s))
  where
    both : (xs : List Text) → All (λ x. non_empty x ≡ true) xs → All NoSlash xs → All IsSegment xs
    both [] h k = tt
    both (x ∷ xs) h k = ((ground arith, k.0), both xs h.1 k.1)

path_segments_self : (s : Text) → IsSegment s → path_segments s ≡ s ∷ []
unfolding path_segments
path_segments_self s h = rw (split-NoSlash s h.1) (ground arith)

pub path_segments-join : (xs : List Text) → All IsSegment xs → path_segments (join slash xs) ≡ xs
path_segments-join [] h = unfold path_segments in refl
path_segments-join (x ∷ []) h = path_segments_self x h.0
path_segments-join (x ∷ y ∷ ys) h =
    path_segments-append x (join slash (y ∷ ys))
    ∙ ap₂ ◌++◌ (path_segments_self x h.0) (path_segments-join (y ∷ ys) h.1)

pub normalize_path_lem : (s : Text) → normalize_path s ≡ join slash (path_segments s)
unfolding normalize_path path_segments
normalize_path_lem s = refl

pub path_segments-normalize_path : (s : Text) → path_segments (normalize_path s) ≡ path_segments s
path_segments-normalize_path s =
    rw (normalize_path_lem s) (path_segments-join _ (path_segments-IsSegment s))

pub is_empty-join : (xs : List Text) → All IsSegment xs → is_empty (join slash xs) ≡ true → xs ≡ []
is_empty-join [] h e = refl
is_empty-join (x ∷ []) h e = cc h.0.0
is_empty-join ([] ∷ y ∷ ys) h e = cc h.0.0
is_empty-join ((c ∷ x) ∷ y ∷ ys) h e = cc

pub join-append :
    (xs : List Text) (y : Text) (ys : List Text)
    → xs ≢ []
    → join slash (xs ++ (y ∷ ys)) ≡ join slash xs ++ (slash ∷ join slash (y ∷ ys))
join-append [] y ys h = absurd (h refl)
join-append (x ∷ []) y ys h = refl
join-append (x ∷ x' ∷ xs) y ys h =
    ap (λ t. x ++ (slash ∷ t)) (join-append (x' ∷ xs) y ys (λ e. cc))
    ∙ sym (append_assoc x (slash ∷ join slash (x' ∷ xs)) (slash ∷ join slash (y ∷ ys)))
