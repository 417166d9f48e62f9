-- ===== src/BrowserFs/Paths/Laws.antt =====
-- What the path functions compute, said of the list of names that a path stands for.
use zfiles.Common.{
  ◌≡◌, refl, ap, ap₂, ◌∙◌, sym, subst, ◌≢◌, List, [], ◌∷◌, ◌++◌, Text, join, All, All-append,
}
use zfiles.BrowserFs.Paths.{
  slash, path_segments, normalize_path, init, last_or_empty, path_parent, path_name, join_path,
}
use zfiles.BrowserFs.Paths.Segments.{
  IsSegment, path_segments-IsSegment, path_segments-join, normalize_path_lem,
  path_segments-normalize_path,
}

-- `normalizePath` keeps the names of a path, and a second call changes nothing.
pub normalize_path_idem :
    (p : Text)
    → (path_segments (normalize_path p) ≡ path_segments p)
      × (normalize_path (normalize_path p) ≡ normalize_path p)
normalize_path_idem p = (
  path_segments-normalize_path p,
  normalize_path_lem (normalize_path p)
      ∙ ap (join slash) (path_segments-normalize_path p)
      ∙ sym (normalize_path_lem p),
)

pub init-last :
    (x : Text) (xs : List Text) → init (x ∷ xs) ++ (last_or_empty (x ∷ xs) ∷ []) ≡ x ∷ xs
unfolding init last_or_empty
init-last x [] = refl
init-last x (y ∷ ys) = ap (◌∷◌ x) (init-last y ys)

pub All-init : (P : Text → Type 0) (xs : List Text) → All P xs → All P (init xs)
unfolding init
All-init P [] h = tt
All-init P (x ∷ []) h = tt
All-init P (x ∷ y ∷ ys) h = (h.0, All-init P (y ∷ ys) h.1)

All-last :
    (P : Text → Type 0) (x : Text) (xs : List Text) → All P (x ∷ xs) → P (last_or_empty (x ∷ xs))
unfolding last_or_empty
All-last P x [] h = h.0
All-last P x (y ∷ ys) h = All-last P y ys h.1

pub init-snoc : (xs : List Text) (x : Text) → init (xs ++ (x ∷ [])) ≡ xs
unfolding init
init-snoc [] x = refl
init-snoc (y ∷ []) x = refl
init-snoc (y ∷ z ∷ zs) x = ap (◌∷◌ y) (init-snoc (z ∷ zs) x)

pub last-snoc : (xs : List Text) (x : Text) → last_or_empty (xs ++ (x ∷ [])) ≡ x
unfolding last_or_empty
last-snoc [] x = refl
last-snoc (y ∷ []) x = refl
last-snoc (y ∷ z ∷ zs) x = last-snoc (z ∷ zs) x

-- The names of the parent are those of the path, less the last.
pub path_segments-path_parent : (p : Text) → path_segments (path_parent p) ≡ init (path_segments p)
unfolding path_parent
path_segments-path_parent p =
    path_segments-join (init (path_segments p))
      (All-init IsSegment (path_segments p) (path_segments-IsSegment p))

module _ (p x : Text) (xs : List Text) (e : path_segments p ≡ x ∷ xs) where
  path_segments-path_name : path_segments (path_name p) ≡ last_or_empty (x ∷ xs) ∷ []
  unfolding path_name
  path_segments-path_name = rw e (
      path_segments-join (last_or_empty (x ∷ xs) ∷ [])
        (All-last IsSegment x xs (subst (All IsSegment) e (path_segments-IsSegment p)), tt))

  join_path_of_segments : join_path (path_parent p) (path_name p) ≡ join slash (x ∷ xs)
  unfolding join_path
  join_path_of_segments =
      ap (join slash) (
        ap₂ ◌++◌ (path_segments-path_parent p ∙ ap init e) path_segments-path_name ∙ init-last x xs)

-- Taken apart into parent and name and joined again, every path but the root comes back normal.
pub join_path-path_parent-path_name :
    (p : Text) → path_segments p ≢ [] → join_path (path_parent p) (path_name p) ≡ normalize_path p
join_path-path_parent-path_name p = go (path_segments p) refl
  where
    go :
        (xs : List Text)
        → path_segments p ≡ xs
        → xs ≢ []
        → join_path (path_parent p) (path_name p) ≡ normalize_path p
    go [] e h = absurd (h refl)
    go (x ∷ xs) e h =
        join_path_of_segments p x xs e ∙ sym (normalize_path_lem p ∙ ap (join slash) e)

path_segments-join_path :
    (p n : Text) → path_segments (join_path p n) ≡ path_segments p ++ path_segments n
unfolding join_path
path_segments-join_path p n = path_segments-join (path_segments p ++ path_segments n) (
    All-append IsSegment (path_segments p) (path_segments n) (path_segments-IsSegment p)
      (path_segments-IsSegment n))

-- Where a name is a single segment, a path joined with it has the normal form of the path as its
-- parent, and that name as its name.
pub path_parent-path_name-join_path :
    (p n : Text)
    → path_segments n ≡ n ∷ []
    → (path_parent (join_path p n) ≡ normalize_path p) × (path_name (join_path p n) ≡ n)
path_parent-path_name-join_path p n e = (
  unfold path_parent in
      ap (join slash) (ap init whole ∙ init-snoc (path_segments p) n) ∙ sym (normalize_path_lem p),
  unfold path_name in ap last_or_empty whole ∙ last-snoc (path_segments p) n,
)
  where
    whole : path_segments (join_path p n) ≡ path_segments p ++ (n ∷ [])
    whole = path_segments-join_path p n ∙ ap (◌++◌ (path_segments p)) e
