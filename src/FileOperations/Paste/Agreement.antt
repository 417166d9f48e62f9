-- ===== src/FileOperations/Paste/Agreement.antt =====
-- What a paste may ask of the backend after the events so far: the names and the kinds in the
-- destination, the user's consent, and paths that are not within each other.
use zfiles.Common.{
  ◌≡◌, ◌≢◌, ◌⊎◌, refl, sym, ◌∙◌, subst, Bool, true, false, List, [], ◌∷◌, ◌++◌, map, none, some,
  get_or, Text, text_eq, text_eq_iff, if◌then◌else◌, Option, append_assoc, starts_with, is_empty,
  In, inl, inr, arith,
}
use zfiles.FileOperations.Paths.{basename, strip_slashes, is_descendant_path}
use zfiles.BrowserFs.Paths.Within.{starts_with-append}
use zfiles.FileOperations.Paste.{
  FileEntry, replace, RunActionParams, done, credentials_error, other_error, Event, asked, ran,
  source_is_dir, bool_ne, new_name_of, PasteOptions,
}

-- The name that an action gives its path in the destination.
abbrev pub target : RunActionParams → Text
target p = get_or p.new_name (basename p.path)

-- The names in the destination once these events have happened.
abbrev pub names_after : List Text → List Event → List Text
names_after names [] = names
names_after names (ran p done ∷ es) = target p ∷ names_after names es
names_after names (ran p credentials_error ∷ es) = names_after names es
names_after names (ran p other_error ∷ es) = names_after names es
names_after names (asked r a ∷ es) = names_after names es

-- The kind of the entry of a name in a listing (true for a directory): that of the last one.
abbrev pub kind_listed : List FileEntry → Text → Option Bool
kind_listed [] name = none
kind_listed (e ∷ es) name = elim (kind_listed es name) [
  | some kind ↦ some kind
  | none ↦ if text_eq e.name name then some e.is_dir else none
]

-- One path is another one or is below it, both without the slashes at their ends.
abbrev pub Within : Text → Text → Type 0
Within child ancestor =
    (strip_slashes child ≡ strip_slashes ancestor)
    ⊎ ((rest : Text) × (strip_slashes child ≡ strip_slashes ancestor ++ (47 ∷ rest)))

-- A folder is not within a path that is not the root.
abbrev pub Apart : Text → Text → Type 0
Apart folder path = strip_slashes path ≢ [] → ¬ Within folder path

module _ (options : PasteOptions) where
  abbrev pub listed : List Text
  listed = map (λ e. e.name) options.listing_entries

  abbrev pub kind_of : Text → Bool
  kind_of source = source_is_dir source options.all_entries_by_path

  -- The kind of the entry of a name in the destination once these events have happened.
  abbrev pub kind_after : List Event → Text → Option Bool
  kind_after [] name = kind_listed options.listing_entries name
  kind_after (ran p done ∷ es) name =
      let before = kind_after es name in
      if text_eq (target p) name then some (kind_of p.path) else before
  kind_after (ran p credentials_error ∷ es) name = kind_after es name
  kind_after (ran p other_error ∷ es) name = kind_after es name
  kind_after (asked r a ∷ es) name = kind_after es name

  -- The user has just said to replace the entry of this name, has been told that the kinds are the
  -- same, and the entry that stands there is of the source's kind.
  abbrev pub Agreed : Text → Text → List Event → Type 0
  Agreed source name (asked r replace ∷ es) =
      (r.dest_name ≡ name)
      × (r.type_mismatch ≡ false)
      × (kind_after es name ≡ some (kind_of source))
  Agreed source name _ = ⊥

  abbrev pub Allowed : Bool → Text → Text → List Event → Type 0
  Allowed true source name es = Agreed source name es
  Allowed false source name es = ¬ In name (names_after listed es)

  -- No action puts a path into itself, one that may overwrite was agreed to, and any other one goes
  -- to a name that is free.
  abbrev pub Consented : List Event → Type 0
  Consented [] = Unit
  Consented (asked r a ∷ es) = Consented es
  Consented (ran p a ∷ es) =
      Apart p.dest_dir p.path × Allowed p.overwrite p.path (target p) es × Consented es

not_empty : (s : Text) → s ≢ [] → is_empty s ≡ false
not_empty [] h = absurd (h refl)
not_empty (c ∷ s) h = refl

pub is_descendant_path-Apart :
    (folder path : Text) → is_descendant_path folder path ≡ false → Apart folder path
unfolding is_descendant_path
is_descendant_path-Apart folder path e h (inl same) = ground (
  arith,
  e,
  h,
  (text_eq_iff (strip_slashes folder) (strip_slashes path)).1 same,
  not_empty (strip_slashes path) h,
)
is_descendant_path-Apart folder path e h (inr (rest, below)) =
    let a = strip_slashes path in
    let prefix : starts_with (strip_slashes folder) (a ++ (47 ∷ [])) ≡ true =
      subst (λ c. starts_with c (a ++ (47 ∷ [])) ≡ true) (append_assoc a (47 ∷ []) rest ∙ sym below)
        (starts_with-append (a ++ (47 ∷ [])) rest) in
    ground (arith, e, prefix, not_empty a h)

pub bool_ne-false : (a b : Bool) → bool_ne a b ≡ false → a ≡ b
unfolding bool_ne
bool_ne-false a b e = ground (arith, e)

pub target_lem :
    (source dest_name : Text) → get_or (new_name_of source dest_name) source ≡ dest_name
unfolding new_name_of
target_lem source dest_name = ground (arith, text_eq_iff dest_name source)
