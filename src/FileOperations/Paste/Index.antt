-- ===== src/FileOperations/Paste/Index.antt =====
-- What the index and the set of names of a paste know of the destination (buildEntryIndex of
-- web/src/fileOperations/performPaste.ts).
use zfiles.Common.{
  ◌≡◌, ◌≢◌, refl, sym, ap, ◌∙◌, Bool, true, false, List, [], ◌∷◌, map, none, some, Text, text_eq,
  text_eq_iff, if◌then◌else◌, Entries, lookup, assign, lookup-assign, Option, In, inl, inr,
  Bool-cases, arith,
}
use zfiles.FileOperations.Paste.{FileEntry, IndexedEntry, build_entry_index, keys}
use zfiles.FileOperations.Paste.Agreement.{kind_listed}

some-ne-none : {A : Type 0} {a : A} → some a ≢ none
some-ne-none = cc

pub lookup-assign-none :
    (m : Entries IndexedEntry) (j k : Text) (v : IndexedEntry)
    → lookup (assign m j v) k ≡ none
    → (text_eq j k ≡ false) × (lookup m k ≡ none)
lookup-assign-none m j k v e = elim (Bool-cases (text_eq j k)) [
  | inl t ↦ absurd (
      some-ne-none {a = v}
        (sym (lookup-assign m j k v ∙ ap (λ b. if b then some v else lookup m k) t) ∙ e))
  | inr t ↦ (t, sym (lookup-assign m j k v ∙ ap (λ b. if b then some v else lookup m k) t) ∙ e)
]

pub not-same : (a b : Text) → text_eq a b ≡ false → a ≢ b
not-same a b e h = ground (arith, text_eq_iff a b)

pub not-In-cons : (a : Text) (xs : List Text) (n : Text) → a ≢ n → ¬ In n xs → ¬ In n (a ∷ xs)
not-In-cons a xs n h k (inl e) = h e
not-In-cons a xs n h k (inr i) = k i

-- The kind that the index has for a name.
abbrev pub kind_indexed : Option IndexedEntry → Option Bool
kind_indexed none = none
kind_indexed (some v) = some v.is_dir

pub lookup-build_entry_index :
    (es : List FileEntry) (index : Entries IndexedEntry) (n : Text)
    → lookup (build_entry_index es index) n ≡ none
    → (lookup index n ≡ none) × (¬ In n (map (λ e. e.name) es))
unfolding build_entry_index
lookup-build_entry_index [] index n h = (h, λ i. i)
lookup-build_entry_index (e ∷ es) index n h =
    let (first, others) =
      lookup-build_entry_index es
        (assign index e.name (record { path = e.path; is_dir = e.is_dir })) n h in
    let (other, before) = lookup-assign-none index e.name n _ first in
    (before, not-In-cons e.name (map (λ x. x.name) es) n (not-same e.name n other) others)

pub lookup-keys :
    (index : Entries IndexedEntry) (n : Text) → ¬ In n (keys index) → lookup index n ≡ none
unfolding keys lookup
lookup-keys [] n h = refl
lookup-keys ((k, v) ∷ rest) n h = elim (Bool-cases (text_eq k n)) [
  | inl e ↦ absurd (h (inl ((text_eq_iff k n).0 e)))
  | inr e ↦ rw e (lookup-keys rest n (λ i. h (inr i)))
]

pub kind_indexed-build_entry_index :
    (es : List FileEntry) (index : Entries IndexedEntry) (n : Text)
    → kind_indexed (lookup (build_entry_index es index) n)
      ≡ (elim (kind_listed es n) as (λ x. Option Bool) [
        | some kind ↦ some kind
        | none ↦ kind_indexed (lookup index n)
      ])
unfolding build_entry_index
kind_indexed-build_entry_index [] index n = refl
kind_indexed-build_entry_index (e ∷ es) index n =
    kind_indexed-build_entry_index es (assign index e.name entry) n
    ∙ go (kind_listed es n) (text_eq e.name n) (lookup-assign index e.name n entry)
  where
    entry : IndexedEntry
    entry = record { path = e.path; is_dir = e.is_dir }

    go :
        (later : Option Bool) (t : Bool)
        → lookup (assign index e.name entry) n ≡ (if t then some entry else lookup index n)
        → (elim later as (λ x. Option Bool) [
          | some kind ↦ some kind
          | none ↦ kind_indexed (lookup (assign index e.name entry) n)
        ])
          ≡ (elim (elim later as (λ x. Option Bool) [
            | some kind ↦ some kind
            | none ↦ if t then some e.is_dir else none
          ])
              as (λ x. Option Bool) [
                | some kind ↦ some kind
                | none ↦ kind_indexed (lookup index n)
              ])
    go (some kind) t q = refl
    go none true q = ap kind_indexed q
    go none false q = ap kind_indexed q
