-- ===== src/FileOperations/Names.antt =====
-- Names that are not taken yet: `uniqueSiblingName` (web/src/fileOperations/paths.ts),
-- `uniqueConnectionName` (web/src/connections/naming.ts) and `findKeepBothPath`
-- (web/src/upload-conflict.ts).
pub mod Free
use zfiles.Common.{
  ℕ, zero, suc, ◌+◌, Bool, true, false, not, ◌&&◌, ◌||◌, List, [], ◌∷◌, ◌++◌, map, Option, none,
  some, Text, codes, is_empty, drop, length, ◌==◌, if◌then◌else◌, ltb, has_name, first_free,
  show_number, trim,
}

unfoldable pub take : ℕ → Text → Text
take zero s = []
take (suc n) [] = []
take (suc n) (c ∷ s) = c ∷ take n s

-- `s.lastIndexOf(c)`, which is -1 where there is none.
unfoldable pub last_index_of : ℕ → Text → Option ℕ
last_index_of c [] = none
last_index_of c (d ∷ s) = elim (last_index_of c s) [
  | some i ↦ some (suc i)
  | none ↦ if d == c then some 0 else none
]

-- Where the extension of a name begins: at its last point, if that is not its first character.
unfoldable pub extension_at : Text → Option ℕ
unfolding last_index_of
extension_at name = elim (last_index_of 46 name) [
  | none ↦ none
  | some dot ↦ if ltb 0 dot then some dot else none
]

unfoldable pub stem_of : Text → Text
unfolding extension_at take
stem_of name = elim (extension_at name) [ none ↦ name | some dot ↦ take dot name ]

unfoldable pub ext_of : Text → Text
unfolding extension_at
ext_of name = elim (extension_at name) [ none ↦ [] | some dot ↦ drop dot name ]

-- `${stem} (${index})${ext}`.
unfoldable pub numbered : Text → Text → ℕ → Text
unfolding show_number
numbered stem ext index = stem ++ (32 ∷ 40 ∷ (show_number index ++ (41 ∷ ext)))

-- The loop has a try for each name that exists, and one more.
unfoldable pub unique_sibling_name : Text → List Text → Option Text
unfolding stem_of ext_of numbered has_name first_free
unique_sibling_name base_name existing_names =
    if not (has_name existing_names base_name)
    then some base_name
    else elim (first_free
        (λ i. has_name existing_names (numbered (stem_of base_name) (ext_of base_name) i))
        (suc (length existing_names)) 1) [
          | none ↦ none
          | some index ↦ some (numbered (stem_of base_name) (ext_of base_name) index)
        ]

-- `${trimmed} ${suffix}`.
unfoldable pub suffixed : Text → ℕ → Text
unfolding show_number
suffixed trimmed suffix = trimmed ++ (32 ∷ show_number suffix)

unfoldable pub base_or_fallback : Text → Text
unfolding trim
base_or_fallback base = if is_empty (trim base) then codes "Connection" else trim base

-- `toLowerCase` is the language's.
unfoldable pub unique_connection_name : (Text → Text) → Text → List Text → Option Text
unfolding suffixed base_or_fallback has_name first_free trim
unique_connection_name to_lower_case base taken =
    let trimmed = base_or_fallback base in
    let used = map (λ name. to_lower_case (trim name)) taken in
    if not (has_name used (to_lower_case trimmed))
    then some trimmed
    else elim (first_free (λ i. has_name used (to_lower_case (suffixed trimmed i)))
        (suc (length taken)) 2) [ none ↦ none | some suffix ↦ some (suffixed trimmed suffix) ]

unfoldable pub suggest_keep_both_path : Text → ℕ → Text
unfolding last_index_of stem_of ext_of numbered take
suggest_keep_both_path dest_path attempt =
    let slash = last_index_of 47 dest_path in
    let dir : Text = elim slash [ none ↦ [] | some i ↦ take i dest_path ] in
    let base_name : Text = elim slash [ none ↦ dest_path | some i ↦ drop (suc i) dest_path ] in
    let file = numbered (stem_of base_name) (ext_of base_name) attempt in
    if is_empty dir then file else dir ++ (47 ∷ file)

-- What `stat` says of a path: a directory, a file, or an error.
pub data Stat : Type 0 where
  directory : Stat
  file : Stat
  fails : Stat

unfoldable pub path_exists_as_file : (Text → Stat) → Text → Bool
path_exists_as_file stat path = elim (stat path) [ directory ↦ false | file ↦ true | fails ↦ false ]

-- `none` stands for the error that no name was found in 9,999 attempts.
unfoldable pub find_keep_both_path : (Text → Stat) → Text → Option Text
unfolding path_exists_as_file suggest_keep_both_path first_free
find_keep_both_path stat dest_path =
    elim (first_free
      (λ attempt. path_exists_as_file stat (suggest_keep_both_path dest_path attempt)) 9999 1) [
        | none ↦ none
        | some attempt ↦ some (suggest_keep_both_path dest_path attempt)
      ]
