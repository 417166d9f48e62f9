-- ===== src/BrowserFs/Paths.antt =====
-- web/src/browserfs/paths.ts: paths relative to the volume root, "/" between the names.
pub mod Segments
pub mod Laws
pub mod Within
use zfiles.Common.{
  ℕ, Bool, true, false, not, ◌&&◌, ◌||◌, List, [], ◌∷◌, ◌++◌, Text, codes, is_empty, split, join,
  filter, all, any, text_eq, starts_with, trim, ◌==◌, if◌then◌else◌,
}

abbrev pub slash : ℕ
slash = b'/'

-- `filter(Boolean)` keeps the parts that are not empty.
abbrev non_empty : Text → Bool
non_empty s = not (is_empty s)

unfoldable pub path_segments : Text → List Text
path_segments path = filter non_empty (split slash path)

unfoldable pub normalize_path : Text → Text
normalize_path path = join slash (filter non_empty (split slash path))

-- `segments.pop()`.
unfoldable pub init : List Text → List Text
init [] = []
init (s ∷ []) = []
init (s ∷ t ∷ ts) = s ∷ init (t ∷ ts)

unfoldable pub last_or_empty : List Text → Text
last_or_empty [] = []
last_or_empty (s ∷ []) = s
last_or_empty (s ∷ t ∷ ts) = last_or_empty (t ∷ ts)

unfoldable pub path_parent : Text → Text
path_parent path = join slash (init (path_segments path))

unfoldable pub path_name : Text → Text
path_name path = last_or_empty (path_segments path)

unfoldable pub join_path : Text → Text → Text
join_path parent name = join slash (path_segments parent ++ path_segments name)

unfoldable pub path_is_within : Text → Text → Bool
path_is_within child ancestor =
    let c = normalize_path child in
    let a = normalize_path ancestor in
    if is_empty a then true else text_eq c a || starts_with c (a ++ (slash ∷ []))

unfoldable pub descendant_prefix : Text → Text
descendant_prefix path =
    let normalized = normalize_path path in
    if is_empty normalized then [] else normalized ++ (slash ∷ [])

-- The characters that INVALID_NAME_PATTERN names.
abbrev is_invalid_char : ℕ → Bool
is_invalid_char c = c == b'/' || c == 0x5c || c == 0

unfoldable pub is_valid_entry_name : Text → Bool
is_valid_entry_name name =
    let trimmed = trim name in
    if is_empty trimmed || text_eq trimmed (codes ".") || text_eq trimmed (codes "..")
    then false
    else not (any is_invalid_char trimmed)

unfoldable pub is_valid_path : Text → Bool
unfolding path_segments is_valid_entry_name
is_valid_path path = all is_valid_entry_name (path_segments path)
