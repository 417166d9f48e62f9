-- ===== src/FileOperations/Paths.antt =====
-- web/src/fileOperations/paths.ts: paths relative to the root of the backend.
use zfiles.Common.{
  Bool, false, not, ◌||◌, List, [], ◌∷◌, ◌++◌, Text, is_empty, split, join, reverse, filter,
  text_eq, starts_with, ◌==◌, if◌then◌else◌, drop_while,
}

-- `path.replace(/^\/+|\/+$/g, "")`.
unfoldable pub strip_slashes : Text → Text
unfolding drop_while
strip_slashes s = reverse (drop_while (λ c. c == 47) (reverse (drop_while (λ c. c == 47) s)))

unfoldable pub join_explorer_path : Text → Text → Text
unfolding strip_slashes
join_explorer_path parent child_name =
    let base = strip_slashes parent in
    let name = strip_slashes child_name in
    if is_empty base then name else if is_empty name then base else base ++ (47 ∷ name)

unfoldable pub last_or : Text → List Text → Text
last_or path [] = path
last_or path (s ∷ ss) = last_or s ss

unfoldable pub basename : Text → Text
unfolding last_or
basename path = last_or path (filter (λ s. not (is_empty s)) (split 47 path))

-- `parts.slice(0, -1)`.
unfoldable pub all_but_last : List Text → List Text
all_but_last [] = []
all_but_last (s ∷ []) = []
all_but_last (s ∷ t ∷ ts) = s ∷ all_but_last (t ∷ ts)

unfoldable pub parent_explorer_path : Text → Text
unfolding all_but_last
parent_explorer_path path = join 47 (all_but_last (split 47 path))

unfoldable pub is_descendant_path : Text → Text → Bool
unfolding strip_slashes
is_descendant_path child ancestor =
    let c = strip_slashes child in
    let a = strip_slashes ancestor in
    if is_empty a then false else text_eq c a || starts_with c (a ++ (47 ∷ []))
