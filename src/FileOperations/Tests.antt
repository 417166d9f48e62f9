-- ===== src/FileOperations/Tests.antt =====
-- Names and pastes at concrete folders.
use zfiles.Common.{
  ℕ, zero, suc, ◌+◌, ◌%◌, ◌/◌, ◌<◌, ◌≤◌, ◌≡◌, ◌⊎◌, ◌↔◌, refl, ap, ◌∙◌, Bool, true, false, ◌&&◌,
  List, [], ◌∷◌, ◌++◌, map, none, some, Text, codes, text_eq, trim, if◌then◌else◌, leb, ltb, In,
  arith, Bool-cases, ltb→lt, lookup, assign, inl, inr, show_number, digits_before,
}
use zfiles.FileOperations.Paths.{
  basename, join_explorer_path, is_descendant_path, parent_explorer_path,
}
use zfiles.FileOperations.Names.{
  unique_sibling_name, numbered, stem_of, ext_of, suffixed, base_or_fallback,
  unique_connection_name, suggest_keep_both_path, Stat, file, fails, path_exists_as_file,
  find_keep_both_path,
}
use zfiles.FileOperations.Names.Free.{
  FirstFree, unique_sibling_name-free, unique_connection_name-free, find_keep_both_path-free,
}
use zfiles.FileOperations.Paste.{
  cut, FileEntry, stop, replace, PasteOptions, done, other_error, perform_paste, state_of,
}
use zfiles.FileOperations.Paste.Account.{Accounted, done_paths, Ended, perform_paste-Accounted}

abbrev names : List Text
names = codes "a.txt" ∷ codes "a (1).txt" ∷ []

unique_sibling_name-free_example :
    (name : Text) × (unique_sibling_name (codes "a.txt") names ≡ some name)
    × (¬ In name names)
    × ((name ≡ codes "a.txt")
        ⊎ (In (codes "a.txt") names
            × FirstFree
                (numbered (stem_of (codes "a.txt")) (ext_of (codes "a.txt")))
                1
                (λ j. In (numbered (stem_of (codes "a.txt")) (ext_of (codes "a.txt")) j) names)
                name))
unique_sibling_name-free_example = unique_sibling_name-free (codes "a.txt") names

second_copy : unique_sibling_name (codes "a.txt") names ≡ some (codes "a (2).txt")
unfolding unique_sibling_name
second_copy = refl

abbrev lower : ℕ → ℕ
lower c = if leb 65 c && leb c 90 then c + 32 else c

map-append : (s t : Text) → map lower (s ++ t) ≡ map lower s ++ map lower t
map-append [] t = refl
map-append (c ∷ s) t = ap (λ r. lower c ∷ r) (map-append s t)

lower_digit : (d : ℕ) → d < 10 → lower (48 + d) ≡ 48 + d
lower_digit d h = ground arith

map-digits_before :
    (f n : ℕ) (s : Text) → map lower (digits_before f n s) ≡ digits_before f n (map lower s)
unfolding digits_before
map-digits_before zero n s = refl
map-digits_before (suc f) n s = elim (Bool-cases (ltb n 10)) [
  | inl e ↦ rw e (ap (λ c. c ∷ map lower s) (lower_digit n (ltb→lt n 10 e)))
  | inr e ↦ rw e (
      map-digits_before f (n / 10) ((48 + n % 10) ∷ s)
      ∙ ap (λ c. digits_before f (n / 10) (c ∷ map lower s)) (lower_digit (n % 10) (omega arith)))
]

lower-suffixed : (s : Text) (n : ℕ) → map lower (suffixed s n) ≡ suffixed (map lower s) n
unfolding suffixed show_number
lower-suffixed s n =
    map-append s (32 ∷ show_number n)
    ∙ ap (λ r. map lower s ++ (32 ∷ r)) (map-digits_before (suc n) n [])

abbrev taken : List Text
taken = codes "Main" ∷ codes "main 2 " ∷ []

unique_connection_name-free_example :
    (name : Text) × (unique_connection_name (map lower) (codes " main") taken ≡ some name)
    × (¬ In (map lower name) (map (λ t. map lower (trim t)) taken))
    × ((name ≡ base_or_fallback (codes " main"))
        ⊎ (In (map lower (base_or_fallback (codes " main"))) (map (λ t. map lower (trim t)) taken)
            × FirstFree
                (suffixed (base_or_fallback (codes " main")))
                2
                (λ j.
                  In
                    (map lower (suffixed (base_or_fallback (codes " main")) j))
                    (map (λ t. map lower (trim t)) taken))
                name))
unique_connection_name-free_example =
    unique_connection_name-free (map lower) (codes " main") taken lower-suffixed

third_connection : unique_connection_name (map lower) (codes " main") taken ≡ some (codes "main 3")
unfolding unique_connection_name
third_connection = refl

abbrev stat : Text → Stat
stat p = if text_eq p (codes "d/b (1)") then file else fails

find_keep_both_path-free_example :
    ((find_keep_both_path stat (codes "d/b") ≡ none) ↔ (
      (j : ℕ)
      → 1 ≤ j
      → j < 10000
      → path_exists_as_file stat (suggest_keep_both_path (codes "d/b") j) ≡ true))
    × ((find_keep_both_path stat (codes "d/b") ≡ some (codes "d/b (2)")) ↔ (
        (k : ℕ) × (1 ≤ k)
        × (k < 10000)
        × (codes "d/b (2)" ≡ suggest_keep_both_path (codes "d/b") k)
        × (path_exists_as_file stat (codes "d/b (2)") ≡ false)
        × ((j : ℕ)
            → 1 ≤ j
            → j < k
            → path_exists_as_file stat (suggest_keep_both_path (codes "d/b") j) ≡ true)))
find_keep_both_path-free_example = find_keep_both_path-free stat (codes "d/b") (codes "d/b (2)")

keep_second : find_keep_both_path stat (codes "d/b") ≡ some (codes "d/b (2)")
unfolding find_keep_both_path
keep_second = refl

abbrev entry : Text → Bool → FileEntry
entry name is_dir = record { name = name; path = codes "d/" ++ name; is_dir = is_dir }

-- Three files are pasted into `d`, which has the first one; the backend refuses the second one.
abbrev options : PasteOptions
options = record {
  run_action = λ events params. if text_eq params.path (codes "s/b") then other_error else done;
  ask_conflict = λ events request. replace;
  clipboard = record { operation = cut; paths = codes "s/a" ∷ codes "s/b" ∷ codes "s/c" ∷ [] };
  dest_dir = codes "d";
  listing_entries = entry (codes "a") false ∷ [];
  all_entries_by_path = [];
  batch_on_error = stop;
}

perform_paste-Accounted_example :
    (seen : List Text) × (rest : List Text) × (options.clipboard.paths ≡ seen ++ rest)
    × Accounted seen
        (state_of (perform_paste options)).succeeded
        (state_of (perform_paste options)).failed
    × (done_paths (state_of (perform_paste options)).events
        ≡ (state_of (perform_paste options)).succeeded)
    × Ended options.batch_on_error (perform_paste options) rest
perform_paste-Accounted_example = perform_paste-Accounted options

stopped : (state_of (perform_paste options)).failed ≡ codes "s/b" ∷ []
unfolding perform_paste is_descendant_path lookup assign basename parent_explorer_path
    join_explorer_path
stopped = refl
