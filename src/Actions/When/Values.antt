-- ===== src/Actions/When/Values.antt =====
-- The values of when-clauses: what is compared and what counts as true.
use zfiles.Common.{
  digits_value, ℕ, ◌*◌, Bool, true, false, not, List, [], ◌∷◌, ◌++◌, Text, text_eq, is_empty, split,
  if◌then◌else◌, ltb, leb, ◌==◌, codes,
}

-- What `Number` makes of digits and points: a decimal fraction, or NaN.
pub data Number : Type 0 where
  nan : Number
  decimal : (num den : ℕ) → Number

pub data Value : Type 0 where
  undefined : Value
  boolean : Bool → Value
  number : Number → Value
  string : Text → Value
  strings : List Text → Value

pub data Comparator : Type 0 where
  eq : Comparator
  ne : Comparator
  gt : Comparator
  ge : Comparator
  lt : Comparator
  le : Comparator

-- `getContextValue`, at the keys that the page has set.
abbrev pub ContextKeys : Type 0
ContextKeys = Text → Value

unfoldable pub power_of_ten : Text → ℕ
power_of_ten [] = 1
power_of_ten (c ∷ s) = 10 * power_of_ten s

-- `Number` of the parts between the points.
unfoldable pub number_of_parts : List Text → Number
unfolding digits_value power_of_ten
number_of_parts [] = nan
number_of_parts (whole ∷ []) = decimal (digits_value 0 whole) 1
number_of_parts (whole ∷ fraction ∷ []) =
    decimal (digits_value 0 (whole ++ fraction)) (power_of_ten fraction)
number_of_parts (whole ∷ fraction ∷ more ∷ parts) = nan

unfoldable pub to_number : Text → Number
unfolding number_of_parts
to_number lexeme = number_of_parts (split 46 lexeme)

unfoldable pub is_zero : Number → Bool
is_zero nan = false
is_zero (decimal num den) = num == 0

-- A number counts by `value !== 0`, which NaN meets.
unfoldable pub truthy : Value → Bool
unfolding is_zero
truthy undefined = false
truthy (boolean b) = b
truthy (number n) = not (is_zero n)
truthy (string s) = not (is_empty s)
truthy (strings []) = false
truthy (strings (x ∷ xs)) = true

unfoldable pub compare_decimals : ℕ → ℕ → Comparator → Bool
compare_decimals l r eq = l == r
compare_decimals l r ne = not (l == r)
compare_decimals l r gt = ltb r l
compare_decimals l r ge = leb r l
compare_decimals l r lt = ltb l r
compare_decimals l r le = leb l r

-- Nothing holds of NaN but that it differs.
unfoldable pub compare_nan : Comparator → Bool
compare_nan c = elim c [ ne ↦ true | _ ↦ false ]

unfoldable pub compare_numbers : Number → Number → Comparator → Bool
unfolding compare_decimals compare_nan
compare_numbers nan r c = compare_nan c
compare_numbers (decimal a b) nan c = compare_nan c
compare_numbers (decimal a b) (decimal d e) c = compare_decimals (a * e) (d * b) c

-- Texts and truth values can be told apart, not ordered.
unfoldable pub compare_same : Bool → Comparator → Bool
compare_same same eq = same
compare_same same ne = not same
compare_same same gt = false
compare_same same ge = false
compare_same same lt = false
compare_same same le = false

unfoldable pub bool_eq : Bool → Bool → Bool
bool_eq true b = b
bool_eq false b = not b

unfoldable pub compare_values : Value → Value → Comparator → Bool
unfolding compare_numbers compare_same bool_eq
compare_values (number l) (number r) c = compare_numbers l r c
compare_values (string l) (string r) c = compare_same (text_eq l r) c
compare_values (boolean l) (boolean r) c = compare_same (bool_eq l r) c
compare_values _ _ c = false

-- An identifier: a truth value, or what the page says of the key.
unfoldable pub ident_value : ContextKeys → Text → Value
ident_value context name =
    if text_eq name (codes "true")
    then boolean true
    else if text_eq name (codes "false")
    then boolean false
    else context name
