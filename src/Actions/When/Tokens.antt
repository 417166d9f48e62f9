-- ===== src/Actions/When/Tokens.antt =====
-- The tokens of a when-clause, read off its text.
use zfiles.Common.{
  ℕ, zero, suc, Bool, true, false, ◌&&◌, ◌||◌, not, List, [], ◌∷◌, Option, none, some, Text,
  if◌then◌else◌, length, leb, ◌==◌, is_space, drop_while, drop, is_empty, trim,
}
use zfiles.Actions.When.Values.{ContextKeys, to_number, eq, ne, gt, ge, lt, le}
use zfiles.Actions.When.Parser.{
  Op, or_op, and_op, not_op, comparator, Token, ident, num, str, op, lparen, rparen, ok, thrown,
  unexpected_character, out_of_fuel, Outcome, ◌>>=◌, parse,
}

unfoldable pub take_while : (ℕ → Bool) → Text → Text
take_while p [] = []
take_while p (c ∷ s) = let rest = take_while p s in if p c then c ∷ rest else []

unfoldable pub is_digit : ℕ → Bool
is_digit c = leb 48 c && leb c 57

unfoldable pub is_number_char : ℕ → Bool
unfolding is_digit
is_number_char c = is_digit c || (c == 46)

unfoldable pub is_ident_char : ℕ → Bool
unfolding is_digit
is_ident_char c =
    is_digit c
    || (leb 65 c && leb c 90)
    || (leb 97 c && leb c 122)
    || (c == 46)
    || (c == 95)
    || (c == 45)

unfoldable pub is_quote : ℕ → Bool
is_quote c = (c == 39) || (c == 34)

-- The two operators of two like characters.
unfoldable pub doubled_op : ℕ → ℕ → Option Op
doubled_op c d =
    if (c == 38) && (d == 38)
    then some and_op
    else if (c == 124) && (d == 124)
    then some or_op
    else none

-- The operators that end in `=`.
unfoldable pub equals_op : ℕ → ℕ → Option Op
equals_op c d =
    if not (d == 61)
    then none
    else if c == 61
    then some (comparator eq)
    else if c == 33
    then some (comparator ne)
    else if c == 62
    then some (comparator ge)
    else if c == 60
    then some (comparator le)
    else none

unfoldable pub two_char_op : Text → Option Op
unfolding doubled_op equals_op
two_char_op [] = none
two_char_op (c ∷ []) = none
two_char_op (c ∷ d ∷ s) = elim (doubled_op c d) [ some o ↦ some o | none ↦ equals_op c d ]

unfoldable pub one_char_op : ℕ → Option Op
one_char_op c =
    if c == 33
    then some not_op
    else if c == 62
    then some (comparator gt)
    else if c == 60
    then some (comparator lt)
    else none

abbrev pub Reading : Type 0
Reading = Outcome (Option Token × Text)

unfoldable pub read_ident : Text → Reading
unfolding take_while drop_while is_ident_char
read_ident s =
    if is_empty (take_while is_ident_char s)
    then thrown unexpected_character
    else ok (some (ident (take_while is_ident_char s)), drop_while is_ident_char s)

unfoldable pub read_op : ℕ → Text → Reading
unfolding two_char_op one_char_op read_ident
read_op c s = elim (two_char_op (c ∷ s)) [
  | some o ↦ ok (some (op o), drop 1 s)
  | none ↦ elim (one_char_op c) [ some o ↦ ok (some (op o), s) | none ↦ read_ident (c ∷ s) ]
]

-- A string ends at its quote, or at the end of the text.
unfoldable pub read_string : ℕ → Text → Reading
unfolding take_while drop_while
read_string quote s = ok (
  some (str (take_while (λ c. not (c == quote)) s)),
  drop 1 (drop_while (λ c. not (c == quote)) s),
)

unfoldable pub read_number : Text → Reading
unfolding take_while drop_while is_number_char
read_number s =
    ok (some (num (to_number (take_while is_number_char s))), drop_while is_number_char s)

-- One round of the loop in `tokenize`: white space gives no token.
unfoldable pub read_token : ℕ → Text → Reading
unfolding is_space is_quote is_digit read_string read_number read_op
read_token c s =
    if is_space c
    then ok (none, s)
    else if c == 40
    then ok (some lparen, s)
    else if c == 41
    then ok (some rparen, s)
    else if is_quote c
    then read_string c s
    else if is_digit c
    then read_number (c ∷ s)
    else read_op c s

unfoldable pub with_token : Option Token → List Token → List Token
with_token none ts = ts
with_token (some t) ts = t ∷ ts

unfoldable pub tokenize_from : ℕ → Text → Outcome (List Token)
unfolding read_token with_token
tokenize_from zero s = thrown out_of_fuel
tokenize_from (suc f) [] = ok []
tokenize_from (suc f) (c ∷ s) =
    read_token c s >>= λ (t, rest). tokenize_from f rest >>= λ ts. ok (with_token t ts)

-- Each round takes a character at least.
unfoldable pub tokenize : Text → Outcome (List Token)
unfolding tokenize_from
tokenize input = tokenize_from (suc (length input)) input

unfoldable pub parse_when_expression : Text → ContextKeys → Outcome Bool
unfolding tokenize parse
parse_when_expression expression context = tokenize expression >>= parse context

-- A clause that is not given, or is blank, holds; one that cannot be read does not.
unfoldable pub evaluate_when : Option Text → ContextKeys → Bool
unfolding parse_when_expression trim
evaluate_when none context = true
evaluate_when (some expression) context =
    if is_empty (trim expression)
    then true
    else elim (parse_when_expression expression context) [ ok b ↦ b | thrown e ↦ false ]
