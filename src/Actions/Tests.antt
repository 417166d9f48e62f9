-- ===== src/Actions/Tests.antt =====
-- When-clauses on a page with two selected entries.
use zfiles.Common.{
  ◌≡◌, ◌≢◌, ◌↔◌, ◌⊎◌, refl, true, false, List, [], ◌∷◌, map, some, codes, text_eq, if◌then◌else◌,
  is_empty, trim, All,
}
use zfiles.Actions.When.Values.{
  compare_values, ident_value, to_number, ContextKeys, undefined, number, decimal, truthy, ge,
}
use zfiles.Actions.When.Parser.{
  parse_or, match_and, match_or, match_close, Token, ident, num, op, and_op, not_op, comparator, ok,
  thrown, out_of_fuel, parse,
}
use zfiles.Actions.When.Grammar.{
  Disjunction, any_of, no_disjuncts, all_of, and_also, no_conjuncts, negated, alone, compared,
  lit_number, name, emit_or, value_or,
}
use zfiles.Actions.When.Grammar.Sound.{parse-ne-out_of_fuel, parse-eq-ok_iff}
use zfiles.Actions.When.Tokens.{
  is_digit, is_ident_char, is_number_char, tokenize, parse_when_expression, evaluate_when,
}
use zfiles.Actions.When.Lexemes.{Lexeme, word, numeral, operator, IsLexeme, token_of, spell}
use zfiles.Actions.When.Reading.{
  tokenize-ne-out_of_fuel, tokenize-spell, parse_when_expression-spell, evaluate_when-eq-true_iff,
}

abbrev context : ContextKeys
context key = if text_eq key (codes "n") then number (decimal 2 1) else undefined

-- `n >= 1 && !b`
abbrev clause : List Lexeme
clause =
    word (codes "n")
    ∷ operator (comparator ge)
    ∷ numeral (codes "1")
    ∷ operator and_op
    ∷ operator not_op
    ∷ word (codes "b")
    ∷ []

abbrev tokens : List Token
tokens =
    ident (codes "n")
    ∷ op (comparator ge)
    ∷ num (decimal 1 1)
    ∷ op and_op
    ∷ op not_op
    ∷ ident (codes "b")
    ∷ []

abbrev syntax : Disjunction
syntax =
    any_of
      (all_of (compared (name (codes "n")) ge (lit_number (decimal 1 1)))
        (and_also (negated (alone (name (codes "b")))) no_conjuncts))
      no_disjuncts

clause-IsLexeme : All IsLexeme clause
unfolding is_digit is_ident_char is_number_char
clause-IsLexeme =
    ((refl, (refl, tt)), (tt, ((refl, (refl, tt)), (tt, (tt, ((refl, (refl, tt)), tt))))))

parse-ne-out_of_fuel_example : parse context tokens ≢ thrown out_of_fuel
parse-ne-out_of_fuel_example = parse-ne-out_of_fuel context tokens

parse-eq-ok_iff_example :
    (parse context tokens ≡ ok true)
    ↔ ((d : Disjunction) × (tokens ≡ emit_or d) × (true ≡ truthy (value_or context d)))
parse-eq-ok_iff_example = parse-eq-ok_iff context tokens true

tokenize-ne-out_of_fuel_example : tokenize (codes "n >= 1 && !b") ≢ thrown out_of_fuel
tokenize-ne-out_of_fuel_example = tokenize-ne-out_of_fuel (codes "n >= 1 && !b")

tokenize-spell_example : tokenize (spell clause) ≡ ok (map token_of clause)
tokenize-spell_example = tokenize-spell clause clause-IsLexeme

same_tokens : map token_of clause ≡ emit_or syntax
unfolding token_of emit_or to_number
same_tokens = refl

parse_when_expression-spell_example :
    parse_when_expression (spell clause) context ≡ ok (truthy (value_or context syntax))
parse_when_expression-spell_example =
    parse_when_expression-spell clause syntax context clause-IsLexeme same_tokens

evaluate_when-eq-true_iff_example : (evaluate_when (some (codes "n >= 1 && !b")) context ≡ true) ↔ (
    (is_empty (trim (codes "n >= 1 && !b")) ≡ true)
    ⊎ ((d : Disjunction) × (tokenize (codes "n >= 1 && !b") ≡ ok (emit_or d))
        × (truthy (value_or context d) ≡ true)))
evaluate_when-eq-true_iff_example = evaluate_when-eq-true_iff (codes "n >= 1 && !b") context

two_selected : evaluate_when (some (codes "n >= 1 && !b")) context ≡ true
unfolding evaluate_when parse_or match_and match_or match_close truthy compare_values ident_value
    to_number
two_selected = refl

-- `&&` binds more tightly than `||`.
precedence : evaluate_when (some (codes "n || b && b")) context ≡ true
unfolding evaluate_when parse_or match_and match_or match_close truthy compare_values ident_value
    to_number
precedence = refl

grouped : evaluate_when (some (codes "(n || b) && b")) context ≡ false
unfolding evaluate_when parse_or match_and match_or match_close truthy compare_values ident_value
    to_number
grouped = refl

-- A clause that cannot be read does not hold, and a blank one does.
unreadable : evaluate_when (some (codes "n &")) context ≡ false
unfolding evaluate_when parse_or match_and match_or match_close truthy compare_values ident_value
    to_number
unreadable = refl

blank : evaluate_when (some (codes "  ")) context ≡ true
unfolding evaluate_when parse_or match_and match_or match_close truthy compare_values ident_value
    to_number
blank = refl
