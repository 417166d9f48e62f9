-- ===== src/Actions/When/Parser.antt =====
-- The recursive descent over the tokens. It evaluates as it reads, and both sides of `&&` and `||`
-- are read whatever the left one is.
use zfiles.Common.{
  ℕ, zero, suc, ◌+◌, ◌*◌, Bool, true, false, ◌&&◌, ◌||◌, not, List, [], ◌∷◌, Text, if◌then◌else◌,
  length,
}
use zfiles.Actions.When.Values.{
  Number, Value, number, string, boolean, Comparator, ContextKeys, truthy, compare_values,
  ident_value,
}

pub data Op : Type 0 where
  or_op : Op
  and_op : Op
  not_op : Op
  comparator : Comparator → Op

pub data Token : Type 0 where
  ident : Text → Token
  num : Number → Token
  str : Text → Token
  op : Op → Token
  lparen : Token
  rparen : Token

-- What the source throws; `out_of_fuel` has no counterpart there.
pub data ParseError : Type 0 where
  unexpected_character : ParseError
  trailing_tokens : ParseError
  end_of_expression : ParseError
  closing_parenthesis : ParseError
  unexpected_token : ParseError
  out_of_fuel : ParseError

pub data Outcome (A : Type 0) : Type 0 where
  ok : A → Outcome A
  thrown : ParseError → Outcome A

infixl 5 ◌>>=◌
abbrev pub ◌>>=◌ : {A B : Type 0} → Outcome A → (A → Outcome B) → Outcome B
ok a >>= f = f a
thrown e >>= f = thrown e

-- `match(expected)` for an operator of the two loops and for `!`.
unfoldable pub match_or : List Token → Bool
match_or (op or_op ∷ rest) = true
match_or _ = false

unfoldable pub match_and : List Token → Bool
match_and (op and_op ∷ rest) = true
match_and _ = false

abbrev pub rest_of : List Token → List Token
rest_of [] = []
rest_of (t ∷ ts) = ts

unfoldable pub match_close : Value → List Token → Outcome (Value × List Token)
match_close v (rparen ∷ rest) = ok (v, rest)
match_close v _ = thrown closing_parenthesis

-- A call reads less than it is given, but not a structural part of it: each costs a unit of fuel.
unfoldable mutual
  pub parse_or : ℕ → ContextKeys → List Token → Outcome (Value × List Token)
  parse_or zero c ts = thrown out_of_fuel
  parse_or (suc f) c ts = parse_and f c ts >>= λ (v, rest). or_loop f c v rest

  pub or_loop : ℕ → ContextKeys → Value → List Token → Outcome (Value × List Token)
  or_loop zero c v ts = thrown out_of_fuel
  or_loop (suc f) c v ts =
      let more = parse_and f c (rest_of ts) >>= λ (r, rest).
      or_loop f c (boolean (truthy v || truthy r)) rest in
      if match_or ts then more else ok (v, ts)

  pub parse_and : ℕ → ContextKeys → List Token → Outcome (Value × List Token)
  parse_and zero c ts = thrown out_of_fuel
  parse_and (suc f) c ts = parse_unary f c ts >>= λ (v, rest). and_loop f c v rest

  pub and_loop : ℕ → ContextKeys → Value → List Token → Outcome (Value × List Token)
  and_loop zero c v ts = thrown out_of_fuel
  and_loop (suc f) c v ts =
      let more = parse_unary f c (rest_of ts) >>= λ (r, rest).
      and_loop f c (boolean (truthy v && truthy r)) rest in
      if match_and ts then more else ok (v, ts)

  pub parse_unary : ℕ → ContextKeys → List Token → Outcome (Value × List Token)
  parse_unary zero c ts = thrown out_of_fuel
  parse_unary (suc f) c (op not_op ∷ ts) =
      parse_unary f c ts >>= λ (v, rest). ok (boolean (not (truthy v)), rest)
  parse_unary (suc f) c ts = parse_primary f c ts >>= λ (left, rest). compare_next f c left rest

  -- `parseComparison` after its first operand.
  pub compare_next : ℕ → ContextKeys → Value → List Token → Outcome (Value × List Token)
  compare_next zero c left ts = thrown out_of_fuel
  compare_next (suc f) c left (op (comparator o) ∷ ts) =
      parse_primary f c ts >>= λ (right, rest). ok (boolean (compare_values left right o), rest)
  compare_next (suc f) c left ts = ok (left, ts)

  pub parse_primary : ℕ → ContextKeys → List Token → Outcome (Value × List Token)
  parse_primary zero c ts = thrown out_of_fuel
  parse_primary (suc f) c [] = thrown end_of_expression
  parse_primary (suc f) c (num n ∷ ts) = ok (number n, ts)
  parse_primary (suc f) c (str s ∷ ts) = ok (string s, ts)
  parse_primary (suc f) c (ident name ∷ ts) = ok (ident_value c name, ts)
  parse_primary (suc f) c (lparen ∷ ts) = parse_or f c ts >>= λ (v, rest). match_close v rest
  parse_primary (suc f) c (op o ∷ ts) = thrown unexpected_token
  parse_primary (suc f) c (rparen ∷ ts) = thrown unexpected_token

unfoldable pub finish : Value → List Token → Outcome Bool
finish v [] = ok (truthy v)
finish v (t ∷ ts) = thrown trailing_tokens

-- `new Parser(tokens, context).parse()`.
unfoldable pub parse : ContextKeys → List Token → Outcome Bool
unfolding finish
parse context tokens =
    parse_or (6 * length tokens + 6) context tokens >>= λ (v, rest). finish v rest
