-- ===== src/Actions/When/Grammar.antt =====
-- When-clauses as a language: their syntax by precedence, its tokens and its meaning.
pub mod Reads
pub mod Sound
use zfiles.Common.{Bool, true, false, ◌&&◌, ◌||◌, not, List, [], ◌∷◌, ◌++◌, Text}
use zfiles.Actions.When.Values.{
  Number, Value, number, string, boolean, Comparator, ContextKeys, truthy, compare_values,
  ident_value,
}
use zfiles.Actions.When.Parser.{
  Op, or_op, and_op, not_op, comparator, Token, ident, num, str, op, lparen, rparen,
}

mutual
  pub data Disjunction : Type 0 where
    any_of : Conjunction → Disjuncts → Disjunction

  pub data Disjuncts : Type 0 where
    no_disjuncts : Disjuncts
    or_else : Conjunction → Disjuncts → Disjuncts

  pub data Conjunction : Type 0 where
    all_of : Negation → Conjuncts → Conjunction

  pub data Conjuncts : Type 0 where
    no_conjuncts : Conjuncts
    and_also : Negation → Conjuncts → Conjuncts

  pub data Negation : Type 0 where
    negated : Negation → Negation
    alone : Primary → Negation
    compared : Primary → Comparator → Primary → Negation

  pub data Primary : Type 0 where
    lit_number : Number → Primary
    lit_string : Text → Primary
    name : Text → Primary
    group : Disjunction → Primary

unfoldable mutual
  pub emit_or : Disjunction → List Token
  emit_or (any_of a more) = emit_and a ++ emit_ors more

  pub emit_ors : Disjuncts → List Token
  emit_ors no_disjuncts = []
  emit_ors (or_else a more) = op or_op ∷ (emit_and a ++ emit_ors more)

  pub emit_and : Conjunction → List Token
  emit_and (all_of a more) = emit_unary a ++ emit_ands more

  pub emit_ands : Conjuncts → List Token
  emit_ands no_conjuncts = []
  emit_ands (and_also a more) = op and_op ∷ (emit_unary a ++ emit_ands more)

  pub emit_unary : Negation → List Token
  emit_unary (negated n) = op not_op ∷ emit_unary n
  emit_unary (alone p) = emit_primary p
  emit_unary (compared l o r) = emit_primary l ++ (op (comparator o) ∷ emit_primary r)

  pub emit_primary : Primary → List Token
  emit_primary (lit_number n) = num n ∷ []
  emit_primary (lit_string s) = str s ∷ []
  emit_primary (name s) = ident s ∷ []
  emit_primary (group d) = lparen ∷ (emit_or d ++ (rparen ∷ []))

-- A chain of one member has its member's value, which need not be a truth value.
unfoldable mutual
  pub value_or : ContextKeys → Disjunction → Value
  value_or c (any_of a more) = value_ors c (value_and c a) more

  pub value_ors : ContextKeys → Value → Disjuncts → Value
  value_ors c v no_disjuncts = v
  value_ors c v (or_else a more) = value_ors c (boolean (truthy v || truthy (value_and c a))) more

  pub value_and : ContextKeys → Conjunction → Value
  value_and c (all_of a more) = value_ands c (value_unary c a) more

  pub value_ands : ContextKeys → Value → Conjuncts → Value
  value_ands c v no_conjuncts = v
  value_ands c v (and_also a more) =
      value_ands c (boolean (truthy v && truthy (value_unary c a))) more

  pub value_unary : ContextKeys → Negation → Value
  value_unary c (negated n) = boolean (not (truthy (value_unary c n)))
  value_unary c (alone p) = value_primary c p
  value_unary c (compared l o r) =
      boolean (compare_values (value_primary c l) (value_primary c r) o)

  pub value_primary : ContextKeys → Primary → Value
  value_primary c (lit_number n) = number n
  value_primary c (lit_string s) = string s
  value_primary c (name s) = ident_value c s
  value_primary c (group d) = value_or c d
