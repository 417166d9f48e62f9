-- ===== src/Actions/When/Grammar/Reads.antt =====
-- The parser on the tokens of a when-clause.
use zfiles.Common.{
  ℕ, zero, suc, ◌+◌, ◌*◌, ◌<◌, ◌≡◌, refl, ap, ◌∙◌, ◌||◌, ◌&&◌, List, [], ◌∷◌, ◌++◌, arith, length,
  length-append, append_assoc, append-nil,
}
use zfiles.Actions.When.Values.{Value, ContextKeys, truthy, boolean}
use zfiles.Actions.When.Parser.{
  or_op, and_op, comparator, Token, op, rparen, ok, Outcome, parse_or, or_loop, parse_and, and_loop,
  parse_unary, compare_next, parse_primary, match_or, match_and, match_close, parse, ◌>>=◌,
}
use zfiles.Actions.When.Grammar.{
  Disjunction, any_of, Disjuncts, no_disjuncts, no_conjuncts, or_else, Conjunction, all_of,
  Conjuncts, and_also, Negation, negated, alone, compared, Primary, lit_number, lit_string, name,
  group, emit_or, emit_ors, emit_and, emit_ands, emit_unary, emit_primary, value_or, value_ors,
  value_and, value_ands, value_unary, value_primary,
}

-- How tightly the operator at the front binds to what stands before it.
pub binding : List Token → ℕ
binding (op or_op ∷ ts) = 1
binding (op and_op ∷ ts) = 2
binding (op (comparator o) ∷ ts) = 3
binding _ = 0

pub length-append_tokens : (xs ys : List Token) → length (xs ++ ys) ≡ length xs + length ys
length-append_tokens = length-append

binding-emit_ands :
    (more : Conjuncts) (rest : List Token) → binding rest < 2 → binding (emit_ands more ++ rest) < 3
unfolding emit_ands binding
binding-emit_ands no_conjuncts rest b = omega arith
binding-emit_ands (and_also a more) rest b = omega arith

binding-emit_ors :
    (more : Disjuncts) (rest : List Token) → binding rest < 1 → binding (emit_ors more ++ rest) < 2
unfolding emit_ors binding
binding-emit_ors no_disjuncts rest b = omega arith
binding-emit_ors (or_else a more) rest b = omega arith

ruleset lengths = (arith, length-append_tokens)

-- Nothing that stops a chain is read on.
or_loop_stops :
    (f : ℕ) (c : ContextKeys) (v : Value) (ts : List Token)
    → 0 < f
    → binding ts < 1
    → or_loop f c v ts ≡ ok (v, ts)
unfolding or_loop match_or binding
or_loop_stops zero c v ts h b = absurd (omega arith)
or_loop_stops (suc f) c v ts h b = ground arith

and_loop_stops :
    (f : ℕ) (c : ContextKeys) (v : Value) (ts : List Token)
    → 0 < f
    → binding ts < 2
    → and_loop f c v ts ≡ ok (v, ts)
unfolding and_loop match_and binding
and_loop_stops zero c v ts h b = absurd (omega arith)
and_loop_stops (suc f) c v ts h b = ground arith

compare_next_stops :
    (f : ℕ) (c : ContextKeys) (v : Value) (ts : List Token)
    → 0 < f
    → binding ts < 3
    → compare_next f c v ts ≡ ok (v, ts)
unfolding compare_next binding
compare_next_stops zero c v ts h b = absurd (omega arith)
compare_next_stops (suc f) c v ts h b = ground arith

-- What is not a negation is read as a comparison.
parse_unary-emit_primary :
    (f : ℕ) (c : ContextKeys) (p : Primary) (rest : List Token)
    → parse_unary (suc f) c (emit_primary p ++ rest)
      ≡ (parse_primary f c (emit_primary p ++ rest) >>= λ (left, more). compare_next f c left more)
unfolding parse_unary emit_primary
parse_unary-emit_primary f c (lit_number n) rest = refl
parse_unary-emit_primary f c (lit_string s) rest = refl
parse_unary-emit_primary f c (name s) rest = refl
parse_unary-emit_primary f c (group d) rest = refl

module _ (c : ContextKeys) where
  -- With enough fuel `p` reads the tokens off the front, where nothing binds on that tightly.
  abbrev Reads :
      (ℕ → List Token → Outcome (Value × List Token)) → ℕ → ℕ → List Token → Value → Type 0
  Reads p spare level ts v =
      (f : ℕ) (rest : List Token)
      → binding rest < level
      → 6 * length ts + spare < f
      → p f (ts ++ rest) ≡ ok (v, rest)

  mutual
    unfolding parse_or match_or match_and match_close emit_or value_or binding

    parse_or_lem : (d : Disjunction) → Reads (λ f. parse_or f c) 4 1 (emit_or d) (value_or c d)
    parse_or_lem d zero rest b h = absurd (omega arith)
    parse_or_lem (any_of a more) (suc f) rest b h = simp (
      append_assoc,
      parse_and_lem a f (emit_ors more ++ rest) (binding-emit_ors more rest b) (omega lengths),
      parse_ors_lem (value_and c a) more f rest b (omega lengths),
    )

    parse_ors_lem :
        (v : Value) (more : Disjuncts)
        → Reads (λ f ts. or_loop f c v ts) 1 1 (emit_ors more) (value_ors c v more)
    parse_ors_lem v more zero rest b h = absurd (omega arith)
    parse_ors_lem v no_disjuncts (suc f) rest b h = or_loop_stops (suc f) c v rest (omega arith) b
    parse_ors_lem v (or_else a more) (suc f) rest b h = simp (
      append_assoc,
      parse_and_lem a f (emit_ors more ++ rest) (binding-emit_ors more rest b) (omega lengths),
      parse_ors_lem (boolean (truthy v || truthy (value_and c a))) more f rest b (omega lengths),
    )

    parse_and_lem : (a : Conjunction) → Reads (λ f. parse_and f c) 3 2 (emit_and a) (value_and c a)
    parse_and_lem a zero rest b h = absurd (omega arith)
    parse_and_lem (all_of a more) (suc f) rest b h = simp (
      append_assoc,
      parse_unary_lem a f (emit_ands more ++ rest) (binding-emit_ands more rest b) (omega lengths),
      parse_ands_lem (value_unary c a) more f rest b (omega lengths),
    )

    parse_ands_lem :
        (v : Value) (more : Conjuncts)
        → Reads (λ f ts. and_loop f c v ts) 1 2 (emit_ands more) (value_ands c v more)
    parse_ands_lem v more zero rest b h = absurd (omega arith)
    parse_ands_lem v no_conjuncts (suc f) rest b h = and_loop_stops (suc f) c v rest (omega arith) b
    parse_ands_lem v (and_also a more) (suc f) rest b h = simp (
      append_assoc,
      parse_unary_lem a f (emit_ands more ++ rest) (binding-emit_ands more rest b) (omega lengths),
      parse_ands_lem (boolean (truthy v && truthy (value_unary c a))) more f rest b (omega lengths),
    )

    parse_unary_lem :
        (n : Negation) → Reads (λ f. parse_unary f c) 2 3 (emit_unary n) (value_unary c n)
    parse_unary_lem n zero rest b h = absurd (omega arith)
    parse_unary_lem (negated n) (suc f) rest b h =
        rw (parse_unary_lem n f rest b (omega arith)) refl
    parse_unary_lem (alone p) (suc f) rest b h =
        parse_unary-emit_primary f c p rest
        ∙ rw (parse_primary_lem p f rest (omega arith) (omega arith))
            (compare_next_stops f c (value_primary c p) rest (omega arith) b)
    parse_unary_lem (compared l o r) (suc zero) rest b h = absurd (omega lengths)
    parse_unary_lem (compared l o r) (suc (suc f)) rest b h =
        ap (λ ts. parse_unary (suc (suc f)) c ts)
          (append_assoc (emit_primary l) (op (comparator o) ∷ emit_primary r) rest)
        ∙ parse_unary-emit_primary (suc f) c l (op (comparator o) ∷ (emit_primary r ++ rest))
        ∙ rw
            (
              parse_primary_lem l (suc f) (op (comparator o) ∷ (emit_primary r ++ rest))
                  (omega arith) (omega lengths),
              parse_primary_lem r f rest (omega arith) (omega lengths),
            )
            refl

    parse_primary_lem :
        (p : Primary) → Reads (λ f. parse_primary f c) 0 4 (emit_primary p) (value_primary c p)
    parse_primary_lem p zero rest b h = absurd (omega arith)
    parse_primary_lem (lit_number n) (suc f) rest b h = refl
    parse_primary_lem (lit_string s) (suc f) rest b h = refl
    parse_primary_lem (name s) (suc f) rest b h = refl
    parse_primary_lem (group d) (suc f) rest b h =
        rw
          (
            append_assoc (emit_or d) (rparen ∷ []) rest,
            parse_or_lem d f (rparen ∷ rest) (omega arith) (omega lengths),
          )
          refl

-- The tokens of a when-clause parse to its value.
pub parse-emit_or :
    (c : ContextKeys) (d : Disjunction) → parse c (emit_or d) ≡ ok (truthy (value_or c d))
unfolding parse binding
parse-emit_or c d =
    let whole = parse_or_lem c d (6 * length (emit_or d) + 6) [] (omega arith) (omega arith) in
    rw (rw append-nil at whole) refl
