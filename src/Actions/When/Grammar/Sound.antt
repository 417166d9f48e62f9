-- ===== src/Actions/When/Grammar/Sound.antt =====
-- Whatever the parser reads is a when-clause, with the clause's value.
use zfiles.Common.{
  ℕ, zero, suc, ◌+◌, ◌*◌, ◌<◌, ◌≡◌, ◌≢◌, ◌↔◌, refl, sym, ap, ap₂, ◌∙◌, subst, Bool, true, false,
  ◌||◌, ◌&&◌, not, List, [], ◌∷◌, ◌++◌, arith, length, append_assoc, append-nil, if◌then◌else◌,
}
use zfiles.Actions.When.Values.{Value, ContextKeys, truthy, boolean, compare_values}
use zfiles.Actions.When.Parser.{
  or_op, and_op, not_op, comparator, Token, ident, num, str, op, lparen, rparen, ok, thrown,
  ParseError, out_of_fuel, Outcome, parse_or, or_loop, parse_and, and_loop, parse_unary,
  compare_next, parse_primary, match_or, match_and, match_close, rest_of, finish, parse, ◌>>=◌,
}
use zfiles.Actions.When.Grammar.{
  Disjunction, any_of, no_disjuncts, or_else, all_of, no_conjuncts, and_also, Negation, negated,
  alone, compared, Primary, lit_number, lit_string, name, group, emit_or, emit_ors, emit_and,
  emit_ands, emit_unary, emit_primary, value_or, value_ors, value_and, value_ands, value_unary,
  value_primary,
}
use zfiles.Actions.When.Grammar.Reads.{length-append_tokens, parse-emit_or}

ruleset lengths = (arith, length-append_tokens)

-- The outcome is an error of the source, or a value with the property.
pub data Ensures {A : Type 0} (P : A → Type 0) : Outcome A → Type 0 where
  holds : {a : A} → P a → Ensures P (ok a)
  refused : {e : ParseError} → e ≢ out_of_fuel → Ensures P (thrown e)

module _ {A B : Type 0} {P : A → Type 0} {Q : B → Type 0} where
  pub Ensures-bind :
      {r : Outcome A} {f : A → Outcome B}
      → Ensures P r
      → ((a : A) → P a → Ensures Q (f a))
      → Ensures Q (r >>= f)
  Ensures-bind (holds {a} h) k = k a h
  Ensures-bind (refused n) k = refused n

pub Ensures-map :
    {A : Type 0} {P Q : A → Type 0} {r : Outcome A}
    → Ensures P r
    → ((a : A) → P a → Q a)
    → Ensures Q r
Ensures-map (holds {a} h) k = holds (k a h)
Ensures-map (refused n) k = refused n

pub Ensures-ok :
    {A : Type 0} {P : A → Type 0} {r : Outcome A} {a : A} → Ensures P r → r ≡ ok a → P a
Ensures-ok {P = P} (holds h) e = subst P (cc) h
Ensures-ok (refused n) e = cc

pub Ensures-ne-out_of_fuel :
    {A : Type 0} {P : A → Type 0} {r : Outcome A} → Ensures P r → r ≢ thrown out_of_fuel
Ensures-ne-out_of_fuel (holds h) = cc
Ensures-ne-out_of_fuel (refused {e} n) = λ q. n (cc)

pub Ensures-if :
    {A : Type 0} {P : A → Type 0} (b : Bool) {x y : Outcome A}
    → (b ≡ true → Ensures P x)
    → Ensures P y
    → Ensures P (if b then x else y)
Ensures-if true hx hy = hx refl
Ensures-if false hx hy = hy

match_or-eq : (ts : List Token) → match_or ts ≡ true → ts ≡ op or_op ∷ rest_of ts
unfolding match_or
match_or-eq ts h = ground arith

match_and-eq : (ts : List Token) → match_and ts ≡ true → ts ≡ op and_op ∷ rest_of ts
unfolding match_and
match_and-eq ts h = ground arith

match_close-Ensures :
    (v : Value) (ts : List Token)
    → Ensures (λ (r : Value × List Token). (ts ≡ rparen ∷ r.1) × (r.0 ≡ v)) (match_close v ts)
unfolding match_close
match_close-Ensures v (rparen ∷ ts) = holds (refl, refl)
match_close-Ensures v _ = refused (cc)

module _ (c : ContextKeys) where
  -- A value and the tokens that are left, where those before them are an `X` with that value.
  abbrev Read :
      {X : Type 0} → (X → List Token) → (X → Value) → List Token → Value × List Token → Type 0
  Read {X} emit value ts r = (x : X) × (ts ≡ emit x ++ r.1) × (r.0 ≡ value x)

  mutual
    unfolding parse_or emit_or value_or

    parse_or-Ensures :
        (f : ℕ) (ts : List Token)
        → 6 * length ts + 4 < f
        → Ensures (Read emit_or (value_or c) ts) (parse_or f c ts)
    parse_or-Ensures zero ts h = absurd (omega arith)
    parse_or-Ensures (suc f) ts h =
        Ensures-bind (parse_and-Ensures f ts (omega arith)) λ (v, rest) (a, e, w).
          Ensures-map (or_loop-Ensures f v rest (omega (lengths, ap length e))) λ r (more, e', w').
            (
              any_of a more,
              e
                  ∙ ap (λ t. emit_and a ++ t) e'
                  ∙ sym (append_assoc (emit_and a) (emit_ors more) r.1),
              w' ∙ ap (λ u. value_ors c u more) w,
            )

    or_loop-Ensures :
        (f : ℕ) (v : Value) (ts : List Token)
        → 6 * length ts + 1 < f
        → Ensures (Read emit_ors (value_ors c v) ts) (or_loop f c v ts)
    or_loop-Ensures zero v ts h = absurd (omega arith)
    or_loop-Ensures (suc f) v ts h =
        Ensures-if (match_or ts)
          (λ m.
            let start = match_or-eq ts m in
            Ensures-bind (parse_and-Ensures f (rest_of ts) (omega (lengths, ap length start)))
              λ (u, rest) (a, e, w).
                Ensures-map
                  (or_loop-Ensures f (boolean (truthy v || truthy u)) rest
                    (omega (lengths, ap length start, ap length e)))
                  λ r (more, e', w'). (
                    or_else a more,
                    start
                        ∙ ap (λ t. op or_op ∷ t)
                            (e
                              ∙ ap (λ t. emit_and a ++ t) e'
                              ∙ sym (append_assoc (emit_and a) (emit_ors more) r.1)),
                    w' ∙ ap (λ u. value_ors c (boolean (truthy v || truthy u)) more) w,
                  ))
          (holds (no_disjuncts, refl, refl))

    parse_and-Ensures :
        (f : ℕ) (ts : List Token)
        → 6 * length ts + 3 < f
        → Ensures (Read emit_and (value_and c) ts) (parse_and f c ts)
    parse_and-Ensures zero ts h = absurd (omega arith)
    parse_and-Ensures (suc f) ts h =
        Ensures-bind (parse_unary-Ensures f ts (omega arith)) λ (v, rest) (a, e, w).
          Ensures-map (and_loop-Ensures f v rest (omega (lengths, ap length e))) λ r (more, e', w').
            (
              all_of a more,
              e
                  ∙ ap (λ t. emit_unary a ++ t) e'
                  ∙ sym (append_assoc (emit_unary a) (emit_ands more) r.1),
              w' ∙ ap (λ u. value_ands c u more) w,
            )

    and_loop-Ensures :
        (f : ℕ) (v : Value) (ts : List Token)
        → 6 * length ts + 1 < f
        → Ensures (Read emit_ands (value_ands c v) ts) (and_loop f c v ts)
    and_loop-Ensures zero v ts h = absurd (omega arith)
    and_loop-Ensures (suc f) v ts h =
        Ensures-if (match_and ts)
          (λ m.
            let start = match_and-eq ts m in
            Ensures-bind (parse_unary-Ensures f (rest_of ts) (omega (lengths, ap length start)))
              λ (u, rest) (a, e, w).
                Ensures-map
                  (and_loop-Ensures f (boolean (truthy v && truthy u)) rest
                    (omega (lengths, ap length start, ap length e)))
                  λ r (more, e', w'). (
                    and_also a more,
                    start
                        ∙ ap (λ t. op and_op ∷ t)
                            (e
                              ∙ ap (λ t. emit_unary a ++ t) e'
                              ∙ sym (append_assoc (emit_unary a) (emit_ands more) r.1)),
                    w' ∙ ap (λ u. value_ands c (boolean (truthy v && truthy u)) more) w,
                  ))
          (holds (no_conjuncts, refl, refl))

    parse_unary-Ensures :
        (f : ℕ) (ts : List Token)
        → 6 * length ts + 2 < f
        → Ensures (Read emit_unary (value_unary c) ts) (parse_unary f c ts)
    parse_unary-Ensures zero ts h = absurd (omega arith)
    parse_unary-Ensures (suc f) (op not_op ∷ ts) h =
        Ensures-bind (parse_unary-Ensures f ts (omega arith)) λ r (n, e, w).
          holds (negated n, ap (λ t. op not_op ∷ t) e, ap (λ u. boolean (not (truthy u))) w)
    parse_unary-Ensures (suc f) ts h =
        Ensures-bind (parse_primary-Ensures f ts (omega arith)) λ (v, rest) (l, e, w).
          Ensures-map (compare_next-Ensures f l v rest w (omega (lengths, ap length e)))
            λ r (n, e', w'). (n, e ∙ e', w')

    compare_next-Ensures :
        (f : ℕ) (l : Primary) (v : Value) (ts : List Token)
        → v ≡ value_primary c l
        → 6 * length ts + 1 < f
        → Ensures
            (λ (r : Value × List Token).
              (n : Negation) × (emit_primary l ++ ts ≡ emit_unary n ++ r.1)
              × (r.0 ≡ value_unary c n))
            (compare_next f c v ts)
    compare_next-Ensures zero l v ts w h = absurd (omega arith)
    compare_next-Ensures (suc f) l v (op (comparator o) ∷ ts) w h =
        Ensures-bind (parse_primary-Ensures f ts (omega arith)) λ r (p, e, w'). holds (
          compared l o p,
          ap (λ t. emit_primary l ++ (op (comparator o) ∷ t)) e
              ∙ sym (append_assoc (emit_primary l) (op (comparator o) ∷ emit_primary p) r.1),
          ap₂ (λ t u. boolean (compare_values t u o)) w w',
        )
    compare_next-Ensures (suc f) l v _ w h = holds (alone l, refl, w)

    parse_primary-Ensures :
        (f : ℕ) (ts : List Token)
        → 6 * length ts < f
        → Ensures (Read emit_primary (value_primary c) ts) (parse_primary f c ts)
    parse_primary-Ensures zero ts h = absurd (omega arith)
    parse_primary-Ensures (suc f) [] h = refused (cc)
    parse_primary-Ensures (suc f) (num n ∷ ts) h = holds (lit_number n, refl, refl)
    parse_primary-Ensures (suc f) (str s ∷ ts) h = holds (lit_string s, refl, refl)
    parse_primary-Ensures (suc f) (ident s ∷ ts) h = holds (name s, refl, refl)
    parse_primary-Ensures (suc f) (lparen ∷ ts) h =
        Ensures-bind (parse_or-Ensures f ts (omega arith)) λ (v, rest) (d, e, w).
          Ensures-map (match_close-Ensures v rest) λ r (e', w'). (
            group d,
            ap (λ t. lparen ∷ t)
                (e
                  ∙ ap (λ t. emit_or d ++ t) e'
                  ∙ sym (append_assoc (emit_or d) (rparen ∷ []) r.1)),
            w' ∙ w,
          )
    parse_primary-Ensures (suc f) (op o ∷ ts) h = refused (cc)
    parse_primary-Ensures (suc f) (rparen ∷ ts) h = refused (cc)

  finish-Ensures :
      (v : Value) (ts rest : List Token)
      → Read emit_or (value_or c) ts (v, rest)
      → Ensures
          (λ b. (d : Disjunction) × (ts ≡ emit_or d) × (b ≡ truthy (value_or c d)))
          (finish v rest)
  unfolding finish
  finish-Ensures v ts [] (d, e, w) = holds (d, e ∙ append-nil (emit_or d), ap truthy w)
  finish-Ensures v ts (t ∷ more) (d, e, w) = refused (cc)

  parse-Ensures :
      (ts : List Token)
      → Ensures
          (λ b. (d : Disjunction) × (ts ≡ emit_or d) × (b ≡ truthy (value_or c d)))
          (parse c ts)
  unfolding parse
  parse-Ensures ts =
      Ensures-bind (parse_or-Ensures (6 * length ts + 6) ts (omega arith))
        λ (v, rest) p. finish-Ensures v ts rest p

-- The fuel that `parse` is given lasts for every input.
pub parse-ne-out_of_fuel : (c : ContextKeys) (ts : List Token) → parse c ts ≢ thrown out_of_fuel
parse-ne-out_of_fuel c ts = Ensures-ne-out_of_fuel (parse-Ensures c ts)

-- The parser returns a truth value exactly where the tokens are those of a when-clause with that
-- value: `||` binds less than `&&`, `&&` less than `!`, and `!` less than a comparison.
pub parse-eq-ok_iff :
    (c : ContextKeys) (ts : List Token) (b : Bool)
    → (parse c ts ≡ ok b) ↔ ((d : Disjunction) × (ts ≡ emit_or d) × (b ≡ truthy (value_or c d)))
parse-eq-ok_iff c ts b = (Ensures-ok (parse-Ensures c ts), back)
  where
    back : ((d : Disjunction) × (ts ≡ emit_or d) × (b ≡ truthy (value_or c d))) → parse c ts ≡ ok b
    back (d, e, w) = rw (e, w) (parse-emit_or c d)
