-- ===== src/Actions/When/Reading.antt =====
-- What the tokenizer and the evaluator return on every text.
use zfiles.Common.{
  ℕ, zero, suc, ◌≤◌, ◌<◌, ◌≡◌, ◌≢◌, ◌↔◌, ◌⊎◌, inl, inr, refl, ap, ◌∙◌, sym, Bool, true, false, not,
  List, [], ◌∷◌, map, Option, none, some, Text, if◌then◌else◌, length, ◌==◌, is_space, drop_while,
  drop, is_empty, trim, All, arith, Bool-cases, length-append,
}
use zfiles.Actions.When.Values.{eq, ne, gt, ge, lt, le, ContextKeys, truthy}
use zfiles.Actions.When.Parser.{
  Op, or_op, and_op, not_op, comparator, op, Token, ok, thrown, ParseError, out_of_fuel, Outcome,
  ◌>>=◌, parse,
}
use zfiles.Actions.When.Tokens.{
  take_while, is_digit, is_number_char, is_ident_char, is_quote, two_char_op, one_char_op,
  read_ident, read_op, read_string, read_number, read_token, tokenize_from, tokenize,
  parse_when_expression, evaluate_when,
}
use zfiles.Actions.When.Grammar.{Disjunction, emit_or, value_or}
use zfiles.Actions.When.Grammar.Sound.{
  Ensures, holds, refused, Ensures-bind, Ensures-ne-out_of_fuel, Ensures-if, parse-eq-ok_iff,
}
use zfiles.Actions.When.Lexemes.{
  Lexeme, word, numeral, quoted, operator, opening, closing, IsLexeme, lexeme_text, op_text,
  token_of, spell, tokenize_from-lexeme_text,
}

drop_while-length : (p : ℕ → Bool) (s : Text) → length (drop_while p s) ≤ length s
unfolding drop_while
drop_while-length p [] = omega arith
drop_while-length p (c ∷ s) = elim (Bool-cases (p c)) [
  | inl e ↦ rw e (omega (arith, drop_while-length p s))
  | inr e ↦ rw e (omega arith)
]

drop-length : (n : ℕ) (s : Text) → length (drop n s) ≤ length s
drop-length zero s = omega arith
drop-length (suc n) [] = omega arith
drop-length (suc n) (c ∷ s) = omega (arith, drop-length n s)

-- A reading leaves no more than the text after its first character.
abbrev Shorter : Text → Option Token × Text → Type 0
Shorter s r = length r.1 ≤ length s

read_ident-Ensures : (c : ℕ) (s : Text) → Ensures (Shorter s) (read_ident (c ∷ s))
unfolding read_ident take_while drop_while
read_ident-Ensures c s = elim (Bool-cases (is_ident_char c)) [
  | inl e ↦ rw e (holds (drop_while-length is_ident_char s))
  | inr e ↦ rw e (refused (cc))
]

read_op-Ensures : (c : ℕ) (s : Text) → Ensures (Shorter s) (read_op c s)
unfolding read_op
read_op-Ensures c s = go (two_char_op (c ∷ s)) (one_char_op c)
  where
    go :
        (two one : Option Op)
        → Ensures (Shorter s) (elim two [
          | some o ↦ ok (some (op o), drop 1 s)
          | none ↦ elim one [ some o ↦ ok (some (op o), s) | none ↦ read_ident (c ∷ s) ]
        ])
    go (some o) one = holds (drop-length 1 s)
    go none (some o) = holds (omega arith)
    go none none = read_ident-Ensures c s

read_number-Ensures :
    (c : ℕ) (s : Text) → is_digit c ≡ true → Ensures (Shorter s) (read_number (c ∷ s))
unfolding read_number take_while drop_while is_number_char
read_number-Ensures c s e = rw e (holds (drop_while-length is_number_char s))

read_token-Ensures : (c : ℕ) (s : Text) → Ensures (Shorter s) (read_token c s)
unfolding read_token read_string
read_token-Ensures c s =
    Ensures-if (is_space c) (λ e. holds (omega arith))
      (Ensures-if (c == 40) (λ e. holds (omega arith))
        (Ensures-if (c == 41) (λ e. holds (omega arith))
          (Ensures-if (is_quote c)
            (λ e. holds (
              omega (
                arith,
                drop-length 1 (drop_while (λ d. not (d == c)) s),
                drop_while-length (λ d. not (d == c)) s,
              )))
            (Ensures-if (is_digit c) (λ e. read_number-Ensures c s e) (read_op-Ensures c s)))))

tokenize_from-Ensures : (f : ℕ) (s : Text) → length s < f → Ensures (λ ts. Unit) (tokenize_from f s)
unfolding tokenize_from
tokenize_from-Ensures zero s h = absurd (omega arith)
tokenize_from-Ensures (suc f) [] h = holds tt
tokenize_from-Ensures (suc f) (c ∷ s) h = Ensures-bind (read_token-Ensures c s) λ (t, rest) k.
    Ensures-bind (tokenize_from-Ensures f rest (omega (arith, h, k))) λ ts u. holds tt

-- Every round of the tokenizer takes a character, so it ends on every text.
pub tokenize-ne-out_of_fuel : (s : Text) → tokenize s ≢ thrown out_of_fuel
unfolding tokenize
tokenize-ne-out_of_fuel s =
    Ensures-ne-out_of_fuel (tokenize_from-Ensures (suc (length s)) s (omega arith))

ok_same : {A : Type 0} {x y : A} → ok x ≡ ok y → x ≡ y
ok_same e = cc

ok-ne-thrown : {A : Type 0} {x : A} {e : ParseError} → ok x ≢ thrown e
ok-ne-thrown = cc

op_text-length : (o : Op) → 0 < length (op_text o)
unfolding op_text
op_text-length or_op = omega arith
op_text-length and_op = omega arith
op_text-length not_op = omega arith
op_text-length (comparator eq) = omega arith
op_text-length (comparator ne) = omega arith
op_text-length (comparator gt) = omega arith
op_text-length (comparator ge) = omega arith
op_text-length (comparator lt) = omega arith
op_text-length (comparator le) = omega arith

lexeme_text-length : (l : Lexeme) → IsLexeme l → 0 < length (lexeme_text l)
unfolding lexeme_text
lexeme_text-length (word (c ∷ s)) h = omega arith
lexeme_text-length (numeral (c ∷ s)) h = omega arith
lexeme_text-length (quoted q s) h = omega arith
lexeme_text-length (operator o) h = op_text-length o
lexeme_text-length opening h = omega arith
lexeme_text-length closing h = omega arith
lexeme_text-length (word []) h = absurd h
lexeme_text-length (numeral []) h = absurd h

tokenize_from-space :
    (f : ℕ) (rest : Text) (ts : List Token)
    → tokenize_from f rest ≡ ok ts
    → tokenize_from (suc f) (32 ∷ rest) ≡ ok ts
unfolding tokenize_from read_token
tokenize_from-space f rest ts e = rw e refl

tokenize_from-spell :
    (f : ℕ) (ls : List Lexeme)
    → All IsLexeme ls
    → length (spell ls) < f
    → tokenize_from f (spell ls) ≡ ok (map token_of ls)
unfolding spell tokenize_from
tokenize_from-spell zero ls h k = absurd (omega arith)
tokenize_from-spell (suc zero) [] h k = refl
tokenize_from-spell (suc zero) (l ∷ ls) h k =
    absurd (omega (arith, length-append (lexeme_text l) (32 ∷ spell ls)))
tokenize_from-spell (suc (suc f)) [] h k = refl
tokenize_from-spell (suc (suc f)) (l ∷ ls) h k =
    let rest =
      tokenize_from-spell f ls h.1 (
        omega
          (arith, length-append (lexeme_text l) (32 ∷ spell ls), lexeme_text-length l h.0, k)) in
    tokenize_from-lexeme_text (suc f) l (spell ls) h.0
    ∙ ap (λ r. r >>= λ ts. ok (token_of l ∷ ts))
        (tokenize_from-space f (spell ls) (map token_of ls) rest)

-- Lexemes with a space after each are read back, one token each.
pub tokenize-spell :
    (ls : List Lexeme) → All IsLexeme ls → tokenize (spell ls) ≡ ok (map token_of ls)
unfolding tokenize
tokenize-spell ls h = tokenize_from-spell (suc (length (spell ls))) ls h (omega arith)

-- The text of a when-clause, each of its lexemes followed by a space, evaluates to the clause's truth value.
pub parse_when_expression-spell :
    (ls : List Lexeme) (d : Disjunction) (c : ContextKeys)
    → All IsLexeme ls
    → map token_of ls ≡ emit_or d
    → parse_when_expression (spell ls) c ≡ ok (truthy (value_or c d))
unfolding parse_when_expression
parse_when_expression-spell ls d c h e =
    ap (λ r. r >>= parse c) (tokenize-spell ls h ∙ ap ok e)
    ∙ (parse-eq-ok_iff c (emit_or d) (truthy (value_or c d))).1 (d, refl, refl)

module _ (c : ContextKeys) where
  parse-true_iff :
      (ts : List Token)
      → (elim (parse c ts) as (λ x. Bool) [ ok b ↦ b | thrown e ↦ false ] ≡ true)
        ↔ ((d : Disjunction) × (ts ≡ emit_or d) × (truthy (value_or c d) ≡ true))
  parse-true_iff ts = go (parse c ts) refl
    where
      go :
          (r : Outcome Bool)
          → parse c ts ≡ r
          → (elim r as (λ x. Bool) [ ok b ↦ b | thrown e ↦ false ] ≡ true)
            ↔ ((d : Disjunction) × (ts ≡ emit_or d) × (truthy (value_or c d) ≡ true))
      go (ok b) q = (
        λ e. let (d, h, w) = (parse-eq-ok_iff c ts b).0 q in (d, h, sym w ∙ e),
        λ (d, h, w). ok_same (sym q ∙ (parse-eq-ok_iff c ts true).1 (d, h, sym w)),
      )
      go (thrown x) q = (
        λ e. cc,
        λ (d, h, w). absurd (ok-ne-thrown (sym ((parse-eq-ok_iff c ts true).1 (d, h, sym w)) ∙ q)),
      )

  when-true_iff :
      (blank : Bool) (r : Outcome (List Token))
      → ((if blank
            then true
            else (elim (r >>= parse c) as (λ x. Bool) [ ok b ↦ b | thrown e ↦ false ]))
          ≡ true)
        ↔ ((blank ≡ true)
            ⊎ ((d : Disjunction) × (r ≡ ok (emit_or d)) × (truthy (value_or c d) ≡ true)))
  when-true_iff true r = (λ e. inl refl, λ h. refl)
  when-true_iff false (thrown x) =
      (λ e. cc, λ h. elim h [ inl q ↦ cc | inr t ↦ absurd (ok-ne-thrown (sym t.1)) ])
  when-true_iff false (ok ts) = (
    λ e. let (d, h, w) = (parse-true_iff ts).0 e in inr (d, ap ok h, w),
    λ h. elim h [ inl q ↦ cc | inr t ↦ (parse-true_iff ts).1 (t.0, ok_same t.1, t.2) ],
  )

-- A clause holds exactly where its text is blank, or tokenize_from-lexeme_text as a when-clause whose value is truthy.
pub evaluate_when-eq-true_iff :
    (e : Text) (c : ContextKeys)
    → (evaluate_when (some e) c ≡ true) ↔ (
        (is_empty (trim e) ≡ true)
        ⊎ ((d : Disjunction) × (tokenize e ≡ ok (emit_or d)) × (truthy (value_or c d) ≡ true)))
unfolding evaluate_when parse_when_expression
evaluate_when-eq-true_iff e c = when-true_iff c (is_empty (trim e)) (tokenize e)
