-- ===== src/Actions/When/Lexemes.antt =====
-- The text of a list of lexemes is read back as their tokens.
use zfiles.Common.{
  ℕ, suc, ◌≡◌, refl, ap, ◌∙◌, Bool, true, false, not, List, [], ◌∷◌, ◌++◌, none, some, Text,
  if◌then◌else◌, ◌==◌, is_space, drop_while, All, arith, append_assoc,
}
use zfiles.Actions.When.Values.{to_number, eq, ne, gt, ge, lt, le}
use zfiles.Actions.When.Parser.{
  Op, or_op, and_op, not_op, comparator, Token, ident, num, str, op, lparen, rparen, ok, ◌>>=◌,
}
use zfiles.Actions.When.Tokens.{
  Reading, take_while, is_digit, is_number_char, is_ident_char, is_quote, doubled_op, equals_op,
  two_char_op, one_char_op, read_ident, read_op, read_string, read_number, read_token, with_token,
  tokenize_from,
}

pub data Lexeme : Type 0 where
  word : Text → Lexeme
  numeral : Text → Lexeme
  quoted : ℕ → Text → Lexeme
  operator : Op → Lexeme
  opening : Lexeme
  closing : Lexeme

-- An identifier does not begin as a number does, and a string does not contain its quote.
abbrev pub IsLexeme : Lexeme → Type 0
IsLexeme (word []) = ⊥
IsLexeme (word (c ∷ s)) = (is_digit c ≡ false) × All (λ d. is_ident_char d ≡ true) (c ∷ s)
IsLexeme (numeral []) = ⊥
IsLexeme (numeral (c ∷ s)) = (is_digit c ≡ true) × All (λ d. is_number_char d ≡ true) (c ∷ s)
IsLexeme (quoted q s) = (is_quote q ≡ true) × All (λ d. not (d == q) ≡ true) s
IsLexeme (operator o) = Unit
IsLexeme opening = Unit
IsLexeme closing = Unit

unfoldable pub op_text : Op → Text
op_text or_op = 124 ∷ 124 ∷ []
op_text and_op = 38 ∷ 38 ∷ []
op_text not_op = 33 ∷ []
op_text (comparator eq) = 61 ∷ 61 ∷ []
op_text (comparator ne) = 33 ∷ 61 ∷ []
op_text (comparator gt) = 62 ∷ []
op_text (comparator ge) = 62 ∷ 61 ∷ []
op_text (comparator lt) = 60 ∷ []
op_text (comparator le) = 60 ∷ 61 ∷ []

unfoldable pub lexeme_text : Lexeme → Text
unfolding op_text
lexeme_text (word s) = s
lexeme_text (numeral s) = s
lexeme_text (quoted q s) = q ∷ (s ++ (q ∷ []))
lexeme_text (operator o) = op_text o
lexeme_text opening = 40 ∷ []
lexeme_text closing = 41 ∷ []

unfoldable pub token_of : Lexeme → Token
token_of (word s) = ident s
token_of (numeral s) = num (to_number s)
token_of (quoted q s) = str s
token_of (operator o) = op o
token_of opening = lparen
token_of closing = rparen

-- The lexemes, each followed by a space.
unfoldable pub spell : List Lexeme → Text
unfolding lexeme_text
spell [] = []
spell (l ∷ ls) = lexeme_text l ++ (32 ∷ spell ls)

take_while-All :
    (p : ℕ → Bool) (s : Text) (c : ℕ) (rest : Text)
    → All (λ d. p d ≡ true) s
    → p c ≡ false
    → take_while p (s ++ (c ∷ rest)) ≡ s
unfolding take_while
take_while-All p [] c rest h n = rw n refl
take_while-All p (d ∷ s) c rest h n = rw (h.0, take_while-All p s c rest h.1 n) refl

drop_while-All :
    (p : ℕ → Bool) (s : Text) (c : ℕ) (rest : Text)
    → All (λ d. p d ≡ true) s
    → p c ≡ false
    → drop_while p (s ++ (c ∷ rest)) ≡ c ∷ rest
unfolding drop_while
drop_while-All p [] c rest h n = rw n refl
drop_while-All p (d ∷ s) c rest h n = rw (h.0, drop_while-All p s c rest h.1 n) refl

-- The classes of characters do not meet.
ident_char_plain :
    (c : ℕ)
    → is_ident_char c ≡ true
    → is_digit c ≡ false
    → (is_space c ≡ false) × ((c == 40) ≡ false) × ((c == 41) ≡ false) × (is_quote c ≡ false)
unfolding is_ident_char is_digit is_space is_quote
ident_char_plain c h d = ground arith

digit_plain :
    (c : ℕ)
    → is_digit c ≡ true
    → (is_space c ≡ false) × ((c == 40) ≡ false) × ((c == 41) ≡ false) × (is_quote c ≡ false)
unfolding is_digit is_space is_quote
digit_plain c d = ground arith

ident_char_no_op :
    (c : ℕ) (s : Text)
    → is_ident_char c ≡ true
    → (two_char_op (c ∷ s) ≡ none) × (one_char_op c ≡ none)
unfolding is_ident_char is_digit two_char_op one_char_op doubled_op equals_op
ident_char_no_op c [] h = ground arith
ident_char_no_op c (d ∷ s) h = ground arith

quote_plain :
    (c : ℕ) → is_quote c ≡ true → (is_space c ≡ false) × ((c == 40) ≡ false) × ((c == 41) ≡ false)
unfolding is_space is_quote
quote_plain c d = ground arith

not-==-same : (q : ℕ) → not (q == q) ≡ false
not-==-same q = ground arith

read_token_word :
    (c : ℕ) (s rest : Text)
    → IsLexeme (word (c ∷ s))
    → read_token c (s ++ (32 ∷ rest)) ≡ ok (some (ident (c ∷ s)), 32 ∷ rest)
unfolding read_token
read_token_word c s rest h =
    let plain = ident_char_plain c h.1.0 h.0 in
    let no_op = ident_char_no_op c (s ++ (32 ∷ rest)) h.1.0 in
    rw
      (
        plain.0,
        plain.1,
        plain.2,
        plain.3,
        h.0,
        read_op,
        no_op.0,
        no_op.1,
        read_ident,
        take_while-All is_ident_char (c ∷ s) 32 rest h.1 refl,
        drop_while-All is_ident_char (c ∷ s) 32 rest h.1 refl,
      )
      refl

read_number-All :
    (s rest : Text)
    → All (λ d. is_number_char d ≡ true) s
    → read_number (s ++ (32 ∷ rest)) ≡ ok (some (num (to_number s)), 32 ∷ rest)
unfolding read_number
read_number-All s rest h =
    rw
      (
        take_while-All is_number_char s 32 rest h refl,
        drop_while-All is_number_char s 32 rest h refl,
      )
      refl

fifth_branch :
    {A : Type 0} (a b c d e : Bool) (x y z u v w : A)
    → a ≡ false
    → b ≡ false
    → c ≡ false
    → d ≡ false
    → e ≡ true
    → (if a then x else if b then y else if c then z else if d then u else if e then v else w) ≡ v
fifth_branch a b c d e x y z u v w ha hb hc hd he = rw (ha, hb, hc, hd, he) refl

read_token_numeral :
    (c : ℕ) (s rest : Text)
    → IsLexeme (numeral (c ∷ s))
    → read_token c (s ++ (32 ∷ rest)) ≡ ok (some (num (to_number (c ∷ s))), 32 ∷ rest)
unfolding read_token
read_token_numeral c s rest h =
    let plain = digit_plain c h.0 in
    fifth_branch (is_space c) (c == 40) (c == 41) (is_quote c) (is_digit c)
      (ok (none, s ++ (32 ∷ rest))) (ok (some lparen, s ++ (32 ∷ rest)))
      (ok (some rparen, s ++ (32 ∷ rest))) (read_string c (s ++ (32 ∷ rest)))
      (read_number (c ∷ (s ++ (32 ∷ rest)))) (read_op c (s ++ (32 ∷ rest))) plain.0 plain.1 plain.2
      plain.3 h.0
    ∙ read_number-All (c ∷ s) rest h.1

read_token_quoted :
    (q : ℕ) (s rest : Text)
    → IsLexeme (quoted q s)
    → read_token q ((s ++ (q ∷ [])) ++ (32 ∷ rest)) ≡ ok (some (str s), 32 ∷ rest)
unfolding read_token
read_token_quoted q s rest h =
    let plain = quote_plain q h.0 in
    let stop = not-==-same q in
    rw
      (
        plain.0,
        plain.1,
        plain.2,
        h.0,
        read_string,
        append_assoc s (q ∷ []) (32 ∷ rest),
        take_while-All (λ d. not (d == q)) s q (32 ∷ rest) h.1 stop,
        drop_while-All (λ d. not (d == q)) s q (32 ∷ rest) h.1 stop,
      )
      refl

-- After a lexeme the loop stands at the space.
pub tokenize_from-lexeme_text :
    (f : ℕ) (l : Lexeme) (rest : Text)
    → IsLexeme l
    → tokenize_from (suc f) (lexeme_text l ++ (32 ∷ rest))
      ≡ (tokenize_from f (32 ∷ rest) >>= λ ts. ok (token_of l ∷ ts))
unfolding tokenize_from lexeme_text token_of read_token with_token
tokenize_from-lexeme_text f (word (c ∷ s)) rest h =
    ap (λ (r : Reading). r >>= λ (t, left). tokenize_from f left >>= λ ts. ok (with_token t ts))
      (read_token_word c s rest h)
tokenize_from-lexeme_text f (numeral (c ∷ s)) rest h =
    ap (λ (r : Reading). r >>= λ (t, left). tokenize_from f left >>= λ ts. ok (with_token t ts))
      (read_token_numeral c s rest h)
tokenize_from-lexeme_text f (quoted q s) rest h =
    ap (λ (r : Reading). r >>= λ (t, left). tokenize_from f left >>= λ ts. ok (with_token t ts))
      (read_token_quoted q s rest h)
tokenize_from-lexeme_text f (operator or_op) rest h = refl
tokenize_from-lexeme_text f (operator and_op) rest h = refl
tokenize_from-lexeme_text f (operator not_op) rest h = refl
tokenize_from-lexeme_text f (operator (comparator eq)) rest h = refl
tokenize_from-lexeme_text f (operator (comparator ne)) rest h = refl
tokenize_from-lexeme_text f (operator (comparator gt)) rest h = refl
tokenize_from-lexeme_text f (operator (comparator ge)) rest h = refl
tokenize_from-lexeme_text f (operator (comparator lt)) rest h = refl
tokenize_from-lexeme_text f (operator (comparator le)) rest h = refl
tokenize_from-lexeme_text f opening rest h = refl
tokenize_from-lexeme_text f closing rest h = refl
tokenize_from-lexeme_text f (word []) rest h = absurd h
tokenize_from-lexeme_text f (numeral []) rest h = absurd h
