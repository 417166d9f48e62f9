-- ===== src/Common/Numerals.antt =====
-- Whole numbers as decimal text, and back.
use Prim.Native.Nat.{ℕ, zero, suc, ◌+◌, ◌-◌, ◌*◌, ◌/◌, ◌%◌, ◌<◌, ◌≤◌}
use mathlib.Core.Path.{◌≡◌, sym, ap, ◌∙◌}
use mathlib.Core.Logic.{inl, inr}
use mathlib.Core.List.{[], ◌∷◌}
use native.Mathlib.Omega.{arith}
use zfiles.Common.Tests.{if◌then◌else◌, ltb, Bool-cases}
use zfiles.Common.Texts.{Text}

unfoldable pub digits_value : ℕ → Text → ℕ
digits_value acc [] = acc
digits_value acc (c ∷ s) = digits_value (acc * 10 + (c - 48)) s

unfoldable pub digits_before : ℕ → ℕ → Text → Text
digits_before zero n s = s
digits_before (suc f) n s =
    let more = digits_before f (n / 10) ((48 + n % 10) ∷ s) in
    if ltb n 10 then (48 + n) ∷ s else more

-- A whole number in a template literal.
unfoldable pub show_number : ℕ → Text
unfolding digits_before
show_number n = digits_before (suc n) n []

digits_value-digits_before :
    (f n : ℕ) (s : Text) → n < f → digits_value 0 (digits_before f n s) ≡ digits_value n s
unfolding digits_before digits_value
digits_value-digits_before zero n s h = absurd (omega arith)
digits_value-digits_before (suc f) n s h = elim (Bool-cases (ltb n 10)) [
  | inl e ↦ rw e (ap (λ k. digits_value k s) (omega arith))
  | inr e ↦
      let big : 10 ≤ n = ground arith in
      rw e (
        digits_value-digits_before f (n / 10) ((48 + n % 10) ∷ s) (omega arith)
        ∙ ap (λ k. digits_value k s) (omega arith))
]

-- What is written reads as the number.
pub digits_value-show_number : (n : ℕ) → digits_value 0 (show_number n) ≡ n
unfolding show_number digits_value
digits_value-show_number n = digits_value-digits_before (suc n) n [] (omega arith)

pub show_number-injective : (m n : ℕ) → show_number m ≡ show_number n → m ≡ n
show_number-injective m n e =
    sym (digits_value-show_number m) ∙ ap (digits_value 0) e ∙ digits_value-show_number n
