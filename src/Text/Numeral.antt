-- ===== src/Text/Numeral.antt =====
-- Decimal numerals that are read back.
use text.Mathlib.TextLemmas.{cons-ne-nil}
use merger_herder_validation.Text.Decimal.{digit, digits, code-digit, decimal}
use merger_herder_validation.Text.Number.{digits_value, magnitude, parse_int}
use merger_herder_validation.Prelude.{
  ℕ, String, suc, ◌≤◌, ◌≡◌, ◌<◌, ◌≢◌, arith, Bool-cases, ◌*◌, int64_sign, some, if_cases, ltb, ◌+◌,
  zero, eq_iff, ◌-◌, ◌/◌, inl, ◌∙◌, refl, inr, ◌%◌, ap,
}
use Prim.Native.Char.{Char, code}

-- A text of decimal digits.
abbrev pub IsDigits : String → Type 0
IsDigits String.[] = Unit
IsDigits (String.◌∷◌ c s) = (b'0' ≤ code c) × (code c ≤ b'9') × IsDigits s

code-digit_bounds : (d : ℕ) → (b'0' ≤ code (digit d)) × (code (digit d) ≤ b'9')
unfolding digit
code-digit_bounds zero = (omega arith, omega arith)
code-digit_bounds (suc zero) = (omega arith, omega arith)
code-digit_bounds (suc (suc zero)) = (omega arith, omega arith)
code-digit_bounds (suc (suc (suc zero))) = (omega arith, omega arith)
code-digit_bounds (suc (suc (suc (suc zero)))) = (omega arith, omega arith)
code-digit_bounds (suc (suc (suc (suc (suc zero))))) = (omega arith, omega arith)
code-digit_bounds (suc (suc (suc (suc (suc (suc zero)))))) = (omega arith, omega arith)
code-digit_bounds (suc (suc (suc (suc (suc (suc (suc zero))))))) = (omega arith, omega arith)
code-digit_bounds (suc (suc (suc (suc (suc (suc (suc (suc zero)))))))) = (omega arith, omega arith)
code-digit_bounds (suc (suc (suc (suc (suc (suc (suc (suc (suc n))))))))) =
    (omega arith, omega arith)

IsDigits-digits : (f n : ℕ) (rest : String) → IsDigits rest → IsDigits (digits f n rest)
unfolding digits
IsDigits-digits zero n rest h = h
IsDigits-digits (suc f) n rest h =
    if_cases IsDigits (ltb n 10) _ _ (λ _. ((code-digit_bounds n).0, (code-digit_bounds n).1, h))
      (λ _.
        IsDigits-digits f (n / 10) (String.◌∷◌ (digit (n % 10)) rest)
          ((code-digit_bounds (n % 10)).0, (code-digit_bounds (n % 10)).1, h))

pub IsDigits-decimal : (n : ℕ) → IsDigits (decimal n)
unfolding decimal
IsDigits-decimal n = IsDigits-digits (suc n) n String.[] tt

digits_value-cons :
    (acc : ℕ) (c : Char) (s : String)
    → b'0' ≤ code c
    → code c ≤ b'9'
    → digits_value acc (String.◌∷◌ c s) ≡ digits_value (acc * 10 + (code c - b'0')) s
unfolding digits_value
digits_value-cons acc c s low high = ground arith

digits_value-digit :
    (acc d : ℕ) (s : String)
    → d < 10
    → digits_value acc (String.◌∷◌ (digit d) s) ≡ digits_value (acc * 10 + d) s
digits_value-digit acc d s small =
    digits_value-cons acc (digit d) s (code-digit_bounds d).0 (code-digit_bounds d).1
    ∙ ap (λ (k : ℕ). digits_value (acc * 10 + k) s) (code-digit d small)

digits_value-digits :
    (f n : ℕ) (rest : String) → n < f → digits_value 0 (digits f n rest) ≡ digits_value n rest
unfolding digits
digits_value-digits zero n rest h = elim h [ ]
digits_value-digits (suc f) n rest h = elim (Bool-cases (ltb n 10)) [
  | inl small ↦ rw small (
      digits_value-digit 0 n rest (ground arith)
      ∙ ap (λ (k : ℕ). digits_value k rest) (omega arith))
  | inr large ↦ rw large (
      digits_value-digits f (n / 10) (String.◌∷◌ (digit (n % 10)) rest) (ground arith)
      ∙ digits_value-digit (n / 10) (n % 10) rest (omega arith)
      ∙ ap (λ (k : ℕ). digits_value k rest) (omega arith))
]

digits_value-decimal : (n : ℕ) → digits_value 0 (decimal n) ≡ some n
unfolding decimal digits_value
digits_value-decimal n = digits_value-digits (suc n) n String.[] (omega arith)

-- Reading the digits of a number that fits.
parse_digits :
    (s : String) (n : ℕ)
    → IsDigits s
    → s ≢ ""
    → digits_value 0 s ≡ some n
    → n < int64_sign
    → parse_int s ≡ some n
unfolding parse_int magnitude
parse_digits String.[] n digits given reads fits = absurd (given refl)
parse_digits (String.◌∷◌ c s) n digits given reads fits =
    ground (arith, digits.0, digits.1, eq_iff (String.◌∷◌ c s) "")

digits-ne-empty : (f n : ℕ) (rest : String) → n < f → digits f n rest ≢ ""
unfolding digits
digits-ne-empty zero n rest h = elim h [ ]
digits-ne-empty (suc f) n rest h =
    if_cases (λ s. s ≢ "") (ltb n 10) _ _ (λ _ e. cons-ne-nil (digit n) rest e)
      (λ large. digits-ne-empty f (n / 10) (String.◌∷◌ (digit (n % 10)) rest) (ground arith))

decimal-ne-empty : (n : ℕ) → decimal n ≢ ""
unfolding decimal
decimal-ne-empty n = digits-ne-empty (suc n) n String.[] (omega arith)

-- A number below 2 ^ 63 that is written in decimal is read back.
pub parse_int-decimal : (n : ℕ) → n < int64_sign → parse_int (decimal n) ≡ some n
parse_int-decimal n fits =
    parse_digits (decimal n) n (IsDigits-decimal n) (decimal-ne-empty n) (digits_value-decimal n)
      fits
