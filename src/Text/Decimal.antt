-- ===== src/Text/Decimal.antt =====
-- The decimal verbs of fmt: `%d` and `%012d`.
use Prim.Native.Char.{Char, code}
use merger_herder_validation.Prelude.{
  ℕ, zero, suc, ◌+◌, ◌-◌, ◌*◌, ◌/◌, ◌%◌, ◌<◌, ◌≡◌, refl, sym, ap, ◌∙◌, String, arith, ltb, nat_key,
  if◌then◌else◌, Bool-cases, inl, inr,
}

unfoldable pub digit : ℕ → Char
digit zero = "0"
digit (suc zero) = "1"
digit (suc (suc zero)) = "2"
digit (suc (suc (suc zero))) = "3"
digit (suc (suc (suc (suc zero)))) = "4"
digit (suc (suc (suc (suc (suc zero))))) = "5"
digit (suc (suc (suc (suc (suc (suc zero)))))) = "6"
digit (suc (suc (suc (suc (suc (suc (suc zero))))))) = "7"
digit (suc (suc (suc (suc (suc (suc (suc (suc zero)))))))) = "8"
digit _ = "9"

-- The digits of `n` before `rest`; a fuel above `n` is enough.
unfoldable pub digits : ℕ → ℕ → String → String
digits zero n rest = rest
digits (suc f) n rest =
    let more = digits f (n / 10) (String.◌∷◌ (digit (n % 10)) rest) in
    if ltb n 10 then String.◌∷◌ (digit n) rest else more

-- `%d` of a natural number
unfoldable pub decimal : ℕ → String
unfolding digit digits
decimal n = digits (suc n) n String.[]

zeros : ℕ → String → String
zeros zero s = s
zeros (suc k) s = String.◌∷◌ "0" (zeros k s)

count_chars : String → ℕ
count_chars String.[] = 0
count_chars (String.◌∷◌ c s) = suc (count_chars s)

-- `%012d` of a natural number
unfoldable pub decimal_12 : ℕ → String
unfolding zeros count_chars decimal
decimal_12 n = zeros (12 - count_chars (decimal n)) (decimal n)

-- Reading digits back, after those that gave `acc`.
value : ℕ → String → ℕ
value acc String.[] = acc
value acc (String.◌∷◌ c s) = value (acc * 10 + (code c - 48)) s

pub code-digit : (d : ℕ) → d < 10 → code (digit d) - 48 ≡ d
unfolding digit
code-digit zero h = refl
code-digit (suc zero) h = refl
code-digit (suc (suc zero)) h = refl
code-digit (suc (suc (suc zero))) h = refl
code-digit (suc (suc (suc (suc zero)))) h = refl
code-digit (suc (suc (suc (suc (suc zero))))) h = refl
code-digit (suc (suc (suc (suc (suc (suc zero)))))) h = refl
code-digit (suc (suc (suc (suc (suc (suc (suc zero))))))) h = refl
code-digit (suc (suc (suc (suc (suc (suc (suc (suc zero)))))))) h = refl
code-digit (suc (suc (suc (suc (suc (suc (suc (suc (suc zero))))))))) h = refl
code-digit (suc (suc (suc (suc (suc (suc (suc (suc (suc (suc n)))))))))) h = absurd (omega arith)

value-digits : (f n : ℕ) (rest : String) → n < f → value 0 (digits f n rest) ≡ value n rest
unfolding value digits
value-digits zero n rest h = elim h [ ]
value-digits (suc f) n rest h = elim (Bool-cases (ltb n 10)) [
  | inl small ↦ rw small (ap (λ (k : ℕ). value k rest) (omega (arith, code-digit n (ground arith))))
  | inr large ↦ rw large (
      value-digits f (n / 10) (String.◌∷◌ (digit (n % 10)) rest) (ground arith)
      ∙ ap (λ (k : ℕ). value k rest) (omega (arith, code-digit (n % 10) (omega arith))))
]

value-zeros : (k : ℕ) (s : String) → value 0 (zeros k s) ≡ value 0 s
unfolding value zeros
value-zeros zero s = refl
value-zeros (suc k) s = value-zeros k s

value-decimal_12 : (n : ℕ) → value 0 (decimal_12 n) ≡ n
unfolding decimal_12
value-decimal_12 n =
    value-zeros (12 - count_chars (decimal n)) (decimal n)
    ∙ (unfold decimal value in value-digits (suc n) n String.[] (omega arith))

-- The padded decimal of a number determines the number.
pub decimal_12-injective : (m n : ℕ) → decimal_12 m ≡ decimal_12 n → m ≡ n
decimal_12-injective m n e = sym (value-decimal_12 m) ∙ ap (value 0) e ∙ value-decimal_12 n

decimal_12_pads : decimal_12 42 ≡ "000000000042"
unfolding decimal_12
decimal_12_pads = refl
