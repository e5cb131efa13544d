-- ===== src/Text/Number.antt =====
-- strconv.ParseInt and strconv.Atoi in base 10, on 64 bits.
use Prim.Native.Char.{code}
use merger_herder_validation.Prelude.{
  ℕ, ◌+◌, ◌-◌, ◌*◌, ◌≡◌, refl, ◌&&◌, Option, none, some, String, leb, ◌==◌, nat_key, string_key,
  if◌then◌else◌, int64_sign, word64,
}

-- The value of the digits, after those that gave `acc`.
unfoldable pub digits_value : ℕ → String → Option ℕ
digits_value acc String.[] = some acc
digits_value acc (String.◌∷◌ c s) =
    let rest = digits_value (acc * 10 + (code c - b'0')) s in
    if leb b'0' (code c) && leb (code c) b'9' then rest else none

-- At least one digit, and a value of at most `limit`.
unfoldable pub magnitude : ℕ → String → Option ℕ
unfolding digits_value
magnitude limit s =
    if s == ""
    then none
    else elim (digits_value 0 s) [ none ↦ none | some n ↦ if leb n limit then some n else none ]

-- The bit pattern of -n.
negate : Option ℕ → Option ℕ
negate none = none
negate (some n) = some (if n == 0 then 0 else word64 - n)

unfoldable pub parse_int : String → Option ℕ
unfolding magnitude negate
parse_int String.[] = none
parse_int (String.◌∷◌ c s) =
    if code c == b'-'
    then negate (magnitude int64_sign s)
    else if code c == b'+'
    then magnitude (int64_sign - 1) s
    else magnitude (int64_sign - 1) (String.◌∷◌ c s)

parse_issuer : parse_int "42" ≡ some 42
unfolding parse_int
parse_issuer = refl

parse_overflow : parse_int "9223372036854775808" ≡ none
unfolding parse_int
parse_overflow = refl

parse_lowest : parse_int "-9223372036854775808" ≡ some int64_sign
unfolding parse_int
parse_lowest = refl
