-- ===== src/Text/Base64.antt =====
-- base64.RawURLEncoding: bytes as texts of 64 characters, with no padding.
use merger_herder_validation.Prelude.{
  String, ◌≡◌, ℕ, List, [], true, ◌∷◌, ◌<◌, Bool, All, suc, ◌==◌, ap₂, refl, ◌&&◌, ap, ◌*◌, ◌/◌,
  zero, arith, nat_beq_iff, if◌then◌else◌, ◌%◌, Bool-cases, nat_key, ◌∙◌, ◌+◌, sym, inl, inr,
}
use Prim.Native.Char.{Char, code}

abbrev alphabet : String
alphabet = "ABCDEFGHIJKLMNOPQRSTUVWXYZabcdefghijklmnopqrstuvwxyz0123456789-_"

unfoldable letter_in : String → ℕ → Char
letter_in String.[] n = "A"
letter_in (String.◌∷◌ c s) zero = c
letter_in (String.◌∷◌ c s) (suc n) = letter_in s n

-- Three bytes are four numbers below 64.
unfoldable pub sextets : List ℕ → List ℕ
sextets [] = []
sextets (a ∷ []) = a / 4 ∷ a % 4 * 16 ∷ []
sextets (a ∷ b ∷ []) = a / 4 ∷ (a % 4 * 16 + b / 16) ∷ b % 16 * 4 ∷ []
sextets (a ∷ b ∷ c ∷ rest) =
    a / 4 ∷ (a % 4 * 16 + b / 16) ∷ (b % 16 * 4 + c / 64) ∷ c % 64 ∷ sextets rest

unfoldable pub letters : List ℕ → String
unfolding letter_in
letters [] = ""
letters (n ∷ rest) = String.◌∷◌ (letter_in alphabet n) (letters rest)

unfoldable pub raw_url_encode : List ℕ → String
unfolding sextets letters
raw_url_encode bytes = letters (sextets bytes)

-- The place of a character.
unfoldable place_in : String → Char → ℕ
place_in String.[] c = 0
place_in (String.◌∷◌ d s) c = let more = suc (place_in s c) in if code d == code c then 0 else more

unfoldable all_below : ℕ → (ℕ → Bool) → Bool
all_below zero test = true
all_below (suc n) test = all_below n test && test n

all_below_lem : (n : ℕ) (test : ℕ → Bool) (k : ℕ) → all_below n test ≡ true → k < n → test k ≡ true
unfolding all_below
all_below_lem zero test k h small = absurd (omega (arith, small))
all_below_lem (suc n) test k h small = elim (Bool-cases (k == n)) [
  | inl hit ↦ ground (arith, nat_beq_iff k n, h, ap test ((nat_beq_iff k n).0 hit))
  | inr miss ↦
      all_below_lem n test k (ground (arith, h)) (ground (arith, nat_beq_iff k n, small, miss))
]

is_found : ℕ → Bool
unfolding place_in letter_in
is_found n = place_in alphabet (letter_in alphabet n) == n

all_found : all_below 64 is_found ≡ true
unfolding all_below is_found
all_found = refl

place_in-letter_in : (n : ℕ) → n < 64 → place_in alphabet (letter_in alphabet n) ≡ n
unfolding is_found
place_in-letter_in n small =
    (nat_beq_iff (place_in alphabet (letter_in alphabet n)) n).0
      (all_below_lem 64 is_found n all_found small)

abbrev IsSextet : ℕ → Type 0
IsSextet n = n < 64

abbrev pub IsByte : ℕ → Type 0
IsByte n = n < 256

places : String → List ℕ
unfolding place_in
places String.[] = []
places (String.◌∷◌ c s) = place_in alphabet c ∷ places s

places-letters : (l : List ℕ) → All IsSextet l → places (letters l) ≡ l
unfolding places letters
places-letters [] h = refl
places-letters (n ∷ rest) h = ap₂ ◌∷◌ (place_in-letter_in n h.0) (places-letters rest h.1)

octets : List ℕ → List ℕ
octets (p ∷ q ∷ []) = (p * 4 + q / 16) ∷ []
octets (p ∷ q ∷ r ∷ []) = (p * 4 + q / 16) ∷ (q % 16 * 16 + r / 4) ∷ []
octets (p ∷ q ∷ r ∷ s ∷ rest) =
    (p * 4 + q / 16) ∷ (q % 16 * 16 + r / 4) ∷ (r % 4 * 64 + s) ∷ octets rest
octets _ = []

sextets-IsSextet : (l : List ℕ) → All IsByte l → All IsSextet (sextets l)
unfolding sextets
sextets-IsSextet [] h = tt
sextets-IsSextet (a ∷ []) h = (omega (arith, h.0), (omega arith, tt))
sextets-IsSextet (a ∷ b ∷ []) h = (omega (arith, h.0), (omega (arith, h.1.0), (omega arith, tt)))
sextets-IsSextet (a ∷ b ∷ c ∷ rest) h = (
  omega (arith, h.0),
  (omega (arith, h.1.0), (omega (arith, h.1.1.0), (omega arith, sextets-IsSextet rest h.1.1.1))),
)

first_byte : (a b : ℕ) → b < 256 → a / 4 * 4 + (a % 4 * 16 + b / 16) / 16 ≡ a
first_byte a b h = omega (arith, h)

second_byte :
    (a b c : ℕ)
    → b < 256
    → c < 256
    → (a % 4 * 16 + b / 16) % 16 * 16 + (b % 16 * 4 + c / 64) / 4 ≡ b
second_byte a b c h k = omega (arith, h, k)

third_byte : (b c : ℕ) → c < 256 → (b % 16 * 4 + c / 64) % 4 * 64 + c % 64 ≡ c
third_byte b c h = omega (arith, h)

octets-sextets : (l : List ℕ) → All IsByte l → octets (sextets l) ≡ l
unfolding octets sextets
octets-sextets [] h = refl
octets-sextets (a ∷ []) h = ap (λ x. x ∷ []) (omega arith)
octets-sextets (a ∷ b ∷ []) h =
    ap₂ (λ x y. x ∷ y ∷ []) (first_byte a b h.1.0) (omega (arith, h.1.0))
octets-sextets (a ∷ b ∷ c ∷ rest) h =
    rw (first_byte a b h.1.0, second_byte a b c h.1.0 h.1.1.0, third_byte b c h.1.1.0)
      (ap (λ l. a ∷ b ∷ c ∷ l) (octets-sextets rest h.1.1.1))

-- Bytes are read back from their encoding.
pub raw_url_encode-injective :
    (a b : List ℕ) → All IsByte a → All IsByte b → raw_url_encode a ≡ raw_url_encode b → a ≡ b
unfolding raw_url_encode
raw_url_encode-injective a b ha hb same =
    sym (read a ha) ∙ ap (λ t. octets (places t)) same ∙ read b hb
  where
    read : (l : List ℕ) → All IsByte l → octets (places (letters (sextets l))) ≡ l
    read l h = ap octets (places-letters (sextets l) (sextets-IsSextet l h)) ∙ octets-sextets l h
