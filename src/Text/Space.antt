-- ===== src/Text/Space.antt =====
-- White space: strings.TrimSpace and strings.Fields.
use Prim.Native.Char.{Char, code}
use merger_herder_validation.Prelude.{
  ℕ, ◌≡◌, refl, Bool, ◌||◌, ◌&&◌, List, [], ◌∷◌, String, leb, ◌==◌, nat_key, string_key,
  if◌then◌else◌,
}

-- unicode.IsSpace
is_space : ℕ → Bool
is_space c =
    (leb 9 c && leb c 13)
    || c == 32
    || c == 0x85
    || c == 0xA0
    || c == 0x1680
    || (leb 0x2000 c && leb c 0x200a)
    || c == 0x2028
    || c == 0x2029
    || c == 0x202f
    || c == 0x205f
    || c == 0x3000

trim_right : String → String
unfolding is_space
trim_right String.[] = String.[]
trim_right (String.◌∷◌ c s) =
    let rest = trim_right s in if rest == "" && is_space (code c) then "" else String.◌∷◌ c rest

trim_left : String → String
unfolding is_space
trim_left String.[] = String.[]
trim_left (String.◌∷◌ c s) =
    let rest = trim_left s in if is_space (code c) then rest else String.◌∷◌ c s

-- strings.TrimSpace
unfoldable pub trim_space : String → String
unfolding trim_left trim_right
trim_space s = trim_left (trim_right s)

add_char : Char → List String → List String
add_char c [] = String.◌∷◌ c "" ∷ []
add_char c (s ∷ r) = String.◌∷◌ c s ∷ r

-- The pieces between white space, the empty ones included.
pieces : String → List String
unfolding is_space add_char
pieces String.[] = "" ∷ []
pieces (String.◌∷◌ c s) =
    let rest = pieces s in if is_space (code c) then "" ∷ rest else add_char c rest

non_empty : List String → List String
non_empty [] = []
non_empty (s ∷ r) = let rest = non_empty r in if s == "" then rest else s ∷ rest

-- strings.Fields
unfoldable pub fields : String → List String
unfolding pieces non_empty
fields s = non_empty (pieces s)

trim_output : trim_space " abc\n" ≡ "abc"
unfolding trim_space
trim_output = refl

fields_of_line : fields "main  0a1b\n" ≡ "main" ∷ "0a1b" ∷ []
unfolding fields
fields_of_line = refl
