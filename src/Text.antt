-- ===== src/Text.antt =====
-- The functions of Go's `strings`, `unicode` and `fmt` packages that the program calls, on valid
-- UTF-8 texts. The character tables of package unicode are a parameter.
mod Decimal
mod Path
mod Space
mod Number
mod Order
mod Numeral
mod Pieces
mod Base64
unfoldable pub use Decimal.{decimal, decimal_12}
pub use Decimal.{decimal_12-injective}
unfoldable pub use Path.{
  ◌+++◌, cut_prefix, has_prefix, trim_prefix, cut_suffix, has_suffix, trim_suffix, split, join,
  contains, contains_slash,
}
unfoldable pub use Space.{trim_space, fields}
unfoldable pub use Number.{parse_int}
pub use Numeral.{IsDigits, IsDigits-decimal, parse_int-decimal}
pub use Pieces.*
unfoldable pub use Base64.{raw_url_encode}
pub use Base64.{raw_url_encode-injective, IsByte}
unfoldable pub use Order.{text_le, sort, times}
pub use Order.{times-sort}
use Prim.Native.Char.{Char}
use merger_herder_validation.Prelude.{
  ◌≡◌, refl, Bool, true, String, ◌==◌, string_key, sym, eq_iff, eq_refl, ◌↔◌,
}

-- unicode.ToLower, and a representative of each orbit of unicode.SimpleFold.
pub record Unicode : Type 0 where
  pub lower : Char → Char
  pub fold : Char → Char

-- The text with each character mapped.
map_chars : (Char → Char) → String → String
map_chars f String.[] = String.[]
map_chars f (String.◌∷◌ c s) = String.◌∷◌ (f c) (map_chars f s)

-- strings.ToLower
unfoldable pub to_lower : Unicode → String → String
unfolding map_chars
to_lower u s = map_chars u.lower s

-- What strings.EqualFold compares.
unfoldable pub fold_text : Unicode → String → String
unfolding map_chars
fold_text u s = map_chars u.fold s

-- strings.EqualFold
unfoldable pub equal_fold : Unicode → String → String → Bool
equal_fold u s t = fold_text u s == fold_text u t

pub equal_fold_iff :
    (u : Unicode) (s t : String) → (equal_fold u s t ≡ true) ↔ (fold_text u s ≡ fold_text u t)
unfolding equal_fold
equal_fold_iff u s t = eq_iff (fold_text u s) (fold_text u t)
