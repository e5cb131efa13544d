-- ===== src/Text/Pieces.antt =====
-- Texts put together and taken apart: prefixes and pieces.
use merger_herder_validation.Text.Path.{cut_prefix, split, push_char, ◌+++◌}
use merger_herder_validation.Prelude.{
  String, ◌≢◌, ◌≡◌, some, ◌∷◌, arith, ap, nat_beq_iff, true, Bool, false, none, not, Bool-cases,
  ◌==◌, inl, ◌||◌, inr, nat_key,
}
use Prim.Native.Char.{Char, code}
use text.Mathlib.TextLemmas.{nil-append, cons-append}

pub cut_prefix-append : (p s : String) → cut_prefix p (p +++ s) ≡ some s
unfolding cut_prefix
cut_prefix-append String.[] s = ap some (nil-append s)
cut_prefix-append (String.◌∷◌ c p) s =
    rw (cons-append c p s) (ground (arith, cut_prefix-append p s, nat_beq_iff (code c) (code c)))

-- No character of the text is the separator.
abbrev pub IsPiece : Char → String → Type 0
IsPiece sep String.[] = Unit
IsPiece sep (String.◌∷◌ c s) = (code c ≢ code sep) × IsPiece sep s

abbrev pub has_char : Char → String → Bool
has_char sep String.[] = false
has_char sep (String.◌∷◌ c s) = code c == code sep || has_char sep s

pub has_char-IsPiece : (sep : Char) (s : String) → has_char sep s ≡ false → IsPiece sep s
has_char-IsPiece sep String.[] h = tt
has_char-IsPiece sep (String.◌∷◌ c s) h =
    (λ same. ground (arith, same), has_char-IsPiece sep s (ground arith))

-- The first piece ends at the first separator.
pub split-append :
    (sep : Char) (s t : String)
    → IsPiece sep s
    → split sep (s +++ String.◌∷◌ sep t) ≡ s ∷ split sep t
unfolding split push_char
split-append sep String.[] t h =
    rw (nil-append (String.◌∷◌ sep t)) (ground (arith, nat_beq_iff (code sep) (code sep)))
split-append sep (String.◌∷◌ c s) t h =
    rw (cons-append c s (String.◌∷◌ sep t))
      (ground (arith, h.0, nat_beq_iff (code c) (code sep), split-append sep s t h.1))

-- The two texts differ at a place that both have.
abbrev pub differs : String → String → Bool
differs String.[] s = false
differs (String.◌∷◌ c p) String.[] = false
differs (String.◌∷◌ c p) (String.◌∷◌ d s) = not (code c == code d) || differs p s

pub cut_prefix-differs : (p s t : String) → differs p s ≡ true → cut_prefix p (s +++ t) ≡ none
unfolding cut_prefix
cut_prefix-differs String.[] s t h = absurd (ground arith)
cut_prefix-differs (String.◌∷◌ c p) String.[] t h = absurd (ground arith)
cut_prefix-differs (String.◌∷◌ c p) (String.◌∷◌ d s) t h =
    rw (cons-append d s t) (elim (Bool-cases (differs p s)) [
      | inl later ↦ ground (arith, cut_prefix-differs p s t later)
      | inr same ↦ ground arith
    ])
