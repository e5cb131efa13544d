-- ===== src/Text/Path.antt =====
-- Texts as paths: prefixes, suffixes, and the pieces between slashes.
use Prim.Native.Char.{Char, code}
use Prim.Native.String.{◌++◌ as text_append}
use mathlib.Core.Option
use merger_herder_validation.Prelude.{
  ◌≡◌, refl, Bool, false, ◌||◌, List, [], ◌∷◌, String, Option, none, some, get_or, ◌==◌, nat_key,
  string_key, if◌then◌else◌, is_some,
}

-- Go's `+` on strings
infixl 65 ◌+++◌
abbrev pub ◌+++◌ : String → String → String
◌+++◌ = text_append

-- strings.CutPrefix
unfoldable pub cut_prefix : String → String → Option String
cut_prefix String.[] s = some s
cut_prefix (String.◌∷◌ c p) String.[] = none
cut_prefix (String.◌∷◌ c p) (String.◌∷◌ d s) =
    let rest = cut_prefix p s in if code c == code d then rest else none

-- strings.HasPrefix
unfoldable pub has_prefix : String → String → Bool
unfolding cut_prefix
has_prefix s p = is_some (cut_prefix p s)

-- strings.TrimPrefix
unfoldable pub trim_prefix : String → String → String
unfolding cut_prefix
trim_prefix s p = get_or (cut_prefix p s) s

-- The part before the suffix, if the text ends in it.
unfoldable pub cut_suffix : String → String → Option String
cut_suffix p String.[] = if p == "" then some "" else none
cut_suffix p (String.◌∷◌ c s) =
    let whole = String.◌∷◌ c s in
    let rest = Option.map (String.◌∷◌ c) (cut_suffix p s) in if whole == p then some "" else rest

-- strings.HasSuffix
unfoldable pub has_suffix : String → String → Bool
unfolding cut_suffix
has_suffix s p = is_some (cut_suffix p s)

-- strings.TrimSuffix
unfoldable pub trim_suffix : String → String → String
unfolding cut_suffix
trim_suffix s p = get_or (cut_suffix p s) s

-- The text as the first piece of what follows the separator.
unfoldable pub push_char : Char → List String → List String
push_char c [] = String.◌∷◌ c "" ∷ []
push_char c (s ∷ r) = String.◌∷◌ c s ∷ r

-- strings.Split by one character
unfoldable pub split : Char → String → List String
unfolding push_char
split sep String.[] = "" ∷ []
split sep (String.◌∷◌ c s) =
    let rest = split sep s in if code c == code sep then "" ∷ rest else push_char c rest

-- strings.Join
unfoldable pub join : List String → String → String
join [] sep = ""
join (s ∷ []) sep = s
join (s ∷ t ∷ r) sep = s +++ (sep +++ join (t ∷ r) sep)

-- strings.ContainsAny(s, "/\\")
unfoldable pub contains_slash : String → Bool
contains_slash String.[] = false
contains_slash (String.◌∷◌ c s) = code c == b'/' || code c == 0x5c || contains_slash s

-- strings.Contains
unfoldable pub contains : String → String → Bool
unfolding has_prefix
contains String.[] t = t == ""
contains (String.◌∷◌ c s) t = let later = contains s t in has_prefix (String.◌∷◌ c s) t || later

split_pulls : split "/" "repos/o/n" ≡ "repos" ∷ "o" ∷ "n" ∷ []
unfolding split
split_pulls = refl

suffix_git : trim_suffix "widgets.git" ".git" ≡ "widgets"
unfolding trim_suffix
suffix_git = refl
