-- ===== src/Public/Paths/Forms.antt =====
-- The paths that a client of GitHub makes are read as they were meant.
use merger_herder_validation.Text.{
  IsPiece, trim_prefix, split, has_prefix, ◌+++◌, split-append, cut_prefix-append, IsDigits,
  cut_prefix, decimal, parse_int, parse_int-decimal, IsDigits-decimal, cut_prefix-differs,
  has_char-IsPiece,
}
use merger_herder_validation.Prelude.{
  String, ◌≡◌, false, ◌∷◌, ◌≢◌, sym, ℕ, ap, ◌∙◌, arith, eq_iff, some, [], ◌<◌, int64_sign, true,
  refl, none, Option, is_some,
}
use merger_herder_validation.Public.Paths.{
  rest_path_parts, is_installation_token_request, plain_path, has_malformed_numeric_path,
  path_number, token_number,
}
use text.Mathlib.TextLemmas.{
  cons-append, nil-append, cons-ne-nil, append_cancel_left, append_assoc as text_append_assoc,
}

split_literal : (s t : String) → IsPiece "/" s → split "/" (s +++ ("/" +++ t)) ≡ s ∷ split "/" t
split_literal s t piece = rw (cons-append "/" "" t, nil-append t) (split-append "/" s t piece)

plain_path_other :
    (path : String) → has_prefix path "/api/v3/" ≡ false → path ≢ "/api/v3" → plain_path path ≡ path
unfolding plain_path
plain_path_other path other whole = ground (arith, eq_iff path "/api/v3")

plain_path_enterprise :
    (path tail rest : String)
    → cut_prefix "/api/v3/" path ≡ some tail
    → cut_prefix "/api/v3" path ≡ some rest
    → path ≢ "/api/v3"
    → plain_path path ≡ rest
unfolding plain_path has_prefix trim_prefix
plain_path_enterprise path tail rest long short whole = ground (arith, eq_iff path "/api/v3")

slash_first : (rest : String) → "/api/v3" +++ ("/" +++ rest) ≡ "/api/v3/" +++ rest
slash_first rest = sym (text_append_assoc "/api/v3" "/" rest)

slash-ne-empty : (rest : String) → "/" +++ rest ≢ ""
slash-ne-empty rest e = cons-ne-nil "/" ("" +++ rest) (sym (cons-append "/" "" rest) ∙ e)

longer : (rest : String) → "/api/v3" +++ ("/" +++ rest) ≢ "/api/v3"
longer rest e = slash-ne-empty rest (append_cancel_left "/api/v3" ("/" +++ rest) "" e)

-- A path under the prefix of GitHub Enterprise, /api/v3, has the parts of the path without it, where
-- that is not itself under the prefix.
rest_path_parts-prefix :
    (rest : String)
    → has_prefix ("/" +++ rest) "/api/v3/" ≡ false
    → "/" +++ rest ≢ "/api/v3"
    → rest_path_parts ("/api/v3" +++ ("/" +++ rest)) ≡ rest_path_parts ("/" +++ rest)
unfolding rest_path_parts
rest_path_parts-prefix rest other whole =
    let enterprise =
      plain_path_enterprise ("/api/v3" +++ ("/" +++ rest)) rest ("/" +++ rest)
        (rw (slash_first rest) (cut_prefix-append "/api/v3/" rest))
        (cut_prefix-append "/api/v3" ("/" +++ rest)) (longer rest) in
    ap (λ (p : String). split "/" (trim_prefix p "/"))
      (enterprise ∙ sym (plain_path_other ("/" +++ rest) other whole))

IsPiece-digits : (s : String) → IsDigits s → IsPiece "/" s
IsPiece-digits String.[] h = tt
IsPiece-digits (String.◌∷◌ c s) h = (λ same. omega (arith, h.0, same), IsPiece-digits s h.2)

-- The path of the access tokens of an installation.
abbrev pub token_path : ℕ → String
token_path i = "/app/installations/" +++ (decimal i +++ "/access_tokens")

token_path_pieces :
    (t : String)
    → "/app/installations/" +++ t ≡ "/" +++ ("app" +++ ("/" +++ ("installations" +++ ("/" +++ t))))
token_path_pieces t =
    text_append_assoc "/" "app/installations/" t
    ∙ ap (λ s. "/" +++ s)
        (text_append_assoc "app" "/installations/" t
          ∙ ap (λ s. "app" +++ s)
              (text_append_assoc "/" "installations/" t
                ∙ ap (λ s. "/" +++ s) (text_append_assoc "installations" "/" t)))

plain_token_path :
    (t : String) → plain_path ("/app/installations/" +++ t) ≡ "/app/installations/" +++ t
unfolding has_prefix cut_prefix
plain_token_path t =
    let path = "/app/installations/" +++ t in
    plain_path_other path
      (ap (λ (o : Option String). is_some o)
        (cut_prefix-differs "/api/v3/" "/app/installations/" t refl))
      (λ e. none-ne-some (
        sym (cut_prefix-differs "/api/v3" "/app/installations/" t refl)
        ∙ ap (cut_prefix "/api/v3") e))
  where
    none-ne-some : ◌≡◌ {A = Option String} none (some "") → ⊥
    none-ne-some e = cc

token_path_parts :
    (i : ℕ)
    → rest_path_parts (token_path i) ≡ "app" ∷ "installations" ∷ decimal i ∷ "access_tokens" ∷ []
unfolding rest_path_parts trim_prefix
token_path_parts i =
    let number = IsPiece-digits (decimal i) (IsDigits-decimal i) in
    rw
      (
        plain_token_path (decimal i +++ "/access_tokens"),
        token_path_pieces (decimal i +++ "/access_tokens"),
        cut_prefix-append "/"
            ("app" +++ ("/" +++ ("installations" +++ ("/" +++ (decimal i +++ "/access_tokens"))))),
        split_literal "app" ("installations" +++ ("/" +++ (decimal i +++ "/access_tokens")))
            (has_char-IsPiece "/" "app" refl),
        split_literal "installations" (decimal i +++ "/access_tokens")
            (has_char-IsPiece "/" "installations" refl),
        split_literal (decimal i) "access_tokens" number,
      )
      (ap (λ l. "app" ∷ "installations" ∷ decimal i ∷ l) (unfold split in refl))

-- A request for a token of an installation, with an id below 2 ^ 63 in decimal, is recognised as
-- one, its number is not malformed, and the number that is read from it is the id.
pub token_path_read :
    (i : ℕ)
    → i < int64_sign
    → (is_installation_token_request "POST" (token_path i) ≡ true)
      × (has_malformed_numeric_path "POST" (token_path i) ≡ false)
      × (path_number "POST" (rest_path_parts (token_path i)) ≡ some (decimal i))
      × (parse_int (decimal i) ≡ some i)
unfolding is_installation_token_request has_malformed_numeric_path path_number token_number
token_path_read i fits = rw (token_path_parts i, parse_int-decimal i fits) (refl, refl, refl, refl)
