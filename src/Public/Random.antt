-- ===== src/Public/Random.antt =====
-- randomToken, and that tokens of different draws do not meet.
use text.Mathlib.TextLemmas.{append_cancel_left}
use merger_herder_validation.Public.Tokens.Issue.{issue_for_app_cases}
use merger_herder_validation.Dict.{get, get-put_ne, Dict}
use merger_herder_validation.Public.Api.{ApiResult}
use merger_herder_validation.Public.Auth.{JwtParser, authenticate_app_jwt}
use merger_herder_validation.Prelude.{
  Option, List, ℕ, String, All, some, ◌≢◌, ◌≡◌, none, get_or, string_key, option_cases, if_cases,
  ◌&&◌, ◌∙◌, ap, refl, some-injective, sym,
}
use merger_herder_validation.World.{World}
use merger_herder_validation.Text.{raw_url_encode, raw_url_encode-injective, IsByte, Unicode, ◌+++◌}
use merger_herder_validation.Public.Tokens.{
  create_installation_token, issue_token, TokenOptions, TokenInfo, no_options, non_empty,
}

-- randomToken on the 32 bytes that crypto/rand gives, where it gives them.
unfoldable pub random_token : Option (List ℕ) → Option String
unfolding raw_url_encode
random_token none = none
random_token (some drawn) = some ("ghs_" +++ raw_url_encode drawn)

random_token-injective :
    (a b : List ℕ) (value : String)
    → All IsByte a
    → All IsByte b
    → random_token (some a) ≡ some value
    → random_token (some b) ≡ some value
    → a ≡ b
unfolding random_token
random_token-injective a b value ha hb first second = raw_url_encode-injective a b ha hb (
    append_cancel_left "ghs_" (raw_url_encode a) (raw_url_encode b)
      (some-injective _ _ (first ∙ sym second)))

-- The token of this value is as it was.
abbrev Keeps : World → String → World × ApiResult TokenInfo → Type 0
Keeps w value r = get r.0.tokens value ≡ get w.tokens value

-- A token that was made of other random bytes than those that CreateInstallationToken draws is as it
-- was afterwards, whatever the request: no new token takes the place of an old one.
pub create_installation_token-Keeps :
    (to_permissions : Dict String String → Dict String String) (j : JwtParser) (u : Unicode)
    (w₁ w₂ w : World) (raw : String) (installation_id : ℕ) (given : Option TokenOptions)
    (before drawn : List ℕ) (value : String)
    → All IsByte before
    → All IsByte drawn
    → before ≢ drawn
    → random_token (some before) ≡ some value
    → get
        (create_installation_token to_permissions j u w₁ w₂ w raw installation_id given
          (random_token (some drawn))).0.tokens
        value
      ≡ get w.tokens value
unfolding create_installation_token issue_token
create_installation_token-Keeps to_permissions j u w₁ w₂ w raw installation_id given before drawn
      value hb hd differs made =
    let options = get_or given no_options in
    option_cases (Keeps w value) (authenticate_app_jwt j w₁ w₂ raw) _ _ (λ _. refl)
      λ app_id signed.
        if_cases (Keeps w value)
          (non_empty options.repositories && non_empty options.repository_ids) _ _ (λ _. refl)
          λ _.
            issue_for_app_cases (Keeps w value) u w app_id installation_id options
              (random_token (some drawn)) (λ _ _ _. refl)
              λ _ _ _ fresh _ _ _ _ _ is. get-put_ne w.tokens fresh value _ (λ same.
                differs (random_token-injective before drawn value hb hd made (is ∙ ap some same)))
