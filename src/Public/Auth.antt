-- ===== src/Public/Auth.antt =====
-- Who makes a request: authenticateAppJWT and authenticateInstallationToken.
use merger_herder_validation.Prelude.{
  ℕ, ◌+◌, ◌*◌, ◌≡◌, Bool, true, false, not, ◌||◌, Option, none, some, String, ◌==◌, nat_key,
  string_key, if◌then◌else◌, ltb, if_some,
}
use merger_herder_validation.Text.{parse_int}
use merger_herder_validation.Dict.{get}
use merger_herder_validation.World.{World, InstallationToken, RsaPublicKey, second}

-- The header's algorithm and the registered claims of a JWT; times that are absent are none.
pub record Jwt : Type 0 where
  pub algorithm : String
  pub issuer : String
  pub issued_at : Option ℕ
  pub expires_at : Option ℕ

-- github.com/golang-jwt/jwt: a token is returned only where the key function gave a key for it and
-- the signature verifies under that key.
pub record JwtParser : Type 0 where
  pub signed : String → RsaPublicKey → Bool
  pub parse_with_claims : String → (Jwt → Option RsaPublicKey) → Option Jwt
  pub parse_sound :
      (raw : String) (key_for : Jwt → Option RsaPublicKey) (t : Jwt)
      → parse_with_claims raw key_for ≡ some t
      → (k : RsaPublicKey) × (key_for t ≡ some k) × (signed raw k ≡ true)

-- The key function.
unfoldable pub key_for : World → Jwt → Option RsaPublicKey
unfolding parse_int
key_for w t =
    if not (t.algorithm == "RS256")
    then none
    else if_some (parse_int t.issuer) (none)
        (λ app_id. if_some (get w.apps app_id) (none) (λ registered. registered.public_key))

-- The window of the virtual clock: issued by now, and expiring after now and within ten minutes.
unfoldable pub in_window : ℕ → Option ℕ → Option ℕ → Bool
in_window now none expires = false
in_window now (some issued) none = false
in_window now (some issued) (some expires) =
    not (ltb now issued || not (ltb now expires) || ltb (now + 600 * second) expires)

-- The world is read twice: `w` for the key and `w'`, later, for the clock.
unfoldable pub authenticate_app_jwt : JwtParser → World → World → String → Option ℕ
unfolding key_for in_window parse_int
authenticate_app_jwt j w w' raw =
    if raw == ""
    then none
    else if_some (j.parse_with_claims raw (key_for w)) (none)
        (λ t. if not (in_window w'.now t.issued_at t.expires_at) then none else parse_int t.issuer)

unfoldable pub authenticate_installation_token : World → String → Option InstallationToken
authenticate_installation_token w raw =
    if_some (get w.tokens raw) (none)
      (λ token. if ltb w.now token.expires_at then some token else none)
