-- ===== src/Public/Signing.antt =====
-- The key that createApp registers is the one that the app's JWTs are verified with.
use merger_herder_validation.Text.{parse_int, decimal}
use merger_herder_validation.World.Inputs.{AppInput}
use merger_herder_validation.World.{World, RsaPublicKey}
use merger_herder_validation.Prelude.{String, Option, ◌≡◌, if_some, some, none, ◌≢◌, nat_key}
use merger_herder_validation.Machine.{Platform}
use merger_herder_validation.Reply.{Reply}
use merger_herder_validation.Public.Auth.{key_for, Jwt}
use merger_herder_validation.Control.Setup.{rsa_key}

-- The RSA key of a PEM text.
abbrev pub read_key : Platform → String → Option RsaPublicKey
read_key p pem =
    if_some (p.pem_decode pem) (none)
      (λ block. if_some (p.parse_public_key block) (none) (λ parsed. rsa_key parsed))

-- Where the app is registered, its JWTs get its key, and those of other apps the key that they got.
abbrev HasKey : Platform → World → AppInput → World × Reply → Type 0
HasKey p w input (w', reply) =
    reply.status ≡ 201
    → (key : RsaPublicKey) × (read_key p input.public_key_pem ≡ some key)
      × ((t : Jwt) → t.algorithm ≡ "RS256" → t.issuer ≡ decimal input.id → key_for w' t ≡ some key)
      × ((t : Jwt) → parse_int t.issuer ≢ some input.id → key_for w' t ≡ key_for w t)
