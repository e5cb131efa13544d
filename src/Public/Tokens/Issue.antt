-- ===== src/Public/Tokens/Issue.antt =====
-- The outcomes of CreateInstallationToken.
use merger_herder_validation.Public.Auth.{authenticate_app_jwt, key_for, JwtParser, Jwt, in_window}
use merger_herder_validation.Permission.Rank.{IsCovered, select_permissions-IsCovered}
use merger_herder_validation.Permission.{select_permissions}
use merger_herder_validation.Public.Tokens.Scope.{IsWithin, select_repositories-IsWithin}
use merger_herder_validation.Public.ActionCases.{ApiRefusals}
use merger_herder_validation.Dict.{get, Keys, Dict, get-put_self, get-put_ne}
use merger_herder_validation.Prelude.{
  ℕ, Option, String, ◌≡◌, some, true, option_cases, ◌+◌, arith, nat_key, ◌≢◌, if_cases, string_key,
  not, ◌==◌, nat_beq_iff, ◌≤◌, some-injective, sym, eq_iff, ◌∙◌, refl, get_or, ◌&&◌, ◌<◌, ◌*◌, none,
  ap,
}
use merger_herder_validation.Text.{Unicode, parse_int}
use merger_herder_validation.Public.Api.{ApiResult, api_response, api_error}
use merger_herder_validation.World.{
  World, Installation, InstallationToken, token_lifetime, RsaPublicKey, App, second,
}
use merger_herder_validation.Public.Tokens.{
  issue_for_app, issue_token, TokenInfo, TokenOptions, select_repositories,
  create_installation_token, no_options, non_empty, permissions_to_github,
}

-- The token that issueToken writes, for the installation and the permissions that it may have.
-- The answer has its permissions as `to_permissions` carries them over.
pub record IsIssued (to_permissions : Dict String String → Dict String String) (w : World)
    (installation_id app_id : ℕ) (w' : World) (info : TokenInfo) : Type 0 where
  pub installation : Installation
  pub token : InstallationToken
  pub installed : get w.installs installation_id ≡ some installation
  pub own_app : installation.app_id ≡ app_id
  pub is_active : installation.active ≡ true
  pub stored : get w'.tokens info.token ≡ some token
  pub for_installation : token.installation_id ≡ installation_id
  pub within : IsWithin token.repository_ids installation.repository_ids
  pub covered :
      (name level : String)
      → get token.permissions name ≡ some level
      → IsCovered installation.permissions name level
  pub one_hour : token.expires_at ≡ w.now + token_lifetime
  pub told :
      (info.expires_at ≡ token.expires_at) × (info.permissions ≡ to_permissions token.permissions)
  pub others_kept : (value : String) → info.token ≢ value → get w'.tokens value ≡ get w.tokens value

-- An error beside the world as it was, or a token that is issued.
abbrev pub IssueOutcome : World → ℕ → ℕ → World × ApiResult TokenInfo → Type 0
IssueOutcome w installation_id app_id (w', api_error status text) = (w' ≡ w) × (400 ≤ status)
IssueOutcome w installation_id app_id (w', api_response status info) =
    (status ≡ 201) × IsIssued (λ p. p) w installation_id app_id w' info

-- An error leaves the world as it is.
pub issue_for_app_cases {ℓ} :
    (P : World × ApiResult TokenInfo → Type ℓ) (u : Unicode) (w : World)
    (app_id installation_id : ℕ) (options : TokenOptions) (random : Option String)
    → ApiRefusals P w
    → ((installation : Installation) (repository_ids : Keys ℕ) (permissions : Dict String String)
          (value : String)
        → get w.installs installation_id ≡ some installation
        → installation.app_id ≡ app_id
        → installation.active ≡ true
        → select_repositories u w installation options ≡ some repository_ids
        → select_permissions installation.permissions options.permissions ≡ some permissions
        → random ≡ some value
        → P (issue_token w installation_id repository_ids permissions value))
    → P (issue_for_app u w app_id installation_id options random)
unfolding issue_for_app
issue_for_app_cases P u w app_id installation_id options random refusal done =
    option_cases P (get w.installs installation_id) _ _ (λ _. refusal 404 _ (omega arith))
      λ installation installed.
        if_cases P (not (installation.app_id == app_id)) _ _ (λ _. refusal 404 _ (omega arith))
          λ own.
            if_cases P (not installation.active) _ _ (λ _. refusal 403 _ (omega arith))
              λ active.
                option_cases P (select_repositories u w installation options) _ _
                  (λ _. refusal 422 _ (omega arith))
                  λ repository_ids repositories.
                    option_cases P (select_permissions installation.permissions options.permissions)
                      _ _ (λ _. refusal 422 _ (omega arith))
                      λ permissions allowed.
                        option_cases P random _ _ (λ _. refusal 500 _ (omega arith))
                          λ value drawn.
                            done installation repository_ids permissions value installed
                              (ground (arith, nat_beq_iff installation.app_id app_id))
                              (ground arith) repositories allowed drawn

issue_for_app-IssueOutcome :
    (u : Unicode) (w : World) (app_id installation_id : ℕ) (options : TokenOptions)
    (random : Option String)
    → IssueOutcome w installation_id app_id
        (issue_for_app u w app_id installation_id options random)
unfolding issue_token
issue_for_app-IssueOutcome u w app_id installation_id options random =
    issue_for_app_cases (IssueOutcome w installation_id app_id) u w app_id installation_id options
      random (λ status text h. (refl, h))
      λ installation repository_ids permissions value installed own active repositories allowed _. (
        refl,
        record {
          installation = installation;
          token = record {
            value = value;
            installation_id = installation_id;
            repository_ids = repository_ids;
            permissions = permissions;
            expires_at = w.now + token_lifetime;
          };
          installed = installed;
          own_app = own;
          is_active = active;
          stored = get-put_self w.tokens value _;
          for_installation = refl;
          within =
              select_repositories-IsWithin u w installation options repository_ids repositories;
          covered = λ name level.
              select_permissions-IsCovered installation.permissions options.permissions permissions
                name level allowed;
          one_hour = refl;
          told = (refl, refl);
          others_kept = λ other differs. get-put_ne w.tokens value other _ differs;
        },
      )

-- Who asks for a token: the app of the issuer, whose key signed the JWT, in the window of the clock.
pub record IsSigner (j : JwtParser) (w w' : World) (raw : String) (app_id : ℕ) : Type 0 where
  pub jwt : Jwt
  pub key : RsaPublicKey
  pub registered : App
  pub not_empty : raw ≢ ""
  pub rs256 : jwt.algorithm ≡ "RS256"
  pub issuer : parse_int jwt.issuer ≡ some app_id
  pub known : get w.apps app_id ≡ some registered
  pub own_key : registered.public_key ≡ some key
  pub signature : j.signed raw key ≡ true
  pub issued : ℕ
  pub expires : ℕ
  pub issued_at : jwt.issued_at ≡ some issued
  pub expires_at : jwt.expires_at ≡ some expires
  pub not_early : issued ≤ w'.now
  pub not_expired : w'.now < expires
  pub short_lived : expires ≤ w'.now + 600 * second

-- The window of the clock.
in_window_lem :
    (now : ℕ) (issued_at expires_at : Option ℕ)
    → in_window now issued_at expires_at ≡ true
    → (issued expires : ℕ) × (issued_at ≡ some issued)
      × (expires_at ≡ some expires)
      × (issued ≤ now)
      × (now < expires)
      × (expires ≤ now + 600 * second)
unfolding in_window
in_window_lem now none expires_at h = absurd (ground arith)
in_window_lem now (some issued) none h = absurd (ground arith)
in_window_lem now (some issued) (some expires) h =
    (issued, expires, refl, refl, ground arith, ground arith, ground arith)

-- The key that the key function gives.
key_for_sound :
    (w : World) (t : Jwt) (k : RsaPublicKey)
    → key_for w t ≡ some k
    → (app_id : ℕ) × (a : App) × (t.algorithm ≡ "RS256")
      × (parse_int t.issuer ≡ some app_id)
      × (get w.apps app_id ≡ some a)
      × (a.public_key ≡ some k)
unfolding key_for
key_for_sound w t k =
    let Q =
      (app_id : ℕ) × (a : App) × (t.algorithm ≡ "RS256")
      × (parse_int t.issuer ≡ some app_id)
      × (get w.apps app_id ≡ some a)
      × (a.public_key ≡ some k) in
    if_cases (λ o. o ≡ some k → Q) (not (t.algorithm == "RS256")) _ _ (λ _ e. absurd (ground arith))
      λ rs256.
        option_cases (λ o. o ≡ some k → Q) (parse_int t.issuer) _ _ (λ _ e. absurd (ground arith))
          λ app_id issuer.
            option_cases (λ o. o ≡ some k → Q) (get w.apps app_id) _ _
              (λ _ e. absurd (ground arith))
              λ a known e. (app_id, a, ground (arith, eq_iff t.algorithm "RS256"), issuer, known, e)

authenticate_app_jwt-IsSigner :
    (j : JwtParser) (w w' : World) (raw : String) (app_id : ℕ)
    → authenticate_app_jwt j w w' raw ≡ some app_id
    → IsSigner j w w' raw app_id
unfolding authenticate_app_jwt
authenticate_app_jwt-IsSigner j w w' raw app_id =
    let Q : Option ℕ → Type 0 = λ o. o ≡ some app_id → IsSigner j w w' raw app_id in
    if_cases Q (raw == "") _ _ (λ _ e. absurd (ground arith))
      λ not_empty.
        option_cases Q (j.parse_with_claims raw (key_for w)) _ _ (λ _ e. absurd (ground arith))
          λ t parsed.
            if_cases Q (not (in_window w'.now t.issued_at t.expires_at)) _ _
              (λ _ e. absurd (ground arith))
              λ window e.
                let (k, key, signature) = j.parse_sound raw (key_for w) t parsed in
                let (i, a, rs256, issuer, known, own) = key_for_sound w t k key in
                let (issued, expires, at, until, not_early, not_expired, short_lived) =
                  in_window_lem w'.now t.issued_at t.expires_at (ground arith) in
                let same : i ≡ app_id = some-injective _ _ (sym issuer ∙ e) in
                record {
                  jwt = t;
                  key = k;
                  registered = a;
                  not_empty = ground (arith, eq_iff raw "");
                  rs256 = rs256;
                  issuer = e;
                  known = rw (← same) known;
                  own_key = own;
                  signature = signature;
                  issued = issued;
                  expires = expires;
                  issued_at = at;
                  expires_at = until;
                  not_early = not_early;
                  not_expired = not_expired;
                  short_lived = short_lived;
                }

-- The permissions, carried over.
carried-IsIssued :
    (to_permissions : Dict String String → Dict String String) (w w' : World)
    (installation_id app_id : ℕ) (info : TokenInfo)
    → IsIssued (λ p. p) w installation_id app_id w' info
    → IsIssued to_permissions w installation_id app_id w'
        (record info { permissions = to_permissions info.permissions })
carried-IsIssued to_permissions w w' installation_id app_id info h = record {
  installation = h.installation;
  token = h.token;
  installed = h.installed;
  own_app = h.own_app;
  is_active = h.is_active;
  stored = h.stored;
  for_installation = h.for_installation;
  within = h.within;
  covered = h.covered;
  one_hour = h.one_hour;
  told = (h.told.0, ap to_permissions h.told.1);
  others_kept = h.others_kept;
}

-- An error that leaves the world as it is, or a token for an app that has signed the request.
abbrev pub CreateOutcome :
    (Dict String String → Dict String String)
    → JwtParser
    → World
    → World
    → World
    → String
    → ℕ
    → World × ApiResult TokenInfo
    → Type 0
CreateOutcome to_permissions j w₁ w₂ w raw installation_id (w', api_error status text) =
    (w' ≡ w) × (400 ≤ status)
CreateOutcome to_permissions j w₁ w₂ w raw installation_id (w', api_response status info) =
    (app_id : ℕ) × IsSigner j w₁ w₂ raw app_id
    × (status ≡ 201)
    × IsIssued to_permissions w installation_id app_id w' info

issued_for :
    (to_permissions : Dict String String → Dict String String) (j : JwtParser) (w₁ w₂ w : World)
    (raw : String) (installation_id app_id : ℕ) (r : World × ApiResult TokenInfo)
    → IsSigner j w₁ w₂ raw app_id
    → IssueOutcome w installation_id app_id r
    → CreateOutcome to_permissions j w₁ w₂ w raw installation_id
        (r.0, permissions_to_github to_permissions r.1)
unfolding permissions_to_github
issued_for to_permissions j w₁ w₂ w raw i app_id (w', api_error status text) signer h = h
issued_for to_permissions j w₁ w₂ w raw i app_id (w', api_response status info) signer h =
    (app_id, signer, h.0, carried-IsIssued to_permissions w w' i app_id info h.1)

-- CreateInstallationToken, on every branch. It answers with an error of at least 400 and leaves the
-- world as it is. Or it answers 201 to a JWT with algorithm RS256 that is signed with the registered
-- key of the app that issued it, was issued by now on the virtual clock, and expires after now and
-- within ten minutes; then the installation belongs to this app and is active, and the stored token
-- is for it: its repositories are within the installation's, each of its permissions is granted to
-- the installation at that level or above, it expires one hour from now, the answer tells its expiry
-- and what permissionsToGitHub leaves of its permissions, and no other token changes.
pub create_installation_token-CreateOutcome :
    (to_permissions : Dict String String → Dict String String) (j : JwtParser) (u : Unicode)
    (w₁ w₂ w : World) (raw : String) (installation_id : ℕ) (given : Option TokenOptions)
    (random : Option String)
    → CreateOutcome to_permissions j w₁ w₂ w raw installation_id
        (create_installation_token to_permissions j u w₁ w₂ w raw installation_id given random)
unfolding create_installation_token
create_installation_token-CreateOutcome to_permissions j u w₁ w₂ w raw installation_id given
      random =
    let options = get_or given no_options in
    option_cases (CreateOutcome to_permissions j w₁ w₂ w raw installation_id)
      (authenticate_app_jwt j w₁ w₂ raw) _ _ (λ _. (refl, omega arith))
      λ app_id signed.
        if_cases (CreateOutcome to_permissions j w₁ w₂ w raw installation_id)
          (non_empty options.repositories && non_empty options.repository_ids) _ _
          (λ _. (refl, omega arith))
          λ _.
            issued_for to_permissions j w₁ w₂ w raw installation_id app_id
              (issue_for_app u w app_id installation_id options random)
              (authenticate_app_jwt-IsSigner j w₁ w₂ raw app_id signed)
              (issue_for_app-IssueOutcome u w app_id installation_id options random)
