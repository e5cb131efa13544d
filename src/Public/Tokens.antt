-- ===== src/Public/Tokens.antt =====
-- CreateInstallationToken and selectRepositories.
pub mod Scope
pub mod Issue
use merger_herder_validation.Prelude.{
  ℕ, ◌+◌, Bool, true, false, not, ◌&&◌, Option, none, some, List, [], ◌∷◌, map, String, ◌==◌,
  nat_key, string_key, if◌then◌else◌, get_or, if_some,
}
use merger_herder_validation.Text.{Unicode, equal_fold}
use merger_herder_validation.Dict.{Dict, Keys, empty, get, put, has, keys}
use merger_herder_validation.Permission.{select_permissions}
use merger_herder_validation.World.{
  World, Installation, Repository, token_lifetime, zero_repository,
}
use merger_herder_validation.Events.{increment, full_name}
use merger_herder_validation.Public.Api.{ApiResult, api_response, api_refuse, api_error}
use merger_herder_validation.Public.Auth.{JwtParser, authenticate_app_jwt}

-- github.InstallationTokenOptions
pub record TokenOptions : Type 0 where
  pub repositories : List String
  pub repository_ids : List ℕ
  pub permissions : Option (Dict String String)

-- new(github.InstallationTokenOptions)
abbrev pub no_options : TokenOptions
no_options = record { repositories = []; repository_ids = []; permissions = none }

-- github.Repository and github.InstallationToken, as far as the method fills them in.
pub record RepositoryInfo : Type 0 where
  pub id : ℕ
  pub name : String
  pub full_name : String
  pub owner : String

pub record TokenInfo : Type 0 where
  pub token : String
  pub expires_at : ℕ
  pub permissions : Dict String String
  pub repositories : List RepositoryInfo

unfoldable pub repository_info : Repository → RepositoryInfo
repository_info r = record { id = r.id; name = r.name; full_name = full_name r; owner = r.owner }

-- len(list) > 0
abbrev pub non_empty {ℓ} : {A : Type ℓ} → List A → Bool
non_empty [] = false
non_empty (x ∷ xs) = true

-- The loop over the wanted IDs.
unfoldable pub select_ids : Keys ℕ → List ℕ → Keys ℕ → Option (Keys ℕ)
select_ids granted [] selected = some selected
select_ids granted (i ∷ rest) selected =
    let more = select_ids granted rest (put selected i tt) in if has granted i then more else none

-- The loop over the installation's repositories, in the order of the range.
unfoldable pub named_repository : Unicode → World → String → List ℕ → Option ℕ
named_repository u w name [] = none
named_repository u w name (i ∷ rest) =
    if equal_fold u (get_or (get w.repositories i) zero_repository).name name
    then some i
    else named_repository u w name rest

-- The loop over the wanted names.
unfoldable pub select_names : Unicode → World → List ℕ → List String → Keys ℕ → Option (Keys ℕ)
unfolding named_repository
select_names u w granted [] selected = some selected
select_names u w granted (name ∷ rest) selected =
    if_some (named_repository u w name granted) (none)
      (λ i. select_names u w granted rest (put selected i tt))

unfoldable pub select_repositories : Unicode → World → Installation → TokenOptions → Option (Keys ℕ)
unfolding select_ids select_names
select_repositories u w installation options =
    if not (non_empty options.repository_ids) && not (non_empty options.repositories)
    then some installation.repository_ids
    else if_some (select_ids installation.repository_ids options.repository_ids empty) (none)
        (λ selected.
          select_names u w (keys installation.repository_ids) options.repositories selected)

-- w.tokens[value] = installationToken{…}, and the payload.
unfoldable pub issue_token :
    World → ℕ → Keys ℕ → Dict String String → String → World × ApiResult TokenInfo
unfolding repository_info
issue_token w installation_id repository_ids permissions value =
    let expires_at = w.now + token_lifetime in
    (
      record w {
        tokens = put w.tokens value (record {
          value = value;
          installation_id = installation_id;
          repository_ids = repository_ids;
          permissions = permissions;
          expires_at = expires_at;
        });
        mutations = increment w.mutations;
      },
      api_response 201 (record {
        token = value;
        expires_at = expires_at;
        permissions = permissions;
        repositories =
            map (λ i. repository_info (get_or (get w.repositories i) zero_repository))
              (keys repository_ids);
      }),
    )

-- The critical section, and the payload with the permissions that permissionsToGitHub is called with;
-- `random` is randomToken's result, none where the source of randomness
-- fails.
unfoldable pub issue_for_app :
    Unicode → World → ℕ → ℕ → TokenOptions → Option String → World × ApiResult TokenInfo
unfolding select_repositories select_permissions issue_token
issue_for_app u w app_id installation_id options random =
    if_some (get w.installs installation_id) (api_refuse w 404 "Not Found") (λ installation.
      if not (installation.app_id == app_id)
      then api_refuse w 404 "Not Found"
      else if not installation.active
      then api_refuse w 403 "Installation suspended"
      else if_some (select_repositories u w installation options)
          (api_refuse w 422 "Validation Failed")
          (λ repository_ids.
            if_some (select_permissions installation.permissions options.permissions)
              (api_refuse w 422 "Validation Failed")
              (λ permissions.
                if_some random (api_refuse w 500 "Internal Server Error")
                  (λ value. issue_token w installation_id repository_ids permissions value))))

-- permissionsToGitHub, on the payload: `to_permissions` gives the entries that are left of a map when
-- encoding/json carries it over to github.InstallationPermissions.
unfoldable pub permissions_to_github :
    (Dict String String → Dict String String) → ApiResult TokenInfo → ApiResult TokenInfo
permissions_to_github to_permissions (api_error status message) = api_error status message
permissions_to_github to_permissions (api_response status info) =
    api_response status (record info { permissions = to_permissions info.permissions })

-- CreateInstallationToken; `w₁` and `w₂` are the worlds that the JWT's check reads.
unfoldable pub create_installation_token :
    (Dict String String → Dict String String)
    → JwtParser
    → Unicode
    → World
    → World
    → World
    → String
    → ℕ
    → Option TokenOptions
    → Option String
    → World × ApiResult TokenInfo
unfolding authenticate_app_jwt issue_for_app permissions_to_github
create_installation_token to_permissions j u w₁ w₂ w app_jwt installation_id given random =
    let options = get_or given no_options in
    if_some (authenticate_app_jwt j w₁ w₂ app_jwt) (api_refuse w 401 "Bad credentials") (λ app_id.
      if non_empty options.repositories && non_empty options.repository_ids
      then api_refuse w 422 "Validation Failed"
      else let issued = issue_for_app u w app_id installation_id options random in
        (issued.0, permissions_to_github to_permissions issued.1))
