-- ===== src/Public/Paths.antt =====
-- How publicHandler reads a request: restPathParts, isInstallationTokenRequest,
-- hasMalformedNumericPath, authorizationCredential and validateInstallationTokenBody.
pub mod Forms
use merger_herder_validation.Text.{
  fields, equal_fold, parse_int, Unicode, has_prefix, trim_prefix, split,
}
use merger_herder_validation.Prelude.{
  ◌∷◌, [], String, Bool, ℕ, if◌then◌else◌, is_some, List, true, if_some, ◌^◌, false, Option, ◌==◌,
  not, ltb, some, ◌+◌, string_key, ◌||◌, ◌&&◌, none,
}
use merger_herder_validation.Public.Tokens.{TokenOptions}

-- The path without the prefix of GitHub Enterprise.
unfoldable pub plain_path : String → String
unfolding has_prefix trim_prefix
plain_path path =
    if path == "/api/v3"
    then "/"
    else if has_prefix path "/api/v3/"
    then trim_prefix path "/api/v3"
    else path

unfoldable pub rest_path_parts : String → List String
unfolding plain_path trim_prefix split
rest_path_parts path = split "/" (trim_prefix (plain_path path) "/")

-- The number in POST app/installations/{id}/access_tokens, as a text.
unfoldable pub token_number : String → List String → Option String
token_number method (a ∷ b ∷ c ∷ d ∷ []) =
    if method == "POST" && a == "app" && b == "installations" && d == "access_tokens"
    then some c
    else none
token_number method _ = none

-- The number in GET repos/{owner}/{name}/pulls/{number}.
unfoldable pub pull_number : String → List String → Option String
pull_number method (a ∷ owner ∷ name ∷ d ∷ e ∷ []) =
    if method == "GET" && a == "repos" && d == "pulls" then some e else none
pull_number method _ = none

-- The number in POST repos/{owner}/{name}/actions/runs/{id}/cancel.
unfoldable pub run_number : String → List String → Option String
run_number method (a ∷ owner ∷ name ∷ d ∷ e ∷ f ∷ g ∷ []) =
    if method == "POST" && a == "repos" && d == "actions" && e == "runs" && g == "cancel"
    then some f
    else none
run_number method _ = none

unfoldable pub is_installation_token_request : String → String → Bool
unfolding rest_path_parts token_number
is_installation_token_request method path = is_some (token_number method (rest_path_parts path))

-- The cases of the switch, in their order.
unfoldable pub path_number : String → List String → Option String
unfolding token_number pull_number run_number
path_number method parts =
    if_some (token_number method parts)
      (if_some (pull_number method parts) (run_number method parts) some) some

unfoldable pub has_malformed_numeric_path : String → String → Bool
unfolding rest_path_parts path_number parse_int
has_malformed_numeric_path method path =
    if_some (path_number method (rest_path_parts path)) (false) (λ n. not (is_some (parse_int n)))

-- The credential of an Authorization header of two fields, the first of which is Bearer or token.
unfoldable pub credential_of : Unicode → List String → Option String
unfolding equal_fold
credential_of u (scheme ∷ credential ∷ []) =
    if equal_fold u scheme "Bearer" || equal_fold u scheme "token" then some credential else none
credential_of u _ = none

unfoldable pub authorization_credential : Unicode → String → Option String
unfolding fields credential_of
authorization_credential u header = credential_of u (fields header)

-- What json.Decoder finds in the bytes that were read: nothing, no value of the type, or a value and
-- whether more follows.
pub data ParsedOptions : Type 0 where
  nothing bad : ParsedOptions
  options : TokenOptions → Bool → ParsedOptions

-- The body of a request: an error, or the number of its bytes and what the decoder finds.
pub data BodyRead : Type 0 where
  unreadable : BodyRead
  bytes : ℕ → ParsedOptions → BodyRead

abbrev pub body_limit : ℕ
body_limit = 2 ^ 20

-- io.LimitReader reads at most limit + 1 bytes.
abbrev pub limited : ℕ → ℕ
limited size = if ltb (body_limit + 1) size then body_limit + 1 else size

unfoldable pub is_single_value : ParsedOptions → Bool
is_single_value nothing = true
is_single_value bad = false
is_single_value (options o more) = not more

-- Whether validateInstallationTokenBody gives no error.
unfoldable pub valid_token_body : BodyRead → Bool
unfolding is_single_value
valid_token_body unreadable = false
valid_token_body (bytes size parsed) =
    if ltb body_limit (limited size) then false else is_single_value parsed
