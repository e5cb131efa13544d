-- ===== src/Public/Handler.antt =====
-- publicHandler of dtu/public.go, with handleUnsupported and writeError.
pub mod Wire
pub mod Frame
use merger_herder_validation.Public.Pulls.{PullInfo}
use merger_herder_validation.Public.Tokens.{TokenInfo}
use merger_herder_validation.Git.Gate.{unsupported}
use merger_herder_validation.Public.Tokens.{create_installation_token, TokenOptions}
use merger_herder_validation.Dict.{get, empty, Dict}
use merger_herder_validation.Machine.{Machine}
use merger_herder_validation.World.{World, InstallationToken}
use merger_herder_validation.Public.Actions.{cancel_workflow_run}
use merger_herder_validation.Text.{Unicode, split, decimal, trim_prefix, ◌+++◌}
use merger_herder_validation.Public.Pulls.{get_pull}
use merger_herder_validation.Public.Unsupported.{record_unsupported}
use merger_herder_validation.Public.Paths.{
  authorization_credential, has_malformed_numeric_path, is_installation_token_request, BodyRead,
  valid_token_body,
}
use merger_herder_validation.Http.{
  send_body, ResponseBuffer, ResponseWriter, send_header, flush, Header, new_writer, set_value,
}
use merger_herder_validation.Public.Api.{ApiResult, api_error, api_response}
use merger_herder_validation.Public.Auth.{JwtParser, authenticate_installation_token}
use merger_herder_validation.Git.Gate.{git_gate, is_git_path, Gate, GitRequest}
use merger_herder_validation.Prelude.{
  String, List, get_or, if◌then◌else◌, Option, Bool, ℕ, ◌==◌, ◌≡◌, if_some, leb, string_key, none,
  some, [], false, true, ◌&&◌, ◌∷◌, not,
}

-- The payload of writeError.
pub record ErrorPayload : Type 0 where
  pub message : String
  pub documentation_url : String
  pub status : String

-- encoding/json: the encoding of that payload, and the message that is read from a body, where it is
-- a JSON object. What is encoded is read back. And the entries of a map of permissions that are left
-- when it is encoded and decoded as github.InstallationPermissions.
pub record Codec : Type 0 where
  pub encode_error : ErrorPayload → String
  pub decode_message : String → Option String
  pub decode-encode : (e : ErrorPayload) → decode_message (encode_error e) ≡ some e.message
  pub to_permissions : Dict String String → Dict String String

-- writeJSON up to the body.
unfoldable pub write_json_header : ResponseWriter → ℕ → ResponseWriter
unfolding send_header
write_json_header r status =
    let typed = set_value r.header "Content-Type" "application/json; charset=utf-8" in
    let versioned = set_value typed "X-GitHub-Api-Version-Selected" "2022-11-28" in
    let named = set_value versioned "X-GitHub-Request-Id" "DTU" in
    send_header (record r { header = named }) status

unfoldable pub write_error : Codec → ResponseWriter → ℕ → String → ResponseWriter
unfolding write_json_header send_body decimal
write_error codec r status message = send_body (write_json_header r status) (
    codec.encode_error (record {
      message = message;
      documentation_url = "https://docs.github.com/rest";
      status = decimal status;
    }))

-- What the handler reads of a request; `basic_auth` and `service` are for the Git gateway.
pub record PublicRequest : Type 0 where
  pub method : String
  pub path : String
  pub authorization : String
  pub service : String
  pub basic_auth : Option (String × String)
  pub token_body : BodyRead

-- w.recordUnsupported and the answer to an endpoint that is not supported.
unfoldable pub unsupported_response : Codec → PublicRequest → ResponseWriter
unfolding write_error
unsupported_response codec request =
    write_error codec (record new_writer { header = set_value empty "X-DTU-Unsupported" "true" })
      404 ("Unsupported endpoint: " +++ (request.method +++ (" " +++ request.path)))

unfoldable pub handle_unsupported : Codec → World → PublicRequest → World × ResponseWriter
unfolding record_unsupported unsupported_response
handle_unsupported codec w request =
    (record_unsupported w request.method request.path, unsupported_response codec request)

-- strings.Split of the path without its first slash
abbrev pub path_parts : PublicRequest → List String
path_parts request = split "/" (trim_prefix request.path "/")

-- Where the handler sends a request before the API server sees it.
pub data PublicStep : Type 0 where
  to_git : PublicStep
  answered : ResponseWriter → PublicStep
  to_api : Option InstallationToken → PublicStep

-- The token of the request's context.
unfoldable pub context_token : Unicode → World → PublicRequest → Option InstallationToken
unfolding authorization_credential authenticate_installation_token
context_token u w request =
    if_some (authorization_credential u request.authorization) (none)
      (authenticate_installation_token w)

unfoldable pub public_step : Codec → Unicode → World → PublicRequest → PublicStep
unfolding is_git_path has_malformed_numeric_path is_installation_token_request valid_token_body
    write_error context_token
public_step codec u w request =
    if is_git_path (path_parts request)
    then to_git
    else if has_malformed_numeric_path request.method request.path
    then answered (write_error codec new_writer 404 "Not Found")
    else if is_installation_token_request request.method request.path
        && not (valid_token_body request.token_body)
    then answered (write_error codec new_writer 422 "Validation Failed")
    else to_api (context_token u w request)

-- The endpoints that the program serves, with the arguments of the service's method, and the others
-- of the three services, which githubserver's Unimplemented services answer.
pub data Endpoint : Type 0 where
  gets_pull : String → String → ℕ → Endpoint
  cancels_run : String → String → ℕ → Endpoint
  creates_token : String → ℕ → Option TokenOptions → Endpoint
  not_implemented : Endpoint
  unknown : Endpoint

-- github.com/tylergannon/go-github-server: a request leads to one method of a service, to a method
-- that the program does not implement, which the embedded service answers, or to the callback for
-- what is not found; and a result is written to the response, an error of the method with its status
-- and its message.
pub record ApiServer (codec : Codec) : Type 1 where
  pub endpoint : PublicRequest → Endpoint
  pub render : (A : Type 0) → ApiResult A → ResponseBuffer
  pub render_not_implemented : ResponseBuffer
  pub render_not_found : ResponseBuffer
  pub render-error :
      (A : Type 0) (status : ℕ) (message : String)
      → ((render A (api_error status message)).status ≡ status)
        × (codec.decode_message (render A (api_error status message)).body ≡ some message)

-- What the server makes of a request that leads to an endpoint: the world, the response, and whether
-- it called back.
unfoldable pub serve_endpoint :
    (codec : Codec)
    → ApiServer codec
    → JwtParser
    → Unicode
    → Machine
    → (ℕ → Bool)
    → Option String
    → World
    → PublicRequest
    → Option InstallationToken
    → Endpoint
    → World × ResponseBuffer × Bool
unfolding get_pull cancel_workflow_run create_installation_token record_unsupported
serve_endpoint codec api j u m signal random w request token (gets_pull owner name number) =
    (w, api.render PullInfo (get_pull u m w token owner name number), false)
serve_endpoint codec api j u m signal random w request token (cancels_run owner name run_id) =
    let done = cancel_workflow_run u signal w token owner name run_id in
    (done.0, api.render (Unit {0}) done.1, false)
serve_endpoint codec api j u m signal random w request token
      (creates_token app_jwt installation_id given) =
    let done =
      create_installation_token codec.to_permissions j u w w w app_jwt installation_id given
        random in
    (done.0, api.render TokenInfo done.1, false)
serve_endpoint codec api j u m signal random w request token not_implemented =
    (w, api.render_not_implemented, false)
serve_endpoint codec api j u m signal random w request token unknown =
    (record_unsupported w request.method request.path, api.render_not_found, true)

-- buffer.header.Get(key)
abbrev pub first_value : Header → String → String
first_value h key = elim (get_or (get h key) []) [ [] ↦ "" | value ∷ rest ↦ value ]

unfoldable pub with_charset : ResponseBuffer → ResponseBuffer
with_charset b =
    if first_value b.header "Content-Type" == "application/json"
    then record b { header = set_value b.header "Content-Type" "application/json; charset=utf-8" }
    else b

-- The message of a failure that the server wrote.
unfoldable pub failure_message : Codec → ResponseBuffer → Option String
failure_message codec b =
    if leb 400 b.status
    then if_some (codec.decode_message b.body) (none)
        (λ text. if text == "" then none else some text)
    else none

unfoldable pub finish_api : Codec → PublicRequest → ResponseBuffer → Bool → ResponseWriter
unfolding unsupported_response failure_message write_error with_charset flush
finish_api codec request b called_back =
    if called_back
    then unsupported_response codec request
    else if_some (failure_message codec b) (flush (with_charset b) new_writer)
        (λ text. write_error codec new_writer b.status text)

-- The answer of the handler: the Git gateway's, or a response.
pub data PublicAnswer : Type 0 where
  via_git : Gate → PublicAnswer
  answers_with : ResponseWriter → PublicAnswer

abbrev pub git_request : PublicRequest → GitRequest
git_request request = record {
  method = request.method;
  service = request.service;
  basic_auth = request.basic_auth;
}

-- serveGit's first steps: an unsupported request is recorded and answered.
unfoldable pub git_answer : Codec → World → PublicRequest → Gate → World × PublicAnswer
unfolding handle_unsupported
git_answer codec w request unsupported =
    let done = handle_unsupported codec w request in (done.0, answers_with done.1)
git_answer codec w request gate = (w, via_git gate)

-- How the handler goes on after each first step.
unfoldable pub take_step :
    (codec : Codec)
    → ApiServer codec
    → JwtParser
    → Unicode
    → Machine
    → (ℕ → Bool)
    → Option String
    → World
    → PublicRequest
    → PublicStep
    → World × PublicAnswer
unfolding git_gate git_answer serve_endpoint finish_api
take_step codec api j u m signal random w request to_git =
    git_answer codec w request (git_gate u w (git_request request) (path_parts request))
take_step codec api j u m signal random w request (answered response) = (w, answers_with response)
take_step codec api j u m signal random w request (to_api token) =
    let done =
      serve_endpoint codec api j u m signal random w request token (api.endpoint request) in
    (done.0, answers_with (finish_api codec request done.1 done.2))

unfoldable pub public_handler :
    (codec : Codec)
    → ApiServer codec
    → JwtParser
    → Unicode
    → Machine
    → (ℕ → Bool)
    → Option String
    → World
    → PublicRequest
    → World × PublicAnswer
unfolding public_step take_step
public_handler codec api j u m signal random w request =
    take_step codec api j u m signal random w request (public_step codec u w request)
