-- ===== src/Public/Handler/Wire.antt =====
-- What a client of the public API sees.
use merger_herder_validation.World.{World, InstallationToken}
use merger_herder_validation.Dict.{dict_laws, empty}
use merger_herder_validation.Machine.{Machine}
use merger_herder_validation.Text.{Unicode}
use merger_herder_validation.Public.Auth.{JwtParser}
use merger_herder_validation.Public.Tokens.{create_installation_token, TokenInfo}
use merger_herder_validation.Public.Actions.{cancel_workflow_run}
use merger_herder_validation.Http.Replay.{values_of, seen, final_status}
use merger_herder_validation.Prelude.{
  Option, ℕ, String, ◌≡◌, ◌∷◌, some, ◌≤◌, [], ap, ◌∙◌, none, ◌≢◌, Bool, refl, false, arith, eq_iff,
  some-injective,
}
use merger_herder_validation.Public.Pulls.{get_pull, PullInfo}
use merger_herder_validation.Http.{
  Header, ResponseWriter, send_header, set_value, send_body, ResponseBuffer, new_writer,
}
use merger_herder_validation.Public.Api.{ApiResult, api_error, api_response}
use merger_herder_validation.Public.Handler.{
  Codec, finish_api, write_error, failure_message, write_json_header, PublicRequest, Endpoint,
  gets_pull, cancels_run, creates_token, unknown, ApiServer, public_handler, public_step,
  PublicAnswer, to_api, answers_with, serve_endpoint, take_step, not_implemented,
}
use text.Mathlib.TextLemmas.{nil-append}

-- A response with a status, whose body has a message.
abbrev pub IsFailure : Codec → ResponseWriter → ℕ → String → Type 0
IsFailure codec r status message =
    ((seen r).0 ≡ status)
    × (codec.decode_message r.body ≡ some message)
    × (values_of (seen r).1 "Content-Type" ≡ "application/json; charset=utf-8" ∷ [])

-- The header of a JSON response, over a header with any values.
json_header_values :
    (h : Header)
    → values_of
        (set_value
          (set_value
            (set_value h "Content-Type" "application/json; charset=utf-8")
            "X-GitHub-Api-Version-Selected"
            "2022-11-28")
          "X-GitHub-Request-Id"
          "DTU")
        "Content-Type"
      ≡ "application/json; charset=utf-8" ∷ []
json_header_values h = simp dict_laws refl

pub write_error-IsFailure :
    (codec : Codec) (h : Header) (status : ℕ) (message : String)
    → 200 ≤ status
    → IsFailure codec
        (write_error codec (record new_writer { header = h }) status message)
        status
        message
unfolding write_error write_json_header send_header send_body
write_error-IsFailure codec h status message final =
    rw (final_status status final)
      (refl, ap codec.decode_message (nil-append _) ∙ codec.decode-encode _, json_header_values h)

failure_message_lem :
    (codec : Codec) (b : ResponseBuffer) (message : String)
    → 400 ≤ b.status
    → codec.decode_message b.body ≡ some message
    → message ≢ ""
    → failure_message codec b ≡ some message
unfolding failure_message
failure_message_lem codec b message failed found given =
    ground (arith, found, failed, eq_iff message "")

-- A failure that the API server has written reaches the client with its status and its message.
finish_api-IsFailure :
    (codec : Codec) (request : PublicRequest) (b : ResponseBuffer) (status : ℕ) (message : String)
    → b.status ≡ status
    → codec.decode_message b.body ≡ some message
    → 400 ≤ status
    → message ≢ ""
    → IsFailure codec (finish_api codec request b false) status message
unfolding finish_api
finish_api-IsFailure codec request b status message same found failed given =
    rw (failure_message_lem codec b message (rw same failed) found given, same)
      (write_error-IsFailure codec empty status message (omega (arith, failed)))

-- The error of the service's method that a request leads to.
abbrev pub error_of : {A : Type 0} → ApiResult A → Option (ℕ × String)
error_of (api_error status message) = some (status, message)
error_of (api_response status payload) = none

unfoldable pub service_error :
    Codec
    → JwtParser
    → Unicode
    → Machine
    → (ℕ → Bool)
    → Option String
    → World
    → Option InstallationToken
    → Endpoint
    → Option (ℕ × String)
unfolding get_pull cancel_workflow_run create_installation_token
service_error codec j u m signal random w token (gets_pull owner name number) =
    error_of (get_pull u m w token owner name number)
service_error codec j u m signal random w token (cancels_run owner name run_id) =
    error_of (cancel_workflow_run u signal w token owner name run_id).1
service_error codec j u m signal random w token (creates_token app_jwt installation_id given) =
    error_of
      (create_installation_token codec.to_permissions j u w w w app_jwt installation_id given
        random).1
service_error codec j u m signal random w token not_implemented = none
service_error codec j u m signal random w token unknown = none

module _ (codec : Codec) (api : ApiServer codec) (j : JwtParser) (u : Unicode) (m : Machine)
    (signal : ℕ → Bool) (random : Option String) (w : World) (request : PublicRequest) where
  -- What the handler answers, where it gives the request to the API server.
  abbrev served : Option InstallationToken → Endpoint → World × PublicAnswer
  served token e =
      let done = serve_endpoint codec api j u m signal random w request token e in
      (done.0, answers_with (finish_api codec request done.1 done.2))

  public_handler-served :
      (token : Option InstallationToken)
      → public_step codec u w request ≡ to_api token
      → public_handler codec api j u m signal random w request ≡ served token (api.endpoint request)
  unfolding take_step public_handler
  public_handler-served token step = rw (step, public_handler) refl

  -- A rendered error, finished.
  rendered-IsFailure :
      (A : Type 0) (result : ApiResult A) (status : ℕ) (message : String)
      → error_of result ≡ some (status, message)
      → 400 ≤ status
      → message ≢ ""
      → IsFailure codec (finish_api codec request (api.render A result) false) status message
  rendered-IsFailure A (api_error s t) status message e failed given =
      let pair : (s, t) ≡ (status, message) = some-injective _ _ e in
      let code : s ≡ status = ap (λ (x : ℕ × String). x.0) pair in
      let text : t ≡ message = ap (λ (x : ℕ × String). x.1) pair in
      finish_api-IsFailure codec request (api.render A (api_error s t)) status message
        ((api.render-error A s t).0 ∙ code) ((api.render-error A s t).1 ∙ ap some text) failed given
  rendered-IsFailure A (api_response s payload) status message e failed given =
      absurd (ground arith)

  served-IsFailure :
      (token : Option InstallationToken) (status : ℕ) (message : String) (e : Endpoint)
      → service_error codec j u m signal random w token e ≡ some (status, message)
      → 400 ≤ status
      → message ≢ ""
      → (r : ResponseWriter) × ((served token e).1 ≡ answers_with r)
        × IsFailure codec r status message
  unfolding serve_endpoint service_error
  served-IsFailure token status message (gets_pull owner name number) failure failed given = (
    _,
    refl,
    rendered-IsFailure PullInfo (get_pull u m w token owner name number) status message failure
        failed given,
  )
  served-IsFailure token status message (cancels_run owner name run_id) failure failed given = (
    _,
    refl,
    rendered-IsFailure (Unit {0}) (cancel_workflow_run u signal w token owner name run_id).1 status
        message failure failed given,
  )
  served-IsFailure token status message (creates_token app_jwt i options) failure failed given = (
    _,
    refl,
    rendered-IsFailure TokenInfo
        (create_installation_token codec.to_permissions j u w w w app_jwt i options random).1 status
        message failure failed given,
  )
  served-IsFailure token status message not_implemented failure failed given = absurd (ground arith)
  served-IsFailure token status message unknown failure failed given = absurd (ground arith)

  -- An error of a service's method, with a status of at least 400 and a message, is what the client
  -- sees of a request that gets to the API server: a response with that status, whose body has that
  -- message, as JSON.
  pub public_handler-IsFailure :
      (token : Option InstallationToken) (status : ℕ) (message : String)
      → public_step codec u w request ≡ to_api token
      → service_error codec j u m signal random w token (api.endpoint request)
        ≡ some (status, message)
      → 400 ≤ status
      → message ≢ ""
      → (r : ResponseWriter) × ((public_handler codec api j u m signal random w request).1
          ≡ answers_with r)
        × IsFailure codec r status message
  public_handler-IsFailure token status message step failure failed given =
      rw (public_handler-served token step)
        (served-IsFailure token status message (api.endpoint request) failure failed given)
