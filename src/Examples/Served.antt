-- ===== src/Examples/Served.antt =====
-- Requests to the public API on the fixture.
use merger_herder_validation.Public.Pulls.{get_pull}
use merger_herder_validation.Public.Handler.Wire.{
  IsFailure, public_handler-IsFailure, service_error,
}
use merger_herder_validation.Dict.{empty}
use merger_herder_validation.Examples.{sample_world, sample_parser, sample_unicode, sample_machine}
use merger_herder_validation.Git.Gate.{is_git_path}
use merger_herder_validation.Text.{split, trim_prefix, decimal, parse_int, fields, has_prefix}
use merger_herder_validation.Public.Paths.Forms.{token_path, token_path_read}
use merger_herder_validation.Public.Handler.Frame.{IsFramed, public_handler-IsFramed}
use merger_herder_validation.Http.Replay.{
  IsSameResponse, buffered, sets, writes_header, writes, at_once, flush-buffered,
}
use merger_herder_validation.Http.{ResponseWriter, flush, ResponseBuffer, new_buffer, new_writer}
use merger_herder_validation.Public.Paths.{
  rest_path_parts, is_installation_token_request, bytes, nothing, has_malformed_numeric_path,
  plain_path, path_number, token_number, pull_number, run_number, authorization_credential,
  credential_of,
}
use merger_herder_validation.Public.Api.{ApiResult, api_error, api_response}
use merger_herder_validation.Prelude.{
  [], ◌∷◌, some, none, refl, ◌≡◌, true, arith, eq_iff, false, string_key, nat_key,
}
use merger_herder_validation.Public.Handler.{
  Codec, public_step, Endpoint, public_handler, PublicRequest, gets_pull, ApiServer, answers_with,
  context_token, to_api,
}

-- One header value, a status twice and two writes.
flush-buffered_example :
    IsSameResponse
      (flush
        (buffered
          (buffered new_buffer (sets "Content-Type" "text/plain" ∷ []))
          (writes_header 404 ∷ writes_header 200 ∷ writes "not " ∷ writes "found" ∷ []))
        new_writer)
      (at_once
        (at_once new_writer (sets "Content-Type" "text/plain" ∷ []))
        (writes_header 404 ∷ writes_header 200 ∷ writes "not " ∷ writes "found" ∷ []))
flush-buffered_example =
    flush-buffered (sets "Content-Type" "text/plain" ∷ [])
      (writes_header 404 ∷ writes_header 200 ∷ writes "not " ∷ writes "found" ∷ []) (tt, tt)
      (omega arith, (omega arith, (tt, (tt, tt))))

token_path_read_example :
    (is_installation_token_request "POST" (token_path 70) ≡ true)
    × (has_malformed_numeric_path "POST" (token_path 70) ≡ false)
    × (path_number "POST" (rest_path_parts (token_path 70)) ≡ some (decimal 70))
    × (parse_int (decimal 70) ≡ some 70)
token_path_read_example = token_path_read 70 (omega arith)

-- A codec that writes the message only.
abbrev pub sample_codec : Codec
sample_codec = record {
  encode_error = λ e. e.message;
  decode_message = λ text. some text;
  decode-encode = λ e. refl;
  to_permissions = λ p. p;
}

abbrev sample_render : (A : Type 0) → ApiResult A → ResponseBuffer
sample_render A (api_error status message) = record {
  header = empty;
  body = message;
  status = status;
}
sample_render A (api_response status payload) = record {
  header = empty;
  body = "";
  status = status;
}

-- A server that leads each request to `e`.
abbrev sample_api : Endpoint → ApiServer sample_codec
sample_api e = record {
  endpoint = λ request. e;
  render = sample_render;
  render_not_implemented = record {
    header = empty;
    body = "github service method is not implemented";
    status = 501;
  };
  render_not_found = record { header = empty; body = ""; status = 404 };
  render-error = λ A status message. (refl, refl);
}

abbrev pub sample_request : PublicRequest
sample_request = record {
  method = "GET";
  path = "/repos/acme/tool/pulls/5";
  authorization = "";
  service = "";
  basic_auth = none;
  token_body = bytes 0 nothing;
}

sample_step : public_step sample_codec sample_unicode sample_world sample_request ≡ to_api none
unfolding public_step is_git_path split trim_prefix has_malformed_numeric_path rest_path_parts
    plain_path path_number token_number pull_number run_number is_installation_token_request
    context_token authorization_credential credential_of fields parse_int has_prefix
sample_step = refl

public_handler-IsFailure_example :
    (r : ResponseWriter) × ((public_handler sample_codec
        (sample_api (gets_pull "acme" "tool" 5))
        sample_parser
        sample_unicode
        sample_machine
        (λ k. false)
        none
        sample_world
        sample_request).1
      ≡ answers_with r)
    × IsFailure sample_codec r 401 "Bad credentials"
unfolding service_error get_pull
public_handler-IsFailure_example =
    public_handler-IsFailure sample_codec (sample_api (gets_pull "acme" "tool" 5)) sample_parser
      sample_unicode sample_machine (λ k. false) none sample_world sample_request none 401
      "Bad credentials" sample_step refl (omega arith)
      (λ e. absurd (ground (arith, eq_iff "Bad credentials" "")))

public_handler-IsFramed_example :
    IsFramed sample_world
      (public_handler sample_codec
        (sample_api (gets_pull "acme" "tool" 5))
        sample_parser
        sample_unicode
        sample_machine
        (λ k. false)
        none
        sample_world
        sample_request).0
public_handler-IsFramed_example =
    public_handler-IsFramed sample_codec (sample_api (gets_pull "acme" "tool" 5)) sample_parser
      sample_unicode sample_machine (λ k. false) none sample_world sample_request
