-- ===== src/Public/Handler/Frame.antt =====
-- What the public API leaves as it is.
use merger_herder_validation.Git.Gate.{unsupported, denied, granted, panics, Gate}
use merger_herder_validation.Public.Tokens.Issue.{issue_for_app_cases}
use merger_herder_validation.Public.ActionCases.{cancel_cases}
use merger_herder_validation.Events.{increment}
use merger_herder_validation.Public.Api.{ApiResult}
use merger_herder_validation.Machine.{Machine}
use merger_herder_validation.Public.Auth.{JwtParser, authenticate_app_jwt}
use merger_herder_validation.Text.{Unicode}
use merger_herder_validation.Dict.{Dict, get}
use merger_herder_validation.Prelude.{
  ◌≡◌, String, length, ℕ, Bool, Option, List, set, true, get_or, refl, length-set, option_cases,
  if_cases, ◌&&◌, nat_key, ◌⊎◌, inr, inl,
}
use merger_herder_validation.World.{
  World, InstallationToken, WorkflowRun, ActiveRun, UnsupportedRequest, zero_active_run,
}
use merger_herder_validation.Public.Actions.{request_cancellation, interrupt_run, process_of}
use merger_herder_validation.Public.Unsupported.{record_unsupported}
use merger_herder_validation.Public.Tokens.{
  create_installation_token, issue_token, TokenOptions, TokenInfo, no_options, non_empty,
}
use merger_herder_validation.Public.Handler.{
  answered, public_handler, serve_endpoint, Codec, handle_unsupported, ApiServer, PublicRequest,
  Endpoint, gets_pull, cancels_run, creates_token, not_implemented, unknown, git_answer,
  public_step, take_step, PublicStep, to_api, to_git,
}

-- All that the control API has set up, the clock, the logs of events, deliveries and errors, the
-- counters of runs and events, and the number of runs; at most one mutation is counted.
pub record IsFramed (w w' : World) : Type 0 where
  pub clock : w'.now ≡ w.now
  pub apps : w'.apps ≡ w.apps
  pub installs : w'.installs ≡ w.installs
  pub repositories : w'.repositories ≡ w.repositories
  pub repo_names : w'.repo_names ≡ w.repo_names
  pub pulls : w'.pulls ≡ w.pulls
  pub workflows : w'.workflows ≡ w.workflows
  pub receive_locks : w'.receive_locks ≡ w.receive_locks
  pub pending_events : w'.pending_events ≡ w.pending_events
  pub delivery_attempts : w'.delivery_attempts ≡ w.delivery_attempts
  pub observation_errors : w'.observation_errors ≡ w.observation_errors
  pub next_run_id : w'.next_run_id ≡ w.next_run_id
  pub next_event_id : w'.next_event_id ≡ w.next_event_id
  pub mutations : (w'.mutations ≡ w.mutations) ⊎ (w'.mutations ≡ increment w.mutations)
  pub run_count : length w'.workflow_runs ≡ length w.workflow_runs

-- Two worlds that differ in tokens, claims, the unsupported requests, the mutations and the runs.
framed :
    (w : World) (tokens : Dict String InstallationToken) (runs : List WorkflowRun)
    (active : Dict ℕ ActiveRun) (others : List UnsupportedRequest) (mutations : ℕ)
    → length runs ≡ length w.workflow_runs
    → (mutations ≡ w.mutations) ⊎ (mutations ≡ increment w.mutations)
    → IsFramed w (record w {
      tokens = tokens;
      workflow_runs = runs;
      active_runs = active;
      unsupported = others;
      mutations = mutations;
    })
framed w tokens runs active others mutations same counted = record {
  clock = refl;
  apps = refl;
  installs = refl;
  repositories = refl;
  repo_names = refl;
  pulls = refl;
  workflows = refl;
  receive_locks = refl;
  pending_events = refl;
  delivery_attempts = refl;
  observation_errors = refl;
  next_run_id = refl;
  next_event_id = refl;
  mutations = counted;
  run_count = same;
}

unchanged : (w : World) → IsFramed w w
unchanged w =
    framed w w.tokens w.workflow_runs w.active_runs w.unsupported w.mutations refl (inl refl)

request_cancellation-IsFramed :
    (signal : ℕ → Bool) (w : World) (i : ℕ) (r : WorkflowRun)
    → IsFramed w (request_cancellation signal w i r)
unfolding request_cancellation interrupt_run
request_cancellation-IsFramed signal w i r =
    let runs = set w.workflow_runs i (record r { cancellation_requested = true }) in
    let P : World → Type 0 = λ x. IsFramed w (record x { mutations = increment x.mutations }) in
    let still =
      framed w w.tokens runs w.active_runs w.unsupported (increment w.mutations)
        (length-set w.workflow_runs i _) (inr refl) in
    option_cases P (process_of (get_or (get w.active_runs r.id) zero_active_run)) _ _ (λ _. still)
      λ p _.
        if_cases P (signal p) _ _
          (λ _.
            framed w w.tokens runs _ w.unsupported (increment w.mutations)
              (length-set w.workflow_runs i _) (inr refl))
          (λ _. still)

record_unsupported-IsFramed :
    (w : World) (method path : String) → IsFramed w (record_unsupported w method path)
unfolding record_unsupported
record_unsupported-IsFramed w method path =
    framed w w.tokens w.workflow_runs w.active_runs _ w.mutations refl (inl refl)

create_installation_token-IsFramed :
    (to_permissions : Dict String String → Dict String String) (j : JwtParser) (u : Unicode)
    (w : World) (raw : String) (i : ℕ) (given : Option TokenOptions) (random : Option String)
    → IsFramed w (create_installation_token to_permissions j u w w w raw i given random).0
unfolding create_installation_token issue_token
create_installation_token-IsFramed to_permissions j u w raw i given random =
    let P : World × ApiResult TokenInfo → Type 0 = λ r. IsFramed w r.0 in
    let options = get_or given no_options in
    option_cases P (authenticate_app_jwt j w w raw) _ _ (λ _. unchanged w)
      λ app_id _.
        if_cases P (non_empty options.repositories && non_empty options.repository_ids) _ _
          (λ _. unchanged w)
          λ _.
            issue_for_app_cases P u w app_id i options random (λ _ _ _. unchanged w)
              λ _ _ _ value _ _ _ _ _ _.
                framed w _ w.workflow_runs w.active_runs w.unsupported (increment w.mutations) refl
                  (inr refl)

serve_endpoint-IsFramed :
    (codec : Codec) (api : ApiServer codec) (j : JwtParser) (u : Unicode) (m : Machine)
    (signal : ℕ → Bool) (random : Option String) (w : World) (request : PublicRequest)
    (token : Option InstallationToken) (e : Endpoint)
    → IsFramed w (serve_endpoint codec api j u m signal random w request token e).0
unfolding serve_endpoint
serve_endpoint-IsFramed codec api j u m signal random w request token (gets_pull owner name n) =
    unchanged w
serve_endpoint-IsFramed codec api j u m signal random w request token
      (cancels_run owner name run_id) =
    cancel_cases (λ r. IsFramed w r.0) u signal w token owner name run_id (λ _ _ _. unchanged w)
      (λ _ i r _ _. request_cancellation-IsFramed signal w i r)
serve_endpoint-IsFramed codec api j u m signal random w request token (creates_token raw i given) =
    create_installation_token-IsFramed codec.to_permissions j u w raw i given random
serve_endpoint-IsFramed codec api j u m signal random w request token not_implemented = unchanged w
serve_endpoint-IsFramed codec api j u m signal random w request token unknown =
    record_unsupported-IsFramed w request.method request.path

git_answer-IsFramed :
    (codec : Codec) (w : World) (request : PublicRequest) (gate : Gate)
    → IsFramed w (git_answer codec w request gate).0
unfolding git_answer handle_unsupported
git_answer-IsFramed codec w request unsupported =
    record_unsupported-IsFramed w request.method request.path
git_answer-IsFramed codec w request (denied status message) = unchanged w
git_answer-IsFramed codec w request (granted service r token receive) = unchanged w
git_answer-IsFramed codec w request panics = unchanged w

take_step-IsFramed :
    (codec : Codec) (api : ApiServer codec) (j : JwtParser) (u : Unicode) (m : Machine)
    (signal : ℕ → Bool) (random : Option String) (w : World) (request : PublicRequest)
    (step : PublicStep)
    → IsFramed w (take_step codec api j u m signal random w request step).0
unfolding take_step
take_step-IsFramed codec api j u m signal random w request to_git =
    git_answer-IsFramed codec w request _
take_step-IsFramed codec api j u m signal random w request (answered response) = unchanged w
take_step-IsFramed codec api j u m signal random w request (to_api token) =
    serve_endpoint-IsFramed codec api j u m signal random w request token (api.endpoint request)

-- Whatever request comes to the public API, what the control API has set up, the clock, the logs of
-- events, deliveries and observation errors, the counters of runs and events and the number of runs
-- stay as they are, and at most one mutation is counted; for the Git gateway, up to the point where
-- the backend runs.
pub public_handler-IsFramed :
    (codec : Codec) (api : ApiServer codec) (j : JwtParser) (u : Unicode) (m : Machine)
    (signal : ℕ → Bool) (random : Option String) (w : World) (request : PublicRequest)
    → IsFramed w (public_handler codec api j u m signal random w request).0
unfolding public_handler
public_handler-IsFramed codec api j u m signal random w request =
    take_step-IsFramed codec api j u m signal random w request (public_step codec u w request)
