-- ===== src/Control/Client.antt =====
-- The control client of dtu/client.go, for a base URL with the path /, as Start gives it.
pub mod Calls
use merger_herder_validation.Reply.{StateSnapshot}
use merger_herder_validation.Text.{◌+++◌}
use merger_herder_validation.Execution.Prepare.{Attempt, if_gives, fails}
use merger_herder_validation.Prelude.{
  String, ℕ, Option, if◌then◌else◌, some, ltb, ◌||◌, not, ◌==◌, leb, nat_key, none,
}
use merger_herder_validation.Control.Routes.{
  Wire, ControlRequest, Operation, ControlResponse, post_app, post_installation, InputOf,
  post_repository, post_pull, post_pull_state, post_clock, post_workflow, post_delivery,
  post_duplicate, post_transition, post_execution,
}

-- The path of each operation.
abbrev pub client_path : Operation → String
client_path post_app = "apps"
client_path post_installation = "installations"
client_path post_repository = "repositories"
client_path post_pull = "pulls"
client_path post_pull_state = "pulls/state"
client_path post_clock = "clock/advance"
client_path post_workflow = "workflows"
client_path post_delivery = "deliveries"
client_path post_duplicate = "events/duplicate"
client_path post_transition = "workflow-runs/transition"
client_path post_execution = "workflow-runs/execute"

-- BaseURL.ResolveReference
abbrev pub resolve : String → String
resolve path = "/" +++ path

abbrev pub post_request : Operation → String → ControlRequest
post_request o body = record { method = "POST"; path = resolve (client_path o); body = body }

abbrev pub state_request : ControlRequest
state_request = record { method = "GET"; path = resolve "state"; body = "" }

-- What post makes of the response; `status_line` gives response.Status. none is no error.
unfoldable pub post_result : Wire → (ℕ → String) → Operation → ControlResponse → Option String
post_result wire status_line o response =
    if ltb response.status 200 || leb 300 response.status
    then some (
        "control "
        +++ (client_path o
            +++ (" returned "
                +++ (status_line response.status
                    +++ (": " +++ wire.decode_message response.body)))))
    else none

-- post; `transport` is http.NewRequestWithContext and httpClient.Do.
unfoldable pub post :
    Wire
    → (ℕ → String)
    → (ControlRequest → Attempt ControlResponse)
    → (o : Operation) → InputOf o
    → Option String
unfolding post_result
post wire status_line transport o input =
    if_gives (wire.encode o input) (λ error. some error)
      λ body.
        if_gives (transport (post_request o body)) (λ error. some error)
          λ response. post_result wire status_line o response

-- State
unfoldable pub get_snapshot :
    Wire → (ℕ → String) → (ControlRequest → Attempt ControlResponse) → Attempt StateSnapshot
get_snapshot wire status_line transport =
    if_gives (transport state_request) (λ error. fails error)
      λ response.
        if not (response.status == 200)
        then fails ("control state returned " +++ status_line response.status)
        else wire.decode_snapshot response.body
