-- ===== src/Control/Routes.antt =====
-- controlHandler of dtu/control.go: which handler a request gets to, over HTTP and JSON.
use merger_herder_validation.Runs.{transition_workflow_run}
use merger_herder_validation.Reply.{Decoded, Reply, ReplyBody, StateSnapshot}
use merger_herder_validation.Control.Pulls.{
  get_state, create_pull_request, change_pull_request_state, advance_time, configure_workflow,
}
use merger_herder_validation.Machine.{Platform, Machine}
use merger_herder_validation.Control.Setup.{create_app, create_installation, create_repository}
use merger_herder_validation.World.Inputs.{
  AppInput, InstallationInput, RepositoryInput, PullRequestInput, PullRequestStateInput,
  AdvanceTimeInput, WorkflowInput, DeliveryInput, DuplicateEventInput, WorkflowTransitionInput,
  ExecuteWorkflowInput,
}
use merger_herder_validation.World.{World}
use merger_herder_validation.Prelude.{
  List, String, ℕ, ◌∷◌, Option, Bool, [], if◌then◌else◌, ◌==◌, ◌||◌, not, ◌&&◌, string_key, some,
  if_some, none,
}
use merger_herder_validation.Execution.Prepare.{Attempt, Launch}
use merger_herder_validation.Execution.Complete.{execute_workflow_run}
use merger_herder_validation.Delivery.{send_event, finish_delivery, duplicate_event, Network}

-- The operations that take a body.
pub data Operation : Type 0 where
  post_app post_installation post_repository post_pull post_pull_state post_clock : Operation
  post_workflow post_delivery post_duplicate post_transition post_execution : Operation

-- The input of each.
abbrev pub InputOf : Operation → Type 0
InputOf post_app = AppInput
InputOf post_installation = InstallationInput
InputOf post_repository = RepositoryInput
InputOf post_pull = PullRequestInput
InputOf post_pull_state = PullRequestStateInput
InputOf post_clock = AdvanceTimeInput
InputOf post_workflow = WorkflowInput
InputOf post_delivery = DeliveryInput
InputOf post_duplicate = DuplicateEventInput
InputOf post_transition = WorkflowTransitionInput
InputOf post_execution = ExecuteWorkflowInput

-- encoding/json, as the handlers and the client use it. The message of a body that has none is "".
pub record Wire : Type 0 where
  pub encode : (o : Operation) → InputOf o → Attempt String
  pub decode : (o : Operation) → String → Decoded (InputOf o)
  pub encode_reply : ReplyBody → String
  pub decode_message : String → String
  pub decode_snapshot : String → Attempt StateSnapshot

-- What the handlers call: git before and after a checkout, the network, and the runner of an
-- execution.
pub record Surroundings : Type 0 where
  pub platform : Platform
  pub digest : String → String
  pub machine : Machine
  pub after : Machine
  pub network : Network
  pub start : Launch → Option ℕ
  pub waited : Bool
  pub output : String

-- The handler of an operation, where no other request comes between its steps.
unfoldable pub run_operation :
    Surroundings → (o : Operation) → World → Decoded (InputOf o) → Option (World × Reply)
unfolding create_app create_installation create_repository create_pull_request
    change_pull_request_state advance_time configure_workflow send_event finish_delivery
    duplicate_event transition_workflow_run execute_workflow_run
run_operation x post_app w body = some (create_app x.platform w body)
run_operation x post_installation w body = some (create_installation w body)
run_operation x post_repository w body = some (create_repository x.platform x.machine w body)
run_operation x post_pull w body = some (create_pull_request x.machine w body)
run_operation x post_pull_state w body = some (change_pull_request_state w body)
run_operation x post_clock w body = some (advance_time x.platform w body)
run_operation x post_workflow w body = some (configure_workflow x.machine w body)
run_operation x post_delivery w body = some (finish_delivery w (send_event x.network w body))
run_operation x post_duplicate w body = some (duplicate_event w body)
run_operation x post_transition w body = some (transition_workflow_run w body)
run_operation x post_execution w body =
    execute_workflow_run x.platform x.digest x.machine x.after x.start x.waited x.output w body

pub data Route : Type 0 where
  posts : Operation → Route
  gets_state : Route

-- The patterns of the mux.
abbrev pub control_routes : List (String × String × Route)
control_routes =
    ("POST", "/apps", posts post_app)
    ∷ ("POST", "/installations", posts post_installation)
    ∷ ("POST", "/repositories", posts post_repository)
    ∷ ("POST", "/pulls", posts post_pull)
    ∷ ("POST", "/pulls/state", posts post_pull_state)
    ∷ ("POST", "/clock/advance", posts post_clock)
    ∷ ("POST", "/workflows", posts post_workflow)
    ∷ ("POST", "/deliveries", posts post_delivery)
    ∷ ("POST", "/events/duplicate", posts post_duplicate)
    ∷ ("POST", "/workflow-runs/transition", posts post_transition)
    ∷ ("POST", "/workflow-runs/execute", posts post_execution)
    ∷ ("GET", "/state", gets_state)
    ∷ []

pub record ControlRequest : Type 0 where
  pub method : String
  pub path : String
  pub body : String

pub record ControlResponse : Type 0 where
  pub status : ℕ
  pub body : String

-- http.ServeMux on patterns with no wildcard and a clean path; a pattern for GET is one for HEAD too.
abbrev pub method_fits : String → String → Bool
method_fits pattern method = pattern == method || (pattern == "GET" && method == "HEAD")

pub data Found : Type 0 where
  serves : Route → Found
  wrong_method no_path : Found

unfoldable pub find_route : List (String × String × Route) → String → String → Found
find_route [] method path = no_path
find_route ((pattern, at, route) ∷ rest) method path =
    let more = find_route rest method path in
    if not (at == path)
    then more
    else if method_fits pattern method
    then serves route
    else elim more [ serves r ↦ serves r | wrong_method ↦ wrong_method | no_path ↦ wrong_method ]

abbrev pub encoded : Wire → World × Reply → World × ControlResponse
encoded wire (w, reply) = (w, record { status = reply.status; body = wire.encode_reply reply.body })

unfoldable pub serve_found :
    Wire → Surroundings → World → String → Found → Option (World × ControlResponse)
unfolding run_operation get_state
serve_found wire x w body (serves (posts o)) =
    if_some (run_operation x o w (wire.decode o body)) (none) (λ r. some (encoded wire r))
serve_found wire x w body (serves gets_state) = some (encoded wire (get_state w))
serve_found wire x w body wrong_method =
    some (w, record { status = 405; body = "Method Not Allowed\n" })
serve_found wire x w body no_path = some (w, record { status = 404; body = "404 page not found\n" })

-- controlHandler; none is a panic.
unfoldable pub control_handler :
    Wire → Surroundings → World → ControlRequest → Option (World × ControlResponse)
unfolding find_route serve_found
control_handler wire x w request =
    serve_found wire x w request.body (find_route control_routes request.method request.path)
