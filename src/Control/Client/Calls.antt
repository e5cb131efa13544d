-- ===== src/Control/Client/Calls.antt =====
-- The client's calls against the handlers: the paths, the encodings and the statuses of both sides.
use merger_herder_validation.Control.Pulls.{get_state}
use merger_herder_validation.Text.{◌+++◌}
use merger_herder_validation.Execution.Prepare.{Attempt, fails, gives}
use merger_herder_validation.World.{World}
use merger_herder_validation.Reply.{ReplyBody, message, Reply, decoded}
use merger_herder_validation.Control.Routes.{
  find_route, Wire, Operation, control_routes, ControlResponse, Surroundings, control_handler,
  InputOf, serves, posts, run_operation, post_app, encoded, post_installation, post_repository,
  post_pull, post_pull_state, post_clock, post_workflow, post_delivery, post_duplicate,
  post_transition, post_execution, serve_found,
}
use merger_herder_validation.Prelude.{
  ℕ, Option, String, if◌then◌else◌, ◌≡◌, ltb, ◌||◌, some, none, false, leb, if_some, refl, ap, ◌∙◌,
}
use merger_herder_validation.Control.Client.{client_path, resolve, post, post_request, get_snapshot}

-- The text of a body with a message.
abbrev pub message_of : ReplyBody → String
message_of (message text) = text
message_of _ = ""

-- The two sides name the same paths.
find_route-client_path :
    (o : Operation) → find_route control_routes "POST" (resolve (client_path o)) ≡ serves (posts o)
unfolding find_route
find_route-client_path post_app = refl
find_route-client_path post_installation = refl
find_route-client_path post_repository = refl
find_route-client_path post_pull = refl
find_route-client_path post_pull_state = refl
find_route-client_path post_clock = refl
find_route-client_path post_workflow = refl
find_route-client_path post_delivery = refl
find_route-client_path post_duplicate = refl
find_route-client_path post_transition = refl
find_route-client_path post_execution = refl

-- The server's answer to a request, and no answer where its handler panics.
abbrev pub answer_of : Option (World × ControlResponse) → Attempt ControlResponse
answer_of none = fails "EOF"
answer_of (some (w, response)) = gives response

-- The error that the client makes of a reply.
abbrev pub call_error : (ℕ → String) → Operation → Reply → Option String
call_error status_line o reply =
    if ltb reply.status 200 || leb 300 reply.status
    then some (
        "control "
        +++ (client_path o
            +++ (" returned " +++ (status_line reply.status +++ (": " +++ message_of reply.body)))))
    else none

module _ (wire : Wire) (status_line : ℕ → String) (x : Surroundings) where
  -- A request that the client makes runs the handler of its operation on its input.
  handled_call :
      (w : World) (o : Operation) (input : InputOf o) (body : String)
      → wire.decode o body ≡ decoded input false
      → control_handler wire x w (post_request o body)
        ≡ if_some (run_operation x o w (decoded input false)) (none) (λ r. some (encoded wire r))
  unfolding control_handler serve_found
  handled_call w o input body read =
      ap (serve_found wire x w body) (find_route-client_path o) ∙ rw read refl

  -- Each call of the client runs the handler of its operation on the input that it was given, and
  -- gives no error where the handler answers with a status from 200 to 299, and an error with the
  -- handler's status and message otherwise. The handler answers; the input is encoded, and the
  -- server reads the input from it; the client reads the handler's message from the reply.
  pub post_call :
      (w w' : World) (o : Operation) (input : InputOf o) (body : String) (reply : Reply)
      → wire.encode o input ≡ gives body
      → wire.decode o body ≡ decoded input false
      → wire.decode_message (wire.encode_reply reply.body) ≡ message_of reply.body
      → run_operation x o w (decoded input false) ≡ some (w', reply)
      → (control_handler wire x w (post_request o body) ≡ some (encoded wire (w', reply)))
        × (post wire status_line (λ request. answer_of (control_handler wire x w request)) o input
            ≡ call_error status_line o reply)
  unfolding post
  post_call w w' o input body reply written read told run =
      let served : control_handler wire x w (post_request o body)
          ≡ some (encoded wire (w', reply)) =
        rw (handled_call w o input body read, run) refl in
      (served, rw (written, served, told) refl)

  -- State reads the snapshot that the server writes of its world.
  state_call :
      (w : World)
      → get_snapshot wire status_line (λ request. answer_of (control_handler wire x w request))
        ≡ wire.decode_snapshot (wire.encode_reply (get_state w).1.body)
  unfolding get_snapshot control_handler serve_found find_route get_state
  state_call w = refl
