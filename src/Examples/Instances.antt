-- ===== src/Examples/Instances.antt =====
-- Instances: their start, their end, and the client's calls.
use merger_herder_validation.Events.{
  append_installation_event, append_pending_app_event, append_installation_repositories_event,
  append_pending_event,
}
use merger_herder_validation.Public.Tokens.{issue_for_app, no_options}
use merger_herder_validation.Git.Gate.{
  git_gate, Gate, GitRequest, granted, panics, admit, git_service,
}
use merger_herder_validation.Text.{trim_space, decimal, split, trim_prefix, trim_suffix, to_lower}
use merger_herder_validation.Permission.Exact.{MayHave, select_permissions-MayHave}
use merger_herder_validation.Dict.Entries.{find, insert}
use merger_herder_validation.Control.Client.{post_request, post}
use merger_herder_validation.Command.Leftover.{run-leaves_nothing}
use merger_herder_validation.Server.Closing.{start-close}
use merger_herder_validation.Examples.Outgoing.{sample_network}
use merger_herder_validation.Dict.{put, empty, get, IsDistinct-put, IsDistinct-empty, items, keys}
use merger_herder_validation.Execution.Prepare.{Attempt, fails, gives}
use merger_herder_validation.Reply.{Decoded, decoded, decode_control, malformed, write_json, now}
use merger_herder_validation.Examples.{
  sample_platform, granted_permissions, sample_machine, sample_world, sample_unicode,
}
use merger_herder_validation.Control.Client.Calls.{message_of, answer_of, call_error, post_call}
use merger_herder_validation.Control.Pulls.{advance_time}
use merger_herder_validation.Server.Reachable.{IsInOrder, start-IsInOrder, idle, start-no_panic}
use merger_herder_validation.World.Inputs.{AppInput, InstallationInput, RepositoryInput}
use merger_herder_validation.Permission.{select_permissions, granted_rank, permission_rank}
use merger_herder_validation.World.{World, second}
use merger_herder_validation.Server.{
  Host, start, Config, Shutdown, Instance, new_world, Act, start_in, close, locate_backend,
  makes_temp_dir, opens, start_listening, with_config_defaults, is_up, server_closed,
}
use merger_herder_validation.Command.{Flags, Outside, run}
use merger_herder_validation.Server.Resources.{IsAccounted, held_after, start-IsAccounted}
use merger_herder_validation.Control.Routes.{
  Wire, run_operation, Surroundings, Operation, InputOf, control_handler, post_clock, encoded,
}
use merger_herder_validation.Control.Setup.{
  create_app, register_app, create_repository, create_installation, repo_name, invalid_permission,
  register_installation, init_repository,
}
use merger_herder_validation.Concurrency.System.{
  creates_token, System, next, here, handles, advances_time, Reach, Handled, Step, creates_app,
  creates_installation, creates_repository,
}
use merger_herder_validation.Prelude.{
  [], ◌∷◌, List, String, none, some, ◌++◌, true, ◌≡◌, false, refl, ◌↔◌, string_key, ◌≢◌, Bool,
}

abbrev sample_host : Host
sample_host = record {
  make_temp_dir = some "/tmp/dtu-github-1";
  is_file = λ path. true;
  listen = λ address. some address;
}

abbrev sample_config : Config
sample_config = record {
  public_address = "127.0.0.1:1";
  control_address = "127.0.0.1:2";
  data_dir = "";
  initial_time = some 0;
}

abbrev sample_instance : Instance
sample_instance = record {
  world = new_world 0 "/tmp/dtu-github-1" "/git-http-backend";
  public_listener = "127.0.0.1:1";
  control_listener = "127.0.0.1:2";
  remove_data_dir = true;
  data_dir = "/tmp/dtu-github-1";
  closed = none;
}

abbrev start_acts : List Act
start_acts = makes_temp_dir "/tmp/dtu-github-1" ∷ opens "127.0.0.1:1" ∷ opens "127.0.0.1:2" ∷ []

sample_start :
    start 5 sample_machine sample_host sample_config ≡ (start_acts, is_up sample_instance)
unfolding start start_in locate_backend start_listening with_config_defaults trim_space
sample_start = refl

start-IsAccounted_example : IsAccounted [] (start 5 sample_machine sample_host sample_config)
start-IsAccounted_example = start-IsAccounted 5 sample_machine sample_host sample_config

-- The instance, a second later.
abbrev later_system : System
later_system = record {
  world =
      (advance_time sample_platform sample_instance.world
        (decoded (record { duration = "1s" }) false)).0;
  pool = λ t. none;
}

start-IsInOrder_example : IsInOrder later_system
start-IsInOrder_example =
    start-IsInOrder 5 sample_machine sample_host sample_config start_acts sample_instance
      later_system sample_start (next here (handles (advances_time sample_platform _ refl) refl))

-- A registered app, its installation, and a repository of it.
abbrev first_app : AppInput
first_app = record { id = 7; public_key_pem = "pem"; webhook_url = ""; webhook_secret = "" }

abbrev first_installation : InstallationInput
first_installation = record {
  id = 70;
  app_id = 7;
  active = true;
  owner = "acme";
  owner_type = "User";
  permissions = put empty "contents" "write";
}

abbrev first_repository : RepositoryInput
first_repository = record { id = 700; owner = "acme"; name = "tool"; installation_id = 70 }

abbrev world_with_app : World
world_with_app = (create_app sample_platform sample_instance.world (decoded first_app false)).0

abbrev world_with_installation : World
world_with_installation = (create_installation world_with_app (decoded first_installation false)).0

abbrev world_with_repository : World
world_with_repository =
    (create_repository sample_platform sample_machine world_with_installation
      (decoded first_repository false)).0

-- The app has a token for it.
abbrev world_with_token : World
world_with_token =
    (issue_for_app sample_unicode world_with_repository 7 70 no_options (some "t1")).0

idle-Step : (w w' : World) → Handled w w' → Step (idle w) (idle w')
idle-Step w w' h = handles h refl

world_with_token-Reach : Reach (idle sample_instance.world) (idle world_with_token)
world_with_token-Reach =
    next
      (next
        (next
          (next here (
            idle-Step sample_instance.world world_with_app
              (creates_app sample_platform (decoded first_app false) refl)))
          (idle-Step world_with_app world_with_installation
            (creates_installation (decoded first_installation false) refl)))
        (idle-Step world_with_installation world_with_repository (
          creates_repository sample_platform sample_machine (decoded first_repository false) refl)))
      (idle-Step world_with_repository world_with_token
        (creates_token sample_unicode 7 70 no_options (some "t1") refl))

-- A push with this token.
abbrev first_push : GitRequest
first_push = record { method = "POST"; service = ""; basic_auth = some ("x-access-token", "t1") }

abbrev first_push_path : List String
first_push_path = "acme" ∷ "tool.git" ∷ "git-receive-pack" ∷ []

abbrev is_granted : Gate → Bool
is_granted (granted service r token receive) = receive
is_granted _ = false

-- It gets to the backend, past the lock.
first_push_granted :
    is_granted (git_gate sample_unicode world_with_token first_push first_push_path) ≡ true
unfolding git_gate admit git_service split trim_prefix trim_suffix repo_name granted_rank
    permission_rank get put find insert empty to_lower issue_for_app create_repository
    decode_control create_installation items create_app register_app new_world
    append_installation_event append_pending_app_event keys append_installation_repositories_event
    append_pending_event invalid_permission register_installation init_repository
first_push_granted = refl

start-no_panic_example :
    git_gate sample_unicode world_with_token first_push first_push_path ≢ panics
start-no_panic_example =
    start-no_panic 5 sample_machine sample_host sample_config start_acts sample_instance
      (idle world_with_token) sample_unicode first_push first_push_path sample_start
      world_with_token-Reach

-- The first shutdown fails.
abbrev sample_shutdown : Shutdown
sample_shutdown = record {
  public_error = some "context deadline exceeded";
  control_error = none;
  first_end = server_closed;
  second_end = server_closed;
}

start-close_example :
    held_after []
      (start_acts ++ (close sample_instance sample_world sample_world sample_shutdown).1)
    ≡ []
start-close_example =
    start-close 5 sample_machine sample_host sample_config start_acts sample_instance sample_world
      sample_world sample_shutdown sample_start

abbrev sample_outside : Outside
sample_outside = record {
  time = 5;
  parse_time = λ text. none;
  print = λ ready. none;
  world_at_signal = λ i. i.world;
  world_forced = λ i. i.world;
  shutdown = sample_shutdown;
}

abbrev sample_flags : Flags
sample_flags = record {
  public_address = "127.0.0.1:1";
  control_address = "127.0.0.1:2";
  data_dir = "";
  initial_time = "";
}

run-leaves_nothing_example :
    held_after [] (run sample_outside sample_machine sample_host sample_flags).0 ≡ []
run-leaves_nothing_example =
    run-leaves_nothing sample_outside sample_machine sample_host sample_flags (λ ready. refl)

-- A wire for one operation.
abbrev duration_text : (o : Operation) → InputOf o → Attempt String
duration_text post_clock input = gives input.duration
duration_text _ input = fails "unsupported"

abbrev text_duration : (o : Operation) → String → Decoded (InputOf o)
text_duration post_clock text = decoded (record { duration = text }) false
text_duration _ text = malformed

abbrev sample_wire : Wire
sample_wire = record {
  encode = duration_text;
  decode = text_duration;
  encode_reply = message_of;
  decode_message = λ text. text;
  decode_snapshot = λ text. fails "unsupported";
}

abbrev sample_surroundings : Surroundings
sample_surroundings = record {
  platform = sample_platform;
  digest = λ text. "d";
  machine = sample_machine;
  after = sample_machine;
  network = sample_network;
  start = λ launch. none;
  waited = true;
  output = "";
}

abbrev later_world : World
later_world =
    (advance_time sample_platform sample_world (decoded (record { duration = "1s" }) false)).0

post_call_example :
    (control_handler sample_wire sample_surroundings sample_world (post_request post_clock "1s")
      ≡ some (encoded sample_wire (later_world, write_json 200 (now second))))
    × (post sample_wire decimal
          (λ request.
            answer_of (control_handler sample_wire sample_surroundings sample_world request))
          post_clock
          (record { duration = "1s" })
        ≡ call_error decimal post_clock (write_json 200 (now second)))
unfolding run_operation advance_time decode_control
post_call_example =
    post_call sample_wire decimal sample_surroundings sample_world later_world post_clock
      (record { duration = "1s" }) "1s" (write_json 200 (now second)) refl refl refl refl

select_permissions-MayHave_example :
    (select_permissions granted_permissions (some (put empty "contents" "read"))
      ≡ some (put empty "contents" "read"))
    ↔ ((name level : String)
        → get (put empty "contents" "read") name ≡ some level
        → MayHave granted_permissions name level)
select_permissions-MayHave_example =
    select_permissions-MayHave granted_permissions (put empty "contents" "read")
      (IsDistinct-put empty "contents" "read" (IsDistinct-empty String String))

abbrev sample_app : AppInput
sample_app = record { id = 8; public_key_pem = "pem"; webhook_url = ""; webhook_secret = "" }
