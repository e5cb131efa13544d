-- ===== src/Server.antt =====
-- The life of an instance: withConfigDefaults, Start, serve, stopActiveRuns and close of
-- dtu/server.go. What is done to the host is a trace of acts.
pub mod Resources
pub mod Reachable
pub mod Closing
use merger_herder_validation.Public.Actions.{process_of}
use merger_herder_validation.Dict.{empty, items}
use merger_herder_validation.Machine.{Machine, failed, exited, CommandResult}
use merger_herder_validation.Text.{trim_space, ◌+++◌}
use merger_herder_validation.World.{World, ActiveRun}
use merger_herder_validation.Prelude.{
  Bool, Option, String, ℕ, List, if◌then◌else◌, ◌∷◌, ◌==◌, if_some, ◌++◌, [], false, true, some,
  get_or, string_key, none, is_some, not,
}

-- Config; the zero time is none.
pub record Config : Type 0 where
  pub public_address : String
  pub control_address : String
  pub data_dir : String
  pub initial_time : Option ℕ

-- `now` is what time.Now gives.
unfoldable pub with_config_defaults : ℕ → Config → Config
with_config_defaults now config = record {
  public_address = if config.public_address == "" then "127.0.0.1:0" else config.public_address;
  control_address = if config.control_address == "" then "127.0.0.1:0" else config.control_address;
  data_dir = config.data_dir;
  initial_time = some (get_or config.initial_time now);
}

-- What Start asks of the host besides a machine: os.MkdirTemp, os.Stat, and net.Listen, which gives
-- the listener's address; none is an error.
pub record Host : Type 0 where
  pub make_temp_dir : Option String
  pub is_file : String → Bool
  pub listen : String → Option String

-- What Start and close do to the host. os.RemoveAll, whose error they discard, is taken to succeed.
pub data Act : Type 0 where
  makes_temp_dir removes_dir : String → Act
  opens closes : String → Act
  interrupts kills : ℕ → Act
  cleans_up : ℕ → Act
  shuts_down : String → Act

-- The world of a new instance.
unfoldable pub new_world : ℕ → String → String → World
new_world now data_dir git_backend = record {
  now = now;
  data_dir = data_dir;
  git_backend = git_backend;
  apps = empty;
  installs = empty;
  repositories = empty;
  repo_names = empty;
  pulls = empty;
  tokens = empty;
  workflows = empty;
  receive_locks = empty;
  workflow_runs = [];
  pending_events = [];
  observation_errors = [];
  delivery_attempts = [];
  active_runs = empty;
  next_run_id = 1000;
  next_event_id = 0;
  unsupported = [];
  mutations = 0;
}

-- Instance and instanceRuntime: `closed` is the result of the first close.
pub record Instance : Type 0 where
  pub world : World
  pub public_listener : String
  pub control_listener : String
  pub remove_data_dir : Bool
  pub data_dir : String
  pub closed : Option (List String)

pub data StartResult : Type 0 where
  start_fails : String → StartResult
  is_up : Instance → StartResult

-- What Start undoes when it fails.
abbrev pub undo : Bool → String → List Act
undo temporary dir = if temporary then removes_dir dir ∷ [] else []

-- The two listeners.
unfoldable pub start_listening : Host → Config → String → Bool → String → List Act × StartResult
unfolding new_world
start_listening host config dir temporary git_backend =
    if_some (host.listen config.public_address)
      (undo temporary dir, start_fails "listen for public API")
      λ public_listener.
        if_some (host.listen config.control_address)
          (
            opens public_listener ∷ closes public_listener ∷ undo temporary dir,
            start_fails "listen for control API",
          )
          λ control_listener. (
            opens public_listener ∷ opens control_listener ∷ [],
            is_up (record {
              world = new_world (get_or config.initial_time 0) dir git_backend;
              public_listener = public_listener;
              control_listener = control_listener;
              remove_data_dir = temporary;
              data_dir = dir;
              closed = none;
            }),
          )

-- The answer of `git --exec-path`.
unfoldable pub locate_backend :
    Host → Config → String → Bool → CommandResult → List Act × StartResult
unfolding start_listening trim_space
locate_backend host config dir temporary (failed output error) =
    (undo temporary dir, start_fails "locate Git executables")
locate_backend host config dir temporary (exited output) =
    let git_backend = trim_space output +++ "/git-http-backend" in
    if not (host.is_file git_backend)
    then (undo temporary dir, start_fails "locate git-http-backend")
    else start_listening host config dir temporary git_backend

-- Start with its data directory.
unfoldable pub start_in : Machine → Host → Config → String → Bool → List Act × StartResult
unfolding locate_backend
start_in m host config dir temporary =
    if_some (m.make_dir (dir +++ "/repositories"))
      (locate_backend host config dir temporary (m.run "" ("git" ∷ "--exec-path" ∷ [])))
      (λ error. (undo temporary dir, start_fails "prepare data directory"))

abbrev pub with_temp_dir : String → List Act × StartResult → List Act × StartResult
with_temp_dir dir (acts, result) = (makes_temp_dir dir ∷ acts, result)

unfoldable pub start : ℕ → Machine → Host → Config → List Act × StartResult
unfolding with_config_defaults start_in
start now m host given =
    let config = with_config_defaults now given in
    if config.data_dir == ""
    then if_some host.make_temp_dir ([], start_fails "create data directory")
        (λ dir. with_temp_dir dir (start_in m host config dir true))
    else start_in m host config config.data_dir false

-- The loop over the runs with a process.
unfoldable pub stop_runs : Bool → List (ℕ × ActiveRun) → List Act
stop_runs force [] = []
stop_runs force ((run_id, active) ∷ rest) =
    let more = stop_runs force rest in
    if_some (process_of active) (more)
      (λ process. (if force then kills process else interrupts process) ∷ cleans_up run_id ∷ more)

unfoldable pub stop_active_runs : World → Bool → List Act
unfolding stop_runs
stop_active_runs w force = stop_runs force (items w.active_runs)

-- The error of a call, where it has one.
abbrev pub errors_of : Option String → List String
errors_of none = []
errors_of (some error) = error ∷ []

-- What server.Serve returns: http.ErrServerClosed, or another error.
pub data ServeEnd : Type 0 where
  server_closed : ServeEnd
  server_failed : String → ServeEnd

-- What serve sends to the channel of the instance.
unfoldable pub serve : ServeEnd → Option String
serve server_closed = none
serve (server_failed error) = some error

-- What the calls in close give: the errors of the two shutdowns, and how the two servers end, in
-- the order in which they do.
pub record Shutdown : Type 0 where
  pub public_error : Option String
  pub control_error : Option String
  pub first_end : ServeEnd
  pub second_end : ServeEnd

-- close; `forced` is the world at the second stopActiveRuns. errors.Join is the list of the errors.
unfoldable pub close : Instance → World → World → Shutdown → Instance × List Act × List String
unfolding stop_active_runs serve
close i w forced s =
    let result =
      errors_of s.public_error
      ++ (errors_of s.control_error
          ++ (errors_of (serve s.first_end) ++ errors_of (serve s.second_end))) in
    let acts =
      stop_active_runs w false
      ++ (shuts_down i.public_listener
          ∷ shuts_down i.control_listener
          ∷ ((if is_some s.public_error then closes i.public_listener ∷ [] else [])
              ++ ((if is_some s.control_error
                    then stop_active_runs forced true ++ closes i.control_listener ∷ []
                    else [])
                  ++ (if i.remove_data_dir then removes_dir i.data_dir ∷ [] else [])))) in
    if_some i.closed (record i { closed = some result }, acts, result) (λ before. (i, [], before))
