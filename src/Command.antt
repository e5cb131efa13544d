-- ===== src/Command.antt =====
-- The command of cmd/dtu-github/main.go: start, print the addresses, wait for a signal, close. A
-- signal that comes before run waits for it ends the process with no return, which is not modelled.
pub mod Leftover
use merger_herder_validation.World.{World}
use merger_herder_validation.Text.{◌+++◌}
use merger_herder_validation.Machine.{Machine}
use merger_herder_validation.Prelude.{
  List, String, ℕ, Option, some, if◌then◌else◌, ◌==◌, ◌∷◌, if_some, [], string_key, ◌++◌,
}
use merger_herder_validation.Server.{
  start, close, Instance, Act, Config, Host, StartResult, Shutdown, start_fails, is_up,
}

-- The flags; the defaults of the addresses are 127.0.0.1:0, of the others the empty text.
pub record Flags : Type 0 where
  pub public_address : String
  pub control_address : String
  pub data_dir : String
  pub initial_time : String

-- What is printed. The two public URLs are the same.
pub record Ready : Type 0 where
  pub github_url : String
  pub git_url : String
  pub control_url : String

-- url.URL with the scheme http and the path /
abbrev url_of : String → String
url_of host = "http://" +++ (host +++ "/")

abbrev pub ready_of : Instance → Ready
ready_of i = record {
  github_url = url_of i.public_listener;
  git_url = url_of i.public_listener;
  control_url = url_of i.control_listener;
}

-- What run meets outside of the program: the time, time.Parse, where none inside is the zero time, whether the addresses can be written,
-- and, once the signal has come, the world of the instance and how its shutdown goes.
pub record Outside : Type 0 where
  pub time : ℕ
  pub parse_time : String → Option (Option ℕ)
  pub print : Ready → Option String
  pub world_at_signal : Instance → World
  pub world_forced : Instance → World
  pub shutdown : Shutdown

-- run from a started instance.
unfoldable pub serve_until_signal : Outside → List Act → StartResult → List Act × List String
unfolding close
serve_until_signal o acts (start_fails error) = (acts, error ∷ [])
serve_until_signal o acts (is_up i) =
    if_some (o.print (ready_of i))
      (let (closed, more, errors) = close i (o.world_at_signal i) (o.world_forced i) o.shutdown in
        (acts ++ more, errors))
      (λ error. (acts, error ∷ []))

abbrev pub config_of : Flags → Option ℕ → Config
config_of flags now = record {
  public_address = flags.public_address;
  control_address = flags.control_address;
  data_dir = flags.data_dir;
  initial_time = now;
}

unfoldable pub run_at : Outside → Machine → Host → Flags → Option ℕ → List Act × List String
unfolding start serve_until_signal
run_at o m host flags now =
    let (acts, result) = start o.time m host (config_of flags now) in
    serve_until_signal o acts result

-- run: what it does to the host, and its error.
unfoldable pub run : Outside → Machine → Host → Flags → List Act × List String
unfolding run_at
run o m host flags =
    if flags.initial_time == ""
    then run_at o m host flags (some o.time)
    else if_some (o.parse_time flags.initial_time) ([], "parse initial time" ∷ [])
        (λ now. run_at o m host flags now)
