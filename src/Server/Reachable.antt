-- ===== src/Server/Reachable.antt =====
-- What holds in each state of an instance that Start made.
use merger_herder_validation.Git.Access.{git_gate_no_panic}
use merger_herder_validation.Git.Gate.{GitRequest, git_gate, panics}
use merger_herder_validation.Text.{◌+++◌, trim_space, Unicode}
use merger_herder_validation.Events.Effect.{EventEffect-IsNumbered}
use merger_herder_validation.Concurrency.Reachable.{Reach-IsSound}
use merger_herder_validation.Dict.{get-empty}
use merger_herder_validation.Events.Numbering.{IsNumbered}
use merger_herder_validation.Machine.{Machine, CommandResult, failed, exited}
use merger_herder_validation.Concurrency.Soundness.{IsSound}
use merger_herder_validation.World.{World, ActiveRun}
use merger_herder_validation.Concurrency.System.{System, Reach}
use merger_herder_validation.Prelude.{
  String, List, ℕ, none, arith, Bool, if_cases, nat_key, ◌≡◌, option_cases, string_key, subst, refl,
  ◌==◌, true, sym, false, not, ◌≢◌,
}
use merger_herder_validation.Server.{
  new_world, locate_backend, start_listening, start, start_in, Host, Act, Config, StartResult,
  Instance, start_fails, with_config_defaults, with_temp_dir, is_up,
}
use merger_herder_validation.Concurrency.RunIds.{
  IsCounted, RunEffect-IsCounted, OwnEffect-IsCounted,
}
use merger_herder_validation.Concurrency.Tables.{IsLinked, Reach-IsLinked}
use merger_herder_validation.Concurrency.Closed.{Reach-closed}
use merger_herder_validation.Concurrency.Log.{Reach-log_closed}

-- Nothing is under way in a new instance.
abbrev pub idle : World → System
idle w = record { world = w; pool = λ t. none }

-- What Start gives where it does not fail.
abbrev StartsNew : List Act × StartResult → Type 0
StartsNew (acts, start_fails error) = Unit
StartsNew (acts, is_up i) =
    (now : ℕ) × (dir : String) × (git_backend : String) × (i.world ≡ new_world now dir git_backend)

start_listening-StartsNew :
    (host : Host) (config : Config) (dir : String) (temporary : Bool) (git_backend : String)
    → StartsNew (start_listening host config dir temporary git_backend)
unfolding start_listening
start_listening-StartsNew host config dir temporary git_backend =
    option_cases StartsNew (host.listen config.public_address) _ _ (λ _. tt)
      λ public_listener _.
        option_cases StartsNew (host.listen config.control_address) _ _ (λ _. tt)
          (λ control_listener _. (_, dir, git_backend, refl))

locate_backend-StartsNew :
    (host : Host) (config : Config) (dir : String) (temporary : Bool) (o : CommandResult)
    → StartsNew (locate_backend host config dir temporary o)
unfolding locate_backend
locate_backend-StartsNew host config dir temporary (failed output error) = tt
locate_backend-StartsNew host config dir temporary (exited output) =
    if_cases StartsNew (not (host.is_file (trim_space output +++ "/git-http-backend"))) _ _
      (λ _. tt) (λ _. start_listening-StartsNew host config dir temporary _)

start_in-StartsNew :
    (m : Machine) (host : Host) (config : Config) (dir : String) (temporary : Bool)
    → StartsNew (start_in m host config dir temporary)
unfolding start_in
start_in-StartsNew m host config dir temporary =
    option_cases StartsNew (m.make_dir (dir +++ "/repositories")) _ _
      (λ _. locate_backend-StartsNew host config dir temporary _) (λ _ _. tt)

with_temp_dir-StartsNew :
    (dir : String) (r : List Act × StartResult) → StartsNew r → StartsNew (with_temp_dir dir r)
with_temp_dir-StartsNew dir (acts, start_fails error) h = tt
with_temp_dir-StartsNew dir (acts, is_up i) h = h

start-StartsNew :
    (now : ℕ) (m : Machine) (host : Host) (given : Config) → StartsNew (start now m host given)
unfolding start
start-StartsNew now m host given =
    let config = with_config_defaults now given in
    if_cases StartsNew (config.data_dir == "") _ _
      (λ _.
        option_cases StartsNew host.make_temp_dir _ _ (λ _. tt)
          (λ dir _.
            with_temp_dir-StartsNew dir (start_in m host config dir true)
              (start_in-StartsNew m host config dir true)))
      (λ _. start_in-StartsNew m host config config.data_dir false)

-- What the executions, the runs, the events and the repositories keep to.
pub record IsInOrder (s : System) : Type 1 where
  pub executions : IsSound s
  pub runs : IsCounted s.world
  pub events : IsNumbered s.world
  pub repositories : IsLinked s.world

new_world-IsInOrder :
    (now : ℕ) (dir : String) (git_backend : String)
    → IsInOrder (idle (new_world now dir git_backend))
unfolding new_world
new_world-IsInOrder now dir git_backend = record {
  executions = record {
    held = λ t e it. absurd (ground arith);
    distinct = λ t u d e it there same. absurd (ground arith);
    owned = λ k claimed. absurd (ground (arith, get-empty {V = ActiveRun} k));
  };
  runs = record { counter = refl; ids = tt };
  events = record { counter = refl; guids = tt };
  repositories = λ name i found. absurd (ground (arith, get-empty {V = ℕ} name));
}

Reach-IsInOrder : (s s' : System) → Reach s s' → IsInOrder s → IsInOrder s'
Reach-IsInOrder s s' reached h = record {
  executions = Reach-IsSound s s' reached h.executions;
  runs =
      Reach-closed IsCounted RunEffect-IsCounted OwnEffect-IsCounted s s' reached h.executions
        h.runs;
  events = Reach-log_closed IsNumbered EventEffect-IsNumbered s s' reached h.events;
  repositories = Reach-IsLinked s s' reached h.repositories;
}

-- Whatever requests reach an instance that Start gave, and however their critical sections
-- interleave: each execution under way has the claim on its run and no other execution has; the i-th
-- run has the id 1001 + i and the i-th event the GUID of i + 1, both modulo 2 ^ 64; and each name
-- leads to a repository with its id and to its lock.
pub start-IsInOrder :
    (now : ℕ) (m : Machine) (host : Host) (given : Config) (acts : List Act) (i : Instance)
    (s : System)
    → start now m host given ≡ (acts, is_up i)
    → Reach (idle i.world) s
    → IsInOrder s
start-IsInOrder now m host given acts i s started reached =
    let (t, dir, git_backend, new) = subst StartsNew started (start-StartsNew now m host given) in
    Reach-IsInOrder (idle i.world) s reached
      (subst (λ w. IsInOrder (idle w)) (sym new) (new_world-IsInOrder t dir git_backend))

-- In each state that an instance which Start gave can reach, no request to the Git gateway makes
-- serveGit panic on a nil receive lock, whichever repository it names.
pub start-no_panic :
    (now : ℕ) (m : Machine) (host : Host) (given : Config) (acts : List Act) (i : Instance)
    (s : System) (u : Unicode) (request : GitRequest) (parts : List String)
    → start now m host given ≡ (acts, is_up i)
    → Reach (idle i.world) s
    → git_gate u s.world request parts ≢ panics
start-no_panic now m host given acts i s u request parts started reached =
    let order = start-IsInOrder now m host given acts i s started reached in
    git_gate_no_panic u s.world request parts (λ name k found. (order.repositories name k found).3)
