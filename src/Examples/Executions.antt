-- ===== src/Examples/Executions.antt =====
-- Runs, executions and the event log on the fixture.
use merger_herder_validation.Dict.Entries.{find, insert}
use merger_herder_validation.Dict.{put, empty, get}
use merger_herder_validation.Concurrency.Life.{IsLater, Reach-IsLater}
use merger_herder_validation.Concurrency.Log.{Reach-guid_unique, Reach-events_kept}
use merger_herder_validation.Reply.{decode_control, decoded}
use merger_herder_validation.Concurrency.Reachable.{Reach-IsSound}
use merger_herder_validation.Runs.{transition_workflow_run, workflow_run_by_id, index_where}
use merger_herder_validation.Examples.{
  sample_run, sample_system, sample_world, sample_system-IsSound, sample_event, sample_repository,
}
use merger_herder_validation.Concurrency.RunIds.{IsCounted, Reach-run_id_unique}
use merger_herder_validation.Events.Numbering.{IsNumbered}
use merger_herder_validation.Concurrency.System.{
  Reach, System, update, next, here, claims, handles, transitions_run,
}
use merger_herder_validation.Concurrency.Soundness.{IsSound}
use merger_herder_validation.World.{World, WorkflowRun, zero_active_run}
use merger_herder_validation.Concurrency.Holds.{Holds}
use merger_herder_validation.Prelude.{
  ◌≡◌, get_elem?, some, ℕ, ◌∷◌, refl, none, true, [], false, arith, nat_key,
}
use merger_herder_validation.Execution.{Claim, claim_run, start_run, finish_run, claimed}
use merger_herder_validation.Concurrency.Start.{
  StartOutcome, FinishOutcome, running_of, preparing_of, start_run_outcome, finish_run_outcome,
}

abbrev pub sample_claim : Claim
sample_claim = record {
  index = 0;
  run = sample_run;
  repository = sample_repository;
  workflow = record {
    repository_id = 700;
    id = 9;
    name = "Release";
    path = ".github/workflows/release.yml";
    release_ref = "release";
  };
}

abbrev pub claimed_world : World
claimed_world = record sample_world { active_runs = put empty 1001 zero_active_run }

-- The fixture's run is claimed.
abbrev pub claimed_system : System
claimed_system = record {
  world = claimed_world;
  pool = update (λ t. none) 0 (some (preparing_of sample_claim));
}

pub sample_claim_run :
    claim_run sample_world (decoded (record { run_id = 1001 }) false)
    ≡ claimed claimed_world sample_claim
unfolding claim_run decode_control workflow_run_by_id index_where get put find insert empty
sample_claim_run = refl

pub claimed_Reach : Reach sample_system claimed_system
claimed_Reach =
    next here
      (claims 0 (decoded (record { run_id = 1001 }) false) sample_claim refl sample_claim_run refl)

Reach-IsSound_example : IsSound claimed_system
Reach-IsSound_example =
    Reach-IsSound sample_system claimed_system claimed_Reach sample_system-IsSound

claimed_Holds : Holds (preparing_of sample_claim) claimed_world
claimed_Holds =
    (Reach-IsSound sample_system claimed_system claimed_Reach sample_system-IsSound).held 0
      (preparing_of sample_claim) refl

start_run_outcome_example :
    StartOutcome claimed_world sample_claim (start_run claimed_world sample_claim (some 42))
start_run_outcome_example = start_run_outcome claimed_world sample_claim (some 42) claimed_Holds

-- The runner of the fixture's run is under way.
abbrev running_world : World
running_world = record claimed_world {
  workflow_runs = record sample_run { status = "in_progress" } ∷ [];
}

running_Holds : Holds (running_of sample_claim) running_world
running_Holds = record {
  run = record sample_run { status = "in_progress" };
  at_index = refl;
  same_id = refl;
  claimed = claimed_Holds.claimed;
  status = refl;
}

finish_run_outcome_example :
    FinishOutcome running_world sample_claim (finish_run running_world sample_claim true "done")
finish_run_outcome_example = finish_run_outcome running_world sample_claim true "done" running_Holds

-- The fixture's run is moved on by a control request.
abbrev pub moved_system : System
moved_system = record {
  world =
      (transition_workflow_run sample_world
        (decoded (record { run_id = 1001; status = "in_progress"; conclusion = "" }) false)).0;
  pool = λ t. none;
}

pub moved_Reach : Reach sample_system moved_system
moved_Reach = next here (handles (transitions_run _ refl) refl)

Reach-IsLater_example :
    (r' : WorkflowRun) × (get_elem? moved_system.world.workflow_runs 0 ≡ some r')
    × IsLater sample_run r'
Reach-IsLater_example =
    Reach-IsLater sample_system moved_system 0 sample_run moved_Reach sample_system-IsSound refl

sample_world-IsCounted : IsCounted sample_world
sample_world-IsCounted = record { counter = refl; ids = (refl, tt) }

sample_world-IsNumbered : IsNumbered sample_world
sample_world-IsNumbered = record { counter = refl; guids = (refl, tt) }

Reach-run_id_unique_example : ◌≡◌ {A = ℕ} 0 0
Reach-run_id_unique_example =
    Reach-run_id_unique sample_system claimed_system 0 0 sample_run sample_run claimed_Reach
      sample_system-IsSound sample_world-IsCounted (omega arith) refl refl refl

Reach-guid_unique_example : ◌≡◌ {A = ℕ} 0 0
Reach-guid_unique_example =
    Reach-guid_unique sample_system claimed_system 0 0 sample_event sample_event claimed_Reach
      sample_world-IsNumbered (omega arith) refl refl refl

Reach-events_kept_example : get_elem? moved_system.world.pending_events 0 ≡ some sample_event
Reach-events_kept_example =
    Reach-events_kept sample_system moved_system 0 sample_event moved_Reach refl
