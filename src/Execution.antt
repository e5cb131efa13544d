-- ===== src/Execution.antt =====
-- executeWorkflowRun of dtu/execution.go, in its four steps: the claim, the preparation with no
-- lock held, the start of the runner, and the end. Each of the three critical sections is a
-- function from the world of its moment.
pub mod Prepare
pub mod Complete
pub mod Runner
use merger_herder_validation.Prelude.{
  ℕ, Bool, false, not, ◌&&◌, Option, none, some, String, ◌==◌, string_key, nat_key, if◌then◌else◌,
  get_or, get_elem?, if_some,
}
use merger_herder_validation.Dict.{get, put, has, remove}
use merger_herder_validation.World.{
  World, Repository, WorkflowConfig, WorkflowRun, ActiveRun, zero_active_run,
}
use merger_herder_validation.World.Inputs.{ExecuteWorkflowInput}
use merger_herder_validation.Reply.{Reply, run, message, write_json, Decoded, decode_control}
use merger_herder_validation.Runs.{workflow_run_by_id, commit_run}

-- The variables that executeWorkflowRun keeps from its first critical section.
pub record Claim : Type 0 where
  pub index : ℕ
  pub run : WorkflowRun
  pub repository : Repository
  pub workflow : WorkflowConfig

pub data Claimed : Type 0 where
  refused : Reply → Claimed
  claimed : World → Claim → Claimed

abbrev refuse_claim : ℕ → String → Claimed
refuse_claim s text = refused (write_json s (message text))

-- The first critical section.
unfoldable pub claim_run : World → Decoded ExecuteWorkflowInput → Claimed
unfolding workflow_run_by_id
claim_run w body = decode_control refused body λ input.
    if_some (workflow_run_by_id w input.run_id) (refuse_claim 404 "unknown workflow run")
      (λ (index, r).
        if not (r.status == "queued")
        then refuse_claim 409 "workflow run is not queued"
        else if has w.active_runs r.id
        then refuse_claim 409 "workflow run execution is already claimed"
        else if_some (get w.repositories r.repository_id)
            (refuse_claim 409 "workflow run configuration is unavailable")
            (λ repository.
              if_some (get w.workflows r.repository_id)
                (refuse_claim 409 "workflow run configuration is unavailable")
                (λ workflow.
                  claimed (record w { active_runs = put w.active_runs r.id zero_active_run })
                    (record {
                      index = index;
                      run = r;
                      repository = repository;
                      workflow = workflow;
                    }))))

-- delete(w.activeRuns, run.ID)
unfoldable pub release_claim : World → Claim → World
release_claim w c = record w { active_runs = remove w.active_runs c.run.id }

-- The second critical section: command.Start gives a process, or fails. `none` is Go's panic where
-- the index is out of range.
pub data Started : Type 0 where
  stopped : World → Reply → Started
  under_way : World → Started

unfoldable pub start_run : World → Claim → Option ℕ → Option Started
unfolding release_claim commit_run
start_run w c process = if_some (get_elem? w.workflow_runs c.index) (none) (λ r.
    let freed = record w { active_runs = remove w.active_runs r.id } in
    let cancelled : WorkflowRun = record r { status = "completed"; conclusion = "cancelled" } in
    let started : WorkflowRun = record r { status = "in_progress" } in
    if not (r.status == "queued")
    then some (stopped freed (write_json 409 (message "workflow run is no longer queued")))
    else if r.cancellation_requested
    then some (
        stopped (commit_run freed c.index c.repository cancelled "completed")
          (write_json 200 (run cancelled)))
    else if_some process (some (stopped freed (write_json 500 (message "start workflow runner"))))
        (λ p.
          let w' = commit_run w c.index c.repository started "in_progress" in
          some (
            under_way (record w' {
              active_runs = put w'.active_runs r.id (record {
                command = some (record { process = some p });
                cancellation_signalled = false;
              });
            }))))

-- The conclusion of a run whose runner has ended: `waited` says that Wait gave no error.
unfoldable pub conclude : ActiveRun → Bool → String
conclude active waited =
    if active.cancellation_signalled && not waited
    then "cancelled"
    else if waited
    then "success"
    else "failure"

-- The last critical section.
unfoldable pub finish_run : World → Claim → Bool → String → Option (World × Reply)
unfolding conclude commit_run
finish_run w c waited logs = if_some (get_elem? w.workflow_runs c.index) (none) (λ r.
    let active = get_or (get w.active_runs r.id) zero_active_run in
    let freed = record w { active_runs = remove w.active_runs r.id } in
    let ended : WorkflowRun = record r {
      status = "completed";
      logs = logs;
      conclusion = conclude active waited;
    } in
    some (commit_run freed c.index c.repository ended "completed", write_json 200 (run ended)))
