-- ===== src/Runs.antt =====
-- Workflow runs: how a run is found, queued and moved on. appendQueuedWorkflow of dtu/git.go,
-- workflowRunByID of dtu/execution.go and transitionWorkflowRun of dtu/delivery.go.
pub mod Cases
use merger_herder_validation.Prelude.{
  ℕ, suc, Bool, false, not, ◌&&◌, ◌||◌, Option, none, some, List, [], ◌∷◌, ◌++◌, String, ◌==◌,
  string_key, nat_key, if◌then◌else◌, get_or, set, if_some,
}
use merger_herder_validation.Dict.{get, has}
use merger_herder_validation.World.{World, Repository, WorkflowConfig, WorkflowRun, zero_repository}
use merger_herder_validation.World.Inputs.{WorkflowTransitionInput}
use merger_herder_validation.Reply.{Reply, run, write_json, refuse, stay, Decoded, decode_control}
use merger_herder_validation.Events.{increment, append_workflow_event}

-- The first entry that passes the test, with its index, which is counted from `n`.
unfoldable pub index_where {ℓ} : {A : Type ℓ} → (A → Bool) → ℕ → List A → Option (ℕ × A)
index_where test n [] = none
index_where test n (x ∷ xs) =
    let rest = index_where test (suc n) xs in if test x then some (n, x) else rest

-- workflowRunByID
unfoldable pub workflow_run_by_id : World → ℕ → Option (ℕ × WorkflowRun)
unfolding index_where
workflow_run_by_id w run_id = index_where (λ r. r.id == run_id) 0 w.workflow_runs

unfoldable pub append_queued_workflow :
    World → Repository → WorkflowConfig → String → String → World
append_queued_workflow w r workflow ref sha =
    let n = increment w.next_run_id in
    let queued : WorkflowRun = record {
      id = n;
      attempt = 1;
      repository_id = r.id;
      workflow_id = workflow.id;
      workflow_name = workflow.name;
      workflow_path = workflow.path;
      event = "push";
      head_branch = ref;
      head_sha = sha;
      status = "queued";
      conclusion = "";
      cancellation_requested = false;
      logs = "";
    } in
    append_workflow_event
      (record w { next_run_id = n; workflow_runs = w.workflow_runs ++ queued ∷ [] }) r queued
      "requested"

-- The switch of transitionWorkflowRun: the action of a transition that is allowed.
unfoldable pub transition_action : String → String → String → Option String
transition_action old status conclusion =
    if old == "queued" && status == "in_progress" && conclusion == ""
    then some "in_progress"
    else if (old == "queued" || old == "in_progress")
        && status == "completed"
        && not (conclusion == "")
    then some "completed"
    else none

-- w.workflowRuns[index] = run, the event, and the count of mutations.
unfoldable pub commit_run : World → ℕ → Repository → WorkflowRun → String → World
commit_run w index r new action =
    let w' =
      append_workflow_event (record w { workflow_runs = set w.workflow_runs index new }) r new
        action in
    record w' { mutations = increment w'.mutations }

unfoldable pub transition_workflow_run : World → Decoded WorkflowTransitionInput → World × Reply
unfolding workflow_run_by_id transition_action commit_run
transition_workflow_run w body = decode_control (stay w) body λ input.
    if_some (workflow_run_by_id w input.run_id) (refuse w 404 "unknown workflow run")
      (λ (index, old).
        let new : WorkflowRun = record old {
          status = input.status;
          conclusion = input.conclusion;
        } in
        if has w.active_runs input.run_id
        then refuse w 409 "workflow run execution is claimed"
        else if_some (transition_action old.status input.status input.conclusion)
            (refuse w 409 "invalid workflow transition")
            (λ action. (
              commit_run w index (get_or (get w.repositories old.repository_id) zero_repository) new
                  action,
              write_json 200 (run new),
            )))
