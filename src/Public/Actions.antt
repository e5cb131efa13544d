-- ===== src/Public/Actions.antt =====
-- CancelWorkflowRunByID.
use merger_herder_validation.Prelude.{
  ℕ, Bool, true, not, ◌&&◌, ◌||◌, Option, none, some, String, ◌==◌, nat_key, string_key,
  if◌then◌else◌, get_or, set, ltb, if_some,
}
use merger_herder_validation.Text.{Unicode}
use merger_herder_validation.Dict.{get, put, has}
use merger_herder_validation.Permission.{permission_rank, granted_rank}
use merger_herder_validation.World.{
  World, WorkflowRun, InstallationToken, ActiveRun, zero_active_run,
}
use merger_herder_validation.Control.Setup.{repo_name}
use merger_herder_validation.Events.{increment}
use merger_herder_validation.Runs.{index_where}
use merger_herder_validation.Public.Api.{ApiResult, api_response, api_refuse}

-- active.command.Process, where there is one.
abbrev pub process_of : ActiveRun → Option ℕ
process_of active = if_some active.command (none) (λ command. command.process)

-- The interrupt of the run's process; `signal` says whether the signal was sent.
unfoldable pub interrupt_run : (ℕ → Bool) → World → ℕ → World
interrupt_run signal w run_id =
    let active = get_or (get w.active_runs run_id) zero_active_run in
    if_some (process_of active) (w) (λ process.
      if signal process
      then record w {
        active_runs = put w.active_runs run_id (record active { cancellation_signalled = true });
      }
      else w)

-- The writes of a cancellation.
unfoldable pub request_cancellation : (ℕ → Bool) → World → ℕ → WorkflowRun → World
unfolding interrupt_run
request_cancellation signal w index r =
    let w' = record w {
      workflow_runs = set w.workflow_runs index (record r { cancellation_requested = true });
    } in
    let w'' = interrupt_run signal w' r.id in record w'' { mutations = increment w''.mutations }

unfoldable pub cancel_workflow_run :
    Unicode
    → (ℕ → Bool)
    → World
    → Option InstallationToken
    → String
    → String
    → ℕ
    → World × ApiResult (Unit {0})
unfolding repo_name granted_rank index_where request_cancellation
cancel_workflow_run u signal w none owner name run_id = api_refuse w 401 "Bad credentials"
cancel_workflow_run u signal w (some token) owner name run_id =
    if_some (get w.repo_names (repo_name u owner name)) (api_refuse w 404 "Not Found")
      λ repository_id.
        if not (has token.repository_ids repository_id)
          || ltb (granted_rank token.permissions "actions") (permission_rank "write")
        then api_refuse w 404 "Not Found"
        else if_some
            (index_where (λ r. r.id == run_id && r.repository_id == repository_id) 0
              w.workflow_runs)
            (api_refuse w 404 "Not Found")
            λ (index, r).
              if r.status == "completed"
              then api_refuse w 409 "Cannot cancel a completed workflow run"
              else (request_cancellation signal w index r, api_response 202 tt)
