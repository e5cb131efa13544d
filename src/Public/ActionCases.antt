-- ===== src/Public/ActionCases.antt =====
-- The outcomes of a cancellation: an error that leaves the world as it is, or the writes of the
-- cancellation under its guards.
use merger_herder_validation.Runs.Cases.{index_where_sound}
use merger_herder_validation.Runs.{index_where}
use merger_herder_validation.Permission.{permission_rank, granted_rank}
use merger_herder_validation.Control.Setup.{repo_name}
use merger_herder_validation.Dict.{get, has}
use merger_herder_validation.Prelude.{
  String, ℕ, ◌≤◌, Bool, Option, ◌≡◌, some, true, arith, option_cases, get_elem?, if_cases, not, ◌≢◌,
  string_key, ◌||◌, ltb, nat_key, ◌==◌, ◌&&◌, eq_iff, none, refl,
}
use merger_herder_validation.Public.Api.{ApiResult, api_error, api_response}
use merger_herder_validation.Text.{Unicode}
use merger_herder_validation.Public.Actions.{cancel_workflow_run, request_cancellation}
use merger_herder_validation.World.{World, InstallationToken, WorkflowRun}

-- An error result beside the world as it was.
abbrev pub ApiRefusals {ℓ κ} : {A : Type κ} → (World × ApiResult A → Type ℓ) → World → Type ℓ
ApiRefusals P w = (status : ℕ) (text : String) → 400 ≤ status → P (w, api_error status text)

-- Who may cancel which run.
pub record MayCancel (u : Unicode) (w : World) (token : InstallationToken) (owner name : String)
    (run_id index : ℕ) (r : WorkflowRun) : Type 0 where
  pub repository_named : get w.repo_names (repo_name u owner name) ≡ some r.repository_id
  pub in_token : has token.repository_ids r.repository_id ≡ true
  pub may_write : permission_rank "write" ≤ granted_rank token.permissions "actions"
  pub at_index : get_elem? w.workflow_runs index ≡ some r
  pub same_id : r.id ≡ run_id
  pub not_completed : r.status ≢ "completed"

pub cancel_cases {ℓ} :
    (P : World × ApiResult (Unit {0}) → Type ℓ) (u : Unicode) (signal : ℕ → Bool) (w : World)
    (bearer : Option InstallationToken) (owner name : String) (run_id : ℕ)
    → ApiRefusals P w
    → ((token : InstallationToken) (index : ℕ) (r : WorkflowRun)
        → bearer ≡ some token
        → MayCancel u w token owner name run_id index r
        → P (request_cancellation signal w index r, api_response 202 tt))
    → P (cancel_workflow_run u signal w bearer owner name run_id)
unfolding cancel_workflow_run
cancel_cases P u signal w none owner name run_id refusal done = refusal 401 _ (omega arith)
cancel_cases P u signal w (some token) owner name run_id refusal done =
    option_cases P (get w.repo_names (repo_name u owner name)) _ _
      (λ _. refusal 404 _ (omega arith))
      λ repository_id named.
        if_cases P
          (not (has token.repository_ids repository_id)
            || ltb (granted_rank token.permissions "actions") (permission_rank "write"))
          _ _ (λ _. refusal 404 _ (omega arith))
          λ allowed.
            option_cases P
              (index_where (λ r. r.id == run_id && r.repository_id == repository_id) 0
                w.workflow_runs)
              _ _ (λ _. refusal 404 _ (omega arith))
              λ found e.
                if_cases P (found.1.status == "completed") _ _ (λ _. refusal 409 _ (omega arith))
                  λ live.
                    let (k, here, at, passes) =
                      index_where_sound
                        (λ (r : WorkflowRun). r.id == run_id && r.repository_id == repository_id) 0
                        w.workflow_runs found.0 found.1 e in
                    let same : repository_id ≡ found.1.repository_id = ground arith in
                    done token found.0 found.1 refl (record {
                      repository_named = rw (← same) named;
                      in_token = rw (← same) (ground arith);
                      may_write = ground arith;
                      at_index = ground arith;
                      same_id = ground arith;
                      not_completed = ground (arith, eq_iff found.1.status "completed");
                    })
