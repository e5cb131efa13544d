-- ===== src/History/Runs.antt =====
-- The handlers that act on the runs: transitions, cancellations and pushes.
use merger_herder_validation.Public.ActionCases.{cancel_cases}
use merger_herder_validation.Machine.{Machine, forced_update}
use merger_herder_validation.Text.{Unicode}
use merger_herder_validation.Git.Push.{
  record_ref, record_refs, record_ref_changes, Refs, sha_of, touched_refs,
}
use merger_herder_validation.Runs.Cases.{transition_cases, workflow_run_by_id_sound}
use merger_herder_validation.History.Effect.{
  Does, refused-Does, transition_action-IsLive, moved, RunEffect, untouched, cancelled, queued,
}
use merger_herder_validation.Dict.{has, get-put, get}
use merger_herder_validation.World.Inputs.{WorkflowTransitionInput}
use merger_herder_validation.Prelude.{
  ℕ, Bool, ◌≡◌, arith, get_or, String, refl, set, true, nat_beq_iff, nat_key, Option, option_cases,
  List, if_cases, ◌∷◌, not, ◌==◌, ◌&&◌, [], string_key, if◌then◌else◌,
}
use merger_herder_validation.Reply.{Decoded}
use merger_herder_validation.Events.{
  append_workflow_event, append_pending_event, append_pending_app_event, append_push_event,
}
use merger_herder_validation.Public.Actions.{
  interrupt_run, request_cancellation, cancel_workflow_run,
}
use merger_herder_validation.Runs.{commit_run, transition_workflow_run, append_queued_workflow}
use merger_herder_validation.World.{
  World, Repository, WorkflowRun, zero_active_run, InstallationToken,
}

pub commit_run-workflow_runs :
    (w : World) (i : ℕ) (r : Repository) (new : WorkflowRun) (action : String)
    → (commit_run w i r new action).workflow_runs ≡ set w.workflow_runs i new
unfolding commit_run append_workflow_event append_pending_event append_pending_app_event
commit_run-workflow_runs w i r new action = refl

pub commit_run-active_runs :
    (w : World) (i : ℕ) (r : Repository) (new : WorkflowRun) (action : String)
    → (commit_run w i r new action).active_runs ≡ w.active_runs
unfolding commit_run append_workflow_event append_pending_event append_pending_app_event
commit_run-active_runs w i r new action = refl

pub commit_run-next_run_id :
    (w : World) (i : ℕ) (r : Repository) (new : WorkflowRun) (action : String)
    → (commit_run w i r new action).next_run_id ≡ w.next_run_id
unfolding commit_run append_workflow_event append_pending_event append_pending_app_event
commit_run-next_run_id w i r new action = refl

pub transition-Does :
    (w : World) (body : Decoded WorkflowTransitionInput) → Does w (transition_workflow_run w body)
transition-Does w body =
    transition_cases (Does w) w body (refused-Does w) λ input i old action found free allowed.
      let (at_index, same_id) = workflow_run_by_id_sound w input.run_id i old found in
      let (moves, live) =
        transition_action-IsLive old.status input.status input.conclusion action allowed in
      moved i old (record old { status = input.status; conclusion = input.conclusion }) at_index
        (rw same_id free)
        (record {
          id = refl;
          repository_id = refl;
          workflow_id = refl;
          head_branch = refl;
          head_sha = refl;
          moves = moves;
        })
        live (commit_run-workflow_runs w i _ _ action) (commit_run-active_runs w i _ _ action)
        (commit_run-next_run_id w i _ _ action)

-- The interrupt leaves the runs, and the set of the runs that are claimed.
has-interrupt_run :
    (signal : ℕ → Bool) (w : World) (run_id k : ℕ)
    → has (interrupt_run signal w run_id).active_runs k ≡ has w.active_runs k
unfolding interrupt_run
has-interrupt_run signal w run_id k = ground (
  arith,
  get-put w.active_runs run_id k (record (get_or (get w.active_runs run_id) zero_active_run) {
    cancellation_signalled = true;
  }),
  nat_beq_iff run_id k,
)

workflow_runs-interrupt_run :
    (signal : ℕ → Bool) (w : World) (run_id : ℕ)
    → (interrupt_run signal w run_id).workflow_runs ≡ w.workflow_runs
unfolding interrupt_run
workflow_runs-interrupt_run signal w run_id = ground arith

next_run_id-interrupt_run :
    (signal : ℕ → Bool) (w : World) (run_id : ℕ)
    → (interrupt_run signal w run_id).next_run_id ≡ w.next_run_id
unfolding interrupt_run
next_run_id-interrupt_run signal w run_id = ground arith

-- Nor does a cancellation as a whole.
pub has-request_cancellation :
    (signal : ℕ → Bool) (w : World) (i : ℕ) (r : WorkflowRun) (k : ℕ)
    → has (request_cancellation signal w i r).active_runs k ≡ has w.active_runs k
unfolding request_cancellation
has-request_cancellation signal w i r k =
    has-interrupt_run signal
      (record w {
        workflow_runs = set w.workflow_runs i (record r { cancellation_requested = true });
      })
      r.id k

pub cancel-Does :
    (u : Unicode) (signal : ℕ → Bool) (w : World) (bearer : Option InstallationToken)
    (owner name : String) (run_id : ℕ)
    → RunEffect w (cancel_workflow_run u signal w bearer owner name run_id).0
unfolding request_cancellation
cancel-Does u signal w bearer owner name run_id =
    cancel_cases (λ r. RunEffect w r.0) u signal w bearer owner name run_id
      (λ _ _ _. untouched refl refl refl)
      λ token i r _ may.
        let w' = record w {
          workflow_runs = set w.workflow_runs i (record r { cancellation_requested = true });
        } in
        cancelled i r may.at_index may.not_completed (workflow_runs-interrupt_run signal w' r.id)
          (has-interrupt_run signal w' r.id) (next_run_id-interrupt_run signal w' r.id)

-- One round of recordRefChanges queues a run or leaves the runs.
pub record_ref-RunEffect :
    (w : World) (r : Repository) (token : InstallationToken) (ref before_sha after_sha : String)
    (forced : Bool)
    → RunEffect w (record_ref w r token ref before_sha after_sha forced)
unfolding record_ref append_push_event append_queued_workflow append_workflow_event
    append_pending_event append_pending_app_event
record_ref-RunEffect w r token ref before_sha after_sha forced =
    option_cases (RunEffect w) (get w.workflows r.id) _ _ (λ _. untouched refl refl refl)
      λ workflow _.
        if_cases (RunEffect w) (workflow.release_ref == ref && not (after_sha == "")) _ _
          (λ _. queued _ refl refl refl refl refl) (λ _. untouched refl refl refl)

module _ {ℓ} (Q : World → Type ℓ) (closed : (a b : World) → RunEffect a b → Q a → Q b) where
  record_refs-closed :
      (w : World) (r : Repository) (token : InstallationToken) (before after : Refs)
      (forced : String → Bool) (refs : List String)
      → Q w
      → Q (record_refs w r token before after forced refs).0
  unfolding record_refs
  record_refs-closed w r token before after forced [] q = q
  record_refs-closed w r token before after forced (ref ∷ rest) q =
      record_refs-closed
        (if not (sha_of before ref == sha_of after ref)
          then record_ref w r token ref (sha_of before ref) (sha_of after ref) (forced ref)
          else w)
        r token before after forced rest
        (if_cases Q (not (sha_of before ref == sha_of after ref)) _ _
          (λ _.
            closed w _
              (record_ref-RunEffect w r token ref (sha_of before ref) (sha_of after ref)
                (forced ref))
              q)
          (λ _. q))

  -- A property that each step keeps holds after a push.
  pub record_ref_changes-closed :
      (m : Machine) (w : World) (r : Repository) (token : InstallationToken) (before after : Refs)
      → Q w
      → Q (record_ref_changes m w r token before after)
  unfolding record_ref_changes
  record_ref_changes-closed m w r token before after q =
      let forced =
        λ (ref : String). forced_update m r.git_dir (sha_of before ref) (sha_of after ref) in
      let rounds = record_refs w r token before after forced (touched_refs before after) in
      let done = record_refs-closed w r token before after forced (touched_refs before after) q in
      if_cases Q rounds.1 _ _ (λ _. closed rounds.0 _ (untouched refl refl refl) done) (λ _. done)
