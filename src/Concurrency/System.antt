-- ===== src/Concurrency/System.antt =====
-- The world under any number of requests.
use merger_herder_validation.Public.Actions.{cancel_workflow_run}
use merger_herder_validation.Runs.{transition_workflow_run}
use merger_herder_validation.Delivery.{Delivery, finish_delivery, duplicate_event}
use merger_herder_validation.History.Runs.{transition-Does, cancel-Does, record_ref_changes-closed}
use merger_herder_validation.Control.Pulls.{
  create_pull_request, change_pull_request_state, advance_time, configure_workflow,
}
use merger_herder_validation.Concurrency.Start.{preparing_of, running_of}
use merger_herder_validation.History.Setup.{
  create_app-Does, create_installation-Does, create_repository-Does, create_pull_request-Does,
  change_pull_request_state-Does, advance_time-Does, configure_workflow-Does, finish_delivery-Does,
  duplicate_event-Does,
}
use merger_herder_validation.Execution.{
  Claim, claim_run, claimed, release_claim, start_run, stopped, under_way, finish_run,
}
use merger_herder_validation.Control.Setup.{create_app, create_installation, create_repository}
use merger_herder_validation.Concurrency.Holds.{Executor}
use merger_herder_validation.World.Inputs.{
  ExecuteWorkflowInput, AppInput, InstallationInput, RepositoryInput, PullRequestInput,
  PullRequestStateInput, AdvanceTimeInput, WorkflowInput, DuplicateEventInput,
  WorkflowTransitionInput,
}
use merger_herder_validation.History.Effect.{RunEffect, untouched}
use merger_herder_validation.Reply.{Decoded, Reply}
use merger_herder_validation.Text.{Unicode}
use merger_herder_validation.Machine.{Machine, Platform}
use merger_herder_validation.World.{World, Repository, InstallationToken}
use merger_herder_validation.Public.Unsupported.{record_unsupported}
use merger_herder_validation.Public.Tokens.{issue_for_app, TokenOptions}
use merger_herder_validation.Git.Push.{
  refresh_pull, record_observation_error, RefSnapshot, Refs, record_ref_changes,
}
use merger_herder_validation.Prelude.{
  ℕ, ◌≡◌, Option, String, if◌then◌else◌, ◌==◌, none, nat_key, arith, some, Bool, refl,
}

-- One critical section of a request that is no execution of a run.
pub data Handled (w w' : World) : Type 0 where
  creates_app :
      (p : Platform) (body : Decoded AppInput) → w' ≡ (create_app p w body).0 → Handled w w'
  creates_installation :
      (body : Decoded InstallationInput) → w' ≡ (create_installation w body).0 → Handled w w'
  creates_repository :
      (p : Platform) (m : Machine) (body : Decoded RepositoryInput)
      → w' ≡ (create_repository p m w body).0
      → Handled w w'
  creates_pull_request :
      (m : Machine) (body : Decoded PullRequestInput)
      → w' ≡ (create_pull_request m w body).0
      → Handled w w'
  changes_pull_request_state :
      (body : Decoded PullRequestStateInput)
      → w' ≡ (change_pull_request_state w body).0
      → Handled w w'
  advances_time :
      (p : Platform) (body : Decoded AdvanceTimeInput)
      → w' ≡ (advance_time p w body).0
      → Handled w w'
  configures_workflow :
      (m : Machine) (body : Decoded WorkflowInput)
      → w' ≡ (configure_workflow m w body).0
      → Handled w w'
  finishes_delivery : (d : Delivery) → w' ≡ (finish_delivery w d).0 → Handled w w'
  duplicates_event :
      (body : Decoded DuplicateEventInput) → w' ≡ (duplicate_event w body).0 → Handled w w'
  transitions_run :
      (body : Decoded WorkflowTransitionInput)
      → w' ≡ (transition_workflow_run w body).0
      → Handled w w'
  cancels_run :
      (u : Unicode) (signal : ℕ → Bool) (bearer : Option InstallationToken) (owner name : String)
      (run_id : ℕ)
      → w' ≡ (cancel_workflow_run u signal w bearer owner name run_id).0
      → Handled w w'
  creates_token :
      (u : Unicode) (app_id installation_id : ℕ) (options : TokenOptions) (random : Option String)
      → w' ≡ (issue_for_app u w app_id installation_id options random).0
      → Handled w w'
  records_unsupported :
      (method path : String) → w' ≡ record_unsupported w method path → Handled w w'
  records_observation_error :
      (repository_id : ℕ) (operation text : String)
      → w' ≡ record_observation_error w repository_id operation text
      → Handled w w'
  records_ref_changes :
      (m : Machine) (r : Repository) (token : InstallationToken) (before after : Refs)
      → w' ≡ record_ref_changes m w r token before after
      → Handled w w'
  refreshes_pull :
      (m : Machine) (r : Repository) (snapshot : RefSnapshot)
      → w' ≡ refresh_pull m w r snapshot
      → Handled w w'

issue_for_app-RunEffect :
    (u : Unicode) (w : World) (app_id installation_id : ℕ) (options : TokenOptions)
    (random : Option String)
    → RunEffect w (issue_for_app u w app_id installation_id options random).0
unfolding issue_for_app
issue_for_app-RunEffect u w app_id installation_id options random =
    untouched (ground arith) (ground arith) (ground arith)

refresh_pull-RunEffect :
    (m : Machine) (w : World) (r : Repository) (snapshot : RefSnapshot)
    → RunEffect w (refresh_pull m w r snapshot)
unfolding refresh_pull
refresh_pull-RunEffect m w r snapshot = untouched (ground arith) (ground arith) (ground arith)

-- What each effect on the runs keeps is kept by each handler.
pub Handled-closed {ℓ} :
    (Q : World → Type ℓ)
    → ((a b : World) → RunEffect a b → Q a → Q b)
    → (w w' : World) → Handled w w'
    → Q w
    → Q w'
unfolding record_unsupported record_observation_error
Handled-closed Q closed w w' (creates_app p body e) q =
    rw e (closed w _ (create_app-Does p w body) q)
Handled-closed Q closed w w' (creates_installation body e) q =
    rw e (closed w _ (create_installation-Does w body) q)
Handled-closed Q closed w w' (creates_repository p m body e) q =
    rw e (closed w _ (create_repository-Does p m w body) q)
Handled-closed Q closed w w' (creates_pull_request m body e) q =
    rw e (closed w _ (create_pull_request-Does m w body) q)
Handled-closed Q closed w w' (changes_pull_request_state body e) q =
    rw e (closed w _ (change_pull_request_state-Does w body) q)
Handled-closed Q closed w w' (advances_time p body e) q =
    rw e (closed w _ (advance_time-Does p w body) q)
Handled-closed Q closed w w' (configures_workflow m body e) q =
    rw e (closed w _ (configure_workflow-Does m w body) q)
Handled-closed Q closed w w' (finishes_delivery d e) q =
    rw e (closed w _ (finish_delivery-Does w d) q)
Handled-closed Q closed w w' (duplicates_event body e) q =
    rw e (closed w _ (duplicate_event-Does w body) q)
Handled-closed Q closed w w' (transitions_run body e) q =
    rw e (closed w _ (transition-Does w body) q)
Handled-closed Q closed w w' (cancels_run u signal bearer owner name run_id e) q =
    rw e (closed w _ (cancel-Does u signal w bearer owner name run_id) q)
Handled-closed Q closed w w' (creates_token u app_id installation_id options random e) q =
    rw e (closed w _ (issue_for_app-RunEffect u w app_id installation_id options random) q)
Handled-closed Q closed w w' (records_unsupported method path e) q =
    rw e (closed w _ (untouched refl refl refl) q)
Handled-closed Q closed w w' (records_observation_error i operation text e) q =
    rw e (closed w _ (untouched refl refl refl) q)
Handled-closed Q closed w w' (records_ref_changes m r token before after e) q =
    rw e (record_ref_changes-closed Q closed m w r token before after q)
Handled-closed Q closed w w' (refreshes_pull m r snapshot e) q =
    rw e (closed w _ (refresh_pull-RunEffect m w r snapshot) q)

-- The world, and the execution of each request of POST /workflow-runs/execute that is under way.
pub record System : Type 0 where
  pub world : World
  pub pool : ℕ → Option Executor

abbrev pub update : (ℕ → Option Executor) → ℕ → Option Executor → ℕ → Option Executor
update pool t o j = if j == t then o else pool j

pub data Step (s s' : System) : Type 0 where
  handles : Handled s.world s'.world → s'.pool ≡ s.pool → Step s s'
  claims :
      (t : ℕ) (body : Decoded ExecuteWorkflowInput) (c : Claim)
      → s.pool t ≡ none
      → claim_run s.world body ≡ claimed s'.world c
      → s'.pool ≡ update s.pool t (some (preparing_of c))
      → Step s s'
  abandons :
      (t : ℕ) (c : Claim)
      → s.pool t ≡ some (preparing_of c)
      → s'.world ≡ release_claim s.world c
      → s'.pool ≡ update s.pool t none
      → Step s s'
  stops :
      (t : ℕ) (c : Claim) (process : Option ℕ) (reply : Reply)
      → s.pool t ≡ some (preparing_of c)
      → start_run s.world c process ≡ some (stopped s'.world reply)
      → s'.pool ≡ update s.pool t none
      → Step s s'
  starts_runner :
      (t : ℕ) (c : Claim) (process : Option ℕ)
      → s.pool t ≡ some (preparing_of c)
      → start_run s.world c process ≡ some (under_way s'.world)
      → s'.pool ≡ update s.pool t (some (running_of c))
      → Step s s'
  finishes :
      (t : ℕ) (c : Claim) (waited : Bool) (logs : String) (reply : Reply)
      → s.pool t ≡ some (running_of c)
      → finish_run s.world c waited logs ≡ some (s'.world, reply)
      → s'.pool ≡ update s.pool t none
      → Step s s'

-- The states that any number of steps lead to.
pub data Reach (s : System) : System → Type 0 where
  here : Reach s s
  next : {t u : System} → Reach s t → Step t u → Reach s u
