-- ===== src/Concurrency/Log.antt =====
-- The event log under any number of requests.
use merger_herder_validation.Control.PullCases.{
  create_pull_request_cases, change_pull_request_state_cases, advance_time_cases,
  configure_workflow_cases,
}
use merger_herder_validation.Dict.{get}
use merger_herder_validation.Concurrency.Sections.{claim_run-IsClaim}
use merger_herder_validation.Public.Tokens.Issue.{issue_for_app_cases}
use merger_herder_validation.Public.ActionCases.{cancel_cases}
use merger_herder_validation.Runs.Cases.{transition_cases, duplicate_event_cases}
use merger_herder_validation.Events.Numbering.{IsNumbered, guid_unique}
use merger_herder_validation.Public.Unsupported.{record_unsupported}
use merger_herder_validation.World.Inputs.{
  RepositoryInput, WorkflowTransitionInput, InstallationInput,
}
use merger_herder_validation.Reply.{Reply, Decoded}
use merger_herder_validation.Prelude.{
  ℕ, Bool, Option, get_elem?, String, refl, length, arith, ◌≡◌, List, ◌==◌, ◌<◌, some, option_cases,
  word64, ◌∷◌, if_cases, subst, ap, ◌&&◌, string_key, not, nat_key, [], some-injective,
  if◌then◌else◌,
}
use merger_herder_validation.Events.Effect.{
  EventEffect, quiet, logged, HasEvent, EventEffect-HasEvent, EventEffect-IsNumbered,
}
use merger_herder_validation.Events.{
  append_installation_repositories_event, append_installation_event, append_workflow_event,
  append_pending_event, append_pending_app_event, append_push_event, increment,
}
use merger_herder_validation.Control.Cases.{
  Refusals, create_repository_cases, create_installation_cases, register_installation_cases,
  create_app_cases,
}
use merger_herder_validation.Public.Tokens.{issue_token, TokenOptions, issue_for_app}
use merger_herder_validation.Public.Actions.{
  request_cancellation, interrupt_run, cancel_workflow_run,
}
use merger_herder_validation.Git.Push.{
  refresh_pull, record_ref_changes, record_ref, record_refs, record_observation_error, RefSnapshot,
  Refs, sha_of, touched_refs,
}
use merger_herder_validation.Concurrency.System.{
  System, Reach, next, Step, Handled, handles, here, creates_app, claims, creates_installation,
  creates_repository, abandons, stops, creates_pull_request, starts_runner, finishes,
  changes_pull_request_state, advances_time, configures_workflow, finishes_delivery,
  duplicates_event, transitions_run, cancels_run, creates_token, records_unsupported,
  records_observation_error, records_ref_changes, refreshes_pull,
}
use merger_herder_validation.Execution.{
  finish_run, start_run, Started, Claim, stopped, release_claim, under_way,
}
use merger_herder_validation.Control.Setup.{
  add_installation, add_repository, create_repository, create_installation,
}
use merger_herder_validation.World.{
  World, PendingEvent, Repository, WorkflowRun, InstallationToken, Installation,
}
use merger_herder_validation.Machine.{Platform, Machine, forced_update}
use merger_herder_validation.Delivery.{finish_delivery, record_attempt, Delivery, ended, sent}
use merger_herder_validation.Runs.{commit_run, transition_workflow_run, append_queued_workflow}
use merger_herder_validation.Text.{Unicode}

abbrev Logs : World → World × Reply → Type 0
Logs w r = EventEffect w r.0

refused-Logs : (w : World) → Refusals (Logs w) w
refused-Logs w status text h = quiet refl refl

add_installation-EventEffect :
    (w : World) (input : InstallationInput) → EventEffect w (add_installation w input)
unfolding add_installation append_installation_event append_pending_app_event
add_installation-EventEffect w input =
    if_cases (λ x. EventEffect w (record x { mutations = increment x.mutations }))
      (input.owner == "") _ _ (λ _. quiet refl refl) (λ _. logged _ refl refl refl)

create_installation-Logs :
    (w : World) (body : Decoded InstallationInput) → Logs w (create_installation w body)
create_installation-Logs w body =
    create_installation_cases (Logs w) w body (refused-Logs w) λ input.
      register_installation_cases (Logs w) w input (refused-Logs w)
        λ _ _ _. add_installation-EventEffect w input

add_repository-EventEffect :
    (w : World) (i : Installation) (key : String) (r : Repository)
    → EventEffect w (add_repository w i key r)
unfolding add_repository append_installation_repositories_event append_pending_event
    append_pending_app_event
add_repository-EventEffect w i key r =
    if_cases (λ x. EventEffect w (record x { mutations = increment x.mutations })) (i.owner == "") _
      _ (λ _. quiet refl refl) (λ _. logged _ refl refl refl)

create_repository-Logs :
    (p : Platform) (m : Machine) (w : World) (body : Decoded RepositoryInput)
    → Logs w (create_repository p m w body)
create_repository-Logs p m w body =
    create_repository_cases (Logs w) p m w body (refused-Logs w)
      λ input i new same. add_repository-EventEffect w i _ _

commit_run-EventEffect :
    (w : World) (i : ℕ) (r : Repository) (new : WorkflowRun) (action : String)
    → EventEffect w (commit_run w i r new action)
unfolding commit_run append_workflow_event append_pending_event append_pending_app_event
commit_run-EventEffect w i r new action = logged _ refl refl refl

transition-Logs :
    (w : World) (body : Decoded WorkflowTransitionInput) → Logs w (transition_workflow_run w body)
transition-Logs w body =
    transition_cases (Logs w) w body (refused-Logs w)
      λ input i old action _ _ _. commit_run-EventEffect w i _ _ action

request_cancellation-EventEffect :
    (signal : ℕ → Bool) (w : World) (i : ℕ) (r : WorkflowRun)
    → EventEffect w (request_cancellation signal w i r)
unfolding request_cancellation interrupt_run
request_cancellation-EventEffect signal w i r = quiet (ground arith) (ground arith)

cancel-EventEffect :
    (u : Unicode) (signal : ℕ → Bool) (w : World) (bearer : Option InstallationToken)
    (owner name : String) (run_id : ℕ)
    → EventEffect w (cancel_workflow_run u signal w bearer owner name run_id).0
cancel-EventEffect u signal w bearer owner name run_id =
    cancel_cases (λ r. EventEffect w r.0) u signal w bearer owner name run_id
      (λ _ _ _. quiet refl refl) (λ token i r _ _. request_cancellation-EventEffect signal w i r)

issue_for_app-EventEffect :
    (u : Unicode) (w : World) (app_id installation_id : ℕ) (options : TokenOptions)
    (random : Option String)
    → EventEffect w (issue_for_app u w app_id installation_id options random).0
unfolding issue_token
issue_for_app-EventEffect u w app_id installation_id options random =
    issue_for_app_cases (λ r. EventEffect w r.0) u w app_id installation_id options random
      (λ _ _ _. quiet refl refl) (λ _ _ _ _ _ _ _ _ _ _. quiet refl refl)

finish_delivery-Logs : (w : World) (d : Delivery) → Logs w (finish_delivery w d)
unfolding finish_delivery record_attempt
finish_delivery-Logs w (ended r) = quiet refl refl
finish_delivery-Logs w (sent request a result) = quiet refl refl

refresh_pull-EventEffect :
    (m : Machine) (w : World) (r : Repository) (snapshot : RefSnapshot)
    → EventEffect w (refresh_pull m w r snapshot)
unfolding refresh_pull
refresh_pull-EventEffect m w r snapshot = quiet (ground arith) (ground arith)

-- The world that the second critical section leaves.
abbrev world_of : Started → World
world_of (stopped w reply) = w
world_of (under_way w) = w

start_run-EventEffect :
    (w : World) (c : Claim) (process : Option ℕ) (o : Started)
    → start_run w c process ≡ some o
    → EventEffect w (world_of o)
unfolding start_run commit_run append_workflow_event append_pending_event append_pending_app_event
start_run-EventEffect w c process o result =
    let P : Started → Type 0 = λ x. EventEffect w (world_of x) in
    let Q : Option Started → Type 0 = λ x. x ≡ some o → P o in
    option_cases Q (get_elem? w.workflow_runs c.index) _ _ (λ _ e. absurd (ground arith))
      (λ r _.
        if_cases Q (not (r.status == "queued")) _ _
          (λ _ e. subst P (some-injective _ _ e) (quiet refl refl))
          λ _.
            if_cases Q r.cancellation_requested _ _
              (λ _ e. subst P (some-injective _ _ e) (logged _ refl refl refl))
              λ _.
                option_cases Q process _ _ (λ _ e. subst P (some-injective _ _ e) (quiet refl refl))
                  (λ _ _ e. subst P (some-injective _ _ e) (logged _ refl refl refl)))
      result

finish_run-EventEffect :
    (w w' : World) (c : Claim) (waited : Bool) (logs : String) (reply : Reply)
    → finish_run w c waited logs ≡ some (w', reply)
    → EventEffect w w'
unfolding finish_run commit_run append_workflow_event append_pending_event append_pending_app_event
finish_run-EventEffect w w' c waited logs reply =
    option_cases (λ o. o ≡ some (w', reply) → EventEffect w w') (get_elem? w.workflow_runs c.index)
      _ _ (λ _ e. absurd (ground arith))
      λ r _ e.
        subst (λ (x : World × Reply). EventEffect w x.0) (some-injective _ _ e)
          (logged _ refl refl refl)

-- What each effect on the log keeps is kept by each handler and each step.
module _ {ℓ} (Q : World → Type ℓ) (closed : (a b : World) → EventEffect a b → Q a → Q b) where
  record_ref-log_closed :
      (w : World) (r : Repository) (token : InstallationToken) (ref before_sha after_sha : String)
      (forced : Bool)
      → Q w
      → Q (record_ref w r token ref before_sha after_sha forced)
  unfolding record_ref append_push_event append_queued_workflow append_workflow_event
      append_pending_event append_pending_app_event
  record_ref-log_closed w r token ref before_sha after_sha forced q =
      let pushed = closed w _ (logged _ refl refl refl) q in
      option_cases Q (get w.workflows r.id) _ _ (λ _. pushed)
        λ workflow _.
          if_cases Q (workflow.release_ref == ref && not (after_sha == "")) _ _
            (λ _. closed _ _ (logged _ refl refl refl) pushed) (λ _. pushed)

  record_refs-log_closed :
      (w : World) (r : Repository) (token : InstallationToken) (before after : Refs)
      (forced : String → Bool) (refs : List String)
      → Q w
      → Q (record_refs w r token before after forced refs).0
  unfolding record_refs
  record_refs-log_closed w r token before after forced [] q = q
  record_refs-log_closed w r token before after forced (ref ∷ rest) q =
      record_refs-log_closed
        (if not (sha_of before ref == sha_of after ref)
          then record_ref w r token ref (sha_of before ref) (sha_of after ref) (forced ref)
          else w)
        r token before after forced rest
        (if_cases Q (not (sha_of before ref == sha_of after ref)) _ _
          (λ _.
            record_ref-log_closed w r token ref (sha_of before ref) (sha_of after ref) (forced ref)
              q)
          (λ _. q))

  record_ref_changes-log_closed :
      (m : Machine) (w : World) (r : Repository) (token : InstallationToken) (before after : Refs)
      → Q w
      → Q (record_ref_changes m w r token before after)
  unfolding record_ref_changes
  record_ref_changes-log_closed m w r token before after q =
      let forced : String → Bool =
        λ ref. forced_update m r.git_dir (sha_of before ref) (sha_of after ref) in
      let recorded =
        record_refs-log_closed w r token before after forced (touched_refs before after) q in
      if_cases Q (record_refs w r token before after forced (touched_refs before after)).1 _ _
        (λ _. closed _ _ (quiet refl refl) recorded) (λ _. recorded)

  Handled-log_closed : (w w' : World) → Handled w w' → Q w → Q w'
  unfolding record_unsupported record_observation_error
  Handled-log_closed w w' (creates_app p body e) q = rw e (
      closed w _ (create_app_cases (Logs w) p w body (refused-Logs w) (λ _ _ _. quiet refl refl)) q)
  Handled-log_closed w w' (creates_installation body e) q =
      rw e (closed w _ (create_installation-Logs w body) q)
  Handled-log_closed w w' (creates_repository p m body e) q =
      rw e (closed w _ (create_repository-Logs p m w body) q)
  Handled-log_closed w w' (creates_pull_request m body e) q = rw e (
      closed w _
        (create_pull_request_cases (Logs w) m w body (refused-Logs w)
          (λ _ _ _ _ _ _ _. quiet refl refl))
        q)
  Handled-log_closed w w' (changes_pull_request_state body e) q = rw e (
      closed w _
        (change_pull_request_state_cases (Logs w) w body (refused-Logs w)
          (λ _ _ _ _. quiet refl refl))
        q)
  Handled-log_closed w w' (advances_time p body e) q = rw e (
      closed w _ (advance_time_cases (Logs w) p w body (refused-Logs w) (λ _ _. quiet refl refl)) q)
  Handled-log_closed w w' (configures_workflow m body e) q = rw e (
      closed w _
        (configure_workflow_cases (Logs w) m w body (refused-Logs w) (λ _ _. quiet refl refl)) q)
  Handled-log_closed w w' (finishes_delivery d e) q = rw e (closed w _ (finish_delivery-Logs w d) q)
  Handled-log_closed w w' (duplicates_event body e) q = rw e (
      closed w _
        (duplicate_event_cases (Logs w) w body (refused-Logs w) (λ _ _ _. logged _ refl refl refl))
        q)
  Handled-log_closed w w' (transitions_run body e) q = rw e (closed w _ (transition-Logs w body) q)
  Handled-log_closed w w' (cancels_run u signal bearer owner name run_id e) q =
      rw e (closed w _ (cancel-EventEffect u signal w bearer owner name run_id) q)
  Handled-log_closed w w' (creates_token u app_id installation_id options random e) q =
      rw e (closed w _ (issue_for_app-EventEffect u w app_id installation_id options random) q)
  Handled-log_closed w w' (records_unsupported method path e) q =
      rw e (closed w _ (quiet refl refl) q)
  Handled-log_closed w w' (records_observation_error i operation text e) q =
      rw e (closed w _ (quiet refl refl) q)
  Handled-log_closed w w' (records_ref_changes m r token before after e) q =
      rw e (record_ref_changes-log_closed m w r token before after q)
  Handled-log_closed w w' (refreshes_pull m r snapshot e) q =
      rw e (closed w _ (refresh_pull-EventEffect m w r snapshot) q)

  Step-log_closed : (s s' : System) → Step s s' → Q s.world → Q s'.world
  unfolding release_claim
  Step-log_closed s s' (handles step same) q = Handled-log_closed s.world s'.world step q
  Step-log_closed s s' (claims t body c idle result pool) q =
      let is = claim_run-IsClaim s.world s'.world body c result in
      closed s.world s'.world
        (quiet (ap (λ (x : World). x.next_event_id) is.world)
          (ap (λ (x : World). x.pending_events) is.world))
        q
  Step-log_closed s s' (abandons t c entry world pool) q =
      rw world (closed s.world _ (quiet refl refl) q)
  Step-log_closed s s' (stops t c process reply entry result pool) q =
      closed s.world s'.world
        (start_run-EventEffect s.world c process (stopped s'.world reply) result) q
  Step-log_closed s s' (starts_runner t c process entry result pool) q =
      closed s.world s'.world (start_run-EventEffect s.world c process (under_way s'.world) result)
        q
  Step-log_closed s s' (finishes t c waited logs reply entry result pool) q =
      closed s.world s'.world (finish_run-EventEffect s.world s'.world c waited logs reply result) q

  pub Reach-log_closed : (s s' : System) → Reach s s' → Q s.world → Q s'.world
  Reach-log_closed s s' here q = q
  Reach-log_closed s s' (next {t} r step) q = Step-log_closed t s' step (Reach-log_closed s t r q)

-- From a state with a numbered log, any number of requests leads only to states in which two events
-- with one GUID are the same event, as long as the log has fewer than 2 ^ 64 events.
pub Reach-guid_unique :
    (s s' : System) (i j : ℕ) (a b : PendingEvent)
    → Reach s s'
    → IsNumbered s.world
    → length s'.world.pending_events < word64
    → get_elem? s'.world.pending_events i ≡ some a
    → get_elem? s'.world.pending_events j ≡ some b
    → a.guid ≡ b.guid
    → i ≡ j
Reach-guid_unique s s' i j a b reached h short ei ej same =
    guid_unique s'.world.next_event_id s'.world.pending_events i j a b
      (Reach-log_closed IsNumbered EventEffect-IsNumbered s s' reached h) short ei ej same

-- No request takes an event from the log or changes one.
pub Reach-events_kept :
    (s s' : System) (i : ℕ) (e : PendingEvent)
    → Reach s s'
    → get_elem? s.world.pending_events i ≡ some e
    → get_elem? s'.world.pending_events i ≡ some e
Reach-events_kept s s' i e reached h =
    Reach-log_closed (HasEvent i e) (EventEffect-HasEvent i e) s s' reached h
