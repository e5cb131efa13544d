-- ===== src/Concurrency/Tables.antt =====
-- The tables of repositories, names and locks under any number of requests.
use merger_herder_validation.Control.PullCases.{
  create_pull_request_cases, change_pull_request_state_cases, advance_time_cases,
  configure_workflow_cases,
}
use merger_herder_validation.Public.ActionCases.{cancel_cases}
use merger_herder_validation.Public.Tokens.Issue.{issue_for_app_cases}
use merger_herder_validation.Concurrency.Sections.{claim_run-IsClaim}
use merger_herder_validation.Runs.Cases.{transition_cases, duplicate_event_cases}
use merger_herder_validation.World.Inputs.{
  InstallationInput, WorkflowTransitionInput, RepositoryInput,
}
use merger_herder_validation.Dict.{get, put, get-put, has, has-put}
use merger_herder_validation.Control.Cases.{
  Refusals, create_installation_cases, create_repository_cases, register_installation_cases,
  create_app_cases,
}
use merger_herder_validation.Public.Unsupported.{record_unsupported}
use merger_herder_validation.Prelude.{
  String, Bool-cases, ℕ, ◌≡◌, Bool, ◌==◌, nat_key, arith, Option, inl, ◌⊎◌, some, if_cases,
  string_key, List, option_cases, get_elem?, ap, ◌&&◌, ◌∷◌, refl, true, not, subst, inr,
  nat_beq_iff, if◌then◌else◌, some-injective, [],
}
use merger_herder_validation.Events.{
  append_installation_repositories_event, append_installation_event, append_workflow_event,
  append_pending_event, append_push_event, append_pending_app_event, increment,
}
use merger_herder_validation.Reply.{Reply, Decoded}
use merger_herder_validation.Public.Tokens.{issue_token, TokenOptions, issue_for_app}
use merger_herder_validation.Runs.{commit_run, transition_workflow_run, append_queued_workflow}
use merger_herder_validation.Git.Push.{
  refresh_pull, record_refs, record_ref, record_ref_changes, record_observation_error, RefSnapshot,
  Refs, sha_of, touched_refs,
}
use merger_herder_validation.Text.{Unicode}
use merger_herder_validation.Concurrency.System.{
  System, Reach, Step, next, handles, Handled, creates_app, claims, here, abandons,
  creates_installation, stops, creates_repository, creates_pull_request, starts_runner, finishes,
  changes_pull_request_state, advances_time, configures_workflow, finishes_delivery,
  duplicates_event, transitions_run, cancels_run, creates_token, records_unsupported,
  records_observation_error, records_ref_changes, refreshes_pull,
}
use merger_herder_validation.Control.Setup.{
  add_repository, add_installation, create_installation, create_repository,
}
use merger_herder_validation.World.{World, Repository, InstallationToken, Installation, WorkflowRun}
use merger_herder_validation.Machine.{Platform, Machine, forced_update}
use merger_herder_validation.Public.Actions.{
  request_cancellation, interrupt_run, cancel_workflow_run,
}
use merger_herder_validation.Execution.{
  Started, finish_run, start_run, release_claim, stopped, under_way, Claim,
}
use merger_herder_validation.Delivery.{finish_delivery, record_attempt, Delivery, ended, sent}

-- One step keeps them, or adds one repository to all three.
pub data TableEffect (w w' : World) : Type 0 where
  kept :
      w'.repositories ≡ w.repositories
      → w'.receive_locks ≡ w.receive_locks
      → w'.repo_names ≡ w.repo_names
      → TableEffect w w'
  added :
      (key : String) (r : Repository)
      → w'.repositories ≡ put w.repositories r.id r
      → w'.receive_locks ≡ put w.receive_locks r.id tt
      → w'.repo_names ≡ put w.repo_names key r.id
      → TableEffect w w'

-- Each name leads to a repository with its id, and to its lock.
abbrev pub IsLinked : World → Type 0
IsLinked w =
    (name : String) (i : ℕ)
    → get w.repo_names name ≡ some i
    → (r : Repository) × (get w.repositories i ≡ some r)
      × (r.id ≡ i)
      × (has w.receive_locks i ≡ true)

linked_id :
    (w w' : World) (r : Repository) (i : ℕ)
    → w'.repositories ≡ put w.repositories r.id r
    → w'.receive_locks ≡ put w.receive_locks r.id tt
    → (r.id ≡ i)
      ⊎ ((s : Repository) × (get w.repositories i ≡ some s)
          × (s.id ≡ i)
          × (has w.receive_locks i ≡ true))
    → (s : Repository) × (get w'.repositories i ≡ some s)
      × (s.id ≡ i)
      × (has w'.receive_locks i ≡ true)
linked_id w w' r i repositories locks h = elim (Bool-cases (r.id == i)) [
  | inl hit ↦ (
    r,
    rw repositories (ground (arith, get-put w.repositories r.id i r)),
    ground (arith, nat_beq_iff r.id i),
    rw locks (ground (arith, has-put w.receive_locks r.id i tt)),
  )
  | inr miss ↦ elim h [
    | inl same ↦ absurd (ground (arith, nat_beq_iff r.id i))
    | inr (s, found, id, locked) ↦ (
      s,
      rw repositories (ground (arith, get-put w.repositories r.id i r)),
      id,
      rw locks (ground (arith, has-put w.receive_locks r.id i tt)),
    )
  ]
]

TableEffect-IsLinked : (w w' : World) → TableEffect w w' → IsLinked w → IsLinked w'
TableEffect-IsLinked w w' (kept repositories locks names) h name i found =
    rw (repositories, locks) (h name i (rw (← names) found))
TableEffect-IsLinked w w' (added key r repositories locks names) h name i found =
    linked_id w w' r i repositories locks (elim (Bool-cases (key == name)) [
      | inl hit ↦
          inl (ground (arith, get-put w.repo_names key name r.id, ap (λ d. get d name) names))
      | inr miss ↦ inr (
          h name i (ground (arith, get-put w.repo_names key name r.id, ap (λ d. get d name) names)))
    ])

abbrev Links : World → World × Reply → Type 0
Links w r = TableEffect w r.0

refused-Links : (w : World) → Refusals (Links w) w
refused-Links w status text h = kept refl refl refl

add_installation-TableEffect :
    (w : World) (input : InstallationInput) → TableEffect w (add_installation w input)
unfolding add_installation append_installation_event append_pending_app_event
add_installation-TableEffect w input =
    if_cases (λ x. TableEffect w (record x { mutations = increment x.mutations }))
      (input.owner == "") _ _ (λ _. kept refl refl refl) (λ _. kept refl refl refl)

create_installation-Links :
    (w : World) (body : Decoded InstallationInput) → Links w (create_installation w body)
create_installation-Links w body =
    create_installation_cases (Links w) w body (refused-Links w) λ input.
      register_installation_cases (Links w) w input (refused-Links w)
        λ _ _ _. add_installation-TableEffect w input

add_repository-TableEffect :
    (w : World) (i : Installation) (key : String) (r : Repository)
    → TableEffect w (add_repository w i key r)
unfolding add_repository append_installation_repositories_event append_pending_event
    append_pending_app_event
add_repository-TableEffect w i key r =
    if_cases (λ x. TableEffect w (record x { mutations = increment x.mutations })) (i.owner == "") _
      _ (λ _. added key r refl refl refl) (λ _. added key r refl refl refl)

create_repository-Links :
    (p : Platform) (m : Machine) (w : World) (body : Decoded RepositoryInput)
    → Links w (create_repository p m w body)
create_repository-Links p m w body =
    create_repository_cases (Links w) p m w body (refused-Links w)
      λ input i new same. add_repository-TableEffect w i _ _

commit_run-TableEffect :
    (w : World) (i : ℕ) (r : Repository) (new : WorkflowRun) (action : String)
    → TableEffect w (commit_run w i r new action)
unfolding commit_run append_workflow_event append_pending_event append_pending_app_event
commit_run-TableEffect w i r new action = kept refl refl refl

transition-Links :
    (w : World) (body : Decoded WorkflowTransitionInput) → Links w (transition_workflow_run w body)
transition-Links w body =
    transition_cases (Links w) w body (refused-Links w)
      λ input i old action _ _ _. commit_run-TableEffect w i _ _ action

request_cancellation-TableEffect :
    (signal : ℕ → Bool) (w : World) (i : ℕ) (r : WorkflowRun)
    → TableEffect w (request_cancellation signal w i r)
unfolding request_cancellation interrupt_run
request_cancellation-TableEffect signal w i r = kept (ground arith) (ground arith) (ground arith)

cancel-TableEffect :
    (u : Unicode) (signal : ℕ → Bool) (w : World) (bearer : Option InstallationToken)
    (owner name : String) (run_id : ℕ)
    → TableEffect w (cancel_workflow_run u signal w bearer owner name run_id).0
cancel-TableEffect u signal w bearer owner name run_id =
    cancel_cases (λ r. TableEffect w r.0) u signal w bearer owner name run_id
      (λ _ _ _. kept refl refl refl)
      (λ token i r _ _. request_cancellation-TableEffect signal w i r)

issue_for_app-TableEffect :
    (u : Unicode) (w : World) (app_id installation_id : ℕ) (options : TokenOptions)
    (random : Option String)
    → TableEffect w (issue_for_app u w app_id installation_id options random).0
unfolding issue_token
issue_for_app-TableEffect u w app_id installation_id options random =
    issue_for_app_cases (λ r. TableEffect w r.0) u w app_id installation_id options random
      (λ _ _ _. kept refl refl refl) (λ _ _ _ _ _ _ _ _ _ _. kept refl refl refl)

finish_delivery-Links : (w : World) (d : Delivery) → Links w (finish_delivery w d)
unfolding finish_delivery record_attempt
finish_delivery-Links w (ended r) = kept refl refl refl
finish_delivery-Links w (sent request a result) = kept refl refl refl

refresh_pull-TableEffect :
    (m : Machine) (w : World) (r : Repository) (snapshot : RefSnapshot)
    → TableEffect w (refresh_pull m w r snapshot)
unfolding refresh_pull
refresh_pull-TableEffect m w r snapshot = kept (ground arith) (ground arith) (ground arith)

-- The world that the second critical section leaves.
abbrev world_of : Started → World
world_of (stopped w reply) = w
world_of (under_way w) = w

start_run-TableEffect :
    (w : World) (c : Claim) (process : Option ℕ) (o : Started)
    → start_run w c process ≡ some o
    → TableEffect w (world_of o)
unfolding start_run commit_run append_workflow_event append_pending_event append_pending_app_event
start_run-TableEffect w c process o result =
    let P : Started → Type 0 = λ x. TableEffect w (world_of x) in
    let Q : Option Started → Type 0 = λ x. x ≡ some o → P o in
    option_cases Q (get_elem? w.workflow_runs c.index) _ _ (λ _ e. absurd (ground arith))
      (λ r _.
        if_cases Q (not (r.status == "queued")) _ _
          (λ _ e. subst P (some-injective _ _ e) (kept refl refl refl))
          λ _.
            if_cases Q r.cancellation_requested _ _
              (λ _ e. subst P (some-injective _ _ e) (kept refl refl refl))
              λ _.
                option_cases Q process _ _
                  (λ _ e. subst P (some-injective _ _ e) (kept refl refl refl))
                  (λ _ _ e. subst P (some-injective _ _ e) (kept refl refl refl)))
      result

finish_run-TableEffect :
    (w w' : World) (c : Claim) (waited : Bool) (logs : String) (reply : Reply)
    → finish_run w c waited logs ≡ some (w', reply)
    → TableEffect w w'
unfolding finish_run commit_run append_workflow_event append_pending_event append_pending_app_event
finish_run-TableEffect w w' c waited logs reply =
    option_cases (λ o. o ≡ some (w', reply) → TableEffect w w') (get_elem? w.workflow_runs c.index)
      _ _ (λ _ e. absurd (ground arith))
      λ r _ e.
        subst (λ (x : World × Reply). TableEffect w x.0) (some-injective _ _ e)
          (kept refl refl refl)

-- What each effect on the tables keeps is kept by each handler and each step.
module _ {ℓ} (Q : World → Type ℓ) (closed : (a b : World) → TableEffect a b → Q a → Q b) where
  record_ref-table_closed :
      (w : World) (r : Repository) (token : InstallationToken) (ref before_sha after_sha : String)
      (forced : Bool)
      → Q w
      → Q (record_ref w r token ref before_sha after_sha forced)
  unfolding record_ref append_push_event append_queued_workflow append_workflow_event
      append_pending_event append_pending_app_event
  record_ref-table_closed w r token ref before_sha after_sha forced q =
      let pushed = closed w _ (kept refl refl refl) q in
      option_cases Q (get w.workflows r.id) _ _ (λ _. pushed)
        λ workflow _.
          if_cases Q (workflow.release_ref == ref && not (after_sha == "")) _ _
            (λ _. closed _ _ (kept refl refl refl) pushed) (λ _. pushed)

  record_refs-table_closed :
      (w : World) (r : Repository) (token : InstallationToken) (before after : Refs)
      (forced : String → Bool) (refs : List String)
      → Q w
      → Q (record_refs w r token before after forced refs).0
  unfolding record_refs
  record_refs-table_closed w r token before after forced [] q = q
  record_refs-table_closed w r token before after forced (ref ∷ rest) q =
      record_refs-table_closed
        (if not (sha_of before ref == sha_of after ref)
          then record_ref w r token ref (sha_of before ref) (sha_of after ref) (forced ref)
          else w)
        r token before after forced rest
        (if_cases Q (not (sha_of before ref == sha_of after ref)) _ _
          (λ _.
            record_ref-table_closed w r token ref (sha_of before ref) (sha_of after ref)
              (forced ref) q)
          (λ _. q))

  record_ref_changes-table_closed :
      (m : Machine) (w : World) (r : Repository) (token : InstallationToken) (before after : Refs)
      → Q w
      → Q (record_ref_changes m w r token before after)
  unfolding record_ref_changes
  record_ref_changes-table_closed m w r token before after q =
      let forced : String → Bool =
        λ ref. forced_update m r.git_dir (sha_of before ref) (sha_of after ref) in
      let recorded =
        record_refs-table_closed w r token before after forced (touched_refs before after) q in
      if_cases Q (record_refs w r token before after forced (touched_refs before after)).1 _ _
        (λ _. closed _ _ (kept refl refl refl) recorded) (λ _. recorded)

  Handled-table_closed : (w w' : World) → Handled w w' → Q w → Q w'
  unfolding record_unsupported record_observation_error
  Handled-table_closed w w' (creates_app p body e) q = rw e (
      closed w _
        (create_app_cases (Links w) p w body (refused-Links w) (λ _ _ _. kept refl refl refl)) q)
  Handled-table_closed w w' (creates_installation body e) q =
      rw e (closed w _ (create_installation-Links w body) q)
  Handled-table_closed w w' (creates_repository p m body e) q =
      rw e (closed w _ (create_repository-Links p m w body) q)
  Handled-table_closed w w' (creates_pull_request m body e) q = rw e (
      closed w _
        (create_pull_request_cases (Links w) m w body (refused-Links w)
          (λ _ _ _ _ _ _ _. kept refl refl refl))
        q)
  Handled-table_closed w w' (changes_pull_request_state body e) q = rw e (
      closed w _
        (change_pull_request_state_cases (Links w) w body (refused-Links w)
          (λ _ _ _ _. kept refl refl refl))
        q)
  Handled-table_closed w w' (advances_time p body e) q = rw e (
      closed w _
        (advance_time_cases (Links w) p w body (refused-Links w) (λ _ _. kept refl refl refl)) q)
  Handled-table_closed w w' (configures_workflow m body e) q = rw e (
      closed w _
        (configure_workflow_cases (Links w) m w body (refused-Links w) (λ _ _. kept refl refl refl))
        q)
  Handled-table_closed w w' (finishes_delivery d e) q =
      rw e (closed w _ (finish_delivery-Links w d) q)
  Handled-table_closed w w' (duplicates_event body e) q = rw e (
      closed w _
        (duplicate_event_cases (Links w) w body (refused-Links w) (λ _ _ _. kept refl refl refl)) q)
  Handled-table_closed w w' (transitions_run body e) q =
      rw e (closed w _ (transition-Links w body) q)
  Handled-table_closed w w' (cancels_run u signal bearer owner name run_id e) q =
      rw e (closed w _ (cancel-TableEffect u signal w bearer owner name run_id) q)
  Handled-table_closed w w' (creates_token u app_id installation_id options random e) q =
      rw e (closed w _ (issue_for_app-TableEffect u w app_id installation_id options random) q)
  Handled-table_closed w w' (records_unsupported method path e) q =
      rw e (closed w _ (kept refl refl refl) q)
  Handled-table_closed w w' (records_observation_error i operation text e) q =
      rw e (closed w _ (kept refl refl refl) q)
  Handled-table_closed w w' (records_ref_changes m r token before after e) q =
      rw e (record_ref_changes-table_closed m w r token before after q)
  Handled-table_closed w w' (refreshes_pull m r snapshot e) q =
      rw e (closed w _ (refresh_pull-TableEffect m w r snapshot) q)

  Step-table_closed : (s s' : System) → Step s s' → Q s.world → Q s'.world
  unfolding release_claim
  Step-table_closed s s' (handles step same) q = Handled-table_closed s.world s'.world step q
  Step-table_closed s s' (claims t body c idle result pool) q =
      let is = claim_run-IsClaim s.world s'.world body c result in
      closed s.world s'.world
        (kept (ap (λ (x : World). x.repositories) is.world)
          (ap (λ (x : World). x.receive_locks) is.world)
          (ap (λ (x : World). x.repo_names) is.world))
        q
  Step-table_closed s s' (abandons t c entry world pool) q =
      rw world (closed s.world _ (kept refl refl refl) q)
  Step-table_closed s s' (stops t c process reply entry result pool) q =
      closed s.world s'.world
        (start_run-TableEffect s.world c process (stopped s'.world reply) result) q
  Step-table_closed s s' (starts_runner t c process entry result pool) q =
      closed s.world s'.world (start_run-TableEffect s.world c process (under_way s'.world) result)
        q
  Step-table_closed s s' (finishes t c waited logs reply entry result pool) q =
      closed s.world s'.world (finish_run-TableEffect s.world s'.world c waited logs reply result) q

  pub Reach-table_closed : (s s' : System) → Reach s s' → Q s.world → Q s'.world
  Reach-table_closed s s' here q = q
  Reach-table_closed s s' (next {t} r step) q =
      Step-table_closed t s' step (Reach-table_closed s t r q)

-- No handler of a request, and no step of an execution, breaks the links between the three tables:
-- wherever the requests lead from a state in which each name leads to a repository with its id and
-- to its lock, each name still does.
pub Reach-IsLinked : (s s' : System) → Reach s s' → IsLinked s.world → IsLinked s'.world
Reach-IsLinked s s' reached h = Reach-table_closed IsLinked TableEffect-IsLinked s s' reached h
