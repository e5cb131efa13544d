-- ===== src/Public/Outcomes.antt =====
-- The outcomes of a cancellation and of a pull request's lookup.
use merger_herder_validation.History.Runs.{has-request_cancellation}
use merger_herder_validation.Control.Pulls.{key_of}
use merger_herder_validation.Control.Setup.{repo_name}
use merger_herder_validation.Machine.{Machine, resolve_ref}
use merger_herder_validation.Public.Pulls.{get_pull, current_sha, pull_info, PullInfo}
use merger_herder_validation.Permission.{can_read_pulls, permission_rank, granted_rank}
use merger_herder_validation.Public.ActionCases.{MayCancel, cancel_cases}
use merger_herder_validation.Public.Api.{ApiResult, api_error, api_response}
use merger_herder_validation.Dict.{get, get-put_self, has, Dict}
use merger_herder_validation.World.{
  World, WorkflowRun, ActiveRun, InstallationToken, zero_active_run, Repository, PullRequest,
  zero_repository, pull_key,
}
use merger_herder_validation.Text.{Unicode}
use merger_herder_validation.Prelude.{
  ℕ, Bool, Option, arith, get_elem?, ◌≡◌, some, String, true, ◌≢◌, nat_key, get_elem?-set_self,
  get_or, ◌≤◌, get_elem?-set_ne, false, option_cases, if_cases, refl, not, eq_iff, ◌⊎◌, ◌||◌,
  Bool-cases, leb, string_key, inl, inr, none,
}
use merger_herder_validation.Public.Actions.{
  request_cancellation, interrupt_run, process_of, cancel_workflow_run,
}

-- The run is asked to stop: it keeps all but the mark, the other runs keep everything, no claim comes
-- or goes, and no event is logged.
pub record IsAsked (w w' : World) (index : ℕ) (r : WorkflowRun) : Type 0 where
  pub marked : get_elem? w'.workflow_runs index ≡ some (record r { cancellation_requested = true })
  pub others : (k : ℕ) → index ≢ k → get_elem? w'.workflow_runs k ≡ get_elem? w.workflow_runs k
  pub claims : (k : ℕ) → has w'.active_runs k ≡ has w.active_runs k
  pub events : w'.pending_events ≡ w.pending_events

-- A process counts as signalled only where the run has one and the signal was sent.
pub record IsSignalled (signal : ℕ → Bool) (w w' : World) (run_id : ℕ) : Type 0 where
  pub sent :
      (a : ActiveRun) (p : ℕ)
      → get w.active_runs run_id ≡ some a
      → process_of a ≡ some p
      → signal p ≡ true
      → get w'.active_runs run_id ≡ some (record a { cancellation_signalled = true })
  pub unsent :
      ((p : ℕ)
        → process_of (get_or (get w.active_runs run_id) zero_active_run) ≡ some p
        → signal p ≡ false)
      → w'.active_runs ≡ w.active_runs

abbrev pub CancelOutcome :
    Unicode
    → (ℕ → Bool)
    → World
    → Option InstallationToken
    → String
    → String
    → ℕ
    → World × ApiResult (Unit {0})
    → Type 0
CancelOutcome u signal w bearer owner name run_id (w', api_error status text) =
    (w' ≡ w) × (400 ≤ status)
CancelOutcome u signal w bearer owner name run_id (w', api_response status done) =
    (token : InstallationToken) × (index : ℕ) × (r : WorkflowRun) × (status ≡ 202)
    × (bearer ≡ some token)
    × MayCancel u w token owner name run_id index r
    × IsAsked w w' index r
    × IsSignalled signal w w' r.id

request_cancellation-IsAsked :
    (signal : ℕ → Bool) (w : World) (index : ℕ) (r : WorkflowRun)
    → get_elem? w.workflow_runs index ≡ some r
    → ((k : ℕ) → has (request_cancellation signal w index r).active_runs k ≡ has w.active_runs k)
    → IsAsked w (request_cancellation signal w index r) index r
unfolding request_cancellation interrupt_run
request_cancellation-IsAsked signal w index r found claims =
    let asked = record r { cancellation_requested = true } in
    record {
      marked = ground (arith, get_elem?-set_self w.workflow_runs index asked r found);
      others = λ k other. ground (arith, get_elem?-set_ne w.workflow_runs index k asked other);
      claims = claims;
      events = ground arith;
    }

request_cancellation-IsSignalled :
    (signal : ℕ → Bool) (w : World) (index : ℕ) (r : WorkflowRun)
    → IsSignalled signal w (request_cancellation signal w index r) r.id
unfolding request_cancellation interrupt_run
request_cancellation-IsSignalled signal w index r = record {
  sent = λ a p found process yes_sent.
      ground (arith, get-put_self w.active_runs r.id (record a { cancellation_signalled = true }));
  unsent = λ never.
      option_cases (λ (x : World). x.active_runs ≡ w.active_runs)
        (process_of (get_or (get w.active_runs r.id) zero_active_run)) _ _ (λ _. refl)
        λ p given.
          if_cases (λ (x : World). x.active_runs ≡ w.active_runs) (signal p) _ _
            (λ went. absurd (ground (arith, never p given))) (λ _. refl);
}

-- CancelWorkflowRunByID, on every branch. It answers with an error of at least 400 and leaves the
-- world as it is. Or it answers 202 to a token that has the named repository and write access to
-- actions, for a run of that repository that is not completed; then this run is marked and the other
-- runs are as they were, no claim comes or goes, no event is logged, and the claim is marked as
-- signalled where the run has a process and the signal was sent, and is unchanged where it was not.
pub cancel_workflow_run-CancelOutcome :
    (u : Unicode) (signal : ℕ → Bool) (w : World) (bearer : Option InstallationToken)
    (owner name : String) (run_id : ℕ)
    → CancelOutcome u signal w bearer owner name run_id
        (cancel_workflow_run u signal w bearer owner name run_id)
cancel_workflow_run-CancelOutcome u signal w bearer owner name run_id =
    cancel_cases (CancelOutcome u signal w bearer owner name run_id) u signal w bearer owner name
      run_id (λ status text h. (refl, h))
      λ token index r given may. (
        token,
        index,
        r,
        refl,
        given,
        may,
        request_cancellation-IsAsked signal w index r may.at_index
            (has-request_cancellation signal w index r),
        request_cancellation-IsSignalled signal w index r,
      )

-- Where a pull request is told, and to whom.
pub record IsTold (u : Unicode) (m : Machine) (w : World) (bearer : Option InstallationToken)
    (owner name : String) (n : ℕ) (info : PullInfo) : Type 0 where
  pub token : InstallationToken
  pub repository_id : ℕ
  pub pull : PullRequest
  pub given : bearer ≡ some token
  pub named : get w.repo_names (repo_name u owner name) ≡ some repository_id
  pub in_token : has token.repository_ids repository_id ≡ true
  pub may_read :
      (1 ≤ granted_rank token.permissions "pull_requests")
      ⊎ (1 ≤ granted_rank token.permissions "contents")
  pub stored : get w.pulls (key_of repository_id n) ≡ some pull
  pub told : (info.number ≡ pull.number) × (info.state ≡ pull.state)
  pub head :
      (r : Repository)
      → get w.repositories repository_id ≡ some r
      → (resolve_ref m r.git_dir pull.head_ref ≡ "" → info.head.sha ≡ pull.head_sha)
        × (resolve_ref m r.git_dir pull.head_ref ≢ ""
            → info.head.sha ≡ resolve_ref m r.git_dir pull.head_ref)

abbrev pub PullOutcome :
    Unicode
    → Machine
    → World
    → Option InstallationToken
    → String
    → String
    → ℕ
    → ApiResult PullInfo
    → Type 0
PullOutcome u m w bearer owner name n (api_error status text) = 400 ≤ status
PullOutcome u m w bearer owner name n (api_response status info) =
    (status ≡ 200) × IsTold u m w bearer owner name n info

can_read_pulls_lem :
    (permissions : Dict String String)
    → can_read_pulls permissions ≡ true
    → (1 ≤ granted_rank permissions "pull_requests") ⊎ (1 ≤ granted_rank permissions "contents")
unfolding can_read_pulls permission_rank
can_read_pulls_lem permissions h =
    elim (Bool-cases (leb 1 (granted_rank permissions "pull_requests"))) [
      | inl pulls ↦ inl (ground arith)
      | inr other ↦ inr (ground arith)
    ]

current_sha_lem :
    (m : Machine) (r s : Repository) (ref known : String)
    → r ≡ s
    → (resolve_ref m s.git_dir ref ≡ "" → current_sha m r ref known ≡ known)
      × (resolve_ref m s.git_dir ref ≢ "" → current_sha m r ref known ≡ resolve_ref m s.git_dir ref)
unfolding current_sha
current_sha_lem m r s ref known same = rw same (
  λ gone. ground (arith, eq_iff (resolve_ref m s.git_dir ref) ""),
  λ there. ground (arith, eq_iff (resolve_ref m s.git_dir ref) ""),
)

-- pullRequestsService.Get, on every branch. It answers with an error of at least 400, or with 200 to
-- a token that has the named repository and may read pull requests or contents, for a pull request
-- that is stored; its number and state are told, and as the commit of its head the one that the
-- branch has now, or the last one known where the branch is gone.
pub get_pull-PullOutcome :
    (u : Unicode) (m : Machine) (w : World) (bearer : Option InstallationToken)
    (owner name : String) (n : ℕ)
    → PullOutcome u m w bearer owner name n (get_pull u m w bearer owner name n)
unfolding get_pull pull_info
get_pull-PullOutcome u m w none owner name n = omega arith
get_pull-PullOutcome u m w (some token) owner name n =
    let P = PullOutcome u m w (some token) owner name n in
    option_cases P (get w.repo_names (repo_name u owner name)) _ _ (λ _. omega arith)
      λ i named.
        if_cases P (not (has token.repository_ids i) || not (can_read_pulls token.permissions)) _ _
          (λ _. omega arith)
          λ allowed.
            option_cases P (get w.pulls (key_of i n)) _ _ (λ _. omega arith)
              λ pull stored. (
                refl,
                record {
                  token = token;
                  repository_id = i;
                  pull = pull;
                  given = refl;
                  named = named;
                  in_token = ground arith;
                  may_read = can_read_pulls_lem token.permissions (ground arith);
                  stored = stored;
                  told = (refl, refl);
                  head = λ r found.
                      current_sha_lem m (get_or (get w.repositories i) zero_repository) r
                        pull.head_ref pull.head_sha (ground arith);
                },
              )
