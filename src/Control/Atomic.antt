-- ===== src/Control/Atomic.antt =====
-- The control handlers write all of a request or nothing.
use merger_herder_validation.Runs.Cases.{duplicate_event_cases, transition_cases}
use merger_herder_validation.Control.PullCases.{
  create_pull_request_cases, change_pull_request_state_cases, advance_time_cases,
  configure_workflow_cases,
}
use merger_herder_validation.Delivery.{duplicate_event}
use merger_herder_validation.Control.Pulls.{
  create_pull_request, change_pull_request_state, advance_time, configure_workflow,
}
use merger_herder_validation.World.Inputs.{
  AppInput, InstallationInput, RepositoryInput, PullRequestInput, PullRequestStateInput,
  AdvanceTimeInput, WorkflowInput, DuplicateEventInput, WorkflowTransitionInput,
}
use merger_herder_validation.Prelude.{◌≤◌, inl, ℕ, ◌≡◌, ◌⊎◌, String, ◌<◌, arith, refl, inr}
use merger_herder_validation.Reply.{Reply, Decoded}
use merger_herder_validation.Control.Cases.{
  Refusals, create_app_cases, create_installation_cases, register_installation_cases,
  create_repository_cases,
}
use merger_herder_validation.Events.{
  append_workflow_event, append_installation_repositories_event, append_installation_event,
  append_pending_event, append_pending_app_event, increment,
}
use merger_herder_validation.World.{World, Installation, Repository, WorkflowRun}
use merger_herder_validation.Runs.{commit_run, transition_workflow_run}
use merger_herder_validation.Machine.{Platform, Machine}
use merger_herder_validation.Control.Setup.{
  add_repository, add_installation, create_app, create_installation, create_repository,
}

-- An error and the world as it was, or a success that counts as one mutation.
abbrev pub IsAtomic : World → World × Reply → Type 0
IsAtomic w (w', reply) =
    ((400 ≤ reply.status) × (w' ≡ w))
    ⊎ ((reply.status < 300) × (w'.mutations ≡ increment w.mutations))

refused-IsAtomic : (w : World) → Refusals (IsAtomic w) w
refused-IsAtomic w status text h = inl (h, refl)

add_installation-mutations :
    (w : World) (input : InstallationInput)
    → (add_installation w input).mutations ≡ increment w.mutations
unfolding add_installation append_installation_event append_pending_app_event
add_installation-mutations w input = ground arith

add_repository-mutations :
    (w : World) (i : Installation) (key : String) (r : Repository)
    → (add_repository w i key r).mutations ≡ increment w.mutations
unfolding add_repository append_installation_repositories_event append_pending_event
    append_pending_app_event
add_repository-mutations w i key r = ground arith

commit_run-mutations :
    (w : World) (i : ℕ) (r : Repository) (new : WorkflowRun) (action : String)
    → (commit_run w i r new action).mutations ≡ increment w.mutations
unfolding commit_run append_workflow_event append_pending_event append_pending_app_event
commit_run-mutations w i r new action = refl

-- Each control request that changes the fixture, for whatever body, git and platform: either it is
-- refused with a status of at least 400 and the world is as it was, or it succeeds with a status
-- below 300 and counts as one mutation. These are the apps, installations, repositories, pull
-- requests and their states, the clock, workflows, duplicated events and transitions of runs.
pub control-IsAtomic :
    (p : Platform) (m : Machine) (w : World)
    → ((body : Decoded AppInput) → IsAtomic w (create_app p w body))
      × ((body : Decoded InstallationInput) → IsAtomic w (create_installation w body))
      × ((body : Decoded RepositoryInput) → IsAtomic w (create_repository p m w body))
      × ((body : Decoded PullRequestInput) → IsAtomic w (create_pull_request m w body))
      × ((body : Decoded PullRequestStateInput) → IsAtomic w (change_pull_request_state w body))
      × ((body : Decoded AdvanceTimeInput) → IsAtomic w (advance_time p w body))
      × ((body : Decoded WorkflowInput) → IsAtomic w (configure_workflow m w body))
      × ((body : Decoded DuplicateEventInput) → IsAtomic w (duplicate_event w body))
      × ((body : Decoded WorkflowTransitionInput) → IsAtomic w (transition_workflow_run w body))
control-IsAtomic p m w =
    let no_change = refused-IsAtomic w in
    (
      λ body. create_app_cases (IsAtomic w) p w body no_change (λ _ _ _. inr (omega arith, refl)),
      λ body. create_installation_cases (IsAtomic w) w body no_change λ input.
          register_installation_cases (IsAtomic w) w input no_change
            λ _ _ _. inr (omega arith, add_installation-mutations w input),
      λ body.
          create_repository_cases (IsAtomic w) p m w body no_change
            λ input i _ same. inr (omega arith, add_repository-mutations w i _ _),
      λ body.
          create_pull_request_cases (IsAtomic w) m w body no_change
            λ _ _ _ _ _ _ _. inr (omega arith, refl),
      λ body.
          change_pull_request_state_cases (IsAtomic w) w body no_change
            λ _ _ _ _. inr (omega arith, refl),
      λ body. advance_time_cases (IsAtomic w) p w body no_change λ _ _. inr (omega arith, refl),
      λ body.
          configure_workflow_cases (IsAtomic w) m w body no_change λ _ _. inr (omega arith, refl),
      λ body. duplicate_event_cases (IsAtomic w) w body no_change λ _ _ _. inr (omega arith, refl),
      λ body.
          transition_cases (IsAtomic w) w body no_change
            λ input i old action _ _ _. inr (omega arith, commit_run-mutations w i _ _ action),
    )
