-- ===== src/History/Setup.antt =====
-- The handlers that do not touch the runs.
use merger_herder_validation.Prelude.{arith, refl}
use merger_herder_validation.Control.Cases.{
  create_app_cases, create_repository_cases, create_installation_cases, register_installation_cases,
}
use merger_herder_validation.Runs.Cases.{duplicate_event_cases}
use merger_herder_validation.Control.PullCases.{
  configure_workflow_cases, change_pull_request_state_cases, create_pull_request_cases,
  advance_time_cases,
}
use merger_herder_validation.Control.Pulls.{
  change_pull_request_state, create_pull_request, configure_workflow, advance_time,
}
use merger_herder_validation.History.Effect.{Does, untouched, refused-Does}
use merger_herder_validation.World.Inputs.{
  PullRequestStateInput, PullRequestInput, AdvanceTimeInput, DuplicateEventInput, WorkflowInput,
  AppInput, RepositoryInput, InstallationInput,
}
use merger_herder_validation.Events.{
  append_installation_event, append_installation_repositories_event, append_pending_event,
  append_pending_app_event,
}
use merger_herder_validation.Reply.{Decoded}
use merger_herder_validation.Delivery.{finish_delivery, Delivery, duplicate_event, ended, sent}
use merger_herder_validation.Machine.{Machine, Platform}
use merger_herder_validation.World.{World}
use merger_herder_validation.Control.Setup.{
  add_repository, add_installation, create_app, create_installation, create_repository,
}

pub create_app-Does :
    (p : Platform) (w : World) (body : Decoded AppInput) → Does w (create_app p w body)
create_app-Does p w body =
    create_app_cases (Does w) p w body (refused-Does w) λ _ _ _. untouched refl refl refl

pub create_installation-Does :
    (w : World) (body : Decoded InstallationInput) → Does w (create_installation w body)
unfolding add_installation append_installation_event append_pending_app_event
create_installation-Does w body =
    create_installation_cases (Does w) w body (refused-Does w) λ input.
      register_installation_cases (Does w) w input (refused-Does w)
        λ _ _ _. untouched (ground arith) (ground arith) (ground arith)

pub create_repository-Does :
    (p : Platform) (m : Machine) (w : World) (body : Decoded RepositoryInput)
    → Does w (create_repository p m w body)
unfolding add_repository append_installation_repositories_event append_pending_event
    append_pending_app_event
create_repository-Does p m w body =
    create_repository_cases (Does w) p m w body (refused-Does w)
      λ input i new same. untouched (ground arith) (ground arith) (ground arith)

pub create_pull_request-Does :
    (m : Machine) (w : World) (body : Decoded PullRequestInput)
    → Does w (create_pull_request m w body)
create_pull_request-Does m w body =
    create_pull_request_cases (Does w) m w body (refused-Does w)
      λ _ _ _ _ _ _ _. untouched refl refl refl

pub change_pull_request_state-Does :
    (w : World) (body : Decoded PullRequestStateInput) → Does w (change_pull_request_state w body)
change_pull_request_state-Does w body =
    change_pull_request_state_cases (Does w) w body (refused-Does w)
      λ _ _ _ _. untouched refl refl refl

pub advance_time-Does :
    (p : Platform) (w : World) (body : Decoded AdvanceTimeInput) → Does w (advance_time p w body)
advance_time-Does p w body =
    advance_time_cases (Does w) p w body (refused-Does w) λ _ _. untouched refl refl refl

pub configure_workflow-Does :
    (m : Machine) (w : World) (body : Decoded WorkflowInput) → Does w (configure_workflow m w body)
configure_workflow-Does m w body =
    configure_workflow_cases (Does w) m w body (refused-Does w) λ _ _. untouched refl refl refl

pub duplicate_event-Does :
    (w : World) (body : Decoded DuplicateEventInput) → Does w (duplicate_event w body)
duplicate_event-Does w body =
    duplicate_event_cases (Does w) w body (refused-Does w) λ _ _ _. untouched refl refl refl

pub finish_delivery-Does : (w : World) (d : Delivery) → Does w (finish_delivery w d)
unfolding finish_delivery
finish_delivery-Does w (ended r) = untouched refl refl refl
finish_delivery-Does w (sent request a result) = untouched refl refl refl
