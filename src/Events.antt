-- ===== src/Events.antt =====
-- The event log: appendPendingEvent and what builds its payloads, in dtu/git.go and
-- dtu/installation_events.go.
pub mod Numbering
pub mod Effect
use merger_herder_validation.Prelude.{
  ℕ, ◌+◌, ◌%◌, Bool, true, false, Option, none, some, List, [], ◌∷◌, ◌++◌, String, ◌==◌, string_key,
  nat_key, if◌then◌else◌, word64, get_or,
}
use merger_herder_validation.Text.{◌+++◌, decimal, decimal_12}
use merger_herder_validation.Dict.{Dict, empty, get}
use merger_herder_validation.World.Payloads.{
  Payload, push, workflow_run, installation, installation_repositories, EventRepository,
  EventInstallation, EventSender, InstallationEventAccount, InstallationEventInstallation,
  InstallationEventRepository, WorkflowRunEvent,
}
use merger_herder_validation.World.{
  World, Installation, Repository, PendingEvent, WorkflowRun, zero_repository, zero_installation,
}

-- x++ on a 64-bit counter
abbrev pub increment : ℕ → ℕ
increment n = (n + 1) % word64

-- fmt.Sprintf("dtu-%012d", id)
unfoldable pub event_guid : ℕ → String
unfolding decimal_12
event_guid n = "dtu-" +++ decimal_12 n

-- fmt.Sprintf("dtu-app-%d[bot]", id); App IDs are positive
unfoldable pub bot_login : ℕ → String
unfolding decimal
bot_login n = "dtu-app-" +++ (decimal n +++ "[bot]")

module _ (w : World) (event action : String) where
  unfoldable pub append_pending_app_event : ℕ → ℕ → Payload → World
  append_pending_app_event app_id repository_id payload =
      let n = increment w.next_event_id in
      record w {
        next_event_id = n;
        pending_events =
            w.pending_events
            ++ record {
              guid = event_guid n;
              event = event;
              action = action;
              app_id = app_id;
              repository_id = repository_id;
              created_at = w.now;
              body = payload;
            }
              ∷ [];
      }

  unfoldable pub append_pending_event : ℕ → Payload → World
  append_pending_event repository_id payload =
      let repository = get_or (get w.repositories repository_id) zero_repository in
      let installation = get_or (get w.installs repository.installation_id) zero_installation in
      append_pending_app_event installation.app_id repository_id payload

abbrev pub full_name : Repository → String
full_name r = r.owner +++ ("/" +++ r.name)

abbrev pub event_repository : Repository → EventRepository
event_repository r = record { id = r.id; full_name = full_name r }

abbrev pub event_sender : ℕ → EventSender
event_sender app_id = record { id = app_id; login = bot_login app_id; type = "Bot" }

-- zeroObjectID
abbrev pub zero_object_id : String
zero_object_id = "0000000000000000000000000000000000000000"

-- if sha == "" { sha = zeroObjectID }
abbrev or_zero_object : String → String
or_zero_object sha = if sha == "" then zero_object_id else sha

unfoldable pub push_payload : Repository → ℕ → String → String → String → Bool → Payload
push_payload r app_id ref before_sha after_sha forced =
    let before = or_zero_object before_sha in
    let after = or_zero_object after_sha in
    push (record {
      ref = "refs/heads/" +++ ref;
      before = before;
      after = after;
      created = before == zero_object_id;
      deleted = after == zero_object_id;
      forced = forced;
      repository = event_repository r;
      installation = record { id = r.installation_id };
      sender = event_sender app_id;
    })

unfoldable pub append_push_event : World → Repository → ℕ → String → String → String → Bool → World
append_push_event w r app_id ref before_sha after_sha forced =
    append_pending_event w "push" "" r.id (push_payload r app_id ref before_sha after_sha forced)

unfoldable pub workflow_payload : Repository → WorkflowRun → String → Payload
workflow_payload r run action = workflow_run (record {
  action = action;
  workflow_run = record {
    id = run.id;
    run_attempt = run.attempt;
    workflow_id = run.workflow_id;
    name = run.workflow_name;
    path = run.workflow_path;
    event = run.event;
    head_branch = run.head_branch;
    head_sha = run.head_sha;
    status = run.status;
    conclusion = if run.conclusion == "" then none else some run.conclusion;
  };
  repository = event_repository r;
  installation = record { id = r.installation_id };
})

unfoldable pub append_workflow_event : World → Repository → WorkflowRun → String → World
append_workflow_event w r run action =
    append_pending_event w "workflow_run" action r.id (workflow_payload r run action)

abbrev installation_account : Installation → InstallationEventAccount
installation_account i = record { login = i.owner; type = i.owner_type }

unfoldable pub installation_event_value : Installation → InstallationEventInstallation
installation_event_value i = record {
  id = i.id;
  account = installation_account i;
  target_type = i.owner_type;
  repository_selection = "selected";
  permissions = i.permissions;
  suspended_at = none;
}

unfoldable pub installation_repository_value :
    Installation → Repository → InstallationEventRepository
installation_repository_value i r = record {
  id = r.id;
  name = r.name;
  full_name = full_name r;
  private = false;
  default_branch = "main";
  html_url = "https://github.test/" +++ full_name r;
  owner = installation_account i;
}

unfoldable pub append_installation_event : World → Installation → String → World
append_installation_event w i action = append_pending_app_event w "installation" action i.app_id 0 (
    installation (record {
      action = action;
      installation = installation_event_value i;
      sender = event_sender i.app_id;
    }))

unfoldable pub append_installation_repositories_event :
    World → Installation → Repository → String → World
append_installation_repositories_event w i r action =
    append_pending_event w "installation_repositories" action r.id (
      installation_repositories (record {
        action = action;
        installation = installation_event_value i;
        repositories_added = installation_repository_value i r ∷ [];
        repositories_removed = [];
        sender = event_sender i.app_id;
      }))
