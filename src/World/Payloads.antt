-- ===== src/World/Payloads.antt =====
-- The webhook payloads that dtu/git.go and dtu/installation_events.go build. A payload stands for
-- its JSON text: json.Marshal is a parameter where the bytes are signed and sent.
use merger_herder_validation.Prelude.{ℕ, Bool, Option, List, String}
use merger_herder_validation.Dict.{Dict}

pub record EventRepository : Type 0 where
  pub id : ℕ
  pub full_name : String

pub record EventInstallation : Type 0 where
  pub id : ℕ

pub record EventSender : Type 0 where
  pub id : ℕ
  pub login : String
  pub type : String

pub record WorkflowRunEvent : Type 0 where
  pub id : ℕ
  pub run_attempt : ℕ
  pub workflow_id : ℕ
  pub name : String
  pub path : String
  pub event : String
  pub head_branch : String
  pub head_sha : String
  pub status : String
  pub conclusion : Option String

pub record InstallationEventAccount : Type 0 where
  pub login : String
  pub type : String

-- `suspended_at` is always null.
pub record InstallationEventInstallation : Type 0 where
  pub id : ℕ
  pub account : InstallationEventAccount
  pub target_type : String
  pub repository_selection : String
  pub permissions : Dict String String
  pub suspended_at : Option String

pub record InstallationEventRepository : Type 0 where
  pub id : ℕ
  pub name : String
  pub full_name : String
  pub private : Bool
  pub default_branch : String
  pub html_url : String
  pub owner : InstallationEventAccount

pub record PushPayload : Type 0 where
  pub ref : String
  pub before : String
  pub after : String
  pub created : Bool
  pub deleted : Bool
  pub forced : Bool
  pub repository : EventRepository
  pub installation : EventInstallation
  pub sender : EventSender

pub record WorkflowRunPayload : Type 0 where
  pub action : String
  pub workflow_run : WorkflowRunEvent
  pub repository : EventRepository
  pub installation : EventInstallation

pub record InstallationPayload : Type 0 where
  pub action : String
  pub installation : InstallationEventInstallation
  pub sender : EventSender

pub record InstallationRepositoriesPayload : Type 0 where
  pub action : String
  pub installation : InstallationEventInstallation
  pub repositories_added : List InstallationEventRepository
  pub repositories_removed : List InstallationEventRepository
  pub sender : EventSender

pub data Payload : Type 0 where
  push : PushPayload → Payload
  workflow_run : WorkflowRunPayload → Payload
  installation : InstallationPayload → Payload
  installation_repositories : InstallationRepositoriesPayload → Payload
