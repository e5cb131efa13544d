-- ===== src/World/Inputs.antt =====
-- The inputs of the control API, as dtu/types.go declares them.
use merger_herder_validation.Prelude.{ℕ, Bool, String}
use merger_herder_validation.Dict.{Dict}

pub record AppInput : Type 0 where
  pub id : ℕ
  pub public_key_pem : String
  pub webhook_url : String
  pub webhook_secret : String

pub record InstallationInput : Type 0 where
  pub id : ℕ
  pub app_id : ℕ
  pub active : Bool
  pub owner : String
  pub owner_type : String
  pub permissions : Dict String String

pub record RepositoryInput : Type 0 where
  pub id : ℕ
  pub owner : String
  pub name : String
  pub installation_id : ℕ

pub record PullRequestInput : Type 0 where
  pub repository_id : ℕ
  pub number : ℕ
  pub base_ref : String
  pub head_ref : String
  pub state : String
  pub draft : Bool

pub record PullRequestStateInput : Type 0 where
  pub repository_id : ℕ
  pub number : ℕ
  pub state : String

pub record AdvanceTimeInput : Type 0 where
  pub duration : String

pub record WorkflowInput : Type 0 where
  pub repository_id : ℕ
  pub id : ℕ
  pub name : String
  pub path : String
  pub release_ref : String

pub record DeliveryInput : Type 0 where
  pub guid : String
  pub invalid_signature : Bool

pub record DuplicateEventInput : Type 0 where
  pub guid : String

pub record WorkflowTransitionInput : Type 0 where
  pub run_id : ℕ
  pub status : String
  pub conclusion : String

pub record ExecuteWorkflowInput : Type 0 where
  pub run_id : ℕ
