-- ===== src/World.antt =====
-- The in-memory world of dtu/types.go: the tables of the twin, the run list and the event log.
-- An int64 is its bit pattern; a time is a count of nanoseconds; a token, a SHA and a status are
-- texts, as in the source. The world's RWMutex is not a field: each critical section is one step.
pub mod Payloads
pub mod Inputs
use merger_herder_validation.Prelude.{
  ℕ, ◌*◌, ◌^◌, ◌≡◌, refl, Bool, true, false, ◌&&◌, ◌↔◌, Option, none, some, List, [], String, arith,
  Key, ◌==◌, nat_key, string_key,
}
use merger_herder_validation.Dict.{Dict, Keys, empty}
use Payloads.{Payload}

abbrev pub second : ℕ
second = 10 ^ 9

-- tokenLifetime
abbrev pub token_lifetime : ℕ
token_lifetime = 3600 * second

-- rsa.PublicKey
pub record RsaPublicKey : Type 0 where
  pub modulus : ℕ
  pub exponent : ℕ

pub record App : Type 0 where
  pub id : ℕ
  pub public_key : Option RsaPublicKey
  pub webhook_url : String
  pub webhook_secret : String

pub record Installation : Type 0 where
  pub id : ℕ
  pub app_id : ℕ
  pub active : Bool
  pub owner : String
  pub owner_type : String
  pub permissions : Dict String String
  pub repository_ids : Keys ℕ

pub record Repository : Type 0 where
  pub id : ℕ
  pub owner : String
  pub name : String
  pub installation_id : ℕ
  pub git_dir : String

pub record PullKey : Type 0 where
  pub repository_id : ℕ
  pub number : ℕ

pub record PullRequest : Type 0 where
  pub repository_id : ℕ
  pub number : ℕ
  pub base_ref : String
  pub head_ref : String
  pub base_sha : String
  pub head_sha : String
  pub state : String
  pub draft : Bool

pub record InstallationToken : Type 0 where
  pub value : String
  pub installation_id : ℕ
  pub repository_ids : Keys ℕ
  pub permissions : Dict String String
  pub expires_at : ℕ

pub record WorkflowConfig : Type 0 where
  pub repository_id : ℕ
  pub id : ℕ
  pub name : String
  pub path : String
  pub release_ref : String

-- exec.Cmd, as far as the program reads it: the process, once it is started, by its number.
pub record Command : Type 0 where
  pub process : Option ℕ

pub record ActiveRun : Type 0 where
  pub command : Option Command
  pub cancellation_signalled : Bool

pub record PendingEvent : Type 0 where
  pub guid : String
  pub event : String
  pub action : String
  pub app_id : ℕ
  pub repository_id : ℕ
  pub created_at : ℕ
  pub body : Payload

pub record ObservationError : Type 0 where
  pub repository_id : ℕ
  pub operation : String
  pub message : String
  pub time : ℕ

pub record DeliveryAttempt : Type 0 where
  pub guid : String
  pub destination : String
  pub status_code : ℕ
  pub invalid_signature : Bool
  pub attempted_at : ℕ
  pub error : String

pub record WorkflowRun : Type 0 where
  pub id : ℕ
  pub attempt : ℕ
  pub repository_id : ℕ
  pub workflow_id : ℕ
  pub workflow_name : String
  pub workflow_path : String
  pub event : String
  pub head_branch : String
  pub head_sha : String
  pub status : String
  pub conclusion : String
  pub cancellation_requested : Bool
  pub logs : String

pub record UnsupportedRequest : Type 0 where
  pub method : String
  pub path : String
  pub time : ℕ

pub record World : Type 0 where
  pub now : ℕ
  pub data_dir : String
  pub git_backend : String
  pub apps : Dict ℕ App
  pub installs : Dict ℕ Installation
  pub repositories : Dict ℕ Repository
  pub repo_names : Dict String ℕ
  pub pulls : Dict PullKey PullRequest
  pub tokens : Dict String InstallationToken
  pub workflows : Dict ℕ WorkflowConfig
  pub receive_locks : Keys ℕ
  pub workflow_runs : List WorkflowRun
  pub pending_events : List PendingEvent
  pub observation_errors : List ObservationError
  pub delivery_attempts : List DeliveryAttempt
  pub active_runs : Dict ℕ ActiveRun
  pub next_run_id : ℕ
  pub next_event_id : ℕ
  pub unsupported : List UnsupportedRequest
  pub mutations : ℕ

-- What `m[k]` gives for a missing key: the zero value.
abbrev pub zero_app : App
zero_app = record { id = 0; public_key = none; webhook_url = ""; webhook_secret = "" }

abbrev pub zero_active_run : ActiveRun
zero_active_run = record { command = none; cancellation_signalled = false }

abbrev pub zero_repository : Repository
zero_repository = record { id = 0; owner = ""; name = ""; installation_id = 0; git_dir = "" }

abbrev pub zero_installation : Installation
zero_installation = record {
  id = 0;
  app_id = 0;
  active = false;
  owner = "";
  owner_type = "";
  permissions = empty;
  repository_ids = empty;
}

abbrev pull_key_beq : PullKey → PullKey → Bool
pull_key_beq a b = a.repository_id == b.repository_id && a.number == b.number

pub pull_key_beq_iff : (a b : PullKey) → (pull_key_beq a b ≡ true) ↔ (a ≡ b)
pull_key_beq_iff a b = (λ h. ground arith, λ h. ground arith)

instance abbrev pub pull_key : Key PullKey
pull_key = record { beq = pull_key_beq; beq_iff = pull_key_beq_iff }
