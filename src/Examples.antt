-- ===== src/Examples.antt =====
-- A small fixture: one app, one installation, one repository with a release workflow, a queued run.
pub mod Requests
pub mod Executions
pub mod Outgoing
pub mod Served
pub mod Pushed
pub mod Runners
pub mod Instances
use merger_herder_validation.Events.{event_guid, workflow_payload}
use merger_herder_validation.Concurrency.System.{System}
use merger_herder_validation.Concurrency.Soundness.{IsSound}
use merger_herder_validation.Prelude.{
  String, Option, some, true, none, false, arith, ◌≡◌, if_some, nat_key, string_key, ◌∷◌, Bool, [],
  option_cases, subst, some-injective, refl,
}
use merger_herder_validation.Text.{Unicode}
use merger_herder_validation.Machine.{Platform, Machine, exited, rsa}
use merger_herder_validation.Dict.{Dict, put, get-empty, empty}
use merger_herder_validation.Public.Auth.{JwtParser, Jwt}
use merger_herder_validation.World.{
  World, Installation, InstallationToken, Repository, PendingEvent, WorkflowRun, RsaPublicKey,
  second, token_lifetime, ActiveRun, pull_key,
}

abbrev pub granted_permissions : Dict String String
granted_permissions =
    put (put (put empty "contents" "write") "actions" "write") "pull_requests" "read"

abbrev pub sample_key : RsaPublicKey
sample_key = record { modulus = 3233; exponent = 17 }

abbrev pub sample_repository : Repository
sample_repository = record {
  id = 700;
  owner = "acme";
  name = "tool";
  installation_id = 70;
  git_dir = "/srv/acme/tool.git";
}

abbrev pub sample_installation : Installation
sample_installation = record {
  id = 70;
  app_id = 7;
  active = true;
  owner = "acme";
  owner_type = "Organization";
  permissions = granted_permissions;
  repository_ids = put empty 700 tt;
}

abbrev pub sample_token : InstallationToken
sample_token = record {
  value = "t1";
  installation_id = 70;
  repository_ids = put empty 700 tt;
  permissions = granted_permissions;
  expires_at = token_lifetime;
}

abbrev pub sample_run : WorkflowRun
sample_run = record {
  id = 1001;
  attempt = 1;
  repository_id = 700;
  workflow_id = 9;
  workflow_name = "Release";
  workflow_path = ".github/workflows/release.yml";
  event = "push";
  head_branch = "release";
  head_sha = "abc";
  status = "queued";
  conclusion = "";
  cancellation_requested = false;
  logs = "";
}

abbrev pub sample_event : PendingEvent
sample_event = record {
  guid = event_guid 1;
  event = "workflow_run";
  action = "requested";
  app_id = 7;
  repository_id = 700;
  created_at = 0;
  body = workflow_payload sample_repository sample_run "requested";
}

abbrev pub sample_world : World
sample_world = record {
  now = 0;
  data_dir = "/srv";
  git_backend = "/usr/lib/git-core/git-http-backend";
  apps = put empty 7 (record {
    id = 7;
    public_key = some sample_key;
    webhook_url = "http://hook";
    webhook_secret = "s";
  });
  installs = put empty 70 sample_installation;
  repositories = put empty 700 sample_repository;
  repo_names = put empty "acme/tool" 700;
  pulls =
      put empty (record { repository_id = 700; number = 5 })
        (record {
          repository_id = 700;
          number = 5;
          base_ref = "main";
          head_ref = "release";
          base_sha = "aaa";
          head_sha = "abc";
          state = "open";
          draft = false;
        });
  tokens = put empty "t1" sample_token;
  workflows = put empty 700 (record {
    repository_id = 700;
    id = 9;
    name = "Release";
    path = ".github/workflows/release.yml";
    release_ref = "release";
  });
  receive_locks = put empty 700 tt;
  workflow_runs = sample_run ∷ [];
  pending_events = sample_event ∷ [];
  observation_errors = [];
  delivery_attempts = [];
  active_runs = empty;
  next_run_id = 1001;
  next_event_id = 1;
  unsupported = [];
  mutations = 0;
}

-- No branch is there, and git's other commands succeed.
abbrev pub sample_machine : Machine
sample_machine = record {
  run = λ dir arguments. exited "";
  look_path = λ name. none;
  remove_all = λ path. none;
  make_dir = λ path. none;
  write_file = λ path text. none;
}

abbrev pub sample_unicode : Unicode
sample_unicode = record { lower = λ c. c; fold = λ c. c }

abbrev pub sample_platform : Platform
sample_platform = record {
  unicode = sample_unicode;
  pem_decode = λ text. some text;
  parse_public_key = λ block. some (rsa sample_key);
  parse_duration = λ text. some second;
  parse_strings = λ text. none;
}

abbrev pub sample_jwt : Jwt
sample_jwt = record {
  algorithm = "RS256";
  issuer = "7";
  issued_at = some 0;
  expires_at = some second;
}

-- It reads one token, which each key verifies.
abbrev pub sample_parse : (Jwt → Option RsaPublicKey) → Option Jwt
sample_parse key_for = if_some (key_for sample_jwt) (none) (λ k. some sample_jwt)

pub sample_parse_sound :
    (raw : String) (key_for : Jwt → Option RsaPublicKey) (t : Jwt)
    → sample_parse key_for ≡ some t
    → (k : RsaPublicKey) × (key_for t ≡ some k) × (◌≡◌ {A = Bool} true true)
sample_parse_sound raw key_for t e =
    option_cases
      (λ o. o ≡ some t → (k : RsaPublicKey) × (key_for t ≡ some k) × (◌≡◌ {A = Bool} true true))
      (key_for sample_jwt) _ _ (λ _ gone. absurd (ground arith))
      (λ k found same. (k, subst (λ x. key_for x ≡ some k) (some-injective _ _ same) found, refl)) e

abbrev pub sample_parser : JwtParser
sample_parser = record {
  signed = λ raw key. true;
  parse_with_claims = λ raw key_for. sample_parse key_for;
  parse_sound = sample_parse_sound;
}

-- No execution is under way.
abbrev pub sample_system : System
sample_system = record { world = sample_world; pool = λ t. none }

pub sample_system-IsSound : IsSound sample_system
sample_system-IsSound = record {
  held = λ t e it. absurd (ground arith);
  distinct = λ t u d e it there same. absurd (ground arith);
  owned = λ k claimed. absurd (ground (arith, get-empty {V = ActiveRun} k));
}
