-- ===== src/Control/Pulls.antt =====
-- Pull requests, the clock, workflows and the snapshot: the other handlers of dtu/control.go.
use merger_herder_validation.Prelude.{
  ℕ, ◌+◌, not, ◌&&◌, ◌||◌, [], ◌∷◌, String, ◌==◌, string_key, nat_key, if◌then◌else◌, is_positive,
  leb, int64_sign, if_some, Bool,
}
use merger_herder_validation.Dict.{get, put, has, size}
use merger_herder_validation.World.{World, PullKey, PullRequest, pull_key, Repository}
use merger_herder_validation.World.Inputs.{
  PullRequestInput, PullRequestStateInput, AdvanceTimeInput, WorkflowInput,
}
use merger_herder_validation.Machine.{Machine, Platform, run_git, resolve_ref}
use merger_herder_validation.Reply.{
  Reply, id, number, state, now, snapshot, write_json, refuse, stay, Decoded, decode_control,
}
use merger_herder_validation.Events.{increment}

abbrev pub key_of : ℕ → ℕ → PullKey
key_of repository n = record { repository_id = repository; number = n }

-- w.pulls[key] = pullRequest{…}
abbrev pub pull_of : PullRequestInput → String → String → String → PullRequest
pull_of input s base_sha head_sha = record {
  repository_id = input.repository_id;
  number = input.number;
  base_ref = input.base_ref;
  head_ref = input.head_ref;
  base_sha = base_sha;
  head_sha = head_sha;
  state = s;
  draft = input.draft;
}

-- if input.State == "" { input.State = "open" }
abbrev pub default_state : String → String
default_state s = if s == "" then "open" else s

-- w.pulls[key] = pull; w.mutations++
abbrev pub with_pull : World → PullKey → PullRequest → World
with_pull w key pull = record w { pulls = put w.pulls key pull; mutations = increment w.mutations }

-- The critical section of createPullRequest, once the repository is found.
unfoldable pub store_pull : Machine → World → PullRequestInput → String → Repository → World × Reply
store_pull m w input s repository =
    let key = key_of input.repository_id input.number in
    let base_sha = resolve_ref m repository.git_dir input.base_ref in
    let head_sha = resolve_ref m repository.git_dir input.head_ref in
    if has w.pulls key
    then refuse w 409 "duplicate pull request"
    else if base_sha == "" || head_sha == ""
    then refuse w 400 "base and head refs must exist"
    else (with_pull w key (pull_of input s base_sha head_sha), write_json 201 (number input.number))

-- The guard on the input.
abbrev pub invalid_pull : PullRequestInput → String → Bool
invalid_pull input s =
    not (is_positive input.number)
    || input.base_ref == ""
    || input.head_ref == ""
    || (not (s == "open") && not (s == "closed"))

unfoldable pub create_pull_request : Machine → World → Decoded PullRequestInput → World × Reply
unfolding store_pull
create_pull_request m w body = decode_control (stay w) body λ input.
    if invalid_pull input (default_state input.state)
    then refuse w 400 "invalid pull request"
    else if_some (get w.repositories input.repository_id) (refuse w 400 "unknown repository")
        (store_pull m w input (default_state input.state))

unfoldable pub change_pull_request_state : World → Decoded PullRequestStateInput → World × Reply
change_pull_request_state w body = decode_control (stay w) body λ input.
    if not (input.state == "open") && not (input.state == "closed")
    then refuse w 400 "invalid pull request state"
    else if_some (get w.pulls (key_of input.repository_id input.number))
        (refuse w 404 "unknown pull request")
        λ pull. (
          with_pull w (key_of input.repository_id input.number)
              (record pull { state = input.state }),
          write_json 200 (state input.state),
        )

-- w.now = w.now.Add(duration); w.mutations++
abbrev pub with_time : World → ℕ → World
with_time w duration = record w { now = w.now + duration; mutations = increment w.mutations }

-- A duration is negative where its sign bit is set.
unfoldable pub advance_time : Platform → World → Decoded AdvanceTimeInput → World × Reply
advance_time p w body = decode_control (stay w) body λ input.
    if_some (p.parse_duration input.duration) (refuse w 400 "invalid duration") λ duration.
      if leb int64_sign duration
      then refuse w 400 "invalid duration"
      else (with_time w duration, write_json 200 (now (w.now + duration)))

-- w.workflows[input.RepositoryID] = workflowConfig{…}; w.mutations++
abbrev pub with_workflow : World → WorkflowInput → World
with_workflow w input = record w {
  workflows = put w.workflows input.repository_id (record {
    repository_id = input.repository_id;
    id = input.id;
    name = input.name;
    path = input.path;
    release_ref = input.release_ref;
  });
  mutations = increment w.mutations;
}

unfoldable pub configure_workflow : Machine → World → Decoded WorkflowInput → World × Reply
configure_workflow m w body = decode_control (stay w) body λ input.
    if not (is_positive input.id) || input.name == "" || input.path == "" || input.release_ref == ""
    then refuse w 400 "invalid workflow"
    else if_some (run_git m "" ("check-ref-format" ∷ "--branch" ∷ input.release_ref ∷ []))
        (if not (has w.repositories input.repository_id)
          then refuse w 400 "unknown repository"
          else (with_workflow w input, write_json 201 (id input.id)))
        (λ error. refuse w 400 "invalid release ref")

unfoldable pub get_state : World → World × Reply
unfolding size
get_state w = (
  w,
  write_json 200 (
      snapshot (record {
        now = w.now;
        apps = size w.apps;
        installations = size w.installs;
        repositories = size w.repositories;
        pull_requests = size w.pulls;
        tokens = size w.tokens;
        mutations = w.mutations;
        unsupported_requests = w.unsupported;
        pending_events = w.pending_events;
        workflow_runs = w.workflow_runs;
        observation_errors = w.observation_errors;
        delivery_attempts = w.delivery_attempts;
      })),
)
