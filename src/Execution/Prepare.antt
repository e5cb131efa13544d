-- ===== src/Execution/Prepare.antt =====
-- The preparation of a runner in executeWorkflowRun of dtu/execution.go, with no lock held:
-- verifyRunnerImage, prepareDockerConfig, the checkout and the command; and cleanupRunContainers.
use merger_herder_validation.Execution.{Claim}
use merger_herder_validation.Prelude.{
  String, ℕ, List, ◌∷◌, if◌then◌else◌, Bool, false, ltb, Option, if_some, [], not, int64_sign, ◌==◌,
  true, word64, ◌&&◌, some, string_key, ◌-◌, none,
}
use merger_herder_validation.Reply.{Reply, write_json, message}
use merger_herder_validation.Text.{trim_space, contains, decimal, fields, ◌+++◌}
use merger_herder_validation.World.{World}
use merger_herder_validation.Machine.{run_git, Platform, CommandResult, Machine, failed, exited}

abbrev pub pinned_act_version : String
pinned_act_version = "0.2.89"

abbrev pub pinned_runner_image : String
pinned_runner_image = "catthehacker/ubuntu:act-22.04"

abbrev pub pinned_runner_digest : String
pinned_runner_digest =
    "catthehacker/ubuntu@sha256:93b433d1c736e9c4361edf3bd4ea47434fa6323c4e70fdf34f826280584bab2d"

-- A step that fails, with the text of its error.
pub data Attempt {ℓ} (A : Type ℓ) : Type ℓ where
  fails : String → Attempt A
  gives : A → Attempt A

-- if err != nil …; the result of an error, and the result of a value.
abbrev pub if_gives {ℓ κ} : {A : Type ℓ} {B : Type κ} → Attempt A → (String → B) → (A → B) → B
if_gives (fails error) f g = f error
if_gives (gives x) f g = g x

-- The loop over the digests.
unfoldable pub digest_matches : List String → Bool
digest_matches [] = false
digest_matches (digest ∷ rest) =
    if digest == pinned_runner_digest then true else digest_matches rest

abbrev pub inspect_image : String → List String
inspect_image format =
    "docker" ∷ "image" ∷ "inspect" ∷ pinned_runner_image ∷ "--format" ∷ format ∷ []

unfoldable pub check_architecture : CommandResult → Attempt String
unfolding trim_space
check_architecture (failed output error) = fails "inspect pinned runner image architecture"
check_architecture (exited output) =
    let architecture = trim_space output in
    if not (architecture == "amd64") && not (architecture == "arm64")
    then fails "runner image architecture is unsupported"
    else gives architecture

unfoldable pub check_digests : Platform → CommandResult → CommandResult → Attempt String
unfolding trim_space digest_matches check_architecture
check_digests p (failed output error) second = fails "pinned runner image is not installed"
check_digests p (exited output) second =
    if_some (p.parse_strings (trim_space output)) (fails "inspect pinned runner image digest")
      λ digests.
        if not (digest_matches digests)
        then fails "runner image does not match the pinned proof digest"
        else check_architecture second

-- verifyRunnerImage
unfoldable pub verify_runner_image : Platform → Machine → Attempt String
unfolding check_digests
verify_runner_image p m =
    check_digests p (m.run "" (inspect_image "{{json .RepoDigests}}"))
      (m.run "" (inspect_image "{{.Architecture}}"))

-- prepareDockerConfig
unfoldable pub prepare_docker_config : World → Machine → Attempt String
prepare_docker_config w m =
    let dir = w.data_dir +++ "/docker-config" in
    if_some (m.make_dir dir)
      (if_some (m.write_file (dir +++ "/config.json") "{}\n") (gives dir) (λ error. fails error))
      (λ error. fails error)

-- strconv.FormatInt in base 10
unfoldable pub format_int : ℕ → String
unfolding decimal
format_int n = if ltb n int64_sign then decimal n else "-" +++ decimal (word64 - n)

-- resolveCheckoutHEAD
unfoldable pub resolve_checkout_head : Machine → String → String
unfolding trim_space
resolve_checkout_head m dir = elim (m.run dir ("git" ∷ "rev-parse" ∷ "HEAD" ∷ [])) [
  | exited output ↦ trim_space output
  | failed output error ↦ ""
]

-- strings.Contains(version, pinnedActVersion), where the command does not fail
unfoldable pub act_version_matches : CommandResult → Bool
unfolding contains
act_version_matches (failed output error) = false
act_version_matches (exited version) = contains version pinned_act_version

-- The command of the runner, and what is put before its output.
pub record Launch : Type 0 where
  pub program : String
  pub arguments : List String
  pub dir : String
  pub docker_config : String
  pub log_header : String

-- filepath.Join(w.dataDir, "workflow-runs")
abbrev pub runs_dir : World → String
runs_dir w = w.data_dir +++ "/workflow-runs"

abbrev pub checkout_dir : World → ℕ → String
checkout_dir w run_id = runs_dir w +++ ("/" +++ format_int run_id)

-- The label that runnerInstanceLabel makes; `digest` is the hexadecimal form of the first eight bytes
-- of SHA-256.
abbrev pub runner_instance_label : (String → String) → World → String
runner_instance_label digest w = digest w.data_dir

unfoldable pub launch_of : (String → String) → World → Claim → String → String → String → Launch
unfolding format_int
launch_of digest w c act architecture docker_config = record {
  program = act;
  arguments =
      "push"
      ∷ "--workflows"
      ∷ c.workflow.path
      ∷ "--platform"
      ∷ ("ubuntu-latest=" +++ pinned_runner_image)
      ∷ "--pull=false"
      ∷ "--bind"
      ∷ "--container-options"
      ∷ ("--label=dtu.run_id="
          +++ (format_int c.run.id
              +++ (" --label=dtu.instance=" +++ runner_instance_label digest w)))
      ∷ "--container-architecture"
      ∷ ("linux/" +++ architecture)
      ∷ "--rm"
      ∷ [];
  dir = checkout_dir w c.run.id;
  docker_config = docker_config;
  log_header =
      "dtu: run_id="
      +++ (format_int c.run.id
          +++ (" head_sha="
              +++ (c.run.head_sha
                  +++ (" runner="
                      +++ (pinned_runner_image
                          +++ (" digest=" +++ (pinned_runner_digest +++ "\n")))))));
}

-- The checkout of the run's commit: none, or the message of the error. `m` answers up to the
-- checkout, and `after` once it is done.
unfoldable pub check_out : World → Machine → Machine → Claim → Option String
unfolding run_git resolve_checkout_head format_int
check_out w m after c =
    let dir = checkout_dir w c.run.id in
    if_some (m.remove_all dir)
      (if_some (m.make_dir (runs_dir w))
        (if_some (run_git m "" ("clone" ∷ "--no-checkout" ∷ c.repository.git_dir ∷ dir ∷ []))
          (if_some (run_git m dir ("checkout" ∷ "--detach" ∷ c.run.head_sha ∷ []))
            (if not (resolve_checkout_head after dir == c.run.head_sha)
              then some "workflow checkout SHA mismatch"
              else none)
            (λ error. some "checkout workflow SHA"))
          (λ error. some "clone workflow checkout"))
        (λ error. some "prepare workflow directory"))
      (λ error. some "prepare workflow checkout")

-- The preparation ends the request, or the command can be started.
pub data Prepared : Type 0 where
  unprepared : Reply → Prepared
  prepared : Launch → Prepared

abbrev unprepared_with : ℕ → String → Prepared
unprepared_with status text = unprepared (write_json status (message text))

unfoldable pub prepare_checkout :
    (String → String) → World → Machine → Machine → Claim → String → String → Prepared
unfolding prepare_docker_config check_out launch_of
prepare_checkout digest w m after c act architecture =
    if_gives (prepare_docker_config w m)
      (λ error. unprepared_with 500 "prepare isolated Docker configuration")
      (λ docker_config.
        if_some (check_out w m after c)
          (prepared (launch_of digest w c act architecture docker_config)) (unprepared_with 500))

unfoldable pub prepare : Platform → (String → String) → World → Machine → Machine → Claim → Prepared
unfolding act_version_matches verify_runner_image prepare_checkout
prepare p digest w m after c =
    if_some (m.look_path "act") (unprepared_with 503 "act is not installed") λ act.
      if not (act_version_matches (m.run "" (act ∷ "--version" ∷ [])))
      then unprepared_with 503 "act version does not match the pinned proof version"
      else if_gives (verify_runner_image p m) (unprepared_with 503)
          (λ architecture. prepare_checkout digest w m after c act architecture)

-- The commands of cleanupRunContainers after the one that lists the containers.
remove_containers : List String → List (List String)
remove_containers [] = []
remove_containers (container ∷ rest) =
    ("docker" ∷ "rm" ∷ "-f" ∷ container ∷ []) ∷ remove_containers rest

unfoldable pub cleanup_run_containers : (String → String) → World → Machine → ℕ → List (List String)
unfolding remove_containers fields format_int
cleanup_run_containers digest w m run_id =
    let list =
      "docker"
      ∷ "ps"
      ∷ "-aq"
      ∷ "--filter"
      ∷ ("label=dtu.instance=" +++ runner_instance_label digest w)
      ∷ "--filter"
      ∷ ("label=dtu.run_id=" +++ format_int run_id)
      ∷ [] in
    elim (m.run "" list) [
      | failed output error ↦ list ∷ []
      | exited output ↦ list ∷ remove_containers (fields output)
    ]
