-- ===== src/Execution/Runner.antt =====
-- What a runner is started on.
use merger_herder_validation.Text.{trim_space, ◌+++◌, contains}
use merger_herder_validation.Execution.{Claim}
use merger_herder_validation.World.{World}
use merger_herder_validation.Prelude.{
  List, String, ◌≡◌, ℕ, true, get_elem?, some, ◌⊎◌, ◌∷◌, [], string_key,
}
use merger_herder_validation.Execution.Prepare.{
  inspect_image, Launch, resolve_checkout_head, checkout_dir, pinned_runner_digest,
  pinned_act_version, launch_of,
}
use merger_herder_validation.Machine.{Platform, Machine, exited}

-- The image that the machine has is the pinned one, for an architecture that is supported.
pub record IsPinned (p : Platform) (m : Machine) (architecture : String) : Type 0 where
  pub output : String
  pub digests : List String
  pub index : ℕ
  pub inspected : m.run "" (inspect_image "{{json .RepoDigests}}") ≡ exited output
  pub parsed : p.parse_strings (trim_space output) ≡ some digests
  pub pinned : get_elem? digests index ≡ some pinned_runner_digest
  pub supported : (architecture ≡ "amd64") ⊎ (architecture ≡ "arm64")

-- A command that is started: what it was prepared under.
pub record IsPrepared (p : Platform) (digest : String → String) (w : World) (m after : Machine)
    (c : Claim) (launch : Launch) : Type 0 where
  pub program : String
  pub architecture : String
  pub docker_config : String
  pub version : String
  pub act : m.look_path "act" ≡ some program
  pub act_version : m.run "" (program ∷ "--version" ∷ []) ≡ exited version
  pub version_pinned : contains version pinned_act_version ≡ true
  pub image : IsPinned p m architecture
  pub checked_out : resolve_checkout_head after (checkout_dir w c.run.id) ≡ c.run.head_sha
  pub isolated : docker_config ≡ w.data_dir +++ "/docker-config"
  pub launched : launch ≡ launch_of digest w c program architecture docker_config
