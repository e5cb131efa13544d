-- ===== src/Public/Pulls.antt =====
-- pullRequestsService.Get.
use merger_herder_validation.Prelude.{
  ℕ, Bool, not, ◌||◌, Option, none, some, String, ◌==◌, nat_key, string_key, if◌then◌else◌, get_or,
  if_some,
}
use merger_herder_validation.Text.{Unicode}
use merger_herder_validation.Dict.{get, has}
use merger_herder_validation.Permission.{can_read_pulls}
use merger_herder_validation.World.{
  World, Repository, PullRequest, InstallationToken, zero_repository, pull_key,
}
use merger_herder_validation.Control.Setup.{repo_name}
use merger_herder_validation.Control.Pulls.{key_of}
use merger_herder_validation.Machine.{Machine, resolve_ref}
use merger_herder_validation.Public.Api.{ApiResult, api_error, api_response}
use merger_herder_validation.Public.Tokens.{RepositoryInfo, repository_info}

-- github.PullRequestBranch and github.PullRequest, as far as the method fills them in.
pub record BranchInfo : Type 0 where
  pub ref : String
  pub sha : String
  pub repo : RepositoryInfo

pub record PullInfo : Type 0 where
  pub number : ℕ
  pub state : String
  pub draft : Bool
  pub base : BranchInfo
  pub head : BranchInfo

-- The commit of a branch, or the last one known where the branch is gone.
unfoldable pub current_sha : Machine → Repository → String → String → String
current_sha m r ref known =
    let sha = resolve_ref m r.git_dir ref in if sha == "" then known else sha

unfoldable pub pull_info : Machine → Repository → PullRequest → PullInfo
unfolding current_sha
pull_info m r pull = record {
  number = pull.number;
  state = pull.state;
  draft = pull.draft;
  base = record {
    ref = pull.base_ref;
    sha = current_sha m r pull.base_ref pull.base_sha;
    repo = repository_info r;
  };
  head = record {
    ref = pull.head_ref;
    sha = current_sha m r pull.head_ref pull.head_sha;
    repo = repository_info r;
  };
}

unfoldable pub get_pull :
    Unicode → Machine → World → Option InstallationToken → String → String → ℕ → ApiResult PullInfo
unfolding repo_name can_read_pulls pull_info
get_pull u m w none owner name number = api_error 401 "Bad credentials"
get_pull u m w (some token) owner name number =
    if_some (get w.repo_names (repo_name u owner name)) (api_error 404 "Not Found") λ repository_id.
      if not (has token.repository_ids repository_id) || not (can_read_pulls token.permissions)
      then api_error 404 "Not Found"
      else if_some (get w.pulls (key_of repository_id number)) (api_error 404 "Not Found") λ pull.
        api_response 200
          (pull_info m (get_or (get w.repositories repository_id) zero_repository) pull)
