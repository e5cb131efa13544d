-- ===== src/Examples/Pushed.antt =====
-- Tokens, pull requests and pushes on the fixture.
use merger_herder_validation.Public.Created.{create_pull_request-get_pull, IsReadBack}
use merger_herder_validation.Public.Api.{api_response}
use merger_herder_validation.Public.Pulls.{get_pull, PullInfo}
use merger_herder_validation.Permission.{granted_rank, permission_rank, can_read_pulls}
use merger_herder_validation.Control.Setup.{repo_name}
use merger_herder_validation.Dict.Entries.{find, insert}
use merger_herder_validation.Public.Tokens.{create_installation_token}
use merger_herder_validation.Reply.{decode_control, decoded}
use merger_herder_validation.Dict.{get, put, empty}
use merger_herder_validation.Http.Replay.{Call, sets, writes}
use merger_herder_validation.Http.{ResponseWriter}
use merger_herder_validation.Examples.{
  sample_machine, sample_unicode, sample_world, sample_parser, sample_repository, sample_token,
}
use merger_herder_validation.Text.{
  raw_url_encode, split, trim_prefix, trim_suffix, trim_space, to_lower,
}
use merger_herder_validation.World.Inputs.{PullRequestInput}
use merger_herder_validation.Control.Pulls.{create_pull_request, store_pull}
use merger_herder_validation.Public.Random.{random_token, create_installation_token-Keeps}
use merger_herder_validation.Git.Serve.{
  BackendRequest, serve_git, PushOutcome, serve_git-PushOutcome,
}
use merger_herder_validation.Machine.{Machine, exited, resolve_ref, branch_refs}
use merger_herder_validation.World.{World, Repository}
use merger_herder_validation.Public.Handler.{PublicRequest, git_request, path_parts}
use merger_herder_validation.Git.Gate.{git_gate, admit, git_service, granted}
use merger_herder_validation.Prelude.{
  [], ◌∷◌, List, true, some, ◌≡◌, none, arith, string_key, refl, false, nat_key,
}
use merger_herder_validation.Examples.Served.{sample_codec, sample_request}

create_installation_token-Keeps_example :
    get
      (create_installation_token
        (λ p. p)
        sample_parser
        sample_unicode
        sample_world
        sample_world
        sample_world
        "jwt"
        70
        none
        (random_token (some (1 ∷ 2 ∷ 3 ∷ [])))).0.tokens
      "ghs_AQIE"
    ≡ get sample_world.tokens "ghs_AQIE"
unfolding random_token raw_url_encode
create_installation_token-Keeps_example =
    create_installation_token-Keeps (λ p. p) sample_parser sample_unicode sample_world sample_world
      sample_world "jwt" 70 none (1 ∷ 2 ∷ 4 ∷ []) (1 ∷ 2 ∷ 3 ∷ []) "ghs_AQIE"
      (omega arith, (omega arith, (omega arith, tt)))
      (omega arith, (omega arith, (omega arith, tt))) (λ e. absurd (ground arith)) refl

-- Each branch is at one commit.
abbrev git_machine : Machine
git_machine = record sample_machine { run = λ dir arguments. exited "abc" }

abbrev new_pull : PullRequestInput
new_pull = record {
  repository_id = 700;
  number = 6;
  base_ref = "main";
  head_ref = "topic";
  state = "";
  draft = true;
}

create_pull_request-get_pull_example :
    (r : Repository) × (get sample_world.repositories 700 ≡ some r)
    × ((info : PullInfo) × (get_pull sample_unicode sample_machine
            (create_pull_request git_machine sample_world (decoded new_pull false)).0
            (some sample_token)
            "acme"
            "tool"
            6
          ≡ api_response 200 info)
        × IsReadBack git_machine sample_machine r new_pull info)
unfolding create_pull_request store_pull decode_control get put find insert empty resolve_ref
    trim_space repo_name can_read_pulls granted_rank permission_rank to_lower
create_pull_request-get_pull_example =
    create_pull_request-get_pull sample_unicode git_machine sample_machine sample_world new_pull
      sample_token "acme" "tool" refl refl refl refl

-- A push to the fixture's repository.
abbrev push_request : PublicRequest
push_request = record sample_request {
  method = "POST";
  path = "/acme/tool.git/git-receive-pack";
  basic_auth = some ("x-access-token", "t1");
}

abbrev sample_backend : BackendRequest → List Call × List Call
sample_backend b =
    (sets "Content-Type" "application/x-git-receive-pack-result" ∷ [], writes "ok" ∷ [])

push_granted :
    git_gate sample_unicode sample_world (git_request push_request) (path_parts push_request)
    ≡ granted "git-receive-pack" sample_repository sample_token true
unfolding git_gate admit git_service split trim_prefix trim_suffix repo_name granted_rank
    permission_rank get put find insert empty to_lower
push_granted = refl

serve_git-PushOutcome_example :
    (answer : World × ResponseWriter) × (serve_git sample_codec sample_unicode sample_backend
        sample_machine git_machine sample_world sample_world push_request
      ≡ some answer)
    × PushOutcome sample_codec git_machine sample_world sample_repository sample_token
        (sets "Content-Type" "application/x-git-receive-pack-result" ∷ [])
        (writes "ok" ∷ [])
        (branch_refs sample_machine "/srv/acme/tool.git")
        (branch_refs git_machine "/srv/acme/tool.git")
        answer
serve_git-PushOutcome_example =
    serve_git-PushOutcome sample_codec sample_unicode sample_backend sample_machine git_machine
      sample_world sample_world push_request "git-receive-pack" sample_repository sample_token
      push_granted (tt, tt) (tt, tt)
