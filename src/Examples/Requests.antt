-- ===== src/Examples/Requests.antt =====
-- Requests on the fixture.
use merger_herder_validation.Runs.{transition_workflow_run}
use merger_herder_validation.Delivery.{duplicate_event}
use merger_herder_validation.Control.Lookup.{IsMade, create_repository-IsMade}
use merger_herder_validation.Control.Pulls.{
  create_pull_request, change_pull_request_state, advance_time, configure_workflow,
}
use merger_herder_validation.Public.Tokens.Scope.{IsWithin, select_repositories-IsWithin}
use merger_herder_validation.Public.Pulls.{get_pull}
use merger_herder_validation.Public.Actions.{cancel_workflow_run}
use merger_herder_validation.Text.{trim_suffix, cut_suffix, equal_fold, has_suffix, to_lower}
use merger_herder_validation.Concurrency.System.{here}
use merger_herder_validation.Dict.Entries.{find, insert}
use merger_herder_validation.Control.Atomic.{IsAtomic, control-IsAtomic}
use merger_herder_validation.Control.Setup.{
  create_repository, create_app, repo_name, create_installation,
}
use merger_herder_validation.Examples.{
  sample_unicode, sample_world, sample_parser, sample_repository, sample_platform, sample_machine,
  sample_token, sample_system, sample_installation,
}
use merger_herder_validation.Reply.{Decoded, decoded, write_json, id}
use merger_herder_validation.Git.Access.{IsGranted, git_gate-IsGranted}
use merger_herder_validation.Permission.{permission_rank, granted_rank}
use merger_herder_validation.Public.Tokens.{
  select_repositories, select_ids, select_names, create_installation_token, named_repository,
}
use merger_herder_validation.Concurrency.Tables.{IsLinked, Reach-IsLinked}
use merger_herder_validation.Prelude.{
  List, ◌≤◌, some, String, ◌∷◌, true, [], none, false, arith, ◌≡◌, ◌⊎◌, string_key, refl, nat_key,
  if_some,
}
use merger_herder_validation.Dict.{get, put, keys, empty, Dict}
use merger_herder_validation.Public.Tokens.Issue.{
  CreateOutcome, create_installation_token-CreateOutcome,
}
use merger_herder_validation.Git.Gate.{git_gate, GitRequest, git_service, admit, granted}
use merger_herder_validation.Public.Outcomes.{
  PullOutcome, CancelOutcome, cancel_workflow_run-CancelOutcome, get_pull-PullOutcome,
}
use merger_herder_validation.World.Inputs.{
  RepositoryInput, AppInput, InstallationInput, PullRequestInput, PullRequestStateInput,
  AdvanceTimeInput, WorkflowInput, DuplicateEventInput, WorkflowTransitionInput,
}

sample_world-IsLinked : IsLinked sample_world
unfolding get put find insert empty
sample_world-IsLinked name i found =
    let same : 700 ≡ i = ground arith in rw (← same) (sample_repository, refl, refl, refl)

Reach-IsLinked_example : IsLinked sample_world
Reach-IsLinked_example = Reach-IsLinked sample_system sample_system here sample_world-IsLinked

-- The permission for contents, which github.InstallationPermissions has.
abbrev known_permissions : Dict String String → Dict String String
known_permissions p = if_some (get p "contents") (empty) (λ level. put empty "contents" level)

create_installation_token_example :
    CreateOutcome known_permissions sample_parser sample_world sample_world sample_world "jwt" 70 (
      create_installation_token known_permissions sample_parser sample_unicode sample_world
        sample_world sample_world "jwt" 70 none
        (some "t2"))
create_installation_token_example =
    create_installation_token-CreateOutcome known_permissions sample_parser sample_unicode
      sample_world sample_world sample_world "jwt" 70 none (some "t2")

abbrev fetch : GitRequest
fetch = record {
  method = "GET";
  service = "git-upload-pack";
  basic_auth = some ("x-access-token", "t1");
}

abbrev fetch_path : List String
fetch_path = "acme" ∷ "tool.git" ∷ "info" ∷ "refs" ∷ []

fetch_granted :
    git_gate sample_unicode sample_world fetch fetch_path
    ≡ granted "git-upload-pack" sample_repository sample_token false
unfolding git_gate git_service admit repo_name trim_suffix cut_suffix has_suffix granted_rank
    permission_rank get put find insert empty to_lower
fetch_granted = refl

git_gate-IsGranted_example :
    IsGranted sample_unicode sample_world fetch fetch_path "git-upload-pack" sample_repository
      sample_token false
git_gate-IsGranted_example =
    git_gate-IsGranted sample_unicode sample_world fetch fetch_path "git-upload-pack"
      sample_repository sample_token false fetch_granted

cancel_workflow_run_example :
    CancelOutcome sample_unicode
      (λ p. true)
      sample_world
      (some sample_token)
      "acme"
      "tool"
      1001
      (cancel_workflow_run sample_unicode
        (λ p. true)
        sample_world
        (some sample_token)
        "acme"
        "tool"
        1001)
cancel_workflow_run_example =
    cancel_workflow_run-CancelOutcome sample_unicode (λ p. true) sample_world (some sample_token)
      "acme" "tool" 1001

get_pull_example :
    PullOutcome sample_unicode sample_machine sample_world
      (some sample_token)
      "acme"
      "tool"
      5
      (get_pull sample_unicode sample_machine sample_world (some sample_token) "acme" "tool" 5)
get_pull_example =
    get_pull-PullOutcome sample_unicode sample_machine sample_world (some sample_token) "acme"
      "tool" 5

control-IsAtomic_example :
    ((body : Decoded AppInput)
      → IsAtomic sample_world (create_app sample_platform sample_world body))
    × ((body : Decoded InstallationInput)
        → IsAtomic sample_world (create_installation sample_world body))
    × ((body : Decoded RepositoryInput)
        → IsAtomic sample_world
            (create_repository sample_platform sample_machine sample_world body))
    × ((body : Decoded PullRequestInput)
        → IsAtomic sample_world (create_pull_request sample_machine sample_world body))
    × ((body : Decoded PullRequestStateInput)
        → IsAtomic sample_world (change_pull_request_state sample_world body))
    × ((body : Decoded AdvanceTimeInput)
        → IsAtomic sample_world (advance_time sample_platform sample_world body))
    × ((body : Decoded WorkflowInput)
        → IsAtomic sample_world (configure_workflow sample_machine sample_world body))
    × ((body : Decoded DuplicateEventInput)
        → IsAtomic sample_world (duplicate_event sample_world body))
    × ((body : Decoded WorkflowTransitionInput)
        → IsAtomic sample_world (transition_workflow_run sample_world body))
control-IsAtomic_example = control-IsAtomic sample_platform sample_machine sample_world

abbrev new_repository : RepositoryInput
new_repository = record { id = 701; owner = "acme"; name = "lib"; installation_id = 70 }

create_repository-IsMade_example :
    ((400
        ≤ (create_repository sample_platform sample_machine sample_world
            (decoded new_repository false)).1.status)
      × ((create_repository sample_platform sample_machine sample_world
            (decoded new_repository false)).0
          ≡ sample_world))
    ⊎ (((create_repository sample_platform sample_machine sample_world
            (decoded new_repository false)).1
          ≡ write_json 201 (id 701))
        × IsMade sample_platform sample_world
            (create_repository sample_platform sample_machine sample_world
              (decoded new_repository false)).0
            new_repository)
create_repository-IsMade_example =
    create_repository-IsMade sample_platform sample_machine sample_world new_repository

select_repositories-IsWithin_example :
    IsWithin (put empty 700 tt) sample_installation.repository_ids
unfolding select_repositories select_ids select_names named_repository get put find insert empty
    keys equal_fold
select_repositories-IsWithin_example =
    select_repositories-IsWithin sample_unicode sample_world sample_installation
      (record { repositories = []; repository_ids = 700 ∷ []; permissions = none })
      (put empty 700 tt) refl
