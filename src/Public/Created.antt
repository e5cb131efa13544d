-- ===== src/Public/Created.antt =====
-- A pull request that the control API makes, as the public API gives it.
use merger_herder_validation.Public.Tokens.{repository_info}
use merger_herder_validation.Reply.{Reply, decode_control, decoded}
use merger_herder_validation.Public.Api.{api_response}
use merger_herder_validation.Permission.{can_read_pulls}
use merger_herder_validation.Control.Setup.{repo_name}
use merger_herder_validation.Dict.{get, has, get-put_self}
use merger_herder_validation.Prelude.{
  String, ◌≡◌, some, true, string_key, nat_key, false, refl, if_cases, arith, option_cases, ◌==◌,
  ◌||◌, ◌≢◌, eq_iff,
}
use merger_herder_validation.World.Inputs.{PullRequestInput}
use merger_herder_validation.World.{World, Repository, InstallationToken, PullRequest, pull_key}
use merger_herder_validation.Machine.{Machine, resolve_ref}
use merger_herder_validation.Text.{Unicode}
use merger_herder_validation.Control.Pulls.{
  create_pull_request, store_pull, pull_of, key_of, default_state, invalid_pull, with_pull,
}
use merger_herder_validation.Public.Pulls.{get_pull, pull_info, current_sha, PullInfo}

-- The commit of a branch: the one that it has, or else the one that it had.
pub record IsCommit (m later : Machine) (r : Repository) (ref sha : String) : Type 0 where
  pub there : resolve_ref later r.git_dir ref ≢ "" → sha ≡ resolve_ref later r.git_dir ref
  pub gone : resolve_ref later r.git_dir ref ≡ "" → sha ≡ resolve_ref m r.git_dir ref

-- What is read of a pull request that was made of the input.
pub record IsReadBack (m later : Machine) (r : Repository) (input : PullRequestInput)
    (info : PullInfo) : Type 0 where
  pub number : info.number ≡ input.number
  pub draft : info.draft ≡ input.draft
  pub open_state : input.state ≡ "" → info.state ≡ "open"
  pub given_state : input.state ≢ "" → info.state ≡ input.state
  pub base_ref : info.base.ref ≡ input.base_ref
  pub head_ref : info.head.ref ≡ input.head_ref
  pub base_sha : IsCommit m later r input.base_ref info.base.sha
  pub head_sha : IsCommit m later r input.head_ref info.head.sha
  pub base_repository : info.base.repo.id ≡ r.id
  pub head_repository : info.head.repo.id ≡ r.id

-- The pull request of the input, with the commits that its branches have.
abbrev pub pull_made : Machine → Repository → PullRequestInput → PullRequest
pull_made m r input =
    pull_of input (default_state input.state) (resolve_ref m r.git_dir input.base_ref)
      (resolve_ref m r.git_dir input.head_ref)

current_sha-IsCommit :
    (m later : Machine) (r : Repository) (ref : String)
    → IsCommit m later r ref (current_sha later r ref (resolve_ref m r.git_dir ref))
unfolding current_sha
current_sha-IsCommit m later r ref = record {
  there = λ is. ground (arith, eq_iff (resolve_ref later r.git_dir ref) "");
  gone = λ is. ground (arith, eq_iff (resolve_ref later r.git_dir ref) "");
}

pull_info-IsReadBack :
    (m later : Machine) (r : Repository) (input : PullRequestInput)
    → IsReadBack m later r input (pull_info later r (pull_made m r input))
unfolding pull_info repository_info
pull_info-IsReadBack m later r input = record {
  number = refl;
  draft = refl;
  open_state = λ is. ground (arith, eq_iff input.state "");
  given_state = λ is. ground (arith, eq_iff input.state "");
  base_ref = refl;
  head_ref = refl;
  base_sha = current_sha-IsCommit m later r input.base_ref;
  head_sha = current_sha-IsCommit m later r input.head_ref;
  base_repository = refl;
  head_repository = refl;
}

module _ (u : Unicode) (m later : Machine) (w : World) (input : PullRequestInput)
    (token : InstallationToken) (owner name : String)
    (named : get w.repo_names (repo_name u owner name) ≡ some input.repository_id)
    (scoped : has token.repository_ids input.repository_id ≡ true)
    (permitted : can_read_pulls token.permissions ≡ true) where
  -- Where the pull request is made, it can be read.
  abbrev IsReadable : World × Reply → Type 0
  IsReadable (w', reply) =
      reply.status ≡ 201
      → (r : Repository) × (get w.repositories input.repository_id ≡ some r)
        × ((info : PullInfo) × (get_pull u later w' (some token) owner name input.number
              ≡ api_response 200 info)
            × IsReadBack m later r input info)

  with_pull-IsReadable :
      (r : Repository)
      → get w.repositories input.repository_id ≡ some r
      → get_pull u later
          (with_pull w (key_of input.repository_id input.number) (pull_made m r input))
          (some token)
          owner
          name
          input.number
        ≡ api_response 200 (pull_info later r (pull_made m r input))
  unfolding get_pull
  with_pull-IsReadable r found =
      rw
        (
          named,
          scoped,
          permitted,
          get-put_self w.pulls (key_of input.repository_id input.number) (pull_made m r input),
          found,
        )
        refl

  -- A pull request that createPullRequest makes is what pullRequestsService.Get gives in the world
  -- after it, to a token that has the repository and may read pull requests: with the number, the
  -- branches, the draft mark and the state of the input, open where it names none, for the repository
  -- of the input, and with the commit that each branch has by then, or the one of the creation where
  -- the branch is gone.
  pub create_pull_request-get_pull :
      (create_pull_request m w (decoded input false)).1.status ≡ 201
      → (r : Repository) × (get w.repositories input.repository_id ≡ some r)
        × ((info : PullInfo) × (get_pull u later
                (create_pull_request m w (decoded input false)).0
                (some token)
                owner
                name
                input.number
              ≡ api_response 200 info)
            × IsReadBack m later r input info)
  unfolding create_pull_request store_pull decode_control
  create_pull_request-get_pull =
      if_cases IsReadable (invalid_pull input (default_state input.state)) _ _
        (λ _ wrong. absurd (omega (arith, wrong)))
        λ _.
          option_cases IsReadable (get w.repositories input.repository_id) _ _
            (λ _ wrong. absurd (omega (arith, wrong)))
            λ r found.
              if_cases IsReadable (has w.pulls (key_of input.repository_id input.number)) _ _
                (λ _ wrong. absurd (omega (arith, wrong)))
                λ _.
                  if_cases IsReadable
                    (resolve_ref m r.git_dir input.base_ref == ""
                      || resolve_ref m r.git_dir input.head_ref == "")
                    _ _ (λ _ wrong. absurd (omega (arith, wrong)))
                    λ _ _. (
                      r,
                      found,
                      (
                        pull_info later r (pull_made m r input),
                        with_pull-IsReadable r found,
                        pull_info-IsReadBack m later r input,
                      ),
                    )
