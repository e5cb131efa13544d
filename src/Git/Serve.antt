-- ===== src/Git/Serve.antt =====
-- serveGit of dtu/git.go as a whole: the checks, git http-backend, and what a push records.
use merger_herder_validation.Git.Queued.{target, queued_by, record_ref_changes-released}
use merger_herder_validation.Git.Refreshed.{
  IsFresh, refresh_pull_snapshots-IsFresh, pulls-record_ref_changes,
  workflow_runs-refresh_pull_snapshots,
}
use merger_herder_validation.Dict.{empty, get}
use merger_herder_validation.World.{
  World, Repository, InstallationToken, PullKey, WorkflowConfig, PullRequest, pull_key,
}
use merger_herder_validation.Machine.{Machine, RefsRead, unread, branch_refs, read}
use merger_herder_validation.Git.Push.{
  serve_receive, finish_receive, record_observation_error, refresh_pull_snapshots,
  record_ref_changes, finish_read, receive_from, Refs,
}
use merger_herder_validation.Git.Gate.{
  git_gate, GitRequest, Gate, denied, granted, unsupported, panics,
}
use merger_herder_validation.Http.{flush, ResponseWriter, new_writer, new_buffer, set_value}
use merger_herder_validation.Text.{join, Unicode, ◌+++◌}
use merger_herder_validation.Prelude.{
  String, List, Option, ℕ, some, none, ◌≡◌, All, if_some, if◌then◌else◌, true, refl, ◌==◌,
  string_key, arith, map, ◌++◌, ap, nat_key, ◌∙◌,
}
use merger_herder_validation.Prelude.{◌∷◌, []}
use merger_herder_validation.Http.Replay.{
  Call, buffered, at_once, IsHeaderCall, IsBodyCall, IsSameResponse, flush-buffered,
}
use merger_herder_validation.Public.Handler.{
  PublicRequest, Codec, write_error, handle_unsupported, git_request, path_parts,
}
use merger_herder_validation.Public.Handler.Wire.{IsFailure, write_error-IsFailure}

-- What the CGI handler runs the backend with.
pub record BackendRequest : Type 0 where
  pub program : String
  pub root : String
  pub path : String

-- parts[2:]
abbrev pub path_rest : List String → List String
path_rest (owner ∷ repository ∷ rest) = rest
path_rest _ = []

unfoldable pub backend_request : World → Repository → List String → BackendRequest
unfolding join
backend_request w r parts = record {
  program = w.git_backend;
  root = w.data_dir +++ "/repositories";
  path = "/" +++ (r.owner +++ ("/" +++ (r.name +++ (".git/" +++ join (path_rest parts) "/"))));
}

-- The answer to a push, from the error that serveGit found and what the backend wrote.
unfoldable pub push_answer : Codec → List Call → List Call → Option (ℕ × String) → ResponseWriter
unfolding write_error flush buffered
push_answer codec headers bodies none =
    flush (buffered (buffered new_buffer headers) bodies) new_writer
push_answer codec headers bodies (some (status, text)) = write_error codec new_writer status text

-- The writer of an error; a request with no credentials of the app is told how to authenticate.
unfoldable pub challenged : GitRequest → ResponseWriter
challenged request =
    let asked = record new_writer {
      header = set_value empty "WWW-Authenticate" "Basic realm=\"GitHub\"";
    } in
    if_some request.basic_auth (asked)
      (λ (username, raw_token). if username == "x-access-token" then new_writer else asked)

-- From the checks on: `backend` gives the calls on the response's header and those that follow, `m`
-- and `m'` answer before and after it runs, and `w'` is the world then; none is a panic.
unfoldable pub serve_gate :
    Codec
    → (BackendRequest → List Call × List Call)
    → Machine
    → Machine
    → World
    → World
    → PublicRequest
    → Gate
    → Option (World × ResponseWriter)
unfolding handle_unsupported challenged serve_receive backend_request push_answer at_once
serve_gate codec backend m m' w w' request unsupported = some (handle_unsupported codec w request)
serve_gate codec backend m m' w w' request (denied status text) =
    some (w, write_error codec (challenged (git_request request)) status text)
serve_gate codec backend m m' w w' request panics = none
serve_gate codec backend m m' w w' request (granted service r token receive_pack) =
    let (headers, bodies) = backend (backend_request w r (path_parts request)) in
    let (after, error) = serve_receive m m' w' r token in
    if receive_pack
    then some (after, push_answer codec headers bodies error)
    else some (w', at_once (at_once new_writer headers) bodies)

unfoldable pub serve_git :
    Codec
    → Unicode
    → (BackendRequest → List Call × List Call)
    → Machine
    → Machine
    → World
    → World
    → PublicRequest
    → Option (World × ResponseWriter)
unfolding git_gate serve_gate
serve_git codec u backend m m' w w' request =
    serve_gate codec backend m m' w w' request
      (git_gate u w (git_request request) (path_parts request))

-- What a push ends with, from the branches that were read before and after it.
abbrev pub PushOutcome :
    Codec
    → Machine
    → World
    → Repository
    → InstallationToken
    → List Call
    → List Call
    → RefsRead
    → RefsRead
    → World × ResponseWriter
    → Type 0
PushOutcome codec m' w' r token headers bodies (unread error) after (v, response) =
    (v ≡ w') × IsFailure codec response 500 "Unable to inspect repository refs"
PushOutcome codec m' w' r token headers bodies (read before) (unread error) (v, response) =
    (v ≡ record_observation_error w' r.id "post-receive ref snapshot" error)
    × IsFailure codec response 500 "Unable to confirm repository refs"
PushOutcome codec m' w' r token headers bodies (read before) (read after) (v, response) =
    (v ≡ refresh_pull_snapshots m' (record_ref_changes m' w' r token before after) r)
    × ((workflow : WorkflowConfig)
        → get w'.workflows r.id ≡ some workflow
        → map target v.workflow_runs
          ≡ map target w'.workflow_runs ++ queued_by workflow.release_ref before after)
    × ((k : PullKey) (pull : PullRequest)
        → get w'.pulls k ≡ some pull
        → pull.repository_id ≡ r.id
        → (new : PullRequest) × (get v.pulls k ≡ some new) × IsFresh m' r pull new)
    × IsSameResponse response (at_once (at_once new_writer headers) bodies)

module _ (codec : Codec) (u : Unicode) (backend : BackendRequest → List Call × List Call)
    (m m' : Machine) (w w' : World) (request : PublicRequest) (service : String) (r : Repository)
    (token : InstallationToken) where
  abbrev headers : List Call
  headers = (backend (backend_request w r (path_parts request))).0

  abbrev bodies : List Call
  bodies = (backend (backend_request w r (path_parts request))).1

  runs_after :
      (before after : Refs) (workflow : WorkflowConfig)
      → get w'.workflows r.id ≡ some workflow
      → map target
          (refresh_pull_snapshots m'
            (record_ref_changes m' w' r token before after)
            r).workflow_runs
        ≡ map target w'.workflow_runs ++ queued_by workflow.release_ref before after
  runs_after before after workflow known =
      let recorded = record_ref_changes m' w' r token before after in
      ap (map target) (workflow_runs-refresh_pull_snapshots m' r recorded)
      ∙ (record_ref_changes-released m' w' r token workflow before after known).1

  pulls_after :
      (before after : Refs) (k : PullKey) (pull : PullRequest)
      → get w'.pulls k ≡ some pull
      → pull.repository_id ≡ r.id
      → (new : PullRequest) × (get
            (refresh_pull_snapshots m' (record_ref_changes m' w' r token before after) r).pulls
            k
          ≡ some new)
        × IsFresh m' r pull new
  pulls_after before after k pull found own =
      refresh_pull_snapshots-IsFresh m' r k (record_ref_changes m' w' r token before after) pull own
        (ap (λ d. get d k) (pulls-record_ref_changes m' w' r token before after) ∙ found)

  finish_outcome :
      (before : Refs) (after : RefsRead)
      → All IsHeaderCall headers
      → All IsBodyCall bodies
      → PushOutcome codec m' w' r token headers bodies (read before) after (
        (finish_read m' w' r token before after).0,
        push_answer codec headers bodies (finish_read m' w' r token before after).1,
      )
  unfolding finish_read push_answer
  finish_outcome before (unread error) hs bs = (
    refl,
    write_error-IsFailure codec empty 500 "Unable to confirm repository refs" (omega arith),
  )
  finish_outcome before (read after) hs bs =
      (refl, runs_after before after, pulls_after before after, flush-buffered headers bodies hs bs)

  receive_outcome :
      (before : RefsRead)
      → All IsHeaderCall headers
      → All IsBodyCall bodies
      → PushOutcome codec m' w' r token headers bodies before (branch_refs m' r.git_dir) (
        (receive_from m' w' r token before).0,
        push_answer codec headers bodies (receive_from m' w' r token before).1,
      )
  unfolding receive_from finish_receive push_answer
  receive_outcome (unread error) hs bs = (
    refl,
    write_error-IsFailure codec empty 500 "Unable to inspect repository refs" (omega arith),
  )
  receive_outcome (read before) hs bs = finish_outcome before (branch_refs m' r.git_dir) hs bs

  -- A push that is let through to the backend is answered, on each branch: with an error 500 and
  -- nothing recorded where the branches cannot be read before it; with an error 500 and an observation
  -- error where they cannot be read after it; and else with the response of the backend, with its
  -- status, headers and body. Then the changes are recorded, and the pull requests refreshed: in a
  -- repository with a workflow the runs are those of before with one queued run where the release
  -- branch is at another commit and still there, and each pull request of the repository has the
  -- commits that its branches have then, or the last known ones where they are gone, and is else as it
  -- was. The backend writes its header first, and no informational status.
  pub serve_git-PushOutcome :
      git_gate u w (git_request request) (path_parts request) ≡ granted service r token true
      → All IsHeaderCall headers
      → All IsBodyCall bodies
      → (answer : World × ResponseWriter) × (serve_git codec u backend m m' w w' request
          ≡ some answer)
        × PushOutcome codec m' w' r token headers bodies
            (branch_refs m r.git_dir)
            (branch_refs m' r.git_dir)
            answer
  unfolding serve_git serve_gate serve_receive
  serve_git-PushOutcome through hs bs =
      (_, rw through refl, receive_outcome (branch_refs m r.git_dir) hs bs)
