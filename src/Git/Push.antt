-- ===== src/Git/Push.antt =====
-- What a push leaves in the world: recordRefChanges, refreshPullSnapshots and
-- recordObservationError of dtu/git.go. Each critical section is a function of its own.
use merger_herder_validation.Prelude.{
  ◌||◌, Bool, false, ℕ, Bool, false, not, ◌&&◌, Option, none, some, List, [], ◌∷◌, ◌++◌, String,
  ◌==◌, nat_key, string_key, if◌then◌else◌, get_or, if_some,
}
use merger_herder_validation.Text.{sort}
use merger_herder_validation.Dict.{Dict, Keys, empty, get, put, keys, items}
use merger_herder_validation.World.{
  World, Repository, InstallationToken, PullKey, PullRequest, pull_key, zero_installation,
}
use merger_herder_validation.Machine.{
  Machine, resolve_ref, forced_update, branch_refs, read, unread, RefsRead,
}
use merger_herder_validation.Events.{increment, append_push_event}
use merger_herder_validation.Runs.{append_queued_workflow}

abbrev pub Refs : Type 0
Refs = Dict String String

-- refSet[ref] = struct{}{}, for each of the refs
unfoldable pub add_all : List String → Keys String → Keys String
add_all [] s = s
add_all (ref ∷ rest) s = add_all rest (put s ref tt)

-- The refs before or after the push, sorted.
unfoldable pub touched_refs : Refs → Refs → List String
unfolding add_all
touched_refs before after = sort (keys (add_all (keys after) (add_all (keys before) empty)))

-- refs[ref], which is "" where there is none
abbrev pub sha_of : Refs → String → String
sha_of refs ref = get_or (get refs ref) ""

-- One round of the loop for a ref that has changed: the push event, and a run where the ref is the
-- configured release ref and still there.
unfoldable pub record_ref :
    World → Repository → InstallationToken → String → String → String → Bool → World
unfolding append_push_event append_queued_workflow
record_ref w r token ref before_sha after_sha forced =
    let app_id = (get_or (get w.installs token.installation_id) zero_installation).app_id in
    let w' = append_push_event w r app_id ref before_sha after_sha forced in
    if_some (get w'.workflows r.id) (w') (λ workflow.
      if workflow.release_ref == ref && not (after_sha == "")
      then append_queued_workflow w' r workflow ref after_sha
      else w')

-- The loop; `forced` was computed before it, with no lock held.
unfoldable pub record_refs :
    World
    → Repository
    → InstallationToken
    → Refs
    → Refs
    → (String → Bool)
    → List String
    → World × Bool
unfolding record_ref
record_refs w r token before after forced [] = (w, false)
record_refs w r token before after forced (ref ∷ rest) =
    let before_sha = sha_of before ref in
    let after_sha = sha_of after ref in
    let moved = not (before_sha == after_sha) in
    let w' = if moved then record_ref w r token ref before_sha after_sha (forced ref) else w in
    let (w'', changed) = record_refs w' r token before after forced rest in (w'', moved || changed)

unfoldable pub record_ref_changes :
    Machine → World → Repository → InstallationToken → Refs → Refs → World
unfolding touched_refs record_refs
record_ref_changes m w r token before after =
    let forced =
      λ (ref : String). forced_update m r.git_dir (sha_of before ref) (sha_of after ref) in
    let (w', changed) = record_refs w r token before after forced (touched_refs before after) in
    if changed then record w' { mutations = increment w'.mutations } else w'

unfoldable pub record_observation_error : World → ℕ → String → String → World
record_observation_error w repository_id operation text = record w {
  observation_errors =
      w.observation_errors
      ++ record {
        repository_id = repository_id;
        operation = operation;
        message = text;
        time = w.now;
      }
        ∷ [];
}

-- refSnapshot
pub record RefSnapshot : Type 0 where
  pub key : PullKey
  pub base_ref : String
  pub head_ref : String

-- The loop over the pull requests, under the read lock.
unfoldable pub snapshots_of : Repository → List (PullKey × PullRequest) → List RefSnapshot
snapshots_of r [] = []
snapshots_of r ((key, pull) ∷ rest) =
    let more = snapshots_of r rest in
    if pull.repository_id == r.id
    then record { key = key; base_ref = pull.base_ref; head_ref = pull.head_ref } ∷ more
    else more

-- if sha != "" { known = sha }
abbrev pub or_known : String → String → String
or_known sha known = if sha == "" then known else sha

-- One round of the loop over the snapshots: a critical section.
unfoldable pub refresh_pull : Machine → World → Repository → RefSnapshot → World
refresh_pull m w r snapshot =
    let base_sha = resolve_ref m r.git_dir snapshot.base_ref in
    let head_sha = resolve_ref m r.git_dir snapshot.head_ref in
    if_some (get w.pulls snapshot.key) (w) (λ pull.
      if pull.base_ref == snapshot.base_ref && pull.head_ref == snapshot.head_ref
      then record w {
        pulls = put w.pulls snapshot.key (record pull {
          base_sha = or_known base_sha pull.base_sha;
          head_sha = or_known head_sha pull.head_sha;
        });
      }
      else w)

unfoldable pub refresh_pulls : Machine → World → Repository → List RefSnapshot → World
unfolding refresh_pull
refresh_pulls m w r [] = w
refresh_pulls m w r (snapshot ∷ rest) = refresh_pulls m (refresh_pull m w r snapshot) r rest

-- refreshPullSnapshots, where no other request comes between its critical sections.
unfoldable pub refresh_pull_snapshots : Machine → World → Repository → World
unfolding snapshots_of refresh_pulls
refresh_pull_snapshots m w r = refresh_pulls m w r (snapshots_of r (items w.pulls))

-- What serveGit does with the branches after a receive-pack; `m` is the machine after the push. The
-- error that is answered, if any.
unfoldable pub finish_read :
    Machine → World → Repository → InstallationToken → Refs → RefsRead → World × Option (ℕ × String)
unfolding record_ref_changes refresh_pull_snapshots record_observation_error
finish_read m w r token before (unread error) = (
  record_observation_error w r.id "post-receive ref snapshot" error,
  some (500, "Unable to confirm repository refs"),
)
finish_read m w r token before (read after) =
    (refresh_pull_snapshots m (record_ref_changes m w r token before after) r, none)

-- serveGit once the backend has run a receive-pack.
unfoldable pub finish_receive :
    Machine → World → Repository → InstallationToken → Refs → World × Option (ℕ × String)
unfolding finish_read
finish_receive m w r token before = finish_read m w r token before (branch_refs m r.git_dir)

-- serveGit's receive-pack from the branches before it.
unfoldable pub receive_from :
    Machine → World → Repository → InstallationToken → RefsRead → World × Option (ℕ × String)
unfolding finish_receive
receive_from m' w' r token (unread error) = (w', some (500, "Unable to inspect repository refs"))
receive_from m' w' r token (read before) = finish_receive m' w' r token before

-- serveGit's receive-pack from the lock on: `m` before the backend runs, and `m'` and `w'` after.
unfoldable pub serve_receive :
    Machine → Machine → World → Repository → InstallationToken → World × Option (ℕ × String)
unfolding receive_from
serve_receive m m' w' r token = receive_from m' w' r token (branch_refs m r.git_dir)
