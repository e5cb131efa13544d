-- ===== src/Control/Lookup.antt =====
-- What a control request that succeeds leaves to be found.
use merger_herder_validation.Reply.{decoded, write_json, id}
use merger_herder_validation.Dict.{get, put, has, get-put_self, has-put, get-put_ne}
use merger_herder_validation.Control.Cases.{IsNewRepository, create_repository_cases}
use merger_herder_validation.Prelude.{
  ◌≤◌, String, ◌≡◌, some, if_cases, false, none, ◌==◌, ◌⊎◌, true, arith, ℕ, if◌then◌else◌, nat_key,
  nat_beq_iff, string_key, ◌≢◌, refl, inl, inr,
}
use merger_herder_validation.World.Inputs.{RepositoryInput}
use merger_herder_validation.Events.{
  append_installation_repositories_event, append_pending_event, append_pending_app_event,
}
use merger_herder_validation.World.{World, Installation, Repository}
use merger_herder_validation.Machine.{Platform, Machine}
use merger_herder_validation.Control.Setup.{
  add_repository, create_repository, repo_name, repository_of,
}

-- A repository that is made: its name leads to it, its lock is there, its installation has it, and
-- no other name, repository or installation changes.
pub record IsMade (p : Platform) (w w' : World) (input : RepositoryInput) : Type 0 where
  pub repository : Repository
  pub installation : Installation
  pub installed : get w.installs input.installation_id ≡ some installation
  pub fresh_id : get w.repositories input.id ≡ none
  pub fresh_name : get w.repo_names (repo_name p.unicode input.owner input.name) ≡ none
  pub found : get w'.repositories input.id ≡ some repository
  pub from_input :
      (repository.id ≡ input.id)
      × (repository.owner ≡ input.owner)
      × (repository.name ≡ input.name)
      × (repository.installation_id ≡ input.installation_id)
  pub named : get w'.repo_names (repo_name p.unicode input.owner input.name) ≡ some input.id
  pub locked : has w'.receive_locks input.id ≡ true
  pub owned :
      (i : Installation) × (get w'.installs input.installation_id ≡ some i)
      × ((k : ℕ)
          → has i.repository_ids k
            ≡ (if input.id == k then true else has installation.repository_ids k))
  pub repositories_kept : (k : ℕ) → input.id ≢ k → get w'.repositories k ≡ get w.repositories k
  pub names_kept :
      (name : String)
      → repo_name p.unicode input.owner input.name ≢ name
      → get w'.repo_names name ≡ get w.repo_names name
  pub installs_kept : (k : ℕ) → input.installation_id ≢ k → get w'.installs k ≡ get w.installs k

add_repository_tables :
    (w : World) (i : Installation) (key : String) (r : Repository)
    → ((add_repository w i key r).repositories ≡ put w.repositories r.id r)
      × ((add_repository w i key r).receive_locks ≡ put w.receive_locks r.id tt)
      × ((add_repository w i key r).repo_names ≡ put w.repo_names key r.id)
      × ((add_repository w i key r).installs
          ≡ put w.installs r.installation_id
              (record i { repository_ids = put i.repository_ids r.id tt }))
unfolding add_repository append_installation_repositories_event append_pending_event
    append_pending_app_event
add_repository_tables w i key r =
    if_cases
      (λ (x : World).
        (x.repositories ≡ put w.repositories r.id r)
        × (x.receive_locks ≡ put w.receive_locks r.id tt)
        × (x.repo_names ≡ put w.repo_names key r.id)
        × (x.installs
            ≡ put w.installs r.installation_id
                (record i { repository_ids = put i.repository_ids r.id tt })))
      (i.owner == "") _ _ (λ _. (refl, refl, refl, refl)) (λ _. (refl, refl, refl, refl))

add_repository-IsMade :
    (p : Platform) (w : World) (installation : Installation) (input : RepositoryInput)
    (git_dir : String)
    → IsNewRepository p w installation input
    → IsMade p w
        (add_repository w installation
          (repo_name p.unicode input.owner input.name)
          (repository_of input git_dir))
        input
add_repository-IsMade p w installation input git_dir new =
    let key = repo_name p.unicode input.owner input.name in
    let r = repository_of input git_dir in
    let (repositories, locks, names, installs) = add_repository_tables w installation key r in
    record {
      repository = r;
      installation = installation;
      installed = new.installed;
      fresh_id = new.new_id;
      fresh_name = new.new_name;
      found = rw repositories (get-put_self w.repositories input.id r);
      from_input = (refl, refl, refl, refl);
      named = rw names (get-put_self w.repo_names key input.id);
      locked = rw locks (
          ground
            (arith, has-put w.receive_locks input.id input.id tt, nat_beq_iff input.id input.id));
      owned = (
        record installation { repository_ids = put installation.repository_ids input.id tt },
        rw installs (get-put_self w.installs input.installation_id _),
        λ k. has-put installation.repository_ids input.id k tt,
      );
      repositories_kept = λ k other. rw repositories (get-put_ne w.repositories input.id k r other);
      names_kept = λ name other. rw names (get-put_ne w.repo_names key name input.id other);
      installs_kept =
          λ k other. rw installs (get-put_ne w.installs input.installation_id k _ other);
    }

-- createRepository answers with an error of at least 400 and leaves the world as it is, or with 201,
-- for an input that it decoded and an id and a name that were free in the tables; then the name leads
-- to the repository, which has its lock, its installation gets its id, and no other entry of the
-- three tables changes.
pub create_repository-IsMade :
    (p : Platform) (m : Machine) (w : World) (input : RepositoryInput)
    → ((400 ≤ (create_repository p m w (decoded input false)).1.status)
        × ((create_repository p m w (decoded input false)).0 ≡ w))
      ⊎ (((create_repository p m w (decoded input false)).1 ≡ write_json 201 (id input.id))
          × IsMade p w (create_repository p m w (decoded input false)).0 input)
create_repository-IsMade p m w input =
    create_repository_cases
      (λ r.
        ((400 ≤ r.1.status) × (r.0 ≡ w))
        ⊎ ((r.1 ≡ write_json 201 (id input.id)) × IsMade p w r.0 input))
      p m w (decoded input false) (λ status text h. inl (h, refl))
      λ other installation new same.
        let it : other ≡ input = cc in
        rw (← it) (inr (refl, add_repository-IsMade p w installation other _ new))
