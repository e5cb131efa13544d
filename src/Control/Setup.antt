-- ===== src/Control/Setup.antt =====
-- Apps, installations and repositories: createApp, createInstallation and createRepository.
use merger_herder_validation.Prelude.{
  ℕ, Bool, false, not, ◌&&◌, ◌||◌, none, some, List, [], ◌∷◌, String, ◌==◌, string_key, nat_key,
  if◌then◌else◌, get_or, is_positive, if_some, Option,
}
use merger_herder_validation.Text.{Unicode, ◌+++◌, to_lower, equal_fold, contains_slash}
use merger_herder_validation.Dict.{empty, get, put, has, items, keys}
use merger_herder_validation.Permission.{permission_rank}
use merger_herder_validation.World.{
  World, Installation, Repository, RsaPublicKey, zero_app, zero_installation, zero_repository,
}
use merger_herder_validation.World.Inputs.{AppInput, InstallationInput, RepositoryInput}
use merger_herder_validation.Machine.{Machine, Platform, rsa, other, run_git, PublicKey}
use merger_herder_validation.Reply.{Reply, id, write_json, refuse, stay, Decoded, decode_control}
use merger_herder_validation.Events.{
  increment, append_installation_event, append_installation_repositories_event,
}

-- w.apps[input.ID] = app{…}; w.mutations++
abbrev pub with_app : World → AppInput → RsaPublicKey → World
with_app w input key = record w {
  apps = put w.apps input.id (record {
    id = input.id;
    public_key = some key;
    webhook_url = input.webhook_url;
    webhook_secret = input.webhook_secret;
  });
  mutations = increment w.mutations;
}

-- The critical section of createApp.
unfoldable pub register_app : World → AppInput → RsaPublicKey → World × Reply
register_app w input key =
    if not (is_positive input.id) || not ((get_or (get w.apps input.id) zero_app).id == 0)
    then refuse w 409 "invalid or duplicate App ID"
    else (with_app w input key, write_json 201 (id input.id))

-- key, ok := parsed.(*rsa.PublicKey)
abbrev pub rsa_key : PublicKey → Option RsaPublicKey
rsa_key other = none
rsa_key (rsa key) = some key

unfoldable pub create_app : Platform → World → Decoded AppInput → World × Reply
unfolding register_app
create_app p w body = decode_control (stay w) body λ input.
    if_some (p.pem_decode input.public_key_pem) (refuse w 400 "invalid public key PEM") λ block.
      if_some (p.parse_public_key block) (refuse w 400 "invalid public key") λ parsed.
        if_some (rsa_key parsed) (refuse w 400 "public key is not RSA")
          λ key. register_app w input key

-- validPathComponent
unfoldable pub valid_path_component : String → Bool
unfolding contains_slash
valid_path_component value =
    not (value == "") && not (value == ".") && not (value == "..") && not (contains_slash value)

-- The loop over the permissions finds one that is refused.
unfoldable pub invalid_permission : List (String × String) → Bool
unfolding permission_rank
invalid_permission [] = false
invalid_permission ((permission, level) ∷ rest) =
    permission == "" || permission_rank level == 0 || invalid_permission rest

-- w.installs[input.ID] = installation{…}
abbrev pub installation_of : InstallationInput → Installation
installation_of input = record {
  id = input.id;
  app_id = input.app_id;
  active = input.active;
  owner = input.owner;
  owner_type = input.owner_type;
  permissions = input.permissions;
  repository_ids = empty;
}

-- What createInstallation writes.
unfoldable pub add_installation : World → InstallationInput → World
add_installation w input =
    let w' = record w { installs = put w.installs input.id (installation_of input) } in
    let w'' =
      if input.owner == ""
      then w'
      else append_installation_event w' (installation_of input) "created" in
    record w'' { mutations = increment w''.mutations }

-- The critical section of createInstallation.
unfoldable pub register_installation : World → InstallationInput → World × Reply
unfolding add_installation
register_installation w input =
    if not (is_positive input.id)
      || not ((get_or (get w.installs input.id) zero_installation).id == 0)
    then refuse w 409 "invalid or duplicate installation ID"
    else if not (has w.apps input.app_id)
    then refuse w 400 "unknown App"
    else (add_installation w input, write_json 201 (id input.id))

-- if input.OwnerType == "" { input.OwnerType = "User" }
abbrev pub default_owner_type : String → String
default_owner_type type = if type == "" then "User" else type

unfoldable pub create_installation : World → Decoded InstallationInput → World × Reply
unfolding invalid_permission valid_path_component register_installation
create_installation w body = decode_control (stay w) body λ input.
    let type = default_owner_type input.owner_type in
    if invalid_permission (items input.permissions)
    then refuse w 400 "invalid permission"
    else if input.owner == ""
    then register_installation w input
    else if not (valid_path_component input.owner)
    then refuse w 400 "invalid installation owner"
    else if not (type == "User") && not (type == "Organization")
    then refuse w 400 "invalid installation owner type"
    else register_installation w (record input { owner_type = type })

-- repoName
unfoldable pub repo_name : Unicode → String → String → String
repo_name u owner name = to_lower u owner +++ ("/" +++ to_lower u name)

-- The loop over the installation's repositories finds the name.
unfoldable pub name_taken : Unicode → World → String → List ℕ → Bool
name_taken u w name [] = false
name_taken u w name (i ∷ rest) =
    equal_fold u (get_or (get w.repositories i) zero_repository).name name
    || name_taken u w name rest

-- filepath.Join(w.dataDir, "repositories", owner, name+".git"), for a clean data directory
abbrev pub repository_dir : World → String → String → String
repository_dir w owner name =
    w.data_dir +++ ("/repositories/" +++ (owner +++ ("/" +++ (name +++ ".git"))))

-- What createRepository writes once git has made the repository.
unfoldable pub add_repository : World → Installation → String → Repository → World
add_repository w installation key r =
    let installation' = record installation {
      repository_ids = put installation.repository_ids r.id tt;
    } in
    let w' = record w {
      repositories = put w.repositories r.id r;
      receive_locks = put w.receive_locks r.id tt;
      repo_names = put w.repo_names key r.id;
      installs = put w.installs r.installation_id installation';
    } in
    let w'' =
      if installation.owner == ""
      then w'
      else append_installation_repositories_event w' installation' r "added" in
    record w'' { mutations = increment w''.mutations }

-- repository{…}
abbrev pub repository_of : RepositoryInput → String → Repository
repository_of input git_dir = record {
  id = input.id;
  owner = input.owner;
  name = input.name;
  installation_id = input.installation_id;
  git_dir = git_dir;
}

-- The two git commands, and the writes after them. Where the second fails, the directory is removed,
-- which changes nothing in the world.
unfoldable pub init_repository :
    Machine → World → Installation → String → RepositoryInput → World × Reply
unfolding run_git add_repository
init_repository m w installation key input =
    let git_dir = repository_dir w input.owner input.name in
    let configured = run_git m git_dir ("config" ∷ "http.receivepack" ∷ "true" ∷ []) in
    if_some (run_git m "" ("init" ∷ "--bare" ∷ git_dir ∷ []))
      (if_some configured
        (
          add_repository w installation key (repository_of input git_dir),
          write_json 201 (id input.id),
        )
        (λ error. refuse w 500 error))
      (λ error. refuse w 500 error)

unfoldable pub create_repository :
    Platform → Machine → World → Decoded RepositoryInput → World × Reply
unfolding valid_path_component repo_name name_taken init_repository
create_repository p m w body = decode_control (stay w) body λ input.
    if not (is_positive input.id)
      || not (valid_path_component input.owner)
      || not (valid_path_component input.name)
    then refuse w 400 "invalid repository"
    else if_some (get w.installs input.installation_id) (refuse w 400 "unknown installation")
        (λ installation.
          let key = repo_name p.unicode input.owner input.name in
          if has w.repositories input.id
          then refuse w 409 "duplicate repository ID"
          else if has w.repo_names key
          then refuse w 409 "duplicate repository name"
          else if name_taken p.unicode w input.name (keys installation.repository_ids)
          then refuse w 409 "duplicate repository name in installation"
          else init_repository m w installation key input)
