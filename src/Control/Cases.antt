-- ===== src/Control/Cases.antt =====
-- The outcomes of the control handlers: an error that leaves the world as it is, or the writes of
-- the handler under its guards.
use merger_herder_validation.Dict.{get, has, keys, items}
use merger_herder_validation.World.Inputs.{AppInput, InstallationInput, RepositoryInput}
use merger_herder_validation.Prelude.{
  ℕ, false, String, arith, ◌≤◌, is_positive, ◌≡◌, true, get_or, ◌==◌, option_cases, nat_key, not,
  ◌||◌, if_cases, none, some, string_key, ◌∷◌, [], ◌&&◌, refl,
}
use merger_herder_validation.Machine.{Platform, Machine, run_git}
use merger_herder_validation.World.{World, RsaPublicKey, zero_app, Installation, zero_installation}
use merger_herder_validation.Control.Setup.{
  with_app, create_app, rsa_key, register_installation, create_repository, create_installation,
  valid_path_component, add_repository, repo_name, default_owner_type, repository_of, name_taken,
  add_installation, repository_dir, invalid_permission, init_repository,
}
use merger_herder_validation.Reply.{
  Decoded, malformed, decoded, decode_control, Reply, write_json, id, message,
}

-- An error reply beside the world as it was.
abbrev pub Refusals {ℓ} : (World × Reply → Type ℓ) → World → Type ℓ
Refusals P w = (status : ℕ) (text : String) → 400 ≤ status → P (w, write_json status (message text))

pub create_app_cases {ℓ} :
    (P : World × Reply → Type ℓ) (p : Platform) (w : World) (body : Decoded AppInput)
    → Refusals P w
    → ((input : AppInput) (key : RsaPublicKey)
        → (not (is_positive input.id) || not ((get_or (get w.apps input.id) zero_app).id == 0))
          ≡ false
        → P (with_app w input key, write_json 201 (id input.id)))
    → P (create_app p w body)
unfolding create_app decode_control
create_app_cases P p w malformed refusal done = refusal 400 _ (omega arith)
create_app_cases P p w (decoded a true) refusal done = refusal 400 _ (omega arith)
create_app_cases P p w (decoded input false) refusal done =
    option_cases P (p.pem_decode input.public_key_pem) _ _ (λ _. refusal 400 _ (omega arith))
      λ block _.
        option_cases P (p.parse_public_key block) _ _ (λ _. refusal 400 _ (omega arith))
          λ parsed _.
            option_cases P (rsa_key parsed) _ _ (λ _. refusal 400 _ (omega arith))
              λ key _. if_cases P _ _ _ (λ _. refusal 409 _ (omega arith)) (done input key)

pub register_installation_cases {ℓ} :
    (P : World × Reply → Type ℓ) (w : World) (input : InstallationInput)
    → Refusals P w
    → ((get_or (get w.installs input.id) zero_installation).id ≡ 0
        → is_positive input.id ≡ true
        → has w.apps input.app_id ≡ true
        → P (add_installation w input, write_json 201 (id input.id)))
    → P (register_installation w input)
unfolding register_installation
register_installation_cases P w input refusal done =
    if_cases P
      (not (is_positive input.id)
        || not ((get_or (get w.installs input.id) zero_installation).id == 0))
      _ _ (λ _. refusal 409 _ (omega arith))
      λ fresh.
        if_cases P (not (has w.apps input.app_id)) _ _ (λ _. refusal 400 _ (omega arith))
          λ known. done (ground arith) (ground arith) (ground arith)

pub create_installation_cases {ℓ} :
    (P : World × Reply → Type ℓ) (w : World) (body : Decoded InstallationInput)
    → Refusals P w
    → ((input : InstallationInput) → P (register_installation w input))
    → P (create_installation w body)
unfolding create_installation decode_control
create_installation_cases P w malformed refusal done = refusal 400 _ (omega arith)
create_installation_cases P w (decoded a true) refusal done = refusal 400 _ (omega arith)
create_installation_cases P w (decoded input false) refusal done =
    if_cases P (invalid_permission (items input.permissions)) _ _ (λ _. refusal 400 _ (omega arith))
      λ _.
        if_cases P (input.owner == "") _ _ (λ _. done input)
          λ _.
            if_cases P (not (valid_path_component input.owner)) _ _
              (λ _. refusal 400 _ (omega arith))
              λ _.
                if_cases P
                  (not (default_owner_type input.owner_type == "User")
                    && not (default_owner_type input.owner_type == "Organization"))
                  _ _ (λ _. refusal 400 _ (omega arith))
                  λ _. done (record input { owner_type = default_owner_type input.owner_type })

-- The guards under which createRepository makes a repository.
pub record IsNewRepository (p : Platform) (w : World) (installation : Installation)
    (input : RepositoryInput) : Type 0 where
  pub positive : is_positive input.id ≡ true
  pub owner_valid : valid_path_component input.owner ≡ true
  pub name_valid : valid_path_component input.name ≡ true
  pub installed : get w.installs input.installation_id ≡ some installation
  pub new_id : get w.repositories input.id ≡ none
  pub new_name : get w.repo_names (repo_name p.unicode input.owner input.name) ≡ none
  pub name_free : name_taken p.unicode w input.name (keys installation.repository_ids) ≡ false

init_repository_cases {ℓ} :
    (P : World × Reply → Type ℓ) (m : Machine) (w : World) (installation : Installation)
    (key : String) (input : RepositoryInput)
    → Refusals P w
    → P (
      add_repository w installation key
          (repository_of input (repository_dir w input.owner input.name)),
      write_json 201 (id input.id),
    )
    → P (init_repository m w installation key input)
unfolding init_repository
init_repository_cases P m w installation key input refusal done =
    let dir = repository_dir w input.owner input.name in
    option_cases P (run_git m "" ("init" ∷ "--bare" ∷ dir ∷ [])) _ _
      (λ _.
        option_cases P (run_git m dir ("config" ∷ "http.receivepack" ∷ "true" ∷ [])) _ _ (λ _. done)
          (λ e _. refusal 500 e (omega arith)))
      (λ e _. refusal 500 e (omega arith))

pub create_repository_cases {ℓ} :
    (P : World × Reply → Type ℓ) (p : Platform) (m : Machine) (w : World)
    (body : Decoded RepositoryInput)
    → Refusals P w
    → ((input : RepositoryInput) (installation : Installation)
        → IsNewRepository p w installation input
        → body ≡ decoded input false
        → P (
          add_repository w installation
              (repo_name p.unicode input.owner input.name)
              (repository_of input (repository_dir w input.owner input.name)),
          write_json 201 (id input.id),
        ))
    → P (create_repository p m w body)
unfolding create_repository decode_control
create_repository_cases P p m w malformed refusal done = refusal 400 _ (omega arith)
create_repository_cases P p m w (decoded a true) refusal done = refusal 400 _ (omega arith)
create_repository_cases P p m w (decoded input false) refusal done =
    if_cases P
      (not (is_positive input.id)
        || not (valid_path_component input.owner)
        || not (valid_path_component input.name))
      _ _ (λ _. refusal 400 _ (omega arith))
      λ valid.
        option_cases P (get w.installs input.installation_id) _ _ (λ _. refusal 400 _ (omega arith))
          λ installation found.
            if_cases P (has w.repositories input.id) _ _ (λ _. refusal 409 _ (omega arith))
              λ new_id.
                if_cases P (has w.repo_names (repo_name p.unicode input.owner input.name)) _ _
                  (λ _. refusal 409 _ (omega arith))
                  λ new_name.
                    if_cases P
                      (name_taken p.unicode w input.name (keys installation.repository_ids)) _ _
                      (λ _. refusal 409 _ (omega arith))
                      λ free. init_repository_cases P m w installation _ input refusal (
                        done input installation
                          (record {
                            positive = ground arith;
                            owner_valid = ground arith;
                            name_valid = ground arith;
                            installed = found;
                            new_id = ground arith;
                            new_name = ground arith;
                            name_free = free;
                          })
                          refl)
