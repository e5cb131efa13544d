-- ===== src/Git/Access.antt =====
-- Who gets through to the git backend.
use merger_herder_validation.Control.Setup.{repo_name}
use merger_herder_validation.Dict.{get, has}
use merger_herder_validation.Prelude.{[], ◌∷◌, ◌⊎◌, Bool-cases, some-injective, inl, inr}
use merger_herder_validation.Prelude.{
  List, String, ◌≡◌, ℕ, option_cases, some, Bool, arith, ◌≤◌, true, if_cases, ◌<◌, ◌≢◌, not, subst,
  ◌==◌, get_or, false, eq_iff, ltb, string_key, ◌∙◌, nat_key, ◌&&◌, ap, refl,
}
use merger_herder_validation.Permission.{permission_rank, granted_rank}
use merger_herder_validation.World.{World, Repository, InstallationToken, zero_repository}
use merger_herder_validation.Text.{Unicode, trim_suffix}
use merger_herder_validation.Git.Gate.{
  admit, git_gate, GitRequest, Gate, git_service, denied, granted, path_owner, panics,
  path_repository, unsupported, is_service,
}

-- The user and token of the request, its service, and what the token grants.
pub record IsGranted (u : Unicode) (w : World) (request : GitRequest) (parts : List String)
    (service : String) (r : Repository) (token : InstallationToken) (receive : Bool) : Type 0 where
  pub raw : String
  pub repository_id : ℕ
  pub credentials : request.basic_auth ≡ some ("x-access-token", raw)
  pub known : get w.tokens raw ≡ some token
  pub unexpired : w.now < token.expires_at
  pub named :
      get w.repo_names (repo_name u (path_owner parts) (trim_suffix (path_repository parts) ".git"))
      ≡ some repository_id
  pub in_token : has token.repository_ids repository_id ≡ true
  pub repository : r ≡ get_or (get w.repositories repository_id) zero_repository
  pub may_push : service ≡ "git-receive-pack" → 2 ≤ granted_rank token.permissions "contents"
  pub may_fetch : service ≡ "git-upload-pack" → 1 ≤ granted_rank token.permissions "contents"
  pub one_of_two : (service ≡ "git-upload-pack") ⊎ (service ≡ "git-receive-pack")
  pub pushes : receive ≡ true → (request.method ≡ "POST") × (service ≡ "git-receive-pack")
  pub received : request.method ≡ "POST" → service ≡ "git-receive-pack" → receive ≡ true

abbrev GateOutcome : Unicode → World → GitRequest → List String → Gate → Type 0
GateOutcome u w request parts unsupported = Unit
GateOutcome u w request parts (denied status text) = 400 ≤ status
GateOutcome u w request parts (granted service r token receive) =
    IsGranted u w request parts service r token receive
GateOutcome u w request parts panics =
    (i : ℕ) × (get w.repo_names
        (repo_name u (path_owner parts) (trim_suffix (path_repository parts) ".git"))
      ≡ some i)
    × (has w.receive_locks i ≡ false)

-- One of the two services.
abbrev pub IsService : String → Type 0
IsService s = (s ≡ "git-upload-pack") ⊎ (s ≡ "git-receive-pack")

is_service_lem : (s : String) → is_service s ≡ true → IsService s
is_service_lem s h = elim (Bool-cases (s == "git-upload-pack")) [
  | inl hit ↦ inl ((eq_iff s "git-upload-pack").0 hit)
  | inr miss ↦ inr ((eq_iff s "git-receive-pack").0 (ground (arith, h, miss)))
]

-- The service of a request is one of the two.
git_service_lem :
    (request : GitRequest) (parts : List String) (service : String)
    → git_service request parts ≡ some service
    → (service ≡ "git-upload-pack") ⊎ (service ≡ "git-receive-pack")
unfolding git_service
git_service_lem request (owner ∷ repository ∷ a ∷ []) service =
    if_cases
      (λ o. o ≡ some service → (service ≡ "git-upload-pack") ⊎ (service ≡ "git-receive-pack"))
      (request.method == "POST" && is_service a) _ _
      (λ hit e. subst IsService (some-injective _ _ e) (is_service_lem a (ground (arith, hit))))
      (λ _ e. absurd (ground arith))
git_service_lem request (owner ∷ repository ∷ a ∷ b ∷ []) service =
    if_cases
      (λ o. o ≡ some service → (service ≡ "git-upload-pack") ⊎ (service ≡ "git-receive-pack"))
      ((a == "info" && b == "refs" && request.method == "GET") && is_service request.service) _ _
      (λ hit e.
        subst IsService (some-injective _ _ e)
          (is_service_lem request.service (ground (arith, hit))))
      (λ _ e. absurd (ground arith))
git_service_lem request [] service = λ e. absurd (ground arith)
git_service_lem request (a ∷ []) service = λ e. absurd (ground arith)
git_service_lem request (a ∷ b ∷ []) service = λ e. absurd (ground arith)
git_service_lem request (a ∷ b ∷ c ∷ d ∷ e ∷ rest) service = λ h. absurd (ground arith)

admit_outcome :
    (u : Unicode) (w : World) (request : GitRequest) (parts : List String) (service raw : String)
    → request.basic_auth ≡ some ("x-access-token", raw)
    → (service ≡ "git-upload-pack") ⊎ (service ≡ "git-receive-pack")
    → GateOutcome u w request parts (
        admit w request service
          (repo_name u (path_owner parts) (trim_suffix (path_repository parts) ".git"))
          raw)
unfolding admit permission_rank
admit_outcome u w request parts service raw credentials one_of_two =
    let P = GateOutcome u w request parts in
    let name = repo_name u (path_owner parts) (trim_suffix (path_repository parts) ".git") in
    option_cases P (get w.tokens raw) _ _ (λ _. omega arith)
      λ token known.
        if_cases P (not (ltb w.now token.expires_at)) _ _ (λ _. omega arith)
          λ unexpired.
            option_cases P (get w.repo_names name) _ _ (λ _. omega arith)
              λ i named.
                let contents = granted_rank token.permissions "contents" in
                if_cases P (not (has token.repository_ids i)) _ _ (λ _. omega arith)
                  λ in_token.
                    if_cases P (service == "git-receive-pack" && ltb contents 2) _ _
                      (λ _. omega arith)
                      λ may_push.
                        if_cases P (service == "git-upload-pack" && ltb contents 1) _ _
                          (λ _. omega arith)
                          λ may_fetch.
                            if_cases P
                              ((request.method == "POST" && service == "git-receive-pack")
                                && not (has w.receive_locks i))
                              _ _ (λ locked. (i, named, ground arith))
                              λ _. record {
                                raw = raw;
                                repository_id = i;
                                credentials = credentials;
                                known = known;
                                unexpired = ground arith;
                                named = named;
                                in_token = ground arith;
                                repository = refl;
                                may_push = λ is. ground (arith, eq_iff service "git-receive-pack");
                                may_fetch = λ is. ground (arith, eq_iff service "git-upload-pack");
                                one_of_two = one_of_two;
                                pushes = λ both. (
                                  ground (arith, eq_iff request.method "POST"),
                                  ground (arith, eq_iff service "git-receive-pack"),
                                );
                                received = λ post is. ground (
                                  arith,
                                  eq_iff request.method "POST",
                                  eq_iff service "git-receive-pack",
                                );
                              }

gate_outcome :
    (u : Unicode) (w : World) (request : GitRequest) (parts : List String)
    → GateOutcome u w request parts (git_gate u w request parts)
unfolding git_gate
gate_outcome u w request parts =
    let P = GateOutcome u w request parts in
    option_cases P (git_service request parts) _ _ (λ _. tt)
      λ service asked.
        option_cases P request.basic_auth _ _ (λ _. omega arith)
          λ auth given.
            if_cases P (not (auth.0 == "x-access-token")) _ _ (λ _. omega arith)
              λ user.
                let same : auth.0 ≡ "x-access-token" =
                  ground (arith, eq_iff auth.0 "x-access-token") in
                admit_outcome u w request parts service auth.1
                  (given ∙ ap (λ (x : String). some (x, auth.1)) same)
                  (git_service_lem request parts service asked)

-- A request gets to the git backend only with the user x-access-token and the value of a known token
-- that has not expired on the virtual clock, for a named repository of that token, with write access
-- to contents for git-receive-pack and read access at least for git-upload-pack; there is no third
-- service. It is treated as a push exactly where it is a POST for git-receive-pack.
pub git_gate-IsGranted :
    (u : Unicode) (w : World) (request : GitRequest) (parts : List String) (service : String)
    (r : Repository) (token : InstallationToken) (receive : Bool)
    → git_gate u w request parts ≡ granted service r token receive
    → IsGranted u w request parts service r token receive
git_gate-IsGranted u w request parts service r token receive e =
    subst (GateOutcome u w request parts) e (gate_outcome u w request parts)

-- Where each name leads to a lock, serveGit does not panic.
pub git_gate_no_panic :
    (u : Unicode) (w : World) (request : GitRequest) (parts : List String)
    → ((name : String) (i : ℕ) → get w.repo_names name ≡ some i → has w.receive_locks i ≡ true)
    → git_gate u w request parts ≢ panics
git_gate_no_panic u w request parts linked e =
    let (i, named, unlocked) =
      subst (GateOutcome u w request parts) e (gate_outcome u w request parts) in
    ground (arith, linked _ i named)
