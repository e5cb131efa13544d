-- ===== src/Git/Gate.antt =====
-- Who may use git: isGitPath of dtu/public.go, gitService, and serveGit up to the git backend.
use merger_herder_validation.Prelude.{
  ℕ, Bool, false, not, ◌&&◌, ◌||◌, Option, none, some, List, [], ◌∷◌, String, ◌==◌, nat_key,
  string_key, if◌then◌else◌, get_or, ltb, if_some,
}
use merger_herder_validation.Text.{Unicode, has_suffix, trim_suffix}
use merger_herder_validation.Dict.{get, has}
use merger_herder_validation.Permission.{permission_rank, granted_rank}
use merger_herder_validation.World.{World, Repository, InstallationToken, zero_repository}
use merger_herder_validation.Control.Setup.{repo_name}

-- What serveGit reads of a request: the method, the query's `service`, and the user and password
-- of BasicAuth.
pub record GitRequest : Type 0 where
  pub method : String
  pub service : String
  pub basic_auth : Option (String × String)

-- parts is strings.Split(path, "/"), which is never empty.
unfoldable pub is_git_path : List String → Bool
unfolding has_suffix
is_git_path (owner ∷ repository ∷ a ∷ []) =
    has_suffix repository ".git" && (a == "git-upload-pack" || a == "git-receive-pack")
is_git_path (owner ∷ repository ∷ a ∷ b ∷ []) =
    has_suffix repository ".git" && (a == "info" && b == "refs")
is_git_path _ = false

-- The two services.
abbrev pub is_service : String → Bool
is_service s = s == "git-upload-pack" || s == "git-receive-pack"

unfoldable pub git_service : GitRequest → List String → Option String
git_service request (owner ∷ repository ∷ a ∷ []) =
    if request.method == "POST" && is_service a then some a else none
git_service request (owner ∷ repository ∷ a ∷ b ∷ []) =
    if (a == "info" && b == "refs" && request.method == "GET") && is_service request.service
    then some request.service
    else none
git_service request _ = none

-- parts[0] and parts[1]
abbrev pub path_owner : List String → String
path_owner [] = ""
path_owner (owner ∷ rest) = owner

abbrev pub path_repository : List String → String
path_repository (owner ∷ repository ∷ rest) = repository
path_repository _ = ""

-- How serveGit goes on: the 404 of an unsupported request, an error, the git backend for a
-- repository, or Go's panic on a nil mutex.
pub data Gate : Type 0 where
  unsupported : Gate
  denied : ℕ → String → Gate
  granted : String → Repository → InstallationToken → Bool → Gate
  panics : Gate

-- The checks after BasicAuth.
unfoldable pub admit : World → GitRequest → String → String → String → Gate
unfolding granted_rank
admit w request service name raw_token =
    if_some (get w.tokens raw_token) (denied 401 "Bad credentials") (λ token.
      if not (ltb w.now token.expires_at)
      then denied 401 "Bad credentials"
      else if_some (get w.repo_names name) (denied 404 "Not Found") (λ repository_id.
        let contents = granted_rank token.permissions "contents" in
        let receive_pack = request.method == "POST" && service == "git-receive-pack" in
        if not (has token.repository_ids repository_id)
        then denied 404 "Not Found"
        else if service == "git-receive-pack" && ltb contents (permission_rank "write")
        then denied 403 "Resource not accessible by integration"
        else if service == "git-upload-pack" && ltb contents (permission_rank "read")
        then denied 403 "Resource not accessible by integration"
        else if receive_pack && not (has w.receive_locks repository_id)
        then panics
        else granted service (get_or (get w.repositories repository_id) zero_repository) token
            receive_pack))

unfoldable pub git_gate : Unicode → World → GitRequest → List String → Gate
unfolding git_service repo_name trim_suffix admit
git_gate u w request parts = if_some (git_service request parts) (unsupported) (λ service.
    if_some request.basic_auth (denied 401 "Bad credentials") (λ (username, raw_token).
      if not (username == "x-access-token")
      then denied 401 "Bad credentials"
      else admit w request service
          (repo_name u (path_owner parts) (trim_suffix (path_repository parts) ".git")) raw_token))
