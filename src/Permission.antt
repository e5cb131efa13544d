-- ===== src/Permission.antt =====
-- Permission levels: permissionRank, canReadPulls and selectPermissions of dtu/public.go.
pub mod Rank
pub mod Exact
use merger_herder_validation.Prelude.{
  ℕ, Bool, true, false, not, ◌&&◌, ◌||◌, Option, none, some, List, [], ◌∷◌, String, ◌==◌,
  string_key, nat_key, ltb, leb, if◌then◌else◌, get_or, if_some,
}
use merger_herder_validation.Dict.{Dict, get, items}

unfoldable pub permission_rank : String → ℕ
permission_rank level =
    if level == "read" then 1 else if level == "write" then 2 else if level == "admin" then 3 else 0

-- permissionRank(permissions[name]); a missing permission reads as ""
unfoldable pub granted_rank : Dict String String → String → ℕ
unfolding permission_rank
granted_rank permissions name = permission_rank (get_or (get permissions name) "")

unfoldable pub can_read_pulls : Dict String String → Bool
unfolding granted_rank
can_read_pulls permissions =
    leb (permission_rank "read") (granted_rank permissions "pull_requests")
    || leb (permission_rank "read") (granted_rank permissions "contents")

-- The test of one wanted permission.
unfoldable pub allows : Dict String String → String → String → Bool
unfolding permission_rank
allows granted permission level = if_some (get granted permission) (false) (λ granted_level.
    not (permission_rank level == 0 || ltb (permission_rank granted_level) (permission_rank level)))

-- The loop over the wanted permissions.
unfoldable pub allows_all : Dict String String → List (String × String) → Bool
unfolding allows
allows_all granted [] = true
allows_all granted ((permission, level) ∷ rest) =
    allows granted permission level && allows_all granted rest

-- selectPermissions; `requested` is the request's permissions as json.Marshal and json.Unmarshal
-- carry them into a map.
unfoldable pub select_permissions :
    Dict String String → Option (Dict String String) → Option (Dict String String)
unfolding allows_all
select_permissions granted none = some granted
select_permissions granted (some wanted) =
    if allows_all granted (items wanted) then some wanted else none
