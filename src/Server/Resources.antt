-- ===== src/Server/Resources.antt =====
-- What an instance holds of the host.
use merger_herder_validation.Text.{◌+++◌, trim_space}
use merger_herder_validation.Machine.{CommandResult, Machine, failed, exited}
use merger_herder_validation.Server.{
  start_listening, Host, Act, undo, Config, makes_temp_dir, start_fails, removes_dir, opens, is_up,
  closes, StartResult, start, locate_backend, with_temp_dir, start_in, with_config_defaults,
  shuts_down,
}
use merger_herder_validation.Prelude.{
  List, String, Bool, if◌then◌else◌, ◌==◌, ◌∷◌, false, ◌≡◌, [], arith, option_cases, string_key,
  eq_iff, true, refl, ℕ, if_cases, not, none,
}

-- A directory or a listener that has been acquired.
pub data Resource : Type 0 where
  temp_dir listener : String → Resource

abbrev same_resource : Resource → Resource → Bool
same_resource (temp_dir a) (temp_dir b) = a == b
same_resource (listener a) (listener b) = a == b
same_resource _ _ = false

unfoldable pub drop : Resource → List Resource → List Resource
drop r [] = []
drop r (x ∷ rest) = let more = drop r rest in if same_resource r x then rest else x ∷ more

-- What is held after one act. http.Server.Shutdown closes the listener of the server.
unfoldable pub hold : List Resource → Act → List Resource
unfolding drop
hold held (makes_temp_dir dir) = temp_dir dir ∷ held
hold held (removes_dir dir) = drop (temp_dir dir) held
hold held (opens address) = listener address ∷ held
hold held (closes address) = drop (listener address) held
hold held (shuts_down address) = drop (listener address) held
hold held _ = held

unfoldable pub held_after : List Resource → List Act → List Resource
unfolding hold
held_after held [] = held
held_after held (a ∷ rest) = held_after (hold held a) rest

-- The temporary directory, where there is one.
abbrev pub own_dir : Bool → String → List Resource
own_dir temporary dir = if temporary then temp_dir dir ∷ [] else []

-- Nothing is held where Start fails; the directory and the two listeners where it starts, which is not closed.
abbrev pub IsAccounted : List Resource → List Act × StartResult → Type 0
IsAccounted held (acts, start_fails error) = held_after held acts ≡ []
IsAccounted held (acts, is_up i) =
    (i.closed ≡ none)
    × (held_after held acts
        ≡ listener i.control_listener
          ∷ listener i.public_listener
          ∷ own_dir i.remove_data_dir i.data_dir)

pub undone :
    (temporary : Bool) (dir : String) → held_after (own_dir temporary dir) (undo temporary dir) ≡ []
unfolding held_after hold drop
undone true dir = ground (arith, eq_iff dir dir)
undone false dir = refl

closed_again :
    (temporary : Bool) (dir : String) (address : String)
    → held_after (own_dir temporary dir) (opens address ∷ closes address ∷ undo temporary dir) ≡ []
unfolding held_after hold drop
closed_again true dir address = ground (arith, eq_iff address address, eq_iff dir dir)
closed_again false dir address = ground (arith, eq_iff address address)

opened :
    (temporary : Bool) (dir : String) (first : String) (second : String)
    → held_after (own_dir temporary dir) (opens first ∷ opens second ∷ [])
      ≡ listener second ∷ listener first ∷ own_dir temporary dir
unfolding held_after hold
opened temporary dir first second = refl

start_listening-IsAccounted :
    (host : Host) (config : Config) (dir : String) (temporary : Bool) (git_backend : String)
    → IsAccounted (own_dir temporary dir) (start_listening host config dir temporary git_backend)
unfolding start_listening
start_listening-IsAccounted host config dir temporary git_backend =
    let P = IsAccounted (own_dir temporary dir) in
    option_cases P (host.listen config.public_address) _ _ (λ _. undone temporary dir)
      λ public_listener _.
        option_cases P (host.listen config.control_address) _ _
          (λ _. closed_again temporary dir public_listener)
          (λ control_listener _. (refl, opened temporary dir public_listener control_listener))

locate_backend-IsAccounted :
    (host : Host) (config : Config) (dir : String) (temporary : Bool) (o : CommandResult)
    → IsAccounted (own_dir temporary dir) (locate_backend host config dir temporary o)
unfolding locate_backend
locate_backend-IsAccounted host config dir temporary (failed output error) = undone temporary dir
locate_backend-IsAccounted host config dir temporary (exited output) =
    if_cases (IsAccounted (own_dir temporary dir))
      (not (host.is_file (trim_space output +++ "/git-http-backend"))) _ _
      (λ _. undone temporary dir) (λ _. start_listening-IsAccounted host config dir temporary _)

start_in-IsAccounted :
    (m : Machine) (host : Host) (config : Config) (dir : String) (temporary : Bool)
    → IsAccounted (own_dir temporary dir) (start_in m host config dir temporary)
unfolding start_in
start_in-IsAccounted m host config dir temporary =
    option_cases (IsAccounted (own_dir temporary dir)) (m.make_dir (dir +++ "/repositories")) _ _
      (λ _. locate_backend-IsAccounted host config dir temporary _) (λ _ _. undone temporary dir)

with_temp_dir-IsAccounted :
    (dir : String) (r : List Act × StartResult)
    → IsAccounted (own_dir true dir) r
    → IsAccounted [] (with_temp_dir dir r)
unfolding held_after hold
with_temp_dir-IsAccounted dir (acts, start_fails error) nothing = nothing
with_temp_dir-IsAccounted dir (acts, is_up i) nothing = nothing

-- Where Start fails, in whatever way, it holds nothing of the host afterwards: its temporary
-- directory and the listener that it opened are given back. Where it starts, it holds its two
-- listeners, and its data directory where it made that itself, and it is not closed.
pub start-IsAccounted :
    (now : ℕ) (m : Machine) (host : Host) (given : Config) → IsAccounted [] (start now m host given)
unfolding start held_after
start-IsAccounted now m host given =
    let config = with_config_defaults now given in
    if_cases (IsAccounted []) (config.data_dir == "") _ _
      (λ _.
        option_cases (IsAccounted []) host.make_temp_dir _ _ (λ _. refl)
          (λ dir _.
            with_temp_dir-IsAccounted dir (start_in m host config dir true)
              (start_in-IsAccounted m host config dir true)))
      (λ _. start_in-IsAccounted m host config config.data_dir false)
