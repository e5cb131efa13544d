-- ===== src/Server/Closing.antt =====
-- What close gives back, and that it runs once.
use merger_herder_validation.Machine.{Machine}
use merger_herder_validation.Dict.{items}
use merger_herder_validation.Public.Actions.{process_of}
use merger_herder_validation.World.{ActiveRun, World}
use merger_herder_validation.Prelude.{
  List, Bool, Option, ℕ, String, ◌++◌, ◌≡◌, ◌∷◌, if◌then◌else◌, option_cases, is_some, [], refl,
  true, arith, if_cases, false, some, none, eq_iff, ◌∙◌, ap, subst,
}
use merger_herder_validation.Server.{
  stop_runs, Act, closes, removes_dir, close, stop_active_runs, Instance, shuts_down, Shutdown,
  Host, Config, start, is_up,
}
use merger_herder_validation.Server.Resources.{
  held_after, hold, drop, own_dir, listener, IsAccounted, start-IsAccounted, Resource, undone,
}

held_after-append :
    (held : List Resource) (a b : List Act)
    → held_after held (a ++ b) ≡ held_after (held_after held a) b
unfolding held_after
held_after-append held [] b = refl
held_after-append held (x ∷ rest) b = held_after-append (hold held x) rest b

held_after-then :
    (held left : List Resource) (a b : List Act)
    → held_after held a ≡ left
    → held_after held (a ++ b) ≡ held_after left b
held_after-then held left a b e = held_after-append held a b ∙ ap (λ h. held_after h b) e

-- To stop a run takes no resource and gives none back.
held_after-stop_runs :
    (held : List Resource) (force : Bool) (runs : List (ℕ × ActiveRun))
    → held_after held (stop_runs force runs) ≡ held
unfolding held_after hold stop_runs
held_after-stop_runs held force [] = refl
held_after-stop_runs held force ((run_id, active) ∷ rest) =
    let ih = held_after-stop_runs held force rest in
    option_cases (λ acts. held_after held acts ≡ held) (process_of active) _ _ (λ _. ih)
      (λ process _.
        if_cases (λ act. held_after (hold held act) (stop_runs force rest) ≡ held) force _ _
          (λ _. ih) (λ _. ih))

shut :
    (temporary : Bool) (dir : String) (first second : String)
    → drop
        (listener second)
        (drop (listener first) (listener second ∷ listener first ∷ own_dir temporary dir))
      ≡ own_dir temporary dir
unfolding drop
shut temporary dir first second =
    ground (arith, eq_iff first second, eq_iff first first, eq_iff second second)

-- To close a listener that Shutdown has closed.
close_again :
    (temporary : Bool) (dir : String) (address : String)
    → drop (listener address) (own_dir temporary dir) ≡ own_dir temporary dir
unfolding drop
close_again true dir address = refl
close_again false dir address = refl

held_after-close_public :
    (temporary : Bool) (dir : String) (error : Option String) (address : String)
    → held_after (own_dir temporary dir) (if is_some error then closes address ∷ [] else [])
      ≡ own_dir temporary dir
unfolding held_after hold
held_after-close_public temporary dir none address = refl
held_after-close_public temporary dir (some e) address = close_again temporary dir address

held_after-close_control :
    (temporary : Bool) (dir : String) (error : Option String) (runs : List (ℕ × ActiveRun))
    (address : String)
    → held_after
        (own_dir temporary dir)
        (if is_some error then stop_runs true runs ++ closes address ∷ [] else [])
      ≡ own_dir temporary dir
unfolding held_after hold
held_after-close_control temporary dir none runs address = refl
held_after-close_control temporary dir (some e) runs address =
    let own = own_dir temporary dir in
    held_after-then own own (stop_runs true runs) (closes address ∷ [])
      (held_after-stop_runs own true runs)
    ∙ close_again temporary dir address

closed_down :
    (temporary : Bool) (dir first second : String) (public_error control_error : Option String)
    (runs forced : List (ℕ × ActiveRun))
    → held_after (listener second ∷ listener first ∷ own_dir temporary dir) (
        stop_runs false runs
        ++ (shuts_down first
            ∷ shuts_down second
            ∷ ((if is_some public_error then closes first ∷ [] else [])
                ++ ((if is_some control_error
                      then stop_runs true forced ++ closes second ∷ []
                      else [])
                    ++ (if temporary then removes_dir dir ∷ [] else [])))))
      ≡ []
unfolding held_after hold
closed_down temporary dir first second public_error control_error runs forced =
    let own = own_dir temporary dir in
    let c = if temporary then removes_dir dir ∷ [] else [] in
    let y = if is_some control_error then stop_runs true forced ++ closes second ∷ [] else [] in
    let b = y ++ c in
    let x = if is_some public_error then closes first ∷ [] else [] in
    let a = x ++ b in
    held_after-then _ _ (stop_runs false runs) (shuts_down first ∷ shuts_down second ∷ a)
      (held_after-stop_runs _ false runs)
    ∙ ap (λ h. held_after h a) (shut temporary dir first second)
    ∙ held_after-then own own x b (held_after-close_public temporary dir public_error first)
    ∙ held_after-then own own y c
        (held_after-close_control temporary dir control_error forced second)
    ∙ undone temporary dir

-- The first close, from what a started instance holds.
closed_once :
    (i : Instance) (w forced : World) (s : Shutdown)
    → i.closed ≡ none
    → held_after
        (listener i.control_listener
          ∷ listener i.public_listener
          ∷ own_dir i.remove_data_dir i.data_dir)
        (close i w forced s).1
      ≡ []
unfolding close stop_active_runs
closed_once i w forced s fresh = rw fresh (
    closed_down i.remove_data_dir i.data_dir i.public_listener i.control_listener s.public_error
      s.control_error (items w.active_runs) (items forced.active_runs))

-- An instance that Start gave and that close ended holds nothing of the host any more: both listeners
-- are closed and a temporary directory is removed, where os.RemoveAll succeeds. So it is whatever runs
-- are under way, and also where a shutdown or a server fails.
pub start-close :
    (now : ℕ) (m : Machine) (host : Host) (given : Config) (acts : List Act) (i : Instance)
    (w forced : World) (s : Shutdown)
    → start now m host given ≡ (acts, is_up i)
    → held_after [] (acts ++ (close i w forced s).1) ≡ []
start-close now m host given acts i w forced s started =
    let (fresh, held) = subst (IsAccounted []) started (start-IsAccounted now m host given) in
    held_after-then [] _ acts _ held ∙ closed_once i w forced s fresh

-- A second close does nothing, and returns what the first one returned.
close-close :
    (i : Instance) (w forced w' forced' : World) (s s' : Shutdown)
    → close (close i w forced s).0 w' forced' s'
      ≡ ((close i w forced s).0, [], (close i w forced s).2)
unfolding close
close-close i w forced w' forced' s s' =
    option_cases
      (λ (x : Instance × List Act × List String). close x.0 w' forced' s' ≡ (x.0, [], x.2)) i.closed
      _ _ (λ _. refl) (λ before there. rw there refl)
