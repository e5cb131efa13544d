-- ===== src/Command/Leftover.antt =====
-- What the command leaves behind.
use merger_herder_validation.Server.Closing.{start-close}
use merger_herder_validation.Server.{Host, Act, Config, start, StartResult, start_fails, is_up}
use merger_herder_validation.Server.Resources.{held_after, IsAccounted, start-IsAccounted}
use merger_herder_validation.Prelude.{
  List, ◌≡◌, none, String, [], ℕ, if_cases, ◌==◌, option_cases, string_key, refl, some,
}
use merger_herder_validation.Machine.{Machine}
use merger_herder_validation.Command.{
  run, run_at, serve_until_signal, Outside, Ready, Flags, config_of, ready_of,
}

-- run has returned, and the command holds nothing of the host.
abbrev LeavesNothing : List Act × List String → Type 0
LeavesNothing (acts, errors) = held_after [] acts ≡ []

abbrev CanPrint : Outside → Type 0
CanPrint o = (ready : Ready) → o.print ready ≡ none

serve-LeavesNothing :
    (o : Outside) (m : Machine) (host : Host) (given : Config) (now : ℕ)
    → CanPrint o
    → LeavesNothing (serve_until_signal o (start now m host given).0 (start now m host given).1)
unfolding serve_until_signal
serve-LeavesNothing o m host given now can =
    served (start now m host given).0 (start now m host given).1 refl
      (start-IsAccounted now m host given)
  where
    served :
        (acts : List Act) (result : StartResult)
        → start now m host given ≡ (acts, result)
        → IsAccounted [] (acts, result)
        → LeavesNothing (serve_until_signal o acts result)
    served acts (start_fails error) same held = held
    served acts (is_up i) same held = rw (can (ready_of i)) (
        start-close now m host given acts i (o.world_at_signal i) (o.world_forced i) o.shutdown
          same)

-- Where run returns, after the signal that it waits for or with an error, and its addresses could be
-- written, it holds nothing of the host: no listener is open and no temporary directory is left, where
-- os.RemoveAll succeeds.
pub run-leaves_nothing :
    (o : Outside) (m : Machine) (host : Host) (flags : Flags)
    → ((ready : Ready) → o.print ready ≡ none)
    → held_after [] (run o m host flags).0 ≡ []
unfolding run run_at held_after
run-leaves_nothing o m host flags can =
    if_cases LeavesNothing (flags.initial_time == "") _ _
      (λ _. serve-LeavesNothing o m host (config_of flags (some o.time)) o.time can)
      (λ _.
        option_cases LeavesNothing (o.parse_time flags.initial_time) _ _ (λ _. refl)
          (λ now _. serve-LeavesNothing o m host (config_of flags now) o.time can))
