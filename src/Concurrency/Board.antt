-- ===== src/Concurrency/Board.antt =====
-- An abstract view of the workflow runs: a board of their statuses, each run at its place.
use merger_herder_validation.Concurrency.Others.{OwnEffect}
use merger_herder_validation.History.Effect.{
  Moves, RunEffect, untouched, stays, queued, moved, starts, is_cut, cancelled, ends,
}
use merger_herder_validation.Concurrency.System.{System, Reach}
use merger_herder_validation.World.{World, WorkflowRun}
use merger_herder_validation.Prelude.{
  String, List, ◌≡◌, ℕ, arith, map, ◌++◌, eq_iff, ◌⊎◌, ◌∷◌, get_elem?, refl, [], inl, ap, inr, some,
  set, ◌∙◌, subst, sym, map-set, map-append, get_elem?-map, get_elem?-map_inv, set_same,
}
use merger_herder_validation.Concurrency.Closed.{Reach-closed}
use merger_herder_validation.Concurrency.Soundness.{IsSound}

-- The statuses of a run, and what may follow each.
pub data Status : Type 0 where
  is_queued is_in_progress is_completed : Status

pub data Follows : Status → Status → Type 0 where
  begins : Follows is_queued is_in_progress
  is_cut_short : Follows is_queued is_completed
  is_concluded : Follows is_in_progress is_completed

-- A run is added at the end, or one run gets a status that may follow its own.
pub data BoardStep (b b' : List Status) : Type 0 where
  adds : b' ≡ b ++ is_queued ∷ [] → BoardStep b b'
  advances :
      (i : ℕ) (s s' : Status)
      → get_elem? b i ≡ some s
      → Follows s s'
      → b' ≡ set b i s'
      → BoardStep b b'

-- The boards that any number of steps lead to.
pub data BoardReach (b : List Status) : List Status → Type 0 where
  at_start : BoardReach b b
  step_on : {c d : List Status} → BoardReach b c → BoardStep c d → BoardReach b d

abbrev pub status_name : Status → String
status_name is_queued = "queued"
status_name is_in_progress = "in_progress"
status_name is_completed = "completed"

-- The board that the runs of a world show.
abbrev pub Shows : World → List Status → Type 0
Shows w b = map (λ (r : WorkflowRun). r.status) w.workflow_runs ≡ map status_name b

-- A board that can be reached.
abbrev ShowsFrom : List Status → World → Type 0
ShowsFrom b w = (c : List Status) × BoardReach b c × Shows w c

status_name-queued : (s : Status) → status_name s ≡ "queued" → s ≡ is_queued
status_name-queued is_queued e = refl
status_name-queued is_in_progress e = absurd (ground (arith, eq_iff "in_progress" "queued"))
status_name-queued is_completed e = absurd (ground (arith, eq_iff "completed" "queued"))

status_name-in_progress : (s : Status) → status_name s ≡ "in_progress" → s ≡ is_in_progress
status_name-in_progress is_queued e = absurd (ground (arith, eq_iff "queued" "in_progress"))
status_name-in_progress is_in_progress e = refl
status_name-in_progress is_completed e = absurd (ground (arith, eq_iff "completed" "in_progress"))

-- A move of a run is a step of its status, or none.
Moves-Follows :
    (s : Status) (a c : String)
    → Moves a c
    → status_name s ≡ a
    → (c ≡ a) ⊎ ((s' : Status) × Follows s s' × (status_name s' ≡ c))
Moves-Follows s a _ (stays _) e = inl refl
Moves-Follows s _ _ starts e = inr (
  is_in_progress,
  subst (λ x. Follows x is_in_progress) (sym (status_name-queued s e)) begins,
  refl,
)
Moves-Follows s _ _ is_cut e = inr (
  is_completed,
  subst (λ x. Follows x is_completed) (sym (status_name-queued s e)) is_cut_short,
  refl,
)
Moves-Follows s _ _ ends e = inr (
  is_completed,
  subst (λ x. Follows x is_completed) (sym (status_name-in_progress s e)) is_concluded,
  refl,
)

-- One run that moves on.
ShowsFrom-set :
    (b : List Status) (w w' : World) (i : ℕ) (old new : WorkflowRun)
    → get_elem? w.workflow_runs i ≡ some old
    → Moves old.status new.status
    → w'.workflow_runs ≡ set w.workflow_runs i new
    → ShowsFrom b w
    → ShowsFrom b w'
ShowsFrom-set b w w' i old new found moves runs (c, reached, shows) =
    let status_of : WorkflowRun → String = λ r. r.status in
    let changed : map status_of w'.workflow_runs ≡ set (map status_name c) i new.status =
      ap (map status_of) runs
      ∙ map-set status_of w.workflow_runs i new
      ∙ ap (λ l. set l i new.status) shows in
    let there : get_elem? (map status_name c) i ≡ some old.status =
      ap (λ l. get_elem? l i) (sym shows) ∙ get_elem?-map status_of w.workflow_runs i old found in
    let (s, at, named) = get_elem?-map_inv status_name c i old.status there in
    elim (Moves-Follows s old.status new.status moves named) [
      | inl same ↦ (
        c,
        reached,
        changed
            ∙ ap (set (map status_name c) i) same
            ∙ set_same (map status_name c) i old.status there,
      )
      | inr (s', follows, renamed) ↦ (
        set c i s',
        step_on reached (advances i s s' at follows refl),
        changed ∙ ap (set (map status_name c) i) (sym renamed) ∙ sym (map-set status_name c i s'),
      )
    ]

RunEffect-ShowsFrom :
    (b : List Status) (w w' : World) → RunEffect w w' → ShowsFrom b w → ShowsFrom b w'
RunEffect-ShowsFrom b w w' (untouched runs active next) (c, reached, shows) =
    (c, reached, rw runs shows)
RunEffect-ShowsFrom b w w' (queued r fresh waits runs active next) (c, reached, shows) = (
  c ++ is_queued ∷ [],
  step_on reached (adds refl),
  ap (map (λ (x : WorkflowRun). x.status)) runs
      ∙ map-append _ w.workflow_runs (r ∷ [])
      ∙ rw (shows, waits) (sym (map-append status_name c (is_queued ∷ []))),
)
RunEffect-ShowsFrom b w w' (moved i old new found free evolves live runs active next) h =
    ShowsFrom-set b w w' i old new found evolves.moves runs h
RunEffect-ShowsFrom b w w' (cancelled i old found live runs active next) h =
    ShowsFrom-set b w w' i old _ found (stays old.status) runs h

OwnEffect-ShowsFrom :
    (b : List Status) (k : ℕ) (w w' : World) → OwnEffect k w w' → ShowsFrom b w → ShowsFrom b w'
OwnEffect-ShowsFrom b k w w' o h = elim o.runs [
  | inl same ↦ (h.0, h.1, rw same h.2)
  | inr (i, old, new, found, own, evolves, live, runs) ↦
      ShowsFrom-set b w w' i old new found evolves.moves runs h
]

-- The requests refine the board: where the runs show a board, and requests lead to other runs, in
-- whatever order their critical sections come, then these show a board that its steps lead to. The
-- start is a sound state.
pub Reach-BoardReach :
    (s s' : System) (b : List Status)
    → Reach s s'
    → IsSound s
    → Shows s.world b
    → (c : List Status) × BoardReach b c × Shows s'.world c
Reach-BoardReach s s' b reached sound shows =
    Reach-closed (ShowsFrom b) (RunEffect-ShowsFrom b) (OwnEffect-ShowsFrom b) s s' reached sound
      (b, at_start, shows)
