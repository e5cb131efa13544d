-- ===== src/History/Effect.antt =====
-- The effect of one step on the workflow runs and their claims.
use merger_herder_validation.Dict.{get, has}
use merger_herder_validation.Events.{increment}
use merger_herder_validation.Control.Cases.{Refusals}
use merger_herder_validation.Reply.{Reply}
use merger_herder_validation.Runs.{transition_action}
use merger_herder_validation.Prelude.{
  String, ◌≡◌, some, ◌++◌, ◌≢◌, ◌∷◌, [], ℕ, get_elem?, none, set, true, nat_key, arith, refl,
  if_cases, eq_iff, ◌==◌, ◌&&◌, ◌||◌, not, Bool-cases, inl, inr, string_key,
}
use merger_herder_validation.World.{World, WorkflowRun}

-- The life of a run: queued, in progress, completed; a run may be completed while it is queued.
pub data Moves : String → String → Type 0 where
  stays : (s : String) → Moves s s
  starts : Moves "queued" "in_progress"
  is_cut : Moves "queued" "completed"
  ends : Moves "in_progress" "completed"

-- The same run, later.
pub record Evolves (r r' : WorkflowRun) : Type 0 where
  pub id : r'.id ≡ r.id
  pub repository_id : r'.repository_id ≡ r.repository_id
  pub workflow_id : r'.workflow_id ≡ r.workflow_id
  pub head_branch : r'.head_branch ≡ r.head_branch
  pub head_sha : r'.head_sha ≡ r.head_sha
  pub moves : Moves r.status r'.status

-- The runs and claims after a step of the handlers, execution apart.
pub data RunEffect (w w' : World) : Type 0 where
  untouched :
      w'.workflow_runs ≡ w.workflow_runs
      → w'.active_runs ≡ w.active_runs
      → w'.next_run_id ≡ w.next_run_id
      → RunEffect w w'
  queued :
      (r : WorkflowRun)
      → r.id ≡ increment w.next_run_id
      → r.status ≡ "queued"
      → w'.workflow_runs ≡ w.workflow_runs ++ r ∷ []
      → w'.active_runs ≡ w.active_runs
      → w'.next_run_id ≡ increment w.next_run_id
      → RunEffect w w'
  moved :
      (i : ℕ) (old new : WorkflowRun)
      → get_elem? w.workflow_runs i ≡ some old
      → get w.active_runs old.id ≡ none
      → Evolves old new
      → old.status ≢ "completed"
      → w'.workflow_runs ≡ set w.workflow_runs i new
      → w'.active_runs ≡ w.active_runs
      → w'.next_run_id ≡ w.next_run_id
      → RunEffect w w'
  cancelled :
      (i : ℕ) (old : WorkflowRun)
      → get_elem? w.workflow_runs i ≡ some old
      → old.status ≢ "completed"
      → w'.workflow_runs ≡ set w.workflow_runs i (record old { cancellation_requested = true })
      → ((k : ℕ) → has w'.active_runs k ≡ has w.active_runs k)
      → w'.next_run_id ≡ w.next_run_id
      → RunEffect w w'

-- A reply that comes with the world as it was, or with such a step.
abbrev pub Does : World → World × Reply → Type 0
Does w r = RunEffect w r.0

pub refused-Does : (w : World) → Refusals (Does w) w
refused-Does w status text h = untouched refl refl refl

pub queued-ne-completed : ◌≢◌ {A = String} "queued" "completed"
queued-ne-completed = ground (arith, eq_iff "queued" "completed")

pub in_progress-ne-completed : ◌≢◌ {A = String} "in_progress" "completed"
in_progress-ne-completed = ground (arith, eq_iff "in_progress" "completed")

-- A move that leaves a status which is not the last.
abbrev pub IsLive : String → String → Type 0
IsLive old status = Moves old status × (old ≢ "completed")

starts-IsLive : (old status : String) → old ≡ "queued" → status ≡ "in_progress" → IsLive old status
starts-IsLive old status e f = rw (e, f) (starts, queued-ne-completed)

is_cut-IsLive : (old status : String) → old ≡ "queued" → status ≡ "completed" → IsLive old status
is_cut-IsLive old status e f = rw (e, f) (is_cut, queued-ne-completed)

ends-IsLive : (old status : String) → old ≡ "in_progress" → status ≡ "completed" → IsLive old status
ends-IsLive old status e f = rw (e, f) (ends, in_progress-ne-completed)

-- A transition that is allowed moves the run on.
pub transition_action-IsLive :
    (old status conclusion action : String)
    → transition_action old status conclusion ≡ some action
    → IsLive old status
unfolding transition_action
transition_action-IsLive old status conclusion action =
    if_cases (λ o. o ≡ some action → IsLive old status)
      (old == "queued" && status == "in_progress" && conclusion == "") _ _
      (λ t _.
        starts-IsLive old status (ground (arith, eq_iff old "queued"))
          (ground (arith, eq_iff status "in_progress")))
      λ _.
        if_cases (λ o. o ≡ some action → IsLive old status)
          ((old == "queued" || old == "in_progress")
            && status == "completed"
            && not (conclusion == ""))
          _ _
          (λ t _. elim (Bool-cases (old == "queued")) [
            | inl q ↦
                is_cut-IsLive old status ((eq_iff old "queued").0 q)
                  (ground (arith, eq_iff status "completed"))
            | inr q ↦
                ends-IsLive old status (ground (arith, eq_iff old "in_progress"))
                  (ground (arith, eq_iff status "completed"))
          ])
          (λ _ h. absurd (ground arith))
