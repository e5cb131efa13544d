-- ===== src/Concurrency/Holds.antt =====
-- What an execution under way relies on, and that no other handler breaks it.
use merger_herder_validation.Dict.{get, has}
use merger_herder_validation.History.Effect.{RunEffect, untouched, queued, moved, cancelled}
use merger_herder_validation.Execution.{Claim}
use merger_herder_validation.Prelude.{
  ℕ, String, get_elem?, ◌≡◌, get_elem?-append, some, set, ◌∷◌, [], none, true, arith, nat_key,
  Bool-cases, ◌==◌, get_elem?-set_ne, inl, ◌∙◌, nat_beq_iff, get_elem?-set_self, inr, sym,
}
use merger_herder_validation.World.{World, WorkflowRun}

-- Between the claim and the start of the runner, and between that and its end.
pub data Phase : Type 0 where
  preparing running : Phase

abbrev pub phase_status : Phase → String
phase_status preparing = "queued"
phase_status running = "in_progress"

pub record Executor : Type 0 where
  pub claim : Claim
  pub phase : Phase

-- The run that the execution has claimed.
abbrev pub run_id_of : Executor → ℕ
run_id_of e = e.claim.run.id

-- The index that it keeps still leads to its run, which is claimed and has the phase's status.
pub record Holds (e : Executor) (w : World) : Type 0 where
  pub run : WorkflowRun
  pub at_index : get_elem? w.workflow_runs e.claim.index ≡ some run
  pub same_id : run.id ≡ run_id_of e
  pub claimed : has w.active_runs (run_id_of e) ≡ true
  pub status : run.status ≡ phase_status e.phase

Holds-moved :
    (e : Executor) (w w' : World) (i : ℕ) (old new : WorkflowRun)
    → get_elem? w.workflow_runs i ≡ some old
    → get w.active_runs old.id ≡ none
    → w'.workflow_runs ≡ set w.workflow_runs i new
    → w'.active_runs ≡ w.active_runs
    → Holds e w
    → Holds e w'
Holds-moved e w w' i old new found free runs active h = record {
  run = h.run;
  at_index = rw runs (
      get_elem?-set_ne w.workflow_runs i e.claim.index new (λ same. absurd (clash same))
      ∙ h.at_index);
  same_id = h.same_id;
  claimed = rw active h.claimed;
  status = h.status;
}
  where
    clash : i ≡ e.claim.index → ⊥
    clash same = ground (arith, h.at_index, found, free, h.claimed, h.same_id)

Holds-cancelled :
    (e : Executor) (w w' : World) (i : ℕ) (old : WorkflowRun)
    → get_elem? w.workflow_runs i ≡ some old
    → w'.workflow_runs ≡ set w.workflow_runs i (record old { cancellation_requested = true })
    → ((k : ℕ) → has w'.active_runs k ≡ has w.active_runs k)
    → Holds e w
    → Holds e w'
Holds-cancelled e w w' i old found runs active h = elim (Bool-cases (i == e.claim.index)) [
  | inl here ↦
      let same : i ≡ e.claim.index = (nat_beq_iff i e.claim.index).0 here in
      let it : old ≡ h.run = ground (arith, h.at_index) in
      record {
        run = record old { cancellation_requested = true };
        at_index = rw (runs, ← same) (get_elem?-set_self w.workflow_runs i _ old found);
        same_id = rw it h.same_id;
        claimed = active (run_id_of e) ∙ h.claimed;
        status = rw it h.status;
      }
  | inr there ↦ record {
    run = h.run;
    at_index =
        rw runs (get_elem?-set_ne w.workflow_runs i e.claim.index _ (ground arith) ∙ h.at_index);
    same_id = h.same_id;
    claimed = active (run_id_of e) ∙ h.claimed;
    status = h.status;
  }
]

-- A step of a handler leaves an execution what it relies on.
pub RunEffect-Holds : (e : Executor) (w w' : World) → RunEffect w w' → Holds e w → Holds e w'
RunEffect-Holds e w w' (untouched runs active next) h = record {
  run = h.run;
  at_index = rw runs h.at_index;
  same_id = h.same_id;
  claimed = rw active h.claimed;
  status = h.status;
}
RunEffect-Holds e w w' (queued r fresh waits runs active next) h = record {
  run = h.run;
  at_index = rw runs (get_elem?-append w.workflow_runs (r ∷ []) e.claim.index h.run h.at_index);
  same_id = h.same_id;
  claimed = rw active h.claimed;
  status = h.status;
}
RunEffect-Holds e w w' (moved i old new found free evolves live runs active next) h =
    Holds-moved e w w' i old new found free runs active h
RunEffect-Holds e w w' (cancelled i old found live runs active next) h =
    Holds-cancelled e w w' i old found runs active h

-- Nor does it make a claim.
pub RunEffect-has :
    (w w' : World)
    → RunEffect w w'
    → (k : ℕ) → has w'.active_runs k ≡ true
    → has w.active_runs k ≡ true
RunEffect-has w w' (untouched runs active next) k h = rw (← active) h
RunEffect-has w w' (queued r fresh waits runs active next) k h = rw (← active) h
RunEffect-has w w' (moved i old new found free evolves live runs active next) k h = rw (← active) h
RunEffect-has w w' (cancelled i old found live runs active next) k h = sym (active k) ∙ h
