-- ===== src/Concurrency/Others.antt =====
-- The critical sections of an execution: what they do to its own run, and that they leave every
-- other execution what it relies on.
use merger_herder_validation.History.Effect.{Evolves}
use merger_herder_validation.Dict.{get}
use merger_herder_validation.Concurrency.Holds.{Executor, run_id_of, Holds}
use merger_herder_validation.World.{World, WorkflowRun}
use merger_herder_validation.Prelude.{
  ℕ, ◌≡◌, get_elem?, ◌≢◌, ◌⊎◌, some, set, arith, inl, nat_key, inr, get_elem?-set_ne, ◌∙◌,
  string_key,
}

-- A step of the execution of run `k`: at most that run moves on, and at most its claim changes.
pub record OwnEffect (k : ℕ) (w w' : World) : Type 0 where
  pub runs :
      (w'.workflow_runs ≡ w.workflow_runs)
      ⊎ ((i : ℕ) × (r r' : WorkflowRun) × (get_elem? w.workflow_runs i ≡ some r)
          × (r.id ≡ k)
          × Evolves r r'
          × (r.status ≢ "completed")
          × (w'.workflow_runs ≡ set w.workflow_runs i r'))
  pub active : (j : ℕ) → k ≢ j → get w'.active_runs j ≡ get w.active_runs j
  pub next_run_id : w'.next_run_id ≡ w.next_run_id

-- An execution of another run keeps what it relies on.
pub OwnEffect-Holds :
    (k : ℕ) (e : Executor) (w w' : World)
    → OwnEffect k w w'
    → k ≢ run_id_of e
    → Holds e w
    → Holds e w'
OwnEffect-Holds k e w w' o other h = elim o.runs [
  | inl same ↦ record {
    run = h.run;
    at_index = rw same h.at_index;
    same_id = h.same_id;
    claimed = rw (o.active (run_id_of e) other) h.claimed;
    status = h.status;
  }
  | inr (i, r, r', found, own, evolves, live, runs) ↦ record {
    run = h.run;
    at_index = rw runs (
        get_elem?-set_ne w.workflow_runs i e.claim.index r'
          (λ same. other (clash i r same found own))
        ∙ h.at_index);
    same_id = h.same_id;
    claimed = rw (o.active (run_id_of e) other) h.claimed;
    status = h.status;
  }
]
  where
    clash :
        (i : ℕ) (r : WorkflowRun)
        → i ≡ e.claim.index
        → get_elem? w.workflow_runs i ≡ some r
        → r.id ≡ k
        → k ≡ run_id_of e
    clash i r same found own = ground (arith, h.at_index, h.same_id)
