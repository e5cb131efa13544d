-- ===== src/Concurrency/RunIds.antt =====
-- The ids of the runs under any number of requests.
use merger_herder_validation.Concurrency.Closed.{Reach-closed}
use merger_herder_validation.Concurrency.Soundness.{IsSound}
use merger_herder_validation.History.Effect.{RunEffect, untouched, queued, moved, cancelled}
use merger_herder_validation.Concurrency.Others.{OwnEffect}
use merger_herder_validation.World.{World, WorkflowRun}
use merger_herder_validation.Prelude.{
  ℕ, ◌≡◌, inl, get_elem?, suc, ◌+◌, some, length, inr, ◌%◌, word64, arith, set, ◌<◌, length-append,
  int64_sign, AllFrom, length-set, ap, ◌∷◌, [], AllFrom-get_elem?, AllFrom-set, ◌∙◌,
  AllFrom-append_one, lt_of_get_elem?, refl,
}
use merger_herder_validation.Concurrency.System.{System, Reach}

abbrev pub HasRunNumber : ℕ → WorkflowRun → Type 0
HasRunNumber i r = r.id ≡ suc (1000 + i) % word64

-- The counter stands 1000 above the number of the runs, and the i-th run has the id 1001 + i.
pub record IsCounted (w : World) : Type 0 where
  pub counter : w.next_run_id ≡ (1000 + length w.workflow_runs) % word64
  pub ids : AllFrom HasRunNumber 0 w.workflow_runs

IsCounted-set :
    (w w' : World) (i : ℕ) (old new : WorkflowRun)
    → get_elem? w.workflow_runs i ≡ some old
    → new.id ≡ old.id
    → w'.workflow_runs ≡ set w.workflow_runs i new
    → w'.next_run_id ≡ w.next_run_id
    → IsCounted w
    → IsCounted w'
IsCounted-set w w' i old new found same runs next h = record {
  counter = omega (arith, h.counter, next, length-set w.workflow_runs i new, ap length runs);
  ids =
      rw runs
        (AllFrom-set HasRunNumber 0 w.workflow_runs i new old found (λ k it. same ∙ it) h.ids);
}

pub RunEffect-IsCounted : (w w' : World) → RunEffect w w' → IsCounted w → IsCounted w'
RunEffect-IsCounted w w' (untouched runs active next) h = record {
  counter = rw (runs, next) h.counter;
  ids = rw runs h.ids;
}
RunEffect-IsCounted w w' (queued r fresh waits runs active next) h = record {
  counter = omega (arith, h.counter, next, length-append w.workflow_runs (r ∷ []), ap length runs);
  ids = rw runs (
      AllFrom-append_one HasRunNumber 0 (length w.workflow_runs) w.workflow_runs r (omega arith)
        h.ids (omega (arith, fresh, h.counter)));
}
RunEffect-IsCounted w w' (moved i old new found free evolves live runs active next) h =
    IsCounted-set w w' i old new found evolves.id runs next h
RunEffect-IsCounted w w' (cancelled i old found live runs active next) h =
    IsCounted-set w w' i old _ found refl runs next h

pub OwnEffect-IsCounted : (k : ℕ) (w w' : World) → OwnEffect k w w' → IsCounted w → IsCounted w'
OwnEffect-IsCounted k w w' o h = elim o.runs [
  | inl same ↦ record { counter = rw (same, o.next_run_id) h.counter; ids = rw same h.ids }
  | inr (i, old, new, found, own, evolves, live, runs) ↦
      IsCounted-set w w' i old new found evolves.id runs o.next_run_id h
]

-- From a sound state whose runs are counted from 1001, any number of requests leads only to states
-- in which two runs with one id are the same run, as long as there are fewer than 2 ^ 63 of them.
pub Reach-run_id_unique :
    (s s' : System) (i j : ℕ) (a b : WorkflowRun)
    → Reach s s'
    → IsSound s
    → IsCounted s.world
    → length s'.world.workflow_runs < int64_sign
    → get_elem? s'.world.workflow_runs i ≡ some a
    → get_elem? s'.world.workflow_runs j ≡ some b
    → a.id ≡ b.id
    → i ≡ j
Reach-run_id_unique s s' i j a b reached sound h short ei ej same =
    let h' : IsCounted s'.world =
      Reach-closed IsCounted RunEffect-IsCounted OwnEffect-IsCounted s s' reached sound h in
    omega (
      arith,
      AllFrom-get_elem? HasRunNumber 0 s'.world.workflow_runs i a h'.ids ei,
      AllFrom-get_elem? HasRunNumber 0 s'.world.workflow_runs j b h'.ids ej,
      lt_of_get_elem? s'.world.workflow_runs i a ei,
      lt_of_get_elem? s'.world.workflow_runs j b ej,
    )
