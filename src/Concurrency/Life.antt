-- ===== src/Concurrency/Life.antt =====
-- The life of a workflow run under any number of requests.
use merger_herder_validation.Concurrency.Closed.{Reach-closed}
use merger_herder_validation.Concurrency.Others.{OwnEffect}
use merger_herder_validation.Concurrency.Soundness.{IsSound}
use merger_herder_validation.History.Effect.{
  stays, Evolves, Moves, RunEffect, untouched, queued, moved, cancelled, starts,
  queued-ne-completed, is_cut, in_progress-ne-completed, ends,
}
use merger_herder_validation.Prelude.{
  String, ℕ, ◌∙◌, true, ap, ◌≡◌, get_elem?, refl, inl, some, ◌≢◌, inr, get_elem?-append, set,
  Bool-cases, ◌∷◌, [], ◌==◌, nat_beq_iff, arith, get_elem?-set_self, get_elem?-set_ne, nat_key,
  eq_iff,
}
use merger_herder_validation.Concurrency.System.{System, Reach}
use merger_herder_validation.World.{WorkflowRun, World}

-- The same run, later: it moves on along its life, and once it is completed it stays as it is.
pub record IsLater (r r' : WorkflowRun) : Type 0 where
  pub evolves : Evolves r r'
  pub frozen : r.status ≡ "completed" → r' ≡ r

-- What may come after a start.
started-Moves : (b c : String) → Moves b c → b ≡ "in_progress" → Moves "queued" c
started-Moves b _ (stays _) e = rw e starts
started-Moves _ _ starts e = absurd (ground (arith, eq_iff "queued" "in_progress"))
started-Moves _ _ is_cut e = absurd (ground (arith, eq_iff "queued" "in_progress"))
started-Moves _ _ ends e = is_cut

-- Nothing comes after the end.
ended-Moves : (b c : String) → Moves b c → b ≡ "completed" → c ≡ "completed"
ended-Moves b _ (stays _) e = e
ended-Moves _ _ starts e = absurd (queued-ne-completed e)
ended-Moves _ _ is_cut e = absurd (queued-ne-completed e)
ended-Moves _ _ ends e = absurd (in_progress-ne-completed e)

Moves-trans : (a b c : String) → Moves a b → Moves b c → Moves a c
Moves-trans a _ c (stays _) n = n
Moves-trans _ _ c starts n = started-Moves "in_progress" c n refl
Moves-trans _ _ c is_cut n = rw (ended-Moves "completed" c n refl) is_cut
Moves-trans _ _ c ends n = rw (ended-Moves "completed" c n refl) ends

IsLater-self : (r : WorkflowRun) → IsLater r r
IsLater-self r = record {
  evolves = record {
    id = refl;
    repository_id = refl;
    workflow_id = refl;
    head_branch = refl;
    head_sha = refl;
    moves = stays r.status;
  };
  frozen = λ _. refl;
}

IsLater-trans : (a b c : WorkflowRun) → IsLater a b → IsLater b c → IsLater a c
IsLater-trans a b c x y = record {
  evolves = record {
    id = y.evolves.id ∙ x.evolves.id;
    repository_id = y.evolves.repository_id ∙ x.evolves.repository_id;
    workflow_id = y.evolves.workflow_id ∙ x.evolves.workflow_id;
    head_branch = y.evolves.head_branch ∙ x.evolves.head_branch;
    head_sha = y.evolves.head_sha ∙ x.evolves.head_sha;
    moves = Moves-trans a.status b.status c.status x.evolves.moves y.evolves.moves;
  };
  frozen = λ e. y.frozen (ap (λ (r : WorkflowRun). r.status) (x.frozen e) ∙ e) ∙ x.frozen e;
}

-- The run at index `i` is a later state of `r`.
abbrev pub HasLater : ℕ → WorkflowRun → World → Type 0
HasLater i r w = (r' : WorkflowRun) × (get_elem? w.workflow_runs i ≡ some r') × IsLater r r'

-- One run that moves on while it is live.
HasLater-set :
    (i j : ℕ) (r old new : WorkflowRun) (w w' : World)
    → get_elem? w.workflow_runs j ≡ some old
    → Evolves old new
    → old.status ≢ "completed"
    → w'.workflow_runs ≡ set w.workflow_runs j new
    → HasLater i r w
    → HasLater i r w'
HasLater-set i j r old new w w' found evolves live runs (r', at_i, later) =
    elim (Bool-cases (j == i)) [
      | inl hit ↦
          let same : j ≡ i = (nat_beq_iff j i).0 hit in
          let it : old ≡ r' = ground (arith, at_i, found) in
          (
            new,
            rw (runs, ← same) (get_elem?-set_self w.workflow_runs j new old found),
            IsLater-trans r r' new later
                (rw (← it) (record { evolves = evolves; frozen = λ e. absurd (live e) })),
          )
      | inr miss ↦ (
        r',
        rw runs (get_elem?-set_ne w.workflow_runs j i new (ground (arith, nat_beq_iff j i)) ∙ at_i),
        later,
      )
    ]

asked_Evolves : (r : WorkflowRun) → Evolves r (record r { cancellation_requested = true })
asked_Evolves r = record {
  id = refl;
  repository_id = refl;
  workflow_id = refl;
  head_branch = refl;
  head_sha = refl;
  moves = stays r.status;
}

RunEffect-HasLater :
    (i : ℕ) (r : WorkflowRun) (w w' : World) → RunEffect w w' → HasLater i r w → HasLater i r w'
RunEffect-HasLater i r w w' (untouched runs active next) (r', at_i, later) =
    (r', rw runs at_i, later)
RunEffect-HasLater i r w w' (queued new fresh waits runs active next) (r', at_i, later) =
    (r', rw runs (get_elem?-append w.workflow_runs (new ∷ []) i r' at_i), later)
RunEffect-HasLater i r w w' (moved j old new found free evolves live runs active next) h =
    HasLater-set i j r old new w w' found evolves live runs h
RunEffect-HasLater i r w w' (cancelled j old found live runs active next) h =
    HasLater-set i j r old _ w w' found (asked_Evolves old) live runs h

OwnEffect-HasLater :
    (i : ℕ) (r : WorkflowRun) (k : ℕ) (w w' : World)
    → OwnEffect k w w'
    → HasLater i r w
    → HasLater i r w'
OwnEffect-HasLater i r k w w' o (r', at_i, later) = elim o.runs [
  | inl same ↦ (r', rw same at_i, later)
  | inr (j, old, new, found, own, evolves, live, runs) ↦
      HasLater-set i j r old new w w' found evolves live runs (r', at_i, later)
]

-- A run stays at its index whatever the requests do: its id, repository, workflow, branch and commit
-- do not change, its status only moves from queued to in progress to completed (or is cut short),
-- and a completed run does not change at all. The start is a sound state.
pub Reach-IsLater :
    (s s' : System) (i : ℕ) (r : WorkflowRun)
    → Reach s s'
    → IsSound s
    → get_elem? s.world.workflow_runs i ≡ some r
    → (r' : WorkflowRun) × (get_elem? s'.world.workflow_runs i ≡ some r') × IsLater r r'
Reach-IsLater s s' i r reached h found =
    Reach-closed (HasLater i r) (RunEffect-HasLater i r) (OwnEffect-HasLater i r) s s' reached h
      (r, found, IsLater-self r)
