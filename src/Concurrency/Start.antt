-- ===== src/Concurrency/Start.antt =====
-- The start and the end of a runner, where the execution has what it relies on: what the second and
-- the third critical section of executeWorkflowRun give.
use merger_herder_validation.Concurrency.Sections.{commit-freed-OwnEffect, commit-freed-free}
use merger_herder_validation.History.Runs.{
  commit_run-workflow_runs, commit_run-active_runs, commit_run-next_run_id,
}
use merger_herder_validation.History.Effect.{
  Moves, queued-ne-completed, Evolves, starts, is_cut, ends, in_progress-ne-completed,
}
use merger_herder_validation.Reply.{Reply}
use merger_herder_validation.Concurrency.Others.{OwnEffect}
use merger_herder_validation.Runs.{commit_run}
use merger_herder_validation.Concurrency.Holds.{Executor, preparing, Holds, running}
use merger_herder_validation.Dict.{has, remove, put, get-remove, get-put, get}
use merger_herder_validation.Prelude.{
  ℕ, Option, ◌≡◌, get_elem?, Bool, String, if_cases, ◌≢◌, false, some, nat_key, inl, not, arith,
  inr, get_elem?-set_self, ◌==◌, ◌⊎◌, refl, get_or, eq_iff, nat_beq_iff, option_cases, string_key,
}
use merger_herder_validation.World.{World, WorkflowRun, zero_active_run}
use merger_herder_validation.Execution.{
  Claim, start_run, finish_run, under_way, Started, stopped, conclude,
}

abbrev pub preparing_of : Claim → Executor
preparing_of c = record { claim = c; phase = preparing }

abbrev pub running_of : Claim → Executor
running_of c = record { claim = c; phase = running }

-- The claim is gone.
abbrev pub IsFree : World → Claim → Type 0
IsFree w c = has w.active_runs c.run.id ≡ false

-- The execution has ended, and its claim is released; or its runner is under way. Neither is the
-- panic on an index out of range, nor the refusal of a run that is no longer queued.
abbrev pub StartOutcome : World → Claim → Option Started → Type 0
StartOutcome w c o =
    ((w' : World) × (reply : Reply) × (o ≡ some (stopped w' reply))
      × (reply.status ≢ 409)
      × OwnEffect c.run.id w w'
      × IsFree w' c)
    ⊎ ((w' : World) × (o ≡ some (under_way w')) × OwnEffect c.run.id w w' × Holds (running_of c) w')

-- There is a reply, and the claim is released; this is not the panic on an index out of range.
abbrev pub FinishOutcome : World → Claim → Option (World × Reply) → Type 0
FinishOutcome w c o =
    (w' : World) × (reply : Reply) × (o ≡ some (w', reply)) × OwnEffect c.run.id w w' × IsFree w' c

module _ (w : World) (c : Claim) where
  -- The world in which the runner is under way.
  abbrev launched : WorkflowRun → ℕ → World
  launched r p =
      let w' =
        commit_run w c.index c.repository (record r { status = "in_progress" }) "in_progress" in
      record w' {
        active_runs = put w'.active_runs r.id (record {
          command = some (record { process = some p });
          cancellation_signalled = false;
        });
      }

  status_set-Evolves :
      (r : WorkflowRun) (status conclusion logs : String)
      → Moves r.status status
      → Evolves r (record r { status = status; conclusion = conclusion; logs = logs })
  status_set-Evolves r status conclusion logs m = record {
    id = refl;
    repository_id = refl;
    workflow_id = refl;
    head_branch = refl;
    head_sha = refl;
    moves = m;
  }

  queued_live : (r : WorkflowRun) → r.status ≡ "queued" → r.status ≢ "completed"
  queued_live r q = rw q queued-ne-completed

  launched-OwnEffect :
      (r : WorkflowRun) (p : ℕ)
      → get_elem? w.workflow_runs c.index ≡ some r
      → r.id ≡ c.run.id
      → r.status ≡ "queued"
      → OwnEffect c.run.id w (launched r p)
  launched-OwnEffect r p found own q =
      let new : WorkflowRun = record r { status = "in_progress" } in
      record {
        runs = inr (
          c.index,
          r,
          new,
          found,
          own,
          status_set-Evolves r "in_progress" r.conclusion r.logs (rw q starts),
          queued_live r q,
          commit_run-workflow_runs w c.index c.repository new "in_progress",
        );
        active = λ j other. ground (
          arith,
          commit_run-active_runs w c.index c.repository new "in_progress",
          get-put (commit_run w c.index c.repository new "in_progress").active_runs r.id j (record {
            command = some (record { process = some p });
            cancellation_signalled = false;
          }),
          nat_beq_iff r.id j,
        );
        next_run_id = commit_run-next_run_id w c.index c.repository new "in_progress";
      }

  launched-Holds :
      (r : WorkflowRun) (p : ℕ)
      → get_elem? w.workflow_runs c.index ≡ some r
      → r.id ≡ c.run.id
      → Holds (running_of c) (launched r p)
  launched-Holds r p found own =
      let new : WorkflowRun = record r { status = "in_progress" } in
      record {
        run = new;
        at_index =
            rw (commit_run-workflow_runs w c.index c.repository new "in_progress")
              (get_elem?-set_self w.workflow_runs c.index new r found);
        same_id = own;
        claimed = ground (
          arith,
          get-put (commit_run w c.index c.repository new "in_progress").active_runs r.id c.run.id
              (record {
                command = some (record { process = some p });
                cancellation_signalled = false;
              }),
          nat_beq_iff r.id c.run.id,
        );
        status = refl;
      }

  freed-OwnEffect :
      (k : ℕ)
      → k ≡ c.run.id
      → OwnEffect c.run.id w (record w { active_runs = remove w.active_runs k })
  freed-OwnEffect k same = record {
    runs = inl refl;
    active = λ j other. ground (arith, get-remove w.active_runs k j, nat_beq_iff k j);
    next_run_id = refl;
  }

  freed-IsFree :
      (k : ℕ) → k ≡ c.run.id → IsFree (record w { active_runs = remove w.active_runs k }) c
  freed-IsFree k same = ground (arith, get-remove w.active_runs k c.run.id, nat_beq_iff k c.run.id)

  -- The second critical section of an execution that has what it relies on neither panics on the
  -- run's index nor answers 409: either the execution ends with a reply and its claim released, or its
  -- runner is under way, with the run in progress and claimed. Nothing of another run changes.
  pub start_run_outcome :
      (process : Option ℕ) → Holds (preparing_of c) w → StartOutcome w c (start_run w c process)
  unfolding start_run
  start_run_outcome process h =
      let P = StartOutcome w c in
      let r = h.run in
      rw h.at_index (
        if_cases P (not (r.status == "queued")) _ _
          (λ late. absurd (ground (arith, eq_iff r.status "queued", h.status)))
          λ _.
            if_cases P r.cancellation_requested _ _
              (λ _. inl (
                _,
                _,
                refl,
                omega arith,
                commit-freed-OwnEffect w c r
                    (record r { status = "completed"; conclusion = "cancelled" }) "completed"
                    h.at_index h.same_id
                    (status_set-Evolves r "completed" "cancelled" r.logs (rw h.status is_cut))
                    (queued_live r h.status),
                commit-freed-free w c r _ _ h.same_id,
              ))
              λ _.
                option_cases P process _ _
                  (λ _. inl (
                    _,
                    _,
                    refl,
                    omega arith,
                    freed-OwnEffect r.id h.same_id,
                    freed-IsFree r.id h.same_id,
                  ))
                  λ p _. inr (
                    _,
                    refl,
                    launched-OwnEffect r p h.at_index h.same_id h.status,
                    launched-Holds r p h.at_index h.same_id,
                  ))

  -- The last critical section of an execution whose runner is under way does not panic on the run's
  -- index: it gives a reply, releases the claim, and changes no other run.
  pub finish_run_outcome :
      (waited : Bool) (logs : String)
      → Holds (running_of c) w
      → FinishOutcome w c (finish_run w c waited logs)
  unfolding finish_run
  finish_run_outcome waited logs h =
      let r = h.run in
      let conclusion = conclude (get_or (get w.active_runs r.id) zero_active_run) waited in
      rw h.at_index (
        _,
        _,
        refl,
        commit-freed-OwnEffect w c r
            (record r { status = "completed"; logs = logs; conclusion = conclusion }) "completed"
            h.at_index h.same_id
            (status_set-Evolves r "completed" conclusion logs (rw h.status ends))
            (rw h.status in_progress-ne-completed),
        commit-freed-free w c r _ _ h.same_id,
      )
