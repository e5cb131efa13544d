-- ===== src/Concurrency/Success.antt =====
-- An execution whose runner starts, with no other request between its steps, completes its run.
use merger_herder_validation.Concurrency.Sections.{claim_run-IsClaim}
use merger_herder_validation.History.Runs.{commit_run-workflow_runs}
use merger_herder_validation.Text.{◌+++◌}
use merger_herder_validation.World.Inputs.{ExecuteWorkflowInput}
use merger_herder_validation.Reply.{Decoded, write_json, run}
use merger_herder_validation.Dict.{put, get, get-put_self, remove}
use merger_herder_validation.Execution.Prepare.{Launch, prepare, prepared}
use merger_herder_validation.Runs.{commit_run}
use merger_herder_validation.Machine.{Platform, Machine}
use merger_herder_validation.Prelude.{
  Bool, String, ℕ, if◌then◌else◌, get_elem?, ◌≡◌, some, Option, false, nat_key, if_cases, not, ◌==◌,
  arith, eq_iff, string_key, refl, get_elem?-set_self, get_or, subst, sym, ◌∙◌,
}
use merger_herder_validation.Execution.{
  finish_run, start_run, Claim, under_way, Started, claim_run, claimed, conclude,
}
use merger_herder_validation.Execution.Complete.{
  execute_workflow_run, execute_claimed, execute_prepared,
}
use merger_herder_validation.World.{WorkflowRun, World, ActiveRun, zero_active_run}

-- The world in which the runner `p` of the run is under way.
abbrev started_world : World → Claim → WorkflowRun → ℕ → World
started_world w c r p =
    let w' =
      commit_run w c.index c.repository (record r { status = "in_progress" }) "in_progress" in
    record w' {
      active_runs =
          put w'.active_runs r.id (record {
            command = some (record { process = some p });
            cancellation_signalled = false;
          });
    }

start_run_success :
    (w : World) (c : Claim) (r : WorkflowRun) (p : ℕ)
    → get_elem? w.workflow_runs c.index ≡ some r
    → r.status ≡ "queued"
    → r.cancellation_requested ≡ false
    → start_run w c (some p) ≡ some (under_way (started_world w c r p))
unfolding start_run
start_run_success w c r p found q asked =
    let P : Option Started → Type 0 = λ o. o ≡ some (under_way (started_world w c r p)) in
    rw found (
      if_cases P (not (r.status == "queued")) _ _
        (λ late. absurd (ground (arith, eq_iff r.status "queued", q)))
        λ _. if_cases P r.cancellation_requested _ _ (λ cut. absurd (ground arith)) (λ _. refl))

-- The run when its runner has ended.
abbrev pub ended_run : WorkflowRun → Bool → String → WorkflowRun
ended_run r waited logs = record r {
  status = "completed";
  conclusion = if waited then "success" else "failure";
  logs = logs;
}

conclude_unsignalled :
    (o : Option ActiveRun) (a : ActiveRun) (waited : Bool)
    → o ≡ some a
    → a.cancellation_signalled ≡ false
    → conclude (get_or o zero_active_run) waited ≡ (if waited then "success" else "failure")
unfolding conclude
conclude_unsignalled o a waited found unsignalled = ground (arith, found)

-- The end of a runner that has not been signalled.
finish_run_lem :
    (v : World) (c : Claim) (r : WorkflowRun) (a : ActiveRun) (waited : Bool) (logs : String)
    → get_elem? v.workflow_runs c.index ≡ some r
    → get v.active_runs r.id ≡ some a
    → a.cancellation_signalled ≡ false
    → finish_run v c waited logs
      ≡ some (
        commit_run
            (record v { active_runs = remove v.active_runs r.id })
            c.index
            c.repository
            (ended_run r waited logs)
            "completed",
        write_json 200 (run (ended_run r waited logs)),
      )
unfolding finish_run
finish_run_lem v c r a waited logs found active unsignalled =
    rw (found, conclude_unsignalled (get v.active_runs r.id) a waited active unsignalled) refl

finish_run_success :
    (w : World) (c : Claim) (r : WorkflowRun) (p : ℕ) (waited : Bool) (logs : String)
    → get_elem? w.workflow_runs c.index ≡ some r
    → (w' : World) × (finish_run (started_world w c r p) c waited logs
        ≡ some (w', write_json 200 (run (ended_run r waited logs))))
      × (get_elem? w'.workflow_runs c.index ≡ some (ended_run r waited logs))
finish_run_success w c r p waited logs found =
    let v = started_world w c r p in
    let under = record r { status = "in_progress" } in
    let at : get_elem? v.workflow_runs c.index ≡ some under =
      rw (commit_run-workflow_runs w c.index c.repository under "in_progress")
        (get_elem?-set_self w.workflow_runs c.index under r found) in
    (
      _,
      finish_run_lem v c under _ waited logs at
          (get-put_self (commit_run w c.index c.repository under "in_progress").active_runs r.id _)
          refl,
      rw
          (commit_run-workflow_runs (record v { active_runs = remove v.active_runs r.id }) c.index
            c.repository (ended_run r waited logs) "completed")
          (get_elem?-set_self v.workflow_runs c.index (ended_run r waited logs) under at),
    )

-- The steps from a claim to the end of the runner.
execute_claimed_started :
    (p : Platform) (digest : String → String) (m after : Machine) (start : Launch → Option ℕ)
    (waited : Bool) (output : String) (w w' v : World) (c : Claim) (launch : Launch) (process : ℕ)
    → prepare p digest w' m after c ≡ prepared launch
    → start launch ≡ some process
    → start_run w' c (some process) ≡ some (under_way v)
    → execute_claimed p digest m after start waited output w (claimed w' c)
      ≡ finish_run v c waited (launch.log_header +++ output)
unfolding execute_claimed execute_prepared
execute_claimed_started p digest m after start waited output w w' v c launch process ready going
      under =
    rw (ready, going, under) refl

-- A queued run that is claimed, not asked to stop, and whose command is prepared and starts, is
-- completed: the answer is 200 with the run, completed, with success or failure as the runner ends,
-- and with the logs of the runner after a line of the program; so it stands in the world.
pub execute_workflow_run-completes :
    (p : Platform) (digest : String → String) (m after : Machine) (start : Launch → Option ℕ)
    (waited : Bool) (output : String) (w w' : World) (body : Decoded ExecuteWorkflowInput)
    (c : Claim) (launch : Launch) (process : ℕ)
    → claim_run w body ≡ claimed w' c
    → c.run.cancellation_requested ≡ false
    → prepare p digest w' m after c ≡ prepared launch
    → start launch ≡ some process
    → (w'' : World) × (execute_workflow_run p digest m after start waited output w body
        ≡ some (w'', write_json 200 (run (ended_run c.run waited (launch.log_header +++ output)))))
      × (get_elem? w''.workflow_runs c.index
          ≡ some (ended_run c.run waited (launch.log_header +++ output)))
unfolding execute_workflow_run
execute_workflow_run-completes p digest m after start waited output w w' body c launch process claim
      asked ready going =
    let is = claim_run-IsClaim w w' body c claim in
    let at : get_elem? w'.workflow_runs c.index ≡ some c.run = rw is.world is.at_index in
    let (w'', e, found) =
      finish_run_success w' c c.run process waited (launch.log_header +++ output) at in
    let reply = write_json 200 (run (ended_run c.run waited (launch.log_header +++ output))) in
    (
      w'',
      subst (λ x. execute_claimed p digest m after start waited output w x ≡ some (w'', reply))
          (sym claim)
          (execute_claimed_started p digest m after start waited output w w' _ c launch process
              ready going (start_run_success w' c c.run process at is.queued asked)
            ∙ e),
      found,
    )
