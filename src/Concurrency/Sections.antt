-- ===== src/Concurrency/Sections.antt =====
-- The critical sections of executeWorkflowRun, each with what it does to the run that it has claimed.
use merger_herder_validation.Runs.Cases.{workflow_run_by_id_sound}
use merger_herder_validation.History.Effect.{Evolves}
use merger_herder_validation.History.Runs.{
  commit_run-active_runs, commit_run-workflow_runs, commit_run-next_run_id,
}
use merger_herder_validation.Runs.{commit_run, workflow_run_by_id}
use merger_herder_validation.Prelude.{
  get_elem?, inl, ◌≡◌, String, false, some, ap, arith, nat_key, ◌≢◌, option_cases, none,
  nat_beq_iff, refl, inr, if_cases, not, ◌==◌, eq_iff, true, string_key,
}
use merger_herder_validation.World.Inputs.{ExecuteWorkflowInput}
use merger_herder_validation.Concurrency.Others.{OwnEffect}
use merger_herder_validation.Concurrency.Holds.{Holds, preparing}
use merger_herder_validation.Dict.{has, remove, get-put_self, get-remove, get, get-put, put}
use merger_herder_validation.Reply.{Decoded, decode_control, Reply, decoded, malformed}
use merger_herder_validation.World.{World, WorkflowRun, zero_active_run}
use merger_herder_validation.Execution.{release_claim, claim_run, Claim, Claimed, claimed, refused}

-- What a claim is made under.
pub record IsClaim (w w' : World) (c : Claim) : Type 0 where
  pub at_index : get_elem? w.workflow_runs c.index ≡ some c.run
  pub queued : c.run.status ≡ "queued"
  pub unclaimed : get w.active_runs c.run.id ≡ none
  pub world : w' ≡ record w { active_runs = put w.active_runs c.run.id zero_active_run }

pub claim_run_cases {ℓ} :
    (P : Claimed → Type ℓ) (w : World) (body : Decoded ExecuteWorkflowInput)
    → ((r : Reply) → P (refused r))
    → ((w' : World) (c : Claim) → IsClaim w w' c → P (claimed w' c))
    → P (claim_run w body)
unfolding claim_run decode_control
claim_run_cases P w malformed refusal done = refusal _
claim_run_cases P w (decoded a true) refusal done = refusal _
claim_run_cases P w (decoded input false) refusal done =
    option_cases P (workflow_run_by_id w input.run_id) _ _ (λ _. refusal _)
      λ found e.
        if_cases P (not (found.1.status == "queued")) _ _ (λ _. refusal _)
          λ waits.
            if_cases P (has w.active_runs found.1.id) _ _ (λ _. refusal _)
              λ free.
                option_cases P (get w.repositories found.1.repository_id) _ _ (λ _. refusal _)
                  λ repository _.
                    option_cases P (get w.workflows found.1.repository_id) _ _ (λ _. refusal _)
                      λ workflow _. done _ _ (record {
                        at_index = (workflow_run_by_id_sound w input.run_id found.0 found.1 e).0;
                        queued = ground (arith, eq_iff found.1.status "queued");
                        unclaimed = ground arith;
                        world = refl;
                      })

-- The claim that a call gives is one.
pub claim_run-IsClaim :
    (w w' : World) (body : Decoded ExecuteWorkflowInput) (c : Claim)
    → claim_run w body ≡ claimed w' c
    → IsClaim w w' c
claim_run-IsClaim w w' body c =
    claim_run_cases (λ x. x ≡ claimed w' c → IsClaim w w' c) w body (λ r e. absurd (cc))
      λ v d is e. let world : v ≡ w' = cc in let claim : d ≡ c = cc in rw (← world, ← claim) is

pub claim_run-OwnEffect : (w w' : World) (c : Claim) → IsClaim w w' c → OwnEffect c.run.id w w'
claim_run-OwnEffect w w' c is = record {
  runs = inl (ap (λ (x : World). x.workflow_runs) is.world);
  active = λ j other.
      rw is.world
        (ground (arith, get-put w.active_runs c.run.id j zero_active_run, nat_beq_iff c.run.id j));
  next_run_id = ap (λ (x : World). x.next_run_id) is.world;
}

pub claim_run-Holds :
    (w w' : World) (c : Claim) → IsClaim w w' c → Holds (record { claim = c; phase = preparing }) w'
claim_run-Holds w w' c is = record {
  run = c.run;
  at_index = rw is.world is.at_index;
  same_id = refl;
  claimed = rw is.world (ground (arith, get-put_self w.active_runs c.run.id zero_active_run));
  status = is.queued;
}

-- A claim that is released.
pub release_claim-OwnEffect : (w : World) (c : Claim) → OwnEffect c.run.id w (release_claim w c)
unfolding release_claim
release_claim-OwnEffect w c = record {
  runs = inl refl;
  active = λ j other. ground (arith, get-remove w.active_runs c.run.id j, nat_beq_iff c.run.id j);
  next_run_id = refl;
}

pub release_claim-free :
    (w : World) (c : Claim) → has (release_claim w c).active_runs c.run.id ≡ false
unfolding release_claim
release_claim-free w c =
    ground (arith, get-remove w.active_runs c.run.id c.run.id, nat_beq_iff c.run.id c.run.id)

-- The run of a claim that is moved on, and a claim that is removed or replaced: what start_run and
-- finish_run write, whatever the event that goes with it.
module _ (w : World) (c : Claim) (r new : WorkflowRun) (action : String) where
  abbrev freed : World
  freed = record w { active_runs = remove w.active_runs r.id }

  pub commit-freed-OwnEffect :
      get_elem? w.workflow_runs c.index ≡ some r
      → r.id ≡ c.run.id
      → Evolves r new
      → r.status ≢ "completed"
      → OwnEffect c.run.id w (commit_run freed c.index c.repository new action)
  commit-freed-OwnEffect found own evolves live = record {
    runs = inr (
      c.index,
      r,
      new,
      found,
      own,
      evolves,
      live,
      commit_run-workflow_runs freed c.index c.repository new action,
    );
    active = λ j other.
        rw (commit_run-active_runs freed c.index c.repository new action)
          (ground (arith, get-remove w.active_runs r.id j, nat_beq_iff r.id j));
    next_run_id = commit_run-next_run_id freed c.index c.repository new action;
  }

  pub commit-freed-free :
      r.id ≡ c.run.id
      → has (commit_run freed c.index c.repository new action).active_runs c.run.id ≡ false
  commit-freed-free own =
      rw (commit_run-active_runs freed c.index c.repository new action)
        (ground (arith, get-remove w.active_runs r.id c.run.id, nat_beq_iff r.id c.run.id))
