-- ===== src/Concurrency/Reachable.antt =====
-- The states that the program reaches are sound.
use merger_herder_validation.World.{World}
use merger_herder_validation.Dict.{has}
use merger_herder_validation.Concurrency.Others.{OwnEffect}
use merger_herder_validation.Concurrency.Sections.{
  IsClaim, claim_run-IsClaim, release_claim-OwnEffect, claim_run-OwnEffect, release_claim-free,
  claim_run-Holds,
}
use merger_herder_validation.Concurrency.Start.{
  running_of, preparing_of, finish_run_outcome, start_run_outcome,
}
use merger_herder_validation.Reply.{Reply}
use merger_herder_validation.Concurrency.Soundness.{IsSound, handles-IsSound, own_step-IsSound}
use merger_herder_validation.Execution.{Claim, start_run, finish_run, under_way, stopped}
use merger_herder_validation.Concurrency.Holds.{Executor, run_id_of, Holds}
use merger_herder_validation.Prelude.{
  ℕ, Option, ◌≡◌, Bool, none, some, String, ◌≢◌, arith, false, ap, some-injective, nat_key, subst,
  sym, inl, ◌∙◌, inr, refl,
}
use merger_herder_validation.Concurrency.System.{
  System, Step, Reach, handles, next, here, claims, update, abandons, stops, starts_runner,
  finishes,
}

claims-IsSound :
    (s s' : System) (t : ℕ) (c : Claim)
    → s.pool t ≡ none
    → IsClaim s.world s'.world c
    → s'.pool ≡ update s.pool t (some (preparing_of c))
    → IsSound s
    → IsSound s'
claims-IsSound s s' t c idle is pool h =
    own_step-IsSound s s' t c.run.id (some (preparing_of c))
      (claim_run-OwnEffect s.world s'.world c is) pool
      (λ u e other there same. clash u e there same) (λ e there. absurd (ground arith))
      (λ e it.
        subst (λ x. Holds x s'.world × (run_id_of x ≡ c.run.id)) (some-injective _ _ it)
          (claim_run-Holds s.world s'.world c is, refl))
      (λ gone. absurd (ground arith)) h
  where
    clash : (u : ℕ) (e : Executor) → s.pool u ≡ some e → c.run.id ≡ run_id_of e → ⊥
    clash u e there same = let held = h.held u e there in ground (arith, held.claimed, is.unclaimed)

-- The executions of other runs, beside one of run `k`.
others_differ :
    (s : System) (t : ℕ) (d : Executor)
    → IsSound s
    → s.pool t ≡ some d
    → (u : ℕ) (e : Executor) → t ≢ u
    → s.pool u ≡ some e
    → run_id_of d ≢ run_id_of e
others_differ s t d h entry u e other there same = other (h.distinct t u d e entry there same)

mine_same :
    (s : System) (t : ℕ) (d : Executor)
    → s.pool t ≡ some d
    → (e : Executor) → s.pool t ≡ some e
    → run_id_of e ≡ run_id_of d
mine_same s t d entry e there = ground (arith, entry, there)

-- An execution that ends with its claim released.
ended-IsSound :
    (s s' : System) (t : ℕ) (d : Executor)
    → s.pool t ≡ some d
    → s'.pool ≡ update s.pool t none
    → OwnEffect (run_id_of d) s.world s'.world
    → has s'.world.active_runs (run_id_of d) ≡ false
    → IsSound s
    → IsSound s'
ended-IsSound s s' t d entry pool effect free h =
    own_step-IsSound s s' t (run_id_of d) none effect pool (others_differ s t d h entry)
      (mine_same s t d entry) (λ e it. absurd (ground arith)) (λ _. free) h

stops-IsSound :
    (s s' : System) (t : ℕ) (c : Claim) (process : Option ℕ) (reply : Reply)
    → s.pool t ≡ some (preparing_of c)
    → start_run s.world c process ≡ some (stopped s'.world reply)
    → s'.pool ≡ update s.pool t none
    → IsSound s
    → IsSound s'
stops-IsSound s s' t c process reply entry result pool h =
    elim (start_run_outcome s.world c process (h.held t (preparing_of c) entry)) [
      | inl (w', r, it, no_conflict, effect, free) ↦
          let same : w' ≡ s'.world = stopped_world (some-injective _ _ (sym it ∙ result)) in
          ended-IsSound s s' t (preparing_of c) entry pool (rw same at effect) (rw same at free) h
      | inr (w', it, effect, held) ↦ absurd (stopped-ne-under_way (sym result ∙ it))
    ]
  where
    stopped_world : {w w' : World} {r r' : Reply} → stopped w r ≡ stopped w' r' → w ≡ w'
    stopped_world e = cc

    stopped-ne-under_way : {w w' : World} {r : Reply} → some (stopped w r) ≡ some (under_way w') → ⊥
    stopped-ne-under_way e = cc

starts-IsSound :
    (s s' : System) (t : ℕ) (c : Claim) (process : Option ℕ)
    → s.pool t ≡ some (preparing_of c)
    → start_run s.world c process ≡ some (under_way s'.world)
    → s'.pool ≡ update s.pool t (some (running_of c))
    → IsSound s
    → IsSound s'
starts-IsSound s s' t c process entry result pool h =
    elim (start_run_outcome s.world c process (h.held t (preparing_of c) entry)) [
      | inl (w', r, it, no_conflict, effect, free) ↦ absurd (clash (sym it ∙ result))
      | inr (w', it, effect, held) ↦
          let same : w' ≡ s'.world = launched_world (some-injective _ _ (sym it ∙ result)) in
          own_step-IsSound s s' t c.run.id (some (running_of c)) (rw same at effect) pool
            (others_differ s t (preparing_of c) h entry) (mine_same s t (preparing_of c) entry)
            (λ e new.
              subst (λ x. Holds x s'.world × (run_id_of x ≡ c.run.id)) (some-injective _ _ new)
                (rw same at held, refl))
            (λ gone. absurd (ground arith)) h
    ]
  where
    launched_world : {w w' : World} → under_way w ≡ under_way w' → w ≡ w'
    launched_world e = cc

    clash : {w w' : World} {r : Reply} → some (stopped w r) ≡ some (under_way w') → ⊥
    clash e = cc

finishes-IsSound :
    (s s' : System) (t : ℕ) (c : Claim) (waited : Bool) (logs : String) (reply : Reply)
    → s.pool t ≡ some (running_of c)
    → finish_run s.world c waited logs ≡ some (s'.world, reply)
    → s'.pool ≡ update s.pool t none
    → IsSound s
    → IsSound s'
finishes-IsSound s s' t c waited logs reply entry result pool h =
    let (w', r, it, effect, free) =
      finish_run_outcome s.world c waited logs (h.held t (running_of c) entry) in
    let same : w' ≡ s'.world =
      ap (λ (x : World × Reply). x.0) (some-injective _ _ (sym it ∙ result)) in
    ended-IsSound s s' t (running_of c) entry pool (rw same at effect) (rw same at free) h

-- Every step of the system keeps it sound.
pub Step-IsSound : (s s' : System) → Step s s' → IsSound s → IsSound s'
Step-IsSound s s' (handles step same) h = handles-IsSound s s' step same h
Step-IsSound s s' (claims t body c idle result pool) h =
    claims-IsSound s s' t c idle (claim_run-IsClaim s.world s'.world body c result) pool h
Step-IsSound s s' (abandons t c entry world pool) h =
    ended-IsSound s s' t (preparing_of c) entry pool (rw world (release_claim-OwnEffect s.world c))
      (rw world (release_claim-free s.world c)) h
Step-IsSound s s' (stops t c process reply entry result pool) h =
    stops-IsSound s s' t c process reply entry result pool h
Step-IsSound s s' (starts_runner t c process entry result pool) h =
    starts-IsSound s s' t c process entry result pool h
Step-IsSound s s' (finishes t c waited logs reply entry result pool) h =
    finishes-IsSound s s' t c waited logs reply entry result pool h

-- Under any interleaving of critical sections, a sound state leads only to sound states: each
-- execution under way has a claim on its run, which stands at the index that it keeps with the status
-- of its phase; no two executions have one run; and each claim belongs to an execution.
pub Reach-IsSound : (s s' : System) → Reach s s' → IsSound s → IsSound s'
Reach-IsSound s s' here h = h
Reach-IsSound s s' (next {t} r step) h = Step-IsSound t s' step (Reach-IsSound s t r h)
