-- ===== src/Concurrency/Closed.antt =====
-- What every effect of a step on the runs keeps is kept by every step from a sound state.
use merger_herder_validation.Concurrency.Sections.{
  claim_run-OwnEffect, claim_run-IsClaim, release_claim-OwnEffect,
}
use merger_herder_validation.Concurrency.Reachable.{Reach-IsSound}
use merger_herder_validation.Concurrency.Soundness.{IsSound}
use merger_herder_validation.Concurrency.System.{
  System, Reach, Step, handles, next, Handled-closed, claims, here, abandons, stops, starts_runner,
  finishes,
}
use merger_herder_validation.Concurrency.Start.{
  preparing_of, running_of, finish_run_outcome, start_run_outcome,
}
use merger_herder_validation.Reply.{Reply}
use merger_herder_validation.Concurrency.Others.{OwnEffect}
use merger_herder_validation.Concurrency.Holds.{Holds}
use merger_herder_validation.Prelude.{
  Bool, ℕ, Option, String, ◌≡◌, some, ap, inl, some-injective, sym, ◌∙◌, inr,
}
use merger_herder_validation.Execution.{Claim, finish_run, start_run, stopped, under_way}
use merger_herder_validation.History.Effect.{RunEffect}
use merger_herder_validation.World.{World}

stopped_OwnEffect :
    (w w' : World) (c : Claim) (process : Option ℕ) (reply : Reply)
    → Holds (preparing_of c) w
    → start_run w c process ≡ some (stopped w' reply)
    → OwnEffect c.run.id w w'
stopped_OwnEffect w w' c process reply held result = elim (start_run_outcome w c process held) [
  | inl (v, r, it, no_conflict, effect, free) ↦
      let same : stopped v r ≡ stopped w' reply = some-injective _ _ (sym it ∙ result) in
      let world : v ≡ w' = cc in rw world at effect
  | inr (v, it, effect, holds) ↦
      let same : under_way v ≡ stopped w' reply = some-injective _ _ (sym it ∙ result) in
      absurd (cc)
]

launched_OwnEffect :
    (w w' : World) (c : Claim) (process : Option ℕ)
    → Holds (preparing_of c) w
    → start_run w c process ≡ some (under_way w')
    → OwnEffect c.run.id w w'
launched_OwnEffect w w' c process held result = elim (start_run_outcome w c process held) [
  | inl (v, r, it, no_conflict, effect, free) ↦
      let same : stopped v r ≡ under_way w' = some-injective _ _ (sym it ∙ result) in absurd (cc)
  | inr (v, it, effect, holds) ↦
      let same : under_way v ≡ under_way w' = some-injective _ _ (sym it ∙ result) in
      let world : v ≡ w' = cc in rw world at effect
]

finished_OwnEffect :
    (w w' : World) (c : Claim) (waited : Bool) (logs : String) (reply : Reply)
    → Holds (running_of c) w
    → finish_run w c waited logs ≡ some (w', reply)
    → OwnEffect c.run.id w w'
finished_OwnEffect w w' c waited logs reply held result =
    let (v, r, it, effect, free) = finish_run_outcome w c waited logs held in
    let world : v ≡ w' = ap (λ (x : World × Reply). x.0) (some-injective _ _ (sym it ∙ result)) in
    rw world at effect

module _ {ℓ} (Q : World → Type ℓ) (shared : (a b : World) → RunEffect a b → Q a → Q b)
    (own : (k : ℕ) (a b : World) → OwnEffect k a b → Q a → Q b) where
  pub Step-closed : (s s' : System) → Step s s' → IsSound s → Q s.world → Q s'.world
  Step-closed s s' (handles step same) h q = Handled-closed Q shared s.world s'.world step q
  Step-closed s s' (claims t body c idle result pool) h q =
      own c.run.id s.world s'.world
        (claim_run-OwnEffect s.world s'.world c (claim_run-IsClaim s.world s'.world body c result))
        q
  Step-closed s s' (abandons t c entry world pool) h q =
      own c.run.id s.world s'.world (rw world (release_claim-OwnEffect s.world c)) q
  Step-closed s s' (stops t c process reply entry result pool) h q =
      own c.run.id s.world s'.world
        (stopped_OwnEffect s.world s'.world c process reply (h.held t (preparing_of c) entry)
          result)
        q
  Step-closed s s' (starts_runner t c process entry result pool) h q =
      own c.run.id s.world s'.world
        (launched_OwnEffect s.world s'.world c process (h.held t (preparing_of c) entry) result) q
  Step-closed s s' (finishes t c waited logs reply entry result pool) h q =
      own c.run.id s.world s'.world
        (finished_OwnEffect s.world s'.world c waited logs reply (h.held t (running_of c) entry)
          result)
        q

  pub Reach-closed : (s s' : System) → Reach s s' → IsSound s → Q s.world → Q s'.world
  Reach-closed s s' here h q = q
  Reach-closed s s' (next {t} r step) h q =
      Step-closed t s' step (Reach-IsSound s t r h) (Reach-closed s t r h q)
