-- ===== src/Runs/Cases.antt =====
-- The outcomes of the handlers that act on runs and events: an error that leaves the world as it
-- is, or the writes under the guards.
use merger_herder_validation.Dict.{get, has}
use merger_herder_validation.Control.Cases.{Refusals}
use merger_herder_validation.World.Inputs.{DuplicateEventInput, WorkflowTransitionInput}
use merger_herder_validation.World.{World, WorkflowRun, PendingEvent, zero_repository}
use merger_herder_validation.Prelude.{
  Bool, ℕ, List, ◌≡◌, some, true, String, get_elem?, arith, none, ◌∷◌, Bool-cases, inl,
  option_cases, inr, get_or, if_cases, nat_key, suc, false, [], ◌==◌, ◌+◌,
}
use merger_herder_validation.Reply.{
  decode_control, Reply, Decoded, write_json, event, decoded, malformed, run,
}
use merger_herder_validation.Runs.{
  index_where, transition_workflow_run, workflow_run_by_id, transition_action, commit_run,
}
use merger_herder_validation.Delivery.{
  duplicate_event, find_pending_event, with_duplicate, duplicate_of,
}

-- What the loop over the runs finds: an entry that passes the test, at the index it gives.
pub index_where_sound {ℓ} :
    {A : Type ℓ} (test : A → Bool) (n : ℕ) (xs : List A) (i : ℕ) (a : A)
    → index_where test n xs ≡ some (i, a)
    → (k : ℕ) × (i ≡ n + k) × (get_elem? xs k ≡ some a) × (test a ≡ true)
unfolding index_where
index_where_sound test n [] i a h = absurd (ground arith)
index_where_sound test n (x ∷ xs) i a h = elim (Bool-cases (test x)) [
  | inl hit ↦ (0, ground arith, ground arith, ground arith)
  | inr miss ↦
      let (k, e, found, passes) = index_where_sound test (suc n) xs i a (ground arith) in
      (suc k, omega arith, found, passes)
]

-- A run that is found stands at its index.
pub workflow_run_by_id_sound :
    (w : World) (run_id i : ℕ) (r : WorkflowRun)
    → workflow_run_by_id w run_id ≡ some (i, r)
    → (get_elem? w.workflow_runs i ≡ some r) × (r.id ≡ run_id)
unfolding workflow_run_by_id
workflow_run_by_id_sound w run_id i r h =
    let (k, e, found, passes) =
      index_where_sound (λ (x : WorkflowRun). x.id == run_id) 0 w.workflow_runs i r h in
    (ground arith, ground arith)

pub transition_cases {ℓ} :
    (P : World × Reply → Type ℓ) (w : World) (body : Decoded WorkflowTransitionInput)
    → Refusals P w
    → ((input : WorkflowTransitionInput) (index : ℕ) (old : WorkflowRun) (action : String)
        → workflow_run_by_id w input.run_id ≡ some (index, old)
        → get w.active_runs input.run_id ≡ none
        → transition_action old.status input.status input.conclusion ≡ some action
        → P (
          commit_run w index
              (get_or (get w.repositories old.repository_id) zero_repository)
              (record old { status = input.status; conclusion = input.conclusion })
              action,
          write_json 200
              (run (record old { status = input.status; conclusion = input.conclusion })),
        ))
    → P (transition_workflow_run w body)
unfolding transition_workflow_run decode_control
transition_cases P w malformed refusal done = refusal 400 _ (omega arith)
transition_cases P w (decoded a true) refusal done = refusal 400 _ (omega arith)
transition_cases P w (decoded input false) refusal done =
    option_cases P (workflow_run_by_id w input.run_id) _ _ (λ _. refusal 404 _ (omega arith))
      λ found e.
        if_cases P (has w.active_runs input.run_id) _ _ (λ _. refusal 409 _ (omega arith))
          λ free.
            option_cases P (transition_action found.1.status input.status input.conclusion) _ _
              (λ _. refusal 409 _ (omega arith))
              λ action allowed. done input found.0 found.1 action e (ground arith) allowed

pub duplicate_event_cases {ℓ} :
    (P : World × Reply → Type ℓ) (w : World) (body : Decoded DuplicateEventInput)
    → Refusals P w
    → ((input : DuplicateEventInput) (source : PendingEvent)
        → find_pending_event w input.guid ≡ some source
        → P (with_duplicate w source, write_json 201 (event (duplicate_of w source))))
    → P (duplicate_event w body)
unfolding duplicate_event decode_control
duplicate_event_cases P w malformed refusal done = refusal 400 _ (omega arith)
duplicate_event_cases P w (decoded a true) refusal done = refusal 400 _ (omega arith)
duplicate_event_cases P w (decoded input false) refusal done =
    option_cases P (find_pending_event w input.guid) _ _ (λ _. refusal 404 _ (omega arith))
      λ source found. done input source found
