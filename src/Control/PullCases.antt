-- ===== src/Control/PullCases.antt =====
-- The outcomes of the handlers of Control/Pulls: an error that leaves the world as it is, or the
-- writes of the handler under its guards.
use merger_herder_validation.Dict.{has, get}
use merger_herder_validation.Control.Cases.{Refusals}
use merger_herder_validation.Machine.{Machine, Platform, resolve_ref, run_git}
use merger_herder_validation.World.{World, Repository, PullRequest, pull_key}
use merger_herder_validation.Reply.{
  decode_control, Reply, Decoded, write_json, id, state, now, number, decoded, malformed,
}
use merger_herder_validation.World.Inputs.{
  PullRequestInput, AdvanceTimeInput, WorkflowInput, PullRequestStateInput,
}
use merger_herder_validation.Control.Pulls.{
  create_pull_request, configure_workflow, change_pull_request_state, advance_time, invalid_pull,
  key_of, with_workflow, with_time, with_pull, pull_of, default_state,
}
use merger_herder_validation.Prelude.{
  String, not, ◌==◌, ◌≡◌, ◌&&◌, false, ◌⊎◌, arith, ℕ, eq_iff, string_key, true, ◌<◌, int64_sign,
  some, none, ◌||◌, ◌+◌, option_cases, if_cases, leb, nat_key, is_positive, ◌∷◌, [],
}

valid_state :
    (s : String)
    → (not (s == "open") && not (s == "closed")) ≡ false
    → (s ≡ "open") ⊎ (s ≡ "closed")
valid_state s h = ground (arith, eq_iff s "open", eq_iff s "closed")

invalid_pull_state :
    (input : PullRequestInput) (s : String)
    → invalid_pull input s ≡ false
    → (s ≡ "open") ⊎ (s ≡ "closed")
invalid_pull_state input s h = valid_state s (ground arith)

pub create_pull_request_cases {ℓ} :
    (P : World × Reply → Type ℓ) (m : Machine) (w : World) (body : Decoded PullRequestInput)
    → Refusals P w
    → ((input : PullRequestInput) (r : Repository) (s : String)
        → (s ≡ "open") ⊎ (s ≡ "closed")
        → get w.repositories input.repository_id ≡ some r
        → get w.pulls (key_of input.repository_id input.number) ≡ none
        → (resolve_ref m r.git_dir input.base_ref == ""
            || resolve_ref m r.git_dir input.head_ref == "")
          ≡ false
        → P (
          with_pull w (key_of input.repository_id input.number) (
              pull_of input s
                (resolve_ref m r.git_dir input.base_ref)
                (resolve_ref m r.git_dir input.head_ref)),
          write_json 201 (number input.number),
        ))
    → P (create_pull_request m w body)
unfolding create_pull_request decode_control
create_pull_request_cases P m w malformed refusal done = refusal 400 _ (omega arith)
create_pull_request_cases P m w (decoded a true) refusal done = refusal 400 _ (omega arith)
create_pull_request_cases P m w (decoded input false) refusal done =
    let s = default_state input.state in
    if_cases P (invalid_pull input s) _ _ (λ _. refusal 400 _ (omega arith))
      λ valid.
        option_cases P (get w.repositories input.repository_id) _ _
          (λ _. refusal 400 _ (omega arith))
          λ r found.
            if_cases P (has w.pulls (key_of input.repository_id input.number)) _ _
              (λ _. refusal 409 _ (omega arith))
              λ fresh.
                if_cases P
                  (resolve_ref m r.git_dir input.base_ref == ""
                    || resolve_ref m r.git_dir input.head_ref == "")
                  _ _ (λ _. refusal 400 _ (omega arith))
                  λ known.
                    done input r s (invalid_pull_state input s valid) found (ground arith) known

pub change_pull_request_state_cases {ℓ} :
    (P : World × Reply → Type ℓ) (w : World) (body : Decoded PullRequestStateInput)
    → Refusals P w
    → ((input : PullRequestStateInput) (pull : PullRequest)
        → (input.state ≡ "open") ⊎ (input.state ≡ "closed")
        → get w.pulls (key_of input.repository_id input.number) ≡ some pull
        → P (
          with_pull w
              (key_of input.repository_id input.number)
              (record pull { state = input.state }),
          write_json 200 (state input.state),
        ))
    → P (change_pull_request_state w body)
unfolding change_pull_request_state decode_control
change_pull_request_state_cases P w malformed refusal done = refusal 400 _ (omega arith)
change_pull_request_state_cases P w (decoded a true) refusal done = refusal 400 _ (omega arith)
change_pull_request_state_cases P w (decoded input false) refusal done =
    if_cases P (not (input.state == "open") && not (input.state == "closed")) _ _
      (λ _. refusal 400 _ (omega arith))
      λ valid.
        option_cases P (get w.pulls (key_of input.repository_id input.number)) _ _
          (λ _. refusal 404 _ (omega arith))
          λ pull found. done input pull (valid_state _ valid) found

pub advance_time_cases {ℓ} :
    (P : World × Reply → Type ℓ) (p : Platform) (w : World) (body : Decoded AdvanceTimeInput)
    → Refusals P w
    → ((duration : ℕ)
        → duration < int64_sign
        → P (with_time w duration, write_json 200 (now (w.now + duration))))
    → P (advance_time p w body)
unfolding advance_time decode_control
advance_time_cases P p w malformed refusal done = refusal 400 _ (omega arith)
advance_time_cases P p w (decoded a true) refusal done = refusal 400 _ (omega arith)
advance_time_cases P p w (decoded input false) refusal done =
    option_cases P (p.parse_duration input.duration) _ _ (λ _. refusal 400 _ (omega arith))
      λ d _.
        if_cases P (leb int64_sign d) _ _ (λ _. refusal 400 _ (omega arith))
          λ short. done d (ground arith)

pub configure_workflow_cases {ℓ} :
    (P : World × Reply → Type ℓ) (m : Machine) (w : World) (body : Decoded WorkflowInput)
    → Refusals P w
    → ((input : WorkflowInput)
        → has w.repositories input.repository_id ≡ true
        → P (with_workflow w input, write_json 201 (id input.id)))
    → P (configure_workflow m w body)
unfolding configure_workflow decode_control
configure_workflow_cases P m w malformed refusal done = refusal 400 _ (omega arith)
configure_workflow_cases P m w (decoded a true) refusal done = refusal 400 _ (omega arith)
configure_workflow_cases P m w (decoded input false) refusal done =
    if_cases P
      (not (is_positive input.id)
        || input.name == ""
        || input.path == ""
        || input.release_ref == "")
      _ _ (λ _. refusal 400 _ (omega arith))
      λ _.
        option_cases P (run_git m "" ("check-ref-format" ∷ "--branch" ∷ input.release_ref ∷ [])) _ _
          (λ _.
            if_cases P (not (has w.repositories input.repository_id)) _ _
              (λ _. refusal 400 _ (omega arith)) λ known. done input (ground arith))
          (λ e _. refusal 400 _ (omega arith))
