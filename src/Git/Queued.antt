-- ===== src/Git/Queued.antt =====
-- Which runs a push queues.
use merger_herder_validation.Text.{times}
use merger_herder_validation.Git.Touched.{times-touched_refs}
use merger_herder_validation.Machine.{Machine, forced_update}
use mathlib.Core.List.{append-nil, append_assoc}
use merger_herder_validation.Dict.{get}
use merger_herder_validation.Runs.{append_queued_workflow}
use merger_herder_validation.Events.{
  append_push_event, append_workflow_event, append_pending_event, append_pending_app_event,
}
use merger_herder_validation.Prelude.{
  String, List, ◌≡◌, ◌∷◌, map, if◌then◌else◌, ◌++◌, not, ◌==◌, ◌&&◌, [], string_key, Bool, some,
  nat_key, Bool-cases, ap, sym, refl, inl, inr, ◌∙◌, true, subst, false, if_cases, ℕ, ◌≢◌, suc,
  arith, zero, eq_iff, eq_refl,
}
use merger_herder_validation.Git.Push.{
  record_ref, Refs, sha_of, record_refs, record_ref_changes, touched_refs,
}
use merger_herder_validation.World.{
  WorkflowRun, World, Repository, InstallationToken, WorkflowConfig,
}

-- The branch, the commit and the status of a run.
abbrev pub target : WorkflowRun → String × String × String
target r = (r.head_branch, r.head_sha, r.status)

-- The branches among `refs` that have moved, are still there, and are the release branch.
abbrev released : String → Refs → Refs → List String → List (String × String × String)
released release before after [] = []
released release before after (ref ∷ rest) =
    let more = released release before after rest in
    if not (sha_of before ref == sha_of after ref)
      && (release == ref && not (sha_of after ref == ""))
    then (ref, sha_of after ref, "queued") ∷ more
    else more

map-append_one {ℓ κ} :
    {A : Type ℓ} {B : Type κ} (f : A → B) (xs : List A) (x : A)
    → map f (xs ++ x ∷ []) ≡ map f xs ++ f x ∷ []
map-append_one f [] x = refl
map-append_one f (y ∷ xs) x = ap (λ l. f y ∷ l) (map-append_one f xs x)

-- The workflows are as they were, and the targets of the runs have grown by `more`.
abbrev Queues : World → List (String × String × String) → World → Type 0
Queues w more w' =
    (w'.workflows ≡ w.workflows)
    × (map target w'.workflow_runs ≡ map target w.workflow_runs ++ more)

record_ref-Queues :
    (w : World) (r : Repository) (token : InstallationToken) (workflow : WorkflowConfig)
    (ref before_sha after_sha : String) (forced : Bool)
    → get w.workflows r.id ≡ some workflow
    → Queues w
        (if workflow.release_ref == ref && not (after_sha == "")
          then (ref, after_sha, "queued") ∷ []
          else [])
        (record_ref w r token ref before_sha after_sha forced)
unfolding record_ref append_push_event append_queued_workflow append_workflow_event
    append_pending_event append_pending_app_event
record_ref-Queues w r token workflow ref before_sha after_sha forced known =
    let released_here = workflow.release_ref == ref && not (after_sha == "") in
    rw known (elim (Bool-cases released_here) [
      | inl hit ↦ rw hit (refl, map-append_one target w.workflow_runs _)
      | inr miss ↦ rw miss (refl, sym (append-nil (map target w.workflow_runs)))
    ])

Queues-trans :
    (a b c : World) (xs ys : List (String × String × String))
    → Queues a xs b
    → Queues b ys c
    → Queues a (xs ++ ys) c
Queues-trans a b c xs ys h k =
    (k.0 ∙ h.0, k.1 ∙ ap (λ l. l ++ ys) h.1 ∙ append_assoc (map target a.workflow_runs) xs ys)

one_or_none {ℓ} :
    {A : Type ℓ} (b : Bool) (x : A) (l : List A)
    → (if b then x ∷ [] else []) ++ l ≡ (if b then x ∷ l else l)
one_or_none true x l = refl
one_or_none false x l = refl

record_refs-Queues :
    (w : World) (r : Repository) (token : InstallationToken) (workflow : WorkflowConfig)
    (before after : Refs) (forced : String → Bool) (refs : List String)
    → get w.workflows r.id ≡ some workflow
    → Queues w
        (released workflow.release_ref before after refs)
        (record_refs w r token before after forced refs).0
unfolding record_refs
record_refs-Queues w r token workflow before after forced [] known =
    (refl, sym (append-nil (map target w.workflow_runs)))
record_refs-Queues w r token workflow before after forced (ref ∷ rest) known =
    elim (Bool-cases (not (sha_of before ref == sha_of after ref))) [
      | inl hit ↦
          let w' = record_ref w r token ref (sha_of before ref) (sha_of after ref) (forced ref) in
          let one =
            record_ref-Queues w r token workflow ref (sha_of before ref) (sha_of after ref)
              (forced ref) known in
          let more =
            record_refs-Queues
              (record_ref w r token ref (sha_of before ref) (sha_of after ref) (forced ref)) r token
              workflow before after forced rest (ap (λ d. get d r.id) one.0 ∙ known) in
          let whole = record_refs w' r token before after forced rest in
          rw hit (
            subst (λ l. Queues w l whole.0)
              (one_or_none (workflow.release_ref == ref && not (sha_of after ref == "")) _
                (released workflow.release_ref before after rest))
              (Queues-trans w w' whole.0 _ _ one more))
      | inr miss ↦
          let more = record_refs-Queues w r token workflow before after forced rest known in
          rw miss more
    ]

-- Whether the branch is released.
abbrev goes : String → Refs → Refs → Bool
goes ref before after = not (sha_of before ref == sha_of after ref) && not (sha_of after ref == "")

repeat {ℓ} : {A : Type ℓ} → ℕ → A → List A
repeat zero x = []
repeat (suc n) x = x ∷ repeat n x

-- What is released is the release branch, as often as it stands there, where it goes.
released-times :
    (release : String) (before after : Refs) (refs : List String)
    → released release before after refs ≡ (
        if goes release before after
        then repeat (times release refs) (release, sha_of after release, "queued")
        else [])
unfolding repeat times
released-times release before after [] = ground arith
released-times release before after (ref ∷ rest) = elim (Bool-cases (release == ref)) [
  | inl hit ↦
      let same : release ≡ ref = (eq_iff release ref).0 hit in
      subst
        (λ x. released release before after (x ∷ rest) ≡ (
          if goes release before after
          then repeat (times release (x ∷ rest)) (release, sha_of after release, "queued")
          else []))
        same (here (released-times release before after rest))
  | inr miss ↦
      let other : (ref == release) ≡ false =
        ground (arith, eq_iff ref release, eq_iff release ref, miss) in
      rw (miss, other)
        (skip (not (sha_of before ref == sha_of after ref))
          ∙ released-times release before after rest)
]
  where
    skip :
        (b : Bool)
        → (if b && false
            then (ref, sha_of after ref, "queued") ∷ released release before after rest
            else released release before after rest)
          ≡ released release before after rest
    skip true = refl
    skip false = refl

    here :
        released release before after rest ≡ (
          if goes release before after
          then repeat (times release rest) (release, sha_of after release, "queued")
          else [])
        → released release before after (release ∷ rest) ≡ (
            if goes release before after
            then repeat (times release (release ∷ rest)) (release, sha_of after release, "queued")
            else [])
    here ih = rw (eq_refl release) (elim (Bool-cases (goes release before after)) [
      | inl go ↦ rw go (ap (λ l. (release, sha_of after release, "queued") ∷ l) (ih ∙ rw go refl))
      | inr stay ↦ rw stay (ih ∙ rw stay refl)
    ])

-- Where the branch stands once among those that are gone through, it is there once; and it is not
-- there where it has not moved or is gone.
released_once :
    (release : String) (before after : Refs) (refs : List String)
    → (sha_of before release ≢ sha_of after release → times release refs ≡ 1)
    → released release before after refs ≡ (
        if not (sha_of before release == sha_of after release) && not (sha_of after release == "")
        then (release, sha_of after release, "queued") ∷ []
        else [])
unfolding repeat
released_once release before after refs once =
    released-times release before after refs
    ∙ elim (Bool-cases (sha_of before release == sha_of after release)) [
      | inl same ↦ rw same refl
      | inr moved ↦
          rw (once (λ e. ground (arith, eq_iff (sha_of before release) (sha_of after release))))
            refl
    ]

-- The run that a push from the branches `before` to `after` queues.
abbrev pub queued_by : String → Refs → Refs → List (String × String × String)
queued_by release before after =
    if not (sha_of before release == sha_of after release) && not (sha_of after release == "")
    then (release, sha_of after release, "queued") ∷ []
    else []

-- A push to a repository with a workflow queues one run where the release branch is at another commit
-- after it than before, and is still there: for this branch, with the commit that it has after the
-- push, as queued. Else it queues none. The branch, commit and status of the runs before it and the
-- workflows stay as they are.
pub record_ref_changes-released :
    (m : Machine) (w : World) (r : Repository) (token : InstallationToken)
    (workflow : WorkflowConfig) (before after : Refs)
    → get w.workflows r.id ≡ some workflow
    → ((record_ref_changes m w r token before after).workflows ≡ w.workflows)
      × (map target (record_ref_changes m w r token before after).workflow_runs
          ≡ map target w.workflow_runs
            ++ (if not (sha_of before workflow.release_ref == sha_of after workflow.release_ref)
                  && not (sha_of after workflow.release_ref == "")
                then (workflow.release_ref, sha_of after workflow.release_ref, "queued") ∷ []
                else []))
unfolding record_ref_changes
record_ref_changes-released m w r token workflow before after known =
    let forced : String → Bool =
      λ ref. forced_update m r.git_dir (sha_of before ref) (sha_of after ref) in
    let refs = touched_refs before after in
    let done = record_refs-Queues w r token workflow before after forced refs known in
    let once =
      released_once workflow.release_ref before after refs
        (times-touched_refs before after workflow.release_ref) in
    if_cases
      (Queues w (
        if not (sha_of before workflow.release_ref == sha_of after workflow.release_ref)
          && not (sha_of after workflow.release_ref == "")
        then (workflow.release_ref, sha_of after workflow.release_ref, "queued") ∷ []
        else []))
      (record_refs w r token before after forced refs).1 _ _
      (λ _. (done.0, done.1 ∙ ap (λ l. map target w.workflow_runs ++ l) once))
      (λ _. (done.0, done.1 ∙ ap (λ l. map target w.workflow_runs ++ l) once))
