-- ===== src/Git/Refreshed.antt =====
-- The pull requests after refreshPullSnapshots.
use merger_herder_validation.Runs.{append_queued_workflow}
use merger_herder_validation.Events.{
  append_push_event, append_workflow_event, append_pending_event, append_pending_app_event,
}
use merger_herder_validation.Dict.Entries.{find}
use merger_herder_validation.Dict.{get, get-put_self, put, items, get-find, get-put}
use merger_herder_validation.World.{
  Repository, PullRequest, PullKey, World, pull_key, pull_key_beq_iff, InstallationToken,
}
use merger_herder_validation.Machine.{Machine, resolve_ref, forced_update}
use merger_herder_validation.Prelude.{
  [], ◌∷◌, String, ◌≡◌, arith, ◌≢◌, ap₂, eq_iff, refl, some, ◌⊎◌, eq_refl, option_cases, inl,
  if_cases, ◌==◌, ◌&&◌, string_key, List, inr, Bool-cases, sym, subst, ◌∙◌, some-injective, ap,
  true, nat_beq_iff, nat_key, Bool, not,
}
use merger_herder_validation.Git.Push.{
  refresh_pull, refresh_pulls, refresh_pull_snapshots, snapshots_of, RefSnapshot, or_known,
  record_ref, record_refs, record_ref_changes, Refs, sha_of, touched_refs,
}

-- The commit of a branch as far as it is known: the one that it has, or else the last known one.
pub record IsNow (m : Machine) (r : Repository) (ref known sha : String) : Type 0 where
  pub there : resolve_ref m r.git_dir ref ≢ "" → sha ≡ resolve_ref m r.git_dir ref
  pub gone : resolve_ref m r.git_dir ref ≡ "" → sha ≡ known

-- A pull request with the commits that its branches have, and else as it was.
pub record IsFresh (m : Machine) (r : Repository) (old new : PullRequest) : Type 0 where
  pub same : new ≡ record old { base_sha = new.base_sha; head_sha = new.head_sha }
  pub base : IsNow m r old.base_ref old.base_sha new.base_sha
  pub head : IsNow m r old.head_ref old.head_sha new.head_sha

refreshed : Machine → Repository → PullRequest → PullRequest
refreshed m r pull = record pull {
  base_sha = or_known (resolve_ref m r.git_dir pull.base_ref) pull.base_sha;
  head_sha = or_known (resolve_ref m r.git_dir pull.head_ref) pull.head_sha;
}

or_known-IsNow :
    (m : Machine) (r : Repository) (ref known : String)
    → IsNow m r ref known (or_known (resolve_ref m r.git_dir ref) known)
or_known-IsNow m r ref known = record {
  there = λ is. ground (arith, eq_iff (resolve_ref m r.git_dir ref) "");
  gone = λ is. ground (arith, eq_iff (resolve_ref m r.git_dir ref) "");
}

refreshed-IsFresh :
    (m : Machine) (r : Repository) (pull : PullRequest) → IsFresh m r pull (refreshed m r pull)
unfolding refreshed
refreshed-IsFresh m r pull = record {
  same = refl;
  base = or_known-IsNow m r pull.base_ref pull.base_sha;
  head = or_known-IsNow m r pull.head_ref pull.head_sha;
}

or_known_twice : (sha known : String) → or_known sha (or_known sha known) ≡ or_known sha known
or_known_twice sha known = ground arith

refreshed_twice :
    (m : Machine) (r : Repository) (pull : PullRequest)
    → refreshed m r (refreshed m r pull) ≡ refreshed m r pull
unfolding refreshed
refreshed_twice m r pull =
    ap₂ (λ b h. record pull { base_sha = b; head_sha = h })
      (or_known_twice (resolve_ref m r.git_dir pull.base_ref) pull.base_sha)
      (or_known_twice (resolve_ref m r.git_dir pull.head_ref) pull.head_sha)

-- The list has the entry.
abbrev Among : RefSnapshot → List RefSnapshot → Type 0
Among s [] = ⊥
Among s (x ∷ rest) = (x ≡ s) ⊎ Among s rest

module _ (m : Machine) (r : Repository) (k : PullKey) where
  snapshot_of : PullRequest → RefSnapshot
  snapshot_of pull = record { key = k; base_ref = pull.base_ref; head_ref = pull.head_ref }

  -- A round for the pull request itself.
  refresh_pull-own :
      (w : World) (pull : PullRequest)
      → get w.pulls k ≡ some pull
      → get (refresh_pull m w r (snapshot_of pull)).pulls k ≡ some (refreshed m r pull)
  unfolding refresh_pull refreshed snapshot_of
  refresh_pull-own w pull found =
      rw (found, eq_refl pull.base_ref, eq_refl pull.head_ref) (get-put_self w.pulls k _)

  -- A write leaves it or refreshes it.
  written :
      (w : World) (s : RefSnapshot) (pull there : PullRequest)
      → get w.pulls k ≡ some pull
      → get w.pulls s.key ≡ some there
      → there.base_ref ≡ s.base_ref
      → there.head_ref ≡ s.head_ref
      → (get
            (put w.pulls s.key (record there {
              base_sha = or_known (resolve_ref m r.git_dir s.base_ref) there.base_sha;
              head_sha = or_known (resolve_ref m r.git_dir s.head_ref) there.head_sha;
            }))
            k
          ≡ some pull)
        ⊎ (get
              (put w.pulls s.key (record there {
                base_sha = or_known (resolve_ref m r.git_dir s.base_ref) there.base_sha;
                head_sha = or_known (resolve_ref m r.git_dir s.head_ref) there.head_sha;
              }))
              k
            ≡ some (refreshed m r pull))
  unfolding refreshed
  written w s pull there found at base head = elim (Bool-cases (s.key == k)) [
    | inl hit ↦
        let key : s.key ≡ k = (pull_key_beq_iff s.key k).0 hit in
        let same : there ≡ pull =
          some-injective _ _ (sym at ∙ ap (λ x. get w.pulls x) key ∙ found) in
        inr (
          get-put w.pulls s.key k _
          ∙ rw hit (
              ap₂
                (λ b h. some (record there {
                  base_sha = or_known (resolve_ref m r.git_dir b) there.base_sha;
                  head_sha = or_known (resolve_ref m r.git_dir h) there.head_sha;
                }))
                (sym base) (sym head)
              ∙ ap (λ x. some (refreshed m r x)) same))
    | inr miss ↦ inl (get-put w.pulls s.key k _ ∙ rw miss found)
  ]

  -- Any round leaves it or refreshes it.
  refresh_pull-other :
      (w : World) (s : RefSnapshot) (pull : PullRequest)
      → get w.pulls k ≡ some pull
      → (get (refresh_pull m w r s).pulls k ≡ some pull)
        ⊎ (get (refresh_pull m w r s).pulls k ≡ some (refreshed m r pull))
  unfolding refresh_pull refreshed
  refresh_pull-other w s pull found =
      option_cases
        (λ (x : World). (get x.pulls k ≡ some pull) ⊎ (get x.pulls k ≡ some (refreshed m r pull)))
        (get w.pulls s.key) _ _ (λ _. inl found)
        λ there at.
          if_cases
            (λ (x : World).
              (get x.pulls k ≡ some pull) ⊎ (get x.pulls k ≡ some (refreshed m r pull)))
            (there.base_ref == s.base_ref && there.head_ref == s.head_ref) _ _
            (λ hit.
              written w s pull there found at
                ((eq_iff there.base_ref s.base_ref).0 (ground (arith, hit)))
                ((eq_iff there.head_ref s.head_ref).0 (ground (arith, hit))))
            (λ _. inl found)

  -- Once it is refreshed, it stays so.
  refresh_pulls-kept :
      (w : World) (l : List RefSnapshot) (pull : PullRequest)
      → refreshed m r pull ≡ pull
      → get w.pulls k ≡ some pull
      → get (refresh_pulls m w r l).pulls k ≡ some pull
  unfolding refresh_pulls
  refresh_pulls-kept w [] pull fresh found = found
  refresh_pulls-kept w (s ∷ rest) pull fresh found =
      refresh_pulls-kept (refresh_pull m w r s) rest pull fresh
        (elim (refresh_pull-other w s pull found) [ inl e ↦ e | inr e ↦ e ∙ ap some fresh ])

  refresh_pulls-own :
      (w : World) (l : List RefSnapshot) (pull : PullRequest)
      → Among (snapshot_of pull) l
      → get w.pulls k ≡ some pull
      → get (refresh_pulls m w r l).pulls k ≡ some (refreshed m r pull)
  unfolding refresh_pulls
  refresh_pulls-own w [] pull among found = absurd among
  refresh_pulls-own w (s ∷ rest) pull among found =
      let kept : get (refresh_pull m w r s).pulls k ≡ some (refreshed m r pull)
          → get (refresh_pulls m (refresh_pull m w r s) r rest).pulls k
            ≡ some (refreshed m r pull) =
        refresh_pulls-kept (refresh_pull m w r s) rest (refreshed m r pull)
          (refreshed_twice m r pull) in
      elim among [
        | inl same ↦ kept (
            subst (λ x. get (refresh_pull m w r x).pulls k ≡ some (refreshed m r pull)) (sym same)
              (refresh_pull-own w pull found))
        | inr later ↦ elim (refresh_pull-other w s pull found) [
          | inl e ↦ refresh_pulls-own (refresh_pull m w r s) rest pull later e
          | inr e ↦ kept e
        ]
      ]

  -- The snapshots have each pull request of the repository.
  snapshots_of-Among :
      (l : List (PullKey × PullRequest)) (pull : PullRequest)
      → pull.repository_id ≡ r.id
      → find k l ≡ some pull
      → Among (snapshot_of pull) (snapshots_of r l)
  unfolding snapshots_of find snapshot_of
  snapshots_of-Among [] pull own found = absurd (ground arith)
  snapshots_of-Among ((j, p) ∷ rest) pull own found = elim (Bool-cases (j == k)) [
    | inl hit ↦
        let key : j ≡ k = (pull_key_beq_iff j k).0 hit in
        let same : p ≡ pull = some-injective _ _ (rw hit at found) in
        let mine : (p.repository_id == r.id) ≡ true =
          (nat_beq_iff p.repository_id r.id).1
            (ap (λ (x : PullRequest). x.repository_id) same ∙ own) in
        rw mine (
          inl (
            ap₂
              (λ a (b : PullRequest). record {
                key = a;
                base_ref = b.base_ref;
                head_ref = b.head_ref;
              })
              key same))
    | inr miss ↦
        let more = snapshots_of-Among rest pull own (rw miss at found) in
        if_cases (Among (snapshot_of pull)) (p.repository_id == r.id) _ _ (λ _. inr more)
          (λ _. more)
  ]

  -- After refreshPullSnapshots, each pull request of the repository has the commits that its branches
  -- have, or the last known one where a branch is gone, and is as it was otherwise.
  pub refresh_pull_snapshots-IsFresh :
      (w : World) (pull : PullRequest)
      → pull.repository_id ≡ r.id
      → get w.pulls k ≡ some pull
      → (new : PullRequest) × (get (refresh_pull_snapshots m w r).pulls k ≡ some new)
        × IsFresh m r pull new
  unfolding refresh_pull_snapshots
  refresh_pull_snapshots-IsFresh w pull own found = (
    refreshed m r pull,
    refresh_pulls-own w (snapshots_of r (items w.pulls)) pull
        (snapshots_of-Among (items w.pulls) pull own (sym (get-find w.pulls k) ∙ found)) found,
    refreshed-IsFresh m r pull,
  )

-- The runs are as they were.
workflow_runs-refresh_pulls :
    (m : Machine) (r : Repository) (w : World) (l : List RefSnapshot)
    → (refresh_pulls m w r l).workflow_runs ≡ w.workflow_runs
unfolding refresh_pulls refresh_pull
workflow_runs-refresh_pulls m r w [] = refl
workflow_runs-refresh_pulls m r w (s ∷ rest) =
    workflow_runs-refresh_pulls m r (refresh_pull m w r s) rest ∙ ground arith

pub workflow_runs-refresh_pull_snapshots :
    (m : Machine) (r : Repository) (w : World)
    → (refresh_pull_snapshots m w r).workflow_runs ≡ w.workflow_runs
unfolding refresh_pull_snapshots
workflow_runs-refresh_pull_snapshots m r w =
    workflow_runs-refresh_pulls m r w (snapshots_of r (items w.pulls))

-- recordRefChanges leaves the pull requests as they are.
pulls-record_ref :
    (w : World) (r : Repository) (token : InstallationToken) (ref before_sha after_sha : String)
    (forced : Bool)
    → (record_ref w r token ref before_sha after_sha forced).pulls ≡ w.pulls
unfolding record_ref append_push_event append_queued_workflow append_workflow_event
    append_pending_event append_pending_app_event
pulls-record_ref w r token ref before_sha after_sha forced = ground arith

pulls-record_refs :
    (w : World) (r : Repository) (token : InstallationToken) (before after : Refs)
    (forced : String → Bool) (refs : List String)
    → (record_refs w r token before after forced refs).0.pulls ≡ w.pulls
unfolding record_refs
pulls-record_refs w r token before after forced [] = refl
pulls-record_refs w r token before after forced (ref ∷ rest) =
    elim (Bool-cases (not (sha_of before ref == sha_of after ref))) [
      | inl hit ↦ rw hit (
          pulls-record_refs
            (record_ref w r token ref (sha_of before ref) (sha_of after ref) (forced ref)) r token
            before after forced rest
          ∙ pulls-record_ref w r token ref (sha_of before ref) (sha_of after ref) (forced ref))
      | inr miss ↦ rw miss (pulls-record_refs w r token before after forced rest)
    ]

pub pulls-record_ref_changes :
    (m : Machine) (w : World) (r : Repository) (token : InstallationToken) (before after : Refs)
    → (record_ref_changes m w r token before after).pulls ≡ w.pulls
unfolding record_ref_changes
pulls-record_ref_changes m w r token before after =
    let forced : String → Bool =
      λ ref. forced_update m r.git_dir (sha_of before ref) (sha_of after ref) in
    let refs = touched_refs before after in
    let kept = pulls-record_refs w r token before after forced refs in
    if_cases (λ (x : World). x.pulls ≡ w.pulls) (record_refs w r token before after forced refs).1 _
      _ (λ _. kept) (λ _. kept)
