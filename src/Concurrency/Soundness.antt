-- ===== src/Concurrency/Soundness.antt =====
-- Executions that run side by side do not disturb one another.
use merger_herder_validation.Concurrency.Others.{OwnEffect, OwnEffect-Holds}
use merger_herder_validation.Dict.{has}
use merger_herder_validation.Concurrency.Holds.{
  Executor, run_id_of, Holds, RunEffect-Holds, RunEffect-has,
}
use merger_herder_validation.Concurrency.System.{System, Handled, Handled-closed, update}
use merger_herder_validation.Prelude.{
  ℕ, Option, ◌≡◌, some, true, nat_key, ◌≢◌, ◌⊎◌, none, Bool-cases, false, ◌==◌, inl, sym, arith,
  nat_beq_iff, inr, ◌∙◌, Option-cases,
}

-- Some execution under way has claimed the run.
abbrev pub Owner : (ℕ → Option Executor) → ℕ → Type 0
Owner pool k = (t : ℕ) × (e : Executor) × (pool t ≡ some e) × (run_id_of e ≡ k)

-- Each execution has what it relies on, no two have one run, and each claim belongs to one of them.
pub record IsSound (s : System) : Type 0 where
  pub held : (t : ℕ) (e : Executor) → s.pool t ≡ some e → Holds e s.world
  pub distinct :
      (t u : ℕ) (d e : Executor)
      → s.pool t ≡ some d
      → s.pool u ≡ some e
      → run_id_of d ≡ run_id_of e
      → t ≡ u
  pub owned : (k : ℕ) → has s.world.active_runs k ≡ true → Owner s.pool k

-- A handler takes a sound system to a sound one.
pub handles-IsSound :
    (s s' : System) → Handled s.world s'.world → s'.pool ≡ s.pool → IsSound s → IsSound s'
handles-IsSound s s' step same h = record {
  held = λ t e here.
      Handled-closed (Holds e) (RunEffect-Holds e) s.world s'.world step
        (h.held t e (rw same at here));
  distinct = λ t u d e here there. h.distinct t u d e (rw same at here) (rw same at there);
  owned = rw same (
      Handled-closed (λ w. (k : ℕ) → has w.active_runs k ≡ true → Owner s.pool k)
        (λ a b effect owned k claimed. owned k (RunEffect-has a b effect k claimed)) s.world
        s'.world step h.owned);
}

-- What the pool has after one of its entries has changed.
update_cases :
    (pool pool' : ℕ → Option Executor) (t : ℕ) (o : Option Executor) (u : ℕ) (e : Executor)
    → pool' ≡ update pool t o
    → pool' u ≡ some e
    → ((t ≡ u) × (o ≡ some e)) ⊎ ((t ≢ u) × (pool u ≡ some e))
update_cases pool pool' t o u e same here =
    let there : update pool t o u ≡ some e = (rw same at here) in
    elim (Bool-cases (u == t)) [
      | inl hit ↦ inl (ground (arith, nat_beq_iff u t), ground arith)
      | inr miss ↦ inr (ground (arith, nat_beq_iff u t), ground arith)
    ]

-- A step of the execution `t` of run `k`, which leaves `o` in its place.
module _ (s s' : System) (t k : ℕ) (o : Option Executor) (effect : OwnEffect k s.world s'.world)
    (pool : s'.pool ≡ update s.pool t o)
    (others : (u : ℕ) (e : Executor) → t ≢ u → s.pool u ≡ some e → k ≢ run_id_of e)
    (mine : (e : Executor) → s.pool t ≡ some e → run_id_of e ≡ k)
    (new : (e : Executor) → o ≡ some e → Holds e s'.world × (run_id_of e ≡ k))
    (ends : o ≡ none → has s'.world.active_runs k ≡ false) (h : IsSound s) where
  own_held : (u : ℕ) (e : Executor) → s'.pool u ≡ some e → Holds e s'.world
  own_held u e here = elim (update_cases s.pool s'.pool t o u e pool here) [
    | inl (same, it) ↦ (new e it).0
    | inr (other, there) ↦
        OwnEffect-Holds k e s.world s'.world effect (others u e other there) (h.held u e there)
  ]

  own_distinct :
      (u v : ℕ) (d e : Executor)
      → s'.pool u ≡ some d
      → s'.pool v ≡ some e
      → run_id_of d ≡ run_id_of e
      → u ≡ v
  own_distinct u v d e at_u at_v same = elim (update_cases s.pool s'.pool t o u d pool at_u) [
    | inl (here, it) ↦ elim (update_cases s.pool s'.pool t o v e pool at_v) [
      | inl (here', it') ↦ sym here ∙ here'
      | inr (other, there) ↦ absurd (others v e other there (sym (new d it).1 ∙ same))
    ]
    | inr (other, there) ↦ elim (update_cases s.pool s'.pool t o v e pool at_v) [
      | inl (here', it') ↦ absurd (others u d other there (sym (new e it').1 ∙ sym same))
      | inr (other', there') ↦ h.distinct u v d e there there' same
    ]
  ]

  own_owned : (j : ℕ) → has s'.world.active_runs j ≡ true → Owner s'.pool j
  own_owned j claimed = elim (Bool-cases (k == j)) [
    | inl hit ↦
        let same : k ≡ j = (nat_beq_iff k j).0 hit in
        elim (Option-cases o) [
          | inl gone ↦ absurd (ground (arith, ends gone))
          | inr (e, it) ↦ (t, e, rw pool (ground (arith, nat_beq_iff t t)), (new e it).1 ∙ same)
        ]
    | inr miss ↦
        let other : k ≢ j = ground (arith, nat_beq_iff k j) in
        let (u, e, at_u, id) = h.owned j (rw (effect.active j other) at claimed) in
        (u, e, rw pool (ground (arith, nat_beq_iff u t, mine e)), id)
  ]

  pub own_step-IsSound : IsSound s'
  own_step-IsSound = record { held = own_held; distinct = own_distinct; owned = own_owned }
