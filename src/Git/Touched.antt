-- ===== src/Git/Touched.antt =====
-- The branches that recordRefChanges goes through: each that has moved, once.
use merger_herder_validation.Dict.Entries.{find, Distinct}
use merger_herder_validation.Dict.{
  keys, get, Keys, items, IsDistinct, Dict, has, put, empty, IsDistinct-put, has-put, get-find,
  IsDistinct-empty, IsDistinct-items,
}
use merger_herder_validation.Text.{times, times-sort}
use merger_herder_validation.Prelude.{
  [], ◌∷◌, String, List, ◌≢◌, ◌≡◌, is_some, ◌≤◌, map, true, ap, arith, refl, Bool-cases, sym,
  string_key, inl, ◌==◌, false, inr, eq_iff, suc, ◌∙◌,
}
use merger_herder_validation.Git.Push.{Refs, touched_refs, sha_of, add_all}

keys_of_items : (d : Dict String (Unit {0})) → keys d ≡ map (λ p. p.0) (items d)
unfolding keys items
keys_of_items d = refl

times-Distinct :
    (k : String) (l : List (String × Unit {0}))
    → Distinct l
    → is_some (find k l) ≡ true
    → times k (map (λ p. p.0) l) ≡ 1
unfolding times find
times-Distinct k [] distinct h = absurd (ground arith)
times-Distinct k ((j, v) ∷ l) distinct h = elim (Bool-cases (j == k)) [
  | inl hit ↦
      let same : j ≡ k = (eq_iff j k).0 hit in
      rw hit
        (ap suc (times-absent k l (ground (arith, ap (λ x. is_some (find x l)) same, distinct.0))))
  | inr miss ↦ rw miss (times-Distinct k l distinct.1 (ground (arith, h, miss)))
]
  where
    times-absent :
        (k : String) (l : List (String × Unit {0}))
        → is_some (find k l) ≡ false
        → times k (map (λ p. p.0) l) ≡ 0
    times-absent k [] h = refl
    times-absent k ((j, v) ∷ l) h = ground (arith, times-absent k l)

times_of_found :
    {V : Type 0} (k : String) (l : List (String × V))
    → is_some (find k l) ≡ true
    → 1 ≤ times k (map (λ p. p.0) l)
unfolding times find
times_of_found k [] h = absurd (ground arith)
times_of_found k ((j, v) ∷ l) h = ground (arith, times_of_found k l)

add_all-IsDistinct : (l : List String) (s : Keys String) → IsDistinct s → IsDistinct (add_all l s)
unfolding add_all
add_all-IsDistinct [] s h = h
add_all-IsDistinct (ref ∷ rest) s h =
    add_all-IsDistinct rest (put s ref tt) (IsDistinct-put s ref tt h)

add_all-kept :
    (l : List String) (s : Keys String) (k : String) → has s k ≡ true → has (add_all l s) k ≡ true
unfolding add_all
add_all-kept [] s k h = h
add_all-kept (ref ∷ rest) s k h =
    add_all-kept rest (put s ref tt) k (ground (arith, has-put s ref k tt, h))

add_all-added :
    (l : List String) (s : Keys String) (k : String) → 1 ≤ times k l → has (add_all l s) k ≡ true
unfolding add_all times
add_all-added [] s k h = absurd (omega (arith, h))
add_all-added (ref ∷ rest) s k h = elim (Bool-cases (ref == k)) [
  | inl hit ↦ add_all-kept rest (put s ref tt) k (ground (arith, has-put s ref k tt, hit))
  | inr miss ↦ add_all-added rest (put s ref tt) k (ground (arith, h, miss))
]

times_of_has : (refs : Refs) (k : String) → has refs k ≡ true → 1 ≤ times k (keys refs)
unfolding keys get items
times_of_has refs k h = times_of_found k (items refs) (ap is_some (sym (get-find refs k)) ∙ h)

-- A branch that has moved stands once among those that are gone through.
pub times-touched_refs :
    (before after : Refs) (ref : String)
    → sha_of before ref ≢ sha_of after ref
    → times ref (touched_refs before after) ≡ 1
unfolding touched_refs
times-touched_refs before after ref moved =
    let old = add_all (keys before) empty in
    let all = add_all (keys after) old in
    let distinct =
      add_all-IsDistinct (keys after) old
        (add_all-IsDistinct (keys before) empty (IsDistinct-empty String (Unit {0}))) in
    times-sort ref (keys all)
    ∙ rw (keys_of_items all) (
        times-Distinct ref (items all) (IsDistinct-items all distinct)
          (ap is_some (sym (get-find all ref)) ∙ there))
  where
    there : has (add_all (keys after) (add_all (keys before) empty)) ref ≡ true
    there = elim (Bool-cases (has before ref)) [
      | inl old ↦
          add_all-kept (keys after) (add_all (keys before) empty) ref
            (add_all-added (keys before) empty ref (times_of_has before ref old))
      | inr none_before ↦ elim (Bool-cases (has after ref)) [
        | inl new ↦
            add_all-added (keys after) (add_all (keys before) empty) ref
              (times_of_has after ref new)
        | inr none_after ↦ absurd (moved (ground (arith, none_before, none_after)))
      ]
    ]
