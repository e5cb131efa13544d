-- ===== src/Public/Tokens/Scope.antt =====
-- What an installation token reaches: selectRepositories and CreateInstallationToken.
use merger_herder_validation.World.{World, Installation, zero_repository}
use merger_herder_validation.Prelude.{
  ℕ, List, ◌≡◌, arith, String, true, some, All, ◌∷◌, if_cases, sym, nat_key, Bool-cases, not,
  some-injective, ◌==◌, get_or, [], option_cases, ◌&&◌, inl, nat_beq_iff, inr, subst,
}
use merger_herder_validation.Text.{Unicode, equal_fold}
use merger_herder_validation.Dict.{Keys, has, empty, keys, get-empty, put, All-keys, get, has-put}
use merger_herder_validation.Public.Tokens.{
  named_repository, select_ids, select_repositories, select_names, TokenOptions, non_empty,
}

-- Keys that are all granted.
abbrev pub IsWithin : Keys ℕ → Keys ℕ → Type 0
IsWithin selected granted = (k : ℕ) → has selected k ≡ true → has granted k ≡ true

put-IsWithin :
    (selected granted : Keys ℕ) (i : ℕ)
    → has granted i ≡ true
    → IsWithin selected granted
    → IsWithin (put selected i tt) granted
put-IsWithin selected granted i allowed h k = elim (Bool-cases (i == k)) [
  | inl hit ↦ λ _. rw (sym ((nat_beq_iff i k).0 hit)) allowed
  | inr miss ↦ λ found. h k (ground (arith, has-put selected i k tt))
]

empty-IsWithin : (granted : Keys ℕ) → IsWithin empty granted
empty-IsWithin granted k h = absurd (ground (arith, get-empty {V = Unit {0}} k))

select_ids-IsWithin :
    (granted : Keys ℕ) (wanted : List ℕ) (selected result : Keys ℕ)
    → select_ids granted wanted selected ≡ some result
    → IsWithin selected granted
    → IsWithin result granted
unfolding select_ids
select_ids-IsWithin granted [] selected result e h =
    subst (λ s. IsWithin s granted) (some-injective _ _ e) h
select_ids-IsWithin granted (i ∷ rest) selected result e h =
    if_cases (λ o. o ≡ some result → IsWithin result granted) (has granted i) _ _
      (λ allowed more.
        select_ids-IsWithin granted rest (put selected i tt) result more
          (put-IsWithin selected granted i allowed h))
      (λ _ more. absurd (ground arith)) e

named_repository-All :
    (u : Unicode) (w : World) (name : String) (P : ℕ → Type 0) (l : List ℕ) (i : ℕ)
    → All P l
    → named_repository u w name l ≡ some i
    → P i
unfolding named_repository
named_repository-All u w name P [] i h e = absurd (ground arith)
named_repository-All u w name P (j ∷ rest) i h e =
    if_cases (λ o. o ≡ some i → P i)
      (equal_fold u (get_or (get w.repositories j) zero_repository).name name) _ _
      (λ _ same. subst P (some-injective _ _ same) h.0)
      (λ _ more. named_repository-All u w name P rest i h.1 more) e

select_names-IsWithin :
    (u : Unicode) (w : World) (granted : Keys ℕ) (wanted : List String) (selected result : Keys ℕ)
    → select_names u w (keys granted) wanted selected ≡ some result
    → IsWithin selected granted
    → IsWithin result granted
unfolding select_names
select_names-IsWithin u w granted [] selected result e h =
    subst (λ s. IsWithin s granted) (some-injective _ _ e) h
select_names-IsWithin u w granted (name ∷ rest) selected result e h =
    option_cases (λ o. o ≡ some result → IsWithin result granted)
      (named_repository u w name (keys granted)) _ _ (λ _ more. absurd (ground arith))
      (λ i found more. select_names-IsWithin u w granted rest (put selected i tt) result more (
        put-IsWithin selected granted i
          (named_repository-All u w name (λ k. has granted k ≡ true) (keys granted) i
            (All-keys (λ k. has granted k ≡ true) granted (λ k it. it)) found)
          h))
      e

-- The repositories that selectRepositories gives are all of the installation.
pub select_repositories-IsWithin :
    (u : Unicode) (w : World) (installation : Installation) (options : TokenOptions)
    (selected : Keys ℕ)
    → select_repositories u w installation options ≡ some selected
    → IsWithin selected installation.repository_ids
unfolding select_repositories
select_repositories-IsWithin u w installation options selected e =
    let granted = installation.repository_ids in
    if_cases (λ o. o ≡ some selected → IsWithin selected granted)
      (not (non_empty options.repository_ids) && not (non_empty options.repositories)) _ _
      (λ _ same. subst (λ s. IsWithin s granted) (some-injective _ _ same) (λ k it. it))
      (λ _.
        option_cases (λ o. o ≡ some selected → IsWithin selected granted)
          (select_ids granted options.repository_ids empty) _ _ (λ _ more. absurd (ground arith))
          (λ ids found more.
            select_names-IsWithin u w granted options.repositories ids selected more (
              select_ids-IsWithin granted options.repository_ids empty ids found
                (empty-IsWithin granted))))
      e
