-- ===== src/Dict/Entries.antt =====
-- The representation of a map: its entries in a list, each key once.
use merger_herder_validation.Prelude.{
  ◌+◌, ◌≡◌, refl, true, Option, none, some, List, [], ◌∷◌, arith, Key, ◌==◌, map, if◌then◌else◌,
  length, is_some, All, subst, Bool-cases, inl, inr, sym, false,
}

module _ {ℓ κ} {K : Type ℓ} {V : Type κ} ⦃e : Key K⦄ where
  unfoldable pub find : K → List (K × V) → Option V
  find k [] = none
  find k ((j, v) ∷ l) = if j == k then some v else find k l

  unfoldable pub insert : K → V → List (K × V) → List (K × V)
  insert k v [] = (k, v) ∷ []
  insert k v ((j, w) ∷ l) = if j == k then (k, v) ∷ l else (j, w) ∷ insert k v l

  unfoldable pub without : K → List (K × V) → List (K × V)
  without k [] = []
  without k ((j, v) ∷ l) = let rest = without k l in if j == k then rest else (j, v) ∷ rest

  pub find-insert :
      (k j : K) (v : V) (l : List (K × V))
      → find j (insert k v l) ≡ (if k == j then some v else find j l)
  unfolding find insert
  find-insert k j v [] = refl
  find-insert k j v ((i, w) ∷ l) =
      ground (arith, e.beq_iff k j, e.beq_iff i k, e.beq_iff i j, find-insert k j v l)

  pub find-without :
      (k j : K) (l : List (K × V)) → find j (without k l) ≡ (if k == j then none else find j l)
  unfolding find without
  find-without k j [] = ground arith
  find-without k j ((i, w) ∷ l) =
      ground (arith, e.beq_iff k j, e.beq_iff i k, e.beq_iff i j, find-without k j l)

  pub length-insert :
      (k : K) (v : V) (l : List (K × V))
      → length (insert k v l) ≡ (if is_some (find k l) then length l else length l + 1)
  unfolding find insert
  length-insert k v [] = omega arith
  length-insert k v ((i, w) ∷ l) = ground (arith, length-insert k v l)

  All-keys_cons :
      (P : K → Type κ) (j : K) (v : V) (l : List (K × V))
      → ((k : K) → is_some (find k ((j, v) ∷ l)) ≡ true → P k)
      → (k : K) → is_some (find k l) ≡ true
      → P k
  unfolding find
  All-keys_cons P j v l h k f = h k (ground arith)

  pub All-keys_of_find :
      (P : K → Type κ) (l : List (K × V))
      → ((k : K) → is_some (find k l) ≡ true → P k)
      → All P (map (λ p. p.0) l)
  unfolding find
  All-keys_of_find P [] h = tt
  All-keys_of_find P ((j, v) ∷ l) h =
      (h j (ground (arith, e.beq_iff j j)), All-keys_of_find P l (All-keys_cons P j v l h))

  pub find_of_All-keys :
      (P : K → Type κ) (l : List (K × V)) (k : K)
      → All P (map (λ p. p.0) l)
      → is_some (find k l) ≡ true
      → P k
  unfolding find
  find_of_All-keys P [] k h f = absurd (ground arith)
  find_of_All-keys P ((j, v) ∷ l) k h f = elim (Bool-cases (j == k)) [
    | inl hit ↦ subst P ((e.beq_iff j k).0 hit) h.0
    | inr miss ↦ find_of_All-keys P l k h.1 (ground arith)
  ]

  pub find_of_All {μ} :
      (P : K × V → Type μ) (l : List (K × V)) (k : K) (v : V)
      → All P l
      → find k l ≡ some v
      → P (k, v)
  unfolding find
  find_of_All P [] k v h f = absurd (ground arith)
  find_of_All P ((j, w) ∷ l) k v h f = elim (Bool-cases (j == k)) [
    | inl hit ↦
        let same : j ≡ k = (e.beq_iff j k).0 hit in
        let value : w ≡ v = ground arith in rw (← same, ← value) h.0
    | inr miss ↦ find_of_All P l k v h.1 (ground arith)
  ]

  -- No key stands twice.
  abbrev pub Distinct : List (K × V) → Type 0
  Distinct [] = Unit
  Distinct ((j, v) ∷ l) = (is_some (find j l) ≡ false) × Distinct l

  pub Distinct-insert : (k : K) (v : V) (l : List (K × V)) → Distinct l → Distinct (insert k v l)
  unfolding insert find
  Distinct-insert k v [] h = (refl, tt)
  Distinct-insert k v ((j, w) ∷ l) h = elim (Bool-cases (j == k)) [
    | inl hit ↦ rw hit (rw (sym ((e.beq_iff j k).0 hit)) h)
    | inr miss ↦ rw miss (
      ground (arith, find-insert k j v l, e.beq_iff j k, e.beq_iff k j, h.0),
      Distinct-insert k v l h.1,
    )
  ]

  -- Where each key stands once, what holds of each lookup holds of each entry.
  pub All-of_find {μ} :
      (P : K × V → Type μ) (l : List (K × V))
      → Distinct l
      → ((k : K) (v : V) → find k l ≡ some v → P (k, v))
      → All P l
  unfolding find
  All-of_find P [] d h = tt
  All-of_find P ((j, v) ∷ l) d h = (
    h j v (ground (arith, e.beq_iff j j)),
    All-of_find P l d.1 (λ k w found. elim (Bool-cases (j == k)) [
      | inl hit ↦ absurd (ground (arith, e.beq_iff j k, d.0, found))
      | inr miss ↦ h k w (ground (arith, found, miss))
    ]),
  )
