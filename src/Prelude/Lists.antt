-- ===== src/Prelude/Lists.antt =====
-- Lists measured and indexed by the native numbers, and predicates on lists.
use Prim.Native.Nat.{ℕ, zero, suc, ◌+◌, ◌<◌}
use mathlib.Core.Path.{◌≡◌, refl, subst}
use mathlib.Core.Logic.{◌≢◌}
use mathlib.Core.Option.{Option, none, some, some-injective}
use mathlib.Core.List.{List, [], ◌∷◌, ◌++◌}
use native.Mathlib.Omega.{arith}

module _ {ℓ} {A : Type ℓ} where
  abbrev pub length : List A → ℕ
  length [] = 0
  length (x ∷ xs) = suc (length xs)

  abbrev pub get_elem? : List A → ℕ → Option A
  get_elem? [] i = none
  get_elem? (x ∷ xs) zero = some x
  get_elem? (x ∷ xs) (suc i) = get_elem? xs i

  -- A write out of bounds changes nothing.
  abbrev pub set : List A → ℕ → A → List A
  set [] i v = []
  set (x ∷ xs) zero v = v ∷ xs
  set (x ∷ xs) (suc i) v = x ∷ set xs i v

  pub length-append : (xs ys : List A) → length (xs ++ ys) ≡ length xs + length ys
  length-append [] ys = omega arith
  length-append (x ∷ xs) ys = omega (arith, length-append xs ys)

  pub length-set : (xs : List A) (i : ℕ) (v : A) → length (set xs i v) ≡ length xs
  length-set [] i v = refl
  length-set (x ∷ xs) zero v = refl
  length-set (x ∷ xs) (suc i) v = omega (arith, length-set xs i v)

  pub get_elem?-set_ne :
      (xs : List A) (i j : ℕ) (v : A) → i ≢ j → get_elem? (set xs i v) j ≡ get_elem? xs j
  get_elem?-set_ne [] i j v h = refl
  get_elem?-set_ne (x ∷ xs) zero zero v h = absurd (h refl)
  get_elem?-set_ne (x ∷ xs) zero (suc j) v h = refl
  get_elem?-set_ne (x ∷ xs) (suc i) zero v h = refl
  get_elem?-set_ne (x ∷ xs) (suc i) (suc j) v h = get_elem?-set_ne xs i j v (omega arith)

  pub get_elem?-set_self :
      (xs : List A) (i : ℕ) (v a : A) → get_elem? xs i ≡ some a → get_elem? (set xs i v) i ≡ some v
  get_elem?-set_self [] i v a h = ground arith
  get_elem?-set_self (x ∷ xs) zero v a h = refl
  get_elem?-set_self (x ∷ xs) (suc i) v a h = get_elem?-set_self xs i v a h

  pub get_elem?-append :
      (xs ys : List A) (i : ℕ) (a : A) → get_elem? xs i ≡ some a → get_elem? (xs ++ ys) i ≡ some a
  get_elem?-append [] ys i a h = ground arith
  get_elem?-append (x ∷ xs) ys zero a h = h
  get_elem?-append (x ∷ xs) ys (suc i) a h = get_elem?-append xs ys i a h

  -- An index that finds an entry is within the list.
  pub lt_of_get_elem? : (xs : List A) (i : ℕ) (a : A) → get_elem? xs i ≡ some a → i < length xs
  lt_of_get_elem? [] i a h = absurd (ground arith)
  lt_of_get_elem? (x ∷ xs) zero a h = omega arith
  lt_of_get_elem? (x ∷ xs) (suc i) a h = omega (arith, lt_of_get_elem? xs i a h)

module _ {ℓ κ} {A : Type ℓ} (P : A → Type κ) where
  -- Every entry of the list satisfies `P`.
  abbrev pub All : List A → Type κ
  All [] = Unit
  All (x ∷ xs) = P x × All xs

  pub All-append : (xs ys : List A) → All xs → All ys → All (xs ++ ys)
  All-append [] ys hx hy = hy
  All-append (x ∷ xs) ys hx hy = (hx.0, All-append xs ys hx.1 hy)

  pub All-set : (xs : List A) (i : ℕ) (v : A) → All xs → P v → All (set xs i v)
  All-set [] i v h p = tt
  All-set (x ∷ xs) zero v h p = (p, h.1)
  All-set (x ∷ xs) (suc i) v h p = (h.0, All-set xs i v h.1 p)

  pub All-get_elem? : (xs : List A) (i : ℕ) (a : A) → All xs → get_elem? xs i ≡ some a → P a
  All-get_elem? [] i a h e = ground arith
  All-get_elem? (x ∷ xs) zero a h e = subst P (some-injective _ _ e) h.0
  All-get_elem? (x ∷ xs) (suc i) a h e = All-get_elem? xs i a h.1 e

-- The entries of a list satisfy `P` at their positions, the first of which is `n`.
module _ {ℓ κ} {A : Type ℓ} (P : ℕ → A → Type κ) where
  abbrev pub AllFrom : ℕ → List A → Type κ
  AllFrom n [] = Unit
  AllFrom n (x ∷ xs) = P n x × AllFrom (suc n) xs

  pub AllFrom-append_one :
      (n k : ℕ) (xs : List A) (y : A)
      → k ≡ n + length xs
      → AllFrom n xs
      → P k y
      → AllFrom n (xs ++ y ∷ [])
  AllFrom-append_one n k [] y e h p = (subst (λ i. P i y) (omega arith) p, tt)
  AllFrom-append_one n k (x ∷ xs) y e h p =
      (h.0, AllFrom-append_one (suc n) k xs y (omega arith) h.1 p)

  pub AllFrom-set :
      (n : ℕ) (xs : List A) (i : ℕ) (v a : A)
      → get_elem? xs i ≡ some a
      → ((k : ℕ) → P k a → P k v)
      → AllFrom n xs
      → AllFrom n (set xs i v)
  AllFrom-set n [] i v a e f h = tt
  AllFrom-set n (x ∷ xs) zero v a e f h = (f n (subst (P n) (some-injective _ _ e) h.0), h.1)
  AllFrom-set n (x ∷ xs) (suc i) v a e f h = (h.0, AllFrom-set (suc n) xs i v a e f h.1)

  pub AllFrom-get_elem? :
      (n : ℕ) (xs : List A) (i : ℕ) (a : A) → AllFrom n xs → get_elem? xs i ≡ some a → P (n + i) a
  AllFrom-get_elem? n [] i a h e = absurd (ground arith)
  AllFrom-get_elem? n (x ∷ xs) zero a h e =
      subst (λ k. P k a) (omega arith) (subst (P n) (some-injective _ _ e) h.0)
  AllFrom-get_elem? n (x ∷ xs) (suc i) a h e =
      subst (λ k. P k a) (omega arith) (AllFrom-get_elem? (suc n) xs i a h.1 e)
