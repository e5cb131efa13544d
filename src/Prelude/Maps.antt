-- ===== src/Prelude/Maps.antt =====
-- The library's map against lookups, writes and additions by index.
use Prim.Native.Nat.{ℕ, zero, suc}
use mathlib.Core.Path.{◌≡◌, refl, ap, sym}
use mathlib.Core.Option.{some, some-injective}
use mathlib.Core.List.{List, [], ◌∷◌, map}
use native.Mathlib.Omega.{arith}
use merger_herder_validation.Prelude.Lists.{get_elem?, set}

pub set_same {ℓ} :
    {A : Type ℓ} (xs : List A) (i : ℕ) (a : A) → get_elem? xs i ≡ some a → set xs i a ≡ xs
set_same [] i a h = refl
set_same (x ∷ xs) zero a h = ap (λ y. y ∷ xs) (some-injective _ _ (sym h))
set_same (x ∷ xs) (suc i) a h = ap (λ l. x ∷ l) (set_same xs i a h)

module _ {ℓ κ} {A : Type ℓ} {B : Type κ} (f : A → B) where
  pub map-set : (xs : List A) (i : ℕ) (a : A) → map f (set xs i a) ≡ set (map f xs) i (f a)
  map-set [] i a = refl
  map-set (x ∷ xs) zero a = refl
  map-set (x ∷ xs) (suc i) a = ap (λ l. f x ∷ l) (map-set xs i a)

  pub get_elem?-map :
      (xs : List A) (i : ℕ) (a : A) → get_elem? xs i ≡ some a → get_elem? (map f xs) i ≡ some (f a)
  get_elem?-map [] i a h = ground arith
  get_elem?-map (x ∷ xs) zero a h = ap (λ y. some (f y)) (some-injective _ _ h)
  get_elem?-map (x ∷ xs) (suc i) a h = get_elem?-map xs i a h

  pub get_elem?-map_inv :
      (xs : List A) (i : ℕ) (b : B)
      → get_elem? (map f xs) i ≡ some b
      → (a : A) × (get_elem? xs i ≡ some a) × (f a ≡ b)
  get_elem?-map_inv [] i b h = absurd (ground arith)
  get_elem?-map_inv (x ∷ xs) zero b h = (x, refl, some-injective _ _ h)
  get_elem?-map_inv (x ∷ xs) (suc i) b h = get_elem?-map_inv xs i b h
