-- ===== src/Dict.antt =====
-- Go's maps. A range over a map visits its entries in an order of the representation: the order
-- that Go leaves open.
pub mod Entries
use merger_herder_validation.Prelude.{
  ℕ, ◌+◌, ◌≡◌, refl, Bool, true, false, Option, none, some, List, [], ◌∷◌, arith, Key, ◌==◌, map,
  if◌then◌else◌, length, is_some, get_or, All, ◌≢◌,
}
use Entries.{
  find, insert, without, find-insert, find-without, length-insert, All-keys_of_find,
  find_of_All-keys, find_of_All, Distinct, Distinct-insert, All-of_find,
}

pub record Dict {ℓ κ} (K : Type ℓ) (V : Type κ) : Type (ℓ ⊔ κ) where
  entries : List (K × V)

-- make(map[K]V)
unfoldable pub empty {ℓ κ} : {K : Type ℓ} {V : Type κ} → Dict K V
empty = record { entries = [] }

-- len(m)
unfoldable pub size {ℓ κ} : {K : Type ℓ} {V : Type κ} → Dict K V → ℕ
size d = length d.entries

-- The entries that a range visits.
unfoldable pub items {ℓ κ} : {K : Type ℓ} {V : Type κ} → Dict K V → List (K × V)
items d = d.entries

-- The keys that a range visits.
unfoldable pub keys {ℓ κ} : {K : Type ℓ} {V : Type κ} → Dict K V → List K
keys d = map (λ p. p.0) d.entries

module _ {ℓ κ} {K : Type ℓ} {V : Type κ} ⦃e : Key K⦄ where
  -- v, found := m[k]
  unfoldable pub get : Dict K V → K → Option V
  unfolding find
  get d k = find k d.entries

  -- _, found := m[k]
  abbrev pub has : Dict K V → K → Bool
  has d k = is_some (get d k)

  -- m[k] = v
  unfoldable pub put : Dict K V → K → V → Dict K V
  unfolding insert
  put d k v = record { entries = insert k v d.entries }

  -- delete(m, k)
  unfoldable pub remove : Dict K V → K → Dict K V
  unfolding without
  remove d k = record { entries = without k d.entries }

  pub get-put :
      (d : Dict K V) (k j : K) (v : V) → get (put d k v) j ≡ (if k == j then some v else get d j)
  unfolding get put
  get-put d k j v = find-insert k j v d.entries

  pub get-remove :
      (d : Dict K V) (k j : K) → get (remove d k) j ≡ (if k == j then none else get d j)
  unfolding get remove
  get-remove d k j = find-without k j d.entries

  pub get-empty : (k : K) → get (empty {K = K} {V = V}) k ≡ none
  unfolding get empty
  get-empty k = refl

  pub get-put_ne : (d : Dict K V) (k j : K) (v : V) → k ≢ j → get (put d k v) j ≡ get d j
  get-put_ne d k j v differs = ground (arith, get-put d k j v, e.beq_iff k j)

  -- A new key makes the map one larger, a key that is there leaves its size.
  pub size-put :
      (d : Dict K V) (k : K) (v : V) → size (put d k v) ≡ (if has d k then size d else size d + 1)
  unfolding get put size
  size-put d k v = length-insert k v d.entries

  -- A range over the keys visits keys of the map only.
  pub All-keys : (P : K → Type κ) (d : Dict K V) → ((k : K) → has d k ≡ true → P k) → All P (keys d)
  unfolding get keys
  All-keys P d h = All-keys_of_find P d.entries h

  -- And it visits each of them.
  pub has_of_All-keys :
      (P : K → Type κ) (d : Dict K V) (k : K) → All P (keys d) → has d k ≡ true → P k
  unfolding get keys
  has_of_All-keys P d k h e = find_of_All-keys P d.entries k h e

  -- Each key stands once in the map's entries, as it does in a map that puts have made.
  abbrev pub IsDistinct : Dict K V → Type 0
  IsDistinct d = Distinct d.entries

  pub IsDistinct-put : (d : Dict K V) (k : K) (v : V) → IsDistinct d → IsDistinct (put d k v)
  unfolding put
  IsDistinct-put d k v h = Distinct-insert k v d.entries h

  pub get-find : (d : Dict K V) (k : K) → get d k ≡ find k (items d)
  unfolding get items
  get-find d k = refl

  pub IsDistinct-items : (d : Dict K V) → IsDistinct d → Distinct (items d)
  unfolding items
  IsDistinct-items d h = h

  -- A range over the entries visits each of them.
  pub get_of_All-items {μ} :
      (P : K × V → Type μ) (d : Dict K V) (k : K) (v : V)
      → All P (items d)
      → get d k ≡ some v
      → P (k, v)
  unfolding get items
  get_of_All-items P d k v h e = find_of_All P d.entries k v h e

  -- What holds of each lookup holds of each entry that a range visits.
  pub All-items {μ} :
      (P : K × V → Type μ) (d : Dict K V)
      → IsDistinct d
      → ((k : K) (v : V) → get d k ≡ some v → P (k, v))
      → All P (items d)
  unfolding get items
  All-items P d distinct h = All-of_find P d.entries distinct h

  pub has-put :
      (d : Dict K V) (k j : K) (v : V) → has (put d k v) j ≡ (if k == j then true else has d j)
  has-put d k j v = ground (arith, get-put d k j v)

  pub get-put_self : (d : Dict K V) (k : K) (v : V) → get (put d k v) k ≡ some v
  get-put_self d k v = ground (arith, get-put d k k v, e.beq_iff k k)

pub IsDistinct-empty {ℓ κ} :
    (K : Type ℓ) (V : Type κ) ⦃e : Key K⦄ → IsDistinct (empty {K = K} {V = V})
unfolding empty
IsDistinct-empty K V = tt

pub ruleset dict_laws = (get-put, get-remove, get-empty)

-- map[K]struct{}
abbrev pub Keys {ℓ} : Type ℓ → Type ℓ
Keys K = Dict K (Unit {0})
