-- ===== src/Text/Order.antt =====
-- sort.Strings: texts in the order of their bytes.
use Prim.Native.Nat.{Ordering}
use Prim.Native.String.{compare}
use merger_herder_validation.Prelude.{
  ◌≡◌, refl, Bool, true, false, List, [], ◌∷◌, String, if◌then◌else◌, ℕ, arith, ◌∙◌, ◌==◌, suc,
  string_key,
}

-- s <= t
unfoldable pub text_le : String → String → Bool
text_le s t = elim (compare s t) [ Ordering.gt ↦ false | _ ↦ true ]

unfoldable insert_sorted : String → List String → List String
unfolding text_le
insert_sorted s [] = s ∷ []
insert_sorted s (t ∷ r) = if text_le s t then s ∷ t ∷ r else t ∷ insert_sorted s r

unfoldable pub sort : List String → List String
unfolding insert_sorted
sort [] = []
sort (s ∷ r) = insert_sorted s (sort r)

sort_refs : sort ("main" ∷ "dev" ∷ "feature" ∷ []) ≡ "dev" ∷ "feature" ∷ "main" ∷ []
unfolding sort
sort_refs = refl

-- How often a text stands in a list.
unfoldable pub times : String → List String → ℕ
times k [] = 0
times k (s ∷ r) = let more = times k r in if s == k then suc more else more

times-insert_sorted :
    (k s : String) (l : List String) → times k (insert_sorted s l) ≡ times k (s ∷ l)
unfolding times insert_sorted
times-insert_sorted k s [] = refl
times-insert_sorted k s (t ∷ r) = ground (arith, times-insert_sorted k s r)

-- Sorting keeps the texts.
pub times-sort : (k : String) (l : List String) → times k (sort l) ≡ times k l
unfolding times sort
times-sort k [] = refl
times-sort k (s ∷ r) = times-insert_sorted k s (sort r) ∙ ground (arith, times-sort k r)
