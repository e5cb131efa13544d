-- ===== src/Permission/Rank.antt =====
-- What the levels allow: the permissions that selectPermissions gives are within those granted.
use merger_herder_validation.Prelude.{
  ◌∷◌, String, ◌≡◌, List, Option, true, some, option_cases, All, arith, ◌≤◌, string_key,
  some-injective, if_cases, none, subst, [], sym,
}
use merger_herder_validation.Dict.{Dict, get, items, get_of_All-items}
use merger_herder_validation.Permission.{allows_all, allows, select_permissions, permission_rank}

-- A level that the granted permissions cover.
abbrev pub IsCovered : Dict String String → String → String → Type 0
IsCovered granted name level =
    (above : String) × (get granted name ≡ some above)
    × (permission_rank level ≤ permission_rank above)

allows-IsCovered :
    (granted : Dict String String) (name level : String)
    → allows granted name level ≡ true
    → IsCovered granted name level
unfolding allows
allows-IsCovered granted name level =
    option_cases (λ b. b ≡ true → IsCovered granted name level) (get granted name) _ _
      (λ _ h. absurd (ground arith)) (λ above found h. (above, found, ground arith))

allows_all-IsCovered :
    (granted : Dict String String) (l : List (String × String))
    → allows_all granted l ≡ true
    → All (λ p. IsCovered granted p.0 p.1) l
unfolding allows_all
allows_all-IsCovered granted [] all = tt
allows_all-IsCovered granted ((name, level) ∷ rest) all = (
  allows-IsCovered granted name level (ground arith),
  allows_all-IsCovered granted rest (ground arith),
)

-- Where selectPermissions gives permissions, each of them is granted, at the same level or above.
pub select_permissions-IsCovered :
    (granted : Dict String String) (requested : Option (Dict String String))
    (selected : Dict String String) (name level : String)
    → select_permissions granted requested ≡ some selected
    → get selected name ≡ some level
    → (above : String) × (get granted name ≡ some above)
      × (permission_rank level ≤ permission_rank above)
unfolding select_permissions
select_permissions-IsCovered granted none selected name level e h =
    (level, subst (λ s. get s name ≡ some level) (sym (some-injective _ _ e)) h, omega arith)
select_permissions-IsCovered granted (some wanted) selected name level e h =
    if_cases (λ o. o ≡ some selected → IsCovered granted name level)
      (allows_all granted (items wanted)) _ _
      (λ allowed same.
        get_of_All-items (λ p. IsCovered granted p.0 p.1) wanted name level
          (allows_all-IsCovered granted (items wanted) allowed)
          (subst (λ s. get s name ≡ some level) (sym (some-injective _ _ same)) h))
      (λ _ same. absurd (ground arith)) e
