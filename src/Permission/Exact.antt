-- ===== src/Permission/Exact.antt =====
-- selectPermissions against the rule that it implements.
use merger_herder_validation.Prelude.{
  String, ◌≡◌, List, true, All, some, ◌↔◌, arith, option_cases, ◌≤◌, string_key, refl,
}
use merger_herder_validation.Dict.{Dict, IsDistinct, get, get_of_All-items, items, All-items}
use merger_herder_validation.Prelude.{[], ◌∷◌}
use merger_herder_validation.Permission.{allows, allows_all, select_permissions, permission_rank}

-- What the rule asks of each wanted permission: a known level, and the same or a higher one granted.
abbrev pub MayHave : Dict String String → String → String → Type 0
MayHave granted name level =
    (above : String) × (get granted name ≡ some above)
    × (1 ≤ permission_rank level)
    × (permission_rank level ≤ permission_rank above)

allows-MayHave :
    (granted : Dict String String) (name level : String)
    → allows granted name level ≡ true
    → MayHave granted name level
unfolding allows
allows-MayHave granted name level =
    option_cases (λ b. b ≡ true → MayHave granted name level) (get granted name) _ _
      (λ _ h. absurd (ground arith)) (λ above found h. (above, found, ground arith, ground arith))

MayHave-allows :
    (granted : Dict String String) (name level : String)
    → MayHave granted name level
    → allows granted name level ≡ true
unfolding allows
MayHave-allows granted name level (above, found, known, enough) = ground (arith, found)

allows_all-MayHave :
    (granted : Dict String String) (l : List (String × String))
    → allows_all granted l ≡ true
    → All (λ p. MayHave granted p.0 p.1) l
unfolding allows_all
allows_all-MayHave granted [] all = tt
allows_all-MayHave granted ((name, level) ∷ rest) all = (
  allows-MayHave granted name level (ground arith),
  allows_all-MayHave granted rest (ground arith),
)

MayHave-allows_all :
    (granted : Dict String String) (l : List (String × String))
    → All (λ p. MayHave granted p.0 p.1) l
    → allows_all granted l ≡ true
unfolding allows_all
MayHave-allows_all granted [] all = refl
MayHave-allows_all granted ((name, level) ∷ rest) all =
    ground (arith, MayHave-allows granted name level all.0, MayHave-allows_all granted rest all.1)

-- selectPermissions gives the wanted permissions exactly where, for each of them, the level is known
-- and the same or a higher level is granted; whatever the order of the loop over them. The keys of
-- the wanted permissions differ, as those of each map do.
pub select_permissions-MayHave :
    (granted wanted : Dict String String)
    → IsDistinct wanted
    → (select_permissions granted (some wanted) ≡ some wanted)
      ↔ ((name level : String) → get wanted name ≡ some level → MayHave granted name level)
unfolding select_permissions
select_permissions-MayHave granted wanted distinct = (
  λ given name level found.
      get_of_All-items (λ p. MayHave granted p.0 p.1) wanted name level
        (allows_all-MayHave granted (items wanted) (ground arith)) found,
  λ rule.
      rw
        (MayHave-allows_all granted (items wanted)
          (All-items (λ p. MayHave granted p.0 p.1) wanted distinct rule))
        refl,
)
