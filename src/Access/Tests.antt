-- ===== src/Access/Tests.antt =====
-- Runs of the permission decision on the rows of a teacher who is also an auditor.
use openlms.Base.{◌≡◌, ◌≢◌, refl, true, false, List, [], ◌∷◌, none, some, leb, eq_iff}
use openlms.Base.Dict
use openlms.Base.Dict.{text_keys}
use openlms.Roles.{Role, guru, auditor}
use openlms.Access.{
  sendiri, kelas, sekolah, allow, deny, PermissionOverrideGrant, RolePermission, scope_rank,
  add_rows, can_access, parse_scope_from_code, resolve_permissions,
}
use openlms.Access.Union.{deny_of, rank_of, max_rank, last_row_decides, widest_scope_wins}
use openlms.Access.Decision.{rows_of, last_row_grants, widest_scope_grants}

abbrev denied : RolePermission
denied = record { role = auditor; code = "grade:write"; effect = deny; scope_default = sekolah }

abbrev allowed : RolePermission
allowed = record { role = guru; code = "grade:write"; effect = allow; scope_default = kelas }

abbrev own : RolePermission
own = record { role = auditor; code = "grade:read:class"; effect = allow; scope_default = sendiri }

abbrev class_wide : RolePermission
class_wide = record {
  role = guru;
  code = "grade:read:class";
  effect = allow;
  scope_default = kelas;
}

abbrev table : List RolePermission
table = denied ∷ own ∷ allowed ∷ class_wide ∷ []

abbrev roles : List Role
roles = guru ∷ auditor ∷ []

abbrev no_overrides : List PermissionOverrideGrant
no_overrides = []

parse_scope-class : parse_scope_from_code "grade:read:class" ≡ some kelas
unfolding parse_scope_from_code
parse_scope-class = refl

parse_scope-plain : parse_scope_from_code "grade:write" ≡ none
unfolding parse_scope_from_code
parse_scope-plain = refl

other_code : class_wide.code ≢ "grade:write"
other_code p = let same = (eq_iff "grade:read:class" "grade:write").1 p in cc

last_row_decides_example :
    deny_of (Dict.lookup "grade:write" (add_rows (denied ∷ own ∷ allowed ∷ class_wide ∷ []) []))
    ≡ some false
last_row_decides_example =
    last_row_decides (denied ∷ own ∷ []) (class_wide ∷ []) allowed [] (other_code, tt)

last_row_grants_example :
    can_access "grade:write" (resolve_permissions table roles) no_overrides ≡ true
last_row_grants_example =
    last_row_grants "grade:write" guru (auditor ∷ []) table (denied ∷ own ∷ []) (class_wide ∷ [])
      allowed no_overrides refl refl (other_code, tt) refl parse_scope-plain

widest_scope_wins_example :
    (rank_of (Dict.lookup "grade:read:class" (add_rows (own ∷ class_wide ∷ []) []))
      ≡ max_rank "grade:read:class" (own ∷ class_wide ∷ []))
    × (deny_of (Dict.lookup "grade:read:class" (add_rows (own ∷ class_wide ∷ []) [])) ≢ some true)
widest_scope_wins_example =
    widest_scope_wins "grade:read:class" (own ∷ class_wide ∷ []) (λ _. refl, (λ _. refl, tt))

widest_scope_grants_example :
    can_access "grade:read:class" (resolve_permissions (own ∷ class_wide ∷ []) roles) no_overrides
    ≡ leb (scope_rank kelas) (max_rank "grade:read:class" (rows_of (own ∷ class_wide ∷ []) roles))
widest_scope_grants_example =
    widest_scope_grants "grade:read:class" kelas guru (auditor ∷ []) (own ∷ class_wide ∷ [])
      no_overrides (λ _. refl, (λ _. refl, tt)) refl parse_scope-class

abbrev revoked : PermissionOverrideGrant
revoked = record { code = "grade:write"; effect = deny }
