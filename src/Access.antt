-- ===== src/Access.antt =====
-- Permissions: apps/api/src/modules/auth/permissions-resolver.ts. A code is "resource:action" or
-- "resource:action:scope"; texts are ASCII where the source changes their case.
pub mod Union
pub mod Decision
pub mod Suffix
mod Tests
use openlms.Base.{
  ℕ, ◌-◌, Bool, true, false, ◌&&◌, ◌||◌, List, [], ◌∷◌, ◌++◌, map, Option, none, some, String, ltb,
  leb, ◌==◌, ◌=ₛ◌, if◌then◌else◌, find, filter,
}
use openlms.Base.Texts.{codes, to_upper, same_text}
use openlms.Base.Dict
use openlms.Base.Dict.{Dict, text_keys}
use openlms.Roles.{Role, includes}

pub data PermissionScope : Type 0 where
  sendiri kelas sekolah : PermissionScope

pub data PermissionEffect : Type 0 where
  allow deny : PermissionEffect

pub record PermissionGrant : Type 0 where
  pub code : String
  pub scope : PermissionScope
  pub deny : Bool

pub record PermissionOverrideGrant : Type 0 where
  pub code : String
  pub effect : PermissionEffect

abbrev pub scope_rank : PermissionScope → ℕ
scope_rank sendiri = 1
scope_rank kelas = 2
scope_rank sekolah = 3

-- `text.split(":").pop()`
unfoldable pub last_part : List ℕ → List ℕ → List ℕ
last_part cur [] = cur
last_part cur (c ∷ s) = last_part (if c == b':' then [] else cur ++ c ∷ []) s

-- the comparisons of `parseScopeFromCode`, on the upper-case last part
unfoldable pub scope_named : List ℕ → Option PermissionScope
scope_named scope =
    if same_text scope (codes "SELF") || same_text scope (codes "SENDIRI")
    then some sendiri
    else if same_text scope (codes "CLASS") || same_text scope (codes "KELAS")
    then some kelas
    else if same_text scope (codes "SCHOOL") || same_text scope (codes "SEKOLAH")
    then some sekolah
    else none

unfoldable pub parse_scope_from_code : String → Option PermissionScope
unfolding last_part scope_named
parse_scope_from_code s = scope_named (map to_upper (last_part [] (codes s)))

abbrev pub is_allow : PermissionEffect → Bool
is_allow allow = true
is_allow deny = false

unfoldable pub can_access : String → List PermissionGrant → List PermissionOverrideGrant → Bool
can_access required grants overrides = elim (find (λ o. o.code =ₛ required) overrides) [
  | some o ↦ is_allow o.effect
  | none ↦ elim (find (λ g. g.code =ₛ required) grants) [
    | none ↦ false
    | some g ↦ if g.deny then false else elim (parse_scope_from_code required) [
      | none ↦ true
      | some requested ↦ leb (scope_rank requested) (scope_rank g.scope)
    ]
  ]
]

-- A row of `rolePermission` with the code of its permission.
pub record RolePermission : Type 0 where
  pub role : Role
  pub code : String
  pub effect : PermissionEffect
  pub scope_default : PermissionScope

abbrev pub Best : Type 0
Best = Dict String PermissionGrant

-- One round of the loop of `resolvePermissions`.
unfoldable pub add_row : RolePermission → Best → Best
add_row row best = elim row.effect [
  | deny ↦ elim (Dict.lookup row.code best) [
    | none ↦
        Dict.insert row.code (record { code = row.code; scope = row.scope_default; deny = true })
          best
    | some current ↦
        Dict.insert row.code (record { code = row.code; scope = current.scope; deny = true }) best
  ]
  | allow ↦ elim (Dict.lookup row.code best) [
    | none ↦
        Dict.insert row.code (record { code = row.code; scope = row.scope_default; deny = false })
          best
    | some current ↦
        if current.deny || ltb (scope_rank current.scope) (scope_rank row.scope_default)
        then Dict.insert row.code
            (record { code = row.code; scope = row.scope_default; deny = false }) best
        else best
  ]
]

unfoldable pub add_rows : List RolePermission → Best → Best
add_rows [] best = best
add_rows (row ∷ rows) best = add_rows rows (add_row row best)

-- The loader of `resolvePermissions`: `table` is the table in the order of the query's rows.
unfoldable pub resolve_permissions : List RolePermission → List Role → List PermissionGrant
resolve_permissions table [] = []
resolve_permissions table (r ∷ roles) =
    Dict.values (add_rows (filter (λ row. includes (r ∷ roles) row.role) table) [])
