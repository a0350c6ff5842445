-- ===== src/Access/Union.antt =====
-- What the loop over the rows of all roles makes of one code.
use Prim.Native.Nat.{max}
use openlms.Base.{
  ℕ, ◌≡◌, ◌≢◌, refl, ◌∙◌, inl, inr, Bool, true, false, List, [], ◌∷◌, ◌++◌, Option, none, some,
  String, arith, eq_iff, ◌=ₛ◌, if◌then◌else◌, Option-cases, All,
}
use openlms.Base.Dict
use openlms.Base.Dict.{Dict, text_keys}
use openlms.Access.{
  PermissionScope, PermissionEffect, allow, deny, PermissionGrant, RolePermission, Best, scope_rank,
  add_row, add_rows,
}

abbrev pub is_deny : PermissionEffect → Bool
is_deny allow = false
is_deny deny = true

abbrev pub deny_of : Option PermissionGrant → Option Bool
deny_of none = none
deny_of (some g) = some g.deny

abbrev pub grant : RolePermission → PermissionScope → Bool → PermissionGrant
grant row scope denied = record { code = row.code; scope = scope; deny = denied }

deny_of-add_row :
    (c : String) (row : RolePermission) (best : Best)
    → deny_of (Dict.lookup c (add_row row best))
      ≡ (if c =ₛ row.code then some (is_deny row.effect) else deny_of (Dict.lookup c best))
unfolding add_row
deny_of-add_row c row best = elim (Option-cases (Dict.lookup row.code best)) [
  | inl new ↦ ground (
    arith,
    eq_iff c row.code,
    Dict.lookup-insert row.code c (grant row row.scope_default true) best,
    Dict.lookup-insert row.code c (grant row row.scope_default false) best,
  )
  | inr (current, old) ↦ ground (
    arith,
    eq_iff c row.code,
    Dict.lookup-insert row.code c (grant row current.scope true) best,
    Dict.lookup-insert row.code c (grant row row.scope_default false) best,
  )
]

deny_of-add_rows_other :
    (c : String) (rows : List RolePermission) (best : Best)
    → All (λ r. r.code ≢ c) rows
    → deny_of (Dict.lookup c (add_rows rows best)) ≡ deny_of (Dict.lookup c best)
unfolding add_rows
deny_of-add_rows_other c [] best h = refl
deny_of-add_rows_other c (row ∷ rows) best (h, hs) =
    deny_of-add_rows_other c rows (add_row row best) hs
    ∙ ground (arith, deny_of-add_row c row best, eq_iff c row.code)

-- Of the rows for one code the last one decides: the code is denied exactly if that row denies.
pub last_row_decides :
    (xs ys : List RolePermission) (row : RolePermission) (best : Best)
    → All (λ r. r.code ≢ row.code) ys
    → deny_of (Dict.lookup row.code (add_rows (xs ++ row ∷ ys) best)) ≡ some (is_deny row.effect)
unfolding add_rows
last_row_decides [] ys row best h =
    deny_of-add_rows_other row.code ys (add_row row best) h
    ∙ ground (arith, deny_of-add_row row.code row best, eq_iff row.code row.code)
last_row_decides (x ∷ xs) ys row best h = last_row_decides xs ys row (add_row x best) h

abbrev pub rank_of : Option PermissionGrant → ℕ
rank_of none = 0
rank_of (some g) = scope_rank g.scope

-- The widest scope among the rows for one code, as a rank; 0 if there is none.
pub max_rank : String → List RolePermission → ℕ
max_rank c [] = 0
max_rank c (row ∷ rows) =
    if c =ₛ row.code then max (scope_rank row.scope_default) (max_rank c rows) else max_rank c rows

abbrev pub AllowsOnly : String → List RolePermission → Type 0
AllowsOnly c rows = All (λ r. r.code ≡ c → r.effect ≡ allow) rows

rank_of-add_row :
    (c : String) (row : RolePermission) (best : Best)
    → (row.code ≡ c → row.effect ≡ allow)
    → deny_of (Dict.lookup c best) ≢ some true
    → rank_of (Dict.lookup c (add_row row best)) ≡ (
        if c =ₛ row.code
        then max (scope_rank row.scope_default) (rank_of (Dict.lookup c best))
        else rank_of (Dict.lookup c best))
unfolding add_row
rank_of-add_row c row best allows free = elim (Option-cases (Dict.lookup row.code best)) [
  | inl new ↦ ground (
    arith,
    eq_iff c row.code,
    Dict.lookup-insert row.code c (grant row row.scope_default true) best,
    Dict.lookup-insert row.code c (grant row row.scope_default false) best,
  )
  | inr (current, old) ↦ ground (
    arith,
    eq_iff c row.code,
    Dict.lookup-insert row.code c (grant row current.scope true) best,
    Dict.lookup-insert row.code c (grant row row.scope_default false) best,
  )
]

rank_of-add_rows :
    (c : String) (rows : List RolePermission) (best : Best)
    → AllowsOnly c rows
    → deny_of (Dict.lookup c best) ≢ some true
    → (rank_of (Dict.lookup c (add_rows rows best))
        ≡ max (max_rank c rows) (rank_of (Dict.lookup c best)))
      × (deny_of (Dict.lookup c (add_rows rows best)) ≢ some true)
unfolding add_rows max_rank
rank_of-add_rows c [] best h free = (omega arith, free)
rank_of-add_rows c (row ∷ rows) best (h, hs) free =
    let still : deny_of (Dict.lookup c (add_row row best)) ≢ some true =
      ground (arith, deny_of-add_row c row best, eq_iff c row.code) in
    let (ranks, free') = rank_of-add_rows c rows (add_row row best) hs still in
    (ground (arith, ranks, rank_of-add_row c row best h free, eq_iff c row.code), free')

-- Where no row denies a code, the widest scope of its rows wins, in whatever order the rows come;
-- and the code is not denied.
pub widest_scope_wins :
    (c : String) (rows : List RolePermission)
    → AllowsOnly c rows
    → (rank_of (Dict.lookup c (add_rows rows [])) ≡ max_rank c rows)
      × (deny_of (Dict.lookup c (add_rows rows [])) ≢ some true)
unfolding Dict.lookup
widest_scope_wins c rows h =
    let (ranks, free) = rank_of-add_rows c rows [] h (λ p. cc) in (omega (arith, ranks), free)
