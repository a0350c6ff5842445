-- ===== src/Access/Decision.antt =====
-- The decision on a request, from the table of role permissions to the answer.
use openlms.Base.{
  ℕ, ◌≡◌, ◌≢◌, refl, ◌∙◌, inl, inr, Bool, true, false, not, ◌&&◌, List, [], ◌∷◌, ◌++◌, Option, none,
  some, String, arith, eq_iff, ◌=ₛ◌, find, filter, Option-cases, All, leb,
}
use openlms.Base.Dict
use openlms.Base.Dict.{Dict, text_keys}
use openlms.Roles.{Role, includes}
use openlms.Access.{
  sendiri, kelas, sekolah, PermissionScope, PermissionEffect, allow, deny, PermissionGrant,
  PermissionOverrideGrant, RolePermission, Best, is_allow, scope_rank, add_row, add_rows,
  can_access, parse_scope_from_code, resolve_permissions,
}
use openlms.Access.Union.{
  grant, deny_of, rank_of, is_deny, last_row_decides, max_rank, AllowsOnly, widest_scope_wins,
}

-- Each grant stands under its own code.
abbrev IsKeyed : Best → Type 0
IsKeyed [] = Unit
IsKeyed ((k, g) ∷ m) = (g.code ≡ k) × IsKeyed m

insert-IsKeyed :
    (k : String) (g : PermissionGrant) (m : Best)
    → g.code ≡ k
    → IsKeyed m
    → IsKeyed (Dict.insert k g m)
unfolding Dict.insert
insert-IsKeyed k g [] p h = (p, tt)
insert-IsKeyed k g ((j, x) ∷ m) p h = ground (arith, eq_iff k j, insert-IsKeyed k g m p h.1)

add_row-IsKeyed : (row : RolePermission) (m : Best) → IsKeyed m → IsKeyed (add_row row m)
unfolding add_row
add_row-IsKeyed row m h = elim (Option-cases (Dict.lookup row.code m)) [
  | inl new ↦ ground (
    arith,
    insert-IsKeyed row.code (grant row row.scope_default true) m refl h,
    insert-IsKeyed row.code (grant row row.scope_default false) m refl h,
  )
  | inr (current, old) ↦ ground (
    arith,
    insert-IsKeyed row.code (grant row current.scope true) m refl h,
    insert-IsKeyed row.code (grant row row.scope_default false) m refl h,
  )
]

add_rows-IsKeyed : (rows : List RolePermission) (m : Best) → IsKeyed m → IsKeyed (add_rows rows m)
unfolding add_rows
add_rows-IsKeyed [] m h = h
add_rows-IsKeyed (row ∷ rows) m h = add_rows-IsKeyed rows (add_row row m) (add_row-IsKeyed row m h)

find-values :
    (c : String) (m : Best) → IsKeyed m → find (λ g. g.code =ₛ c) (Dict.values m) ≡ Dict.lookup c m
unfolding Dict.lookup
find-values c [] h = refl
find-values c ((k, g) ∷ m) h = ground (arith, eq_iff g.code c, eq_iff c k, find-values c m h.1)

-- The rows that the query selects for a user's roles.
abbrev pub rows_of : List RolePermission → List Role → List RolePermission
rows_of table roles = filter (λ row. includes roles row.role) table

abbrev decide : Option PermissionGrant → Option PermissionScope → Bool
decide none s = false
decide (some g) none = not g.deny
decide (some g) (some s) = not g.deny && leb (scope_rank s) (scope_rank g.scope)

can_access-eq_decide :
    (c : String) (r : Role) (roles : List Role) (table : List RolePermission)
    (overrides : List PermissionOverrideGrant)
    → find (λ o. o.code =ₛ c) overrides ≡ none
    → can_access c (resolve_permissions table (r ∷ roles)) overrides
      ≡ decide (Dict.lookup c (add_rows (rows_of table (r ∷ roles)) [])) (parse_scope_from_code c)
unfolding can_access resolve_permissions
can_access-eq_decide c r roles table overrides no_override = ground (
  arith,
  find-values c (add_rows (rows_of table (r ∷ roles)) [])
      (add_rows-IsKeyed (rows_of table (r ∷ roles)) [] tt),
)

-- A user's own override for a code decides alone, whatever the roles grant: the first one in the
-- list allows or denies the request.
override_decides :
    (c : String) (grants : List PermissionGrant) (o : PermissionOverrideGrant)
    (before after : List PermissionOverrideGrant)
    → All (λ x. x.code ≢ c) before
    → o.code ≡ c
    → can_access c grants (before ++ o ∷ after) ≡ is_allow o.effect
unfolding can_access
override_decides c grants o [] after h p = ground (arith, eq_iff o.code c)
override_decides c grants o (x ∷ before) after (n, h) p =
    let rest = override_decides c grants o before after h p in ground (arith, eq_iff x.code c)

-- Without an override, a code that names no scope is granted exactly if the last of its rows
-- among the user's roles allows it: an allowing row lifts the denial of every row before it.
pub last_row_grants :
    (c : String) (r : Role) (roles : List Role) (table xs ys : List RolePermission)
    (row : RolePermission) (overrides : List PermissionOverrideGrant)
    → rows_of table (r ∷ roles) ≡ xs ++ row ∷ ys
    → row.code ≡ c
    → All (λ x. x.code ≢ row.code) ys
    → find (λ o. o.code =ₛ c) overrides ≡ none
    → parse_scope_from_code c ≡ none
    → can_access c (resolve_permissions table (r ∷ roles)) overrides ≡ is_allow row.effect
last_row_grants c r roles table xs ys row overrides rows code last no_override plain =
    can_access-eq_decide c r roles table overrides no_override
    ∙ (rw (rows, plain, ← code)
        (decide_plain (Dict.lookup row.code (add_rows (xs ++ row ∷ ys) [])) row.effect
          (last_row_decides xs ys row [] last)))
  where
    decide_plain :
        (o : Option PermissionGrant) (e : PermissionEffect)
        → deny_of o ≡ some (is_deny e)
        → decide o none ≡ is_allow e
    decide_plain none e h = cc
    decide_plain (some g) allow h = ground arith
    decide_plain (some g) deny h = ground arith

-- Without an override and without a denying row, a code that names a scope is granted exactly if
-- some row of the user's roles for the code has that scope or a wider one.
pub widest_scope_grants :
    (c : String) (s : PermissionScope) (r : Role) (roles : List Role) (table : List RolePermission)
    (overrides : List PermissionOverrideGrant)
    → AllowsOnly c (rows_of table (r ∷ roles))
    → find (λ o. o.code =ₛ c) overrides ≡ none
    → parse_scope_from_code c ≡ some s
    → can_access c (resolve_permissions table (r ∷ roles)) overrides
      ≡ leb (scope_rank s) (max_rank c (rows_of table (r ∷ roles)))
widest_scope_grants c s r roles table overrides allows no_override scoped =
    can_access-eq_decide c r roles table overrides no_override
    ∙ (rw scoped (
        decide_scoped (Dict.lookup c (add_rows (rows_of table (r ∷ roles)) [])) s
          (max_rank c (rows_of table (r ∷ roles))) ranks.0 ranks.1))
  where
    ranks :
        (rank_of (Dict.lookup c (add_rows (rows_of table (r ∷ roles)) []))
          ≡ max_rank c (rows_of table (r ∷ roles)))
        × (deny_of (Dict.lookup c (add_rows (rows_of table (r ∷ roles)) [])) ≢ some true)
    ranks = widest_scope_wins c (rows_of table (r ∷ roles)) allows

    decide_scoped :
        (o : Option PermissionGrant) (s : PermissionScope) (n : ℕ)
        → rank_of o ≡ n
        → deny_of o ≢ some true
        → decide o (some s) ≡ leb (scope_rank s) n
    decide_scoped none sendiri n p q = ground arith
    decide_scoped none kelas n p q = ground arith
    decide_scoped none sekolah n p q = ground arith
    decide_scoped (some g) s n p q = ground arith
