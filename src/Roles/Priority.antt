-- ===== src/Roles/Priority.antt =====
-- The audit role is the highest that a user holds, whatever order the roles are listed in; and
-- what a user without a role of school scope may reach.
use openlms.Base.{
  ◌≡◌, sym, ◌∙◌, Bool, true, false, List, none, some, arith, find, ◌≤◌, ◌↔◌, Bool-cases,
  Option-cases, find-eq-some, any-eq-true, String, eq_iff, In, any_of_In, ◌⊎◌, inl, inr,
}
use openlms.Base.Result.{ok, err}
use openlms.Roles.{
  Role, superadmin, index, includes, role_priority, has_any, is_school_scope, resolve_actor_role,
  RequestContext, school_scoped_roles, assert_can_access_student,
}

-- `find` over the priority list stops at the first role, the one of the lowest index.
find-role_priority :
    (p : Role → Bool) (r r' : Role)
    → find p role_priority ≡ some r
    → p r' ≡ true
    → index r ≤ index r'
find-role_priority p r superadmin h t = ground arith
find-role_priority p r _ h t = ground arith

find-role_priority_ne_none :
    (p : Role → Bool) (r : Role) → find p role_priority ≡ none → p r ≡ false
find-role_priority_ne_none p superadmin h = ground arith
find-role_priority_ne_none p _ h = ground arith

-- With no explicit role, an audit row names a role that the actor holds whenever the actor holds
-- one, and no role that the actor holds stands before it in the order of priority.
resolve_actor_role_highest :
    (roles : List Role) (held : Role)
    → includes roles held ≡ true
    → (r : Role) × (resolve_actor_role roles none ≡ some r)
      × (includes roles r ≡ true)
      × (index r ≤ index held)
unfolding resolve_actor_role
resolve_actor_role_highest roles held h =
    elim (Option-cases (find (includes roles) role_priority)) [
      | inl e ↦ let no_role = find-role_priority_ne_none (includes roles) held e in cc
      | inr (r, e) ↦ (
        r,
        rw (e, resolve_actor_role),
        (find-eq-some (includes roles) role_priority e).1,
        find-role_priority (includes roles) r held e h,
      )
    ]

is_school_scope-eq-has_any :
    (ctx : RequestContext) → is_school_scope ctx ≡ has_any school_scoped_roles ctx.roles
unfolding is_school_scope
is_school_scope-eq-has_any ctx = ground arith

-- The caller holds a role whose scope is the whole school.
abbrev pub HoldsSchoolRole : RequestContext → Type 0
HoldsSchoolRole ctx = (r : Role) × In r ctx.roles × (includes school_scoped_roles r ≡ true)

pub is_school_scope_iff :
    (ctx : RequestContext) → (is_school_scope ctx ≡ true) ↔ HoldsSchoolRole ctx
unfolding has_any
is_school_scope_iff ctx = (
  λ h.
      any-eq-true (includes school_scoped_roles) ctx.roles
        (sym (is_school_scope-eq-has_any ctx) ∙ h),
  λ (r, m, q).
      is_school_scope-eq-has_any ctx ∙ any_of_In (includes school_scoped_roles) r ctx.roles m q,
)

-- A student's record is let through exactly for that student and for the callers who hold a
-- role of school scope; every other call is refused with the forbidden exception.
assert_can_access_student_iff :
    {E : Type 0} (forbidden : E) (ctx : RequestContext) (student : String)
    → ((assert_can_access_student forbidden ctx student ≡ ok tt)
        ↔ (HoldsSchoolRole ctx ⊎ (student ≡ ctx.user_id)))
      × ((assert_can_access_student forbidden ctx student ≡ ok tt)
          ⊎ (assert_can_access_student forbidden ctx student ≡ err forbidden))
unfolding assert_can_access_student
assert_can_access_student_iff forbidden ctx student = (
  (
    λ h. elim (Bool-cases (is_school_scope ctx)) [
      | inl s ↦ inl ((is_school_scope_iff ctx).0 s)
      | inr s ↦ inr (ground (arith, eq_iff student ctx.user_id))
    ],
    λ w. elim (Bool-cases (is_school_scope ctx)) [
      | inl s ↦ rw s
      | inr s ↦ elim w [
        | inl held ↦ let school = (is_school_scope_iff ctx).1 held in cc
        | inr own ↦ rw (s, (eq_iff student ctx.user_id).1 own)
      ]
    ],
  ),
  ground arith,
)
