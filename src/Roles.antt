-- ===== src/Roles.antt =====
-- Roles, the scope helpers of the LMS and the role that an audit row names:
-- apps/api/src/modules/lms/lms-scope.ts and apps/api/src/modules/lms/lms-audit.ts.
pub mod Priority
mod Tests
use openlms.Base.{
  ℕ, Bool, true, false, ◌&&◌, ◌||◌, not, List, [], ◌∷◌, Option, none, some, String, ◌==◌, ◌=ₛ◌,
  if◌then◌else◌, any, find, head?,
}
use openlms.Base.Result.{Result, ok, err, throw_if}

pub data Role : Type 0 where
  superadmin kepsek auditor wakepsek kaprodi operator keuangan bk guru siswa wali_murid : Role
  calon_siswa pembimbing_industri penguji_eksternal : Role

abbrev pub index : Role → ℕ
index superadmin = 0
index kepsek = 1
index auditor = 2
index wakepsek = 3
index kaprodi = 4
index operator = 5
index keuangan = 6
index bk = 7
index guru = 8
index siswa = 9
index wali_murid = 10
index calon_siswa = 11
index pembimbing_industri = 12
index penguji_eksternal = 13

-- `===` on roles, and `roles.includes(r)`.
abbrev pub role_eq : Role → Role → Bool
role_eq a b = index a == index b

abbrev pub includes : List Role → Role → Bool
includes roles r = any (role_eq r) roles

pub data RbacScope : Type 0 where
  sekolah kelas sendiri : RbacScope

pub record RequestContext : Type 0 where
  pub user_id : String
  pub roles : List Role
  pub class_ids : List String
  pub homeroom_class_id : Option String

abbrev pub school_scoped_roles : List Role
school_scoped_roles = superadmin ∷ operator ∷ wakepsek ∷ kepsek ∷ keuangan ∷ bk ∷ []

abbrev pub master_write_roles : List Role
master_write_roles = superadmin ∷ operator ∷ wakepsek ∷ kepsek ∷ []

abbrev pub role_priority : List Role
role_priority =
    superadmin ∷ kepsek ∷ auditor ∷ wakepsek ∷ kaprodi ∷ operator ∷ keuangan ∷ bk ∷ guru ∷ siswa
    ∷ wali_murid ∷ calon_siswa ∷ pembimbing_industri ∷ penguji_eksternal ∷ []

-- `roles.some((r) => allowed.includes(r))`
unfoldable pub has_any : List Role → List Role → Bool
has_any allowed roles = any (includes allowed) roles

unfoldable pub scope_of : RequestContext → RbacScope
unfolding has_any
scope_of ctx =
    if has_any school_scoped_roles ctx.roles
    then sekolah
    else if includes ctx.roles guru
    then kelas
    else sendiri

unfoldable pub is_school_scope : RequestContext → Bool
unfolding scope_of
is_school_scope ctx = elim (scope_of ctx) [ sekolah ↦ true | _ ↦ false ]

-- `null` is no restriction.
unfoldable pub class_id_filter : RequestContext → Option (List String)
unfolding is_school_scope
class_id_filter ctx = if is_school_scope ctx then none else some ctx.class_ids

-- `o === s`, with `o` a text or `null`
abbrev pub is_text : Option String → String → Bool
is_text none s = false
is_text (some t) s = t =ₛ s

unfoldable pub can_manage_class : RequestContext → String → Bool
unfolding is_school_scope
can_manage_class ctx class_id =
    if is_school_scope ctx
    then true
    else any (λ c. c =ₛ class_id) ctx.class_ids || is_text ctx.homeroom_class_id class_id

unfoldable pub can_access_student : RequestContext → String → Bool
unfolding is_school_scope
can_access_student ctx student_id = if is_school_scope ctx then true else student_id =ₛ ctx.user_id

module _ {E : Type 0} (forbidden : E) where
  -- `forbidden` is the exception that the helpers throw.
  unfoldable pub assert_has_role : RequestContext → List Role → Result E (Unit {0})
  unfolding has_any
  assert_has_role ctx allowed = throw_if (not (has_any allowed ctx.roles)) forbidden

  unfoldable pub assert_teacher_of_class_subject : RequestContext → String → Result E (Unit {0})
  unfolding is_school_scope
  assert_teacher_of_class_subject ctx teacher_id =
      throw_if (not (is_school_scope ctx) && not (teacher_id =ₛ ctx.user_id)) forbidden

  unfoldable pub assert_can_manage_class : RequestContext → String → Result E (Unit {0})
  unfolding can_manage_class
  assert_can_manage_class ctx class_id = throw_if (not (can_manage_class ctx class_id)) forbidden

  unfoldable pub assert_can_access_student : RequestContext → String → Result E (Unit {0})
  unfolding can_access_student
  assert_can_access_student ctx student_id =
      throw_if (not (can_access_student ctx student_id)) forbidden

unfoldable pub resolve_actor_role : List Role → Option Role → Option Role
resolve_actor_role roles (some explicit) = some explicit
resolve_actor_role roles none = elim (find (includes roles) role_priority) [
  | some role ↦ some role
  | none ↦ head? roles
]
