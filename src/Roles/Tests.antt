-- ===== src/Roles/Tests.antt =====
-- Runs of the role helpers.
use openlms.Base.{ℕ, ◌≡◌, refl, List, [], ◌∷◌, none, some}
use openlms.Base.Result.{err}
use openlms.Roles.{
  Role, guru, bk, siswa, resolve_actor_role, RequestContext, assert_can_access_student,
}

abbrev teacher_counsellor : List Role
teacher_counsellor = guru ∷ bk ∷ []

resolve_actor_role-teacher_counsellor : resolve_actor_role teacher_counsellor none ≡ some bk
unfolding resolve_actor_role
resolve_actor_role-teacher_counsellor = refl

abbrev denied : ℕ
denied = 403

abbrev pupil : RequestContext
pupil = record { user_id = "u1"; roles = siswa ∷ []; class_ids = []; homeroom_class_id = none }

pupil-others : assert_can_access_student denied pupil "u2" ≡ err denied
unfolding assert_can_access_student
pupil-others = refl
