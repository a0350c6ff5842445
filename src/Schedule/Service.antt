-- ===== src/Schedule/Service.antt =====
-- The service that stores the timetable: apps/api/src/modules/lms/classes/schedules.service.ts.
-- The database is a list of rows; a call that throws writes nothing, and its result is the
-- exception. The id of a new row, which the database draws, is an argument. What create and update
-- read and what they write is one step here, for which the source has no transaction.
use openlms.Base.{
  ℕ, Bool, not, List, [], ◌∷◌, ◌++◌, map, Option, none, some, String, leb, ◌==◌, ◌=ₛ◌,
  if◌then◌else◌, filter, find,
}
use openlms.Base.Result.{Result, ok, err, ◌>>=◌, ◌>>◌, throw_if, or_throw}
use openlms.Roles.{Role, RequestContext, assert_has_role, master_write_roles, resolve_actor_role}
use openlms.Schedule.{ScheduleSlot, ScheduleConflict, find_conflicts}

pub record ScheduleEntry : Type 0 where
  pub id : String
  pub class_id : String
  pub subject_id : String
  pub teacher_id : String
  pub day_of_week : ℕ
  pub start_period : ℕ
  pub end_period : ℕ
  pub room : Option String
  pub academic_year : String

pub record CreateScheduleDto : Type 0 where
  pub class_id : String
  pub subject_id : String
  pub teacher_id : String
  pub day_of_week : ℕ
  pub start_period : ℕ
  pub end_period : ℕ
  pub room : Option String
  pub academic_year : Option String

pub record UpdateScheduleDto : Type 0 where
  pub class_id : Option String
  pub subject_id : Option String
  pub teacher_id : Option String
  pub day_of_week : Option ℕ
  pub start_period : Option ℕ
  pub end_period : Option ℕ
  pub room : Option String
  pub academic_year : Option String

pub data AuditAction : Type 0 where
  create update delete : AuditAction

-- The columns of an audit row that the service fills.
pub record AuditRow : Type 0 where
  pub actor_id : String
  pub actor_role : Option Role
  pub action : AuditAction
  pub entity_id : String
  pub before : Option ScheduleEntry
  pub after : Option ScheduleEntry

-- The tables that the service only reads.
pub record Masters : Type 0 where
  pub class_exists : String → Bool
  pub subject_exists : String → Bool
  pub user_exists : String → Bool
  -- the code of the academic year of a class, "" where there is no such class
  pub academic_year_of : String → String

pub record Store : Type 0 where
  pub entries : List ScheduleEntry
  pub audit : List AuditRow

pub data Error : Type 0 where
  forbidden bad_period class_not_found subject_not_found teacher_not_found slot_not_found : Error
  conflict : List ScheduleConflict → Error

-- `a ?? b`
abbrev pub or_else {ℓ} : {A : Type ℓ} → Option A → A → A
or_else none b = b
or_else (some a) b = a

abbrev pub or_option : Option String → Option String → Option String
or_option none b = b
or_option (some a) b = some a

-- A row as `loadDayEntries` selects it.
abbrev pub slot_of : ScheduleEntry → ScheduleSlot
slot_of e = record {
  id = some e.id;
  day_of_week = e.day_of_week;
  start_period = e.start_period;
  end_period = e.end_period;
  teacher_id = e.teacher_id;
  room = e.room;
  class_id = e.class_id;
}

abbrev pub to_slot : CreateScheduleDto → Option String → ScheduleSlot
to_slot dto id = record {
  id = id;
  day_of_week = dto.day_of_week;
  start_period = dto.start_period;
  end_period = dto.end_period;
  teacher_id = dto.teacher_id;
  room = dto.room;
  class_id = dto.class_id;
}

unfoldable pub assert_period_order : ℕ → ℕ → Result Error (Unit {0})
assert_period_order start_period end_period = throw_if (leb end_period start_period) bad_period

unfoldable pub load_day_entries : ℕ → Store → List ScheduleSlot
load_day_entries day store = map slot_of (filter (λ e. e.day_of_week == day) store.entries)

abbrev pub find_unique : String → Store → Option ScheduleEntry
find_unique id store = find (λ e. e.id =ₛ id) store.entries

abbrev pub write_audit :
    RequestContext
    → AuditAction
    → String
    → Option ScheduleEntry
    → Option ScheduleEntry
    → Store
    → Store
write_audit ctx action id before after store = record store {
  audit =
      store.audit
      ++ record {
        actor_id = ctx.user_id;
        actor_role = resolve_actor_role ctx.roles none;
        action = action;
        entity_id = id;
        before = before;
        after = after;
      }
        ∷ [];
}

-- `if (conflicts.length > 0) throw new ConflictException(...)`
abbrev pub assert_no_conflicts : List ScheduleConflict → Result Error (Unit {0})
assert_no_conflicts [] = ok tt
assert_no_conflicts (k ∷ ks) = err (conflict (k ∷ ks))

abbrev pub merge : UpdateScheduleDto → ScheduleEntry → CreateScheduleDto
merge dto existing = record {
  class_id = or_else dto.class_id existing.class_id;
  subject_id = or_else dto.subject_id existing.subject_id;
  teacher_id = or_else dto.teacher_id existing.teacher_id;
  day_of_week = or_else dto.day_of_week existing.day_of_week;
  start_period = or_else dto.start_period existing.start_period;
  end_period = or_else dto.end_period existing.end_period;
  room = or_option dto.room existing.room;
  academic_year = some (or_else dto.academic_year existing.academic_year);
}

-- `dto.room === "" ? null : dto.room`, where the field is given
abbrev pub new_room : Option String → Option String → Option String
new_room none old = old
new_room (some r) old = if r =ₛ "" then none else some r

-- the `data` of the update
abbrev pub patch : UpdateScheduleDto → ScheduleEntry → ScheduleEntry
patch dto e = record {
  id = e.id;
  class_id = or_else dto.class_id e.class_id;
  subject_id = or_else dto.subject_id e.subject_id;
  teacher_id = or_else dto.teacher_id e.teacher_id;
  day_of_week = or_else dto.day_of_week e.day_of_week;
  start_period = or_else dto.start_period e.start_period;
  end_period = or_else dto.end_period e.end_period;
  room = new_room dto.room e.room;
  academic_year = or_else dto.academic_year e.academic_year;
}

-- `update({ where: { id }, data })`
abbrev pub update_where : String → UpdateScheduleDto → List ScheduleEntry → List ScheduleEntry
update_where id dto = map (λ e. if e.id =ₛ id then patch dto e else e)

module _ (masters : Masters) where
  unfoldable pub assert_refs : CreateScheduleDto → Result Error (Unit {0})
  assert_refs dto = do
    throw_if (not (masters.class_exists dto.class_id)) class_not_found
    throw_if (not (masters.subject_exists dto.subject_id)) subject_not_found
    throw_if (not (masters.user_exists dto.teacher_id)) teacher_not_found

  abbrev pub new_entry : CreateScheduleDto → String → ScheduleEntry
  new_entry dto id = record {
    id = id;
    class_id = dto.class_id;
    subject_id = dto.subject_id;
    teacher_id = dto.teacher_id;
    day_of_week = dto.day_of_week;
    start_period = dto.start_period;
    end_period = dto.end_period;
    room = dto.room;
    academic_year = or_else dto.academic_year (masters.academic_year_of dto.class_id);
  }

  unfoldable pub create_schedule :
      CreateScheduleDto → RequestContext → String → Store → Result Error (ScheduleEntry × Store)
  create_schedule dto ctx id store = do
    assert_has_role forbidden ctx master_write_roles
    assert_period_order dto.start_period dto.end_period
    assert_refs dto
    assert_no_conflicts (find_conflicts (load_day_entries dto.day_of_week store) (to_slot dto none))
    let entry = new_entry dto id
    ok (
      entry,
      write_audit ctx create id none (some entry)
          (record store { entries = store.entries ++ entry ∷ [] }),
    )

  unfoldable pub update_schedule :
      String → UpdateScheduleDto → RequestContext → Store → Result Error (ScheduleEntry × Store)
  update_schedule id dto ctx store = do
    assert_has_role forbidden ctx master_write_roles
    existing ← or_throw (find_unique id store) slot_not_found
    let merged = merge dto existing
    assert_period_order merged.start_period merged.end_period
    assert_refs merged
    assert_no_conflicts
        (find_conflicts (load_day_entries merged.day_of_week store) (to_slot merged (some id)))
    let updated = patch dto existing
    ok (
      updated,
      write_audit ctx update id (some existing) (some updated)
          (record store { entries = update_where id dto store.entries }),
    )

unfoldable pub remove_schedule : String → RequestContext → Store → Result Error (String × Store)
remove_schedule id ctx store = do
  assert_has_role forbidden ctx master_write_roles
  existing ← or_throw (find_unique id store) slot_not_found
  ok (
    id,
    write_audit ctx delete id (some existing) none
        (record store { entries = filter (λ e. not (e.id =ₛ id)) store.entries }),
  )
