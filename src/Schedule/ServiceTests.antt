-- ===== src/Schedule/ServiceTests.antt =====
-- Runs of the schedule service over a timetable of one row.
use openlms.Base.{
  ◌≡◌, ◌≢◌, refl, sym, ◌∙◌, subst, true, [], ◌∷◌, none, some, arith, eq_iff, inl, inr, In, ◌<◌,
}
use openlms.Base.Result.{err}
use openlms.Roles.{RequestContext, operator, assert_has_role}
use openlms.Schedule.{teacher, ScheduleConflict, find_conflicts, conflicts_with}
use openlms.Schedule.Service.{
  ScheduleEntry, CreateScheduleDto, UpdateScheduleDto, Masters, Store, conflict, new_entry, patch,
  assert_refs, assert_period_order, load_day_entries, create_schedule, update_schedule,
}
use openlms.Schedule.Timetable.{IsTimetable, create_schedule-IsTimetable}
use openlms.Schedule.Update.{update_schedule-IsTimetable}

abbrev masters : Masters
masters = record {
  class_exists = λ _. true;
  subject_exists = λ _. true;
  user_exists = λ _. true;
  academic_year_of = λ _. "2026/2027";
}

abbrev staff : RequestContext
staff = record { user_id = "op"; roles = operator ∷ []; class_ids = []; homeroom_class_id = none }

abbrev row : ScheduleEntry
row = record {
  id = "s1";
  class_id = "x1";
  subject_id = "mat";
  teacher_id = "t1";
  day_of_week = 1;
  start_period = 1;
  end_period = 3;
  room = some "R1";
  academic_year = "2026/2027";
}

abbrev before : Store
before = record { entries = row ∷ []; audit = [] }

-- The same teacher, in the periods right after the stored row.
abbrev later : CreateScheduleDto
later = record {
  class_id = "x2";
  subject_id = "mat";
  teacher_id = "t1";
  day_of_week = 1;
  start_period = 3;
  end_period = 4;
  room = some "R1";
  academic_year = none;
}

abbrev clashing : CreateScheduleDto
clashing = record later { start_period = 2 }

abbrev teacher_busy : ScheduleConflict
teacher_busy = record { type = teacher; ref_id = "t1"; conflict_id = "s1" }

create_schedule-clashing :
    create_schedule masters (record clashing { room = none }) staff "s2" before
    ≡ err (conflict (teacher_busy ∷ []))
unfolding create_schedule assert_refs assert_has_role assert_period_order load_day_entries
    find_conflicts conflicts_with
create_schedule-clashing = refl

abbrev close_room : UpdateScheduleDto
close_room = record {
  class_id = none;
  subject_id = none;
  teacher_id = none;
  day_of_week = none;
  start_period = some 2;
  end_period = none;
  room = some "";
  academic_year = none;
}

before-IsTimetable : IsTimetable before.entries
before-IsTimetable = record {
  proper = λ e m. subst (λ x. x.start_period < x.end_period) (sym (only e m)) (omega arith);
  unique = λ e f m k s. only e m ∙ sym (only f k);
  clear = λ e f m k d c. d (cc (only e m, only f k));
}
  where
    only : (e : ScheduleEntry) → In e before.entries → e ≡ row
    only e (inl same) = same
    only e (inr nowhere) = absurd nowhere

fresh : (f : ScheduleEntry) → In f before.entries → f.id ≢ "s2"
fresh f (inl same) q = let clash : row.id ≡ "s2" = cc in ground (arith, eq_iff "s1" "s2")
fresh f (inr nowhere) q = nowhere

create_schedule-IsTimetable_example : IsTimetable (row ∷ new_entry masters later "s2" ∷ [])
unfolding create_schedule assert_refs assert_has_role assert_period_order load_day_entries
    find_conflicts conflicts_with
create_schedule-IsTimetable_example =
    create_schedule-IsTimetable masters later staff "s2" before before-IsTimetable fresh refl

update_schedule-IsTimetable_example : IsTimetable (patch close_room row ∷ [])
unfolding update_schedule assert_refs assert_has_role assert_period_order load_day_entries
    find_conflicts conflicts_with
update_schedule-IsTimetable_example =
    update_schedule-IsTimetable masters "s1" close_room staff before before-IsTimetable refl
