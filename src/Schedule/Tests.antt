-- ===== src/Schedule/Tests.antt =====
-- Runs of the timetable check on a small timetable.
use openlms.Base.{◌≡◌, refl, ◌↔◌, true, List, [], ◌∷◌, none, some, arith, In}
use openlms.Schedule.{
  periods_overlap, ScheduleSlot, ScheduleConflict, teacher, room, conflicts_with, find_conflicts,
}
use openlms.Schedule.Clashes.{Meet, Clash, periods_overlap_iff, find_conflicts_iff}

abbrev stored : List ScheduleSlot
stored =
    record {
      id = some "s1";
      day_of_week = 1;
      start_period = 1;
      end_period = 3;
      teacher_id = "t1";
      room = some "R1";
      class_id = "x1";
    }
    ∷ record {
      id = some "s2";
      day_of_week = 1;
      start_period = 3;
      end_period = 4;
      teacher_id = "t1";
      room = none;
      class_id = "x2";
    }
    ∷ []

abbrev candidate : ScheduleSlot
candidate = record {
  id = none;
  day_of_week = 1;
  start_period = 2;
  end_period = 3;
  teacher_id = "t1";
  room = some "R1";
  class_id = "x3";
}

abbrev reported : List ScheduleConflict
reported =
    record { type = teacher; ref_id = "t1"; conflict_id = "s1" }
    ∷ record { type = room; ref_id = "R1"; conflict_id = "s1" }
    ∷ []

find_conflicts-candidate : find_conflicts stored candidate ≡ reported
unfolding find_conflicts conflicts_with
find_conflicts-candidate = refl

abbrev teacher_conflict : ScheduleConflict
teacher_conflict = record { type = teacher; ref_id = "t1"; conflict_id = "s1" }

find_conflicts_iff_example :
    In teacher_conflict (find_conflicts stored candidate)
    ↔ ((e : ScheduleSlot) × In e stored × Clash candidate e teacher_conflict)
find_conflicts_iff_example =
    find_conflicts_iff stored candidate teacher_conflict (omega arith) (omega arith)

periods_overlap_iff_example :
    (periods_overlap (record { start = 1; end = 3 }) (record { start = 2; end = 5 }) ≡ true)
    ↔ Meet (record { start = 1; end = 3 }) (record { start = 2; end = 5 })
periods_overlap_iff_example =
    periods_overlap_iff (record { start = 1; end = 3 }) (record { start = 2; end = 5 })
      (omega arith) (omega arith)
