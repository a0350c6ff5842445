-- ===== src/Schedule.antt =====
-- The check for clashes in the timetable: apps/api/src/modules/lms/classes/schedule-validator.ts.
-- Periods and days are whole numbers; an absent id or room is `none`.
pub mod Clashes
pub mod Service
pub mod Timetable
pub mod Update
mod Tests
mod ServiceTests
use openlms.Base.{
  ℕ, Bool, true, false, ◌&&◌, not, List, [], ◌∷◌, ◌++◌, Option, none, some, String, ltb, ◌==◌, ◌=ₛ◌,
  if◌then◌else◌,
}

pub record PeriodRange : Type 0 where
  pub start : ℕ
  pub end : ℕ

-- Half-open ranges [start, end).
unfoldable pub periods_overlap : PeriodRange → PeriodRange → Bool
periods_overlap a b = ltb a.start b.end && ltb b.start a.end

pub record ScheduleSlot : Type 0 where
  pub id : Option String
  pub day_of_week : ℕ
  pub start_period : ℕ
  pub end_period : ℕ
  pub teacher_id : String
  pub room : Option String
  pub class_id : String

pub data ScheduleConflictType : Type 0 where
  teacher room class : ScheduleConflictType

pub record ScheduleConflict : Type 0 where
  pub type : ScheduleConflictType
  pub ref_id : String
  pub conflict_id : String

-- `e.id !== undefined && candidate.id !== undefined && e.id === candidate.id`
abbrev pub same_id : Option String → Option String → Bool
same_id (some a) (some b) = a =ₛ b
same_id _ none = false
same_id none _ = false

-- `candidate.room && e.room === candidate.room`: an empty name is no room.
abbrev pub same_room : Option String → Option String → Bool
same_room (some c) (some e) = not (c =ₛ "") && e =ₛ c
same_room _ none = false
same_room none _ = false

-- `e.id ?? ""`
abbrev pub text_or_empty : Option String → String
text_or_empty none = ""
text_or_empty (some s) = s

abbrev pub range : ScheduleSlot → PeriodRange
range s = record { start = s.start_period; end = s.end_period }

-- `if (test) conflicts.push(...)`
abbrev pub push_if : Bool → ScheduleConflictType → String → ScheduleSlot → List ScheduleConflict
push_if test t ref e =
    if test then record { type = t; ref_id = ref; conflict_id = text_or_empty e.id } ∷ [] else []

-- What one round of the loop appends to `conflicts`.
unfoldable pub conflicts_with : ScheduleSlot → ScheduleSlot → List ScheduleConflict
unfolding periods_overlap
conflicts_with candidate e =
    if same_id e.id candidate.id
    then []
    else if not (e.day_of_week == candidate.day_of_week)
    then []
    else if not (periods_overlap (range e) (range candidate))
    then []
    else push_if (e.teacher_id =ₛ candidate.teacher_id) teacher e.teacher_id e
      ++ (push_if (same_room candidate.room e.room) room (text_or_empty e.room) e
          ++ push_if (e.class_id =ₛ candidate.class_id) class e.class_id e)

unfoldable pub find_conflicts : List ScheduleSlot → ScheduleSlot → List ScheduleConflict
find_conflicts [] candidate = []
find_conflicts (e ∷ entries) candidate =
    conflicts_with candidate e ++ find_conflicts entries candidate
