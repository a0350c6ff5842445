-- ===== src/Rollover/Execute/Enrollments.antt =====
-- The enrollments in a rollover: what the steps "graduate" and "promote" of `execute` and what
-- `rollback` write to them, in apps/api/src/modules/rollover/rollover.service.ts. The ids that the
-- database draws are a parameter.
pub mod Added
pub mod Agreement
pub mod Deletion
pub mod Students
pub mod Notes
pub mod Undo
use openlms.Base.{
  ℕ, suc, ◌+◌, ◌≡◌, Bool, true, false, ◌&&◌, ◌||◌, not, String, List, [], ◌∷◌, ◌++◌, Option, none,
  some, map, filter, find, any, ◌=ₛ◌, if◌then◌else◌,
}
use openlms.Base.Dict.{Keyed, text_keys, Dict, lookup, insert}
use openlms.Base.Texts.{Text, same_text}
use openlms.Rollover.Evaluation.{
  EnrollmentStatus, status_graduated, status_promoted, status_repeated, RolloverAction, promoted,
  repeated, graduated, transferred, dropped, StudentDecision,
}
use openlms.Rollover.Execute.{is_continuing}

pub record EnrollmentRow : Type 0 where
  pub id : String
  pub student_id : String
  pub class_id : Text
  pub academic_year_id : String
  pub status : EnrollmentStatus

-- of `created`, what `rollback` needs for enrollments
pub record Created : Type 0 where
  pub enrollment_ids : List String
  pub previous_status : Dict String EnrollmentStatus

abbrev pub is_graduating : RolloverAction → Bool
is_graduating graduated = true
is_graduating promoted = false
is_graduating repeated = false
is_graduating transferred = false
is_graduating dropped = false

abbrev pub is_repeating : RolloverAction → Bool
is_repeating repeated = true
is_repeating promoted = false
is_repeating graduated = false
is_repeating transferred = false
is_repeating dropped = false

-- `oldByStudent.get(studentId)`: the first row of the student in the old year
unfoldable pub old_of : String → List EnrollmentRow → String → Option EnrollmentRow
old_of source rows student_id =
    find (λ r. r.student_id =ₛ student_id && r.academic_year_id =ₛ source) rows

abbrev pub has_id : List String → String → Bool
has_id ids id = any (λ i. i =ₛ id) ids

-- `updateMany({ where: { id: { in: ids } }, data: { status } })`
abbrev pub give_status : List String → EnrollmentStatus → EnrollmentRow → EnrollmentRow
give_status ids status r = if has_id ids r.id then record r { status = status } else r

-- the rows that `remember` notes, in its order
unfoldable pub old_ids : String → List EnrollmentRow → List String → List String
old_ids source rows [] = []
old_ids source rows (s ∷ students) = elim (old_of source rows s) [
  | none ↦ old_ids source rows students
  | some old ↦ old.id ∷ old_ids source rows students
]

-- the loops that fill `previousEnrollmentStatus`
unfoldable pub remember :
    String
    → List EnrollmentRow
    → List String
    → Dict String EnrollmentStatus
    → Dict String EnrollmentStatus
remember source rows [] previous = previous
remember source rows (s ∷ students) previous = elim (old_of source rows s) [
  | none ↦ remember source rows students previous
  | some old ↦ remember source rows students (insert old.id old.status previous)
]

abbrev pub same_enrollment : EnrollmentRow → EnrollmentRow → Bool
same_enrollment r q =
    r.student_id =ₛ q.student_id
    && (same_text r.class_id q.class_id && r.academic_year_id =ₛ q.academic_year_id)

abbrev pub is_moving : RolloverAction → Bool
is_moving action = is_continuing action && not (is_repeating action)

-- `where: { student_id: { in: students }, academic_year_id: target }`
abbrev pub is_created : String → List String → EnrollmentRow → Bool
is_created target students r = any (λ s. s =ₛ r.student_id) students && r.academic_year_id =ₛ target

abbrev pub created_ids : String → List String → List EnrollmentRow → List String
created_ids target students rows = map (λ r. r.id) (filter (is_created target students) rows)

-- The class of each student was found before, or the step has thrown.
abbrev pub class_or_empty : Option Text → Text
class_or_empty none = []
class_or_empty (some id) = id

abbrev pub status_for : RolloverAction → EnrollmentStatus
status_for action = if is_repeating action then status_repeated else status_promoted

abbrev pub delete_ids : List String → List EnrollmentRow → List EnrollmentRow
delete_ids ids rows = filter (λ r. not (has_id ids r.id)) rows

abbrev pub has_row : List EnrollmentRow → String → Bool
has_row rows id = any (λ r. r.id =ₛ id) rows

-- `enrollment.update({ where: { id }, data: { status } })`, for each entry that was noted: whether
-- all of them ended, and the rows that then stand. An update throws where no row has the id.
unfoldable pub restore :
    Dict String EnrollmentStatus → List EnrollmentRow → Bool × List EnrollmentRow
restore [] rows = (true, rows)
restore ((id, status) ∷ previous) rows = elim (has_row rows id) [
  | true ↦ restore previous (map (give_status (id ∷ []) status) rows)
  | false ↦ (false, rows)
]

-- what `rollback` does to the enrollments
unfoldable pub undo : Created → List EnrollmentRow → Bool × List EnrollmentRow
undo created rows = restore created.previous_status (delete_ids created.enrollment_ids rows)

-- the two `updateMany` of `oldIdsByStatus`, in the order of the Map; the flag says that REPEATED
-- stands first in it
abbrev pub set_statuses : Bool → List String → List String → List EnrollmentRow → List EnrollmentRow
set_statuses true moving repeating rows =
    map (give_status moving status_promoted) (map (give_status repeating status_repeated) rows)
set_statuses false moving repeating rows =
    map (give_status repeating status_repeated) (map (give_status moving status_promoted) rows)

module _ {F : Type 0} where
  -- whether the first of the decisions with an old row is to repeat
  abbrev pub repeats_first : String → List EnrollmentRow → List (StudentDecision F) → Bool
  repeats_first source rows [] = false
  repeats_first source rows (d ∷ decisions) = elim (old_of source rows d.student_id) [
    | none ↦ repeats_first source rows decisions
    | some old ↦ is_repeating d.action
  ]

  abbrev pub students_with : (RolloverAction → Bool) → List (StudentDecision F) → List String
  students_with chosen decisions = map (λ d. d.student_id) (filter (λ d. chosen d.action) decisions)

  unfoldable pub graduate :
      String
      → List (StudentDecision F)
      → Created
      → List EnrollmentRow
      → Created × List EnrollmentRow
  graduate source decisions created rows =
      let students = students_with is_graduating decisions in
      (
        record created { previous_status = remember source rows students created.previous_status },
        map (give_status (old_ids source rows students) status_graduated) rows,
      )

  module _ (new_id : ℕ → String) where
    -- `createMany` with `skipDuplicates`; `n` counts the rows that the database made
    unfoldable pub add_enrollments :
        String
        → Dict String Text
        → ℕ
        → List EnrollmentRow
        → List (StudentDecision F)
        → List EnrollmentRow
    add_enrollments target classes n rows [] = rows
    add_enrollments target classes n rows (d ∷ decisions) =
        let row : EnrollmentRow = record {
          id = new_id n;
          student_id = d.student_id;
          class_id = class_or_empty (lookup d.student_id classes);
          academic_year_id = target;
          status = status_for d.action;
        } in
        elim (any (same_enrollment row) rows) [
          | true ↦ add_enrollments target classes n rows decisions
          | false ↦ add_enrollments target classes (suc n) (rows ++ row ∷ []) decisions
        ]

    -- "promote", after the classes were found
    unfoldable pub promote :
        String
        → String
        → Dict String Text
        → List (StudentDecision F)
        → Created
        → List EnrollmentRow
        → Created × List EnrollmentRow
    promote source target classes decisions created rows =
        let continuing = filter (λ d. is_continuing d.action) decisions in
        let students = map (λ d. d.student_id) continuing in
        let more = add_enrollments target classes 0 rows continuing in
        let repeating = old_ids source more (students_with is_repeating decisions) in
        let moving = old_ids source more (students_with is_moving decisions) in
        (
          record {
            enrollment_ids = created.enrollment_ids ++ created_ids target students more;
            previous_status = remember source more students created.previous_status;
          },
          set_statuses (repeats_first source more continuing) moving repeating more,
        )
