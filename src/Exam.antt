-- ===== src/Exam.antt =====
-- Online exams: apps/api/src/modules/exam/exam-attempt.service.ts and exam.util.ts. The tables that
-- the service reads and writes, and who may reach an attempt. Times are in milliseconds, and `now`
-- is an argument of each call; the table of attempts is in the order of its ids, in which
-- `orderBy: { id: "asc" }` reads it.
pub mod Finish
pub mod Answers
pub mod Start
pub mod Background
pub mod Steps
pub mod Table
pub mod Final
pub mod Sample
mod StartTests
mod Tests
use openlms.Base.{
  ℕ, ◌+◌, ◌*◌, ◌≡◌, Bool, true, false, ◌&&◌, ◌||◌, not, String, List, [], ◌∷◌, ◌++◌, Option, none,
  some, map, ◌==◌, ◌=ₛ◌, leb, ltb, any, find, filter, is_some, if◌then◌else◌,
}
use openlms.Base.Texts.{Text, text_before}
use openlms.Base.Result.{Result, ok, err}
use openlms.Base.Transaction.{Transaction, throw_when}
use openlms.Roles.{
  Role, superadmin, operator, wakepsek, kepsek, auditor, kaprodi, keuangan, guru, bk, includes,
  has_any, is_text, RequestContext,
}
use openlms.Quiz.Grading.{AttemptStatus, Question, AnswerLog, Semester}

pub data AssessmentStatus : Type 0 where
  draft published ongoing closed archived : AssessmentStatus

pub record Activity : Type 0 where
  pub event : String
  pub payload : String
  pub device : Option String
  pub ip : Option String
  pub at : ℕ

-- the object in `device_info`
pub record DeviceInfo : Type 0 where
  pub initial : Option String
  pub activities : List Activity
  pub grade_skipped : Bool

pub record Attempt : Type 0 where
  pub id : String
  pub exam_session_id : String
  pub student_id : String
  pub exam_package_id : String
  pub token_used : String
  pub started_at : ℕ
  pub submitted_at : Option ℕ
  pub status : AttemptStatus
  pub score_auto : Option ℕ
  pub score_manual : Option ℕ
  pub device_info : DeviceInfo
  pub ip_address : Option String

pub record Exam : Type 0 where
  pub id : String
  pub subject_id : String
  pub status : AssessmentStatus
  pub duration_min : ℕ

pub record Session : Type 0 where
  pub id : String
  pub exam_id : String
  pub starts_at : ℕ
  pub ends_at : ℕ
  pub access_token : Option String
  pub token_expires_at : Option ℕ

pub record ExamPackage : Type 0 where
  pub id : String
  pub exam_id : String
  pub shuffle_options : Bool
  pub questions : List Question

-- an enrolment, and whether its status is ACTIVE
pub record Enrollment : Type 0 where
  pub student_id : String
  pub class_id : String
  pub is_active : Bool

pub record ClassSubject : Type 0 where
  pub id : String
  pub class_id : String
  pub subject_id : String

-- a summative grade
pub record Grade : Type 0 where
  pub student_id : String
  pub class_subject_id : String
  pub semester : Semester
  pub academic_year : ℕ
  pub source_id : String
  pub score : ℕ

pub record ExamAudit : Type 0 where
  pub actor_id : Option String
  pub entity_id : String
  pub before : Option AttemptStatus
  pub after : AttemptStatus
  pub score_auto : Option ℕ

-- The tables; enrolments stand with the newest first.
pub record Store : Type 0 where
  pub exams : List Exam
  pub sessions : List Session
  pub packages : List ExamPackage
  pub enrollments : List Enrollment
  pub class_subjects : List ClassSubject
  pub attempts : List Attempt
  pub answer_logs : List AnswerLog
  pub grades : List Grade
  pub audits : List ExamAudit

pub data Error : Type 0 where
  bad_token_format session_not_found session_closed exam_not_workable wrong_token token_expired :
      Error
  student_required forbidden already_attempted token_reused no_packages : Error
  key_required no_answers attempt_not_found attempt_finished time_is_up unknown_question : Error
  package_not_found not_gradeable unknown_event : Error

-- `new Date()`: the time, and the month and year that a label is made of
pub record Moment : Type 0 where
  pub time : ℕ
  pub month : ℕ
  pub year : ℕ

abbrev pub find_attempt : String → Store → Option Attempt
find_attempt id store = find (λ a. a.id =ₛ id) store.attempts

abbrev pub find_session : String → Store → Option Session
find_session id store = find (λ s. s.id =ₛ id) store.sessions

abbrev pub find_exam : String → Store → Option Exam
find_exam id store = find (λ e. e.id =ₛ id) store.exams

abbrev pub find_package : String → Store → Option ExamPackage
find_package id store = find (λ p. p.id =ₛ id) store.packages

-- `examAttempt.update({ where: { id }, data })`
abbrev pub update_row : String → (Attempt → Attempt) → Attempt → Attempt
update_row id change a = if a.id =ₛ id then change a else a

abbrev pub update_attempt : String → (Attempt → Attempt) → Store → Store
update_attempt id change store = record store {
  attempts = map (update_row id change) store.attempts;
}

abbrev pub staff_attempt_roles : List Role
staff_attempt_roles =
    superadmin ∷ operator ∷ wakepsek ∷ kepsek ∷ auditor ∷ guru ∷ bk ∷ kaprodi ∷ keuangan ∷ []

unfoldable pub is_staff_scope : RequestContext → Bool
is_staff_scope actor = has_any staff_attempt_roles actor.roles

unfoldable pub has_school_scope : RequestContext → Bool
has_school_scope actor =
    has_any (superadmin ∷ operator ∷ wakepsek ∷ kepsek ∷ auditor ∷ kaprodi ∷ keuangan ∷ [])
      actor.roles

-- an active enrolment of the student in a class that the actor teaches or is homeroom teacher of
abbrev pub teaches : RequestContext → String → Enrollment → Bool
teaches actor student_id e =
    (e.student_id =ₛ student_id && e.is_active)
    && (any (λ c. c =ₛ e.class_id) actor.class_ids || is_text actor.homeroom_class_id e.class_id)

unfoldable pub can_access_student : RequestContext → String → Store → Bool
can_access_student actor student_id store =
    if has_school_scope actor
    then true
    else if has_any (guru ∷ bk ∷ []) actor.roles
    then any (teaches actor student_id) store.enrollments
    else false

-- whether `assertOwnsAttempt` lets the actor through
unfoldable pub owns_attempt : RequestContext → Attempt → Store → Bool
owns_attempt actor attempt store =
    if is_staff_scope actor
    then attempt.student_id =ₛ actor.user_id || can_access_student actor attempt.student_id store
    else attempt.student_id =ₛ actor.user_id

abbrev pub assert_owns_attempt : RequestContext → Attempt → Transaction Store Error (Unit {0})
assert_owns_attempt actor attempt store =
    throw_when (not (owns_attempt actor attempt store)) forbidden store

unfoldable pub is_expired : ℕ → ℕ → ℕ → Bool
is_expired started_at duration_min now = ltb (started_at + duration_min * 60000) now

-- whom an audit row names: nobody for the system
abbrev pub author_of : String → Option String
author_of user_id = if user_id =ₛ "system" then none else some user_id

abbrev pub add_audit : ExamAudit → Store → Store
add_audit row store = record store { audits = store.audits ++ row ∷ [] }
