-- ===== src/Exam/Finish.antt =====
-- The end of an attempt: `finalizeWithinTx`, `writeGrade`, `resolveClassSubjectId`, `submit`,
-- `markExpired` and `manualGrade` of apps/api/src/modules/exam/exam-attempt.service.ts.
pub mod Manual
use openlms.Base.{
  ℕ, ◌+◌, ◌≡◌, Bool, true, false, ◌&&◌, not, String, List, [], ◌∷◌, ◌++◌, Option, none, some, map,
  ◌=ₛ◌, ◌==◌, any, find, filter, length, if◌then◌else◌,
}
use openlms.Base.Transaction.{Transaction, ◌>>=◌, ◌>>◌, returns, throw_when, need, gets, modify}
use openlms.Roles.{RequestContext}
use openlms.Quiz.Grading.{
  Platform, AttemptStatus, in_progress, submitted, auto_submitted, expired, flagged, is_in_progress,
  is_esai, Question, AnswerLog, AutoScoreResult, Semester, ganjil, genap, compute_auto_score,
  latest_answers_by_question, compute_semester_label,
}
use openlms.Exam.{
  Attempt, DeviceInfo, Session, Exam, ExamPackage, ClassSubject, Enrollment, Grade, ExamAudit,
  Store, Error, attempt_not_found, attempt_finished, session_not_found, package_not_found,
  not_gradeable, Moment, find_attempt, find_session, find_exam, find_package, update_attempt,
  assert_owns_attempt, is_expired, add_audit, author_of,
}

abbrev pub class_subject_of : String → Option Enrollment → Store → Option String
class_subject_of subject_id none store = none
class_subject_of subject_id (some e) store =
    elim (find (λ c. c.class_id =ₛ e.class_id && c.subject_id =ₛ subject_id) store.class_subjects) [
      | none ↦ none
      | some c ↦ some c.id
    ]

unfoldable pub resolve_class_subject_id : String → String → Store → Option String
resolve_class_subject_id student_id subject_id store =
    class_subject_of subject_id
      (find (λ e. e.student_id =ₛ student_id && e.is_active) store.enrollments) store

abbrev pub same_semester : Semester → Semester → Bool
same_semester ganjil ganjil = true
same_semester ganjil genap = false
same_semester genap ganjil = false
same_semester genap genap = true

-- the unique key of a grade; its type is always SUMATIF here
abbrev pub is_same_grade : Grade → Grade → Bool
is_same_grade g h =
    (g.student_id =ₛ h.student_id && g.class_subject_id =ₛ h.class_subject_id)
    && (same_semester g.semester h.semester && g.source_id =ₛ h.source_id)

-- `grade.upsert`
unfoldable pub upsert_grade : Grade → List Grade → List Grade
upsert_grade g [] = g ∷ []
upsert_grade g (h ∷ grades) =
    if is_same_grade g h then record h { score = g.score } ∷ grades else h ∷ upsert_grade g grades

abbrev pub score_or_zero : Option ℕ → ℕ
score_or_zero none = 0
score_or_zero (some n) = n

abbrev pub grade_row : Moment → Attempt → String → ℕ → Grade
grade_row now attempt class_subject_id score =
    let (semester, academic_year) = compute_semester_label now.month now.year in
    record {
      student_id = attempt.student_id;
      class_subject_id = class_subject_id;
      semester = semester;
      academic_year = academic_year;
      source_id = attempt.id;
      score = score;
    }

abbrev pub skip_grade : Attempt → Store → Store
skip_grade attempt store =
    update_attempt attempt.id
      (λ a. record a { device_info = record (attempt.device_info) { grade_skipped = true } }) store

abbrev pub put_grade : Grade → Store → Store
put_grade g store = record store { grades = upsert_grade g store.grades }

abbrev pub logs_of_attempt : String → Store → List AnswerLog
logs_of_attempt id store = filter (λ l. l.attempt_id =ₛ id) store.answer_logs

abbrev pub finished : Moment → AttemptStatus → AutoScoreResult → Attempt → Attempt
finished now target auto a = record a {
  status = target;
  submitted_at = some now.time;
  score_auto = auto.score;
}

abbrev pub audit_row : String → Attempt → AttemptStatus → Option ℕ → ExamAudit
audit_row actor_id attempt target score = record {
  actor_id = author_of actor_id;
  entity_id = attempt.id;
  before = some attempt.status;
  after = target;
  score_auto = score;
}

abbrev pub submit_target : Moment → Attempt → Exam → AttemptStatus
submit_target now attempt exam =
    if is_expired attempt.started_at exam.duration_min now.time then auto_submitted else submitted

abbrev pub is_gradeable : AttemptStatus → Bool
is_gradeable in_progress = false
is_gradeable submitted = true
is_gradeable auto_submitted = true
is_gradeable expired = false
is_gradeable flagged = false

module _ (p : Platform) where
  -- `Math.round((autoCount / totalQ) * autoPart + (manualCount / totalQ) * (manualPart ?? 0))`
  abbrev pub weighted : ℕ → ℕ → ℕ → ℕ → ℕ
  weighted auto_count manual_count auto_part manual_part =
      let share = λ (n : ℕ). p.over (p.of_count n) (p.of_count (auto_count + manual_count)) in
      p.round (
        p.plus (p.times (share auto_count) (p.of_count auto_part))
          (p.times (share manual_count) (p.of_count manual_part)))

  unfoldable pub final_score : List Question → AutoScoreResult → Option ℕ → ℕ
  final_score questions auto score_manual =
      let manual_count = length (filter (λ q. is_esai q.question_type) questions) in
      if (auto.total_count + manual_count) == 0
      then 0
      else weighted auto.total_count manual_count (score_or_zero auto.score)
          (score_or_zero score_manual)

  -- `writeGrade`, by the attempt as the caller read it
  unfoldable pub write_grade :
      Moment → Attempt → Exam → ExamPackage → AutoScoreResult → Store → Store
  write_grade now attempt exam pkg auto store =
      elim (resolve_class_subject_id attempt.student_id exam.subject_id store) [
        | none ↦ skip_grade attempt store
        | some id ↦
            put_grade
              (grade_row now attempt id (final_score pkg.questions auto attempt.score_manual)) store
      ]

  abbrev pub auto_score : Attempt → ExamPackage → Store → AutoScoreResult
  auto_score attempt pkg store =
      compute_auto_score p pkg.questions
        (latest_answers_by_question (logs_of_attempt attempt.id store))

  -- `finalizeWithinTx`; it returns the automatic score of the updated row
  unfoldable pub finalize :
      Moment → Attempt → AttemptStatus → Transaction Store Error AutoScoreResult
  finalize now attempt target = do
    throw_when (not (is_in_progress attempt.status)) attempt_finished
    found ← gets (find_session attempt.exam_session_id)
    session ← need found session_not_found
    found_exam ← gets (find_exam session.exam_id)
    exam ← need found_exam session_not_found
    found_package ← gets (find_package attempt.exam_package_id)
    pkg ← need found_package package_not_found
    auto ← gets (auto_score attempt pkg)
    modify (update_attempt attempt.id (finished now target auto))
    modify (write_grade now attempt exam pkg auto)
    returns auto

  unfoldable pub submit : Moment → String → RequestContext → Transaction Store Error (Option ℕ)
  submit now attempt_id actor = do
    found ← gets (find_attempt attempt_id)
    attempt ← need found attempt_not_found
    assert_owns_attempt actor attempt
    throw_when (not (is_in_progress attempt.status)) attempt_finished
    found_session ← gets (find_session attempt.exam_session_id)
    session ← need found_session session_not_found
    found_exam ← gets (find_exam session.exam_id)
    exam ← need found_exam session_not_found
    auto ← finalize now attempt (submit_target now attempt exam)
    modify (add_audit (audit_row actor.user_id attempt (submit_target now attempt exam) auto.score))
    returns auto.score

  unfoldable pub manual_grade :
      Moment → String → ℕ → RequestContext → Transaction Store Error (Unit {0})
  manual_grade now attempt_id score_manual actor = do
    found ← gets (find_attempt attempt_id)
    attempt ← need found attempt_not_found
    found_session ← gets (find_session attempt.exam_session_id)
    session ← need found_session attempt_not_found
    found_exam ← gets (find_exam session.exam_id)
    exam ← need found_exam attempt_not_found
    found_package ← gets (find_package attempt.exam_package_id)
    pkg ← need found_package attempt_not_found
    assert_owns_attempt actor attempt
    throw_when (not (is_gradeable attempt.status)) not_gradeable
    modify (update_attempt attempt_id (λ a. record a { score_manual = some score_manual }))
    auto ← gets (auto_score attempt pkg)
    modify (write_grade now attempt exam pkg auto)

unfoldable pub mark_expired : Moment → String → RequestContext → Transaction Store Error (Unit {0})
mark_expired now attempt_id actor = do
  found ← gets (find_attempt attempt_id)
  attempt ← need found attempt_not_found
  assert_owns_attempt actor attempt
  throw_when (not (is_in_progress attempt.status)) attempt_finished
  modify
      (update_attempt attempt_id (λ a. record a { status = expired; submitted_at = some now.time }))
  modify (
      add_audit (record {
        actor_id = author_of actor.user_id;
        entity_id = attempt.id;
        before = some attempt.status;
        after = expired;
        score_auto = none;
      }))
