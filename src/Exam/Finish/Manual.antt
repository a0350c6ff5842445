-- ===== src/Exam/Finish/Manual.antt =====
-- The grade after a manual score: `manualGrade` of
-- apps/api/src/modules/exam/exam-attempt.service.ts.
use openlms.Base.{
  ℕ, ◌≡◌, refl, sym, ◌∙◌, ◌&&◌, String, Option, none, some, find, ◌=ₛ◌, inl, inr, Bool-cases,
  Option-cases,
}
use openlms.Base.Transaction.{commit}
use openlms.Roles.{RequestContext}
use openlms.Quiz.Grading.{Platform, AutoScoreResult}
use openlms.Exam.{
  Attempt, Enrollment, Exam, ExamPackage, Store, Moment, find_attempt, find_session, find_exam,
  find_package, update_attempt, owns_attempt,
}
use openlms.Exam.Finish.{
  is_gradeable, resolve_class_subject_id, write_grade, auto_score, manual_grade, class_subject_of,
}

abbrev with_score : String → ℕ → Store → Store
with_score id score s = update_attempt id (λ a. record a { score_manual = some score }) s

class_subject-with_score :
    (subject_id id : String) (score : ℕ) (e : Option Enrollment) (s : Store)
    → class_subject_of subject_id e (with_score id score s) ≡ class_subject_of subject_id e s
class_subject-with_score subject_id id score none s = refl
class_subject-with_score subject_id id score (some e) s = refl

resolve-with_score :
    (student_id subject_id id : String) (score : ℕ) (s : Store)
    → resolve_class_subject_id student_id subject_id (with_score id score s)
      ≡ resolve_class_subject_id student_id subject_id s
unfolding resolve_class_subject_id
resolve-with_score student_id subject_id id score s =
    class_subject-with_score subject_id id score
      (find (λ e. e.student_id =ₛ student_id && e.is_active) s.enrollments) s

-- the grade as it is written with the class already looked up
grades_after :
    (p : Platform) (now : Moment) (attempt : Attempt) (exam : Exam) (pkg : ExamPackage)
    (s t : Store) (auto : AutoScoreResult)
    → resolve_class_subject_id attempt.student_id exam.subject_id s
      ≡ resolve_class_subject_id attempt.student_id exam.subject_id t
    → s.grades ≡ t.grades
    → (write_grade p now attempt exam pkg auto s).grades
      ≡ (write_grade p now attempt exam pkg auto t).grades
unfolding write_grade
grades_after p now attempt exam pkg s t auto same grades =
    elim (Option-cases (resolve_class_subject_id attempt.student_id exam.subject_id t)) [
      | inl e ↦ rw (write_grade, same, e) grades
      | inr (c, e) ↦ rw (write_grade, same, e, grades) refl
    ]

-- The grade that a manual score writes does not depend on the score: the grades after the call are
-- the same for any two scores.
pub manual_grade_ignores_score :
    (p : Platform) (now : Moment) (id : String) (m n : ℕ) (actor : RequestContext) (s : Store)
    → ((commit (manual_grade p now id m actor) s).1).grades
      ≡ ((commit (manual_grade p now id n actor) s).1).grades
unfolding manual_grade
manual_grade_ignores_score p now id m n actor s = elim (Option-cases (find_attempt id s)) [
  | inl e ↦ rw (e, manual_grade) refl
  | inr (a, e) ↦ elim (Option-cases (find_session a.exam_session_id s)) [
    | inl f ↦ rw (manual_grade, e, f) refl
    | inr (session, f) ↦ elim (Option-cases (find_exam session.exam_id s)) [
      | inl g ↦ rw (manual_grade, e, f, g) refl
      | inr (exam, g) ↦ elim (Option-cases (find_package a.exam_package_id s)) [
        | inl h ↦ rw (manual_grade, e, f, g, h) refl
        | inr (pkg, h) ↦ elim (Bool-cases (owns_attempt actor a s)) [
          | inl owns ↦ elim (Bool-cases (is_gradeable a.status)) [
            | inl graded ↦
                rw (manual_grade, e, f, g, h, owns, graded)
                  (grades_after p now a exam pkg (with_score id m s) (with_score id n s)
                    (auto_score p a pkg s)
                    (resolve-with_score a.student_id exam.subject_id id m s
                      ∙ sym (resolve-with_score a.student_id exam.subject_id id n s))
                    refl)
            | inr ungraded ↦ rw (manual_grade, e, f, g, h, owns, ungraded) refl
          ]
          | inr foreign ↦ rw (manual_grade, e, f, g, h, foreign) refl
        ]
      ]
    ]
  ]
]
