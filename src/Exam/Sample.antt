-- ===== src/Exam/Sample.antt =====
-- An exam of one hour with two questions, and attempts at it.
use openlms.Base.{ℕ, ◌*◌, List, [], ◌∷◌, Option, none, some, String, true, false}
use openlms.Base.Texts.{codes}
use openlms.Roles.{siswa, operator, RequestContext}
use openlms.Quiz.Grading.{Question, pilihan_ganda, AttemptStatus, in_progress, submitted}
use openlms.Exam.{Attempt, Exam, Session, Store, Moment, ongoing}

abbrev pub student : RequestContext
student = record { user_id = "s1"; roles = siswa ∷ []; class_ids = []; homeroom_class_id = none }

abbrev pub staff : RequestContext
staff = record { user_id = "op"; roles = operator ∷ []; class_ids = []; homeroom_class_id = none }

abbrev pub at_minute : ℕ → Moment
at_minute m = record { time = m * 60000; month = 8; year = 2026 }

abbrev pub question : String → String → Question
question id right = record {
  id = id;
  question_type = pilihan_ganda;
  correct_answer = some (codes right);
  options = codes "A" ∷ codes "B" ∷ [];
}

abbrev pub attempt_of : String → String → AttemptStatus → Option ℕ → Attempt
attempt_of id student_id status submitted_at = record {
  id = id;
  exam_session_id = "session";
  student_id = student_id;
  exam_package_id = "package";
  token_used = id;
  started_at = 0;
  submitted_at = submitted_at;
  status = status;
  score_auto = none;
  score_manual = none;
  device_info = record { initial = none; activities = []; grade_skipped = false };
  ip_address = none;
}

abbrev pub the_exam : Exam
the_exam = record { id = "exam"; subject_id = "math"; status = ongoing; duration_min = 60 }

abbrev pub the_session : Session
the_session = record {
  id = "session";
  exam_id = "exam";
  starts_at = 0;
  ends_at = 7200000;
  access_token = some "hashed";
  token_expires_at = none;
}

abbrev pub with_attempts : List Attempt → Store
with_attempts attempts = record {
  exams = the_exam ∷ [];
  sessions = the_session ∷ [];
  packages =
      record {
        id = "package";
        exam_id = "exam";
        shuffle_options = false;
        questions = question "q1" "A" ∷ question "q2" "B" ∷ [];
      }
      ∷ [];
  enrollments =
      record { student_id = "s1"; class_id = "X1"; is_active = true }
      ∷ record { student_id = "s2"; class_id = "X1"; is_active = true }
      ∷ [];
  class_subjects = record { id = "X1-math"; class_id = "X1"; subject_id = "math" } ∷ [];
  attempts = attempts;
  answer_logs = [];
  grades = [];
  audits = [];
}

abbrev pub going : Attempt
going = attempt_of "t1" "s1" in_progress none

abbrev pub ended : Attempt
ended = attempt_of "t2" "s2" submitted (some 60000)

abbrev pub two_attempts : Store
two_attempts = with_attempts (going ∷ ended ∷ [])
