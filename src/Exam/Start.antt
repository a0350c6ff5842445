-- ===== src/Exam/Start.antt =====
-- Starting an attempt: `start` of apps/api/src/modules/exam/exam-attempt.service.ts, with
-- `validateTokenFormat` and `studentQuestionView` of exam.util.ts. The hash of a token is a
-- parameter, and the id of the new attempt an argument.
pub mod Opening
pub mod Returning
use openlms.Base.{
  ℕ, ◌+◌, ◌≡◌, Bool, true, false, ◌&&◌, ◌||◌, not, String, List, [], ◌∷◌, ◌++◌, Option, none, some,
  map, ◌=ₛ◌, ◌==◌, any, filter, length, get_elem?, is_some, ltb, if◌then◌else◌,
}
use openlms.Base.Texts.{Text, codes, text_before}
use openlms.Base.Transaction.{Transaction, ◌>>=◌, ◌>>◌, returns, throw_when, need, gets, modify}
use openlms.Roles.{RequestContext, is_text}
use openlms.Quiz.Random.{seeded_shuffle, present, seeded_index}
use openlms.Quiz.Grading.{QuestionType, in_progress, Question, remaining_seconds}
use openlms.Exam.{
  AssessmentStatus, draft, published, ongoing, closed, archived, Attempt, DeviceInfo, Exam, Session,
  ExamPackage, Store, Error, bad_token_format, session_not_found, session_closed, exam_not_workable,
  wrong_token, token_expired, student_required, forbidden, already_attempted, token_reused,
  no_packages, Moment, find_session, find_exam, is_staff_scope, can_access_student, add_audit,
  author_of,
}

pub record StartInput : Type 0 where
  pub access_token : String
  pub student_id : Option String
  pub device_info : Option String

-- a question as a student sees it
pub record QuestionView : Type 0 where
  pub id : String
  pub question_type : QuestionType
  pub options : List Text

pub record StartResult : Type 0 where
  pub attempt_id : String
  pub remaining : ℕ
  pub package_id : String
  pub questions : List QuestionView

abbrev pub token_alphabet : String
token_alphabet = "23456789ABCDEFGHJKLMNPQRSTUVWXYZabcdefghjkmnpqrstuvwxyz"

unfoldable pub validate_token_format : String → Bool
validate_token_format token =
    length (codes token) == 6
    && not (any (λ c. not (any (λ d. d == c) (codes token_alphabet))) (codes token))

abbrev pub is_workable : AssessmentStatus → Bool
is_workable draft = false
is_workable published = true
is_workable ongoing = true
is_workable closed = false
is_workable archived = false

-- `token_expires_at && now > token_expires_at`
abbrev pub is_past : Option ℕ → ℕ → Bool
is_past none now = false
is_past (some limit) now = ltb limit now

abbrev pub open_exam : String → Exam → Exam
open_exam id exam = if exam.id =ₛ id then record exam { status = opened exam.status } else exam
  where
    opened : AssessmentStatus → AssessmentStatus
    opened published = ongoing
    opened draft = draft
    opened ongoing = ongoing
    opened closed = closed
    opened archived = archived

abbrev pub open_exams : String → Store → Store
open_exams id store = record store { exams = map (open_exam id) store.exams }

-- a row goes where its id stands in the order of the table
unfoldable pub insert_attempt : Attempt → List Attempt → List Attempt
insert_attempt a [] = a ∷ []
insert_attempt a (b ∷ attempts) =
    if text_before a.id b.id then a ∷ b ∷ attempts else b ∷ insert_attempt a attempts

abbrev pub has_student : String → String → Attempt → Bool
has_student session_id student_id a = a.exam_session_id =ₛ session_id && a.student_id =ₛ student_id

abbrev pub has_token : String → String → Attempt → Bool
has_token session_id token a = a.exam_session_id =ₛ session_id && a.token_used =ₛ token

unfoldable pub student_question_view : String → Bool → Question → QuestionView
student_question_view seed shuffle_options q = record {
  id = q.id;
  question_type = q.question_type;
  options = if shuffle_options then present (seeded_shuffle (codes seed) q.options) else q.options;
}

-- `!dto.student_id`
abbrev pub non_empty : Option String → Option String
non_empty none = none
non_empty (some s) = if s =ₛ "" then none else some s

-- whose attempt it will be: a student's own, or the one that staff names
abbrev pub student_of : RequestContext → Option String → Option String
student_of actor student_id =
    if is_staff_scope actor then non_empty student_id else some actor.user_id

abbrev pub new_attempt :
    Moment → String → String → String → String → String → Option String → Option String → Attempt
new_attempt now id session_id student_id package_id token device ip = record {
  id = id;
  exam_session_id = session_id;
  student_id = student_id;
  exam_package_id = package_id;
  token_used = token;
  started_at = now.time;
  submitted_at = none;
  status = in_progress;
  score_auto = none;
  score_manual = none;
  device_info = record { initial = device; activities = []; grade_skipped = false };
  ip_address = ip;
}

-- what the unique keys of the table refuse: an id, a student or a token of the session twice
abbrev pub clashes : Attempt → Attempt → Bool
clashes a b =
    a.id =ₛ b.id
    || (has_student a.exam_session_id a.student_id b || has_token a.exam_session_id a.token_used b)

-- the package of the exam that the session and the student draw
abbrev pub package_for : String → String → String → Store → Option ExamPackage
package_for session_id student_id exam_id store =
    let packages = filter (λ p. p.exam_id =ₛ exam_id) store.packages in
    get_elem? packages (seeded_index (codes session_id ++ 58 ∷ codes student_id) (length packages))

-- whether the actor may start for the student
abbrev pub may_start : RequestContext → String → Store → Bool
may_start actor student_id store =
    not (is_staff_scope actor)
    || (student_id =ₛ actor.user_id || can_access_student actor student_id store)

abbrev pub add_attempt : Attempt → Store → Store
add_attempt a store = record store { attempts = insert_attempt a store.attempts }

module _ (hash_token : String → String) where
  -- the transaction, for the session and exam that were read before it
  unfoldable pub create_attempt :
      Moment
      → String
      → Session
      → Exam
      → String
      → StartInput
      → Option String
      → Transaction Store Error StartResult
  create_attempt now id session exam student_id dto ip = do
    let token = hash_token dto.access_token
    attempted ← gets (λ s. any (has_student session.id student_id) s.attempts)
    throw_when attempted already_attempted
    reused ← gets (λ s. any (has_token session.id token) s.attempts)
    throw_when reused token_reused
    modify (open_exams exam.id)
    chosen ← gets (package_for session.id student_id exam.id)
    pkg ← need chosen no_packages
    let attempt = new_attempt now id session.id student_id pkg.id token dto.device_info ip
    violated ← gets (λ s. any (clashes attempt) s.attempts)
    throw_when violated token_reused
    modify (add_attempt attempt)
    returns (record {
      attempt_id = id;
      remaining = remaining_seconds now.time exam.duration_min now.time;
      package_id = pkg.id;
      questions =
          map (student_question_view id pkg.shuffle_options)
            (present (seeded_shuffle (codes id) pkg.questions));
    })

  unfoldable pub start :
      Moment
      → String
      → String
      → StartInput
      → RequestContext
      → Option String
      → Transaction Store Error StartResult
  start now id session_id dto actor ip = do
    throw_when (not (validate_token_format dto.access_token)) bad_token_format
    found ← gets (find_session session_id)
    session ← need found session_not_found
    found_exam ← gets (find_exam session.exam_id)
    exam ← need found_exam session_not_found
    throw_when (ltb now.time session.starts_at || ltb session.ends_at now.time) session_closed
    throw_when (not (is_workable exam.status)) exam_not_workable
    throw_when (not (is_text session.access_token (hash_token dto.access_token))) wrong_token
    throw_when (is_past session.token_expires_at now.time) token_expired
    student_id ← need (student_of actor dto.student_id) student_required
    allowed ← gets (may_start actor student_id)
    throw_when (not allowed) forbidden
    result ← create_attempt now id session exam student_id dto ip
    modify (
        add_audit (record {
          actor_id = author_of actor.user_id;
          entity_id = id;
          before = none;
          after = in_progress;
          score_auto = none;
        }))
    returns result
