-- ===== src/Exam/Answers.antt =====
-- Saving answers and activities: `saveAnswers` and `logActivity` of
-- apps/api/src/modules/exam/exam-attempt.service.ts.
pub mod Saving
pub mod Late
use openlms.Base.{
  ℕ, ◌+◌, ◌-◌, ◌≡◌, Bool, true, false, ◌&&◌, not, String, List, [], ◌∷◌, ◌++◌, Option, none, some,
  map, ◌=ₛ◌, any, filter, length, if◌then◌else◌,
}
use openlms.Base.Texts.{Text, codes, same_text}
use openlms.Base.Transaction.{
  Transaction, ◌>>=◌, ◌>>◌, returns, throws, throw_when, need, gets, modify,
}
use openlms.Roles.{RequestContext}
use openlms.Quiz.Grading.{Platform, auto_submitted, is_in_progress, is_empty, Question, AnswerLog}
use openlms.Exam.{
  Activity, Attempt, ExamPackage, Store, Error, key_required, no_answers, attempt_not_found,
  attempt_finished, time_is_up, unknown_question, session_not_found, unknown_event, Moment,
  find_attempt, find_session, find_exam, update_attempt, assert_owns_attempt, is_expired,
}
use openlms.Exam.Finish.{finalize}

pub record AnswerItem : Type 0 where
  pub question_id : String
  pub answer : Option Text

pub record SaveResult : Type 0 where
  pub saved : ℕ
  pub duplicated : ℕ

-- the questions of the package with this id
abbrev pub package_questions : String → Store → List Question
package_questions id store = questions_in store.packages
  where
    questions_in : List ExamPackage → List Question
    questions_in [] = []
    questions_in (p ∷ packages) = if p.id =ₛ id then p.questions else questions_in packages

abbrev pub is_owned : List Question → AnswerItem → Bool
is_owned questions item = any (λ q. q.id =ₛ item.question_id) questions

-- `${idempotencyKey}:${item.question_id}`
abbrev pub entry_key : Text → AnswerItem → Text
entry_key idempotency_key item = idempotency_key ++ 58 ∷ codes item.question_id

-- the loop that keeps the first item of each key, with the keys seen
unfoldable pub entries_from : Text → List Text → List AnswerItem → List AnswerItem
entries_from key seen [] = []
entries_from key seen (item ∷ items) = elim (any (same_text (entry_key key item)) seen) [
  | true ↦ entries_from key seen items
  | false ↦ item ∷ entries_from key (entry_key key item ∷ seen) items
]

abbrev pub has_log : String → Text → List AnswerLog → Bool
has_log attempt_id key logs =
    any (λ l. l.attempt_id =ₛ attempt_id && same_text l.idempotency_key key) logs

abbrev pub new_log : Moment → String → Text → AnswerItem → AnswerLog
new_log now attempt_id key item = record {
  attempt_id = attempt_id;
  question_id = item.question_id;
  answer = item.answer;
  saved_at = now.time;
  idempotency_key = entry_key key item;
}

abbrev pub to_create : String → Text → List AnswerItem → Store → List AnswerItem
to_create attempt_id key entries store =
    filter (λ item. not (has_log attempt_id (entry_key key item) store.answer_logs)) entries

abbrev pub create_logs : List AnswerLog → Store → Store
create_logs logs store = record store { answer_logs = store.answer_logs ++ logs }

abbrev pub is_none : List AnswerItem → Bool
is_none [] = true
is_none (item ∷ items) = false

-- the part after the checks of the attempt
unfoldable pub store_answers :
    Moment → String → List AnswerItem → Text → Attempt → Transaction Store Error SaveResult
store_answers now attempt_id answers key attempt = do
  questions ← gets (package_questions attempt.exam_package_id)
  throw_when (any (λ item. not (is_owned questions item)) answers) unknown_question
  fresh ← gets (to_create attempt_id key (entries_from key [] answers))
  modify (create_logs (map (new_log now attempt_id key) fresh))
  returns (record {
    saved = length fresh;
    duplicated = length (entries_from key [] answers) - length fresh;
  })

module _ (p : Platform) where
  abbrev pub when_expired : Bool → Moment → Attempt → Transaction Store Error (Unit {0})
  when_expired true now attempt = do auto ← finalize p now attempt auto_submitted; throws time_is_up
  when_expired false now attempt = returns tt

  unfoldable pub save_answers :
      Moment → String → List AnswerItem → RequestContext → Text → Transaction Store Error SaveResult
  save_answers now attempt_id answers actor key = do
    throw_when (is_empty key) key_required
    throw_when (is_none answers) no_answers
    found ← gets (find_attempt attempt_id)
    attempt ← need found attempt_not_found
    found_session ← gets (find_session attempt.exam_session_id)
    session ← need found_session attempt_not_found
    found_exam ← gets (find_exam session.exam_id)
    exam ← need found_exam attempt_not_found
    assert_owns_attempt actor attempt
    throw_when (not (is_in_progress attempt.status)) attempt_finished
    when_expired (is_expired attempt.started_at exam.duration_min now.time) now attempt
    store_answers now attempt_id answers key attempt

abbrev pub allowed_activity_events : List String
allowed_activity_events =
    "INITIAL" ∷ "TAB_SWITCH" ∷ "WINDOW_BLUR" ∷ "WINDOW_FOCUS" ∷ "VISIBILITY_HIDDEN"
    ∷ "VISIBILITY_VISIBLE" ∷ "COPY" ∷ "PASTE" ∷ "SCREENSHOT" ∷ "FULLSCREEN_EXIT" ∷ "SUBMIT"
    ∷ "EXPIRED" ∷ []

abbrev pub with_activity : Activity → Attempt → Attempt → Attempt
with_activity entry read a = record a {
  device_info = record (read.device_info) {
    activities = read.device_info.activities ++ entry ∷ [];
  };
}

-- `logActivity`; the attempt that it read goes into what it writes
unfoldable pub log_activity :
    String → Activity → RequestContext → Transaction Store Error (Unit {0})
log_activity attempt_id entry actor = do
  throw_when (not (any (λ e. e =ₛ entry.event) allowed_activity_events)) unknown_event
  found ← gets (find_attempt attempt_id)
  attempt ← need found attempt_not_found
  assert_owns_attempt actor attempt
  modify (update_attempt attempt_id (with_activity entry attempt))
