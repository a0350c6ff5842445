-- ===== src/Quiz/Grading.antt =====
-- Grading of answers: `normalizeTextAnswer`, `gradeAnswer`, `computeAutoScore`,
-- `latestAnswersByQuestion`, `assertAttemptTransition`, `computeSemesterLabel` and
-- `remainingSeconds` of apps/api/src/modules/quiz/quiz.util.ts. The arithmetic of doubles, the order
-- of `localeCompare` and the entries that `JSON.parse` reads are parameters; times are in
-- milliseconds.
pub mod Latest
pub mod Sample
mod Tests
use openlms.Base.{
  ℕ, suc, ◌+◌, ◌-◌, ◌*◌, ◌/◌, ◌≡◌, Bool, true, false, ◌&&◌, ◌||◌, not, String, List, [], ◌∷◌,
  Option, none, some, map, ◌==◌, leb, ltb, length, filter, count, is_some, if◌then◌else◌,
}
use openlms.Base.Dict.{Keyed, text_keys, Dict, lookup, insert}
use openlms.Base.Texts.{Text, codes, same_text, is_space, trim, to_lower}

pub data QuestionType : Type 0 where
  pilihan_ganda esai isian_singkat menjodohkan : QuestionType

pub data AttemptStatus : Type 0 where
  in_progress submitted auto_submitted expired flagged : AttemptStatus

abbrev pub is_in_progress : AttemptStatus → Bool
is_in_progress in_progress = true
is_in_progress submitted = false
is_in_progress auto_submitted = false
is_in_progress expired = false
is_in_progress flagged = false

-- What the platform gives: doubles with `+`, `*`, `/` and `Math.round`, `localeCompare` (at most 0),
-- and the entries of the object that a text is the JSON of, each value as `String(value)`.
pub record Platform : Type 1 where
  pub Number : Type 0
  pub of_count : ℕ → Number
  pub plus : Number → Number → Number
  pub times : Number → Number → Number
  pub over : Number → Number → Number
  pub round : Number → ℕ
  pub locale_le : Text → Text → Bool
  pub json_entries : Text → Option (Dict Text Text)

-- `(value ?? "")`
abbrev pub answer_text : Option Text → Text
answer_text none = []
answer_text (some s) = s

-- `replace(/\s+/g, " ")`; the flag says that a run of white space was just replaced
unfoldable pub collapse_spaces : Bool → Text → Text
collapse_spaces in_run [] = []
collapse_spaces in_run (c ∷ s) =
    let rest = collapse_spaces (is_space c) s in
    if is_space c then (if in_run then rest else 32 ∷ rest) else c ∷ rest

unfoldable pub normalize_text_answer : Option Text → Text
normalize_text_answer value = map to_lower (collapse_spaces false (trim (answer_text value)))

abbrev pub is_empty : Text → Bool
is_empty [] = true
is_empty (c ∷ s) = false

pub record GradingResult : Type 0 where
  pub graded : Bool
  pub correct : Bool

pub record AutoScoreResult : Type 0 where
  pub score : Option ℕ
  pub correct_count : ℕ
  pub total_count : ℕ

pub record Question : Type 0 where
  pub id : String
  pub question_type : QuestionType
  pub correct_answer : Option Text
  pub options : List Text

abbrev pub is_esai : QuestionType → Bool
is_esai esai = true
is_esai pilihan_ganda = false
is_esai isian_singkat = false
is_esai menjodohkan = false

module _ (p : Platform) where
  -- `entries.sort(([x], [y]) => x.localeCompare(y))`
  unfoldable pub insert_entry : Text × Text → Dict Text Text → Dict Text Text
  insert_entry entry [] = entry ∷ []
  insert_entry (k, v) ((j, w) ∷ entries) =
      if p.locale_le j k then (j, w) ∷ insert_entry (k, v) entries else (k, v) ∷ (j, w) ∷ entries

  unfoldable pub sort_entries : Dict Text Text → Dict Text Text → Dict Text Text
  sort_entries sorted [] = sorted
  sort_entries sorted (entry ∷ entries) = sort_entries (insert_entry entry sorted) entries

  abbrev pub same_entries : Dict Text Text → Dict Text Text → Bool
  same_entries [] [] = true
  same_entries [] (b ∷ bs) = false
  same_entries (a ∷ entries) [] = false
  same_entries ((k, v) ∷ entries) ((k2, v2) ∷ others) =
      (same_text k k2 && same_text v v2) && same_entries entries others

  abbrev pub pair_maps_equal : Option (Dict Text Text) → Option (Dict Text Text) → Bool
  pair_maps_equal none b = false
  pair_maps_equal (some a) none = false
  pair_maps_equal (some a) (some b) = same_entries (sort_entries [] a) (sort_entries [] b)

  -- `parseJsonAnswer`, read as an object
  abbrev pub parse_json_answer : Text → Option (Dict Text Text)
  parse_json_answer [] = none
  parse_json_answer (c ∷ s) = p.json_entries (c ∷ s)

  abbrev pub grade_by_type : QuestionType → Option Text → Text → GradingResult
  grade_by_type pilihan_ganda correct_answer answer = record {
    graded = true;
    correct =
        same_text (normalize_text_answer (some answer)) (normalize_text_answer correct_answer);
  }
  grade_by_type isian_singkat correct_answer answer = record {
    graded = true;
    correct =
        same_text (normalize_text_answer (some answer)) (normalize_text_answer correct_answer);
  }
  grade_by_type menjodohkan correct_answer answer = record {
    graded = true;
    correct =
        pair_maps_equal (parse_json_answer answer) (parse_json_answer (answer_text correct_answer));
  }
  grade_by_type esai correct_answer answer = record { graded = false; correct = false }

  unfoldable pub grade_answer : QuestionType → Option Text → Text → GradingResult
  grade_answer question_type correct_answer answer =
      if is_empty (trim answer)
      then record { graded = true; correct = false }
      else grade_by_type question_type correct_answer answer

  abbrev pub is_correct : Dict String Text → Question → Bool
  is_correct answers q =
      let result =
        grade_answer q.question_type q.correct_answer (answer_text (lookup q.id answers)) in
      result.graded && result.correct

  -- `Math.round((correct / total) * 100)`
  unfoldable pub percentage : ℕ → ℕ → ℕ
  percentage correct total =
      p.round (p.times (p.over (p.of_count correct) (p.of_count total)) (p.of_count 100))

  abbrev pub score_of : List Question → Dict String Text → AutoScoreResult
  score_of [] answers = record { score = none; correct_count = 0; total_count = 0 }
  score_of (q ∷ questions) answers =
      let correct = count (is_correct answers) (q ∷ questions) in
      record {
        score = some (percentage correct (length (q ∷ questions)));
        correct_count = correct;
        total_count = length (q ∷ questions);
      }

  unfoldable pub compute_auto_score : List Question → Dict String Text → AutoScoreResult
  compute_auto_score questions answers =
      score_of (filter (λ q. not (is_esai q.question_type)) questions) answers

pub record AnswerLog : Type 0 where
  pub attempt_id : String
  pub question_id : String
  pub answer : Option Text
  pub saved_at : ℕ
  pub idempotency_key : Text

-- `t >= (latestTime.get(id) ?? -1)`
abbrev pub not_before : Option ℕ → ℕ → Bool
not_before none t = true
not_before (some prev) t = leb prev t

-- the loop of `latestAnswersByQuestion`, with `map` and `latestTime`
unfoldable pub latest_from : Dict String Text → Dict String ℕ → List AnswerLog → Dict String Text
latest_from answers times [] = answers
latest_from answers times (l ∷ logs) =
    let newer =
      latest_from (insert l.question_id (answer_text l.answer) answers)
        (insert l.question_id l.saved_at times) logs in
    let older = latest_from answers times logs in
    if not_before (lookup l.question_id times) l.saved_at then newer else older

unfoldable pub latest_answers_by_question : List AnswerLog → Dict String Text
latest_answers_by_question logs = latest_from [] [] logs

-- whether `assertAttemptTransition` lets a status go to another
abbrev pub may_become : AttemptStatus → Bool
may_become in_progress = false
may_become submitted = true
may_become auto_submitted = true
may_become expired = true
may_become flagged = false

unfoldable pub attempt_transition_allowed : AttemptStatus → AttemptStatus → Bool
attempt_transition_allowed from_status to_status =
    is_in_progress from_status && may_become to_status

pub data Semester : Type 0 where
  ganjil genap : Semester

-- the label of a month and a year, with the first year of the academic year
unfoldable pub compute_semester_label : ℕ → ℕ → Semester × ℕ
compute_semester_label month year = if leb 7 month then (ganjil, year) else (genap, year - 1)

-- `Math.max(0, Math.floor((totalMs - elapsed) / 1000))`, for a start that is not after `now`
unfoldable pub remaining_seconds : ℕ → ℕ → ℕ → ℕ
remaining_seconds started_at duration_min now = (started_at + duration_min * 60000 - now) / 1000
