-- ===== src/Quiz/Grading/Tests.antt =====
-- Runs of the grading at concrete inputs.
use openlms.Base.{ℕ, ◌≡◌, refl, List, [], ◌∷◌, none, some, String}
use openlms.Base.Dict.{Dict, text_keys, lookup}
use openlms.Base.Texts.{Text, codes}
use openlms.Quiz.Grading.{
  Question, pilihan_ganda, isian_singkat, esai, AnswerLog, compute_auto_score,
  latest_answers_by_question, grade_answer, normalize_text_answer, collapse_spaces, percentage,
}
use openlms.Quiz.Grading.Latest.{IsNewestAnswer, latest_answers-IsNewestAnswer}
use openlms.Quiz.Grading.Sample.{thousandths}

abbrev choice : Question
choice = record {
  id = "q1";
  question_type = pilihan_ganda;
  correct_answer = some (codes "B");
  options = codes "A" ∷ codes "B" ∷ [];
}

abbrev short : Question
short = record {
  id = "q2";
  question_type = isian_singkat;
  correct_answer = some (codes "Ibu  Kota");
  options = [];
}

abbrev essay : Question
essay = record { id = "q3"; question_type = esai; correct_answer = none; options = [] }

abbrev questions : List Question
questions = choice ∷ short ∷ essay ∷ []

abbrev answers : Dict String Text
answers = ("q1", codes "a") ∷ ("q2", codes " ibu kota ") ∷ []

half_right : (compute_auto_score thousandths questions answers).score ≡ some 50
unfolding compute_auto_score percentage grade_answer normalize_text_answer collapse_spaces lookup
half_right = refl

abbrev log : String → Text → ℕ → AnswerLog
log question_id answer saved_at = record {
  attempt_id = "t1";
  question_id = question_id;
  answer = some answer;
  saved_at = saved_at;
  idempotency_key = codes "k";
}

abbrev logs : List AnswerLog
logs = log "q1" (codes "A") 10 ∷ log "q1" (codes "B") 30 ∷ log "q1" (codes "C") 20 ∷ []

latest_answers-IsNewestAnswer_example :
    IsNewestAnswer "q1" logs (lookup "q1" (latest_answers_by_question logs))
latest_answers-IsNewestAnswer_example = latest_answers-IsNewestAnswer "q1" logs
