-- ===== src/Quiz/Grading/Sample.antt =====
-- A platform to run the code of apps/api/src/modules/quiz/quiz.util.ts on: its numbers are
-- thousandths, cut off.
use openlms.Base.{ℕ, ◌+◌, ◌*◌, ◌/◌, true, none}
use openlms.Quiz.Grading.{Platform}

abbrev pub thousandths : Platform
thousandths = record {
  Number = ℕ;
  of_count = λ n. n * 1000;
  plus = λ a b. a + b;
  times = λ a b. a * b / 1000;
  over = λ a b. a * 1000 / b;
  round = λ a. (a + 500) / 1000;
  locale_le = λ s t. true;
  json_entries = λ s. none;
}
