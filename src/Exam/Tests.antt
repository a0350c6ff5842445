-- ===== src/Exam/Tests.antt =====
-- Runs of the exam service at concrete inputs: an exam of one hour with two questions.
use openlms.Base.{
  ℕ, inl, map, filter, length, ◌≡◌, refl, List, [], ◌∷◌, Option, none, some, Bool, true, false,
  arith,
}
use openlms.Base.Dict.{lookup}
use openlms.Base.Texts.{codes}
use openlms.Base.Result.{Result, ok, err}
use openlms.Base.Transaction.{commit}
use openlms.Roles.{has_any}
use openlms.Quiz.Grading.{is_in_progress, in_progress, submitted, auto_submitted, remaining_seconds}
use openlms.Quiz.Grading.Sample.{thousandths}
use openlms.Exam.{Attempt, Store, Moment, Error, owns_attempt, is_staff_scope, is_expired}
use openlms.Exam.Answers.{AnswerItem, save_answers, store_answers}
use openlms.Exam.Answers.Saving.{nothing_saved, save_answers_again}
use openlms.Exam.Answers.Late.{late_answers_lost}
use openlms.Exam.Finish.{submit, manual_grade, finalize, write_grade, resolve_class_subject_id}
use openlms.Exam.Finish.Manual.{manual_grade_ignores_score}
use openlms.Exam.Background.{
  read_batch, run_batch, auto_submit_from, auto_submit_expired, drop, finalize_all, is_over,
  running, tick_attempt, tick_threshold,
}
use openlms.Exam.Background.Clearing.{auto_submit_clears}
use openlms.Exam.Background.Ending.{auto_submit_ends}
use openlms.Exam.Background.Ticks.{one_tick}
use openlms.Exam.Final.{Reaches, here, by_submit, by_save, by_read, by_job}
use openlms.Exam.Final.Safety.{HasEnded, ended_is_final}
use openlms.Exam.Sample.{
  student, staff, at_minute, attempt_of, the_exam, the_session, with_attempts, going, ended,
  two_attempts,
}

abbrev some_answers : List AnswerItem
some_answers = record { question_id = "q1"; answer = some (codes "A") } ∷ []

abbrev after_save : Store
after_save =
    (commit (save_answers thousandths (at_minute 5) "t1" some_answers student (codes "k"))
      two_attempts).1

-- a student saves and submits, and staff marks
abbrev after_all : Store
after_all =
    (commit (submit thousandths (at_minute 30) "t1" student)
      (commit (save_answers thousandths (at_minute 5) "t1" some_answers student (codes "k"))
        two_attempts).1).1

abbrev late : Moment
late = at_minute 61

-- a job that read its batch before the student saved, and ends it after the submission
abbrev old_batch : List Attempt
old_batch = filter (is_over late two_attempts) (read_batch 100 late 0 two_attempts)

abbrev after_old_job : Store
after_old_job = run_batch thousandths late old_batch after_all

abbrev run_of_all :
    Reaches thousandths (λ token. token) [] two_attempts (old_batch ∷ []) after_old_job
run_of_all = by_job old_batch late (inl refl) (
    by_submit (at_minute 30) "t1" student
      (by_save (at_minute 5) "t1" some_answers student (codes "k") (by_read 100 0 late here)))

ended_is_final_example : HasEnded ended after_old_job
ended_is_final_example =
    ended_is_final thousandths (λ token. token) ended [] refl ((refl, tt), (tt, tt)) refl tt
      run_of_all

-- The job overwrites the end of the attempt that was submitted after it had read its batch.
submission_overwritten :
    (map (λ a. a.status) after_all.attempts ≡ submitted ∷ submitted ∷ [])
    × (map (λ a. a.status) after_old_job.attempts ≡ auto_submitted ∷ submitted ∷ [])
unfolding submit save_answers run_batch finalize_all owns_attempt is_staff_scope has_any is_expired
    store_answers finalize write_grade resolve_class_subject_id drop
submission_overwritten = (refl, refl)

-- the batch was saved, and is saved again
save_answers_again_example :
    save_answers thousandths (at_minute 6) "t1" some_answers student (codes "k") after_save
    ≡ ok (nothing_saved (codes "k") some_answers, after_save)
unfolding save_answers owns_attempt is_staff_scope has_any is_expired store_answers
save_answers_again_example =
    save_answers_again thousandths (at_minute 5) (at_minute 6) "t1" some_answers student (codes "k")
      two_attempts going the_session the_exam refl refl refl refl refl

late_answers_lost_example :
    (e : Error) × (commit
        (save_answers thousandths late "t1" some_answers student (codes "k"))
        two_attempts
      ≡ (err e, two_attempts))
unfolding is_expired
late_answers_lost_example =
    late_answers_lost thousandths late "t1" some_answers student (codes "k") two_attempts going
      the_session the_exam refl refl refl refl

manual_grade_ignores_score_example :
    ((commit (manual_grade thousandths late "t2" 10 staff) two_attempts).1).grades
    ≡ ((commit (manual_grade thousandths late "t2" 90 staff) two_attempts).1).grades
manual_grade_ignores_score_example =
    manual_grade_ignores_score thousandths late "t2" 10 90 staff two_attempts

auto_submit_ends_example :
    (r : Result Error ℕ × Store) × (auto_submit_expired thousandths 1 late two_attempts ≡ some r)
auto_submit_ends_example = auto_submit_ends thousandths 1 late two_attempts

one_tick_example :
    (tick_attempt (at_minute 60) going 60 ((tick_attempt (at_minute 59) going 60 []).0)).1 ≡ []
unfolding tick_attempt tick_threshold remaining_seconds lookup
one_tick_example = one_tick (at_minute 59) (at_minute 60) going 60 [] (omega arith) refl

abbrev three_over : Store
three_over =
    with_attempts
      (going ∷ attempt_of "t2" "s2" in_progress none ∷ attempt_of "t3" "s3" in_progress none ∷ [])

-- which attempts run after the job
abbrev still_running : Option (Result Error ℕ × Store) → List Bool
still_running none = []
still_running (some (result, store)) = map (λ a. is_in_progress a.status) store.attempts

-- With one attempt in a batch, the second of three is skipped, and still runs when the job is done.
job_skips_second :
    still_running (auto_submit_expired thousandths 1 late three_over) ≡ false ∷ true ∷ false ∷ []
unfolding auto_submit_expired auto_submit_from drop finalize_all is_expired finalize write_grade
    resolve_class_subject_id
job_skips_second = refl

-- the job with both running attempts in one batch
abbrev two_over : Store
two_over = with_attempts (going ∷ attempt_of "t2" "s2" in_progress none ∷ [])

abbrev store_after : Option (Result Error ℕ × Store) → Store
store_after none = two_over
store_after (some (result, store)) = store

abbrev after_job : Store
after_job = store_after (auto_submit_expired thousandths 100 late two_over)

auto_submit_clears_example :
    (2 ≡ length (filter (is_over late two_over) (running late two_over)))
    × (filter (is_over late after_job) (running late after_job) ≡ [])
unfolding auto_submit_expired auto_submit_from drop finalize_all is_expired finalize write_grade
    resolve_class_subject_id
auto_submit_clears_example =
    auto_submit_clears thousandths 100 late two_over {n = 2} {t = after_job} (omega arith) refl
