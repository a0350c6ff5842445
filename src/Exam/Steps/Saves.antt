-- ===== src/Exam/Steps/Saves.antt =====
-- What `saveAnswers` of apps/api/src/modules/exam/exam-attempt.service.ts keeps.
use openlms.Base.{◌≡◌, refl, Bool, true, false, not, String, List, any}
use openlms.Base.Texts.{Text}
use openlms.Base.Result.{Result, ok, err}
use openlms.Base.Transaction.{Transaction, then_with, throws, Ends, Ends-need, Ends-guard}
use openlms.Roles.{RequestContext}
use openlms.Quiz.Grading.{Platform, auto_submitted, is_empty, AutoScoreResult, is_in_progress}
use openlms.Exam.{
  Attempt, Store, Error, time_is_up, Moment, find_attempt, find_session, find_exam, owns_attempt,
  is_expired,
}
use openlms.Exam.Finish.{finalize}
use openlms.Exam.Answers.{
  AnswerItem, is_none, is_owned, package_questions, store_answers, save_answers, when_expired,
}
use openlms.Exam.Steps.{IsKept}

module _ (p : Platform) where
  -- A save that finds the time over throws, whatever it did before.
  pub Ends-in_time :
      {B : Type 0} (Q : B → Store → Type 0) (late : Bool) (now : Moment) (attempt : Attempt)
      (s : Store) (next : Unit {0} → Transaction Store Error B)
      → (late ≡ false → Ends Q (next tt s))
      → Ends Q (then_with next (when_expired p late now attempt s))
  Ends-in_time {B} Q true now attempt s next k = ended (finalize p now attempt auto_submitted s)
    where
      ended :
          (r : Result Error (AutoScoreResult × Store))
          → Ends Q (then_with next (then_with (λ _. throws time_is_up) r))
      ended (ok (auto, t)) = tt
      ended (err e) = tt
  Ends-in_time Q false now attempt s next k = k refl

module _ (p : Platform) (I : Store → Type 0) (MayEnd : String → Type 0)
    (kept : IsKept I MayEnd) where
  pub store_answers-keeps :
      (now : Moment) (id : String) (answers : List AnswerItem) (key : Text) (attempt : Attempt)
      (s : Store)
      → I s
      → Ends (λ _ t. I t) (store_answers now id answers key attempt s)
  unfolding store_answers
  store_answers-keeps now id answers key attempt s h =
      Ends-guard _
        (any (λ item. not (is_owned (package_questions attempt.exam_package_id s) item)) answers) _
        s _ (λ owned. kept.by_other_tables s _ refl h)

  pub save_answers-keeps :
      (now : Moment) (id : String) (answers : List AnswerItem) (actor : RequestContext) (key : Text)
      (s : Store)
      → I s
      → Ends (λ _ t. I t) (save_answers p now id answers actor key s)
  unfolding save_answers
  save_answers-keeps now id answers actor key s h = Ends-guard _ (is_empty key) _ s _ (λ keyed.
      Ends-guard _ (is_none answers) _ s _ (λ some_answers.
        Ends-need _ (find_attempt id s) _ s _ (λ attempt found.
          Ends-need _ (find_session attempt.exam_session_id s) _ s _ (λ session there.
            Ends-need _ (find_exam session.exam_id s) _ s _ (λ exam there2.
              Ends-guard _ (not (owns_attempt actor attempt s)) _ s _ (λ owned.
                Ends-guard _ (not (is_in_progress attempt.status)) _ s _ (λ going.
                  Ends-in_time p _ (is_expired attempt.started_at exam.duration_min now.time) now
                    attempt s _
                    (λ in_time. store_answers-keeps now id answers key attempt s h))))))))
