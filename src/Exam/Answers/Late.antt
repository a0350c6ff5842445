-- ===== src/Exam/Answers/Late.antt =====
-- Saving answers when the time is over: `saveAnswers` of
-- apps/api/src/modules/exam/exam-attempt.service.ts.
use openlms.Base.{some-injective, ◌≡◌, refl, sym, ap, ◌∙◌, true, false, not, String, List, some}
use openlms.Base.Texts.{Text}
use openlms.Base.Result.{Result, ok, err}
use openlms.Base.Transaction.{commit, outcome, Ends, Ends-need, Ends-guard}
use openlms.Roles.{RequestContext}
use openlms.Quiz.Grading.{Platform, is_in_progress, is_empty}
use openlms.Exam.{
  Attempt, Exam, Session, Store, Error, Moment, find_attempt, find_session, find_exam, owns_attempt,
  is_expired,
}
use openlms.Exam.Answers.{AnswerItem, is_none, save_answers}
use openlms.Exam.Steps.Saves.{Ends-in_time}

-- What cannot end well throws, and a throw leaves the store.
outcome_of_throw :
    {A : Type 0} (store : Store) (r : Result Error (A × Store))
    → Ends (λ _ _. ⊥) r
    → (e : Error) × (outcome store r ≡ (err e, store))
outcome_of_throw store (ok (a, after)) h = absurd h
outcome_of_throw store (err e) h = (e, refl)

-- After the end of the time, saving answers throws and leaves every table as it was: the attempt is
-- not submitted, and goes on.
pub late_answers_lost :
    (p : Platform) (now : Moment) (id : String) (answers : List AnswerItem) (actor : RequestContext)
    (key : Text) (s : Store) (attempt : Attempt) (session : Session) (exam : Exam)
    → find_attempt id s ≡ some attempt
    → find_session attempt.exam_session_id s ≡ some session
    → find_exam session.exam_id s ≡ some exam
    → is_expired attempt.started_at exam.duration_min now.time ≡ true
    → (e : Error) × (commit (save_answers p now id answers actor key) s ≡ (err e, s))
unfolding save_answers
late_answers_lost p now id answers actor key s attempt session exam found there there2 over =
    outcome_of_throw s _ (
      Ends-guard (λ _ _. ⊥) (is_empty key) _ s _
        (λ e1. Ends-guard _ (is_none answers) _ s _ (λ e2.
          Ends-need _ (find_attempt id s) _ s _ (λ a e3.
            Ends-need _ (find_session a.exam_session_id s) _ s _ (λ b e4.
              Ends-need _ (find_exam b.exam_id s) _ s _ (λ c e5.
                Ends-guard _ (not (owns_attempt actor a s)) _ s _ (λ e6.
                  Ends-guard _ (not (is_in_progress a.status)) _ s _ (λ e7.
                    Ends-in_time p _ (is_expired a.started_at c.duration_min now.time) now a s _
                      (λ in_time.
                        let same_a : attempt ≡ a = some-injective (sym found ∙ e3) in
                        let same_b : session ≡ b =
                          some-injective
                            (sym there ∙ ap (λ z. find_session z.exam_session_id s) same_a ∙ e4) in
                        let same_c : exam ≡ c =
                          some-injective
                            (sym there2 ∙ ap (λ z. find_exam z.exam_id s) same_b ∙ e5) in
                        let clash : true ≡ false =
                          sym over
                          ∙ ap (λ z. is_expired z.started_at exam.duration_min now.time) same_a
                          ∙ ap (λ z. is_expired a.started_at z.duration_min now.time) same_c
                          ∙ in_time in
                        cc)))))))))
