-- ===== src/Exam/Steps/Jobs.antt =====
-- What the job `autoSubmitExpired` of apps/api/src/modules/exam/exam-attempt.service.ts keeps.
use openlms.Base.{String, refl, List, [], ◌∷◌, All, inl, inr}
use openlms.Base.Result.{Result-cases}
use openlms.Base.Transaction.{Ends, Ends-at, Ends-call}
use openlms.Quiz.Grading.{Platform, auto_submitted}
use openlms.Exam.{Attempt, Store, Moment}
use openlms.Exam.Background.{finalize_all, run_batch}
use openlms.Exam.Steps.{IsKept, finalize-keeps}

module _ (p : Platform) (I : Store → Type 0) (MayEnd : String → Type 0)
    (kept : IsKept I MayEnd) where
  pub finalize_all-keeps :
      (now : Moment) (attempts : List Attempt) (s : Store)
      → All (λ a. MayEnd a.id) attempts
      → I s
      → Ends (λ _ t. I t) (finalize_all p now attempts s)
  unfolding finalize_all
  finalize_all-keeps now [] s may h = h
  finalize_all-keeps now (a ∷ attempts) s may h =
      Ends-call (λ _ t. I t) _ _ _ (finalize-keeps p I MayEnd kept now a auto_submitted s may.0 h)
        (λ auto t k. finalize_all-keeps now attempts _ may.1 (kept.by_other_tables t _ refl k))

  -- The tables after a batch, whether it ended well or threw.
  pub run_batch-keeps :
      (now : Moment) (attempts : List Attempt) (s : Store)
      → All (λ a. MayEnd a.id) attempts
      → I s
      → I (run_batch p now attempts s)
  unfolding run_batch
  run_batch-keeps now attempts s may h = elim (Result-cases (finalize_all p now attempts s)) [
    | inl ((done, t), e) ↦
        rw (e, run_batch)
          (Ends-at (λ _ u. I u) (finalize_all p now attempts s)
            (finalize_all-keeps now attempts s may h) e)
    | inr (thrown, e) ↦ rw (e, run_batch) (kept.by_other_tables s _ refl h)
  ]
