-- ===== src/Exam/Background/Others.antt =====
-- Which attempts the job `autoSubmitExpired` of
-- apps/api/src/modules/exam/exam-attempt.service.ts leaves running.
use openlms.Base.{
  =ₛ_comm, or-eq-false_left, ◌≡◌, refl, sym, ◌∙◌, ap, subst, inl, inr, true, false, not, String,
  List, [], ◌∷◌, map, any, ◌=ₛ◌, Bool-cases, Option-cases, In, In-map,
}
use openlms.Base.Transaction.{Ends, Ends-call, Ends-need, Ends-guard, Ends-weaken}
use openlms.Quiz.Grading.{Platform, auto_submitted, is_in_progress, AutoScoreResult}
use openlms.Exam.{
  Attempt, add_audit, Exam, ExamPackage, Store, Moment, find_session, find_exam, find_package,
  update_row, update_attempt,
}
use openlms.Exam.Finish.{
  audit_row, finalize, finished, write_grade, resolve_class_subject_id, auto_score,
}
use openlms.Exam.Background.{finalize_all}

-- The attempts that go on are rows of before, and none of them has one of the ids.
abbrev pub OnlyOthersGoOn : List Attempt → Store → Store → Type 0
OnlyOthersGoOn done s t =
    (t.sessions ≡ s.sessions)
    × (t.exams ≡ s.exams)
    × ((a : Attempt)
        → In a t.attempts
        → is_in_progress a.status ≡ true
        → In a s.attempts × (any (λ b. b.id =ₛ a.id) done ≡ false))

-- An update of rows that ends the attempt leaves the others as they are.
updated_row :
    (id : String) (f : Attempt → Attempt) (a : Attempt) (attempts : List Attempt)
    → ((b : Attempt) → is_in_progress (f b).status ≡ false)
    → In a (map (update_row id f) attempts)
    → is_in_progress a.status ≡ true
    → In a attempts × ((a.id =ₛ id) ≡ false)
updated_row id f a attempts ends m going =
    let (b, there, e) = In-map (update_row id f) a attempts m in
    elim (Bool-cases (b.id =ₛ id)) [
      | inl t ↦
          let ended : a ≡ f b = e ∙ rw t refl in
          let clash : true ≡ false = sym going ∙ ap (λ c. is_in_progress c.status) ended ∙ ends b in
          cc
      | inr o ↦
          let same : a ≡ b = e ∙ rw o refl in
          (subst (λ z. In z attempts) (sym same) there, ap (λ c. c.id =ₛ id) same ∙ o)
    ]

-- a change that keeps whether an attempt goes on
gentle_row :
    (id : String) (f : Attempt → Attempt) (a : Attempt) (attempts : List Attempt)
    → ((b : Attempt) → (f b).id ≡ b.id)
    → ((b : Attempt) → In b attempts → is_in_progress b.status ≡ true → (b.id =ₛ id) ≡ false)
    → ((b : Attempt) → (f b).status ≡ b.status)
    → In a (map (update_row id f) attempts)
    → is_in_progress a.status ≡ true
    → In a attempts
gentle_row id f a attempts keeps_id apart keeps m going =
    let (b, there, e) = In-map (update_row id f) a attempts m in
    elim (Bool-cases (b.id =ₛ id)) [
      | inl t ↦
          let changed : a ≡ f b = e ∙ rw t refl in
          let b_going =
            sym (ap is_in_progress (keeps b))
            ∙ sym (ap (λ c. is_in_progress c.status) changed)
            ∙ going in
          let clash : true ≡ false = sym t ∙ apart b there b_going in cc
      | inr o ↦ subst (λ z. In z attempts) (sym (e ∙ rw o refl)) there
    ]

module _ (p : Platform) where
  -- The grade of an attempt that has ended touches no attempt that goes on.
  write_grade-others :
      (now : Moment) (x : Attempt) (exam : Exam) (pkg : ExamPackage) (auto : AutoScoreResult)
      (u : Store)
      → ((b : Attempt) → In b u.attempts → is_in_progress b.status ≡ true → (b.id =ₛ x.id) ≡ false)
      → OnlyOthersGoOn [] u (write_grade p now x exam pkg auto u)
  unfolding write_grade
  write_grade-others now x exam pkg auto u apart =
      elim (Option-cases (resolve_class_subject_id x.student_id exam.subject_id u)) [
        | inl missing ↦
            rw (missing, write_grade)
              (
                refl,
                refl,
                λ a m going.
                    (gentle_row x.id _ a u.attempts (λ b. refl) apart (λ b. refl) m going, refl),
              )
        | inr (c, there) ↦ rw (there, write_grade) (refl, refl, λ a m going. (m, refl))
      ]

  finalize-others :
      (now : Moment) (x : Attempt) (s : Store)
      → Ends (λ _ t. OnlyOthersGoOn (x ∷ []) s t) (finalize p now x auto_submitted s)
  unfolding finalize
  finalize-others now x s = Ends-guard _ (not (is_in_progress x.status)) _ s _ (λ going.
      Ends-need _ (find_session x.exam_session_id s) _ s _ (λ session there.
        Ends-need _ (find_exam session.exam_id s) _ s _ (λ exam there2.
          Ends-need _ (find_package x.exam_package_id s) _ s _ (λ pkg there3.
            let auto = auto_score p x pkg s in
            let u = update_attempt x.id (finished now auto_submitted auto) s in
            let (sessions, exams, rest) = write_grade-others now x exam pkg auto u (λ b m going.
              (updated_row x.id (finished now auto_submitted auto) b s.attempts (λ c. refl) m
                going).1) in
            (
              sessions,
              exams,
              λ a m going.
                  let (kept, apart) =
                    updated_row x.id (finished now auto_submitted auto) a s.attempts (λ c. refl)
                      (rest a m going).0 going in
                  (kept, rw (=ₛ_comm x.id a.id, apart) refl),
            )))))

  others-compose :
      (x : Attempt) (xs : List Attempt) (s t u : Store)
      → OnlyOthersGoOn (x ∷ []) s t
      → OnlyOthersGoOn xs t u
      → OnlyOthersGoOn (x ∷ xs) s u
  others-compose x xs s t u (sessions, exams, rest) (sessions2, exams2, rest2) = (
    sessions2 ∙ sessions,
    exams2 ∙ exams,
    λ a m going.
        let (there, apart_xs) = rest2 a m going in
        let (before, apart_x) = rest a there going in
        (before, rw (or-eq-false_left (x.id =ₛ a.id) false apart_x) apart_xs),
  )

  pub finalize_all-others :
      (now : Moment) (xs : List Attempt) (s : Store)
      → Ends (λ _ t. OnlyOthersGoOn xs s t) (finalize_all p now xs s)
  unfolding finalize_all
  finalize_all-others now [] s = (refl, refl, λ a m going. (m, refl))
  finalize_all-others now (x ∷ xs) s =
      Ends-call (λ _ t. OnlyOthersGoOn (x ∷ []) s t) _ _ _ (finalize-others now x s)
        (λ auto t h.
          let audited = add_audit (audit_row "system" x auto_submitted auto.score) t in
          Ends-weaken (λ _ u. OnlyOthersGoOn xs audited u) _ _
            (λ done u k. others-compose x xs s audited u h k) (finalize_all-others now xs audited))
