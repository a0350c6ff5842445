-- ===== src/Exam/Answers/Saving.antt =====
-- Saving answers again, and too late: `saveAnswers` of
-- apps/api/src/modules/exam/exam-attempt.service.ts.
use openlms.Base.{
  filter_none, some-injective, ◌-◌, ◌≡◌, refl, sym, ap, ◌∙◌, subst, inl, inr, true, false, ◌&&◌,
  not, String, List, [], ◌∷◌, ◌++◌, some, arith, map, any, length, In, map-In, In-append_left,
  In-append_right, any_of_In, any-eq-true, filter-In, ◌=ₛ◌, eq_refl, Bool-cases,
}
use openlms.Base.Texts.{Text, same_text, same_text_self}
use openlms.Base.Result.{Result, ok}
use openlms.Base.Transaction.{Ends, Ends-need, Ends-guard, Ends-weaken, Ends-at}
use openlms.Exam.Steps.Saves.{Ends-in_time}
use openlms.Roles.{RequestContext}
use openlms.Quiz.Grading.{Platform, is_in_progress, is_empty, AnswerLog}
use openlms.Exam.{
  Attempt, Exam, Session, Store, Error, Moment, find_attempt, find_session, find_exam, owns_attempt,
  can_access_student, is_expired,
}
use openlms.Exam.Answers.{
  AnswerItem, SaveResult, is_none, entry_key, entries_from, has_log, new_log, to_create,
  create_logs, store_answers, save_answers, is_owned, package_questions,
}

-- What was created is not created again.
to_create-again :
    (now : Moment) (id : String) (key : Text) (entries : List AnswerItem) (s : Store)
    → to_create id key entries
        (create_logs (map (new_log now id key) (to_create id key entries s)) s)
      ≡ []
to_create-again now id key entries s = filter_none _ entries (λ item m. ap not (logged item m))
  where
    created : List AnswerLog
    created = map (new_log now id key) (to_create id key entries s)

    logged :
        (item : AnswerItem)
        → In item entries
        → has_log id (entry_key key item) (s.answer_logs ++ created) ≡ true
    logged item m = elim (Bool-cases (has_log id (entry_key key item) s.answer_logs)) [
      | inl old ↦
          let (l, there, same) =
            any-eq-true
              (λ l. l.attempt_id =ₛ id && same_text l.idempotency_key (entry_key key item))
              s.answer_logs old in
          any_of_In _ l (s.answer_logs ++ created) (In-append_left l s.answer_logs created there)
            same
      | inr new ↦
          any_of_In _ (new_log now id key item) (s.answer_logs ++ created)
            (In-append_right (new_log now id key item) s.answer_logs created (
              map-In (new_log now id key) item (to_create id key entries s)
                (filter-In _ item entries m (ap not new))))
            (rw (eq_refl id, same_text_self (entry_key key item)) refl)
    ]

append-nil : {A : Type 0} (xs : List A) → xs ++ [] ≡ xs
append-nil [] = refl
append-nil (x ∷ xs) = ap (λ z. x ∷ z) (append-nil xs)

-- nothing new of a batch
abbrev pub nothing_saved : Text → List AnswerItem → SaveResult
nothing_saved key answers = record { saved = 0; duplicated = length (entries_from key [] answers) }

-- what a save of these new entries gives
abbrev saved_as :
    Moment
    → String
    → Text
    → List AnswerItem
    → Store
    → List AnswerItem
    → Result Error (SaveResult × Store)
saved_as now id key entries s fresh = ok (
  record { saved = length fresh; duplicated = length entries - length fresh },
  create_logs (map (new_log now id key) fresh) s,
)

saved_none :
    (now : Moment) (id : String) (key : Text) (answers : List AnswerItem) (s : Store)
    → saved_as now id key (entries_from key [] answers) s [] ≡ ok (nothing_saved key answers, s)
saved_none now id key answers s =
    ap (λ n. ok (record { saved = 0; duplicated = n }, create_logs [] s)) minus_none
    ∙ ap (λ logs. ok (nothing_saved key answers, record s { answer_logs = logs }))
        (append-nil s.answer_logs)
  where
    minus_none : length (entries_from key [] answers) - 0 ≡ length (entries_from key [] answers)
    minus_none = omega arith

abbrev created_in : Moment → String → List AnswerItem → Text → Store → Store
created_in now id answers key s =
    create_logs (map (new_log now id key) (to_create id key (entries_from key [] answers) s)) s

-- what a save leaves, and what the same save gives on that
abbrev SavedOnce :
    Moment
    → Moment
    → String
    → List AnswerItem
    → Text
    → Attempt
    → Store
    → SaveResult
    → Store
    → Type 0
SavedOnce now later id answers key attempt s result t =
    (t ≡ created_in now id answers key s)
    × (store_answers later id answers key attempt t ≡ ok (nothing_saved key answers, t))

store_answers-again :
    (now later : Moment) (id : String) (answers : List AnswerItem) (key : Text) (attempt : Attempt)
    (s : Store)
    → Ends
        (SavedOnce now later id answers key attempt s)
        (store_answers now id answers key attempt s)
unfolding store_answers
store_answers-again now later id answers key attempt s =
    Ends-guard _
      (any (λ item. not (is_owned (package_questions attempt.exam_package_id s) item)) answers) _ s
      _
      (λ owned.
        let t =
          create_logs (map (new_log now id key) (to_create id key (entries_from key [] answers) s))
            s in
        (
          refl,
          rw owned (
              ap (saved_as later id key (entries_from key [] answers) t)
                (to_create-again now id key (entries_from key [] answers) s)
              ∙ saved_none later id key answers t),
        ))

owns_attempt-create_logs :
    (actor : RequestContext) (attempt : Attempt) (logs : List AnswerLog) (s : Store)
    → owns_attempt actor attempt (create_logs logs s) ≡ owns_attempt actor attempt s
unfolding owns_attempt can_access_student
owns_attempt-create_logs actor attempt logs s = refl

module _ (p : Platform) (now later : Moment) (id : String) (answers : List AnswerItem)
    (actor : RequestContext) (key : Text) (s : Store) where
  -- The same call on what a call left, with the facts that let the first one through.
  call_again :
      (a : Attempt) (session : Session) (exam : Exam)
      → is_empty key ≡ false
      → is_none answers ≡ false
      → find_attempt id s ≡ some a
      → find_session a.exam_session_id s ≡ some session
      → find_exam session.exam_id s ≡ some exam
      → not (owns_attempt actor a s) ≡ false
      → not (is_in_progress a.status) ≡ false
      → is_expired a.started_at exam.duration_min later.time ≡ false
      → (t : Store) → t ≡ created_in now id answers key s
      → store_answers later id answers key a t ≡ ok (nothing_saved key answers, t)
      → save_answers p later id answers actor key t ≡ ok (nothing_saved key answers, t)
  unfolding save_answers
  call_again a session exam e1 e2 e3 e4 e5 e6 e7 e8 t same again =
      let owned =
        ap not (
          owns_attempt-create_logs actor a
            (map (new_log now id key) (to_create id key (entries_from key [] answers) s)) s)
        ∙ e6 in
      let stored =
        subst (λ z. store_answers later id answers key a z ≡ ok (nothing_saved key answers, z)) same
          again in
      subst (λ z. save_answers p later id answers actor key z ≡ ok (nothing_saved key answers, z))
        (sym same) (rw (e1, e2) (rw e3 (rw e4 (rw e5 (rw owned (rw e7 (rw e8 stored)))))))

  -- A batch that was saved is saved again, at any time before the end, while the attempt goes on:
  -- nothing is written, and every entry counts as a duplicate.
  pub save_answers_again :
      {result : SaveResult} {t : Store} (attempt : Attempt) (session : Session) (exam : Exam)
      → save_answers p now id answers actor key s ≡ ok (result, t)
      → find_attempt id s ≡ some attempt
      → find_session attempt.exam_session_id s ≡ some session
      → find_exam session.exam_id s ≡ some exam
      → is_expired attempt.started_at exam.duration_min later.time ≡ false
      → save_answers p later id answers actor key t ≡ ok (nothing_saved key answers, t)
  unfolding save_answers
  save_answers_again {result} {t} attempt session exam h found there there2 time =
      Ends-at
        (λ r t. save_answers p later id answers actor key t ≡ ok (nothing_saved key answers, t)) _
        (Ends-guard _ (is_empty key) _ s _ (λ e1. Ends-guard _ (is_none answers) _ s _ (λ e2.
          Ends-need _ (find_attempt id s) _ s _ (λ a e3.
            Ends-need _ (find_session a.exam_session_id s) _ s _ (λ b e4.
              Ends-need _ (find_exam b.exam_id s) _ s _ (λ c e5.
                Ends-guard _ (not (owns_attempt actor a s)) _ s _ (λ e6.
                  Ends-guard _ (not (is_in_progress a.status)) _ s _ (λ e7.
                    Ends-in_time p _ (is_expired a.started_at c.duration_min now.time) now a s _
                      (λ in_time.
                        let same_a : attempt ≡ a = some-injective (sym found ∙ e3) in
                        let same_b : session ≡ b =
                          some-injective
                            (sym there ∙ ap (λ z. find_session z.exam_session_id s) same_a ∙ e4) in
                        let same_c : exam ≡ c =
                          some-injective
                            (sym there2 ∙ ap (λ z. find_exam z.exam_id s) same_b ∙ e5) in
                        let e8 =
                          ap (λ z. is_expired z.started_at c.duration_min later.time) (sym same_a)
                          ∙ ap (λ z. is_expired attempt.started_at z.duration_min later.time)
                              (sym same_c)
                          ∙ time in
                        Ends-weaken (SavedOnce now later id answers key a s) _ _
                          (λ r t q. call_again a b c e1 e2 e3 e4 e5 e6 e7 e8 t q.0 q.1)
                          (store_answers-again now later id answers key a s))))))))))
        h
