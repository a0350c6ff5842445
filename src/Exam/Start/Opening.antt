-- ===== src/Exam/Start/Opening.antt =====
-- What `start` of apps/api/src/modules/exam/exam-attempt.service.ts leaves.
use openlms.Base.{
  =ₛ_comm, not-eq-false, or-eq-false_left, ℕ, ◌≡◌, ◌≤◌, refl, ◌∙◌, inl, inr, true, false, ◌||◌, not,
  String, List, [], ◌∷◌, Option, some, arith, any, find, ltb, eq_refl, ◌=ₛ◌, All, any-eq-false,
  Bool-cases,
}
use openlms.Base.Texts.{text_before}
use openlms.Base.Transaction.{Ends, Ends-call, Ends-need, Ends-guard, Ends-at}
use openlms.Base.Result.{ok}
use openlms.Roles.{RequestContext, is_text}
use openlms.Quiz.Grading.{in_progress}
use openlms.Exam.{Attempt, Session, Exam, Store, Moment, find_session, find_exam, find_attempt}
use openlms.Exam.Start.{
  StartInput, StartResult, validate_token_format, is_workable, is_past, student_of, may_start,
  has_student, has_token, new_attempt, package_for, open_exams, clashes, insert_attempt,
  create_attempt, start,
}

find-inserted :
    (a : Attempt) (attempts : List Attempt)
    → All (λ b. clashes a b ≡ false) attempts
    → find (λ b. b.id =ₛ a.id) (insert_attempt a attempts) ≡ some a
unfolding insert_attempt
find-inserted a [] h = rw (eq_refl a.id) refl
find-inserted a (b ∷ attempts) h =
    let apart = =ₛ_comm b.id a.id ∙ or-eq-false_left (a.id =ₛ b.id) _ h.0 in
    elim (Bool-cases (text_before a.id b.id)) [
      | inl t ↦ rw (t, eq_refl a.id) refl
      | inr e ↦ rw (e, apart) (find-inserted a attempts h.1)
    ]

-- the row of a new attempt
abbrev IsNew : (String → String) → Moment → String → Session → String → StartInput → Store → Type 0
IsNew hash_token now id session student_id dto t =
    (a : Attempt) × (find_attempt id t ≡ some a)
    × (a.status ≡ in_progress)
    × (a.started_at ≡ now.time)
    × (a.exam_session_id ≡ session.id)
    × (a.student_id ≡ student_id)
    × (a.token_used ≡ hash_token dto.access_token)

-- the session of a start: its token is the one that was given, and it is open
abbrev IsOpenFor : (String → String) → Moment → StartInput → Session → Type 0
IsOpenFor hash_token now dto session =
    (is_text session.access_token (hash_token dto.access_token) ≡ true)
    × (is_past session.token_expires_at now.time ≡ false)
    × (session.starts_at ≤ now.time)
    × (now.time ≤ session.ends_at)

abbrev pub HasStarted :
    (String → String)
    → Moment
    → String
    → String
    → StartInput
    → RequestContext
    → Store
    → Store
    → Type 0
HasStarted hash_token now id session_id dto actor s t =
    (session : Session) × (student_id : String) × (find_session session_id s ≡ some session)
    × IsOpenFor hash_token now dto session
    × (student_of actor dto.student_id ≡ some student_id)
    × (may_start actor student_id s ≡ true)
    × IsNew hash_token now id session student_id dto t

open_at : (m n now : ℕ) → (ltb now m || ltb n now) ≡ false → (m ≤ now) × (now ≤ n)
open_at m n now h = ground (arith, h)

module _ (hash_token : String → String) where
  create_attempt-IsNew :
      (now : Moment) (id : String) (session : Session) (exam : Exam) (student_id : String)
      (dto : StartInput) (ip : Option String) (s : Store)
      → Ends
          (λ _ t. IsNew hash_token now id session student_id dto t)
          (create_attempt hash_token now id session exam student_id dto ip s)
  unfolding create_attempt
  create_attempt-IsNew now id session exam student_id dto ip s =
      Ends-guard _ (any (has_student session.id student_id) s.attempts) _ s _ (λ fresh.
        Ends-guard _ (any (has_token session.id (hash_token dto.access_token)) s.attempts) _ s _
          (λ unused.
            Ends-need _ (package_for session.id student_id exam.id s) _ (open_exams exam.id s) _
              (λ pkg chosen.
                let a =
                  new_attempt now id session.id student_id pkg.id (hash_token dto.access_token)
                    dto.device_info ip in
                Ends-guard _ (any (clashes a) s.attempts) _ (open_exams exam.id s) _ (λ fits. (
                  a,
                  find-inserted a s.attempts (any-eq-false (clashes a) s.attempts fits),
                  refl,
                  refl,
                  refl,
                  refl,
                  refl,
                )))))

  -- Where a start ends well, the session is open and has the token that was given, the student is
  -- the one that the actor may start for - the actor, if the actor is no staff - and the new attempt
  -- of that student in that session is in progress, with the time of the call as its start.
  pub start_opens :
      (now : Moment) (id session_id : String) (dto : StartInput) (actor : RequestContext)
      (ip : Option String) (s : Store) {result : StartResult} {t : Store}
      → start hash_token now id session_id dto actor ip s ≡ ok (result, t)
      → HasStarted hash_token now id session_id dto actor s t
  unfolding start
  start_opens now id session_id dto actor ip s h =
      Ends-at (λ _ t. HasStarted hash_token now id session_id dto actor s t) _
        (Ends-guard _ (not (validate_token_format dto.access_token)) _ s _ (λ shaped.
          Ends-need _ (find_session session_id s) _ s _ (λ session there.
            Ends-need _ (find_exam session.exam_id s) _ s _ (λ exam there2.
              Ends-guard _ (ltb now.time session.starts_at || ltb session.ends_at now.time) _ s _
                (λ opened. Ends-guard _ (not (is_workable exam.status)) _ s _ (λ workable.
                  Ends-guard _ (not (is_text session.access_token (hash_token dto.access_token))) _
                    s _
                    (λ right.
                      Ends-guard _ (is_past session.token_expires_at now.time) _ s _ (λ valid.
                        Ends-need _ (student_of actor dto.student_id) _ s _ (λ student_id named.
                          Ends-guard _ (not (may_start actor student_id s)) _ s _ (λ allowed.
                            Ends-call (λ _ t. IsNew hash_token now id session student_id dto t) _
                              (create_attempt hash_token now id session exam student_id dto ip s) _
                              (create_attempt-IsNew now id session exam student_id dto ip s)
                              (λ result t new. (
                                session,
                                student_id,
                                there,
                                (
                                  not-eq-false _ right,
                                  valid,
                                  (open_at session.starts_at session.ends_at now.time opened).0,
                                  (open_at session.starts_at session.ends_at now.time opened).1,
                                ),
                                named,
                                not-eq-false _ allowed,
                                new,
                              ))))))))))))
        h
