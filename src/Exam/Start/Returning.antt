-- ===== src/Exam/Start/Returning.antt =====
-- When `start` of apps/api/src/modules/exam/exam-attempt.service.ts does not throw.
use openlms.Base.{
  ℕ, ◌≡◌, ◌≤◌, ◌<◌, ap, refl, Bool, true, false, ◌||◌, not, String, List, [], ◌∷◌, ◌++◌, Option,
  some, arith, any, any-eq-true, filter, filter-In, length, In, ltb, ◌=ₛ◌,
}
use openlms.Base.Texts.{codes}
use openlms.Base.Transaction.{Returns, Returns-guard, Returns-need, Returns-call}
use openlms.Roles.{RequestContext, is_text}
use openlms.Quiz.Random.{seeded_index}
use openlms.Quiz.Random.Shuffle.{item_at, indices_in_range}
use openlms.Exam.{Session, Exam, ExamPackage, Store, Moment, find_session, find_exam}
use openlms.Exam.Start.{
  StartInput, validate_token_format, is_workable, is_past, student_of, may_start, has_student,
  has_token, new_attempt, package_for, open_exams, clashes, create_attempt, start,
}

In-length : {A : Type 0} (a : A) (xs : List A) → In a xs → 0 < length xs
In-length a [] m = absurd m
In-length a (x ∷ xs) m = omega arith

-- The draw finds a package, where the exam has one.
package_for-there :
    (session_id student_id exam_id : String) (s : Store)
    → any (λ p. p.exam_id =ₛ exam_id) s.packages ≡ true
    → (pkg : ExamPackage) × (package_for session_id student_id exam_id s ≡ some pkg)
package_for-there session_id student_id exam_id s h =
    let (p, m, same) = any-eq-true (λ p. p.exam_id =ₛ exam_id) s.packages h in
    let packages = filter (λ p. p.exam_id =ₛ exam_id) s.packages in
    let seed = codes session_id ++ 58 ∷ codes student_id in
    let many : 0 < length packages =
      In-length p packages (filter-In (λ p. p.exam_id =ₛ exam_id) p s.packages m same) in
    item_at (seeded_index seed (length packages)) packages
      ((indices_in_range seed 0 0 (length packages) many).1)

any-or :
    {A : Type 0} (f g : A → Bool) (xs : List A)
    → any f xs ≡ false
    → any g xs ≡ false
    → any (λ x. f x || g x) xs ≡ false
any-or f g [] h k = refl
any-or f g (x ∷ xs) h k = ground (arith, any-or f g xs)

open_now : (m n now : ℕ) → m ≤ now → now ≤ n → (ltb now m || ltb n now) ≡ false
open_now m n now h k = ground (arith, h, k)

module _ (hash_token : String → String) where
  create_attempt-Returns :
      (now : Moment) (id : String) (session : Session) (exam : Exam) (student_id : String)
      (dto : StartInput) (ip : Option String) (s : Store)
      → any (has_student session.id student_id) s.attempts ≡ false
      → any (has_token session.id (hash_token dto.access_token)) s.attempts ≡ false
      → any (λ b. id =ₛ b.id) s.attempts ≡ false
      → any (λ p. p.exam_id =ₛ exam.id) s.packages ≡ true
      → Returns (create_attempt hash_token now id session exam student_id dto ip s)
  unfolding create_attempt
  create_attempt-Returns now id session exam student_id dto ip s new_student new_token new_key
        packed =
      let (pkg, chosen) = package_for-there session.id student_id exam.id s packed in
      let a =
        new_attempt now id session.id student_id pkg.id (hash_token dto.access_token)
          dto.device_info ip in
      Returns-guard (any (has_student session.id student_id) s.attempts) _ s _ new_student (
        Returns-guard (any (has_token session.id (hash_token dto.access_token)) s.attempts) _ s _
          new_token
          (Returns-need (package_for session.id student_id exam.id s) _ (open_exams exam.id s) _
            chosen
            (Returns-guard (any (clashes a) s.attempts) _ (open_exams exam.id s) _
              (any-or (λ b. id =ₛ b.id) _ s.attempts new_key
                (any-or (has_student session.id student_id)
                  (has_token session.id (hash_token dto.access_token)) s.attempts new_student
                  new_token))
              (_, _, refl))))

  -- A start ends well where the token has the right form and is that of the session and not expired,
  -- the session and the exam are open, the exam has a package, the actor may start for the student,
  -- and no attempt of the session has the student or the token, and none the new id.
  pub start-Returns :
      (now : Moment) (id session_id : String) (dto : StartInput) (actor : RequestContext)
      (ip : Option String) (s : Store) {session : Session} {exam : Exam} {student_id : String}
      → validate_token_format dto.access_token ≡ true
      → find_session session_id s ≡ some session
      → find_exam session.exam_id s ≡ some exam
      → session.starts_at ≤ now.time
      → now.time ≤ session.ends_at
      → is_workable exam.status ≡ true
      → is_text session.access_token (hash_token dto.access_token) ≡ true
      → is_past session.token_expires_at now.time ≡ false
      → student_of actor dto.student_id ≡ some student_id
      → may_start actor student_id s ≡ true
      → any (has_student session.id student_id) s.attempts ≡ false
      → any (has_token session.id (hash_token dto.access_token)) s.attempts ≡ false
      → any (λ b. id =ₛ b.id) s.attempts ≡ false
      → any (λ p. p.exam_id =ₛ exam.id) s.packages ≡ true
      → Returns (start hash_token now id session_id dto actor ip s)
  unfolding start
  start-Returns now id session_id dto actor ip s {session} {exam} {student_id} shaped there there2
        begun unended workable right valid named allowed new_student new_token new_key packed =
      Returns-guard _ _ s _ (ap not shaped) (
        Returns-need _ _ s _ there (
          Returns-need _ _ s _ there2 (
            Returns-guard _ _ s _
              (open_now session.starts_at session.ends_at now.time begun unended)
              (Returns-guard _ _ s _ (ap not workable) (
                Returns-guard _ _ s _ (ap not right) (
                  Returns-guard _ _ s _ valid (
                    Returns-need _ _ s _ named (
                      Returns-guard _ _ s _ (ap not allowed) (
                        Returns-call _ _
                          (create_attempt-Returns now id session exam student_id dto ip s
                            new_student new_token new_key packed)
                          (λ result t. (_, _, refl)))))))))))
