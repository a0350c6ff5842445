-- ===== src/Exam/Steps/Starting.antt =====
-- What `start` of apps/api/src/modules/exam/exam-attempt.service.ts keeps.
use openlms.Base.{refl, ◌||◌, not, String, Option, any, ltb}
use openlms.Base.Transaction.{Ends, Ends-call, Ends-need, Ends-guard}
use openlms.Roles.{RequestContext, is_text}
use openlms.Exam.{Exam, Session, Store, Moment, find_session, find_exam}
use openlms.Exam.Start.{
  StartInput, validate_token_format, is_workable, is_past, student_of, may_start, has_student,
  has_token, new_attempt, package_for, open_exams, clashes, create_attempt, start,
}
use openlms.Exam.Steps.{IsKept, KeptByAdd}

module _ (I : Store → Type 0) (MayEnd : String → Type 0) (kept : IsKept I MayEnd)
    (by_add : KeptByAdd I) where
  pub create_attempt-keeps :
      (hash_token : String → String) (now : Moment) (id : String) (session : Session) (exam : Exam)
      (student_id : String) (dto : StartInput) (ip : Option String) (s : Store)
      → I s
      → Ends (λ _ t. I t) (create_attempt hash_token now id session exam student_id dto ip s)
  unfolding create_attempt
  create_attempt-keeps hash_token now id session exam student_id dto ip s h =
      Ends-guard _ (any (has_student session.id student_id) s.attempts) _ s _ (λ fresh.
        Ends-guard _ (any (has_token session.id (hash_token dto.access_token)) s.attempts) _ s _
          (λ unused.
            Ends-need _ (package_for session.id student_id exam.id s) _ (open_exams exam.id s) _
              (λ pkg chosen.
                let a =
                  new_attempt now id session.id student_id pkg.id (hash_token dto.access_token)
                    dto.device_info ip in
                Ends-guard _ (any (clashes a) s.attempts) _ (open_exams exam.id s) _ (λ fits.
                  by_add a (open_exams exam.id s) fits
                    (kept.by_other_tables s (open_exams exam.id s) refl h)))))

  pub start-keeps :
      (hash_token : String → String) (now : Moment) (id session_id : String) (dto : StartInput)
      (actor : RequestContext) (ip : Option String) (s : Store)
      → I s
      → Ends (λ _ t. I t) (start hash_token now id session_id dto actor ip s)
  unfolding start
  start-keeps hash_token now id session_id dto actor ip s h =
      Ends-guard _ (not (validate_token_format dto.access_token)) _ s _ (λ shaped.
        Ends-need _ (find_session session_id s) _ s _ (λ session there.
          Ends-need _ (find_exam session.exam_id s) _ s _ (λ exam there2.
            Ends-guard _ (ltb now.time session.starts_at || ltb session.ends_at now.time) _ s _
              (λ opened. Ends-guard _ (not (is_workable exam.status)) _ s _ (λ workable.
                Ends-guard _ (not (is_text session.access_token (hash_token dto.access_token))) _ s
                  _
                  (λ right. Ends-guard _ (is_past session.token_expires_at now.time) _ s _ (λ valid.
                    Ends-need _ (student_of actor dto.student_id) _ s _ (λ student_id named.
                      Ends-guard _ (not (may_start actor student_id s)) _ s _ (λ allowed.
                        Ends-call (λ _ t. I t) _
                          (create_attempt hash_token now id session exam student_id dto ip s) _
                          (create_attempt-keeps hash_token now id session exam student_id dto ip s
                            h)
                          (λ result t k. kept.by_other_tables t _ refl k))))))))))
