-- ===== src/Exam/Steps.antt =====
-- What the calls of apps/api/src/modules/exam/exam-attempt.service.ts keep: a property of the tables
-- that the writes to the attempts keep is kept by every call.
pub mod Jobs
pub mod Saves
pub mod Starting
use openlms.Base.{
  not-eq-false, ℕ, ◌≡◌, refl, sym, subst, Bool, true, false, ◌&&◌, ◌||◌, not, String, List, [], ◌∷◌,
  Option, none, some, map, ◌=ₛ◌, eq_iff, eq_refl, any, find, ltb, In, find-eq-some, Bool-cases,
  Option-cases, inl, inr,
}
use openlms.Base.Texts.{Text}
use openlms.Base.Result.{Result, ok, err}
use openlms.Base.Transaction.{
  Transaction, ◌>>=◌, ◌>>◌, then_with, throws, throw_when, need, Ends, Ends-call, Ends-need,
  Ends-guard,
}
use openlms.Roles.{RequestContext, is_text}
use openlms.Quiz.Grading.{
  Platform, AttemptStatus, auto_submitted, expired, is_empty, AutoScoreResult, is_in_progress,
}
use openlms.Exam.{
  Activity, Attempt, Exam, ExamPackage, Session, Store, Error, time_is_up, Moment, find_attempt,
  find_session, find_exam, find_package, update_attempt, assert_owns_attempt, owns_attempt,
  is_expired,
}
use openlms.Exam.Finish.{
  write_grade, resolve_class_subject_id, skip_grade, put_grade, finished, finalize, submit,
  manual_grade, mark_expired, is_gradeable, auto_score,
}
use openlms.Exam.Answers.{
  AnswerItem, is_none, is_owned, package_questions, with_activity, allowed_activity_events,
  store_answers, save_answers, log_activity, when_expired,
}
use openlms.Exam.Start.{
  StartInput, validate_token_format, is_workable, is_past, student_of, may_start, has_student,
  has_token, new_attempt, package_for, open_exams, clashes, add_attempt, create_attempt, start,
}

-- the keys of a row stay
pub record KeepsKeys (change : Attempt → Attempt) : Type 0 where
  pub id_kept : (a : Attempt) → (change a).id ≡ a.id
  pub session_kept : (a : Attempt) → (change a).exam_session_id ≡ a.exam_session_id
  pub student_kept : (a : Attempt) → (change a).student_id ≡ a.student_id
  pub token_kept : (a : Attempt) → (change a).token_used ≡ a.token_used

-- and so do its status, the time of its end and its automatic score
pub record IsGentle (change : Attempt → Attempt) : Type 0 where
  pub keys_kept : KeepsKeys change
  pub status_kept : (a : Attempt) → (change a).status ≡ a.status
  pub end_kept : (a : Attempt) → (change a).submitted_at ≡ a.submitted_at
  pub score_kept : (a : Attempt) → (change a).score_auto ≡ a.score_auto

-- what a property that new rows keep satisfies
abbrev pub KeptByAdd : (Store → Type 0) → Type 0
KeptByAdd I =
    (a : Attempt) (s : Store) → any (clashes a) s.attempts ≡ false → I s → I (add_attempt a s)

-- A property of the tables that the writes to the attempts keep, where `MayEnd` says which attempts
-- may be given an end.
pub record IsKept (I : Store → Type 0) (MayEnd : String → Type 0) : Type 0 where
  pub by_other_tables : (s t : Store) → s.attempts ≡ t.attempts → I s → I t
  pub by_gentle :
      (id : String) (f : Attempt → Attempt) (s : Store)
      → IsGentle f
      → I s
      → I (update_attempt id f s)
  pub by_end :
      (id : String) (f : Attempt → Attempt) (s : Store)
      → KeepsKeys f
      → MayEnd id
      → I s
      → I (update_attempt id f s)
  pub may_end :
      (id : String) (a : Attempt) (s : Store)
      → I s
      → find_attempt id s ≡ some a
      → is_in_progress a.status ≡ true
      → MayEnd id

pub found_id : (id : String) (a : Attempt) (s : Store) → find_attempt id s ≡ some a → a.id ≡ id
found_id id a s h =
    let (m, same) = find-eq-some (λ b. b.id =ₛ id) s.attempts h in (eq_iff a.id id).0 same

module _ (p : Platform) (I : Store → Type 0) (MayEnd : String → Type 0)
    (kept : IsKept I MayEnd) where
  pub write_grade-keeps :
      (now : Moment) (attempt : Attempt) (exam : Exam) (pkg : ExamPackage) (auto : AutoScoreResult)
      (s : Store)
      → I s
      → I (write_grade p now attempt exam pkg auto s)
  unfolding write_grade
  write_grade-keeps now attempt exam pkg auto s h =
      elim (Option-cases (resolve_class_subject_id attempt.student_id exam.subject_id s)) [
        | inl missing ↦ rw (missing, write_grade) (kept.by_gentle attempt.id _ s skip_gentle h)
        | inr (id, there) ↦ rw (there, write_grade) (kept.by_other_tables s _ refl h)
      ]
    where
      skip_gentle :
          IsGentle
            (λ a. record a { device_info = record (attempt.device_info) { grade_skipped = true } })
      skip_gentle = record {
        keys_kept = record {
          id_kept = λ a. refl;
          session_kept = λ a. refl;
          student_kept = λ a. refl;
          token_kept = λ a. refl;
        };
        status_kept = λ a. refl;
        end_kept = λ a. refl;
        score_kept = λ a. refl;
      }

  pub finalize-keeps :
      (now : Moment) (attempt : Attempt) (target : AttemptStatus) (s : Store)
      → MayEnd attempt.id
      → I s
      → Ends (λ _ t. I t) (finalize p now attempt target s)
  unfolding finalize
  finalize-keeps now attempt target s may h =
      Ends-guard _ (not (is_in_progress attempt.status)) _ s _ (λ going.
        Ends-need _ (find_session attempt.exam_session_id s) _ s _ (λ session there.
          Ends-need _ (find_exam session.exam_id s) _ s _ (λ exam there2.
            Ends-need _ (find_package attempt.exam_package_id s) _ s _ (λ pkg there3.
              write_grade-keeps now attempt exam pkg (auto_score p attempt pkg s) _
                (kept.by_end attempt.id _ s (end_keys (auto_score p attempt pkg s)) may h)))))
    where
      end_keys : (auto : AutoScoreResult) → KeepsKeys (finished now target auto)
      end_keys auto = record {
        id_kept = λ a. refl;
        session_kept = λ a. refl;
        student_kept = λ a. refl;
        token_kept = λ a. refl;
      }

  pub submit-keeps :
      (now : Moment) (id : String) (actor : RequestContext) (s : Store)
      → I s
      → Ends (λ _ t. I t) (submit p now id actor s)
  unfolding submit
  submit-keeps now id actor s h = Ends-need _ (find_attempt id s) _ s _ (λ attempt found.
      Ends-guard _ (not (owns_attempt actor attempt s)) _ s _ (λ owned.
        Ends-guard _ (not (is_in_progress attempt.status)) _ s _ (λ going.
          Ends-need _ (find_session attempt.exam_session_id s) _ s _ (λ session there.
            Ends-need _ (find_exam session.exam_id s) _ s _ (λ exam there2.
              Ends-call (λ _ t. I t) _ _ _
                (finalize-keeps now attempt _ s
                  (subst MayEnd (sym (found_id id attempt s found))
                    (kept.may_end id attempt s h found (not-eq-false _ going)))
                  h)
                (λ auto t k. kept.by_other_tables t _ refl k))))))

  pub mark_expired-keeps :
      (now : Moment) (id : String) (actor : RequestContext) (s : Store)
      → I s
      → Ends (λ _ t. I t) (mark_expired now id actor s)
  unfolding mark_expired
  mark_expired-keeps now id actor s h = Ends-need _ (find_attempt id s) _ s _ (λ attempt found.
      Ends-guard _ (not (owns_attempt actor attempt s)) _ s _ (λ owned.
        Ends-guard _ (not (is_in_progress attempt.status)) _ s _ (λ going.
          kept.by_other_tables _ _ refl (
            kept.by_end id _ s end_keys (kept.may_end id attempt s h found (not-eq-false _ going))
              h))))
    where
      end_keys : KeepsKeys (λ a. record a { status = expired; submitted_at = some now.time })
      end_keys = record {
        id_kept = λ a. refl;
        session_kept = λ a. refl;
        student_kept = λ a. refl;
        token_kept = λ a. refl;
      }

  pub manual_grade-keeps :
      (now : Moment) (id : String) (score_manual : ℕ) (actor : RequestContext) (s : Store)
      → I s
      → Ends (λ _ t. I t) (manual_grade p now id score_manual actor s)
  unfolding manual_grade
  manual_grade-keeps now id score_manual actor s h =
      Ends-need _ (find_attempt id s) _ s _ (λ attempt found.
        Ends-need _ (find_session attempt.exam_session_id s) _ s _ (λ session there.
          Ends-need _ (find_exam session.exam_id s) _ s _ (λ exam there2.
            Ends-need _ (find_package attempt.exam_package_id s) _ s _ (λ pkg there3.
              Ends-guard _ (not (owns_attempt actor attempt s)) _ s _ (λ owned.
                Ends-guard _ (not (is_gradeable attempt.status)) _ s _ (λ ready.
                  write_grade-keeps now attempt exam pkg _ _
                    (kept.by_gentle id _ s score_gentle h)))))))
    where
      score_gentle : IsGentle (λ a. record a { score_manual = some score_manual })
      score_gentle = record {
        keys_kept = record {
          id_kept = λ a. refl;
          session_kept = λ a. refl;
          student_kept = λ a. refl;
          token_kept = λ a. refl;
        };
        status_kept = λ a. refl;
        end_kept = λ a. refl;
        score_kept = λ a. refl;
      }

-- What `logActivity` writes, whichever row it read.
pub activity-IsGentle : (entry : Activity) (read : Attempt) → IsGentle (with_activity entry read)
activity-IsGentle entry read = record {
  keys_kept = record {
    id_kept = λ a. refl;
    session_kept = λ a. refl;
    student_kept = λ a. refl;
    token_kept = λ a. refl;
  };
  status_kept = λ a. refl;
  end_kept = λ a. refl;
  score_kept = λ a. refl;
}
