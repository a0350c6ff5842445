-- ===== src/Exam/Final.antt =====
-- The tables that the calls of apps/api/src/modules/exam/exam-attempt.service.ts reach. A call that
-- runs in a transaction is one step. The job reads a batch outside of its transaction, and
-- `logActivity` reads the attempt before it writes it: there other steps may come in between.
pub mod Safety
use openlms.Base.{
  ℕ, ◌≡◌, refl, sym, ap, subst, ◌∙◌, inl, inr, Bool, true, false, String, List, [], ◌∷◌, Option,
  none, some, map, find, any, In, In-filter, In-All, All, All-In, any-eq-false, find-eq-some, ◌=ₛ◌,
  eq_iff, =ₛ-eq-false, Bool-cases, filter, ◌&&◌,
}
use openlms.Base.Texts.{Text}
use openlms.Base.Transaction.{commit, outcome, Ends-outcome}
use openlms.Roles.{RequestContext}
use openlms.Quiz.Grading.{Platform, is_in_progress}
use openlms.Exam.{Activity, Attempt, Store, Moment, find_attempt, update_row, update_attempt}
use openlms.Exam.Finish.{submit, manual_grade, mark_expired}
use openlms.Exam.Answers.{AnswerItem, save_answers, with_activity}
use openlms.Exam.Start.{StartInput, start, clashes, add_attempt}
use openlms.Exam.Background.{run_batch, read_batch, is_over, running, is_running, drop}
use openlms.Exam.Steps.{
  KeepsKeys, IsGentle, IsKept, KeptByAdd, submit-keeps, manual_grade-keeps, mark_expired-keeps,
  activity-IsGentle,
}
use openlms.Exam.Steps.Saves.{save_answers-keeps}
use openlms.Exam.Steps.Starting.{start-keeps}
use openlms.Exam.Steps.Jobs.{run_batch-keeps}
use openlms.Exam.Table.{
  IsUnique, map-IsUnique, update_row-KeepsKeys, insert_attempt-IsUnique, find-map,
  find-insert_attempt, find-eq_of_In,
}

module _ (p : Platform) (hash_token : String → String) where
  -- From a store and the batches that jobs have read of it, a store and the batches read so far.
  pub data Reaches (read : List (List Attempt)) (s : Store)
      : List (List Attempt) → Store → Type 0 where
    here : Reaches read s read s
    by_start :
        (now : Moment) (id session_id : String) (dto : StartInput) (actor : RequestContext)
        (ip : Option String) {batches : List (List Attempt)} {t : Store}
        → Reaches read s batches t
        → Reaches read s batches (commit (start hash_token now id session_id dto actor ip) t).1
    by_save :
        (now : Moment) (id : String) (answers : List AnswerItem) (actor : RequestContext)
        (key : Text) {batches : List (List Attempt)} {t : Store}
        → Reaches read s batches t
        → Reaches read s batches (commit (save_answers p now id answers actor key) t).1
    by_submit :
        (now : Moment) (id : String) (actor : RequestContext) {batches : List (List Attempt)}
        {t : Store}
        → Reaches read s batches t
        → Reaches read s batches (commit (submit p now id actor) t).1
    by_grade :
        (now : Moment) (id : String) (score : ℕ) (actor : RequestContext)
        {batches : List (List Attempt)} {t : Store}
        → Reaches read s batches t
        → Reaches read s batches (commit (manual_grade p now id score actor) t).1
    by_expiry :
        (now : Moment) (id : String) (actor : RequestContext) {batches : List (List Attempt)}
        {t : Store}
        → Reaches read s batches t
        → Reaches read s batches (commit (mark_expired now id actor) t).1
    by_activity :
        (id : String) (entry : Activity) (found : Attempt) {batches : List (List Attempt)}
        {t : Store}
        → Reaches read s batches t
        → Reaches read s batches (update_attempt id (with_activity entry found) t)
    by_read :
        (batch cursor : ℕ) (now : Moment) {batches : List (List Attempt)} {t : Store}
        → Reaches read s batches t
        → Reaches read s (filter (is_over now t) (read_batch batch now cursor t) ∷ batches) t
    by_job :
        (attempts : List Attempt) (now : Moment) {batches : List (List Attempt)} {t : Store}
        → In attempts batches
        → Reaches read s batches t
        → Reaches read s batches (run_batch p now attempts t)

  -- A kept property holds of every store that is reached, where the batches read before name only
  -- attempts that may be ended.
  module _ (I : Store → Type 0) (MayEnd : String → Type 0) (kept : IsKept I MayEnd)
      (add : KeptByAdd I)
      (job : (batch cursor : ℕ) (now : Moment) (t : Store)
        → I t
        → All (λ a. MayEnd a.id) (filter (is_over now t) (read_batch batch now cursor t)))
      (read : List (List Attempt)) (may : All (λ b. All (λ a. MayEnd a.id) b) read) where
    -- Every batch that is read names only such attempts.
    keeps_both :
        {s t : Store} {batches : List (List Attempt)}
        → I s
        → Reaches read s batches t
        → I t × All (λ b. All (λ a. MayEnd a.id) b) batches
    keeps_both h here = (h, may)
    keeps_both h (by_start now id session_id dto actor ip {t = t} r) =
        let (i, m) = keeps_both h r in
        (
          Ends-outcome I t _
              (start-keeps I MayEnd kept add hash_token now id session_id dto actor ip t i) i,
          m,
        )
    keeps_both h (by_save now id answers actor key {t = t} r) =
        let (i, m) = keeps_both h r in
        (Ends-outcome I t _ (save_answers-keeps p I MayEnd kept now id answers actor key t i) i, m)
    keeps_both h (by_submit now id actor {t = t} r) =
        let (i, m) = keeps_both h r in
        (Ends-outcome I t _ (submit-keeps p I MayEnd kept now id actor t i) i, m)
    keeps_both h (by_grade now id score actor {t = t} r) =
        let (i, m) = keeps_both h r in
        (Ends-outcome I t _ (manual_grade-keeps p I MayEnd kept now id score actor t i) i, m)
    keeps_both h (by_expiry now id actor {t = t} r) =
        let (i, m) = keeps_both h r in
        (Ends-outcome I t _ (mark_expired-keeps p I MayEnd kept now id actor t i) i, m)
    keeps_both h (by_activity id entry found {t = t} r) =
        let (i, m) = keeps_both h r in
        (kept.by_gentle id (with_activity entry found) t (activity-IsGentle entry found) i, m)
    keeps_both h (by_read batch cursor now {t = t} r) =
        let (i, m) = keeps_both h r in (i, (job batch cursor now t i, m))
    keeps_both h (by_job attempts now {batches = batches} {t = t} there r) =
        let (i, m) = keeps_both h r in
        (
          run_batch-keeps p I MayEnd kept now attempts t
              (All-In (λ b. All (λ a. MayEnd a.id) b) attempts batches m there) i,
          m,
        )

    pub Reaches-keeps :
        {s t : Store} {batches : List (List Attempt)} → I s → Reaches read s batches t → I t
    Reaches-keeps h r = (keeps_both h r).0
