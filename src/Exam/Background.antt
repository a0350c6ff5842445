-- ===== src/Exam/Background.antt =====
-- The jobs on running attempts: `autoSubmitExpired` and `tickActiveExams` of
-- apps/api/src/modules/exam/exam-attempt.service.ts. The size of a batch is a parameter, which the
-- source sets to 100.
pub mod Ticks
pub mod Ending
pub mod Others
pub mod Clearing
use openlms.Base.{
  ℕ, zero, suc, ◌+◌, ◌-◌, ◌≡◌, Bool, true, false, ◌&&◌, not, String, List, [], ◌∷◌, ◌++◌, Option,
  none, some, map, ◌=ₛ◌, ◌==◌, any, find, filter, length, take, ltb, leb, if◌then◌else◌,
}
use openlms.Base.Dict.{Keyed, text_keys, Dict, lookup, insert, erase}
use openlms.Base.Result.{Result, ok, err}
use openlms.Base.Transaction.{
  Transaction, ◌>>=◌, ◌>>◌, returns, throw_when, need, gets, modify, then_with,
}
use openlms.Quiz.Grading.{Platform, auto_submitted, is_in_progress, remaining_seconds}
use openlms.Exam.{
  Attempt, Exam, Store, ExamAudit, Error, Moment, find_session, find_exam, is_expired, add_audit,
}
use openlms.Exam.Finish.{finalize, audit_row}

abbrev pub auto_submit_batch : ℕ
auto_submit_batch = 100

-- `skip`
unfoldable pub drop : {A : Type 0} → ℕ → List A → List A
drop zero xs = xs
drop (suc n) [] = []
drop (suc n) (x ∷ xs) = drop n xs

abbrev pub is_none : Option ℕ → Bool
is_none none = true
is_none (some t) = false

-- `{ status: IN_PROGRESS, submitted_at: null, started_at: { lt: now } }`
abbrev pub is_running : Moment → Attempt → Bool
is_running now a = (is_in_progress a.status && is_none a.submitted_at) && ltb a.started_at now.time

abbrev pub running : Moment → Store → List Attempt
running now store = filter (is_running now) store.attempts

abbrev pub exam_of : Attempt → Store → Option Exam
exam_of a store = elim (find_session a.exam_session_id store) [
  | none ↦ none
  | some session ↦ find_exam session.exam_id store
]

abbrev pub duration_over : Option Exam → Attempt → Moment → Bool
duration_over none a now = false
duration_over (some exam) a now = is_expired a.started_at exam.duration_min now.time

abbrev pub is_over : Moment → Store → Attempt → Bool
is_over now store a = duration_over (exam_of a store) a now

-- `findMany({ …, skip, take })`
abbrev pub read_batch : ℕ → Moment → ℕ → Store → List Attempt
read_batch batch now cursor store = take batch (drop cursor (running now store))

module _ (p : Platform) where
  -- the transaction over the expired attempts of a batch
  unfoldable pub finalize_all : Moment → List Attempt → Transaction Store Error (Unit {0})
  finalize_all now [] = returns tt
  finalize_all now (a ∷ attempts) = do
    auto ← finalize p now a auto_submitted
    modify (add_audit (audit_row "system" a auto_submitted auto.score))
    finalize_all now attempts

  -- The rows that `writeAudit` writes in the course of the transaction, by a connection of its own.
  unfoldable pub audits_of : Moment → List Attempt → Store → List ExamAudit
  audits_of now [] store = []
  audits_of now (a ∷ attempts) store = elim (finalize p now a auto_submitted store) [
    | err e ↦ []
    | ok (auto, after) ↦
        let row = audit_row "system" a auto_submitted auto.score in
        row ∷ audits_of now attempts (add_audit row after)
  ]

  -- the tables after a batch that threw: the audit rows stay
  abbrev pub keep_audits : Moment → List Attempt → Store → Store
  keep_audits now attempts store = record store {
    audits = store.audits ++ audits_of now attempts store;
  }

  -- the tables after the transaction on a batch, for the rows as they were read before it
  unfoldable pub run_batch : Moment → List Attempt → Store → Store
  run_batch now attempts store = elim (finalize_all now attempts store) [
    | err e ↦ keep_audits now attempts store
    | ok (done, after) ↦ after
  ]

module _ (p : Platform) (batch : ℕ) where
  -- The loop, with `cursor` and `submitted`, where no other call comes in between; `none` is the end
  -- of the fuel, and an exception leaves the batches before it.
  unfoldable pub auto_submit_from : ℕ → Moment → ℕ → ℕ → Store → Option (Result Error ℕ × Store)
  auto_submit_from zero now cursor count store = none
  auto_submit_from (suc fuel) now cursor count store =
      let attempts = read_batch batch now cursor store in
      let over = filter (is_over now store) attempts in
      elim (length attempts == 0) [
        | true ↦ some (ok count, store)
        | false ↦ elim (finalize_all p now over store) [
          | err e ↦ some (err e, keep_audits p now over store)
          | ok (done, after) ↦ elim (ltb (length attempts) batch) [
            | true ↦ some (ok (count + length over), after)
            | false ↦
                auto_submit_from fuel now (cursor + length attempts) (count + length over) after
          ]
        ]
      ]

  -- enough fuel for every store
  unfoldable pub auto_submit_expired : Moment → Store → Option (Result Error ℕ × Store)
  auto_submit_expired now store = auto_submit_from (suc (length store.attempts)) now 0 0 store

-- what is sent to the room of an exam session
pub record Tick : Type 0 where
  pub exam_session_id : String
  pub attempt_id : String
  pub remaining : ℕ

-- `EXAM_TICK_THRESHOLDS.find((t) => remaining <= t)`
unfoldable pub tick_threshold : ℕ → Option ℕ
tick_threshold remaining = find (λ t. leb remaining t) (60 ∷ 30 ∷ 10 ∷ 0 ∷ [])

abbrev pub is_sent : Option ℕ → ℕ → Bool
is_sent none threshold = false
is_sent (some last) threshold = last == threshold

-- One attempt of the loop of `tickActiveExams`: `lastTickSent`, and what is sent.
unfoldable pub tick_attempt : Moment → Attempt → ℕ → Dict String ℕ → Dict String ℕ × List Tick
tick_attempt now a duration_min last_tick_sent =
    let remaining = remaining_seconds a.started_at duration_min now.time in
    elim (tick_threshold remaining) [
      | none ↦ (erase a.id last_tick_sent, [])
      | some threshold ↦ elim (is_sent (lookup a.id last_tick_sent) threshold) [
        | true ↦ (last_tick_sent, [])
        | false ↦ (
          insert a.id threshold last_tick_sent,
          record { exam_session_id = a.exam_session_id; attempt_id = a.id; remaining = remaining }
              ∷ [],
        )
      ]
    ]

abbrev pub duration_of : Option Exam → ℕ
duration_of none = 0
duration_of (some exam) = exam.duration_min

unfoldable pub tick_attempts :
    Moment → Store → List Attempt → Dict String ℕ → Dict String ℕ × List Tick
tick_attempts now store [] last_tick_sent = (last_tick_sent, [])
tick_attempts now store (a ∷ attempts) last_tick_sent =
    let (sent, ticks) = tick_attempt now a (duration_of (exam_of a store)) last_tick_sent in
    let (later, more) = tick_attempts now store attempts sent in (later, ticks ++ more)

unfoldable pub tick_active_exams : Moment → Store → Dict String ℕ → Dict String ℕ × List Tick
tick_active_exams now store last_tick_sent =
    tick_attempts now store (take auto_submit_batch (running now store)) last_tick_sent
