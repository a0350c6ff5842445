-- ===== src/Rollover/Run.antt =====
-- The row of a rollover run under the statements of apps/api/src/modules/rollover/rollover.service.ts:
-- `precheck`, `dryRun`, the start and the ends of `execute`, and `rollback`. A plan is of any type,
-- with the test that compares the texts that `JSON.stringify` gives; what a call read before it
-- writes is an argument, `read`, since another call may write in between. Times are in milliseconds.
pub mod Lock
use openlms.Base.{
  ℕ, ◌+◌, ◌*◌, ◌≡◌, Bool, true, false, ◌&&◌, ◌||◌, not, String, Option, none, some, ltb, leb, ◌==◌,
  is_some, if◌then◌else◌,
}
use openlms.Base.Result.{Result, ok, err, ◌>>◌, throw_if}

pub data RunStatus : Type 0 where
  run_draft run_preview run_running run_done run_rolled_back run_failed : RunStatus

-- of `step_state`, the plan of the dry run
pub record RolloverRun (P : Type 0) : Type 0 where
  pub new_academic_year_id : Option String
  pub status : RunStatus
  pub updated_at : ℕ
  pub executed_by : Option String
  pub executed_at : Option ℕ
  pub rolled_back_by : Option String
  pub dry_run_plan : Option P

pub data RunError : Type 0 where
  not_from_status not_prepared no_new_year plan_changed still_running claim_lost : RunError
  not_done not_executed window_over not_pristine : RunError

abbrev pub stale_running_ms : ℕ
stale_running_ms = 10 * 60 * 1000

abbrev pub rollback_window_ms : ℕ
rollback_window_ms = 7 * 24 * 60 * 60 * 1000

-- `["DRAFT", "PREVIEW", "FAILED"].includes(status)`
abbrev pub can_precheck : RunStatus → Bool
can_precheck run_draft = true
can_precheck run_preview = true
can_precheck run_failed = true
can_precheck run_running = false
can_precheck run_done = false
can_precheck run_rolled_back = false

abbrev pub is_preview : RunStatus → Bool
is_preview run_preview = true
is_preview run_draft = false
is_preview run_failed = false
is_preview run_running = false
is_preview run_done = false
is_preview run_rolled_back = false

-- `{ status: { in: ["PREVIEW", "FAILED"] } }`
abbrev pub can_claim : RunStatus → Bool
can_claim run_preview = true
can_claim run_failed = true
can_claim run_draft = false
can_claim run_running = false
can_claim run_done = false
can_claim run_rolled_back = false

abbrev pub is_run_running : RunStatus → Bool
is_run_running run_running = true
is_run_running run_preview = false
is_run_running run_failed = false
is_run_running run_draft = false
is_run_running run_done = false
is_run_running run_rolled_back = false

abbrev pub is_run_done : RunStatus → Bool
is_run_done run_done = true
is_run_done run_running = false
is_run_done run_preview = false
is_run_done run_failed = false
is_run_done run_draft = false
is_run_done run_rolled_back = false

abbrev pub is_rolled_back : RunStatus → Bool
is_rolled_back run_rolled_back = true
is_rolled_back run_done = false
is_rolled_back run_running = false
is_rolled_back run_preview = false
is_rolled_back run_failed = false
is_rolled_back run_draft = false

-- whether the window of `rollback` is over
abbrev pub is_over : Option ℕ → ℕ → Bool
is_over none now = false
is_over (some executed_at) now = ltb (executed_at + rollback_window_ms) now

module _ {P : Type 0} where
  -- `status = "RUNNING"` and last written more than the limit ago
  abbrev pub is_stale : ℕ → RolloverRun P → Bool
  is_stale now run = is_run_running run.status && ltb (run.updated_at + stale_running_ms) now

  -- `precheck`: its report goes into another column, whatever it says
  unfoldable pub precheck :
      ℕ → RolloverRun P → RolloverRun P → Result RunError (Unit {0}) × RolloverRun P
  precheck now read run =
      if can_precheck read.status
      then (ok tt, record run { status = run_preview; updated_at = now })
      else (err not_from_status, run)

  unfoldable pub dry_run :
      P → ℕ → RolloverRun P → RolloverRun P → Result RunError (Unit {0}) × RolloverRun P
  dry_run plan now read run =
      if is_preview read.status
      then (ok tt, record run { dry_run_plan = some plan; updated_at = now })
      else (err not_prepared, run)

  -- the statement that takes back a run that has stood still
  unfoldable pub reclaim : ℕ → RolloverRun P → RolloverRun P → Result RunError (RolloverRun P)
  reclaim now read run =
      if is_stale now read
      then (if is_stale now run
          then ok (record run {
            status = run_failed;
            updated_at = now;
            dry_run_plan = read.dry_run_plan;
          })
          else err still_running)
      else ok run

  -- the statement that takes the run
  unfoldable pub claim : ℕ → String → RolloverRun P → Result RunError (RolloverRun P)
  claim now actor run =
      if can_claim run.status
      then ok (record run {
        status = run_running;
        updated_at = now;
        executed_by = some actor;
        executed_at = some now;
      })
      else err claim_lost

  -- the row after two statements of which the second may lose
  abbrev pub claim_after :
      ℕ
      → String
      → RolloverRun P
      → Result RunError (RolloverRun P)
      → Result RunError (Unit {0}) × RolloverRun P
  claim_after now actor run (err e) = (err e, run)
  claim_after now actor run (ok reclaimed) = taken (claim now actor reclaimed)
    where
      taken : Result RunError (RolloverRun P) → Result RunError (Unit {0}) × RolloverRun P
      taken (ok claimed) = (ok tt, claimed)
      taken (err e) = (err e, reclaimed)

  module _ (same_plan : P → P → Bool) where
    abbrev pub is_plan : Option P → P → Bool
    is_plan none plan = false
    is_plan (some stored) plan = same_plan stored plan

    -- the tests of `execute` before it writes
    unfoldable pub may_execute : P → ℕ → RolloverRun P → Result RunError (Unit {0})
    may_execute plan now read =
        throw_if
          (is_run_done read.status
            || (is_rolled_back read.status
                || (is_run_running read.status && not (is_stale now read))))
          not_from_status
        >> throw_if (not (can_claim read.status) && not (is_stale now read)) not_prepared
        >> throw_if (not (is_some read.new_academic_year_id)) no_new_year
        >> throw_if (not (is_plan read.dry_run_plan plan)) plan_changed

    -- the start of `execute`, whose two statements are one step here
    unfoldable pub begin :
        P → ℕ → String → RolloverRun P → RolloverRun P → Result RunError (Unit {0}) × RolloverRun P
    begin plan now actor read run = elim (may_execute plan now read) [
      | err e ↦ (err e, run)
      | ok passed ↦ claim_after now actor run (reclaim now read run)
    ]

  -- `persist`, which writes a `step_state` without the plan
  unfoldable pub persist : ℕ → RolloverRun P → RolloverRun P
  persist now run = record run { dry_run_plan = none; updated_at = now }

  unfoldable pub finish : ℕ → RolloverRun P → RolloverRun P
  finish now run = record run { status = run_done; updated_at = now }

  unfoldable pub fail : ℕ → RolloverRun P → RolloverRun P
  fail now run = record run { status = run_failed; dry_run_plan = none; updated_at = now }

  -- `rollback`, with the number of audit rows that say the data changed
  unfoldable pub rollback :
      ℕ → String → ℕ → RolloverRun P → RolloverRun P → Result RunError (Unit {0}) × RolloverRun P
  rollback intrusions actor now read run = elim (may_roll_back) [
    | err e ↦ (err e, run)
    | ok passed ↦ (
      ok tt,
      record run { status = run_rolled_back; rolled_back_by = some actor; updated_at = now },
    )
  ]
    where
      may_roll_back : Result RunError (Unit {0})
      may_roll_back =
          throw_if (not (is_run_done read.status)) not_done
          >> throw_if (not (is_some read.executed_at)) not_executed
          >> throw_if (is_over read.executed_at now) window_over
          >> throw_if (not (intrusions == 0)) not_pristine
