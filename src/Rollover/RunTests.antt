-- ===== src/Rollover/RunTests.antt =====
-- Runs of the statements on a rollover run at concrete rows; a plan is a number here.
use openlms.Base.{ℕ, ◌≡◌, refl, arith, none, some, ◌==◌}
use openlms.Base.Result.{ok, err}
use openlms.Rollover.Run.{
  RolloverRun, RunError, run_preview, may_execute, reclaim, claim, begin, precheck, fail, persist,
}
use openlms.Rollover.Run.Lock.{taken_once, by_execute, by_persist, just_taken, not_resumed}

abbrev prepared : RolloverRun ℕ
prepared = record {
  new_academic_year_id = some "y2";
  status = run_preview;
  updated_at = 500;
  executed_by = none;
  executed_at = none;
  rolled_back_by = none;
  dry_run_plan = some 7;
}

abbrev taken : RolloverRun ℕ
taken = (begin (λ p q. p == q) 7 1000 "a" prepared prepared).1

-- the run after a step of its execution, and another call of `execute` after that
abbrev worked : RolloverRun ℕ
worked = (begin (λ p q. p == q) 7 2000 "b" prepared (persist 1500 taken)).1

taken_once_example :
    (e : RunError) × (begin (λ p q. p == q) 7 3000 "c" prepared worked ≡ (err e, worked))
unfolding begin may_execute reclaim claim persist
taken_once_example =
    taken_once (λ p q. p == q) 7 1000 "a" prepared prepared 7 3000 "c" prepared refl
      (by_execute 7 2000 "b" prepared (omega arith) (by_persist 1500 just_taken)) (omega arith)

not_resumed_example :
    ((e : RunError) × (begin (λ p q. p == q) 7 5000 "b" (fail 3000 taken) (fail 3000 taken)
        ≡ (err e, fail 3000 taken)))
    × ((e : RunError) × (begin (λ p q. p == q) 7 5000 "b" (persist 3000 taken) (fail 3000 taken)
          ≡ (err e, fail 3000 taken)))
not_resumed_example = not_resumed (λ p q. p == q) 7 3000 5000 "b" taken (fail 3000 taken)

-- A pre-check that read the run before it was taken frees it: a second `execute` takes it too.
precheck_frees :
    (begin (λ p q. p == q) 7 2000 "b" prepared ((precheck 1500 prepared taken).1)).0 ≡ ok tt
unfolding begin may_execute reclaim claim precheck
precheck_frees = refl
