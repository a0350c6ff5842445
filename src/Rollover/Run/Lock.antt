-- ===== src/Rollover/Run/Lock.antt =====
-- Who may execute a rollover: the start of `execute` of
-- apps/api/src/modules/rollover/rollover.service.ts.
use openlms.Base.{
  ℕ, ◌+◌, ◌≡◌, ◌≤◌, refl, ap, subst, ◌∙◌, inl, inr, Bool, false, ◌&&◌, not, String, none, arith,
  ltb, Bool-cases,
}
use openlms.Base.Result.{Result, ok, err, ◌>>◌, throw_if, Result-cases}
use openlms.Rollover.Run.{
  RolloverRun, RunError, run_running, still_running, claim_lost, stale_running_ms, is_stale,
  is_run_running, can_claim, reclaim, claim, claim_after, may_execute, is_plan, plan_changed, begin,
  fail, persist, dry_run, precheck, rollback, can_precheck, is_run_done, is_preview,
}

not_later : (limit now : ℕ) → now ≤ limit → ltb limit now ≡ false
not_later limit now h = ground (arith, h)

then_throws :
    (first next : Result RunError (Unit {0})) {e : RunError}
    → next ≡ err e
    → (thrown : RunError) × ((first >> next) ≡ err thrown)
then_throws (err thrown) next h = (thrown, refl)
then_throws (ok passed) next {e} h = (e, h)

module _ {P : Type 0} where
  -- a run that was taken at this time
  abbrev IsTaken : ℕ → RolloverRun P → Type 0
  IsTaken now run = (run.status ≡ run_running) × (run.updated_at ≡ now)

  ok-injective :
      {r t : RolloverRun P} → ◌≡◌ {A = Result RunError (RolloverRun P)} (ok r) (ok t) → r ≡ t
  ok-injective h = cc

  claim-IsTaken :
      (now : ℕ) (actor : String) (run : RolloverRun P) {t : RolloverRun P}
      → claim now actor run ≡ ok t
      → IsTaken now t
  unfolding claim
  claim-IsTaken now actor run {t} h = elim (Bool-cases (can_claim run.status)) [
    | inl free ↦ subst (IsTaken now) (ok-injective (rw (claim, free) at h)) (refl, refl)
    | inr held ↦ let clash : err claim_lost ≡ ok t = rw (claim, held) at h in cc
  ]

  claim_after-IsTaken :
      (now : ℕ) (actor : String) (run : RolloverRun P) (r : Result RunError (RolloverRun P))
      {t : RolloverRun P}
      → claim_after now actor run r ≡ (ok tt, t)
      → IsTaken now t
  claim_after-IsTaken now actor run (err e) h = cc
  claim_after-IsTaken now actor run (ok reclaimed) {t} h =
      elim (Result-cases (claim now actor reclaimed)) [
        | inl (claimed, e) ↦
            let same : (ok tt, claimed) ≡ (ok tt, t) = rw e at h in
            subst (IsTaken now) (ap (λ z. z.1) same) (claim-IsTaken now actor reclaimed e)
        | inr (thrown, e) ↦ let clash : (err thrown, reclaimed) ≡ (ok tt, t) = rw e at h in cc
      ]

  -- A run that was taken a short time ago is not stale, and not free.
  taken_refuses :
      (at now : ℕ) (actor : String) (read t : RolloverRun P)
      → IsTaken at t
      → now ≤ at + stale_running_ms
      → (e : RunError) × (claim_after now actor t (reclaim now read t) ≡ (err e, t))
  unfolding reclaim claim
  taken_refuses at now actor read t (running, since) soon =
      let held : can_claim t.status ≡ false = ap can_claim running in
      let young : is_stale now t ≡ false =
        ap (λ z. is_run_running z && ltb (t.updated_at + stale_running_ms) now) running
        ∙ ap (λ z. ltb (z + stale_running_ms) now) since
        ∙ not_later (at + stale_running_ms) now soon in
      elim (Bool-cases (is_stale now read)) [
        | inl stale ↦ (still_running, rw (reclaim, stale, young) refl)
        | inr fresh ↦ (claim_lost, rw (reclaim, fresh) (rw (claim, held) refl))
      ]

  module _ (same_plan : P → P → Bool) where
    begin-IsTaken :
        (plan : P) (now : ℕ) (actor : String) (read run : RolloverRun P) {t : RolloverRun P}
        → begin same_plan plan now actor read run ≡ (ok tt, t)
        → IsTaken now t
    unfolding begin
    begin-IsTaken plan now actor read run {t} h =
        elim (Result-cases (may_execute same_plan plan now read)) [
          | inl (passed, e) ↦
              claim_after-IsTaken now actor run (reclaim now read run) (rw (begin, e) at h)
          | inr (thrown, e) ↦ let clash : (err thrown, run) ≡ (ok tt, t) = rw (begin, e) at h in cc
        ]

    -- The row of a run that an `execute` has taken, while that one goes on: it persists its steps;
    -- each other `execute` comes in the ten minutes after the last write of the row, with whatever
    -- it read before; dry runs write; pre-checks and rollbacks come that did not read a status
    -- which lets them write.
    pub data Works (t : RolloverRun P) : RolloverRun P → Type 0 where
      just_taken : Works t t
      by_persist : (later : ℕ) {u : RolloverRun P} → Works t u → Works t (persist later u)
      by_execute :
          (plan : P) (later : ℕ) (other : String) (read : RolloverRun P) {u : RolloverRun P}
          → later ≤ u.updated_at + stale_running_ms
          → Works t u
          → Works t (begin same_plan plan later other read u).1
      by_dry_run :
          (plan : P) (later : ℕ) (read : RolloverRun P) {u : RolloverRun P}
          → Works t u
          → Works t (dry_run plan later read u).1
      by_precheck :
          (later : ℕ) (read : RolloverRun P) {u : RolloverRun P}
          → can_precheck read.status ≡ false
          → Works t u
          → Works t (precheck later read u).1
      by_rollback :
          (intrusions : ℕ) (other : String) (later : ℕ) (read : RolloverRun P) {u : RolloverRun P}
          → is_run_done read.status ≡ false
          → Works t u
          → Works t (rollback intrusions other later read u).1

    running_refuses :
        (plan : P) (later : ℕ) (other : String) (read u : RolloverRun P)
        → u.status ≡ run_running
        → later ≤ u.updated_at + stale_running_ms
        → (e : RunError) × (begin same_plan plan later other read u ≡ (err e, u))
    unfolding begin
    running_refuses plan later other read u running soon =
        elim (Result-cases (may_execute same_plan plan later read)) [
          | inr (thrown, e) ↦ (thrown, rw (begin, e) refl)
          | inl (passed, e) ↦
              let (thrown, refused) =
                taken_refuses u.updated_at later other read u (running, refl) soon in
              (thrown, rw (begin, e) refused)
        ]

    dry_run-status :
        (plan : P) (later : ℕ) (read u : RolloverRun P)
        → (dry_run plan later read u).1.status ≡ u.status
    unfolding dry_run
    dry_run-status plan later read u = elim (Bool-cases (is_preview read.status)) [
      | inl e ↦ rw (dry_run, e) refl
      | inr e ↦ rw (dry_run, e) refl
    ]

    stays_running :
        {t u : RolloverRun P} → t.status ≡ run_running → Works t u → u.status ≡ run_running
    unfolding persist precheck rollback
    stays_running h just_taken = h
    stays_running h (by_persist later w) = stays_running h w
    stays_running h (by_execute plan later other read {u} soon w) =
        let (e, refused) = running_refuses plan later other read u (stays_running h w) soon in
        ap (λ z. z.1.status) refused ∙ stays_running h w
    stays_running h (by_dry_run plan later read {u} w) =
        dry_run-status plan later read u ∙ stays_running h w
    stays_running h (by_precheck later read {u} refused w) =
        rw (precheck, refused) (stays_running h w)
    stays_running h (by_rollback intrusions other later read {u} refused w) =
        rw (rollback, refused) (stays_running h w)

    -- Where `execute` has taken a run and goes on with it, so that it neither finished nor failed,
    -- no pre-check or rollback came that had read a status which lets it write, and no `execute`
    -- came more than ten minutes after the last write, every other `execute` in the ten minutes
    -- after the last write throws and writes nothing, whoever calls, whatever plan it has built,
    -- and whatever it read of the run.
    pub taken_once :
        (plan : P) (now : ℕ) (actor : String) (read run : RolloverRun P) {t u : RolloverRun P}
        (other_plan : P) (later : ℕ) (other : String) (other_read : RolloverRun P)
        → begin same_plan plan now actor read run ≡ (ok tt, t)
        → Works t u
        → later ≤ u.updated_at + stale_running_ms
        → (e : RunError) × (begin same_plan other_plan later other other_read u ≡ (err e, u))
    taken_once plan now actor read run {t} {u} other_plan later other other_read h w soon =
        running_refuses other_plan later other other_read u
          (stays_running (begin-IsTaken plan now actor read run h).0 w) soon

    no_plan_refused :
        (plan : P) (now : ℕ) (read : RolloverRun P)
        → read.dry_run_plan ≡ none
        → (e : RunError) × (may_execute same_plan plan now read ≡ err e)
    unfolding may_execute
    no_plan_refused plan now read h =
        then_throws _ (throw_if (not (is_plan same_plan read.dry_run_plan plan)) plan_changed)
          (ap (λ o. throw_if (not (is_plan same_plan o plan)) plan_changed) h)

    -- A run whose execution failed, or stopped after a step, is not executed again from there:
    -- `execute` throws and writes nothing, whatever plan it has built, and even after the limit.
    pub not_resumed :
        (plan : P) (stopped_at now : ℕ) (actor : String) (before run : RolloverRun P)
        → ((e : RunError) × (begin same_plan plan now actor (fail stopped_at before) run
              ≡ (err e, run)))
          × ((e : RunError) × (begin same_plan plan now actor (persist stopped_at before) run
                ≡ (err e, run)))
    unfolding begin fail persist
    not_resumed plan stopped_at now actor before run =
        let (e, refused) = no_plan_refused plan now (fail stopped_at before) refl in
        let (e2, refused2) = no_plan_refused plan now (persist stopped_at before) refl in
        ((e, rw (begin, refused) refl), (e2, rw (begin, refused2) refl))
