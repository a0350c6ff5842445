-- ===== src/Payroll/Run/Workflow.antt =====
-- What the operations of a payroll run do to it: PayrollRunService in
-- apps/api/src/modules/payroll/services/payroll-run.service.ts.
use openlms.Base.{
  ◌≡◌, refl, ℕ, ◌≤◌, true, false, not, ◌&&◌, List, ◌++◌, any, some, String, All, In-All,
}
use openlms.Base.Dict
use openlms.Base.Dict.{Dict, text_keys}
use openlms.Base.Result.{ok, err}
use openlms.Payroll.Store.{
  PayrollRunState, draft, calculated, approved_keuangan, rekap_kepsek, paid, Store, bad_status,
  not_allowed, moved, PayrollRunRecord, PayrollPeriodConfigRecord, get_run, set_run, update_run,
  set_run_items, with_items, get_period_config, append_audit_log,
}
use openlms.Payroll.Items.{Database, RunVariableHours, items_of}
use openlms.Payroll.Run.{
  transition, calculate, validate, approve_by_keuangan, approve_by_kepsek, valid_transitions,
  is_state, missing_payslips,
}
use openlms.Payroll.Run.Ledger.{AllDiffer}
use openlms.Payroll.Run.Payslips.{slips, staff_ids, slips-missing}

-- Calculating, validating and approving a paid run throw and write nothing.
pub paid_refuses :
    (db : Database) (run_id actor : String) (hours : List RunVariableHours) (now : ℕ)
    (store : Store) {run : PayrollRunRecord}
    → get_run run_id store ≡ some run
    → run.status ≡ paid
    → (calculate db run_id hours store ≡ (err (bad_status paid), store))
      × (validate run_id actor store ≡ (err (bad_status paid), store))
      × (approve_by_keuangan run_id actor store ≡ (err (bad_status paid), store))
      × (approve_by_kepsek now run_id actor store ≡ (err (bad_status paid), store))
unfolding calculate validate approve_by_keuangan approve_by_kepsek
paid_refuses db run_id actor hours now store h p =
    (rw (h, p) refl, rw (h, p) refl, rw (h, p) refl, rw (h, p) refl)

abbrev with_status : PayrollRunState → PayrollRunRecord → PayrollRunRecord
with_status target run = record run { status = target }

transition_allowed :
    (run stored : PayrollRunRecord) (target : PayrollRunState) (actor : String) (store : Store)
    → get_run run.id store ≡ some stored
    → any (is_state target) (valid_transitions run.status) ≡ true
    → transition run target actor store ≡ (
      ok (with_status target stored),
      append_audit_log actor run.id
          (moved run.status target)
          (set_run run.id (with_status target stored) store),
    )
unfolding transition update_run
transition_allowed run stored target actor store h k = rw (k, h) refl

calculated-stuck :
    {a : PayrollRunState} → a ≡ calculated → any (is_state calculated) (valid_transitions a) ≡ false
unfolding valid_transitions
calculated-stuck e = rw e refl

approved-moves :
    {a : PayrollRunState}
    → a ≡ approved_keuangan
    → (any (is_state rekap_kepsek) (valid_transitions a) ≡ true)
      × (any (is_state paid) (valid_transitions rekap_kepsek) ≡ true)
unfolding valid_transitions
approved-moves e = (rw e refl, refl)

-- A run that is already calculated cannot be calculated again: the guard lets it through and its
-- items and totals are replaced, and then the call throws, since the transition from CALCULATED to
-- CALCULATED is not allowed.
pub recalculate_throws :
    (db : Database) (hours : List RunVariableHours) (store : Store) (run : PayrollRunRecord)
    {config : PayrollPeriodConfigRecord}
    → get_run run.id store ≡ some run
    → run.status ≡ calculated
    → get_period_config run.period store ≡ some config
    → calculate db run.id hours store ≡ (
      err (not_allowed run.status calculated),
      set_run run.id (with_items (items_of db run config hours store) run) store,
    )
unfolding calculate transition set_run_items
recalculate_throws db hours store run h s c =
    let passes : not (is_state run.status draft) && not (is_state run.status calculated) ≡ false =
      rw s refl in
    let stuck : any (is_state calculated) (valid_transitions run.status) ≡ false =
      calculated-stuck s in
    rw (h, passes, c, h, stuck) refl

-- the run as `approveByKepsek` leaves it
abbrev pub paid_run : ℕ → String → PayrollRunRecord → PayrollRunRecord
paid_run now actor run = record run {
  approved_by_kepsek = some actor;
  paid_at = some now;
  status = paid;
}

kepsek_outcome :
    (now : ℕ) (actor : String) (store : Store) (run : PayrollRunRecord)
    → get_run run.id store ≡ some run
    → run.status ≡ approved_keuangan
    → let (r, after) = approve_by_kepsek now run.id actor store in
      (r ≡ ok (paid_run now actor run))
      × (get_run run.id after ≡ some (paid_run now actor run))
      × (after.payslips
          ≡ store.payslips ++ missing_payslips now (paid_run now actor run) store.payslips)
unfolding approve_by_kepsek update_run
kepsek_outcome now actor store run h s =
    let passes : not (is_state run.status approved_keuangan) ≡ false = rw s refl in
    let signed : PayrollRunRecord = record run {
      approved_by_kepsek = some actor;
      paid_at = some now;
    } in
    let store1 : Store = set_run run.id signed store in
    let store2 : Store =
      append_audit_log actor run.id (moved run.status rekap_kepsek)
        (set_run run.id (with_status rekap_kepsek signed) store1) in
    let first =
      transition_allowed signed signed rekap_kepsek actor store1
        (Dict.lookup-insert_self run.id signed store.runs) (approved-moves s).0 in
    let second =
      transition_allowed (with_status rekap_kepsek signed) (with_status rekap_kepsek signed) paid
        actor store2 (Dict.lookup-insert_self run.id (with_status rekap_kepsek signed) store1.runs)
        (approved-moves s).1 in
    rw (h, passes, h, first, second)
      (refl, Dict.lookup-insert_self run.id (paid_run now actor run) store2.runs, refl)

-- The principal's approval of a run that the finance office has approved, where its items are of
-- different staff and nobody has two payslips of it: the call returns, the stored run is paid and
-- has its items and totals as before, and everyone with an item has exactly one payslip of the run.
pub approve_by_kepsek_pays :
    (now : ℕ) (actor : String) (store : Store) (run : PayrollRunRecord)
    → get_run run.id store ≡ some run
    → run.status ≡ approved_keuangan
    → AllDiffer (staff_ids run.items)
    → ((staff_id : String) → slips run.id staff_id store.payslips ≤ 1)
    → let (r, after) = approve_by_kepsek now run.id actor store in
      (r ≡ ok (paid_run now actor run))
      × (get_run run.id after ≡ some (paid_run now actor run))
      × All (λ staff_id. slips run.id staff_id after.payslips ≡ 1) (staff_ids run.items)
approve_by_kepsek_pays now actor store run h s d one =
    let (r, stored, made) = kepsek_outcome now actor store run h s in
    (
      r,
      stored,
      In-All
          (λ staff_id.
            slips run.id staff_id (approve_by_kepsek now run.id actor store).1.payslips ≡ 1)
          (staff_ids run.items)
          (λ staff_id m. rw made (
            slips-missing now (paid_run now actor run) store.payslips staff_id d m (one staff_id))),
    )
