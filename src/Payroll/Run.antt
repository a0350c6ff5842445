-- ===== src/Payroll/Run.antt =====
-- The monthly payroll run: `PayrollRunService` of
-- apps/api/src/modules/payroll/services/payroll-run.service.ts. The events that it emits are left out.
pub mod Ledger
pub mod Reachable
pub mod Payslips
pub mod Workflow
pub mod Final
use openlms.Base.{
  ℕ, Bool, true, false, not, ◌&&◌, ◌||◌, List, [], ◌∷◌, ◌++◌, map, Option, none, some, String,
  filter, any, take, count, ◌==◌, ◌=ₛ◌, if◌then◌else◌,
}
use openlms.Base.Dict.{Dict}
use openlms.Base.Int.{ℤ}
use openlms.Base.Result.{ok, err}
use openlms.Base.Action.{Action, ◌>>=◌, ◌>>◌, returns, throws, throw_when, need, gets, modify}
use openlms.Payroll.Calc.{Warning}
use openlms.Payroll.Store.{
  PayrollComponentRecord, SalaryStructureRecord, PayrollPeriodConfigRecord, PayrollRunState, draft,
  calculated, validated, approved_keuangan, rekap_kepsek, paid, Store, Error, run_not_found,
  run_already_paid, config_missing, bad_status, not_allowed, made, moved, checked,
  PayrollRunItemRecord, PayrollRunRecord, PayslipRecord, find_run_by_period, get_run, create_run,
  update_run, set_run_items, create_payslips, get_period_config, append_audit_log,
}
use openlms.Payroll.Items.{Database, RunVariableHours, items_of}

abbrev pub rank : PayrollRunState → ℕ
rank draft = 0
rank calculated = 1
rank validated = 2
rank approved_keuangan = 3
rank rekap_kepsek = 4
rank paid = 5

abbrev pub is_state : PayrollRunState → PayrollRunState → Bool
is_state a b = rank a == rank b

unfoldable pub valid_transitions : PayrollRunState → List PayrollRunState
valid_transitions draft = calculated ∷ []
valid_transitions calculated = validated ∷ draft ∷ []
valid_transitions validated = approved_keuangan ∷ calculated ∷ []
valid_transitions approved_keuangan = rekap_kepsek ∷ validated ∷ []
valid_transitions rekap_kepsek = paid ∷ approved_keuangan ∷ []
valid_transitions paid = []

abbrev pub get : String → Action Store Error PayrollRunRecord
get run_id = do found ← gets (get_run run_id); need found run_not_found

-- The writes of `transition`.
abbrev pub move : PayrollRunRecord → PayrollRunState → String → Action Store Error PayrollRunRecord
move run target actor = do
  updated ← update_run run.id (λ r. record r { status = target })
  modify (append_audit_log actor run.id (moved run.status target))
  returns updated

unfoldable pub transition :
    PayrollRunRecord → PayrollRunState → String → Action Store Error PayrollRunRecord
transition run target actor = do
  throw_when (not (any (is_state target) (valid_transitions run.status)))
      (not_allowed run.status target)
  move run target actor

abbrev pub created_or_found :
    String → String → String → Option PayrollRunRecord → Action Store Error PayrollRunRecord
created_or_found id period created_by (some existing) store =
    if is_state existing.status paid then (err run_already_paid, store) else (ok existing, store)
created_or_found id period created_by none store =
    let (run, store') = create_run id period created_by store in
    (ok run, append_audit_log created_by run.id made store')

unfoldable pub create : String → String → String → Action Store Error PayrollRunRecord
create id period created_by store =
    created_or_found id period created_by (find_run_by_period period store) store

abbrev pub no_runs :
    List PayrollComponentRecord
    → List SalaryStructureRecord
    → Dict String PayrollPeriodConfigRecord
    → Store
no_runs components structures configs = record {
  components = components;
  salary_structures = structures;
  runs = [];
  payslips = [];
  period_configs = configs;
  audit_logs = [];
}

module _ (db : Database) where
  unfoldable pub calculate : String → List RunVariableHours → Action Store Error PayrollRunRecord
  calculate run_id variable_hours = do
    run ← get run_id
    throw_when (not (is_state run.status draft) && not (is_state run.status calculated))
        (bad_status run.status)
    found ← gets (get_period_config run.period)
    config ← need found config_missing
    items ← gets (items_of db run config variable_hours)
    updated ← set_run_items run.id items
    transition updated calculated run.created_by

-- the warnings of all items, at most twenty of them
abbrev pub warnings_of : List PayrollRunItemRecord → List (String × Warning)
warnings_of [] = []
warnings_of (item ∷ items) = map (λ w. (item.staff_id, w)) item.warnings ++ warnings_of items

unfoldable pub validate : String → String → Action Store Error PayrollRunRecord
validate run_id actor = do
  run ← get run_id
  throw_when (not (is_state run.status calculated)) (bad_status run.status)
  modify (append_audit_log actor run_id (checked (take 20 (warnings_of run.items))))
  transition run validated actor

unfoldable pub approve_by_keuangan : String → String → Action Store Error PayrollRunRecord
approve_by_keuangan run_id actor = do
  run ← get run_id
  throw_when (not (is_state run.status validated)) (bad_status run.status)
  updated ← update_run run.id (λ r. record r { approved_by_keuangan = some actor })
  transition updated approved_keuangan actor

abbrev pub payslip_of : ℕ → PayrollRunRecord → PayrollRunItemRecord → PayslipRecord
payslip_of now run item = record {
  run_id = run.id;
  staff_id = item.staff_id;
  period = run.period;
  snapshot = record {
    gross = item.gross;
    pph21 = item.pph21;
    bpjs_kesehatan = item.bpjs_kesehatan;
    bpjs_jht = item.bpjs_jht;
    bpjs_jp = item.bpjs_jp;
    other_deductions = item.other_deductions;
    net = item.net;
    issued_at = now;
  };
}

-- The payslips still to be made for a run, given those that there are.
unfoldable pub missing_payslips : ℕ → PayrollRunRecord → List PayslipRecord → List PayslipRecord
missing_payslips now run existing =
    let existing_staff_ids = map (λ p. p.staff_id) (filter (λ p. p.run_id =ₛ run.id) existing) in
    map (payslip_of now run)
      (filter (λ item. not (any (λ id. id =ₛ item.staff_id) existing_staff_ids)) run.items)

unfoldable pub approve_by_kepsek : ℕ → String → String → Action Store Error PayrollRunRecord
approve_by_kepsek now run_id actor = do
  run ← get run_id
  throw_when (not (is_state run.status approved_keuangan)) (bad_status run.status)
  updated ←
      update_run run.id (λ r. record r { approved_by_kepsek = some actor; paid_at = some now })
  rekap ← transition updated rekap_kepsek actor
  done ← transition rekap paid actor
  existing ← gets (λ store. store.payslips)
  modify (create_payslips (missing_payslips now done existing))
  returns done

-- `rekapForKepsek`: the totals, and how many are below the minimum wage.
pub record Rekap : Type 0 where
  pub period : String
  pub status : PayrollRunState
  pub staff_count : ℕ
  pub total_gross : ℤ
  pub total_deductions : ℤ
  pub total_net : ℤ
  pub below_umr_count : ℕ

unfoldable pub rekap_for_kepsek : String → Action Store Error Rekap
rekap_for_kepsek run_id = do
  run ← get run_id
  returns (record {
    period = run.period;
    status = run.status;
    staff_count = run.staff_count;
    total_gross = run.total_gross;
    total_deductions = run.total_deductions;
    total_net = run.total_net;
    below_umr_count = count (λ i. i.below_umr) run.items;
  })
