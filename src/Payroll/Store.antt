-- ===== src/Payroll/Store.antt =====
-- The records and the store of a payroll run: apps/api/src/modules/payroll/payroll.types.ts and
-- the run, payslip, configuration and audit methods of `InMemoryPayrollStore` in payroll.store.ts.
-- Dates and random ids are arguments; a payslip's id is new, so `set` appends it.
use openlms.Base.{
  ℕ, Bool, List, [], ◌∷◌, ◌++◌, map, Option, none, some, String, filter, find, length, ◌=ₛ◌,
}
use openlms.Base.Dict
use openlms.Base.Dict.{Dict, text_keys}
use openlms.Base.Int.{ℤ, sum}
use openlms.Base.Result.{ok, err}
use openlms.Base.Action.{Action}
use openlms.Payroll.Money.{zero_money}
use openlms.Payroll.Tax.{TerMonthly, BpjsConfig}
use openlms.Payroll.Calc.{ComponentKind, Warning}

pub data PayrollRunState : Type 0 where
  draft calculated validated approved_keuangan rekap_kepsek paid : PayrollRunState

pub data Category : Type 0 where
  tunjangan_tetap potongan variabel : Category

pub record PayrollComponentRecord : Type 0 where
  pub code : String
  pub name : String
  pub category : Category
  pub kind : ComponentKind
  pub is_taxable : Bool
  pub is_bpjs_applicable : Bool
  pub active : Bool

pub record SalaryStructureRecord : Type 0 where
  pub id : String
  pub staff_id : String
  pub effective_from : String
  pub components : Dict String ℤ
  pub attendance_allowance_per_day : Option ℤ

pub record DetailComponent : Type 0 where
  pub code : String
  pub name : String
  pub kind : ComponentKind
  pub amount : ℤ

pub record PayrollRunItemRecord : Type 0 where
  pub run_id : String
  pub staff_id : String
  pub gross : ℤ
  pub pph21 : ℤ
  pub bpjs_kesehatan : ℤ
  pub bpjs_jht : ℤ
  pub bpjs_jp : ℤ
  pub other_deductions : ℤ
  pub total_deductions : ℤ
  pub net : ℤ
  pub attendance_days : ℕ
  pub below_umr : Bool
  pub warnings : List Warning
  pub detail_components : List DetailComponent

pub record PayrollRunRecord : Type 0 where
  pub id : String
  pub period : String
  pub status : PayrollRunState
  pub total_gross : ℤ
  pub total_deductions : ℤ
  pub total_net : ℤ
  pub staff_count : ℕ
  pub approved_by_keuangan : Option String
  pub approved_by_kepsek : Option String
  pub paid_at : Option ℕ
  pub created_by : String
  pub items : List PayrollRunItemRecord

pub record Snapshot : Type 0 where
  pub gross : ℤ
  pub pph21 : ℤ
  pub bpjs_kesehatan : ℤ
  pub bpjs_jht : ℤ
  pub bpjs_jp : ℤ
  pub other_deductions : ℤ
  pub net : ℤ
  pub issued_at : ℕ

pub record PayslipRecord : Type 0 where
  pub run_id : String
  pub staff_id : String
  pub period : String
  pub snapshot : Snapshot

pub record PayrollPeriodConfigRecord : Type 0 where
  pub period : String
  pub umr : ℤ
  pub ter_monthly : TerMonthly
  pub bpjs : BpjsConfig

-- What an audit entry says of the run: made, moved from one state to the next, or validated.
pub data AuditNote : Type 0 where
  made : AuditNote
  moved : PayrollRunState → PayrollRunState → AuditNote
  checked : List (String × Warning) → AuditNote

pub record AuditLogRecord : Type 0 where
  pub actor_id : String
  pub entity_id : String
  pub note : AuditNote

pub record Store : Type 0 where
  pub components : List PayrollComponentRecord
  pub salary_structures : List SalaryStructureRecord
  pub runs : Dict String PayrollRunRecord
  pub payslips : List PayslipRecord
  pub period_configs : Dict String PayrollPeriodConfigRecord
  pub audit_logs : List AuditLogRecord

pub data Error : Type 0 where
  run_not_found run_already_paid config_missing : Error
  bad_status : PayrollRunState → Error
  not_allowed : PayrollRunState → PayrollRunState → Error

abbrev pub list_components : Store → List PayrollComponentRecord
list_components store = filter (λ c. c.active) store.components

unfoldable pub find_run_by_period : String → Store → Option PayrollRunRecord
find_run_by_period period store = find (λ r. r.period =ₛ period) (Dict.values store.runs)

abbrev pub get_run : String → Store → Option PayrollRunRecord
get_run id store = Dict.lookup id store.runs

abbrev pub set_run : String → PayrollRunRecord → Store → Store
set_run id run store = record store { runs = Dict.insert id run store.runs }

unfoldable pub create_run : String → String → String → Store → PayrollRunRecord × Store
create_run id period created_by store =
    let run : PayrollRunRecord = record {
      id = id;
      period = period;
      status = draft;
      total_gross = zero_money;
      total_deductions = zero_money;
      total_net = zero_money;
      staff_count = 0;
      approved_by_keuangan = none;
      approved_by_kepsek = none;
      paid_at = none;
      created_by = created_by;
      items = [];
    } in
    (run, set_run id run store)

-- The stored record, patched, where there is one.
abbrev pub replaced :
    String
    → (PayrollRunRecord → PayrollRunRecord)
    → Option PayrollRunRecord
    → Action Store Error PayrollRunRecord
replaced id patch none store = (err run_not_found, store)
replaced id patch (some existing) store = (ok (patch existing), set_run id (patch existing) store)

-- `updateRun`: the patch is a function on the stored record.
unfoldable pub update_run :
    String → (PayrollRunRecord → PayrollRunRecord) → Action Store Error PayrollRunRecord
update_run id patch store = replaced id patch (get_run id store) store

abbrev pub with_items : List PayrollRunItemRecord → PayrollRunRecord → PayrollRunRecord
with_items items run = record run {
  items = items;
  staff_count = length items;
  total_gross = sum (map (λ i. i.gross) items);
  total_deductions = sum (map (λ i. i.total_deductions) items);
  total_net = sum (map (λ i. i.net) items);
}

unfoldable pub set_run_items :
    String → List PayrollRunItemRecord → Action Store Error PayrollRunRecord
set_run_items id items store = replaced id (with_items items) (get_run id store) store

abbrev pub create_payslips : List PayslipRecord → Store → Store
create_payslips inputs store = record store { payslips = store.payslips ++ inputs }

abbrev pub get_period_config : String → Store → Option PayrollPeriodConfigRecord
get_period_config period store = Dict.lookup period store.period_configs

abbrev pub append_audit_log : String → String → AuditNote → Store → Store
append_audit_log actor id note store = record store {
  audit_logs = store.audit_logs ++ record { actor_id = actor; entity_id = id; note = note } ∷ [];
}
