-- ===== src/Payroll/Tests.antt =====
-- Runs of the payroll at concrete inputs.
use openlms.Base.{
  eq_iff, ◌≡◌, refl, ℕ, ◌≤◌, Bool, true, false, List, [], ◌∷◌, none, some, String, arith, All, In,
  inl,
}
use openlms.Base.Dict
use openlms.Base.Dict.{Dict, text_keys}
use openlms.Base.Int.{pos}
use openlms.Base.Result.{ok, err}
use openlms.Base.Texts.{text_before}
use openlms.Payroll.Defaults.{default_ter, default_bpjs}
use openlms.Payroll.Calc.{additive}
use openlms.Payroll.Store.{
  PayrollRunState, calculated, approved_keuangan, paid, tunjangan_tetap, Store, not_allowed,
  PayrollComponentRecord, SalaryStructureRecord, PayrollRunItemRecord, PayrollRunRecord,
  PayrollPeriodConfigRecord, get_run, set_run, with_items,
}
use openlms.Payroll.Items.{
  Database, items_of, keep_newer, sorted, insert_sorted, newest, list_active_salary_structures,
}
use openlms.Payroll.Items.Newest.{active_structure_newest}
use openlms.Payroll.Run.{create, calculate, validate, approve_by_kepsek, payslip_of, no_runs}
use openlms.Payroll.Run.Ledger.{IsLedger}
use openlms.Payroll.Run.Reachable.{
  start, after_create, after_calculate, after_validate, Reachable-IsLedger,
}
use openlms.Payroll.Run.Workflow.{paid_run, recalculate_throws, approve_by_kepsek_pays}
use openlms.Payroll.Run.Final.{now_here, then_create, then_calculate}
use openlms.Payroll.Run.Final.Paid.{paid_is_final}
use openlms.Payroll.Run.Payslips.{slips}

abbrev component : String → Bool → PayrollComponentRecord
component code taxable = record {
  code = code;
  name = code;
  category = tunjangan_tetap;
  kind = additive;
  is_taxable = taxable;
  is_bpjs_applicable = true;
  active = true;
}

abbrev structure : String → String → ℕ → SalaryStructureRecord
structure id from amount = record {
  id = id;
  staff_id = "s1";
  effective_from = from;
  components = ("GAJI_POKOK", pos amount) ∷ [];
  attendance_allowance_per_day = none;
}

abbrev structures : List SalaryStructureRecord
structures =
    structure "a" "2025-01" 500000000
    ∷ structure "b" "2025-07" 600000000
    ∷ structure "c" "2026-07" 700000000
    ∷ []

abbrev config : PayrollPeriodConfigRecord
config = record {
  period = "2026-01";
  umr = pos 250000000;
  ter_monthly = default_ter;
  bpjs = default_bpjs;
}

abbrev db : Database
db = record {
  active_staff =
      record { id = "s1"; ter_category = some "A" }
      ∷ record { id = "s2"; ter_category = none }
      ∷ [];
  attendances = λ period. [];
}

abbrev empty : Store
empty = no_runs (component "GAJI_POKOK" true ∷ []) structures (("2026-01", config) ∷ [])

abbrev made : Store
made = (create "r1" "2026-01" "u1" empty).1

Reachable-IsLedger_example : IsLedger (validate "r1" "u1" (calculate db "r1" [] made).1).1
unfolding Dict.lookup
Reachable-IsLedger_example =
    Reachable-IsLedger (validate "r1" "u1" (calculate db "r1" [] made).1).1 (
      after_validate "r1" "u1" (
        after_calculate db "r1" [] (
          after_create "r1" "2026-01" "u1"
            (start (component "GAJI_POKOK" true ∷ []) structures (("2026-01", config) ∷ [])) refl)))

-- The newest structure in force is the second.
active_structure-run :
    Dict.lookup "s1" (newest (list_active_salary_structures ("s1" ∷ []) "2026-01" empty) [])
    ≡ some (structure "b" "2025-07" 600000000)
unfolding newest list_active_salary_structures keep_newer sorted insert_sorted Dict.lookup
    Dict.insert
active_structure-run = refl

active_structure_newest_example :
    (s : SalaryStructureRecord) × (Dict.lookup "s1"
        (newest (list_active_salary_structures ("s1" ∷ []) "2026-01" empty) [])
      ≡ some s)
    × In s structures
    × (s.staff_id ≡ "s1")
    × (text_before "2026-01" s.effective_from ≡ false)
    × (text_before s.effective_from "2025-01" ≡ false)
active_structure_newest_example =
    active_structure_newest ("s1" ∷ []) "s1" "2026-01" empty (structure "a" "2025-01" 500000000)
      (inl refl) (inl refl) refl refl

abbrev item : String → PayrollRunItemRecord
item staff_id = record {
  run_id = "r1";
  staff_id = staff_id;
  gross = pos 600000000;
  pph21 = pos 4500000;
  bpjs_kesehatan = pos 6000000;
  bpjs_jht = pos 12000000;
  bpjs_jp = pos 6000000;
  other_deductions = pos 0;
  total_deductions = pos 28500000;
  net = pos 571500000;
  attendance_days = 20;
  below_umr = false;
  warnings = [];
  detail_components = [];
}

abbrev run_of : PayrollRunState → PayrollRunRecord
run_of status = record {
  id = "r1";
  period = "2026-01";
  status = status;
  total_gross = pos 1200000000;
  total_deductions = pos 57000000;
  total_net = pos 1143000000;
  staff_count = 2;
  approved_by_keuangan = none;
  approved_by_kepsek = none;
  paid_at = none;
  created_by = "u1";
  items = item "s1" ∷ item "s2" ∷ [];
}

-- A store with the run, and with a payslip of its first member of staff.
abbrev stored : PayrollRunState → Store
stored status = record empty {
  runs = ("r1", run_of status) ∷ [];
  payslips = payslip_of 5 (run_of status) (item "s1") ∷ [];
}

-- a second run is made and calculated, and the paid one is tried again
abbrev later_store : Store
later_store =
    (calculate db "r1" [] (calculate db "r2" [] (create "r2" "2026-02" "u1" (stored paid)).1).1).1

paid_is_final_example : get_run "r1" later_store ≡ some (run_of paid)
unfolding Dict.lookup
paid_is_final_example =
    paid_is_final "r1" {run = run_of paid} {s = stored paid} (refl, tt) refl refl
      (then_calculate db "r1" []
        (then_calculate db "r2" [] (then_create "r2" "2026-02" "u1" refl now_here)))

recalculate_throws_example : calculate db "r1" [] (stored calculated) ≡ (
  err (not_allowed calculated calculated),
  set_run "r1"
      (with_items
        (items_of db (run_of calculated) config [] (stored calculated))
        (run_of calculated))
      (stored calculated),
)
unfolding Dict.lookup
recalculate_throws_example =
    recalculate_throws db [] (stored calculated) (run_of calculated) refl refl refl

one_slip : (staff_id : String) → slips "r1" staff_id (stored approved_keuangan).payslips ≤ 1
one_slip staff_id = ground arith

approve_by_kepsek_pays_example :
    let (r, after) = approve_by_kepsek 9 "r1" "head" (stored approved_keuangan) in
    (r ≡ ok (paid_run 9 "head" (run_of approved_keuangan)))
    × (get_run "r1" after ≡ some (paid_run 9 "head" (run_of approved_keuangan)))
    × All (λ staff_id. slips "r1" staff_id after.payslips ≡ 1) ("s1" ∷ "s2" ∷ [])
unfolding Dict.lookup
approve_by_kepsek_pays_example =
    approve_by_kepsek_pays 9 "head" (stored approved_keuangan) (run_of approved_keuangan) refl refl
      (((λ e. ground (arith, (eq_iff "s1" "s2").1 e)), tt), (tt, tt)) one_slip
