-- ===== src/Payroll/Items.antt =====
-- The items of a run: the loop of `calculate` in
-- apps/api/src/modules/payroll/services/payroll-run.service.ts. The staff and attendance tables are
-- arguments; hours are in hundredths of an hour.
pub mod Newest
use openlms.Base.{
  ℕ, Bool, true, false, not, count, ◌&&◌, ◌||◌, List, [], ◌∷◌, ◌++◌, map, Option, none, some,
  String, filter, any, ltb, ◌=ₛ◌, if◌then◌else◌,
}
use openlms.Base.Dict
use openlms.Base.Dict.{Dict, text_keys}
use openlms.Base.Int.{ℤ}
use openlms.Base.Texts.{text_before}
use openlms.Payroll.Money.{times_days}
use openlms.Payroll.Tax.{ter_of}
use openlms.Payroll.Calc.{ComponentInput, additive, hourly, compute_payroll}
use openlms.Payroll.Store.{
  Store, Category, variabel, PayrollComponentRecord, SalaryStructureRecord, DetailComponent,
  PayrollRunItemRecord, PayrollRunRecord, PayrollPeriodConfigRecord, list_components,
}

pub record Staff : Type 0 where
  pub id : String
  pub ter_category : Option String

pub record StaffAttendance : Type 0 where
  pub staff_id : String
  pub status : String

pub record RunVariableHours : Type 0 where
  pub staff_id : String
  pub jtm_hours : ℕ
  pub lembur_hours : ℕ

-- The rows that the queries of `calculate` return: active staff, and the attendance of a period.
pub record Database : Type 0 where
  pub active_staff : List Staff
  pub attendances : String → List StaffAttendance

-- Is `a` put before `b` by the comparison of `listActiveSalaryStructures`?
abbrev pub sorts_before : SalaryStructureRecord → SalaryStructureRecord → Bool
sorts_before a b =
    if a.staff_id =ₛ b.staff_id
    then not (text_before a.effective_from b.effective_from)
    else text_before a.staff_id b.staff_id

-- `sort`, by insertion
unfoldable pub insert_sorted :
    SalaryStructureRecord → List SalaryStructureRecord → List SalaryStructureRecord
insert_sorted s [] = s ∷ []
insert_sorted s (t ∷ ts) =
    let later = insert_sorted s ts in if sorts_before s t then s ∷ t ∷ ts else t ∷ later

unfoldable pub sorted : List SalaryStructureRecord → List SalaryStructureRecord
sorted [] = []
sorted (s ∷ ss) = insert_sorted s (sorted ss)

unfoldable pub list_active_salary_structures :
    List String → String → Store → List SalaryStructureRecord
list_active_salary_structures staff_ids period store = sorted (
    filter
      (λ s. any (λ id. id =ₛ s.staff_id) staff_ids && not (text_before period s.effective_from))
      store.salary_structures)

-- The loop over the structures: the newest per member of staff.
unfoldable pub keep_newer :
    SalaryStructureRecord → Dict String SalaryStructureRecord → Dict String SalaryStructureRecord
keep_newer s by_staff = elim (Dict.lookup s.staff_id by_staff) [
  | none ↦ Dict.insert s.staff_id s by_staff
  | some current ↦
      if text_before current.effective_from s.effective_from
      then Dict.insert s.staff_id s by_staff
      else by_staff
]

unfoldable pub newest :
    List SalaryStructureRecord
    → Dict String SalaryStructureRecord
    → Dict String SalaryStructureRecord
newest [] by_staff = by_staff
newest (s ∷ ss) by_staff = newest ss (keep_newer s by_staff)

unfoldable pub count_attendance_days : List StaffAttendance → String → ℕ
count_attendance_days attendances staff_id =
    count (λ a. a.staff_id =ₛ staff_id && (a.status =ₛ "HADIR" || a.status =ₛ "TERLAMBAT"))
      attendances

abbrev pub is_variabel : Category → Bool
is_variabel variabel = true
is_variabel _ = false

-- `new Map(rows.map((r) => [key(r), r]))`
abbrev pub map_by : {A : Type 0} → (A → String) → List A → Dict String A → Dict String A
map_by key [] m = m
map_by key (r ∷ rows) m = map_by key rows (Dict.insert (key r) r m)

-- The components of a structure that have a definition and are not variable.
unfoldable pub fixed_components :
    Dict String PayrollComponentRecord → Dict String ℤ → List ComponentInput
fixed_components defs [] = []
fixed_components defs ((code, amount) ∷ rest) =
    let later = fixed_components defs rest in
    elim (Dict.lookup code defs) [
      | none ↦ later
      | some def ↦
          if is_variabel def.category
          then later
          else record {
            code = code;
            name = def.name;
            kind = def.kind;
            amount = amount;
            is_taxable = def.is_taxable;
            is_bpjs_applicable = def.is_bpjs_applicable;
          }
            ∷ later
    ]

abbrev pub attendance_allowance : Option ℤ → ℕ → List ComponentInput
attendance_allowance none days = []
attendance_allowance (some per_day) days =
    if ltb 0 days
    then record {
      code = "TUNJANGAN_KEHADIRAN";
      name = "Tunjangan Kehadiran";
      kind = additive;
      amount = times_days per_day days;
      is_taxable = true;
      is_bpjs_applicable = false;
    }
      ∷ []
    else []

unfoldable pub fixed_of :
    Dict String PayrollComponentRecord → Option SalaryStructureRecord → ℕ → List ComponentInput
fixed_of defs none days = []
fixed_of defs (some structure) days =
    fixed_components defs structure.components
    ++ attendance_allowance structure.attendance_allowance_per_day days

abbrev pub hourly_if : String → String → Option ℤ → ℕ → List ComponentInput
hourly_if code name none hours = []
hourly_if code name (some rate) hours = if ltb 0 hours then hourly code name rate hours ∷ [] else []

unfoldable pub variable_of :
    Option RunVariableHours → Option SalaryStructureRecord → List ComponentInput
variable_of none structure = []
variable_of (some hours) none = []
variable_of (some hours) (some structure) =
    hourly_if "HONOR_MENGAJAR" "Honor Mengajar" (Dict.lookup "HONOR_MENGAJAR" structure.components)
      hours.jtm_hours
    ++ hourly_if "LEMBUR" "Lembur" (Dict.lookup "LEMBUR" structure.components) hours.lembur_hours

abbrev pub category_or_a : Option String → String
category_or_a none = "A"
category_or_a (some category) = category

abbrev pub detail_of : ComponentInput → DetailComponent
detail_of c = record { code = c.code; name = c.name; kind = c.kind; amount = c.amount }

-- The item of one member of staff, from the fixed and the variable components.
unfoldable pub item_of :
    String
    → PayrollPeriodConfigRecord
    → Staff
    → ℕ
    → List ComponentInput
    → List ComponentInput
    → PayrollRunItemRecord
item_of run_id config staff days fixed variable =
    let calc = compute_payroll fixed variable (record {
      umr = config.umr;
      ter_monthly = ter_of (category_or_a staff.ter_category) config.ter_monthly;
      bpjs = config.bpjs;
    }) in
    record {
      run_id = run_id;
      staff_id = staff.id;
      gross = calc.gross;
      pph21 = calc.pph21;
      bpjs_kesehatan = calc.bpjs_kesehatan;
      bpjs_jht = calc.bpjs_jht;
      bpjs_jp = calc.bpjs_jp;
      other_deductions = calc.other_deductions;
      total_deductions = calc.total_deductions;
      net = calc.net;
      attendance_days = days;
      below_umr = calc.below_umr;
      warnings = calc.warnings;
      detail_components = map detail_of (fixed ++ variable);
    }

unfoldable pub items_of :
    Database
    → PayrollRunRecord
    → PayrollPeriodConfigRecord
    → List RunVariableHours
    → Store
    → List PayrollRunItemRecord
items_of db run config variable_hours store =
    let defs = map_by (λ c. c.code) (list_components store) [] in
    let hours = map_by (λ h. h.staff_id) variable_hours [] in
    let attendances = db.attendances run.period in
    let structures =
      list_active_salary_structures (map (λ s. s.id) db.active_staff) run.period store in
    let by_staff = newest structures [] in
    map
      (λ staff.
        let days = count_attendance_days attendances staff.id in
        let structure = Dict.lookup staff.id by_staff in
        item_of run.id config staff days (fixed_of defs structure days)
          (variable_of (Dict.lookup staff.id hours) structure))
      db.active_staff
