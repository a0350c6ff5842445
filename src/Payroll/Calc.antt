-- ===== src/Payroll/Calc.antt =====
-- The pay of one member of staff: apps/api/src/modules/payroll/calculator/payroll-calc.ts. Hours
-- are in hundredths of an hour, and an amount is held as `money` rounds it.
pub mod Balance
use openlms.Base.{
  ℕ, Bool, true, false, List, [], ◌∷◌, ◌++◌, map, String, filter, ltb, if◌then◌else◌,
}
use openlms.Base.Int.{ℤ, ◌+ℤ◌, ◌-ℤ◌, leb_ℤ, ltb_ℤ, sum}
use openlms.Payroll.Money.{zero_money, times_hours}
use openlms.Payroll.Tax.{
  TerMonthlyBracket, BpjsConfig, compute_pph21_ter_monthly, compute_bpjs_bundle,
}

pub data ComponentKind : Type 0 where
  additive subtractive : ComponentKind

pub record ComponentInput : Type 0 where
  pub code : String
  pub name : String
  pub kind : ComponentKind
  pub amount : ℤ
  pub is_taxable : Bool
  pub is_bpjs_applicable : Bool

pub record PayrollCalcConfig : Type 0 where
  pub umr : ℤ
  pub ter_monthly : List TerMonthlyBracket
  pub bpjs : BpjsConfig

-- The two warnings; the source prints them with their numbers.
pub data Warning : Type 0 where
  below_minimum : ℤ → ℤ → Warning
  no_income : Warning

pub record PayrollCalcResult : Type 0 where
  pub gross : ℤ
  pub taxable_gross : ℤ
  pub bpjs_base : ℤ
  pub pph21 : ℤ
  pub bpjs_kesehatan : ℤ
  pub bpjs_jht : ℤ
  pub bpjs_jp : ℤ
  pub other_deductions : ℤ
  pub total_deductions : ℤ
  pub net : ℤ
  pub below_umr : Bool
  pub warnings : List Warning

abbrev pub is_additive : ComponentKind → Bool
is_additive additive = true
is_additive subtractive = false

abbrev pub is_subtractive : ComponentKind → Bool
is_subtractive additive = false
is_subtractive subtractive = true

abbrev pub amounts : List ComponentInput → List ℤ
amounts = map (λ c. c.amount)

unfoldable pub warnings_of : ℤ → ℤ → ℤ → List Warning
warnings_of gross net umr =
    (if ltb_ℤ net umr then below_minimum net umr ∷ [] else [])
    ++ (if leb_ℤ gross zero_money then no_income ∷ [] else [])

unfoldable pub compute_payroll :
    List ComponentInput → List ComponentInput → PayrollCalcConfig → PayrollCalcResult
compute_payroll fixed variable config =
    let all_additive = filter (λ c. is_additive c.kind) (fixed ++ variable) in
    let all_subtractive = filter (λ c. is_subtractive c.kind) (fixed ++ variable) in
    let gross = sum (amounts all_additive) in
    let taxable_gross = sum (amounts (filter (λ c. c.is_taxable) all_additive)) in
    let bpjs_base = sum (amounts (filter (λ c. c.is_bpjs_applicable) fixed)) in
    let pph21 = compute_pph21_ter_monthly taxable_gross config.ter_monthly in
    let bpjs = compute_bpjs_bundle bpjs_base config.bpjs in
    let other_deductions = sum (amounts all_subtractive) in
    let total_deductions = sum (pph21 ∷ bpjs.total ∷ other_deductions ∷ []) in
    let net = gross -ℤ total_deductions in
    record {
      gross = gross;
      taxable_gross = taxable_gross;
      bpjs_base = bpjs_base;
      pph21 = pph21;
      bpjs_kesehatan = bpjs.kesehatan;
      bpjs_jht = bpjs.jht;
      bpjs_jp = bpjs.jp;
      other_deductions = other_deductions;
      total_deductions = total_deductions;
      net = net;
      below_umr = ltb_ℤ net config.umr;
      warnings = warnings_of gross net config.umr;
    }

-- A variable component: an additive, taxable amount per hour.
abbrev pub hourly : String → String → ℤ → ℕ → ComponentInput
hourly code name rate hours = record {
  code = code;
  name = name;
  kind = additive;
  amount = times_hours rate hours;
  is_taxable = true;
  is_bpjs_applicable = false;
}

pub record AttendanceVariableInput : Type 0 where
  pub honor_per_jam : ℤ
  pub total_jtm_hours : ℕ
  pub lembur_per_jam : ℤ
  pub total_lembur_hours : ℕ

unfoldable pub build_variable_components : AttendanceVariableInput → List ComponentInput
build_variable_components input =
    (if ltb 0 input.total_jtm_hours
      then hourly "HONOR_MENGAJAR" "Honor Mengajar" input.honor_per_jam input.total_jtm_hours ∷ []
      else [])
    ++ (if ltb 0 input.total_lembur_hours
        then hourly "LEMBUR" "Lembur" input.lembur_per_jam input.total_lembur_hours ∷ []
        else [])
