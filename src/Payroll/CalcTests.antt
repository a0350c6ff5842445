-- ===== src/Payroll/CalcTests.antt =====
-- Runs of the payroll calculators at concrete inputs.
use openlms.Base.{◌≡◌, refl, true, false, [], ◌∷◌, String, arith}
use openlms.Base.Dict.{text_keys}
use openlms.Base.Int.{ℤ, pos, ◌+ℤ◌, ◌-ℤ◌, ◌≤ℤ◌}
use openlms.Payroll.Money.{zero_money, times_percent}
use openlms.Payroll.Tax.{compute_bpjs_bundle, compute_pph21_ter_monthly, compute_bpjs_contribution}
use openlms.Payroll.Tax.Bounds.{bpjs_contribution-bounds}
use openlms.Payroll.Defaults.{default_ter, default_bpjs, to_brackets}
use openlms.Payroll.Calc.{ComponentInput, additive, subtractive, PayrollCalcConfig, compute_payroll}
use openlms.Payroll.Calc.Balance.{compute_payroll_balances, signed_sum}

abbrev pay : String → ℤ → ComponentInput
pay code amount = record {
  code = code;
  name = code;
  kind = additive;
  amount = amount;
  is_taxable = true;
  is_bpjs_applicable = true;
}

abbrev loan : ComponentInput
loan = record {
  code = "PINJAMAN";
  name = "Pinjaman";
  kind = subtractive;
  amount = pos 20000000;
  is_taxable = false;
  is_bpjs_applicable = false;
}

abbrev calc_config : PayrollCalcConfig
calc_config = record { umr = pos 250000000; ter_monthly = default_ter.a; bpjs = default_bpjs }

-- 6.000.000 gross: tax 45.000, insurance 60.000 + 120.000 + 60.000, loan 200.000
compute_payroll-run :
    (compute_payroll (pay "GAJI_POKOK" (pos 600000000) ∷ loan ∷ []) [] calc_config).net
    ≡ pos 551500000
unfolding compute_payroll compute_pph21_ter_monthly compute_bpjs_contribution compute_bpjs_bundle
    times_percent to_brackets ◌+ℤ◌ ◌-ℤ◌
compute_payroll-run = refl

compute_payroll_balances_example :
    let r =
      compute_payroll
        (pay "GAJI_POKOK" (pos 600000000) ∷ loan ∷ [])
        (pay "LEMBUR" (pos 5000000) ∷ [])
        calc_config in
    let taken = r.pph21 +ℤ ((r.bpjs_kesehatan +ℤ r.bpjs_jht) +ℤ r.bpjs_jp) in
    (r.net +ℤ r.total_deductions ≡ r.gross)
    × (r.total_deductions ≡ taken +ℤ r.other_deductions)
    × (r.net +ℤ taken
        ≡ signed_sum (pay "GAJI_POKOK" (pos 600000000) ∷ loan ∷ pay "LEMBUR" (pos 5000000) ∷ []))
compute_payroll_balances_example =
    compute_payroll_balances (pay "GAJI_POKOK" (pos 600000000) ∷ loan ∷ [])
      (pay "LEMBUR" (pos 5000000) ∷ []) calc_config

bpjs_contribution-bounds_example :
    (zero_money ≤ℤ compute_bpjs_contribution (pos 500000000) default_bpjs.kesehatan)
    × (compute_bpjs_contribution (pos 500000000) default_bpjs.kesehatan ≤ℤ pos 500000000)
    × (compute_bpjs_contribution (pos 500000000) default_bpjs.kesehatan
        ≤ℤ compute_bpjs_contribution (pos 2000000000) default_bpjs.kesehatan)
bpjs_contribution-bounds_example =
    bpjs_contribution-bounds (pos 500000000) (pos 2000000000) default_bpjs.kesehatan (omega arith)
      (omega arith) (omega arith, omega arith)
