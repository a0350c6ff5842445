-- ===== src/Finance/LateFee.antt =====
-- The fee for a late payment: apps/api/src/modules/finance/calculator/late-fee.ts, with `mul` of
-- money.ts. Days are whole; a rate is in hundredths of a percent.
pub mod Bounds
use openlms.Base.{ℕ, ◌+◌, ◌-◌, ◌*◌, ◌/◌, Bool, true, false, Option, none, some, leb, if◌then◌else◌}
use openlms.Base.Int.{ℤ, pos, pos_part, ltb_ℤ}
use openlms.Payroll.Money.{zero_money, abs, is_negative, with_sign, xor, clamp_to_zero}

pub data LateFeeRuleType : Type 0 where
  nominal persen_per_hari : LateFeeRuleType

pub record LateFeeRule : Type 0 where
  pub grace_days : ℤ
  pub fee_type : LateFeeRuleType
  pub value : ℤ
  pub max_amount : Option ℤ

pub record LateFeeResult : Type 0 where
  pub amount : ℤ
  pub chargeable_days : ℕ
  pub capped : Bool

-- `mul(a, b)`
unfoldable pub mul : ℤ → ℤ → ℤ
mul a b = with_sign (xor (is_negative a) (is_negative b)) ((abs a * abs b + 50) / 100)

-- `a.dividedBy(100).toDecimalPlaces(2, ROUND_HALF_UP)`
unfoldable pub hundredth : ℤ → ℤ
hundredth a = with_sign (is_negative a) ((abs a + 50) / 100)

unfoldable pub chargeable_days : ℕ → ℤ → ℕ
chargeable_days days_late grace_days = days_late - pos_part grace_days

unfoldable pub uncapped : LateFeeRuleType → ℤ → ℤ → ℕ → ℤ
uncapped nominal value overdue charge = value
uncapped persen_per_hari value overdue charge =
    hundredth (mul overdue (mul (mul value (pos 100)) (pos (charge * 100))))

-- the cap of `maxAmount`, and whether it was used
abbrev pub cap : Option ℤ → ℤ → ℤ × Bool
cap none amount = (amount, false)
cap (some top) amount = if ltb_ℤ top amount then (top, true) else (amount, false)

unfoldable pub compute_late_fee : LateFeeRule → ℤ → ℕ → LateFeeResult
compute_late_fee rule overdue days_late =
    let charge = chargeable_days days_late rule.grace_days in
    let (amount, was_capped) =
      cap rule.max_amount (uncapped rule.fee_type rule.value overdue charge) in
    if leb charge 0
    then record { amount = zero_money; chargeable_days = 0; capped = false }
    else record { amount = clamp_to_zero amount; chargeable_days = charge; capped = was_capped }
