-- ===== src/Finance/LateFee/Bounds.antt =====
-- The late fee is bounded, and grows with the days:
-- apps/api/src/modules/finance/calculator/late-fee.ts.
use native.Mathlib.Nat.{mul-le-mul_left}
use openlms.Base.{◌≡◌, ℕ, ◌-◌, ◌*◌, ◌≤◌, Option, none, some, arith}
use openlms.Base.Int.{ℤ, pos, negsuc, pos_part, ◌≤ℤ◌, eq_of_parts}
use openlms.Payroll.Money.{zero_money, clamp_to_zero}
use openlms.Finance.Allocation.{lesser}
use openlms.Finance.LateFee.{
  LateFeeRuleType, nominal, persen_per_hari, LateFeeRule, mul, hundredth, chargeable_days, uncapped,
  cap, compute_late_fee,
}

mul-le : (a b c : ℤ) → zero_money ≤ℤ a → zero_money ≤ℤ b → b ≤ℤ c → mul a b ≤ℤ mul a c
unfolding mul
mul-le (pos a) (pos b) (pos c) h k l =
    let grown : a * b ≤ a * c = mul-le-mul_left a (omega (arith, l)) in omega (arith, grown)
mul-le (pos a) (pos b) (negsuc c) h k l = ground arith
mul-le (pos a) (negsuc b) c h k l = ground arith
mul-le (negsuc a) b c h k l = ground arith

mul-nonneg : (a b : ℤ) → zero_money ≤ℤ a → zero_money ≤ℤ b → zero_money ≤ℤ mul a b
unfolding mul
mul-nonneg (pos a) (pos b) h k = omega arith
mul-nonneg (pos a) (negsuc b) h k = ground arith
mul-nonneg (negsuc a) b h k = ground arith

hundredth-le : (a b : ℤ) → zero_money ≤ℤ a → a ≤ℤ b → hundredth a ≤ℤ hundredth b
unfolding hundredth
hundredth-le (pos a) (pos b) h k = omega (arith, k)
hundredth-le (pos a) (negsuc b) h k = ground arith
hundredth-le (negsuc a) b h k = ground arith

uncapped-le :
    (type : LateFeeRuleType) (value overdue : ℤ) (charge more : ℕ)
    → zero_money ≤ℤ value
    → zero_money ≤ℤ overdue
    → charge ≤ more
    → uncapped type value overdue charge ≤ℤ uncapped type value overdue more
unfolding uncapped
uncapped-le nominal value overdue charge more v o h = omega arith
uncapped-le persen_per_hari value overdue charge more v o h =
    let rate = mul value (pos 100) in
    let rate_nonneg = mul-nonneg value (pos 100) v (omega arith) in
    let charged =
      mul-le rate (pos (charge * 100)) (pos (more * 100)) rate_nonneg (omega arith)
        (omega (arith, h)) in
    let charged_nonneg = mul-nonneg rate (pos (charge * 100)) rate_nonneg (omega arith) in
    hundredth-le (mul overdue (mul rate (pos (charge * 100))))
      (mul overdue (mul rate (pos (more * 100))))
      (mul-nonneg overdue (mul rate (pos (charge * 100))) o charged_nonneg)
      (mul-le overdue (mul rate (pos (charge * 100))) (mul rate (pos (more * 100))) o charged_nonneg
        charged)

cap-le : (top : Option ℤ) (a b : ℤ) → a ≤ℤ b → (cap top a).0 ≤ℤ (cap top b).0
cap-le none a b h = h
cap-le (some top) a b h = ground arith

-- For a value and an overdue amount of zero or more, the fee is never negative, never falls when
-- more days pass, and is zero for every number of days within the days of grace.
late_fee-bounds :
    (rule : LateFeeRule) (overdue : ℤ) (days later : ℕ)
    → zero_money ≤ℤ rule.value
    → zero_money ≤ℤ overdue
    → days ≤ later
    → (zero_money ≤ℤ (compute_late_fee rule overdue days).amount)
      × ((compute_late_fee rule overdue days).amount
          ≤ℤ (compute_late_fee rule overdue later).amount)
      × ((compute_late_fee rule overdue (pos_part rule.grace_days - days)).amount ≡ zero_money)
unfolding compute_late_fee chargeable_days
late_fee-bounds rule overdue days later v o h =
    let grace = pos_part rule.grace_days in
    let grows =
      cap-le rule.max_amount (uncapped rule.fee_type rule.value overdue (days - grace))
        (uncapped rule.fee_type rule.value overdue (later - grace))
        (uncapped-le rule.fee_type rule.value overdue (days - grace) (later - grace) v o
          (omega (arith, h))) in
    (ground arith, ground (arith, grows), ground arith)

-- A highest fee caps it: the fee of a rule with one is the lesser of the fee that the rule has
-- without, and the highest fee or zero if that is negative.
late_fee_capped :
    (rule : LateFeeRule) (top overdue : ℤ) (days : ℕ)
    → (compute_late_fee (record rule { max_amount = some top }) overdue days).amount
      ≡ lesser
          (compute_late_fee (record rule { max_amount = none }) overdue days).amount
          (clamp_to_zero top)
unfolding compute_late_fee
late_fee_capped rule top overdue days =
    let fee = uncapped rule.fee_type rule.value overdue (chargeable_days days rule.grace_days) in
    eq_of_parts _ _ (ground arith)
