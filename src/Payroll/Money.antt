-- ===== src/Payroll/Money.antt =====
-- Money: apps/api/src/modules/payroll/calculator/money.ts. A `Decimal` that `money` has rounded is
-- the whole number of its hundredths; sums and differences of those are exact, and a product is
-- rounded once, half away from zero.
use openlms.Base.{ℕ, zero, suc, ◌+◌, ◌*◌, ◌/◌, Bool, true, false, if◌then◌else◌}
use openlms.Base.Int.{ℤ, pos, negsuc, pos_part, neg_part, ltb_ℤ}

abbrev pub zero_money : ℤ
zero_money = pos 0

abbrev pub abs : ℤ → ℕ
abs a = pos_part a + neg_part a

abbrev pub is_negative : ℤ → Bool
is_negative (pos _) = false
is_negative (negsuc _) = true

abbrev pub negated : ℕ → ℤ
negated zero = pos 0
negated (suc n) = negsuc n

abbrev pub with_sign : Bool → ℕ → ℤ
with_sign false n = pos n
with_sign true n = negated n

abbrev pub xor : Bool → Bool → Bool
xor true false = true
xor true true = false
xor false b = b

-- `a.times(rate).dividedBy(100).toDecimalPlaces(2, ROUND_HALF_UP)`, the rate in hundredths of a
-- percent
unfoldable pub times_percent : ℤ → ℤ → ℤ
times_percent a rate =
    with_sign (xor (is_negative a) (is_negative rate)) ((abs a * abs rate + 5000) / 10000)

-- `money(a.times(hours))`, the hours in hundredths
unfoldable pub times_hours : ℤ → ℕ → ℤ
times_hours a hours = with_sign (is_negative a) ((abs a * hours + 50) / 100)

-- `money(a).times(days)`
unfoldable pub times_days : ℤ → ℕ → ℤ
times_days a days = with_sign (is_negative a) (abs a * days)

abbrev pub is_positive : ℤ → Bool
is_positive a = ltb_ℤ zero_money a

abbrev pub clamp_to_zero : ℤ → ℤ
clamp_to_zero a = if ltb_ℤ a zero_money then zero_money else a
