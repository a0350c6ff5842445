-- ===== src/Asset/Depreciation.antt =====
-- Straight-line depreciation: apps/api/src/modules/asset/calculator/depreciation.ts. Money is in
-- hundredths; months are whole.
pub mod Bounds
use openlms.Base.{ℕ, ◌+◌, ◌*◌, ◌/◌, Bool, Option, none, some, ltb, if◌then◌else◌}
use openlms.Base.Int.{ℤ, pos, pos_part, ◌-ℤ◌, ltb_ℤ, leb_ℤ}

pub record DepreciationInput : Type 0 where
  pub cost : ℤ
  pub useful_life_months : ℕ
  pub months_elapsed : ℕ
  pub residual_value : Option ℤ

pub record DepreciationResult : Type 0 where
  pub monthly_depreciation : ℕ
  pub accumulated_depreciation : ℕ
  pub book_value : ℤ
  pub fully_depreciated : Bool

-- `input.residualValue ?? 0`
abbrev pub residual_of : Option ℤ → ℤ
residual_of none = pos 0
residual_of (some value) = value

-- `Math.max(1, ...)`
abbrev pub at_least_one : ℕ → ℕ
at_least_one n = if ltb n 1 then 1 else n

-- The depreciable base over the life, rounded half up; a base of zero or less gives zero.
unfoldable pub monthly_of : ℤ → ℕ → ℕ
monthly_of base life = (2 * pos_part base + life) / (2 * life)

unfoldable pub calculate_depreciation : DepreciationInput → DepreciationResult
calculate_depreciation input =
    let residual = residual_of input.residual_value in
    let monthly = monthly_of (input.cost -ℤ residual) (at_least_one input.useful_life_months) in
    let accumulated = monthly * input.months_elapsed in
    let left = input.cost -ℤ pos accumulated in
    let book_value = if ltb_ℤ left residual then residual else left in
    record {
      monthly_depreciation = monthly;
      accumulated_depreciation = accumulated;
      book_value = book_value;
      fully_depreciated = leb_ℤ book_value residual;
    }
