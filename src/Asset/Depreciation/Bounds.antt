-- ===== src/Asset/Depreciation/Bounds.antt =====
-- Bounds on the book value: apps/api/src/modules/asset/calculator/depreciation.ts.
use native.Mathlib.Nat.{mul-le-mul_left, mul_comm, lt-mul-div-succ}
use openlms.Base.{◌≡◌, ℕ, ◌+◌, ◌*◌, ◌/◌, ◌≤◌, ◌<◌, arith, if◌then◌else◌}
use openlms.Base.Int.{ℤ, pos, pos_part, ◌+ℤ◌, ◌-ℤ◌, ◌≤ℤ◌, ltb_ℤ, +ℤ_parts, -ℤ_parts}
use openlms.Asset.Depreciation.{
  DepreciationInput, residual_of, at_least_one, monthly_of, calculate_depreciation,
}

-- An asset that cost no less than its residual value: its book value lies between the two, and it
-- never rises as months pass.
book_value-bounds :
    (input : DepreciationInput) (months : ℕ)
    → residual_of input.residual_value ≤ℤ input.cost
    → input.months_elapsed ≤ months
    → let now = (calculate_depreciation input).book_value in
      (residual_of input.residual_value ≤ℤ now)
      × (now ≤ℤ input.cost)
      × ((calculate_depreciation (record input { months_elapsed = months })).book_value ≤ℤ now)
unfolding calculate_depreciation
book_value-bounds input months h k =
    let monthly =
      monthly_of (input.cost -ℤ residual_of input.residual_value)
        (at_least_one input.useful_life_months) in
    let more : monthly * input.months_elapsed ≤ monthly * months = mul-le-mul_left monthly k in
    (
      ground (arith, -ℤ_parts input.cost (pos (monthly * input.months_elapsed))),
      ground (arith, -ℤ_parts input.cost (pos (monthly * input.months_elapsed))),
      ground (
        arith,
        more,
        -ℤ_parts input.cost (pos (monthly * input.months_elapsed)),
        -ℤ_parts input.cost (pos (monthly * months)),
      ),
    )

abbrev left_or : ℤ → ℤ → ℤ
left_or left residual = if ltb_ℤ left residual then residual else left

monthly_of-low :
    (base : ℤ) (life : ℕ) → 0 < life → 2 * pos_part base ≤ 2 * (monthly_of base life * life) + life
unfolding monthly_of
monthly_of-low base life h =
    let q = (2 * pos_part base + life) / (2 * life) in
    let bound : 2 * pos_part base + life < (2 * life) * (q + 1) =
      lt-mul-div-succ (2 * pos_part base + life) (omega (arith, h)) in
    let split : (2 * life) * (q + 1) ≡ 2 * (q * life) + 2 * life = omega (arith, mul_comm life q) in
    omega (arith, bound, split)

-- Where an asset of a life of at least one month that cost no less than its residual value has
-- reached the end of its life, the book value is above the residual value by at most half a
-- hundredth for every month of the life, which the rounding of the monthly share leaves.
end_of_life-bounds :
    (input : DepreciationInput)
    → residual_of input.residual_value ≤ℤ input.cost
    → 0 < input.useful_life_months
    → input.months_elapsed ≡ input.useful_life_months
    → let now = (calculate_depreciation input).book_value in
      let residual = residual_of input.residual_value in
      (now +ℤ now) ≤ℤ ((residual +ℤ residual) +ℤ pos input.useful_life_months)
unfolding calculate_depreciation
end_of_life-bounds input h l e =
    let life = input.useful_life_months in
    let residual = residual_of input.residual_value in
    let base = input.cost -ℤ residual in
    let same : at_least_one life ≡ life = ground arith in
    let paid = monthly_of base life * life in
    let now = left_or (input.cost -ℤ pos paid) residual in
    rw (same, e)
      (ground (
        arith,
        monthly_of-low base life l,
        -ℤ_parts input.cost residual,
        -ℤ_parts input.cost (pos paid),
        +ℤ_parts now now,
        +ℤ_parts residual residual,
        +ℤ_parts (residual +ℤ residual) (pos life),
      ))
