-- ===== src/Payroll/Calc/Balance.antt =====
-- The pay balances: `computePayroll` of apps/api/src/modules/payroll/calculator/payroll-calc.ts.
use openlms.Base.{◌≡◌, refl, ap, ◌⊎◌, inl, inr, List, [], ◌∷◌, ◌++◌, filter, arith}
use openlms.Base.Int.{
  ℤ, pos, pos_part, neg_part, ◌+ℤ◌, ◌-ℤ◌, sum, sum-cons, +ℤ_parts, -ℤ_parts, eq_of_parts, zero_add,
  -ℤ-cancel,
}
use openlms.Payroll.Tax.{compute_bpjs_bundle}
use openlms.Payroll.Calc.{
  ComponentKind, additive, subtractive, ComponentInput, PayrollCalcConfig, is_additive,
  is_subtractive, amounts, compute_payroll,
}

-- A component adds its amount, or takes it away.
abbrev pub signed_sum : List ComponentInput → ℤ
signed_sum [] = pos 0
signed_sum (c ∷ cs) = elim c.kind [
  | additive ↦ signed_sum cs +ℤ c.amount
  | subtractive ↦ signed_sum cs -ℤ c.amount
]

abbrev additions : List ComponentInput → ℤ
additions cs = sum (amounts (filter (λ c. is_additive c.kind) cs))

abbrev subtractions : List ComponentInput → ℤ
subtractions cs = sum (amounts (filter (λ c. is_subtractive c.kind) cs))

ComponentKind-cases : (k : ComponentKind) → (k ≡ additive) ⊎ (k ≡ subtractive)
ComponentKind-cases additive = inl refl
ComponentKind-cases subtractive = inr refl

additions-eq : (cs : List ComponentInput) → additions cs ≡ signed_sum cs +ℤ subtractions cs
unfolding ◌+ℤ◌
additions-eq [] = refl
additions-eq (c ∷ cs) =
    let rest = additions-eq cs in
    let a = additions cs in
    let s = subtractions cs in
    let n = signed_sum cs in
    elim (ComponentKind-cases c.kind) [
      | inl e ↦
          rw (e, sum-cons c.amount (amounts (filter (λ d. is_additive d.kind) cs)))
            (eq_of_parts (c.amount +ℤ a) ((n +ℤ c.amount) +ℤ s) (
              omega (
                arith,
                ap pos_part rest,
                ap neg_part rest,
                +ℤ_parts n s,
                +ℤ_parts c.amount a,
                +ℤ_parts n c.amount,
                +ℤ_parts (n +ℤ c.amount) s,
              )))
      | inr e ↦
          rw (e, sum-cons c.amount (amounts (filter (λ d. is_subtractive d.kind) cs)))
            (eq_of_parts a ((n -ℤ c.amount) +ℤ (c.amount +ℤ s)) (
              omega (
                arith,
                ap pos_part rest,
                ap neg_part rest,
                +ℤ_parts n s,
                +ℤ_parts c.amount s,
                -ℤ_parts n c.amount,
                +ℤ_parts (n -ℤ c.amount) (c.amount +ℤ s),
              )))
    ]

net-eq : (a n s p b : ℤ) → a ≡ n +ℤ s → (a -ℤ ((p +ℤ b) +ℤ s)) +ℤ (p +ℤ b) ≡ n
net-eq a n s p b h =
    let taken = p +ℤ b in
    let left = a -ℤ (taken +ℤ s) in
    eq_of_parts (left +ℤ taken) n (
      omega (
        arith,
        ap pos_part h,
        ap neg_part h,
        +ℤ_parts n s,
        +ℤ_parts taken s,
        -ℤ_parts a (taken +ℤ s),
        +ℤ_parts left taken,
      ))

-- The result of the calculator balances: the net pay and the deductions make up the gross pay; the
-- deductions are the tax, the three insurance shares and the subtractive components; and the net
-- pay with the tax and the shares added back is the signed sum of all components.
pub compute_payroll_balances :
    (fixed variable : List ComponentInput) (config : PayrollCalcConfig)
    → let r = compute_payroll fixed variable config in
      let taken = r.pph21 +ℤ ((r.bpjs_kesehatan +ℤ r.bpjs_jht) +ℤ r.bpjs_jp) in
      (r.net +ℤ r.total_deductions ≡ r.gross)
      × (r.total_deductions ≡ taken +ℤ r.other_deductions)
      × (r.net +ℤ taken ≡ signed_sum (fixed ++ variable))
unfolding compute_payroll compute_bpjs_bundle
compute_payroll_balances fixed variable config =
    let r = compute_payroll fixed variable config in
    let shares = (r.bpjs_kesehatan +ℤ r.bpjs_jht) +ℤ r.bpjs_jp in
    (
      -ℤ-cancel r.gross r.total_deductions,
      rw (zero_add r.pph21) refl,
      rw (zero_add r.pph21) (
          net-eq r.gross (signed_sum (fixed ++ variable)) r.other_deductions r.pph21 shares
            (additions-eq (fixed ++ variable))),
    )
