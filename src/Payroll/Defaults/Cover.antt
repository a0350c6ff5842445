-- ===== src/Payroll/Defaults/Cover.antt =====
-- The default brackets leave no gap: apps/api/src/modules/payroll/calculator/config-defaults.ts.
use openlms.Base.{
  ℕ, suc, ◌*◌, ◌≤◌, ◌≡◌, refl, arith, Bool, true, false, ◌&&◌, List, [], ◌∷◌, none, some, ◌==◌,
  ◌=ₛ◌, String, Bool-cases, inl, inr, ltb, leb, count, All,
}
use openlms.Base.Int.{pos, ◌≤ℤ◌}
use openlms.Payroll.Tax.{TerMonthlyBracket, in_bracket, ter_of, compute_pph21_ter_monthly}
use openlms.Payroll.Tax.Bounds.{IsRate, pph21-bounds}
use openlms.Payroll.Defaults.{
  Row, default_ter, to_brackets, ter_monthly_a, ter_monthly_b, ter_monthly_c,
}

-- Each row starts where the one before it ends, and only the last has no upper bound.
abbrev chained : ℕ → List Row → Bool
chained start [] = false
chained start ((low, none, rate) ∷ []) = low == start
chained start ((low, none, rate) ∷ r ∷ rows) = false
chained start ((low, some top, rate) ∷ rows) = low == start && ltb low top && chained top rows

abbrev matches : ℕ → List Row → ℕ
matches gross rows = count (in_bracket (pos gross)) (to_brackets rows)

count-outside :
    (start gross : ℕ) (rows : List Row)
    → chained start rows ≡ true
    → suc gross ≤ start * 100
    → matches gross rows ≡ 0
unfolding to_brackets
count-outside start gross [] h k = refl
count-outside start gross ((low, none, rate) ∷ []) h k = ground arith
count-outside start gross ((low, none, rate) ∷ r ∷ rows) h k = ground arith
count-outside start gross ((low, some top, rate) ∷ rows) h k =
    let step : chained top rows ≡ true = ground arith in
    let more : suc gross ≤ top * 100 = ground arith in
    ground (arith, count-outside top gross rows step more)

count-inside :
    (start gross : ℕ) (rows : List Row)
    → chained start rows ≡ true
    → start * 100 ≤ gross
    → matches gross rows ≡ 1
unfolding to_brackets
count-inside start gross [] h k = ground arith
count-inside start gross ((low, none, rate) ∷ []) h k = ground arith
count-inside start gross ((low, none, rate) ∷ r ∷ rows) h k = ground arith
count-inside start gross ((low, some top, rate) ∷ rows) h k =
    let step : chained top rows ≡ true = ground arith in
    elim (Bool-cases (leb (top * 100) gross)) [
      | inl e ↦ ground (arith, count-inside top gross rows step (ground arith))
      | inr e ↦ ground (arith, count-outside top gross rows step (ground arith))
    ]

abbrev rates : List Row → Bool
rates [] = true
rates ((low, top, rate) ∷ rows) = leb rate 10000 && rates rows

IsRate-rates :
    (rows : List Row) → rates rows ≡ true → All (λ b. IsRate b.rate_percent) (to_brackets rows)
unfolding to_brackets
IsRate-rates [] h = tt
IsRate-rates ((low, top, rate) ∷ rows) h =
    ((omega arith, ground arith), IsRate-rates rows (ground arith))

TableTaxes : ℕ → List TerMonthlyBracket → Type 0
TableTaxes gross table =
    (count (in_bracket (pos gross)) table ≡ 1)
    × (compute_pph21_ter_monthly (pos gross) table ≤ℤ pos gross)

table_taxes :
    (gross : ℕ) (rows : List Row)
    → chained 0 rows ≡ true
    → rates rows ≡ true
    → TableTaxes gross (to_brackets rows)
unfolding TableTaxes
table_taxes gross rows h k = (
  count-inside 0 gross rows h (omega arith),
  (pph21-bounds (pos gross) (to_brackets rows) (omega arith) (IsRate-rates rows k)).1,
)

-- In the default configuration, whatever text a member of staff has for a tax category, every gross
-- pay of zero or more falls in exactly one monthly bracket, and its tax is at most the gross pay.
default_ter_covers :
    (category : String) (gross : ℕ)
    → (count (in_bracket (pos gross)) (ter_of category default_ter) ≡ 1)
      × (compute_pph21_ter_monthly (pos gross) (ter_of category default_ter) ≤ℤ pos gross)
unfolding TableTaxes
default_ter_covers category gross = elim (Bool-cases (category =ₛ "B")) [
  | inl e ↦ rw e (table_taxes gross ter_monthly_b refl refl)
  | inr e ↦ elim (Bool-cases (category =ₛ "C")) [
    | inl f ↦ rw (e, f) (table_taxes gross ter_monthly_c refl refl)
    | inr f ↦ rw (e, f) (table_taxes gross ter_monthly_a refl refl)
  ]
]
