-- ===== src/Payroll/Tax/Bounds.antt =====
-- Bounds on what the tax and insurance calculators of apps/api/src/modules/payroll/calculator take.
use native.Mathlib.Nat.{mul-le-mul_left, mul_comm}
use openlms.Base.{
  ℕ, ◌+◌, ◌*◌, ◌/◌, ◌≤◌, ◌≡◌, List, Option, none, some, find, arith, All, Option-cases, Bool-cases,
  inl, inr, find-eq-some, All-In,
}
use openlms.Base.Int.{ℤ, pos, negsuc, ◌≤ℤ◌, ◌<ℤ◌, ◌+ℤ◌, leb_ℤ, ltb_ℤ, +ℤ_parts, eq_of_parts}
use openlms.Payroll.Money.{zero_money, times_percent}
use openlms.Payroll.Tax.{
  TerMonthlyBracket, in_bracket, rate_of, compute_pph21_ter_monthly, BpjsContributionConfig, capped,
  compute_bpjs_contribution,
}

scaled_mono : (a b rate : ℕ) → a ≤ b → (a * rate + 5000) / 10000 ≤ (b * rate + 5000) / 10000
scaled_mono a b rate h =
    let grown : rate * a ≤ rate * b = mul-le-mul_left rate h in
    omega (arith, grown, mul_comm rate a, mul_comm rate b)

scaled_le : (a rate : ℕ) → rate ≤ 10000 → (a * rate + 5000) / 10000 ≤ a
scaled_le a rate h = let grown : a * rate ≤ a * 10000 = mul-le-mul_left a h in omega (arith, grown)

-- A rate between 0 and 100 percent.
abbrev pub IsRate : ℤ → Type 0
IsRate rate = (zero_money ≤ℤ rate) × (rate ≤ℤ pos 10000)

pub times_percent-bounds :
    (a rate : ℤ)
    → zero_money ≤ℤ a
    → IsRate rate
    → (zero_money ≤ℤ times_percent a rate) × (times_percent a rate ≤ℤ a)
unfolding times_percent
times_percent-bounds (pos a) (pos r) h k = ground (arith, scaled_le a r (omega (arith, k.1)))
times_percent-bounds (pos a) (negsuc r) h k = ground arith
times_percent-bounds (negsuc a) r h k = ground arith

pub times_percent-mono :
    (a b rate : ℤ)
    → zero_money ≤ℤ a
    → a ≤ℤ b
    → zero_money ≤ℤ rate
    → times_percent a rate ≤ℤ times_percent b rate
unfolding times_percent
times_percent-mono (pos a) (pos b) (pos r) h k l =
    ground (arith, scaled_mono a b r (omega (arith, k)))
times_percent-mono (pos a) (pos b) (negsuc r) h k l = ground arith
times_percent-mono (pos a) (negsuc b) r h k l = ground arith
times_percent-mono (negsuc a) b r h k l = ground arith

pub rate_of-IsRate :
    (gross : ℤ) (brackets : List TerMonthlyBracket)
    → All (λ b. IsRate b.rate_percent) brackets
    → IsRate (rate_of (find (in_bracket gross) brackets))
rate_of-IsRate gross brackets h = elim (Option-cases (find (in_bracket gross) brackets)) [
  | inl e ↦ rw e (omega arith, omega arith)
  | inr (b, e) ↦ rw e (
      All-In (λ b. IsRate b.rate_percent) b brackets h
        (find-eq-some (in_bracket gross) brackets e).0)
]

-- The monthly tax on a gross pay of zero or more lies between zero and the gross pay, where each
-- bracket's rate is between 0 and 100 percent.
pub pph21-bounds :
    (gross : ℤ) (brackets : List TerMonthlyBracket)
    → zero_money ≤ℤ gross
    → All (λ b. IsRate b.rate_percent) brackets
    → (zero_money ≤ℤ compute_pph21_ter_monthly gross brackets)
      × (compute_pph21_ter_monthly gross brackets ≤ℤ gross)
unfolding compute_pph21_ter_monthly
pph21-bounds gross brackets h k = ground (
  arith,
  times_percent-bounds gross (rate_of (find (in_bracket gross) brackets)) h
      (rate_of-IsRate gross brackets k),
)

capped-bounds :
    (base : ℤ) (ceiling : Option ℤ)
    → zero_money ≤ℤ base
    → (zero_money ≤ℤ capped base ceiling) × (capped base ceiling ≤ℤ base)
capped-bounds base none h = (h, omega arith)
capped-bounds base (some top) h = ground arith

capped-mono : (a b : ℤ) (ceiling : Option ℤ) → a ≤ℤ b → capped a ceiling ≤ℤ capped b ceiling
capped-mono a b none h = h
capped-mono a b (some top) h = ground arith

-- An employee's share at a rate between 0 and 100 percent lies between zero and the base, and it
-- grows with the base.
pub bpjs_contribution-bounds :
    (a b : ℤ) (config : BpjsContributionConfig)
    → zero_money ≤ℤ a
    → a ≤ℤ b
    → IsRate config.employee_share_percent
    → (zero_money ≤ℤ compute_bpjs_contribution a config)
      × (compute_bpjs_contribution a config ≤ℤ a)
      × (compute_bpjs_contribution a config ≤ℤ compute_bpjs_contribution b config)
unfolding compute_bpjs_contribution
bpjs_contribution-bounds a b config h k r =
    let rate = config.employee_share_percent in
    let (low, high) = capped-bounds a config.ceiling h in
    let (low', high') = times_percent-bounds (capped a config.ceiling) rate low r in
    let grows =
      times_percent-mono (capped a config.ceiling) (capped b config.ceiling) rate low
        (capped-mono a b config.ceiling k) r.0 in
    ground arith

abbrev pub with_ceiling : ℤ → ℤ → BpjsContributionConfig
with_ceiling rate top = record { employee_share_percent = rate; ceiling = some top }

at_ceiling :
    (base top rate : ℤ)
    → zero_money <ℤ top
    → top ≤ℤ base
    → compute_bpjs_contribution base (with_ceiling rate top) ≡ times_percent top rate
unfolding compute_bpjs_contribution
at_ceiling base top rate h k = elim (Bool-cases (ltb_ℤ top base)) [
  | inl e ↦ ground arith
  | inr e ↦ let same : base ≡ top = eq_of_parts base top (ground arith) in ground arith
]

-- With a positive ceiling and a rate between 0 and 100 percent, the share is at most the share of
-- the ceiling, whatever the base, and it is that share for every base that reaches the ceiling.
bpjs_contribution_ceiling :
    (base top rate : ℤ) (extra : ℕ)
    → zero_money <ℤ top
    → IsRate rate
    → (compute_bpjs_contribution base (with_ceiling rate top) ≤ℤ times_percent top rate)
      × (compute_bpjs_contribution (top +ℤ pos extra) (with_ceiling rate top)
          ≡ times_percent top rate)
unfolding compute_bpjs_contribution
bpjs_contribution_ceiling base top rate extra h r = (lower, reached)
  where
    lower : compute_bpjs_contribution base (with_ceiling rate top) ≤ℤ times_percent top rate
    lower = elim (Bool-cases (leb_ℤ base zero_money)) [
      | inl e ↦ rw e (times_percent-bounds top rate (omega (arith, h)) r).0
      | inr e ↦
          rw e
            (times_percent-mono (capped base (some top)) top rate (ground arith) (ground arith) r.0)
    ]

    reached :
        compute_bpjs_contribution (top +ℤ pos extra) (with_ceiling rate top)
        ≡ times_percent top rate
    reached = at_ceiling (top +ℤ pos extra) top rate h (omega (arith, +ℤ_parts top (pos extra)))
