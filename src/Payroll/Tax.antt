-- ===== src/Payroll/Tax.antt =====
-- Income tax and social insurance: calculator/tax.ts and calculator/bpjs.ts of
-- apps/api/src/modules/payroll. A rate is in hundredths of a percent.
pub mod Bounds
use openlms.Base.{Bool, ◌&&◌, String, ◌=ₛ◌, List, Option, none, some, find, if◌then◌else◌}
use openlms.Base.Int.{ℤ, pos, ◌+ℤ◌, leb_ℤ, ltb_ℤ}
use openlms.Payroll.Money.{zero_money, times_percent}

pub record TerMonthlyBracket : Type 0 where
  pub min_gross : ℤ
  pub max_gross : Option ℤ
  pub rate_percent : ℤ

-- `b.maxGross === null || gross.lt(b.maxGross)`
abbrev pub below : ℤ → Option ℤ → Bool
below gross none = Bool.true
below gross (some top) = ltb_ℤ gross top

abbrev pub in_bracket : ℤ → TerMonthlyBracket → Bool
in_bracket gross b = leb_ℤ b.min_gross gross && below gross b.max_gross

-- `bracket?.ratePercent ?? ZERO`
abbrev pub rate_of : Option TerMonthlyBracket → ℤ
rate_of none = zero_money
rate_of (some b) = b.rate_percent

unfoldable pub compute_pph21_ter_monthly : ℤ → List TerMonthlyBracket → ℤ
compute_pph21_ter_monthly gross brackets =
    if leb_ℤ gross zero_money
    then zero_money
    else times_percent gross (rate_of (find (in_bracket gross) brackets))

-- TER per category, and the choice of `config.terMonthly[terCategory] ?? config.terMonthly.A`
pub record TerMonthly : Type 0 where
  pub a : List TerMonthlyBracket
  pub b : List TerMonthlyBracket
  pub c : List TerMonthlyBracket

abbrev pub ter_of : String → TerMonthly → List TerMonthlyBracket
ter_of category table =
    if category =ₛ "B" then table.b else if category =ₛ "C" then table.c else table.a

pub record TerDailyBracket : Type 0 where
  pub min_daily : ℤ
  pub max_daily : Option ℤ
  pub rate_percent : ℤ

pub record BpjsContributionConfig : Type 0 where
  pub employee_share_percent : ℤ
  pub ceiling : Option ℤ

-- A ceiling of zero or less is none.
abbrev pub capped : ℤ → Option ℤ → ℤ
capped base none = base
capped base (some top) = if ltb_ℤ zero_money top && ltb_ℤ top base then top else base

unfoldable pub compute_bpjs_contribution : ℤ → BpjsContributionConfig → ℤ
compute_bpjs_contribution base config =
    if leb_ℤ base zero_money
    then zero_money
    else times_percent (capped base config.ceiling) config.employee_share_percent

pub record BpjsConfig : Type 0 where
  pub kesehatan : BpjsContributionConfig
  pub jht : BpjsContributionConfig
  pub jp : BpjsContributionConfig

pub record BpjsBundle : Type 0 where
  pub kesehatan : ℤ
  pub jht : ℤ
  pub jp : ℤ
  pub total : ℤ

unfoldable pub compute_bpjs_bundle : ℤ → BpjsConfig → BpjsBundle
compute_bpjs_bundle base config =
    let kesehatan = compute_bpjs_contribution base config.kesehatan in
    let jht = compute_bpjs_contribution base config.jht in
    let jp = compute_bpjs_contribution base config.jp in
    record { kesehatan = kesehatan; jht = jht; jp = jp; total = (kesehatan +ℤ jht) +ℤ jp }
