-- ===== src/Payroll/Defaults.antt =====
-- The default table of rates: apps/api/src/modules/payroll/calculator/config-defaults.ts. A row has
-- its bounds in rupiah and its rate in hundredths of a percent.
pub mod Cover
use openlms.Base.{ℕ, ◌*◌, List, [], ◌∷◌, map, Option, none, some}
use openlms.Base.Int.{ℤ, pos}
use openlms.Payroll.Tax.{TerMonthlyBracket, TerMonthly, TerDailyBracket, BpjsConfig}

abbrev pub Row : Type 0
Row = ℕ × Option ℕ × ℕ

-- `d(v)`, in hundredths of a rupiah
abbrev pub decimal : ℕ → ℤ
decimal v = pos (v * 100)

abbrev pub decimal_or_null : Option ℕ → Option ℤ
decimal_or_null none = none
decimal_or_null (some v) = some (decimal v)

unfoldable pub to_brackets : List Row → List TerMonthlyBracket
to_brackets = map (λ r. record {
  min_gross = decimal r.0;
  max_gross = decimal_or_null r.1;
  rate_percent = pos r.2;
})

unfoldable pub to_daily_brackets : List Row → List TerDailyBracket
to_daily_brackets = map (λ r. record {
  min_daily = decimal r.0;
  max_daily = decimal_or_null r.1;
  rate_percent = pos r.2;
})

abbrev pub ter_monthly_a : List Row
ter_monthly_a =
    (0, some 5400000, 0)
    ∷ (5400000, some 5650000, 25)
    ∷ (5650000, some 5950000, 50)
    ∷ (5950000, some 6300000, 75)
    ∷ (6300000, some 6750000, 100)
    ∷ (6750000, some 7500000, 125)
    ∷ (7500000, some 8550000, 150)
    ∷ (8550000, some 9650000, 175)
    ∷ (9650000, some 10050000, 200)
    ∷ (10050000, some 10350000, 225)
    ∷ (10350000, some 10700000, 250)
    ∷ (10700000, some 11050000, 300)
    ∷ (11050000, some 11650000, 350)
    ∷ (11650000, some 12500000, 400)
    ∷ (12500000, some 13250000, 500)
    ∷ (13250000, some 13700000, 600)
    ∷ (13700000, some 14075000, 700)
    ∷ (14075000, some 14575000, 800)
    ∷ (14575000, some 15050000, 900)
    ∷ (15050000, some 15575000, 1000)
    ∷ (15575000, some 16350000, 1100)
    ∷ (16350000, some 17050000, 1200)
    ∷ (17050000, some 17575000, 1300)
    ∷ (17575000, some 18075000, 1400)
    ∷ (18075000, some 18575000, 1500)
    ∷ (18575000, some 19075000, 1600)
    ∷ (19075000, some 19575000, 1700)
    ∷ (19575000, some 20075000, 1800)
    ∷ (20075000, some 20575000, 1900)
    ∷ (20575000, some 21075000, 2000)
    ∷ (21075000, some 21575000, 2100)
    ∷ (21575000, some 22075000, 2200)
    ∷ (22075000, some 22575000, 2300)
    ∷ (22575000, some 23075000, 2400)
    ∷ (23075000, some 23575000, 2500)
    ∷ (23575000, some 24075000, 2600)
    ∷ (24075000, some 24575000, 2700)
    ∷ (24575000, some 25075000, 2800)
    ∷ (25075000, some 25575000, 2900)
    ∷ (25575000, some 26075000, 3000)
    ∷ (26075000, some 26575000, 3100)
    ∷ (26575000, some 27075000, 3200)
    ∷ (27075000, some 27575000, 3300)
    ∷ (27575000, some 28075000, 3400)
    ∷ (28075000, none, 3500)
    ∷ []

abbrev pub ter_monthly_b : List Row
ter_monthly_b =
    (0, some 6200000, 0)
    ∷ (6200000, some 6500000, 25)
    ∷ (6500000, some 6850000, 50)
    ∷ (6850000, some 7350000, 75)
    ∷ (7350000, some 7800000, 100)
    ∷ (7800000, some 8800000, 125)
    ∷ (8800000, some 9800000, 150)
    ∷ (9800000, some 10700000, 175)
    ∷ (10700000, some 11050000, 200)
    ∷ (11050000, some 11600000, 225)
    ∷ (11600000, some 12050000, 250)
    ∷ (12050000, some 12950000, 300)
    ∷ (12950000, some 13650000, 350)
    ∷ (13650000, some 14650000, 400)
    ∷ (14650000, some 15150000, 500)
    ∷ (15150000, some 16200000, 600)
    ∷ (16200000, some 16950000, 700)
    ∷ (16950000, some 17950000, 800)
    ∷ (17950000, some 18650000, 900)
    ∷ (18650000, some 19600000, 1000)
    ∷ (19600000, some 20400000, 1100)
    ∷ (20400000, some 21350000, 1200)
    ∷ (21350000, some 22150000, 1300)
    ∷ (22150000, some 23150000, 1400)
    ∷ (23150000, some 24000000, 1500)
    ∷ (24000000, some 25050000, 1600)
    ∷ (25050000, some 26000000, 1700)
    ∷ (26000000, some 26950000, 1800)
    ∷ (26950000, some 28000000, 1900)
    ∷ (28000000, some 29000000, 2000)
    ∷ (29000000, some 30000000, 2100)
    ∷ (30000000, some 31000000, 2200)
    ∷ (31000000, some 32000000, 2300)
    ∷ (32000000, some 33000000, 2400)
    ∷ (33000000, some 34000000, 2500)
    ∷ (34000000, some 35000000, 2600)
    ∷ (35000000, some 36000000, 2700)
    ∷ (36000000, some 37000000, 2800)
    ∷ (37000000, some 38000000, 2900)
    ∷ (38000000, some 39000000, 3000)
    ∷ (39000000, some 40000000, 3100)
    ∷ (40000000, some 41000000, 3200)
    ∷ (41000000, some 42000000, 3300)
    ∷ (42000000, some 43000000, 3400)
    ∷ (43000000, none, 3500)
    ∷ []

abbrev pub ter_monthly_c : List Row
ter_monthly_c =
    (0, some 6600000, 0)
    ∷ (6600000, some 6950000, 25)
    ∷ (6950000, some 7350000, 50)
    ∷ (7350000, some 7800000, 75)
    ∷ (7800000, some 8850000, 100)
    ∷ (8850000, some 9800000, 125)
    ∷ (9800000, some 10950000, 150)
    ∷ (10950000, some 12000000, 175)
    ∷ (12000000, some 12650000, 200)
    ∷ (12650000, some 13600000, 225)
    ∷ (13600000, some 14450000, 250)
    ∷ (14450000, some 15350000, 300)
    ∷ (15350000, some 16350000, 350)
    ∷ (16350000, some 17450000, 400)
    ∷ (17450000, some 18250000, 500)
    ∷ (18250000, some 19350000, 600)
    ∷ (19350000, some 20350000, 700)
    ∷ (20350000, some 21350000, 800)
    ∷ (21350000, some 22450000, 900)
    ∷ (22450000, some 23450000, 1000)
    ∷ (23450000, some 24450000, 1100)
    ∷ (24450000, some 25550000, 1200)
    ∷ (25550000, some 26550000, 1300)
    ∷ (26550000, some 27650000, 1400)
    ∷ (27650000, some 28850000, 1500)
    ∷ (28850000, some 29950000, 1600)
    ∷ (29950000, some 31050000, 1700)
    ∷ (31050000, some 32250000, 1800)
    ∷ (32250000, some 33250000, 1900)
    ∷ (33250000, some 34250000, 2000)
    ∷ (34250000, some 35350000, 2100)
    ∷ (35350000, some 36450000, 2200)
    ∷ (36450000, some 37450000, 2300)
    ∷ (37450000, some 38450000, 2400)
    ∷ (38450000, some 39450000, 2500)
    ∷ (39450000, some 40450000, 2600)
    ∷ (40450000, some 41450000, 2700)
    ∷ (41450000, some 42450000, 2800)
    ∷ (42450000, some 43450000, 2900)
    ∷ (43450000, some 44450000, 3000)
    ∷ (44450000, some 45450000, 3100)
    ∷ (45450000, some 46450000, 3200)
    ∷ (46450000, some 47450000, 3300)
    ∷ (47450000, some 48450000, 3400)
    ∷ (48450000, none, 3500)
    ∷ []

abbrev pub ter_daily : List Row
ter_daily = (0, some 450000, 0) ∷ (450000, some 2500000, 50) ∷ (2500000, none, 100) ∷ []

abbrev pub default_ter : TerMonthly
default_ter = record {
  a = to_brackets ter_monthly_a;
  b = to_brackets ter_monthly_b;
  c = to_brackets ter_monthly_c;
}

-- The insurance part of `createDefaultPayrollPeriodConfig`.
abbrev pub default_bpjs : BpjsConfig
default_bpjs = record {
  kesehatan = record { employee_share_percent = pos 100; ceiling = some (decimal 12000000) };
  jht = record { employee_share_percent = pos 200; ceiling = none };
  jp = record { employee_share_percent = pos 100; ceiling = some (decimal 10547000) };
}
