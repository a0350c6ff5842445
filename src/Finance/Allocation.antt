-- ===== src/Finance/Allocation.antt =====
-- One payment over many invoices: apps/api/src/modules/finance/calculator/payment-allocation.ts.
pub mod Conservation
use openlms.Base.{Bool, List, [], ◌∷◌, map, String, if◌then◌else◌}
use openlms.Base.Int.{ℤ, ◌+ℤ◌, ◌-ℤ◌, leb_ℤ, ltb_ℤ, eqb_ℤ, sum}
use openlms.Payroll.Money.{zero_money}

pub record AllocationTarget : Type 0 where
  pub invoice_id : String
  pub outstanding : ℤ

pub record AllocationLine : Type 0 where
  pub invoice_id : String
  pub allocated : ℤ

pub record AllocationResult : Type 0 where
  pub allocations : List AllocationLine
  pub remaining : ℤ
  pub total_allocated : ℤ

abbrev pub line : AllocationTarget → ℤ → AllocationLine
line target allocated = record { invoice_id = target.invoice_id; allocated = allocated }

-- `rest.lt(outstanding) ? rest : outstanding`
abbrev pub lesser : ℤ → ℤ → ℤ
lesser rest outstanding = if ltb_ℤ rest outstanding then rest else outstanding

abbrev pub with_line : AllocationLine → List AllocationLine × ℤ → List AllocationLine × ℤ
with_line l (lines, rest) = (l ∷ lines, rest)

-- The loop over the targets: the lines, and what is left.
unfoldable pub allocate : ℤ → List AllocationTarget → List AllocationLine × ℤ
allocate rest [] = ([], rest)
allocate rest (target ∷ targets) =
    let allocated = lesser rest target.outstanding in
    let skipped = with_line (line target zero_money) (allocate rest targets) in
    let filled = with_line (line target allocated) (allocate (rest -ℤ allocated) targets) in
    if eqb_ℤ rest zero_money
    then ([], rest)
    else if leb_ℤ target.outstanding zero_money
    then skipped
    else filled

abbrev pub allocated_sum : List AllocationLine → ℤ
allocated_sum lines = sum (map (λ l. l.allocated) lines)

unfoldable pub allocate_payment : ℤ → List AllocationTarget → AllocationResult
allocate_payment amount targets =
    let (lines, rest) = allocate amount targets in
    record { allocations = lines; remaining = rest; total_allocated = allocated_sum lines }

unfoldable pub total_outstanding : List AllocationTarget → ℤ
total_outstanding targets = sum (map (λ t. t.outstanding) targets)

unfoldable pub is_overpayment : ℤ → List AllocationTarget → Bool
is_overpayment amount targets = ltb_ℤ (total_outstanding targets) amount
