-- ===== src/Finance/Tests.antt =====
-- Runs of the finance calculators at concrete inputs.
use openlms.Base.{◌≡◌, refl, ℕ, true, false, ◌||◌, List, [], ◌∷◌, none, some, String, arith, In}
use openlms.Base.Int.{pos, ◌+ℤ◌, ◌-ℤ◌, ◌≤ℤ◌}
use openlms.Payroll.Money.{zero_money}
use openlms.Finance.Allocation.{AllocationTarget, allocate, allocate_payment}
use openlms.Finance.Allocation.Conservation.{Fits, allocate_payment_conserves}
use openlms.Finance.Invoice.{InvoiceTotalsInput}
use openlms.Finance.LateFee.{
  LateFeeRule, persen_per_hari, compute_late_fee, chargeable_days, uncapped, mul, hundredth,
}
use openlms.Finance.Match.{
  BankMutationRow, kredit, PaymentCandidate, same_reference, same_amount, match_row_to_payments,
  normalized,
}
use openlms.Finance.Match.Soundness.{match-IsCandidate}

abbrev targets : List AllocationTarget
targets =
    record { invoice_id = "i1"; outstanding = pos 1000 }
    ∷ record { invoice_id = "i2"; outstanding = pos 0 }
    ∷ record { invoice_id = "i3"; outstanding = pos 700 }
    ∷ []

allocate-run : (allocate_payment (pos 1500) targets).remaining ≡ pos 0
unfolding allocate_payment allocate ◌+ℤ◌ ◌-ℤ◌
allocate-run = refl

allocate_payment_conserves_example :
    let r = allocate_payment (pos 1500) targets in
    (r.total_allocated +ℤ r.remaining ≡ pos 1500)
    × (zero_money ≤ℤ r.remaining)
    × Fits r.allocations targets
allocate_payment_conserves_example = allocate_payment_conserves (pos 1500) targets (omega arith)

abbrev invoice : InvoiceTotalsInput
invoice = record {
  amount = pos 50000;
  discount = pos 5000;
  paid_sum = pos 20000;
  due_date = 100;
  now = 90;
  carried_over = false;
}

abbrev rule : LateFeeRule
rule = record {
  grace_days = pos 5;
  fee_type = persen_per_hari;
  value = pos 50;
  max_amount = some (pos 100000);
}

-- 0,5 percent per day of 10.000,00 for three days
late_fee-run : (compute_late_fee rule (pos 1000000) 8).amount ≡ pos 15000
unfolding compute_late_fee chargeable_days uncapped mul hundredth
late_fee-run = refl

abbrev row : BankMutationRow
row = record {
  tanggal = some 86400000;
  referensi = some " inv-7";
  nominal = pos 50000;
  tipe = kredit;
}

abbrev candidate : String → String → ℕ → PaymentCandidate
candidate id invoice_no amount = record {
  id = id;
  invoice_no = invoice_no;
  amount = pos amount;
  paid_at = none;
}

abbrev candidates : List PaymentCandidate
candidates = candidate "p1" "INV-6" 50000 ∷ candidate "p2" "INV-7 " 50001 ∷ []

match-IsCandidate_example :
    (row.tipe ≡ kredit)
    × ((p : PaymentCandidate) × In p candidates
        × (p.id ≡ "p2")
        × (same_reference row p || same_amount (pos 1) row p ≡ true))
unfolding match_row_to_payments same_reference same_amount normalized ◌-ℤ◌
match-IsCandidate_example = match-IsCandidate (pos 1) 3 row candidates "p2" refl
