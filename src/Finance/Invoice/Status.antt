-- ===== src/Finance/Invoice/Status.antt =====
-- What the status of an invoice says, and what a payment does to it:
-- apps/api/src/modules/finance/calculator/invoice-status.ts.
use openlms.Base.{◌≡◌, ◌↔◌, ◌≤◌, ◌<◌, true, false, arith}
use openlms.Base.Int.{ℤ, ◌+ℤ◌, ◌-ℤ◌, ◌≤ℤ◌, ◌<ℤ◌, eqb_ℤ, +ℤ_parts, -ℤ_parts, eq_of_parts}
use openlms.Payroll.Money.{zero_money, clamp_to_zero}
use openlms.Finance.Invoice.{
  InvoiceTotalsInput, pending, partial, paid, overdue, compute_net_amount, status_of,
  compute_invoice_totals,
}

-- The status of an invoice that is not carried over, in terms of its net amount, what is paid and
-- the date: it is paid exactly where the payments reach the net amount, overdue where they do not
-- and the date is past, partial where they do not but there are some, and pending where there are
-- none.
invoice_status_iff :
    (input : InvoiceTotalsInput)
    → input.carried_over ≡ false
    → let r = compute_invoice_totals input in
      ((r.status ≡ paid) ↔ (r.net_amount ≤ℤ input.paid_sum))
      × ((r.status ≡ overdue) ↔ ((input.paid_sum <ℤ r.net_amount) × (input.due_date < input.now)))
      × ((r.status ≡ partial) ↔ (
          (input.paid_sum <ℤ r.net_amount)
          × (input.now ≤ input.due_date)
          × (zero_money <ℤ input.paid_sum)))
      × ((r.status ≡ pending) ↔ (
          (input.paid_sum <ℤ r.net_amount)
          × (input.now ≤ input.due_date)
          × (input.paid_sum ≤ℤ zero_money)))
unfolding compute_invoice_totals status_of
invoice_status_iff input h =
    let net = compute_net_amount input.amount input.discount in
    (
      ground (arith, -ℤ_parts net input.paid_sum),
      ground (arith, -ℤ_parts net input.paid_sum),
      ground (arith, -ℤ_parts net input.paid_sum),
      ground (arith, -ℤ_parts net input.paid_sum),
    )

outstanding-lowered :
    (net before payment : ℤ)
    → zero_money ≤ℤ payment
    → payment ≤ℤ clamp_to_zero (net -ℤ before)
    → clamp_to_zero (net -ℤ (before +ℤ payment)) ≡ clamp_to_zero (net -ℤ before) -ℤ payment
outstanding-lowered net before payment low high =
    let owed = clamp_to_zero (net -ℤ before) in
    eq_of_parts (clamp_to_zero (net -ℤ (before +ℤ payment))) (owed -ℤ payment) (
      ground (
        arith,
        -ℤ_parts net before,
        +ℤ_parts before payment,
        -ℤ_parts net (before +ℤ payment),
        -ℤ_parts owed payment,
      ))

-- A further payment of at most what is owed on an invoice lowers what is owed by that payment, and
-- leaves the invoice paid exactly where it is all that was owed, unless the invoice is carried over.
pay_outstanding :
    (input : InvoiceTotalsInput) (payment : ℤ)
    → input.carried_over ≡ false
    → zero_money ≤ℤ payment
    → payment ≤ℤ (compute_invoice_totals input).outstanding
    → let r = compute_invoice_totals input in
      let after = compute_invoice_totals (record input { paid_sum = input.paid_sum +ℤ payment }) in
      (after.outstanding ≡ r.outstanding -ℤ payment)
      × ((after.status ≡ paid) ↔ (payment ≡ r.outstanding))
unfolding compute_invoice_totals status_of
pay_outstanding input payment h low high =
    let net = compute_net_amount input.amount input.discount in
    let owed = clamp_to_zero (net -ℤ input.paid_sum) in
    let lowered = outstanding-lowered net input.paid_sum payment low high in
    (
      lowered,
      (
        (λ e.
            let settled : eqb_ℤ (clamp_to_zero (net -ℤ (input.paid_sum +ℤ payment))) zero_money
                ≡ true =
              ground arith in
            eq_of_parts payment owed (ground (arith, lowered, -ℤ_parts owed payment))),
        (λ e.
            let settled : eqb_ℤ (clamp_to_zero (net -ℤ (input.paid_sum +ℤ payment))) zero_money
                ≡ true =
              ground (arith, lowered, -ℤ_parts owed payment) in
            ground arith),
      ),
    )
