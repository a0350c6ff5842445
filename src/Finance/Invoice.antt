-- ===== src/Finance/Invoice.antt =====
-- The state of an invoice: apps/api/src/modules/finance/calculator/invoice-status.ts. Times are
-- in milliseconds.
pub mod Status
use openlms.Base.{ℕ, Bool, true, false, ltb, if◌then◌else◌}
use openlms.Base.Int.{ℤ, ◌-ℤ◌, ltb_ℤ, eqb_ℤ}
use openlms.Payroll.Money.{zero_money, clamp_to_zero}

pub data ComputedInvoiceStatus : Type 0 where
  pending partial paid overdue carried_over : ComputedInvoiceStatus

pub record InvoiceTotalsInput : Type 0 where
  pub amount : ℤ
  pub discount : ℤ
  pub paid_sum : ℤ
  pub due_date : ℕ
  pub now : ℕ
  pub carried_over : Bool

pub record InvoiceTotals : Type 0 where
  pub net_amount : ℤ
  pub paid_amount : ℤ
  pub outstanding : ℤ
  pub status : ComputedInvoiceStatus

unfoldable pub compute_net_amount : ℤ → ℤ → ℤ
compute_net_amount amount discount = clamp_to_zero (amount -ℤ discount)

unfoldable pub status_of : InvoiceTotalsInput → ℤ → ComputedInvoiceStatus
status_of input outstanding =
    if input.carried_over
    then carried_over
    else if eqb_ℤ outstanding zero_money
    then paid
    else if ltb_ℤ zero_money input.paid_sum
    then (if ltb input.due_date input.now then overdue else partial)
    else (if ltb input.due_date input.now then overdue else pending)

unfoldable pub compute_invoice_totals : InvoiceTotalsInput → InvoiceTotals
compute_invoice_totals input =
    let net_amount = compute_net_amount input.amount input.discount in
    let outstanding = clamp_to_zero (net_amount -ℤ input.paid_sum) in
    record {
      net_amount = net_amount;
      paid_amount = input.paid_sum;
      outstanding = outstanding;
      status = status_of input outstanding;
    }
