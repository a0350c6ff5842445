-- ===== src/Finance/PaymentTests.antt =====
-- Runs of the verification of payments at concrete rows.
use openlms.Base.{◌≡◌, refl, true, false, [], ◌∷◌, map, none, some, String, inl}
use openlms.Base.Int.{ℤ, pos, ◌+ℤ◌, ◌-ℤ◌}
use openlms.Base.Result.{err}
use openlms.Finance.Invoice.{
  pending, partial, paid, overdue, compute_invoice_totals, compute_net_amount, status_of,
}
use openlms.Finance.Payment.{
  Invoice, Payment, Store, Error, computed, cancelled, totals_status, paid_sum_of, verify, touched,
}
use openlms.Finance.Allocation.{allocate, allocate_payment}
use openlms.Finance.Payment.Recording.{
  RecordPaymentInput, targets_of, create_payment, record_allocated, refresh_overdue_statuses,
  is_overdue,
}
use openlms.Finance.Payment.Runs.{Reaches, here, by_allocated, by_verify}
use openlms.Finance.Payment.Ledger.{IsLedger, Reaches-IsLedger}
use openlms.Finance.Payment.Replay.{IsReplayed, allocated_replays}
use openlms.Finance.Payment.Overdue.{refresh_marks_overdue}
use openlms.Finance.Payment.Verified.{IsCurrent, verify-IsCurrent, verified_once}

abbrev invoice : String → Invoice
invoice id = record {
  id = id;
  amount = pos 30000;
  discount = pos 0;
  due_date = 100;
  status = computed pending;
}

-- allocated over two invoices
abbrev payment : Payment
payment = record {
  id = "p1";
  invoice_id = "i1";
  amount = pos 50000;
  status = computed pending;
  verified_by = none;
  verified_at = none;
  note = none;
  allocations =
      record { invoice_id = "i1"; allocated = pos 30000 }
      ∷ record { invoice_id = "i2"; allocated = pos 20000 }
      ∷ [];
  idempotency_key = none;
}

abbrev store : Store
store = record { invoices = invoice "i1" ∷ invoice "i2" ∷ []; payments = payment ∷ []; audits = [] }

abbrev verified : Store
verified = (verify "p1" true "staff" none [] 50 store).1

abbrev verified_payment : Payment
verified_payment = record payment {
  status = computed paid;
  verified_by = some "staff";
  verified_at = some 50;
}

-- The second invoice has 200.00 of 300.00 allocated to it, and stays as if nothing was paid.
statuses : map (λ i. i.status) verified.invoices ≡ computed paid ∷ computed pending ∷ []
unfolding verify openlms.Finance.Payment.verify_transaction openlms.Finance.Payment.settle
    openlms.Finance.Payment.recompute_all openlms.Finance.Payment.recompute_invoice_status
    openlms.Finance.Payment.paid_sum_of compute_invoice_totals
    openlms.Finance.Invoice.compute_net_amount openlms.Finance.Invoice.status_of ◌+ℤ◌ ◌-ℤ◌
statuses = refl

verify-IsCurrent_example :
    IsCurrent 50 verified.payments (record (invoice "i1") { status = computed paid })
unfolding verify openlms.Finance.Payment.verify_transaction openlms.Finance.Payment.settle
    openlms.Finance.Payment.recompute_all openlms.Finance.Payment.recompute_invoice_status
    openlms.Finance.Payment.paid_sum_of compute_invoice_totals
    openlms.Finance.Invoice.compute_net_amount openlms.Finance.Invoice.status_of ◌+ℤ◌ ◌-ℤ◌
verify-IsCurrent_example =
    verify-IsCurrent "p1" true "staff" none [] 50 store {p = verified_payment}
      (record (invoice "i1") { status = computed paid }) refl (inl refl) (inl refl)

verified_once_example :
    (e : Error) × (verify "p1" false "other" none [] 60 verified ≡ (err e, verified))
unfolding verify openlms.Finance.Payment.verify_transaction openlms.Finance.Payment.settle
    openlms.Finance.Payment.recompute_all openlms.Finance.Payment.recompute_invoice_status
    openlms.Finance.Payment.paid_sum_of compute_invoice_totals
    openlms.Finance.Invoice.compute_net_amount openlms.Finance.Invoice.status_of ◌+ℤ◌ ◌-ℤ◌
verified_once_example =
    verified_once "p1" true "staff" none [] 50 store {p = verified_payment} false "other" none [] 60
      refl

abbrev no_payments : Store
no_payments = record { invoices = invoice "i1" ∷ invoice "i2" ∷ []; payments = []; audits = [] }

abbrev show : ℤ → String
show amount = "n"

abbrev input : RecordPaymentInput
input = record {
  amount = pos 30000;
  note = none;
  created_by = "staff";
  actor_roles = [];
  idempotency_key = some "k";
}

abbrev after_allocated : Store
after_allocated = (record_allocated show "p1" ("i1" ∷ []) input 50 no_payments no_payments).1

abbrev after_run : Store
after_run = (verify "p1" true "staff" none [] 60 after_allocated).1

-- a payment is recorded, and then verified
abbrev recorded_run : Reaches show no_payments after_run
recorded_run =
    by_verify "p1" true "staff" none [] 60 (by_allocated "p1" ("i1" ∷ []) input 50 no_payments here)

Reaches-IsLedger_example : IsLedger after_run.payments
Reaches-IsLedger_example = Reaches-IsLedger show (tt, tt) recorded_run

abbrev new_row : Payment
new_row = record payment {
  amount = pos 30000;
  allocations = record { invoice_id = "i1"; allocated = pos 30000 } ∷ [];
  idempotency_key = some "k";
}

allocated_replays_example : IsReplayed show new_row "p2" ("i2" ∷ []) input 70 after_run after_run
unfolding record_allocated targets_of create_payment allocate_payment allocate
    compute_invoice_totals compute_net_amount paid_sum_of ◌-ℤ◌
allocated_replays_example =
    allocated_replays show "p1" ("i1" ∷ []) input 50 "k" {read = no_payments} {s = no_payments}
      {t = after_allocated} {p = new_row} "p2" ("i2" ∷ []) input 70 after_run here refl refl
      (by_verify "p1" true "staff" none [] 60 here) refl refl

-- an invoice that is paid, and still called pending
abbrev stale : Store
stale = record {
  invoices = invoice "i1" ∷ invoice "i2" ∷ [];
  payments = record payment { amount = pos 30000; status = computed paid } ∷ [];
  audits = [];
}

after_refresh :
    map (λ i. i.status) (refresh_overdue_statuses 150 stale).1.invoices
    ≡ computed pending ∷ computed overdue ∷ []
unfolding refresh_overdue_statuses compute_invoice_totals status_of ◌-ℤ◌ compute_net_amount
    paid_sum_of ◌+ℤ◌
after_refresh = refl

refresh_marks_overdue_example :
    is_overdue (totals_status 150 ((refresh_overdue_statuses 150 stale).1.payments) (invoice "i1"))
    ≡ false
unfolding refresh_overdue_statuses compute_invoice_totals status_of ◌-ℤ◌ compute_net_amount
    paid_sum_of ◌+ℤ◌
refresh_marks_overdue_example = refresh_marks_overdue 150 stale (invoice "i1") (inl refl) refl
