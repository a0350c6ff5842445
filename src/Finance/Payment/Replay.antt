-- ===== src/Finance/Payment/Replay.antt =====
-- Calls with an idempotency key that was used before: `record` and `recordAllocated` of
-- apps/api/src/modules/finance/services/payment.service.ts.
use openlms.Base.{
  ℕ, ◌≡◌, refl, inl, inr, false, String, List, [], ◌∷◌, some, Bool-cases, Option-cases,
}
use openlms.Base.Int.{ℤ, leb_ℤ}
use openlms.Base.Result.{ok}
use openlms.Payroll.Money.{zero_money}
use openlms.Finance.Payment.{
  Payment, Store, amount_not_positive, invoice_not_found, invoice_closed, invoices_required,
}
use openlms.Finance.Payment.Recording.{
  RecordPaymentInput, truthy, find_by_key, record_payment, record_allocated, primary_of, targets_of,
  find_invoice, is_closed, new_payment,
}
use openlms.Finance.Payment.Runs.{Reaches, Reaches-keeps}
use openlms.Finance.Payment.Row.{no_ok, create_payment-HasRow, read-HasRow, HasRow, HasRow-IsKept}

module _ (show_decimal : ℤ → String) where
  record_payment-HasRow :
      (id invoice_id : String) (input : RecordPaymentInput) (key : String) {read s t : Store}
      {p : Payment}
      → Reaches show_decimal read s
      → truthy input.idempotency_key ≡ some key
      → record_payment id invoice_id input read s ≡ (ok p, t)
      → HasRow key p t.payments
  unfolding record_payment
  record_payment-HasRow id invoice_id input key {read} {s} {t} {p} r is_key h =
      elim (Bool-cases (leb_ℤ input.amount zero_money)) [
        | inl low ↦ absurd (no_ok amount_not_positive s (rw (record_payment, low) at h))
        | inr high ↦ elim (Option-cases (find_by_key (some key) read.payments)) [
          | inr (existing, found) ↦
              read-HasRow show_decimal key r found (rw (record_payment, high, is_key, found) at h)
          | inl new ↦ elim (Option-cases (find_invoice invoice_id read.invoices)) [
            | inl missing ↦
                absurd
                  (no_ok invoice_not_found s (rw (record_payment, high, is_key, new, missing) at h))
            | inr (invoice, there) ↦ elim (Bool-cases (is_closed invoice.status)) [
              | inl shut ↦ absurd (
                  no_ok invoice_closed s (rw (record_payment, high, is_key, new, there, shut) at h))
              | inr still ↦
                  let q = new_payment id invoice_id input [] in
                  create_payment-HasRow q q (invoice_id ∷ []) input s key is_key refl refl refl refl
                    (rw (record_payment, high, is_key, new, there, still) at h)
            ]
          ]
        ]
      ]

  record_allocated-HasRow :
      (id : String) (invoice_ids : List String) (input : RecordPaymentInput) (now : ℕ)
      (key : String) {read s t : Store} {p : Payment}
      → Reaches show_decimal read s
      → truthy input.idempotency_key ≡ some key
      → record_allocated show_decimal id invoice_ids input now read s ≡ (ok p, t)
      → HasRow key p t.payments
  unfolding record_allocated
  record_allocated-HasRow id invoice_ids input now key {read} {s} {t} {p} r is_key h =
      elim (Bool-cases (leb_ℤ input.amount zero_money)) [
        | inl low ↦ absurd (no_ok amount_not_positive s (rw (record_allocated, low) at h))
        | inr high ↦ elim (Option-cases (find_by_key (some key) read.payments)) [
          | inr (existing, found) ↦
              read-HasRow show_decimal key r found (rw (record_allocated, high, is_key, found) at h)
          | inl new ↦ elim (Option-cases (primary_of invoice_ids)) [
            | inl missing ↦
                absurd (
                  no_ok invoices_required s
                    (rw (record_allocated, high, is_key, new, missing) at h))
            | inr (primary, named) ↦ elim (Option-cases (targets_of now read invoice_ids)) [
              | inl lost ↦ absurd (
                  no_ok invoice_not_found s
                    (rw (record_allocated, high, is_key, new, named, lost) at h))
              | inr (targets, there) ↦
                  create_payment-HasRow _ _ invoice_ids input s key is_key refl refl refl refl
                    (rw (record_allocated, high, is_key, new, named, there) at h)
            ]
          ]
        ]
      ]

  record_payment-replays :
      (id invoice_id : String) (input : RecordPaymentInput) (read s : Store) (key : String)
      {q : Payment}
      → truthy input.idempotency_key ≡ some key
      → leb_ℤ input.amount zero_money ≡ false
      → find_by_key (some key) read.payments ≡ some q
      → record_payment id invoice_id input read s ≡ (ok q, s)
  unfolding record_payment
  record_payment-replays id invoice_id input read s key is_key high found =
      rw (record_payment, high, is_key, found) refl

  record_allocated-replays :
      (id : String) (invoice_ids : List String) (input : RecordPaymentInput) (now : ℕ)
      (read s : Store) (key : String) {q : Payment}
      → truthy input.idempotency_key ≡ some key
      → leb_ℤ input.amount zero_money ≡ false
      → find_by_key (some key) read.payments ≡ some q
      → record_allocated show_decimal id invoice_ids input now read s ≡ (ok q, s)
  unfolding record_allocated
  record_allocated-replays id invoice_ids input now read s key is_key high found =
      rw (record_allocated, high, is_key, found) refl

  -- the answer of both calls to a key that was used, on a table `read` that the earlier call led to
  abbrev pub IsReplayed :
      Payment → String → List String → RecordPaymentInput → ℕ → Store → Store → Type 0
  IsReplayed p id invoice_ids input now read s =
      (q : Payment) × (q.id ≡ p.id)
      × (q.amount ≡ p.amount)
      × (q.allocations ≡ p.allocations)
      × ((invoice_id : String) → record_payment id invoice_id input read s ≡ (ok q, s))
      × (record_allocated show_decimal id invoice_ids input now read s ≡ (ok q, s))

  replays_of_row :
      (key : String) (p : Payment) {t u : Store} (other_id : String) (other_ids : List String)
      (again : RecordPaymentInput) (later : ℕ) (v : Store)
      → HasRow key p t.payments
      → Reaches show_decimal t u
      → truthy again.idempotency_key ≡ some key
      → leb_ℤ again.amount zero_money ≡ false
      → IsReplayed p other_id other_ids again later u v
  replays_of_row key p {u = u} other_id other_ids again later v row after same_key high =
      let (q, found, same_id, same_amount, same_lines) =
        Reaches-keeps (HasRow key p) (HasRow-IsKept key p) show_decimal row after in
      (
        q,
        same_id,
        same_amount,
        same_lines,
        λ invoice_id. record_payment-replays other_id invoice_id again u v key same_key high found,
        record_allocated-replays other_id other_ids again later u v key same_key high found,
      )

  -- A call of `recordAllocated` that returned a payment, and had read a table that came before its own,
  -- is answered again: after any calls, with its key and any amount above zero, for whatever
  -- invoices, both calls return the payment of that id, amount and allocations, and write nothing.
  pub allocated_replays :
      (id : String) (invoice_ids : List String) (input : RecordPaymentInput) (now : ℕ)
      (key : String) {read s t u : Store} {p : Payment} (other_id : String)
      (other_ids : List String) (again : RecordPaymentInput) (later : ℕ) (v : Store)
      → Reaches show_decimal read s
      → record_allocated show_decimal id invoice_ids input now read s ≡ (ok p, t)
      → truthy input.idempotency_key ≡ some key
      → Reaches show_decimal t u
      → truthy again.idempotency_key ≡ some key
      → leb_ℤ again.amount zero_money ≡ false
      → IsReplayed p other_id other_ids again later u v
  allocated_replays id invoice_ids input now key {p = p} other_id other_ids again later v before
        returned is_key after same_key high =
      replays_of_row key p other_id other_ids again later v
        (record_allocated-HasRow id invoice_ids input now key before is_key returned) after same_key
        high

  -- The same of a call of `record`.
  recorded_replays :
      (id invoice_id : String) (input : RecordPaymentInput) (key : String) {read s t u : Store}
      {p : Payment} (other_id : String) (other_ids : List String) (again : RecordPaymentInput)
      (later : ℕ) (v : Store)
      → Reaches show_decimal read s
      → record_payment id invoice_id input read s ≡ (ok p, t)
      → truthy input.idempotency_key ≡ some key
      → Reaches show_decimal t u
      → truthy again.idempotency_key ≡ some key
      → leb_ℤ again.amount zero_money ≡ false
      → IsReplayed p other_id other_ids again later u v
  recorded_replays id invoice_id input key {p = p} other_id other_ids again later v before returned
        is_key after same_key high =
      replays_of_row key p other_id other_ids again later v
        (record_payment-HasRow id invoice_id input key before is_key returned) after same_key high
