-- ===== src/Finance/Payment/Runs.antt =====
-- The tables that the calls of apps/api/src/modules/finance/services/payment.service.ts reach, and
-- what they keep of the payments.
use openlms.Base.{
  ℕ, ◌≡◌, refl, ap, subst, ◌∙◌, inl, inr, Bool, true, false, String, List, [], ◌∷◌, ◌++◌, map, any,
  Option, none, arith, Bool-cases, Option-cases, All, if◌then◌else◌,
}
use openlms.Base.Int.{ℤ, ◌+ℤ◌, ◌≤ℤ◌, ◌<ℤ◌, leb_ℤ, +ℤ_parts}
use openlms.Roles.{Role}
use openlms.Payroll.Money.{zero_money}
use openlms.Finance.Allocation.{AllocationLine, AllocationTarget, allocated_sum, allocate_payment}
use openlms.Finance.Allocation.Conservation.{Fits, allocate_payment_conserves}
use openlms.Finance.Payment.{
  Payment, Store, claimable, claim_row, find_payment, settle, verify_transaction, verify, or_else,
}
use openlms.Finance.Payment.Recording.{
  RecordPaymentInput, truthy, find_by_key, find_invoice, is_closed, new_payment, create_payment,
  record_payment, targets_of, primary_of, record_allocated, refresh_overdue_statuses,
}

module _ (show_decimal : ℤ → String) where
  pub data Reaches (s : Store) : Store → Type 0 where
    here : Reaches s s
    by_record :
        (id invoice_id : String) (input : RecordPaymentInput) (read : Store) {t : Store}
        → Reaches s t
        → Reaches s (record_payment id invoice_id input read t).1
    by_allocated :
        (id : String) (invoice_ids : List String) (input : RecordPaymentInput) (now : ℕ)
        (read : Store) {t : Store}
        → Reaches s t
        → Reaches s (record_allocated show_decimal id invoice_ids input now read t).1
    by_verify :
        (id : String) (approved : Bool) (verified_by : String) (remark : Option String)
        (roles : List Role) (now : ℕ) {t : Store}
        → Reaches s t
        → Reaches s (verify id approved verified_by remark roles now t).1
    by_refresh : (now : ℕ) {t : Store} → Reaches s t → Reaches s (refresh_overdue_statuses now t).1

-- a positive amount, of which no more is allocated than there is, and no line takes any back
pub record IsSound (p : Payment) : Type 0 where
  pub amount_positive : zero_money <ℤ p.amount
  pub within_amount : allocated_sum p.allocations ≤ℤ p.amount
  pub lines_nonneg : All (λ l. zero_money ≤ℤ l.allocated) p.allocations

-- a change that leaves what was recorded
pub record KeepsTerms (f : Payment → Payment) : Type 0 where
  pub id_kept : (p : Payment) → (f p).id ≡ p.id
  pub amount_kept : (p : Payment) → (f p).amount ≡ p.amount
  pub allocations_kept : (p : Payment) → (f p).allocations ≡ p.allocations
  pub key_kept : (p : Payment) → (f p).idempotency_key ≡ p.idempotency_key

pub record IsKept (P : List Payment → Type 0) : Type 0 where
  pub by_change :
      (f : Payment → Payment) (payments : List Payment)
      → KeepsTerms f
      → P payments
      → P (map f payments)
  pub by_add :
      (p : Payment) (payments : List Payment)
      → IsSound p
      → find_by_key p.idempotency_key payments ≡ none
      → P payments
      → P (payments ++ p ∷ [])

if-same :
    {A B : Type 0} (field : A → B) (b : Bool) (x y : A)
    → field x ≡ field y
    → field (if b then x else y) ≡ field y
if-same field true x y h = h
if-same field false x y h = refl

claim_row-KeepsTerms :
    (id : String) (approved : Bool) (verified_by : String) (now : ℕ) (remark : Option String)
    → KeepsTerms (claim_row id approved verified_by now remark)
claim_row-KeepsTerms id approved verified_by now remark = record {
  id_kept = λ p. if-same (λ q. q.id) (claimable id p) _ p refl;
  amount_kept = λ p. if-same (λ q. q.amount) (claimable id p) _ p refl;
  allocations_kept = λ p. if-same (λ q. q.allocations) (claimable id p) _ p refl;
  key_kept = λ p. if-same (λ q. q.idempotency_key) (claimable id p) _ p refl;
}

positive : (a : ℤ) → leb_ℤ a zero_money ≡ false → zero_money <ℤ a
positive a h = ground (arith, h)

nothing_allocated : (a : ℤ) → zero_money <ℤ a → allocated_sum [] ≤ℤ a
nothing_allocated a h = omega (arith, h)

Fits-nonneg :
    (lines : List AllocationLine) (targets : List AllocationTarget)
    → Fits lines targets
    → All (λ l. zero_money ≤ℤ l.allocated) lines
Fits-nonneg [] targets h = tt
Fits-nonneg (l ∷ lines) [] h = absurd h
Fits-nonneg (l ∷ lines) (t ∷ targets) (same, low, high, rest) =
    (low, Fits-nonneg lines targets rest)

le_of_sum : (a r : ℤ) → zero_money ≤ℤ r → a ≤ℤ (a +ℤ r)
le_of_sum a r h = omega (arith, h, +ℤ_parts a r)

allocation-IsSound :
    (amount : ℤ) (targets : List AllocationTarget)
    → zero_money <ℤ amount
    → (allocated_sum (allocate_payment amount targets).allocations ≤ℤ amount)
      × All (λ l. zero_money ≤ℤ l.allocated) (allocate_payment amount targets).allocations
unfolding allocate_payment
allocation-IsSound amount targets h =
    let (sum_is, left, fits) = allocate_payment_conserves amount targets (omega (arith, h)) in
    let r = allocate_payment amount targets in
    (
      subst (λ z. r.total_allocated ≤ℤ z) sum_is (le_of_sum r.total_allocated r.remaining left),
      Fits-nonneg (allocate_payment amount targets).allocations targets fits,
    )

module _ (P : List Payment → Type 0) (kept : IsKept P) where
  create_payment-keeps :
      (answer row : Payment) (invoice_ids : List String) (input : RecordPaymentInput) (t : Store)
      → IsSound row
      → row.idempotency_key ≡ input.idempotency_key
      → P t.payments
      → P ((create_payment answer row invoice_ids input t).1.payments)
  unfolding create_payment
  create_payment-keeps answer row invoice_ids input t sound same h =
      elim (Option-cases (find_by_key input.idempotency_key t.payments)) [
        | inl free ↦
            rw (free, create_payment)
              (kept.by_add row t.payments sound (ap (λ k. find_by_key k t.payments) same ∙ free) h)
        | inr (existing, found) ↦ elim (Option-cases (truthy input.idempotency_key)) [
          | inl unkeyed ↦ rw (found, create_payment, unkeyed) h
          | inr (key, keyed) ↦ rw (found, create_payment, keyed) h
        ]
      ]

  record_payment-keeps :
      (id invoice_id : String) (input : RecordPaymentInput) (read t : Store)
      → P t.payments
      → P ((record_payment id invoice_id input read t).1.payments)
  unfolding record_payment
  record_payment-keeps id invoice_id input read t h =
      elim (Bool-cases (leb_ℤ input.amount zero_money)) [
        | inl low ↦ rw (low, record_payment) h
        | inr high ↦
            elim (Option-cases (find_by_key (truthy input.idempotency_key) read.payments)) [
              | inr (existing, found) ↦ rw (high, record_payment, found) h
              | inl new ↦ elim (Option-cases (find_invoice invoice_id read.invoices)) [
                | inl missing ↦ rw (high, record_payment, new, missing) h
                | inr (invoice, there) ↦ elim (Bool-cases (is_closed invoice.status)) [
                  | inl shut ↦ rw (high, record_payment, new, there, shut) h
                  | inr open_still ↦
                      let p = new_payment id invoice_id input [] in
                      rw (high, record_payment, new, there, open_still)
                        (create_payment-keeps p p (invoice_id ∷ []) input t
                          (record {
                            amount_positive = positive input.amount high;
                            within_amount =
                                nothing_allocated input.amount (positive input.amount high);
                            lines_nonneg = tt;
                          })
                          refl h)
                ]
              ]
            ]
      ]

  verify-keeps :
      (id : String) (approved : Bool) (verified_by : String) (remark : Option String)
      (roles : List Role) (now : ℕ) (t : Store)
      → P t.payments
      → P ((verify id approved verified_by remark roles now t).1.payments)
  unfolding verify verify_transaction settle
  verify-keeps id approved verified_by remark roles now t h =
      elim (Option-cases (find_payment id t.payments)) [
        | inl lost ↦ rw (lost, verify) h
        | inr (q, found) ↦ elim (Bool-cases (any (claimable id) t.payments)) [
          | inr shut ↦ rw (found, verify, shut) h
          | inl claimed ↦
              let change = claim_row id approved verified_by now (or_else remark q.note) in
              elim (Option-cases (find_payment id (map change t.payments))) [
                | inl gone ↦ rw (found, verify, claimed) (rw (gone, settle) h)
                | inr (p, there) ↦
                    rw (found, verify, claimed)
                      (rw (there, settle)
                        (kept.by_change change t.payments
                          (claim_row-KeepsTerms id approved verified_by now (or_else remark q.note))
                          h))
              ]
        ]
      ]

  module _ (show_decimal : ℤ → String) where
    record_allocated-keeps :
        (id : String) (invoice_ids : List String) (input : RecordPaymentInput) (now : ℕ)
        (read t : Store)
        → P t.payments
        → P ((record_allocated show_decimal id invoice_ids input now read t).1.payments)
    unfolding record_allocated
    record_allocated-keeps id invoice_ids input now read t h =
        elim (Bool-cases (leb_ℤ input.amount zero_money)) [
          | inl low ↦ rw (low, record_allocated) h
          | inr high ↦
              elim (Option-cases (find_by_key (truthy input.idempotency_key) read.payments)) [
                | inr (existing, found) ↦ rw (high, record_allocated, found) h
                | inl new ↦ elim (Option-cases (primary_of invoice_ids)) [
                  | inl missing ↦ rw (high, record_allocated, new, missing) h
                  | inr (primary, named) ↦ elim (Option-cases (targets_of now read invoice_ids)) [
                    | inl lost ↦ rw (high, record_allocated, new, named, lost) h
                    | inr (targets, there) ↦
                        let sound =
                          allocation-IsSound input.amount targets (positive input.amount high) in
                        rw (high, record_allocated, new, named, there)
                          (create_payment-keeps _ _ invoice_ids input t
                            (record {
                              amount_positive = positive input.amount high;
                              within_amount = sound.0;
                              lines_nonneg = sound.1;
                            })
                            refl h)
                  ]
                ]
              ]
        ]

    -- What is kept by the writes holds of every table that is reached.
    pub Reaches-keeps : {s t : Store} → P s.payments → Reaches show_decimal s t → P t.payments
    unfolding refresh_overdue_statuses
    Reaches-keeps h here = h
    Reaches-keeps h (by_record id invoice_id input read {t} r) =
        record_payment-keeps id invoice_id input read t (Reaches-keeps h r)
    Reaches-keeps h (by_allocated id invoice_ids input now read {t} r) =
        record_allocated-keeps id invoice_ids input now read t (Reaches-keeps h r)
    Reaches-keeps h (by_verify id approved verified_by remark roles now {t} r) =
        verify-keeps id approved verified_by remark roles now t (Reaches-keeps h r)
    Reaches-keeps h (by_refresh now {t} r) = Reaches-keeps h r
