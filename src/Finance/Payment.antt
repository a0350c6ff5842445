-- ===== src/Finance/Payment.antt =====
-- The verification of a payment: `verify`, `paidSumOf` and `recomputeInvoiceStatus` of
-- apps/api/src/modules/finance/services/payment.service.ts, over the rows of the tables. What a
-- transaction wrote before it throws is undone.
pub mod Verified
pub mod Recording
pub mod Runs
pub mod Ledger
pub mod Row
pub mod Replay
pub mod Overdue
use openlms.Base.{
  ℕ, Bool, true, false, ◌&&◌, not, String, List, [], ◌∷◌, ◌++◌, map, filter, find, any, Option,
  none, some, ◌=ₛ◌, if◌then◌else◌,
}
use openlms.Base.Int.{ℤ, sum}
use openlms.Base.Result.{Result, ok, err}
use openlms.Roles.{Role, resolve_actor_role}
use openlms.Finance.Allocation.{AllocationLine}
use openlms.Finance.Invoice.{
  ComputedInvoiceStatus, pending, partial, paid, overdue, carried_over, compute_invoice_totals,
}

-- the status of a payment or an invoice: the computed ones, and those that only a decision gives
pub data PaymentStatus : Type 0 where
  computed : ComputedInvoiceStatus → PaymentStatus
  cancelled refunded : PaymentStatus

pub record Invoice : Type 0 where
  pub id : String
  pub amount : ℤ
  pub discount : ℤ
  pub due_date : ℕ
  pub status : PaymentStatus

pub record Payment : Type 0 where
  pub id : String
  pub invoice_id : String
  pub amount : ℤ
  pub status : PaymentStatus
  pub verified_by : Option String
  pub verified_at : Option ℕ
  pub note : Option String
  pub allocations : List AllocationLine
  pub idempotency_key : Option String

-- what an audit row of a payment says: it was recorded for these invoices, or decided on
pub data PaymentAction : Type 0 where
  recorded : List String → ℤ → List AllocationLine → PaymentAction
  decided : Bool → PaymentAction

pub record PaymentAudit : Type 0 where
  pub actor_id : String
  pub actor_role : Option Role
  pub action : PaymentAction
  pub entity_id : String
  pub note : Option String

pub record Store : Type 0 where
  pub invoices : List Invoice
  pub payments : List Payment
  pub audits : List PaymentAudit

pub data Error : Type 0 where
  payment_not_found already_verified : Error
  amount_not_positive invoice_not_found invoice_closed invoices_required key_taken : Error

abbrev pub is_paid : PaymentStatus → Bool
is_paid (computed paid) = true
is_paid (computed pending) = false
is_paid (computed partial) = false
is_paid (computed overdue) = false
is_paid (computed carried_over) = false
is_paid cancelled = false
is_paid refunded = false

abbrev pub is_pending : PaymentStatus → Bool
is_pending (computed pending) = true
is_pending (computed paid) = false
is_pending (computed partial) = false
is_pending (computed overdue) = false
is_pending (computed carried_over) = false
is_pending cancelled = false
is_pending refunded = false

-- `paidSumOf`, of the payments that name the invoice
unfoldable pub paid_sum_of : String → List Payment → ℤ
paid_sum_of id payments =
    sum (map (λ p. p.amount) (filter (λ p. p.invoice_id =ₛ id && is_paid p.status) payments))

abbrev pub totals_status : ℕ → List Payment → Invoice → PaymentStatus
totals_status now payments invoice = computed (
    (compute_invoice_totals (record {
      amount = invoice.amount;
      discount = invoice.discount;
      paid_sum = paid_sum_of invoice.id payments;
      due_date = invoice.due_date;
      now = now;
      carried_over = false;
    })).status)

abbrev pub recompute_row : ℕ → List Payment → String → Invoice → Invoice
recompute_row now payments id invoice =
    if invoice.id =ₛ id
    then record invoice { status = totals_status now payments invoice }
    else invoice

-- `recomputeInvoiceStatus`
unfoldable pub recompute_invoice_status : ℕ → List Payment → String → List Invoice → List Invoice
recompute_invoice_status now payments id invoices = map (recompute_row now payments id) invoices

unfoldable pub recompute_all : ℕ → List Payment → List String → List Invoice → List Invoice
recompute_all now payments [] invoices = invoices
recompute_all now payments (id ∷ ids) invoices =
    recompute_all now payments ids (recompute_invoice_status now payments id invoices)

-- `new Set(ids)`
abbrev pub distinct : List String → List String
distinct [] = []
distinct (id ∷ ids) = id ∷ filter (λ other. not (other =ₛ id)) (distinct ids)

-- the invoices that a payment touches
abbrev pub touched : Payment → List String
touched payment = payment.invoice_id ∷ map (λ a. a.invoice_id) payment.allocations

abbrev pub or_else : Option String → Option String → Option String
or_else none old = old
or_else (some remark) old = some remark

-- `updateMany({ where: { id, status: "PENDING" }, data })`
abbrev pub claimable : String → Payment → Bool
claimable id p = p.id =ₛ id && is_pending p.status

abbrev pub next_status : Bool → PaymentStatus
next_status approved = if approved then computed paid else cancelled

abbrev pub claim_row : String → Bool → String → ℕ → Option String → Payment → Payment
claim_row id approved verified_by now remark p =
    if claimable id p
    then record p {
      status = next_status approved;
      verified_by = some verified_by;
      verified_at = if approved then some now else none;
      note = remark;
    }
    else p

abbrev pub find_payment : String → List Payment → Option Payment
find_payment id payments = find (λ p. p.id =ₛ id) payments

-- the transaction of `verify` after the claim
unfoldable pub settle :
    String
    → Bool
    → String
    → Option String
    → List Role
    → ℕ
    → List Payment
    → Store
    → Result Error Payment × Store
settle id approved verified_by remark roles now payments store = elim (find_payment id payments) [
  | none ↦ (err payment_not_found, store)
  | some p ↦ (
    ok p,
    record {
      invoices = recompute_all now payments (distinct (touched p)) store.invoices;
      payments = payments;
      audits =
          store.audits
          ++ record {
            actor_id = verified_by;
            actor_role = resolve_actor_role roles none;
            action = decided approved;
            entity_id = id;
            note = remark;
          }
            ∷ [];
    },
  )
]

unfoldable pub verify_transaction :
    String
    → Bool
    → String
    → Option String
    → List Role
    → ℕ
    → Payment
    → Store
    → Result Error Payment × Store
verify_transaction id approved verified_by remark roles now found store =
    if any (claimable id) store.payments
    then settle id approved verified_by remark roles now
        (map (claim_row id approved verified_by now (or_else remark found.note)) store.payments)
        store
    else (err already_verified, store)

unfoldable pub verify :
    String → Bool → String → Option String → List Role → ℕ → Store → Result Error Payment × Store
verify id approved verified_by remark roles now store = elim (find_payment id store.payments) [
  | none ↦ (err payment_not_found, store)
  | some found ↦ verify_transaction id approved verified_by remark roles now found store
]
