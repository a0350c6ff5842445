-- ===== src/Finance/Payment/Recording.antt =====
-- Recording payments: `record`, `recordAllocated` and `refreshOverdueStatuses` of
-- apps/api/src/modules/finance/services/payment.service.ts. What a call read before it writes is an
-- argument, `read`, since another call may write in between; how a decimal prints is a parameter.
use Prim.Native.String.{◌++◌ as ◌++ₛ◌}
use openlms.Base.{
  ℕ, Bool, true, false, ◌&&◌, String, List, [], ◌∷◌, ◌++◌, map, filter, find, any, length, Option,
  none, some, ◌=ₛ◌, ltb, if◌then◌else◌,
}
use openlms.Base.Int.{ℤ, leb_ℤ}
use openlms.Base.Result.{Result, ok, err}
use openlms.Roles.{Role, resolve_actor_role}
use openlms.Payroll.Money.{zero_money}
use openlms.Finance.Allocation.{AllocationLine, AllocationTarget, allocate_payment}
use openlms.Finance.Invoice.{pending, partial, paid, overdue, carried_over, compute_invoice_totals}
use openlms.Finance.Payment.{
  Invoice, Payment, recorded, Store, Error, amount_not_positive, invoice_not_found, invoice_closed,
  invoices_required, key_taken, PaymentStatus, computed, cancelled, refunded, paid_sum_of,
  totals_status,
}

-- of `record`, and of `recordAllocated` but for the invoices
pub record RecordPaymentInput : Type 0 where
  pub amount : ℤ
  pub note : Option String
  pub created_by : String
  pub actor_roles : List Role
  pub idempotency_key : Option String

-- `if (s)`
abbrev pub truthy : Option String → Option String
truthy none = none
truthy (some s) = if s =ₛ "" then none else some s

abbrev pub has_key : String → Option String → Bool
has_key key none = false
has_key key (some k) = k =ₛ key

-- `findFirst({ where: { idempotency_key } })`, if there is a key
abbrev pub find_by_key : Option String → List Payment → Option Payment
find_by_key none payments = none
find_by_key (some key) payments = find (λ p. has_key key p.idempotency_key) payments

abbrev pub find_invoice : String → List Invoice → Option Invoice
find_invoice id invoices = find (λ i. i.id =ₛ id) invoices

abbrev pub is_closed : PaymentStatus → Bool
is_closed (computed s) = false
is_closed cancelled = true
is_closed refunded = true

abbrev pub new_payment : String → String → RecordPaymentInput → List AllocationLine → Payment
new_payment id invoice_id input allocations = record {
  id = id;
  invoice_id = invoice_id;
  amount = input.amount;
  status = computed pending;
  verified_by = none;
  verified_at = none;
  note = input.note;
  allocations = allocations;
  idempotency_key = input.idempotency_key;
}

abbrev pub add_payment : Payment → List String → RecordPaymentInput → Store → Store
add_payment p invoice_ids input store = record store {
  payments = store.payments ++ p ∷ [];
  audits =
      store.audits
      ++ record {
        actor_id = input.created_by;
        actor_role = resolve_actor_role input.actor_roles none;
        action = recorded invoice_ids p.amount p.allocations;
        entity_id = p.id;
        note = none;
      }
        ∷ [];
}

-- The `create` and the `catch` around it: where a row has the key already, that row is the answer.
unfoldable pub create_payment :
    Payment → Payment → List String → RecordPaymentInput → Store → Result Error Payment × Store
create_payment answer row invoice_ids input store =
    elim (find_by_key input.idempotency_key store.payments) [
      | none ↦ (ok answer, add_payment row invoice_ids input store)
      | some existing ↦ elim (truthy input.idempotency_key) [
        | none ↦ (err key_taken, store)
        | some key ↦ (ok existing, store)
      ]
    ]

-- `record`
unfoldable pub record_payment :
    String → String → RecordPaymentInput → Store → Store → Result Error Payment × Store
record_payment id invoice_id input read store =
    if leb_ℤ input.amount zero_money
    then (err amount_not_positive, store)
    else elim (find_by_key (truthy input.idempotency_key) read.payments) [
      | some existing ↦ (ok existing, store)
      | none ↦ elim (find_invoice invoice_id read.invoices) [
        | none ↦ (err invoice_not_found, store)
        | some invoice ↦
            let p = new_payment id invoice_id input [] in
            let created = create_payment p p (invoice_id ∷ []) input store in
            if is_closed invoice.status then (err invoice_closed, store) else created
      ]
    ]

abbrev pub outstanding_of : ℕ → List Payment → Invoice → ℤ
outstanding_of now payments invoice =
    (compute_invoice_totals (record {
      amount = invoice.amount;
      discount = invoice.discount;
      paid_sum = paid_sum_of invoice.id payments;
      due_date = invoice.due_date;
      now = now;
      carried_over = false;
    })).outstanding

-- the loop over `invoiceIds`; `none` is the exception for an invoice that is not there
unfoldable pub targets_of : ℕ → Store → List String → Option (List AllocationTarget)
targets_of now read [] = some []
targets_of now read (id ∷ ids) = elim (find_invoice id read.invoices) [
  | none ↦ none
  | some invoice ↦ elim (targets_of now read ids) [
    | none ↦ none
    | some targets ↦ some (
        record { invoice_id = id; outstanding = outstanding_of now read.payments invoice }
        ∷ targets)
  ]
]

-- `join(",")`
abbrev pub join_comma : List String → String
join_comma [] = ""
join_comma (s ∷ rest) = joined rest s
  where
    joined : List String → String → String
    joined [] s = s
    joined (t ∷ rest) s = joined rest (s ++ₛ ("," ++ₛ t))

-- `invoiceIds[0]`, unless it is missing or empty
abbrev pub primary_of : List String → Option String
primary_of [] = none
primary_of (id ∷ ids) = truthy (some id)

module _ (show_decimal : ℤ → String) where
  abbrev pub allocation_note : Option String → List AllocationLine → String
  allocation_note remark lines =
      let listed =
        "alokasi: "
        ++ₛ join_comma (map (λ l. l.invoice_id ++ₛ ("=" ++ₛ show_decimal l.allocated)) lines) in
      with_remark (truthy remark) listed
    where
      with_remark : Option String → String → String
      with_remark none listed = listed
      with_remark (some s) listed = s ++ₛ (" | " ++ₛ listed)

  -- `recordAllocated`; the allocations that it returns are those of the payment
  unfoldable pub record_allocated :
      String → List String → RecordPaymentInput → ℕ → Store → Store → Result Error Payment × Store
  record_allocated id invoice_ids input now read store =
      if leb_ℤ input.amount zero_money
      then (err amount_not_positive, store)
      else elim (find_by_key (truthy input.idempotency_key) read.payments) [
        | some existing ↦ (ok existing, store)
        | none ↦ elim (primary_of invoice_ids) [
          | none ↦ (err invoices_required, store)
          | some primary ↦ elim (targets_of now read invoice_ids) [
            | none ↦ (err invoice_not_found, store)
            | some targets ↦
                let lines = (allocate_payment input.amount targets).allocations in
                let p = new_payment id primary input lines in
                create_payment p (record p { note = some (allocation_note input.note lines) })
                  invoice_ids input store
          ]
        ]
      ]

-- `{ status: { in: ["PENDING", "PARTIAL"] } }`
abbrev pub is_unpaid : PaymentStatus → Bool
is_unpaid (computed pending) = true
is_unpaid (computed partial) = true
is_unpaid (computed paid) = false
is_unpaid (computed overdue) = false
is_unpaid (computed carried_over) = false
is_unpaid cancelled = false
is_unpaid refunded = false

abbrev pub is_overdue : PaymentStatus → Bool
is_overdue (computed overdue) = true
is_overdue (computed pending) = false
is_overdue (computed partial) = false
is_overdue (computed paid) = false
is_overdue (computed carried_over) = false
is_overdue cancelled = false
is_overdue refunded = false

abbrev pub is_due : ℕ → Invoice → Bool
is_due now i = is_unpaid i.status && ltb i.due_date now

-- the ids of the loop of `refreshOverdueStatuses`
abbrev pub overdue_ids : ℕ → Store → List String
overdue_ids now store =
    map (λ i. i.id)
      (filter (λ i. is_overdue (totals_status now store.payments i))
        (filter (is_due now) store.invoices))

abbrev pub set_overdue : List String → Invoice → Invoice
set_overdue ids i = if any (λ id. id =ₛ i.id) ids then record i { status = computed overdue } else i

-- `refreshOverdueStatuses`: how many it looked at, and the rows after it
unfoldable pub refresh_overdue_statuses : ℕ → Store → ℕ × Store
refresh_overdue_statuses now store = (
  length (filter (is_due now) store.invoices),
  record store { invoices = map (set_overdue (overdue_ids now store)) store.invoices },
)
