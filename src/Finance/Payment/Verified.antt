-- ===== src/Finance/Payment/Verified.antt =====
-- What a verification leaves: `verify` of
-- apps/api/src/modules/finance/services/payment.service.ts.
use openlms.Base.{
  ℕ, ◌≡◌, refl, sym, ap, subst, ◌∙◌, inl, inr, Bool, true, false, not, String, List, [], ◌∷◌, map,
  any, Option, ◌=ₛ◌, eq_iff, arith, In, In-map, filter-In, Bool-cases, Option-cases,
}
use openlms.Base.Result.{Result, ok, err}
use openlms.Roles.{Role}
use openlms.Finance.Payment.{
  Invoice, Payment, Store, Error, payment_not_found, already_verified, totals_status, recompute_row,
  recompute_invoice_status, recompute_all, distinct, touched, claimable, claim_row, or_else,
  find_payment, settle, verify_transaction, verify,
}

-- the status is the one that the payments give now
abbrev pub IsCurrent : ℕ → List Payment → Invoice → Type 0
IsCurrent now payments i = i.status ≡ totals_status now payments i

recompute_row-IsCurrent :
    (now : ℕ) (payments : List Payment) (id : String) (i : Invoice)
    → i.id ≡ id
    → IsCurrent now payments (recompute_row now payments id i)
recompute_row-IsCurrent now payments id i h = rw ((eq_iff i.id id).1 h) refl

recompute_row-id :
    (now : ℕ) (payments : List Payment) (id : String) (i : Invoice)
    → (recompute_row now payments id i).id ≡ i.id
recompute_row-id now payments id i = elim (Bool-cases (i.id =ₛ id)) [
  | inl t ↦ rw t refl
  | inr f ↦ rw f refl
]

recompute_row-keeps :
    (now : ℕ) (payments : List Payment) (id : String) (i : Invoice)
    → IsCurrent now payments i
    → IsCurrent now payments (recompute_row now payments id i)
recompute_row-keeps now payments id i h = elim (Bool-cases (i.id =ₛ id)) [
  | inl t ↦ rw t refl
  | inr f ↦ rw f h
]

-- Recomputing more invoices keeps a current one current.
recompute_all-keeps :
    (now : ℕ) (payments : List Payment) (ids : List String) (invoices : List Invoice) (i : Invoice)
    → In i (recompute_all now payments ids invoices)
    → (j : Invoice) × In j invoices
      × (i.id ≡ j.id)
      × (IsCurrent now payments j → IsCurrent now payments i)
unfolding recompute_all recompute_invoice_status
recompute_all-keeps now payments [] invoices i m = (i, m, refl, λ h. h)
recompute_all-keeps now payments (id ∷ ids) invoices i m =
    let (j, n, same, keeps) =
      recompute_all-keeps now payments ids (recompute_invoice_status now payments id invoices) i
        m in
    let (k, o, is_row) = In-map (recompute_row now payments id) j invoices n in
    (
      k,
      o,
      same ∙ ap (λ z. z.id) is_row ∙ recompute_row-id now payments id k,
      λ h.
          keeps
            (subst (IsCurrent now payments) (sym is_row) (recompute_row-keeps now payments id k h)),
    )

recompute_all-IsCurrent :
    (now : ℕ) (payments : List Payment) (ids : List String) (invoices : List Invoice) (i : Invoice)
    → In i (recompute_all now payments ids invoices)
    → In i.id ids
    → IsCurrent now payments i
unfolding recompute_all recompute_invoice_status
recompute_all-IsCurrent now payments [] invoices i m h = absurd h
recompute_all-IsCurrent now payments (id ∷ ids) invoices i m (inr h) =
    recompute_all-IsCurrent now payments ids (recompute_invoice_status now payments id invoices) i m
      h
recompute_all-IsCurrent now payments (id ∷ ids) invoices i m (inl h) =
    let (j, n, same, keeps) =
      recompute_all-keeps now payments ids (recompute_invoice_status now payments id invoices) i
        m in
    let (k, o, is_row) = In-map (recompute_row now payments id) j invoices n in
    let key : k.id ≡ id =
      sym (same ∙ ap (λ z. z.id) is_row ∙ recompute_row-id now payments id k) ∙ h in
    keeps
      (subst (IsCurrent now payments) (sym is_row) (recompute_row-IsCurrent now payments id k key))

distinct-In : (id : String) (ids : List String) → In id ids → In id (distinct ids)
distinct-In id [] m = m
distinct-In id (first ∷ ids) (inl e) = inl e
distinct-In id (first ∷ ids) (inr m) = elim (Bool-cases (id =ₛ first)) [
  | inl t ↦ inl ((eq_iff id first).0 t)
  | inr f ↦ inr (
      filter-In (λ other. not (other =ₛ first)) id (distinct ids) (distinct-In id ids m) (ap not f))
]

ok-injective : {q p : Payment} → ◌≡◌ {A = Result Error Payment} (ok q) (ok p) → q ≡ p
ok-injective h = cc

settle-IsCurrent :
    (id : String) (approved : Bool) (verified_by : String) (remark : Option String)
    (roles : List Role) (now : ℕ) (payments : List Payment) (store : Store) {p : Payment}
    (i : Invoice)
    → (settle id approved verified_by remark roles now payments store).0 ≡ ok p
    → In i ((settle id approved verified_by remark roles now payments store).1.invoices)
    → In i.id (touched p)
    → IsCurrent now ((settle id approved verified_by remark roles now payments store).1.payments) i
unfolding settle
settle-IsCurrent id approved verified_by remark roles now payments store {p} i h =
    elim (Option-cases (find_payment id payments)) [
      | inl lost ↦ let clash : err payment_not_found ≡ ok p = rw (lost, settle) at h in cc
      | inr (q, found) ↦
          let same : ok q ≡ ok p = rw (found, settle) at h in
          rw (found, settle)
            (λ m t. recompute_all-IsCurrent now payments (distinct (touched q)) store.invoices i m (
              distinct-In i.id (touched q)
                (subst (λ z. In i.id (touched z)) (sym (ok-injective same)) t)))
    ]

transaction-IsCurrent :
    (id : String) (approved : Bool) (verified_by : String) (remark : Option String)
    (roles : List Role) (now : ℕ) (found : Payment) (store : Store) {p : Payment} (i : Invoice)
    → (verify_transaction id approved verified_by remark roles now found store).0 ≡ ok p
    → In i ((verify_transaction id approved verified_by remark roles now found store).1.invoices)
    → In i.id (touched p)
    → IsCurrent now
        ((verify_transaction id approved verified_by remark roles now found store).1.payments)
        i
unfolding verify_transaction
transaction-IsCurrent id approved verified_by remark roles now found store {p} i h =
    elim (Bool-cases (any (claimable id) store.payments)) [
      | inl claimed ↦ rw claimed (
          settle-IsCurrent id approved verified_by remark roles now
            (map (claim_row id approved verified_by now (or_else remark found.note)) store.payments)
            store i (rw claimed at h))
      | inr shut ↦ let clash : err already_verified ≡ ok p = rw shut at h in cc
    ]

-- Where a verification returns a payment, approved or not, every invoice that the payment touches,
-- by its own invoice or by an allocation, has the status that its totals give at that time from the
-- payments as they are then.
pub verify-IsCurrent :
    (id : String) (approved : Bool) (verified_by : String) (remark : Option String)
    (roles : List Role) (now : ℕ) (store : Store) {p : Payment} (i : Invoice)
    → (verify id approved verified_by remark roles now store).0 ≡ ok p
    → In i ((verify id approved verified_by remark roles now store).1.invoices)
    → In i.id (touched p)
    → IsCurrent now ((verify id approved verified_by remark roles now store).1.payments) i
unfolding verify
verify-IsCurrent id approved verified_by remark roles now store {p} i h =
    elim (Option-cases (find_payment id store.payments)) [
      | inl lost ↦ let clash : err payment_not_found ≡ ok p = rw (lost, verify) at h in cc
      | inr (q, found) ↦
          rw (found, verify)
            (transaction-IsCurrent id approved verified_by remark roles now q store i
              (rw (found, verify) at h))
    ]

none_left :
    (id : String) (approved : Bool) (verified_by : String) (now : ℕ) (remark : Option String)
    (payments : List Payment)
    → any (claimable id) (map (claim_row id approved verified_by now remark) payments) ≡ false
none_left id approved verified_by now remark [] = refl
none_left id true verified_by now remark (p ∷ payments) =
    ground (arith, none_left id true verified_by now remark payments)
none_left id false verified_by now remark (p ∷ payments) =
    ground (arith, none_left id false verified_by now remark payments)

settle-claims :
    (id : String) (approved : Bool) (verified_by : String) (remark : Option String)
    (roles : List Role) (now : ℕ) (payments : List Payment) (store : Store) {p : Payment}
    → (settle id approved verified_by remark roles now payments store).0 ≡ ok p
    → (settle id approved verified_by remark roles now payments store).1.payments ≡ payments
unfolding settle
settle-claims id approved verified_by remark roles now payments store {p} h =
    elim (Option-cases (find_payment id payments)) [
      | inl lost ↦ let clash : err payment_not_found ≡ ok p = rw (lost, settle) at h in cc
      | inr (q, found) ↦ rw (found, settle) refl
    ]

verify-claims :
    (id : String) (approved : Bool) (verified_by : String) (remark : Option String)
    (roles : List Role) (now : ℕ) (store : Store) {p : Payment}
    → (verify id approved verified_by remark roles now store).0 ≡ ok p
    → any (claimable id) ((verify id approved verified_by remark roles now store).1.payments)
      ≡ false
unfolding verify verify_transaction
verify-claims id approved verified_by remark roles now store {p} h =
    elim (Option-cases (find_payment id store.payments)) [
      | inl lost ↦ let clash : err payment_not_found ≡ ok p = rw (lost, verify) at h in cc
      | inr (q, found) ↦ elim (Bool-cases (any (claimable id) store.payments)) [
        | inl claimed ↦
            let rows =
              map (claim_row id approved verified_by now (or_else remark q.note)) store.payments in
            rw (found, verify, claimed)
              (rw
                (settle-claims id approved verified_by remark roles now rows store
                  (rw (found, verify, claimed) at h))
                (none_left id approved verified_by now (or_else remark q.note) store.payments))
        | inr shut ↦ let clash : err already_verified ≡ ok p = rw (found, verify, shut) at h in cc
      ]
    ]

refused :
    (id : String) (approved : Bool) (verified_by : String) (remark : Option String)
    (roles : List Role) (now : ℕ) (store : Store)
    → any (claimable id) store.payments ≡ false
    → (e : Error) × (verify id approved verified_by remark roles now store ≡ (err e, store))
unfolding verify verify_transaction
refused id approved verified_by remark roles now store h =
    elim (Option-cases (find_payment id store.payments)) [
      | inl lost ↦ (payment_not_found, rw (lost, verify) refl)
      | inr (q, found) ↦ (already_verified, rw (found, verify, h) refl)
    ]

-- A payment is verified once: after a verification that returned, approved or not, any other
-- verification of the same payment, whoever asks and whenever, throws and writes nothing.
pub verified_once :
    (id : String) (approved : Bool) (verified_by : String) (remark : Option String)
    (roles : List Role) (now : ℕ) (store : Store) {p : Payment} (again : Bool) (other : String)
    (other_note : Option String) (other_roles : List Role) (later : ℕ)
    → (verify id approved verified_by remark roles now store).0 ≡ ok p
    → (e : Error) × (verify id again other other_note other_roles later
          ((verify id approved verified_by remark roles now store).1)
        ≡ (err e, (verify id approved verified_by remark roles now store).1))
verified_once id approved verified_by remark roles now store again other other_note other_roles
      later h =
    refused id again other other_note other_roles later
      ((verify id approved verified_by remark roles now store).1)
      (verify-claims id approved verified_by remark roles now store h)
