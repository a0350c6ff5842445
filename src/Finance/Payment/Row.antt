-- ===== src/Finance/Payment/Row.antt =====
-- The row of an idempotency key, which `record` and `recordAllocated` of
-- apps/api/src/modules/finance/services/payment.service.ts read or add.
use openlms.Base.{
  ◌≡◌, refl, ap, subst, ◌∙◌, inl, inr, String, List, [], ◌∷◌, ◌++◌, map, Option, none, some,
  some-injective, eq_refl, ◌=ₛ◌, Bool-cases, Option-cases,
}
use openlms.Base.Int.{ℤ}
use openlms.Base.Result.{Result, ok, err}
use openlms.Finance.Payment.{Payment, Store, Error}
use openlms.Finance.Payment.Recording.{
  RecordPaymentInput, truthy, has_key, find_by_key, create_payment,
}
use openlms.Finance.Payment.Runs.{Reaches, KeepsTerms, IsKept, Reaches-keeps}

abbrev pub HasRow : String → Payment → List Payment → Type 0
HasRow key p payments =
    (q : Payment) × (find_by_key (some key) payments ≡ some q)
    × (q.id ≡ p.id)
    × (q.amount ≡ p.amount)
    × (q.allocations ≡ p.allocations)

find-changed :
    (key : String) (f : Payment → Payment) (payments : List Payment) {q : Payment}
    → KeepsTerms f
    → find_by_key (some key) payments ≡ some q
    → find_by_key (some key) (map f payments) ≡ some (f q)
find-changed key f [] k h = cc
find-changed key f (p ∷ payments) {q} k h = elim (Bool-cases (has_key key p.idempotency_key)) [
  | inl t ↦
      let here : some p ≡ some q = rw t at h in
      rw (ap (has_key key) (k.key_kept p) ∙ t) (ap (λ z. some (f z)) (some-injective here))
  | inr n ↦ rw (ap (has_key key) (k.key_kept p) ∙ n) (find-changed key f payments k (rw n at h))
]

find-appended :
    (key : String) (payments more : List Payment) {q : Payment}
    → find_by_key (some key) payments ≡ some q
    → find_by_key (some key) (payments ++ more) ≡ some q
find-appended key [] more h = cc
find-appended key (p ∷ payments) more h = elim (Bool-cases (has_key key p.idempotency_key)) [
  | inl t ↦ rw t (rw t at h)
  | inr n ↦ rw n (find-appended key payments more (rw n at h))
]

find-last :
    (key : String) (payments : List Payment) (p : Payment)
    → find_by_key (some key) payments ≡ none
    → p.idempotency_key ≡ some key
    → find_by_key (some key) (payments ++ p ∷ []) ≡ some p
find-last key [] p h e = rw e (rw (eq_refl key) refl)
find-last key (q ∷ payments) p h e = elim (Bool-cases (has_key key q.idempotency_key)) [
  | inl t ↦ let clash : some q ≡ none = rw t at h in cc
  | inr n ↦ rw n (find-last key payments p (rw n at h) e)
]

pub HasRow-IsKept : (key : String) (p : Payment) → IsKept (HasRow key p)
HasRow-IsKept key p = record {
  by_change = λ f payments k (q, found, id, amount, lines). (
    f q,
    find-changed key f payments k found,
    k.id_kept q ∙ id,
    k.amount_kept q ∙ amount,
    k.allocations_kept q ∙ lines,
  );
  by_add = λ row payments sound free (q, found, id, amount, lines).
      (q, find-appended key payments (row ∷ []) found, id, amount, lines);
}

truthy-some : (o : Option String) {key : String} → truthy o ≡ some key → o ≡ some key
truthy-some none h = cc
truthy-some (some s) h = elim (Bool-cases (s =ₛ "")) [
  | inl t ↦ let clash : none ≡ some _ = rw t at h in cc
  | inr f ↦ rw f at h
]

ok_parts :
    {p q : Payment} {s t : Store}
    → ◌≡◌ {A = Result Error Payment × Store} (ok p, s) (ok q, t)
    → (p ≡ q) × (s ≡ t)
ok_parts h = (cc, cc)

pub no_ok :
    (e : Error) (s : Store) {q : Payment} {t : Store}
    → ◌≡◌ {A = Result Error Payment × Store} (err e, s) (ok q, t)
    → ⊥
no_ok e s h = cc

-- what a call answers with is the row of its key
pub create_payment-HasRow :
    (answer row : Payment) (invoice_ids : List String) (input : RecordPaymentInput) (s : Store)
    (key : String) {p : Payment} {t : Store}
    → truthy input.idempotency_key ≡ some key
    → row.idempotency_key ≡ input.idempotency_key
    → row.id ≡ answer.id
    → row.amount ≡ answer.amount
    → row.allocations ≡ answer.allocations
    → create_payment answer row invoice_ids input s ≡ (ok p, t)
    → HasRow key p t.payments
unfolding create_payment
create_payment-HasRow answer row invoice_ids input s key {p} {t} is_key own id amount lines h =
    let keyed = truthy-some input.idempotency_key is_key in
    let by_key = ap (λ o. find_by_key o s.payments) keyed in
    elim (Option-cases (find_by_key (some key) s.payments)) [
      | inl free ↦
          let (same, after) = ok_parts (rw (create_payment, by_key ∙ free) at h) in
          (
            row,
            subst (λ v. find_by_key (some key) v.payments ≡ some row) after
                (find-last key s.payments row free (own ∙ keyed)),
            id ∙ ap (λ z. z.id) same,
            amount ∙ ap (λ z. z.amount) same,
            lines ∙ ap (λ z. z.allocations) same,
          )
      | inr (existing, found) ↦
          let (same, after) = ok_parts (rw (create_payment, by_key ∙ found, is_key) at h) in
          (
            existing,
            subst (λ v. find_by_key (some key) v.payments ≡ some existing) after found,
            ap (λ z. z.id) same,
            ap (λ z. z.amount) same,
            ap (λ z. z.allocations) same,
          )
    ]

-- the payment that a call found in what it read
pub read-HasRow :
    (show_decimal : ℤ → String) (key : String) {existing p : Payment} {read s t : Store}
    → Reaches show_decimal read s
    → find_by_key (some key) read.payments ≡ some existing
    → ◌≡◌ {A = Result Error Payment × Store} (ok existing, s) (ok p, t)
    → HasRow key p t.payments
read-HasRow show_decimal key {existing} {p} r found h =
    let (same, after) = ok_parts h in
    subst (λ v. HasRow key p v.payments) after
      (Reaches-keeps (HasRow key p) (HasRow-IsKept key p) show_decimal
        (
          existing,
          found,
          ap (λ z. z.id) same,
          ap (λ z. z.amount) same,
          ap (λ z. z.allocations) same,
        )
        r)
