-- ===== src/Finance/Match/Soundness.antt =====
-- What a match means: `matchRowToPayments` of
-- apps/api/src/modules/finance/calculator/reconciliation-match.ts.
use openlms.Base.{
  ◌≡◌, refl, subst, ap, sym, ◌∙◌, ℕ, true, false, ◌||◌, List, [], ◌∷◌, Option, none, some, String,
  arith, filter, find, In, inl, inr, Option-cases, In-filter, filter-In, find-eq-some, find-eq-none,
  All-In,
}
use openlms.Base.Int.{ℤ}
use openlms.Finance.Match.{
  BankMutationRow, kredit, PaymentCandidate, same_reference, same_amount, same_date, matched,
  if_incoming, by_amount, by_reference, without_reference, match_row_to_payments,
  reference_within_tolerance,
}

module _ (tol : ℤ) (date_tol : ℕ) (row : BankMutationRow) (payments : List PaymentCandidate) where
  -- The id is that of a payment of the row's reference or amount.
  abbrev IsCandidate : Option String → Type 0
  IsCandidate none = Unit
  IsCandidate (some id) =
      (p : PaymentCandidate) × In p payments
      × (p.id ≡ id)
      × (same_reference row p || same_amount tol row p ≡ true)

  by_amount-IsCandidate :
      (ps : List PaymentCandidate) (o : Option PaymentCandidate)
      → filter (same_amount tol row) payments ≡ ps
      → find (same_date date_tol row) ps ≡ o
      → IsCandidate (by_amount ps o).matched_payment_id
  by_amount-IsCandidate ps (some p) e f =
      let (m, _) = find-eq-some (same_date date_tol row) ps f in
      let (i, s) = In-filter (same_amount tol row) p payments (rw e m) in
      (p, i, refl, ground (arith, s))
  by_amount-IsCandidate [] none e f = tt
  by_amount-IsCandidate (p ∷ ps) none e f =
      let (i, s) = In-filter (same_amount tol row) p payments (rw e (inl refl)) in
      (p, i, refl, ground (arith, s))

  by_reference-IsCandidate :
      (ps : List PaymentCandidate) (o : Option PaymentCandidate)
      → filter (same_reference row) payments ≡ ps
      → find (same_amount tol row) ps ≡ o
      → IsCandidate (by_reference tol date_tol row payments ps o).matched_payment_id
  unfolding without_reference
  by_reference-IsCandidate [] o e f =
      by_amount-IsCandidate (filter (same_amount tol row) payments) _ refl refl
  by_reference-IsCandidate (best ∷ others) (some p) e f =
      let (m, _) = find-eq-some (same_amount tol row) (best ∷ others) f in
      let (i, s) = In-filter (same_reference row) p payments (rw e m) in
      (p, i, refl, ground (arith, s))
  by_reference-IsCandidate (best ∷ others) none e f =
      let (i, s) = In-filter (same_reference row) best payments (rw e (inl refl)) in
      (best, i, refl, ground (arith, s))

match-kredit :
    (tol : ℤ) (date_tol : ℕ) (row : BankMutationRow) (payments : List PaymentCandidate)
    → row.tipe ≡ kredit
    → match_row_to_payments tol date_tol row payments
      ≡ by_reference tol date_tol row payments
          (filter (same_reference row) payments)
          (find (same_amount tol row) (filter (same_reference row) payments))
unfolding match_row_to_payments
match-kredit tol date_tol row payments k =
    let refs = filter (same_reference row) payments in
    ap
      (λ t.
        if_incoming t
          (by_reference tol date_tol row payments refs (find (same_amount tol row) refs)))
      k

kredit-only :
    (tol : ℤ) (date_tol : ℕ) (row : BankMutationRow) (payments : List PaymentCandidate)
    {id : String}
    → (match_row_to_payments tol date_tol row payments).matched_payment_id ≡ some id
    → row.tipe ≡ kredit
unfolding match_row_to_payments
kredit-only tol date_tol row payments h = ground arith

-- A row is only matched if it is incoming money, and the payment that it names is one of the
-- candidates, of the row's reference or of its amount within the tolerance.
pub match-IsCandidate :
    (tol : ℤ) (date_tol : ℕ) (row : BankMutationRow) (payments : List PaymentCandidate)
    (id : String)
    → (match_row_to_payments tol date_tol row payments).matched_payment_id ≡ some id
    → (row.tipe ≡ kredit)
      × ((p : PaymentCandidate) × In p payments
          × (p.id ≡ id)
          × (same_reference row p || same_amount tol row p ≡ true))
match-IsCandidate tol date_tol row payments id h =
    let incoming = kredit-only tol date_tol row payments h in
    let refs = filter (same_reference row) payments in
    let found =
      by_reference-IsCandidate tol date_tol row payments refs (find (same_amount tol row) refs) refl
        refl in
    let named =
      sym (ap (λ r. r.matched_payment_id) (match-kredit tol date_tol row payments incoming)) ∙ h in
    (incoming, subst (IsCandidate tol date_tol row payments) named found)

-- Where a candidate has the reference and the amount of an incoming row, the row is matched with
-- full confidence.
match-exact :
    (tol : ℤ) (date_tol : ℕ) (row : BankMutationRow) (payments : List PaymentCandidate)
    (p : PaymentCandidate)
    → row.tipe ≡ kredit
    → In p payments
    → same_reference row p ≡ true
    → same_amount tol row p ≡ true
    → (match_row_to_payments tol date_tol row payments).confidence ≡ 10
match-exact tol date_tol row payments p k m r a =
    ap (λ x. x.confidence) (match-kredit tol date_tol row payments k)
    ∙ (exact (filter (same_reference row) payments) (filter-In (same_reference row) p payments m r))
  where
    exact :
        (refs : List PaymentCandidate)
        → In p refs
        → (by_reference tol date_tol row payments refs (find (same_amount tol row) refs)).confidence
          ≡ 10
    exact [] i = absurd i
    exact (best ∷ others) i = elim (Option-cases (find (same_amount tol row) (best ∷ others))) [
      | inl none_found ↦
          let clash =
            All-In (λ q. same_amount tol row q ≡ false) p (best ∷ others)
              (find-eq-none (same_amount tol row) (best ∷ others) none_found) i in
          ground arith
      | inr (q, found) ↦ rw found refl
    ]

-- Where candidates have the reference of an incoming row, but none of those has its amount within
-- the tolerance, the row is still matched, to the first of them, whatever its amount.
match_ignores_amount :
    (tol : ℤ) (date_tol : ℕ) (row : BankMutationRow) (payments : List PaymentCandidate)
    {best : PaymentCandidate} {others : List PaymentCandidate}
    → row.tipe ≡ kredit
    → filter (same_reference row) payments ≡ best ∷ others
    → find (same_amount tol row) (best ∷ others) ≡ none
    → (match_row_to_payments tol date_tol row payments ≡ matched best 8 reference_within_tolerance)
      × (same_amount tol row best ≡ false)
match_ignores_amount tol date_tol row payments {best} {others} k refs none_found = (
  match-kredit tol date_tol row payments k ∙ rw (refs, none_found) refl,
  (find-eq-none (same_amount tol row) (best ∷ others) none_found).0,
)
