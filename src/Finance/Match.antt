-- ===== src/Finance/Match.antt =====
-- The bank reconciliation: apps/api/src/modules/finance/calculator/reconciliation-match.ts.
-- Confidence is in tenths; the date of a row is its time in milliseconds, or none where the text
-- is no date.
pub mod Soundness
use openlms.Base.{
  ℕ, ◌+◌, ◌-◌, ◌*◌, Bool, true, false, ◌&&◌, ◌||◌, List, [], ◌∷◌, map, Option, none, some, String,
  ltb, leb, ◌==◌, filter, find, if◌then◌else◌,
}
use openlms.Base.Int.{ℤ, pos, ◌-ℤ◌, leb_ℤ}
use openlms.Base.Texts.{codes, trim, same_text, to_upper}
use openlms.Payroll.Money.{abs}

pub data BankMutationType : Type 0 where
  debit kredit : BankMutationType

pub record BankMutationRow : Type 0 where
  pub tanggal : Option ℕ
  pub referensi : Option String
  pub nominal : ℤ
  pub tipe : BankMutationType

pub record PaymentCandidate : Type 0 where
  pub id : String
  pub invoice_no : String
  pub amount : ℤ
  pub paid_at : Option ℕ

pub data Reason : Type 0 where
  not_incoming reference_and_amount reference_within_tolerance amount_and_date : Reason
  amount_outside_date no_payment : Reason

pub record ReconciliationMatchResult : Type 0 where
  pub matched_payment_id : Option String
  pub confidence : ℕ
  pub reason : Reason

unfoldable pub normalized : String → List ℕ
normalized text = map to_upper (trim (codes text))

unfoldable pub same_reference : BankMutationRow → PaymentCandidate → Bool
same_reference row p = elim row.referensi [
  | none ↦ false
  | some reference ↦ same_text (normalized p.invoice_no) (normalized reference)
]

unfoldable pub same_amount : ℤ → BankMutationRow → PaymentCandidate → Bool
same_amount tol row p = leb_ℤ (pos (abs (p.amount -ℤ row.nominal))) tol

abbrev pub or_zero : Option ℕ → ℕ
or_zero none = 0
or_zero (some t) = t

unfoldable pub same_date : ℕ → BankMutationRow → PaymentCandidate → Bool
same_date tol_days row p = elim row.tanggal [
  | none ↦ false
  | some date ↦ leb ((or_zero p.paid_at - date) + (date - or_zero p.paid_at)) (tol_days * 86400000)
]

abbrev pub matched : PaymentCandidate → ℕ → Reason → ReconciliationMatchResult
matched p confidence reason = record {
  matched_payment_id = some p.id;
  confidence = confidence;
  reason = reason;
}

abbrev pub unmatched : Reason → ReconciliationMatchResult
unmatched reason = record { matched_payment_id = none; confidence = 0; reason = reason }

-- Only incoming money is matched.
abbrev pub if_incoming : BankMutationType → ReconciliationMatchResult → ReconciliationMatchResult
if_incoming debit result = unmatched not_incoming
if_incoming kredit result = result

-- the part without a reference, from the payments of the same amount
abbrev pub by_amount : List PaymentCandidate → Option PaymentCandidate → ReconciliationMatchResult
by_amount amount_matches (some p) = matched p 5 amount_and_date
by_amount [] none = unmatched no_payment
by_amount (p ∷ ps) none = matched p 5 amount_outside_date

module _ (tol : ℤ) (date_tol : ℕ) where
  unfoldable pub without_reference :
      BankMutationRow → List PaymentCandidate → ReconciliationMatchResult
  without_reference row payments =
      let amount_matches = filter (same_amount tol row) payments in
      by_amount amount_matches (find (same_date date_tol row) amount_matches)

  -- the part with the payments of the same reference
  abbrev pub by_reference :
      BankMutationRow
      → List PaymentCandidate
      → List PaymentCandidate
      → Option PaymentCandidate
      → ReconciliationMatchResult
  by_reference row payments [] exact = without_reference row payments
  by_reference row payments (best ∷ others) (some p) = matched p 10 reference_and_amount
  by_reference row payments (best ∷ others) none = matched best 8 reference_within_tolerance

  unfoldable pub match_row_to_payments :
      BankMutationRow → List PaymentCandidate → ReconciliationMatchResult
  match_row_to_payments row payments =
      let ref_matches = filter (same_reference row) payments in
      if_incoming row.tipe
        (by_reference row payments ref_matches (find (same_amount tol row) ref_matches))
