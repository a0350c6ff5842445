-- ===== src/Finance/Payment/Overdue.antt =====
-- The daily job `refreshOverdueStatuses` of
-- apps/api/src/modules/finance/services/payment.service.ts.
use openlms.Base.{
  ℕ, ◌≡◌, refl, sym, ap, ◌∙◌, subst, inl, inr, true, false, filter, any, eq_refl, Bool-cases, In,
  In-map, map-In, filter-In, any_of_In, ◌=ₛ◌,
}
use openlms.Finance.Invoice.{overdue}
use openlms.Finance.Payment.{Invoice, Store, computed, totals_status}
use openlms.Finance.Payment.Recording.{
  is_overdue, is_due, overdue_ids, set_overdue, refresh_overdue_statuses,
}

-- After the job, no invoice that is pending or partly paid is past its date by what it owes: one that
-- is due has another status, or its totals do not call it overdue.
pub refresh_marks_overdue :
    (now : ℕ) (s : Store) (i : Invoice)
    → In i ((refresh_overdue_statuses now s).1.invoices)
    → is_due now i ≡ true
    → is_overdue (totals_status now ((refresh_overdue_statuses now s).1.payments) i) ≡ false
unfolding refresh_overdue_statuses
refresh_marks_overdue now s i m due =
    let ids = overdue_ids now s in
    let (j, there, row) = In-map (set_overdue ids) i s.invoices m in
    elim (Bool-cases (any (λ id. id =ₛ j.id) ids)) [
      | inl marked ↦
          let changed : i ≡ record j { status = computed overdue } = row ∙ rw marked refl in
          let clash : true ≡ false = sym due ∙ ap (is_due now) changed in cc
      | inr unmarked ↦
          let same : i ≡ j = row ∙ rw unmarked refl in
          elim (Bool-cases (is_overdue (totals_status now s.payments i))) [
            | inl late ↦
                let here = subst (λ z. In z s.invoices) (sym same) there in
                let listed =
                  map-In (λ z. z.id) i
                    (filter (λ z. is_overdue (totals_status now s.payments z))
                      (filter (is_due now) s.invoices))
                    (filter-In (λ z. is_overdue (totals_status now s.payments z)) i
                      (filter (is_due now) s.invoices)
                      (filter-In (is_due now) i s.invoices here due) late) in
                let clash : true ≡ false =
                  sym (
                    any_of_In (λ id. id =ₛ j.id) i.id ids listed
                      (ap (λ z. z.id =ₛ j.id) same ∙ eq_refl j.id))
                  ∙ unmarked in
                cc
            | inr on_time ↦ on_time
          ]
    ]
