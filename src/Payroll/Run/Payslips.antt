-- ===== src/Payroll/Run/Payslips.antt =====
-- The payslips that `approveByKepsek` makes:
-- apps/api/src/modules/payroll/services/payroll-run.service.ts.
use openlms.Base.{
  ◌≡◌, ◌≢◌, refl, ap, sym, ℕ, ◌≤◌, Bool, not, ◌&&◌, List, [], ◌∷◌, ◌++◌, map, filter, count, any,
  String, =ₛ-eq-false, subst, All-In, count-append, count-map, ◌=ₛ◌, eq_iff, eq_refl, ltb,
  if◌then◌else◌, All, In, inl, inr, arith,
}
use openlms.Payroll.Store.{PayslipRecord, PayrollRunRecord, PayrollRunItemRecord}
use openlms.Payroll.Run.{payslip_of, missing_payslips}
use openlms.Payroll.Run.Ledger.{AllDiffer}

-- How many payslips a member of staff has for a run.
abbrev pub slips : String → String → List PayslipRecord → ℕ
slips run_id staff_id = count (λ p. p.run_id =ₛ run_id && p.staff_id =ₛ staff_id)

abbrev pub staff_ids : List PayrollRunItemRecord → List String
staff_ids = map (λ i. i.staff_id)

has_slip : String → List PayslipRecord → String → Bool
has_slip run_id payslips staff_id =
    any (λ id. id =ₛ staff_id) (map (λ p. p.staff_id) (filter (λ p. p.run_id =ₛ run_id) payslips))

has_slip-eq :
    (run_id staff_id : String) (payslips : List PayslipRecord)
    → has_slip run_id payslips staff_id ≡ ltb 0 (slips run_id staff_id payslips)
unfolding has_slip
has_slip-eq run_id staff_id [] = refl
has_slip-eq run_id staff_id (p ∷ payslips) = ground (arith, has_slip-eq run_id staff_id payslips)

module _ (run_id : String) (has : String → Bool) (staff_id : String) where
  abbrev new_slips : List PayrollRunItemRecord → ℕ
  new_slips items =
      count (λ i. (run_id =ₛ run_id) && i.staff_id =ₛ staff_id)
        (filter (λ i. not (has i.staff_id)) items)

  new_slips-absent :
      (items : List PayrollRunItemRecord)
      → All (λ q. staff_id ≢ q) (staff_ids items)
      → new_slips items ≡ 0
  new_slips-absent [] h = refl
  new_slips-absent (i ∷ items) h =
      ground (arith, =ₛ-eq-false i.staff_id staff_id (λ e. h.0 (sym e)), new_slips-absent items h.1)

  new_slips-once :
      (items : List PayrollRunItemRecord)
      → AllDiffer (staff_ids items)
      → In staff_id (staff_ids items)
      → new_slips items ≡ (if has staff_id then 0 else 1)
  new_slips-once [] d m = absurd m
  new_slips-once (i ∷ items) d (inl e) =
      let others =
        new_slips-absent items (subst (λ z. All (λ q. z ≢ q) (staff_ids items)) (sym e) d.0) in
      ground (arith, others, (eq_iff i.staff_id staff_id).1 (sym e), ap has e, eq_refl run_id)
  new_slips-once (i ∷ items) d (inr m) =
      let differs = All-In (λ q. i.staff_id ≢ q) staff_id (staff_ids items) d.0 m in
      ground (arith, =ₛ-eq-false i.staff_id staff_id differs, new_slips-once items d.1 m)

-- Where the items of a run are of different staff and nobody has two payslips of the run, everyone
-- with an item has exactly one once the missing ones are added.
pub slips-missing :
    (now : ℕ) (run : PayrollRunRecord) (payslips : List PayslipRecord) (staff_id : String)
    → AllDiffer (staff_ids run.items)
    → In staff_id (staff_ids run.items)
    → slips run.id staff_id payslips ≤ 1
    → slips run.id staff_id (payslips ++ missing_payslips now run payslips) ≡ 1
unfolding missing_payslips has_slip
slips-missing now run payslips staff_id d m h =
    let missing = filter (λ i. not (has_slip run.id payslips i.staff_id)) run.items in
    let test : PayslipRecord → Bool = λ p. p.run_id =ₛ run.id && p.staff_id =ₛ staff_id in
    ground (
      arith,
      count-append test payslips (map (payslip_of now run) missing),
      count-map test (payslip_of now run) missing,
      new_slips-once run.id (has_slip run.id payslips) staff_id run.items d m,
      has_slip-eq run.id staff_id payslips,
    )
