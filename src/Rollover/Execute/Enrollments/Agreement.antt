-- ===== src/Rollover/Execute/Enrollments/Agreement.antt =====
-- What one enrollment is after the steps "graduate" and "promote" and the updates of `rollback`
-- (apps/api/src/modules/rollover/rollover.service.ts).
use openlms.Base.{
  ℕ, ◌≡◌, ◌≢◌, ◌∙◌, refl, ap, sym, subst, inl, inr, Bool, false, ◌||◌, String, List, [], ◌++◌, map,
  All, All-In, In, In-append, In-map, arith, or-eq-false_left, Bool-cases,
}
use openlms.Base.Dict.{text_keys, Dict}
use openlms.Rollover.Evaluation.{EnrollmentStatus, status_graduated}
use openlms.Rollover.Execute.Enrollments.{EnrollmentRow, has_id, give_status, old_ids, remember}
use openlms.Rollover.Execute.Enrollments.Notes.{
  restored, Agrees, noted, remember-Agrees, noted-remember, restored_row,
}
use openlms.Rollover.Execute.Enrollments.Added.{
  give_status_core, old_of-eq-some, old_ids-eq-true, IsAdded,
}

pub give_status_id :
    (ids : List String) (status : EnrollmentStatus) (q : EnrollmentRow)
    → (give_status ids status q).id ≡ q.id
give_status_id ids status q = ap (λ z. z.id) (give_status_core ids status q.status q)

or-eq-false_right : (a b : Bool) → (a || b) ≡ false → b ≡ false
or-eq-false_right a b h = ground (arith, h)

module _ (source : String) (rows : List EnrollmentRow) (graduates : List String) where
  abbrev pub after_graduate : EnrollmentRow → EnrollmentRow
  after_graduate r = give_status (old_ids source rows graduates) status_graduated r

  abbrev pub noted_first : Dict String EnrollmentStatus
  noted_first = remember source rows graduates []

  abbrev pub with_added : List EnrollmentRow → List EnrollmentRow
  with_added extra = map after_graduate rows ++ extra

module _ (source target : String) (rows : List EnrollmentRow) (graduates continuing : List String)
    (ids_differ : (r q : EnrollmentRow) → In r rows → In q rows → r.id ≡ q.id → r ≡ q)
    (apart : (s : String) → In s graduates → In s continuing → ⊥) (new_id : ℕ → String)
    (fresh : (k : ℕ) (r : EnrollmentRow) → In r rows → r.id ≢ new_id k) (extra : List EnrollmentRow)
    (added : All (IsAdded new_id target continuing) extra) where
  pub more_row :
      (r o : EnrollmentRow)
      → In r rows
      → In o (with_added source rows graduates extra)
      → o.id ≡ r.id
      → o ≡ after_graduate source rows graduates r
  more_row r o here m same =
      elim (In-append o (map (after_graduate source rows graduates) rows) extra m) [
        | inl old ↦
            let (q, i, e) = In-map (after_graduate source rows graduates) o rows old in
            let ids : q.id ≡ r.id =
              sym (give_status_id (old_ids source rows graduates) status_graduated q)
              ∙ sym (ap (λ z. z.id) e)
              ∙ same in
            e ∙ ap (after_graduate source rows graduates) (ids_differ q r i here ids)
        | inr new ↦
            let (_, _, (k, e)) = All-In (IsAdded new_id target continuing) o extra added new in
            absurd (fresh k r here (sym same ∙ e))
      ]

  unchanged :
      (r : EnrollmentRow)
      → In r rows
      → In r.student_id continuing
      → after_graduate source rows graduates r ≡ r
  unchanged r here m = elim (Bool-cases (has_id (old_ids source rows graduates) r.id)) [
    | inl e ↦
        let (s, o, graduating, found, same) = old_ids-eq-true source rows graduates r.id e in
        let (i, student, _) = old_of-eq-some source rows s found in
        let own : r.student_id ≡ s =
          sym (ap (λ z. z.student_id) (ids_differ o r i here same)) ∙ student in
        absurd (apart s graduating (subst (λ z. In z continuing) own m))
    | inr e ↦ rw e refl
  ]

  both_agree :
      (r : EnrollmentRow)
      → In r rows
      → Agrees r (
          remember source
            (with_added source rows graduates extra)
            continuing
            (noted_first source rows graduates))
  both_agree r here =
      remember-Agrees r source (with_added source rows graduates extra) continuing
        (noted_first source rows graduates)
        (remember-Agrees r source rows graduates [] tt (λ s o m found same.
          ap (λ z. z.status) (ids_differ o r ((old_of-eq-some source rows s found).0) here same)))
        (λ s o m found same.
          let (i, student, _) =
            old_of-eq-some source (with_added source rows graduates extra) s found in
          let now : o ≡ after_graduate source rows graduates r = more_row r o here i same in
          let own : s ≡ r.student_id =
            sym student
            ∙ ap (λ z. z.student_id) now
            ∙ ap (λ z. z.student_id)
                (give_status_core (old_ids source rows graduates) status_graduated r.status r) in
          ap (λ z. z.status) (now ∙ unchanged r here (subst (λ z. In z continuing) own m)))

  settled :
      (r : EnrollmentRow)
      → In r rows
      → noted r (
          remember source
            (with_added source rows graduates extra)
            continuing
            (noted_first source rows graduates))
        ≡ false
      → (has_id (old_ids source (with_added source rows graduates extra) continuing) r.id ≡ false)
        × (after_graduate source rows graduates r ≡ r)
  settled r here h =
      let second =
        has_id (old_ids source (with_added source rows graduates extra) continuing) r.id in
      let both : (second || noted r (noted_first source rows graduates)) ≡ false =
        sym (
          noted-remember r source (with_added source rows graduates extra) continuing
            (noted_first source rows graduates))
        ∙ h in
      let first : (has_id (old_ids source rows graduates) r.id || false) ≡ false =
        sym (noted-remember r source rows graduates [])
        ∙ or-eq-false_right second (noted r (noted_first source rows graduates)) both in
      (
        or-eq-false_left second (noted r (noted_first source rows graduates)) both,
        rw (or-eq-false_left (has_id (old_ids source rows graduates) r.id) false first) refl,
      )

  -- The notes give each row its status back.
  pub row_restored :
      (first_ids : List String) (first : EnrollmentStatus) (second_ids : List String)
      (second : EnrollmentStatus)
      → ((id : String)
          → has_id (old_ids source (with_added source rows graduates extra) continuing) id ≡ false
          → (has_id first_ids id ≡ false) × (has_id second_ids id ≡ false))
      → (r : EnrollmentRow) → In r rows
      → restored
          (remember source
            (with_added source rows graduates extra)
            continuing
            (noted_first source rows graduates))
          (give_status second_ids second
            (give_status first_ids first (after_graduate source rows graduates r)))
        ≡ r
  row_restored first_ids first second_ids second within r here =
      let once = after_graduate source rows graduates r in
      let twice = give_status first_ids first once in
      restored_row r
        (remember source (with_added source rows graduates extra) continuing
          (noted_first source rows graduates))
        (give_status second_ids second twice)
        (give_status_core second_ids second r.status twice
          ∙ give_status_core first_ids first r.status once
          ∙ give_status_core (old_ids source rows graduates) status_graduated r.status r)
        (both_agree r here)
        (λ h.
          let (missing, same) = settled r here h in
          let (unmoved, unrepeated) = within r.id missing in rw (same, unmoved, unrepeated) refl)
