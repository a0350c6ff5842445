-- ===== src/Rollover/Execute/Enrollments/Added.antt =====
-- The rows that a rollover's steps "graduate" and "promote" find and add
-- (apps/api/src/modules/rollover/rollover.service.ts).
use openlms.Base.{
  ℕ, suc, ◌≡◌, ◌∙◌, refl, ap, sym, inl, inr, true, false, ◌&&◌, String, List, [], ◌∷◌, ◌++◌, some,
  map, any, All, All-weaken, In, find-eq-some, arith, eq_iff, eq_refl, ◌=ₛ◌, Bool-cases,
  Option-cases,
}
use openlms.Base.Dict.{text_keys, Dict, lookup}
use openlms.Base.Texts.{Text}
use openlms.Rollover.Evaluation.{EnrollmentStatus, StudentDecision}
use openlms.Rollover.Execute.Enrollments.{
  EnrollmentRow, has_id, give_status, old_of, old_ids, same_enrollment, class_or_empty, status_for,
  add_enrollments,
}

-- Only the status of a row is set.
pub give_status_core :
    (ids : List String) (status st : EnrollmentStatus) (q : EnrollmentRow)
    → ◌≡◌ {A = EnrollmentRow}
        (record (give_status ids status q) { status = st })
        (record q { status = st })
give_status_core ids status st q = elim (Bool-cases (has_id ids q.id)) [
  | inl e ↦ rw e refl
  | inr e ↦ rw e refl
]

pub old_of-eq-some :
    (source : String) (rows : List EnrollmentRow) (s : String) {o : EnrollmentRow}
    → old_of source rows s ≡ some o
    → In o rows × (o.student_id ≡ s) × (o.academic_year_id ≡ source)
unfolding old_of
old_of-eq-some source rows s {o} h =
    let (m, passes) =
      find-eq-some (λ r. r.student_id =ₛ s && r.academic_year_id =ₛ source) rows h in
    (m, ground (arith, eq_iff o.student_id s), ground (arith, eq_iff o.academic_year_id source))

pub old_ids-eq-true :
    (source : String) (rows : List EnrollmentRow) (students : List String) (id : String)
    → has_id (old_ids source rows students) id ≡ true
    → (s : String) × (o : EnrollmentRow) × In s students
      × (old_of source rows s ≡ some o)
      × (o.id ≡ id)
unfolding old_ids
old_ids-eq-true source rows [] id h = cc
old_ids-eq-true source rows (s ∷ students) id h = elim (Option-cases (old_of source rows s)) [
  | inl e ↦
      let (t, o, m, found, same) = old_ids-eq-true source rows students id (rw (old_ids, e) at h) in
      (t, o, inr m, found, same)
  | inr (old, e) ↦ elim (Bool-cases (old.id =ₛ id)) [
    | inl here ↦ (s, old, inl refl, e, (eq_iff old.id id).0 here)
    | inr other ↦
        let (t, o, m, found, same) =
          old_ids-eq-true source rows students id (rw (old_ids, e, other) at h) in
        (t, o, inr m, found, same)
  ]
]

pub old_ids_of_In :
    (source : String) (rows : List EnrollmentRow) (students : List String) (s : String)
    {o : EnrollmentRow}
    → In s students
    → old_of source rows s ≡ some o
    → has_id (old_ids source rows students) o.id ≡ true
unfolding old_ids
old_ids_of_In source rows [] s m h = absurd m
old_ids_of_In source rows (t ∷ students) s {o} (inl same) h =
    rw (old_ids, sym same, h, eq_refl o.id) refl
old_ids_of_In source rows (t ∷ students) s {o} (inr m) h =
    elim (Option-cases (old_of source rows t)) [
      | inl e ↦ rw (old_ids, e) (old_ids_of_In source rows students s m h)
      | inr (old, e) ↦ rw (old_ids, e, old_ids_of_In source rows students s m h) (ground arith)
    ]

-- Fewer students have fewer old rows.
pub old_ids_fewer :
    (source : String) (rows : List EnrollmentRow) (fewer students : List String) (id : String)
    → ((s : String) → In s fewer → In s students)
    → has_id (old_ids source rows students) id ≡ false
    → has_id (old_ids source rows fewer) id ≡ false
old_ids_fewer source rows fewer students id h missing =
    elim (Bool-cases (has_id (old_ids source rows fewer) id)) [
      | inl e ↦
          let (s, o, m, found, same) = old_ids-eq-true source rows fewer id e in
          let clash : true ≡ has_id (old_ids source rows students) o.id =
            sym (old_ids_of_In source rows students s (h s m) found) in
          let here : true ≡ false =
            clash ∙ ap (has_id (old_ids source rows students)) same ∙ missing in
          cc
      | inr e ↦ e
    ]

append_nil : (rows : List EnrollmentRow) → rows ≡ rows ++ []
append_nil [] = refl
append_nil (r ∷ rows) = ap (λ z. r ∷ z) (append_nil rows)

append_assoc :
    (rows : List EnrollmentRow) (r : EnrollmentRow) (extra : List EnrollmentRow)
    → (rows ++ r ∷ []) ++ extra ≡ rows ++ r ∷ extra
append_assoc [] r extra = refl
append_assoc (q ∷ rows) r extra = ap (λ z. q ∷ z) (append_assoc rows r extra)

module _ (new_id : ℕ → String) (target : String) where
  -- a row that `createMany` made for one of the students
  abbrev pub IsAdded : List String → EnrollmentRow → Type 0
  IsAdded students q =
      (q.academic_year_id ≡ target) × In q.student_id students × ((k : ℕ) × (q.id ≡ new_id k))

  abbrev pub AddsTo : List EnrollmentRow → List String → List EnrollmentRow → Type 0
  AddsTo rows students more =
      (extra : List EnrollmentRow) × (more ≡ rows ++ extra) × All (IsAdded students) extra

  later :
      (s : String) (students : List String) (extra : List EnrollmentRow)
      → All (IsAdded students) extra
      → All (IsAdded (s ∷ students)) extra
  later s students extra h =
      All-weaken (IsAdded students) (IsAdded (s ∷ students)) extra
        (λ q added. (added.0, inr added.1, added.2)) h

  pub add_enrollments-AddsTo :
      {F : Type 0} (classes : Dict String Text) (n : ℕ) (rows : List EnrollmentRow)
      (decisions : List (StudentDecision F))
      → AddsTo rows
          (map (λ d. d.student_id) decisions)
          (add_enrollments new_id target classes n rows decisions)
  unfolding add_enrollments
  add_enrollments-AddsTo classes n rows [] = ([], append_nil rows, tt)
  add_enrollments-AddsTo classes n rows (d ∷ decisions) =
      let row : EnrollmentRow = record {
        id = new_id n;
        student_id = d.student_id;
        class_id = class_or_empty (lookup d.student_id classes);
        academic_year_id = target;
        status = status_for d.action;
      } in
      elim (Bool-cases (any (same_enrollment row) rows)) [
        | inl e ↦
            let (extra, same, added) = add_enrollments-AddsTo classes n rows decisions in
            (
              extra,
              rw (add_enrollments, e) same,
              later d.student_id (map (λ d. d.student_id) decisions) extra added,
            )
        | inr e ↦
            let (extra, same, added) =
              add_enrollments-AddsTo classes (suc n) (rows ++ row ∷ []) decisions in
            (
              row ∷ extra,
              rw (add_enrollments, e) (same ∙ append_assoc rows row extra),
              (
                (refl, inl refl, (n, refl)),
                later d.student_id (map (λ d. d.student_id) decisions) extra added,
              ),
            )
      ]
