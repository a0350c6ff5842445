-- ===== src/Rollover/Execute/Enrollments/Undo.antt =====
-- `rollback` after the steps "graduate" and "promote" of
-- apps/api/src/modules/rollover/rollover.service.ts, for the enrollments.
use openlms.Base.{
  Bool, In-append, All-In, any_of_In, eq_refl, ◌=ₛ◌, ℕ, ◌≡◌, ◌≢◌, ◌∙◌, refl, ap, sym, subst, inl,
  inr, true, false, not, String, List, [], ◌∷◌, map, filter, All, In, In-map, and-eq-true_left,
}
use openlms.Base.Dict.{text_keys, Dict}
use openlms.Base.Texts.{Text}
use openlms.Rollover.Evaluation.{
  EnrollmentStatus, status_graduated, status_promoted, status_repeated, StudentDecision,
}
use openlms.Rollover.Execute.{is_continuing}
use openlms.Rollover.Execute.Enrollments.{
  has_row, EnrollmentRow, Created, has_id, give_status, old_ids, remember, restore, undo,
  is_graduating, is_repeating, is_moving, set_statuses, repeats_first, created_ids, students_with,
  graduate, promote,
}
use openlms.Rollover.Execute.Enrollments.Notes.{
  HaveRows, give_status-HaveRows, remember-HaveRows, restored, restore-eq-map,
}
use openlms.Rollover.Execute.Enrollments.Added.{
  old_of-eq-some, old_ids_fewer, IsAdded, add_enrollments-AddsTo,
}
use openlms.Rollover.Execute.Enrollments.Agreement.{
  give_status_id, after_graduate, noted_first, with_added, row_restored,
}
use openlms.Rollover.Execute.Enrollments.Deletion.{deleted}
use openlms.Rollover.Execute.Enrollments.Students.{both_actions, fewer_students}

module _ {A : Type 0} where
  map_back :
      (f g h k : A → A) (xs : List A)
      → ((x : A) → In x xs → k (h (g (f x))) ≡ x)
      → map k (map h (map g (map f xs))) ≡ xs
  map_back f g h k [] e = refl
  map_back f g h k (x ∷ xs) e = rw (e x (inl refl), map_back f g h k xs (λ y m. e y (inr m))) refl

module _ (source target : String) (rows : List EnrollmentRow) (graduates continuing : List String)
    (ids_differ : (r q : EnrollmentRow) → In r rows → In q rows → r.id ≡ q.id → r ≡ q)
    (next_empty : (r : EnrollmentRow) → In r rows → r.academic_year_id ≢ target)
    (apart : (s : String) → In s graduates → In s continuing → ⊥) (new_id : ℕ → String)
    (fresh : (k : ℕ) (r : EnrollmentRow) → In r rows → r.id ≢ new_id k) (extra : List EnrollmentRow)
    (added : All (IsAdded new_id target continuing) extra) where
  -- The rows that were noted stood before the first step.
  notes-HaveRows :
      source ≢ target
      → HaveRows rows (
          remember source
            (with_added source rows graduates extra)
            continuing
            (noted_first source rows graduates))
  notes-HaveRows years =
      remember-HaveRows rows (with_added source rows graduates extra) source continuing
        (noted_first source rows graduates)
        (λ s o found.
          let (m, _, year) =
            old_of-eq-some source (with_added source rows graduates extra) s found in
          elim (In-append o (map (after_graduate source rows graduates) rows) extra m) [
            | inl old ↦
                let (q, i, e) = In-map (after_graduate source rows graduates) o rows old in
                let same : o.id ≡ q.id =
                  ap (λ z. z.id) e
                  ∙ give_status_id (old_ids source rows graduates) status_graduated q in
                ap (has_row rows) same ∙ any_of_In (λ r. r.id =ₛ q.id) q rows i (eq_refl q.id)
            | inr new ↦
                absurd (
                  years
                    (sym year ∙ (All-In (IsAdded new_id target continuing) o extra added new).0))
          ])
        (remember-HaveRows rows rows source graduates []
          (λ s o found.
            any_of_In (λ r. r.id =ₛ o.id) o rows ((old_of-eq-some source rows s found).0)
              (eq_refl o.id))
          tt)

  undone :
      source ≢ target
      → (first_ids : List String) (first : EnrollmentStatus) (second_ids : List String)
        (second : EnrollmentStatus)
      → ((id : String)
          → has_id (old_ids source (with_added source rows graduates extra) continuing) id ≡ false
          → (has_id first_ids id ≡ false) × (has_id second_ids id ≡ false))
      → undo
          (record {
            enrollment_ids = created_ids target continuing (with_added source rows graduates extra);
            previous_status =
                remember source
                  (with_added source rows graduates extra)
                  continuing
                  (noted_first source rows graduates);
          })
          (map
            (give_status second_ids second)
            (map (give_status first_ids first) (with_added source rows graduates extra)))
        ≡ (true, rows)
  unfolding undo
  undone years first_ids first second_ids second within =
      let notes =
        remember source (with_added source rows graduates extra) continuing
          (noted_first source rows graduates) in
      ap (restore notes) (
        deleted source target rows graduates continuing ids_differ next_empty apart new_id fresh
          extra added first_ids first second_ids second)
      ∙ restore-eq-map notes
          (map (give_status second_ids second)
            (map (give_status first_ids first) (map (after_graduate source rows graduates) rows)))
          (give_status-HaveRows second_ids second
            (map (give_status first_ids first) (map (after_graduate source rows graduates) rows))
            notes
            (give_status-HaveRows first_ids first (map (after_graduate source rows graduates) rows)
              notes
              (give_status-HaveRows (old_ids source rows graduates) status_graduated rows notes
                (notes-HaveRows years))))
      ∙ ap (λ qs. (true, qs))
          (map_back (after_graduate source rows graduates) (give_status first_ids first)
            (give_status second_ids second) (restored notes) rows
            (row_restored source target rows graduates continuing ids_differ apart new_id fresh
              extra added first_ids first second_ids second within))

  -- In whichever order the two statuses are given.
  undone_either :
      source ≢ target
      → (repeats : Bool) (moving repeating : List String)
      → ((id : String)
          → has_id (old_ids source (with_added source rows graduates extra) continuing) id ≡ false
          → (has_id moving id ≡ false) × (has_id repeating id ≡ false))
      → undo
          (record {
            enrollment_ids = created_ids target continuing (with_added source rows graduates extra);
            previous_status =
                remember source
                  (with_added source rows graduates extra)
                  continuing
                  (noted_first source rows graduates);
          })
          (set_statuses repeats moving repeating (with_added source rows graduates extra))
        ≡ (true, rows)
  undone_either years true moving repeating within =
      undone years repeating status_repeated moving status_promoted
        (λ id h. ((within id h).1, (within id h).0))
  undone_either years false moving repeating within =
      undone years moving status_promoted repeating status_repeated within

abbrev pub nothing_created : Created
nothing_created = record { enrollment_ids = []; previous_status = [] }

module _ {F : Type 0} where
  -- Let the source and the target be different years, no two enrollments have one id, none stand
  -- in the target year, the ids that the database draws be new, and no student both graduate and
  -- continue. After "graduate" and "promote", the updates of `rollback` all end, and exactly the
  -- enrollments stand that stood before: the new ones are deleted, and each old one has the status
  -- it had.
  pub undo_restores :
      (new_id : ℕ → String) (source target : String) (classes : Dict String Text)
      (decisions : List (StudentDecision F)) (rows : List EnrollmentRow)
      → source ≢ target
      → ((r q : EnrollmentRow) → In r rows → In q rows → r.id ≡ q.id → r ≡ q)
      → ((r : EnrollmentRow) → In r rows → r.academic_year_id ≢ target)
      → ((k : ℕ) (r : EnrollmentRow) → In r rows → r.id ≢ new_id k)
      → ((s : String)
          → In s (students_with is_graduating decisions)
          → In s (students_with is_continuing decisions)
          → ⊥)
      → let first = graduate source decisions nothing_created rows in
        let second = promote new_id source target classes decisions first.0 first.1 in
        undo second.0 second.1 ≡ (true, rows)
  unfolding graduate promote
  undo_restores new_id source target classes decisions rows years ids_differ next_empty fresh
        apart =
      let graduates = students_with is_graduating decisions in
      let continuing = students_with is_continuing decisions in
      let start = map (after_graduate source rows graduates) rows in
      let (extra, same, added) =
        add_enrollments-AddsTo new_id target classes 0 start
          (filter (λ d. is_continuing d.action) decisions) in
      subst
        (λ more.
          undo
            (record {
              enrollment_ids = created_ids target continuing more;
              previous_status = remember source more continuing (noted_first source rows graduates);
            })
            (set_statuses
              (repeats_first source more (filter (λ d. is_continuing d.action) decisions))
              (old_ids source more (students_with is_moving decisions))
              (old_ids source more (students_with is_repeating decisions)) more)
          ≡ (true, rows))
        (sym same)
        (undone_either source target rows graduates continuing ids_differ next_empty apart new_id
          fresh extra added years
          (repeats_first source (with_added source rows graduates extra)
            (filter (λ d. is_continuing d.action) decisions))
          (old_ids source (with_added source rows graduates extra)
            (students_with is_moving decisions))
          (old_ids source (with_added source rows graduates extra)
            (students_with is_repeating decisions))
          (λ id missing. (
            old_ids_fewer source (with_added source rows graduates extra)
                (students_with is_moving decisions) continuing id
                (fewer_students is_moving is_continuing decisions
                  (λ a h. and-eq-true_left (is_continuing a) (not (is_repeating a)) h))
                missing,
            old_ids_fewer source (with_added source rows graduates extra)
                (students_with is_repeating decisions) continuing id
                (fewer_students is_repeating is_continuing decisions (λ a h. both_actions a h))
                missing,
          )))
