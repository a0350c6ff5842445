-- ===== src/Rollover/Execute/Enrollments/Deletion.antt =====
-- What `rollback` deletes after the steps "graduate" and "promote" of
-- apps/api/src/modules/rollover/rollover.service.ts.
use openlms.Base.{
  ℕ, ◌≡◌, ◌≢◌, ◌∙◌, refl, ap, sym, inl, inr, Bool, true, false, not, String, List, [], ◌∷◌, ◌++◌,
  map, map-append, filter, filter_none, filter-In, In-filter, any-eq-true, any_of_In, All, All-In,
  In, In-append_right, In-map, map-In, arith, eq_iff, eq_refl, ◌=ₛ◌, Bool-cases,
}
use openlms.Base.Dict.{text_keys}
use openlms.Rollover.Evaluation.{EnrollmentStatus, status_graduated}
use openlms.Rollover.Execute.Enrollments.{
  EnrollmentRow, has_id, give_status, old_ids, delete_ids, is_created, created_ids,
}
use openlms.Rollover.Execute.Enrollments.Added.{give_status_core, IsAdded}
use openlms.Rollover.Execute.Enrollments.Agreement.{
  give_status_id, after_graduate, with_added, more_row,
}

module _ {A : Type 0} where
  filter-append :
      (p : A → Bool) (xs ys : List A)
      → ((x : A) → In x xs → p x ≡ true)
      → ((y : A) → In y ys → p y ≡ false)
      → filter p (xs ++ ys) ≡ xs
  filter-append p [] ys h k = filter_none p ys k
  filter-append p (x ∷ xs) ys h k =
      rw (h x (inl refl)) (ap (λ z. x ∷ z) (filter-append p xs ys (λ y m. h y (inr m)) k))

module _ (source target : String) (rows : List EnrollmentRow) (graduates continuing : List String)
    (ids_differ : (r q : EnrollmentRow) → In r rows → In q rows → r.id ≡ q.id → r ≡ q)
    (next_empty : (r : EnrollmentRow) → In r rows → r.academic_year_id ≢ target)
    (apart : (s : String) → In s graduates → In s continuing → ⊥) (new_id : ℕ → String)
    (fresh : (k : ℕ) (r : EnrollmentRow) → In r rows → r.id ≢ new_id k) (extra : List EnrollmentRow)
    (added : All (IsAdded new_id target continuing) extra) where
  kept :
      (r : EnrollmentRow)
      → In r rows
      → has_id (created_ids target continuing (with_added source rows graduates extra)) r.id ≡ false
  kept r here =
      elim (Bool-cases
        (has_id (created_ids target continuing (with_added source rows graduates extra)) r.id)) [
          | inl e ↦
              let (i, m, same) =
                any-eq-true (λ i. i =ₛ r.id)
                  (created_ids target continuing (with_added source rows graduates extra)) e in
              let (q, chosen, id) =
                In-map (λ q. q.id) i
                  (filter (is_created target continuing) (with_added source rows graduates extra))
                  m in
              let (there, passes) =
                In-filter (is_created target continuing) q (with_added source rows graduates extra)
                  chosen in
              let now : q ≡ after_graduate source rows graduates r =
                more_row source target rows graduates continuing ids_differ apart new_id fresh extra
                  added r q here there (sym id ∙ (eq_iff i r.id).0 same) in
              let year : q.academic_year_id ≡ target =
                ground (arith, passes, eq_iff q.academic_year_id target) in
              absurd (
                next_empty r here (
                  sym (
                    ap (λ z. z.academic_year_id)
                      (give_status_core (old_ids source rows graduates) status_graduated r.status
                        r))
                  ∙ sym (ap (λ z. z.academic_year_id) now)
                  ∙ year))
          | inr e ↦ e
        ]

  gone :
      (q : EnrollmentRow)
      → In q extra
      → has_id (created_ids target continuing (with_added source rows graduates extra)) q.id ≡ true
  gone q m =
      let (year, student, _) = All-In (IsAdded new_id target continuing) q extra added m in
      any_of_In (λ i. i =ₛ q.id) q.id
        (created_ids target continuing (with_added source rows graduates extra))
        (map-In (λ z. z.id) q
          (filter (is_created target continuing) (with_added source rows graduates extra))
          (filter-In (is_created target continuing) q (with_added source rows graduates extra)
            (In-append_right q (map (after_graduate source rows graduates) rows) extra m)
            (rw
              (
                any_of_In (λ s. s =ₛ q.student_id) q.student_id continuing student
                    (eq_refl q.student_id),
                year,
                eq_refl target,
              )
              refl)))
        (eq_refl q.id)

  -- `deleteMany` takes the rows that were added, and no other.
  pub deleted :
      (first_ids : List String) (first : EnrollmentStatus) (second_ids : List String)
      (second : EnrollmentStatus)
      → delete_ids (created_ids target continuing (with_added source rows graduates extra)) (
          map
            (give_status second_ids second)
            (map (give_status first_ids first) (with_added source rows graduates extra)))
        ≡ map
            (give_status second_ids second)
            (map (give_status first_ids first) (map (after_graduate source rows graduates) rows))
  deleted first_ids first second_ids second =
      let f = give_status first_ids first in
      let g = give_status second_ids second in
      let old = map (after_graduate source rows graduates) rows in
      let ids = created_ids target continuing (with_added source rows graduates extra) in
      ap (λ z. delete_ids ids (map g z)) (map-append f old extra)
      ∙ ap (delete_ids ids) (map-append g (map f old) (map f extra))
      ∙ filter-append (λ r. not (has_id ids r.id)) (map g (map f old)) (map g (map f extra))
          (λ x m.
            let (y, i, e) = In-map g x (map f old) m in
            let (z, j, d) = In-map f y old i in
            let (r, here, c) = In-map (after_graduate source rows graduates) z rows j in
            let same : x.id ≡ r.id =
              ap (λ q. q.id) e
              ∙ give_status_id second_ids second y
              ∙ ap (λ q. q.id) d
              ∙ give_status_id first_ids first z
              ∙ ap (λ q. q.id) c
              ∙ give_status_id (old_ids source rows graduates) status_graduated r in
            ap (λ i. not (has_id ids i)) same ∙ ap not (kept r here))
          (λ x m.
            let (y, i, e) = In-map g x (map f extra) m in
            let (q, j, d) = In-map f y extra i in
            let same : x.id ≡ q.id =
              ap (λ q. q.id) e
              ∙ give_status_id second_ids second y
              ∙ ap (λ q. q.id) d
              ∙ give_status_id first_ids first q in
            ap (λ i. not (has_id ids i)) same ∙ ap not (gone q j))
