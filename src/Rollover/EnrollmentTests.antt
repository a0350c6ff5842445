-- ===== src/Rollover/EnrollmentTests.antt =====
-- Runs of what a rollover writes to the enrollments, and undoes, at concrete rows.
use openlms.Base.{
  ℕ, zero, suc, ◌≡◌, ◌≢◌, ◌∙◌, refl, ap, sym, inl, inr, List, [], ◌∷◌, In, All, All-In, ◌=ₛ◌, Bool,
  true, false, eq_iff, none, map, String, arith,
}
use openlms.Rollover.Evaluation.{
  RolloverAction, promoted, repeated, graduated, StudentDecision, status_active, status_graduated,
  status_promoted, status_repeated, moved_up,
}
use openlms.Rollover.Execute.Enrollments.{
  EnrollmentRow, is_graduating, students_with, graduate, promote, undo, remember, old_of, old_ids,
  add_enrollments, restore,
}
use openlms.Rollover.Execute.{is_continuing}
use openlms.Rollover.Execute.Enrollments.Undo.{nothing_created, undo_restores}

abbrev enrolled : String → String → String → EnrollmentRow
enrolled id student year = record {
  id = id;
  student_id = student;
  class_id = [];
  academic_year_id = year;
  status = status_active;
}

abbrev decided : String → RolloverAction → StudentDecision ℕ
decided student action = record {
  student_id = student;
  source_class_id = [];
  action = action;
  average_score = none;
  target_key = none;
  reason = moved_up;
}

abbrev decisions : List (StudentDecision ℕ)
decisions = decided "s1" graduated ∷ decided "s2" promoted ∷ decided "s3" repeated ∷ []

abbrev three : List EnrollmentRow
three = enrolled "e1" "s1" "y1" ∷ enrolled "e2" "s2" "y1" ∷ enrolled "e3" "s3" "y1" ∷ []

abbrev drawn : ℕ → String
drawn zero = "n0"
drawn (suc zero) = "n1"
drawn (suc (suc n)) = "n2"

unlike : (s t : String) → (s =ₛ t) ≡ false → s ≢ t
unlike s t h e = let clash : true ≡ false = sym ((eq_iff s t).1 e) ∙ h in cc

differ : (r q : EnrollmentRow) → In r three → In q three → r.id ≡ q.id → r ≡ q
differ r q m k h =
    All-In (λ r. r.id ≡ q.id → r ≡ q) r three
      (All-In (λ q. All (λ r. r.id ≡ q.id → r ≡ q) three) q three
        (
          (
            (λ h. refl),
            (
              (λ h. absurd (unlike "e2" "e1" refl h)),
              ((λ h. absurd (unlike "e3" "e1" refl h)), tt),
            ),
          ),
          (
            (
              (λ h. absurd (unlike "e1" "e2" refl h)),
              ((λ h. refl), ((λ h. absurd (unlike "e3" "e2" refl h)), tt)),
            ),
            (
              (
                (λ h. absurd (unlike "e1" "e3" refl h)),
                ((λ h. absurd (unlike "e2" "e3" refl h)), ((λ h. refl), tt)),
              ),
              tt,
            ),
          ),
        )
        k)
      m h

first_year_only : (r : EnrollmentRow) → In r three → r.academic_year_id ≢ "y2"
first_year_only r m =
    All-In (λ r. r.academic_year_id ≢ "y2") r three
      (unlike "y1" "y2" refl, (unlike "y1" "y2" refl, (unlike "y1" "y2" refl, tt))) m

drawn_new : (k : ℕ) (r : EnrollmentRow) → In r three → r.id ≢ drawn k
drawn_new zero r m =
    All-In (λ r. r.id ≢ "n0") r three
      (unlike "e1" "n0" refl, (unlike "e2" "n0" refl, (unlike "e3" "n0" refl, tt))) m
drawn_new (suc zero) r m =
    All-In (λ r. r.id ≢ "n1") r three
      (unlike "e1" "n1" refl, (unlike "e2" "n1" refl, (unlike "e3" "n1" refl, tt))) m
drawn_new (suc (suc k)) r m =
    All-In (λ r. r.id ≢ "n2") r three
      (unlike "e1" "n2" refl, (unlike "e2" "n2" refl, (unlike "e3" "n2" refl, tt))) m

apart :
    (s : String)
    → In s (students_with is_graduating decisions)
    → In s (students_with is_continuing decisions)
    → ⊥
apart s (inl e) (inl d) = unlike "s1" "s2" refl (sym e ∙ d)
apart s (inl e) (inr (inl d)) = unlike "s1" "s3" refl (sym e ∙ d)
apart s (inl e) (inr (inr d)) = elim d [ ]
apart s (inr e) d = elim e [ ]

undo_restores_example :
    (let first = graduate "y1" decisions nothing_created three in
      let second = promote drawn "y1" "y2" [] decisions first.0 first.1 in undo second.0 second.1)
    ≡ (true, three)
undo_restores_example =
    undo_restores drawn "y1" "y2" [] decisions three (unlike "y1" "y2" refl) differ first_year_only
      drawn_new apart

-- After the two steps the old rows have the statuses of their actions.
steps_write :
    (let first = graduate "y1" decisions nothing_created three in
      map (λ r. r.status) ((promote drawn "y1" "y2" [] decisions first.0 first.1).1))
    ≡ status_graduated ∷ status_promoted ∷ status_repeated ∷ status_promoted ∷ status_repeated ∷ []
unfolding graduate promote remember old_of old_ids add_enrollments openlms.Base.Dict.lookup
steps_write = refl

-- An enrollment of the target year that stood before is deleted by the rollback.
earlier_is_lost :
    (let second =
        promote {F = ℕ} drawn "y1" "y2" []
          (decided "s2" promoted ∷ [])
          nothing_created
          (enrolled "e2" "s2" "y1" ∷ enrolled "f2" "s2" "y2" ∷ []) in
      map (λ r. r.id) ((undo second.0 second.1).1))
    ≡ "e2" ∷ []
unfolding promote remember old_of old_ids add_enrollments undo restore openlms.Base.Dict.lookup
    openlms.Base.Dict.insert
earlier_is_lost = refl
