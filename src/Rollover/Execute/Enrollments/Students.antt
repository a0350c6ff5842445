-- ===== src/Rollover/Execute/Enrollments/Students.antt =====
-- The students of the steps "graduate" and "promote" of
-- apps/api/src/modules/rollover/rollover.service.ts.
use openlms.Base.{
  ◌≡◌, refl, sym, subst, Bool, true, String, List, filter, filter-In, In-filter, In, In-map, map-In,
}
use openlms.Base.Dict.{text_keys}
use openlms.Rollover.Evaluation.{
  RolloverAction, promoted, repeated, graduated, transferred, dropped, StudentDecision,
}
use openlms.Rollover.Execute.{is_continuing}
use openlms.Rollover.Execute.Enrollments.{is_repeating, students_with}

pub both_actions :
    (action : RolloverAction) → (is_repeating action ≡ true) → is_continuing action ≡ true
both_actions promoted h = refl
both_actions repeated h = refl
both_actions graduated h = cc
both_actions transferred h = cc
both_actions dropped h = cc

module _ {F : Type 0} where
  students_with-In :
      (chosen : RolloverAction → Bool) (decisions : List (StudentDecision F)) (s : String)
      → In s (students_with chosen decisions)
      → (d : StudentDecision F) × In d decisions × (chosen d.action ≡ true) × (s ≡ d.student_id)
  students_with-In chosen decisions s m =
      let (d, i, e) = In-map (λ d. d.student_id) s (filter (λ d. chosen d.action) decisions) m in
      let (here, passes) = In-filter (λ d. chosen d.action) d decisions i in (d, here, passes, e)

  pub fewer_students :
      (fewer more : RolloverAction → Bool) (decisions : List (StudentDecision F))
      → ((a : RolloverAction) → fewer a ≡ true → more a ≡ true)
      → (s : String) → In s (students_with fewer decisions)
      → In s (students_with more decisions)
  fewer_students fewer more decisions h s m =
      let (d, i, passes, e) = students_with-In fewer decisions s m in
      subst (λ z. In z (students_with more decisions)) (sym e)
        (map-In (λ d. d.student_id) d (filter (λ d. more d.action) decisions)
          (filter-In (λ d. more d.action) d decisions i (h d.action passes)))
