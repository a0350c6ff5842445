-- ===== src/Rollover/Tests.antt =====
-- Runs of the promotion plan at concrete students; scores are whole numbers here.
use openlms.Base.{◌≡◌, refl, ℕ, ◌+◌, ◌/◌, true, false, List, [], ◌∷◌, ◌++◌, String, inl, leb}
use openlms.Base.Dict.{text_keys, Dict, lookup}
use openlms.Base.Texts.{codes, Text}
use openlms.Base.Int.{pos}
use openlms.Rollover.ClassName.{digits, next_class_name}
use openlms.Base.Result.{ok}
use openlms.Rollover.Execute.{place_students}
use openlms.Rollover.Execute.Placement.{place_students_returns}
use openlms.Rollover.Evaluation.{
  Scores, EnrollmentStatus, status_active, status_transferred, RolloverAction, promoted, repeated,
  graduated, transferred, dropped, PromotionConfig, StudentEvaluation, evaluate_student,
}
use openlms.Rollover.Promotion.{build_promotion_plan}
use openlms.Rollover.Promotion.Classes.{IsPlaced, plan_places_students}
use openlms.Rollover.Promotion.Unique.{HasUniqueKeys, plan-HasUniqueKeys}

instance abbrev whole_scores : Scores ℕ
whole_scores = record {
  nought = 0;
  plus = λ a b. a + b;
  over = λ a n. a / n;
  at_least = λ a b. leb b a;
}

abbrev config : PromotionConfig ℕ
config = record { passing_score = 60; min_attendance_rate = 75; max_grade_level = pos 12 }

abbrev student : String → ℕ → ℕ → StudentEvaluation ℕ
student id grade score = record {
  student_id = id;
  source_class_id = codes "c1";
  source_class_name = codes "X IPA 1";
  grade_level = pos grade;
  current_status = status_active;
  final_scores = ("math", score) ∷ ("art", 80) ∷ [];
  attendance_rate = 90;
}

abbrev students : List (StudentEvaluation ℕ)
students = student "s1" 10 70 ∷ student "s2" 10 20 ∷ student "s3" 12 90 ∷ student "s4" 10 75 ∷ []

abbrev overrides : Dict String RolloverAction
overrides = ("s4", dropped) ∷ []

name_of_next_class : next_class_name (codes "x ipa 1") (pos 11) false ≡ codes "XI ipa 1"
unfolding next_class_name openlms.Rollover.ClassName.without_prefix openlms.Rollover.ClassName.roman
name_of_next_class = refl

name_of_repeated_class : next_class_name (codes "XIIa") (pos 12) true ≡ codes "XII a (U)"
unfolding next_class_name openlms.Rollover.ClassName.without_prefix openlms.Rollover.ClassName.roman
name_of_repeated_class = refl

name_of_other_grade : next_class_name (codes " XX ") (pos 7) false ≡ codes "7 XX"
unfolding next_class_name openlms.Rollover.ClassName.without_prefix openlms.Rollover.ClassName.roman
    openlms.Rollover.ClassName.to_text openlms.Rollover.ClassName.digits_before
name_of_other_grade = refl

actions_are_counted : (build_promotion_plan students config overrides).counts ≡ record {
  of_promoted = 1;
  of_repeated = 1;
  of_graduated = 1;
  of_transferred = 0;
  of_dropped = 1;
}
unfolding build_promotion_plan evaluate_student lookup openlms.Rollover.Evaluation.evaluate_scores
    openlms.Rollover.Evaluation.passes
actions_are_counted = refl

plan_places_students_example :
    IsPlaced
      ((build_promotion_plan students config overrides).classes)
      (student "s1" 10 70)
      (evaluate_student config overrides (student "s1" 10 70))
      promoted
unfolding lookup evaluate_student openlms.Rollover.Evaluation.evaluate_scores
    openlms.Rollover.Evaluation.passes
plan_places_students_example =
    plan_places_students students config overrides (student "s1" 10 70) (inl refl) refl refl

plan-HasUniqueKeys_example :
    HasUniqueKeys ((build_promotion_plan students config overrides).classes)
plan-HasUniqueKeys_example = plan-HasUniqueKeys students config overrides

abbrev class_named : ℕ → Text
class_named n = codes "class" ++ digits n

place_students_returns_example :
    (m : Dict String Text) × (place_students class_named students config [] [] ≡ ok m)
unfolding lookup
place_students_returns_example =
    place_students_returns class_named (λ n. refl) students config [] []
      (refl, (refl, (refl, (refl, tt))))
