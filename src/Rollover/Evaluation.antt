-- ===== src/Rollover/Evaluation.antt =====
-- The decision on one student: `evaluateStudent` of
-- apps/api/src/modules/rollover/rollover.promotion.ts. Scores and rates are doubles there; here
-- they are of any type with the three operations that the code uses.
use openlms.Base.Texts.{Text}
use openlms.Base.{
  ℕ, Bool, true, false, ◌&&◌, String, List, [], ◌∷◌, Option, none, some, length, if◌then◌else◌,
}
use openlms.Base.Dict.{text_keys, Dict, lookup, values}
use openlms.Base.Int.{ℤ, pos, ◌+ℤ◌, leb_ℤ}
use openlms.Rollover.Keys.{target_class_key}

-- `+`, `/` and `>=` of the scores
pub record Scores (F : Type 0) : Type 0 where
  pub nought : F
  pub plus : F → F → F
  pub over : F → ℕ → F
  pub at_least : F → F → Bool

pub data EnrollmentStatus : Type 0 where
  status_active status_transferred status_graduated status_dropped status_promoted status_repeated :
      EnrollmentStatus

pub data RolloverAction : Type 0 where
  promoted repeated graduated transferred dropped : RolloverAction

pub record PromotionConfig (F : Type 0) : Type 0 where
  pub passing_score : F
  pub min_attendance_rate : F
  pub max_grade_level : ℤ

pub record StudentEvaluation (F : Type 0) : Type 0 where
  pub student_id : String
  pub source_class_id : Text
  pub source_class_name : Text
  pub grade_level : ℤ
  pub current_status : EnrollmentStatus
  pub final_scores : Dict String F
  pub attendance_rate : F

-- the texts of `reason`, with the values printed in them
pub data Reason (F : Type 0) : Type 0 where
  by_override was_transferred was_dropped passed_final_class moved_up : Reason F
  invalid_grade_level : ℤ → Reason F
  failed_final_class stays : Option F → Reason F

pub record StudentDecision (F : Type 0) : Type 0 where
  pub student_id : String
  pub source_class_id : Text
  pub action : RolloverAction
  pub average_score : Option F
  pub target_key : Option Text
  pub reason : Reason F

module _ {F : Type 0} ⦃e : Scores F⦄ where
  abbrev pub total : F → List F → F
  total acc [] = acc
  total acc (x ∷ xs) = total (e.plus acc x) xs

  -- `scores.length === 0 ? null : average(scores)`
  abbrev pub average : List F → Option F
  average [] = none
  average (x ∷ xs) = some (e.over (total e.nought (x ∷ xs)) (length (x ∷ xs)))

  abbrev pub reaches : F → Option F → Bool
  reaches bound none = false
  reaches bound (some x) = e.at_least x bound

  unfoldable pub passes : PromotionConfig F → StudentEvaluation F → Bool
  passes config student =
      reaches config.passing_score (average (values student.final_scores))
      && e.at_least student.attendance_rate config.min_attendance_rate

  abbrev pub decision :
      StudentEvaluation F → RolloverAction → Option F → Option Text → Reason F → StudentDecision F
  decision student action average_score target_key reason = record {
    student_id = student.student_id;
    source_class_id = student.source_class_id;
    action = action;
    average_score = average_score;
    target_key = target_key;
    reason = reason;
  }

  abbrev pub key_at : StudentEvaluation F → ℤ → Bool → Option Text
  key_at student grade again = some (target_class_key student.source_class_id grade again)

  -- the rule by scores and attendance
  unfoldable pub evaluate_scores : PromotionConfig F → StudentEvaluation F → StudentDecision F
  evaluate_scores config student =
      let avg = average (values student.final_scores) in
      let passed = passes config student in
      let grade = student.grade_level in
      if leb_ℤ grade (pos 0)
      then decision student repeated avg (key_at student grade true) (invalid_grade_level grade)
      else if leb_ℤ config.max_grade_level grade
      then (if passed
          then decision student graduated avg none passed_final_class
          else decision student repeated avg (key_at student grade true) (failed_final_class avg))
      else if passed
      then decision student promoted avg (key_at student (grade +ℤ pos 1) false) moved_up
      else decision student repeated avg (key_at student grade true) (stays avg)

  abbrev pub by_status :
      EnrollmentStatus → PromotionConfig F → StudentEvaluation F → StudentDecision F
  by_status status_transferred config student =
      decision student transferred none none was_transferred
  by_status status_dropped config student = decision student dropped none none was_dropped
  by_status status_active config student = evaluate_scores config student
  by_status status_graduated config student = evaluate_scores config student
  by_status status_promoted config student = evaluate_scores config student
  by_status status_repeated config student = evaluate_scores config student

  abbrev pub overridden :
      Option RolloverAction → PromotionConfig F → StudentEvaluation F → StudentDecision F
  overridden (some action) config student = decision student action none none by_override
  overridden none config student = by_status student.current_status config student

  unfoldable pub evaluate_student :
      PromotionConfig F → Dict String RolloverAction → StudentEvaluation F → StudentDecision F
  evaluate_student config overrides student =
      overridden (lookup student.student_id overrides) config student
