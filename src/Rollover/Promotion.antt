-- ===== src/Rollover/Promotion.antt =====
-- The plan of a rollover: `buildPromotionPlan` of
-- apps/api/src/modules/rollover/rollover.promotion.ts.
pub mod Classes
pub mod Unique
use openlms.Base.{
  ℕ, suc, ◌+◌, ◌≡◌, Bool, true, false, ◌&&◌, not, String, List, [], ◌∷◌, Option, none, some, map,
  ◌=ₛ◌, ◌==◌, any, find, get_elem?, length, leb, if◌then◌else◌,
}
use openlms.Base.Dict.{Keyed, text_keys, Dict, lookup, values}
use openlms.Base.Texts.{codes, Text, same_text}
use openlms.Base.Int.{ℤ, pos, ◌+ℤ◌, leb_ℤ}
use openlms.Rollover.ClassName.{next_class_name}
use openlms.Rollover.Keys.{target_class_key, split_colons, to_number}
use openlms.Rollover.Evaluation.{
  Scores, RolloverAction, promoted, repeated, graduated, transferred, dropped, PromotionConfig,
  StudentEvaluation, StudentDecision, evaluate_student,
}

pub record NewClassPlan : Type 0 where
  pub key : Text
  pub source_class_id : Text
  pub name : Text
  pub grade_level : Option ℤ
  pub repeats : Bool

pub record Counts : Type 0 where
  pub of_promoted : ℕ
  pub of_repeated : ℕ
  pub of_graduated : ℕ
  pub of_transferred : ℕ
  pub of_dropped : ℕ

pub record PromotionPlan (F : Type 0) : Type 0 where
  pub decisions : List (StudentDecision F)
  pub classes : List NewClassPlan
  pub counts : Counts

abbrev pub no_counts : Counts
no_counts = record {
  of_promoted = 0;
  of_repeated = 0;
  of_graduated = 0;
  of_transferred = 0;
  of_dropped = 0;
}

-- `counts[d.action] += 1`
abbrev pub count_up : RolloverAction → Counts → Counts
count_up promoted counts = record counts { of_promoted = suc counts.of_promoted }
count_up repeated counts = record counts { of_repeated = suc counts.of_repeated }
count_up graduated counts = record counts { of_graduated = suc counts.of_graduated }
count_up transferred counts = record counts { of_transferred = suc counts.of_transferred }
count_up dropped counts = record counts { of_dropped = suc counts.of_dropped }

abbrev pub part_or : Text → Option Text → Text
part_or fallback none = fallback
part_or fallback (some part) = part

-- `seen.has(key)`
abbrev pub was_seen : Text → List Text → Bool
was_seen key seen = any (same_text key) seen

module _ {F : Type 0} ⦃e : Scores F⦄ where
  abbrev pub name_or_new : Option (StudentEvaluation F) → Text
  name_or_new none = codes "Kelas Baru"
  name_or_new (some student) = student.source_class_name

  abbrev pub named : List (StudentEvaluation F) → Text → Option ℤ → Bool → Text
  named students id none again = codes "NaN"
  named students id (some grade) again =
      next_class_name (name_or_new (find (λ s. same_text s.source_class_id id) students)) grade
        again

  -- the class that a key stands for
  unfoldable pub class_of : List (StudentEvaluation F) → Text → NewClassPlan
  class_of students key =
      let parts = split_colons key in
      let source_class_id = part_or [] (get_elem? parts 0) in
      let grade_level = to_number (part_or (codes "10") (get_elem? parts 1)) in
      let repeats = same_text (part_or [] (get_elem? parts 2)) (codes "1") in
      record {
        key = key;
        source_class_id = source_class_id;
        name = named students source_class_id grade_level repeats;
        grade_level = grade_level;
        repeats = repeats;
      }

  -- the loop of `buildPromotionPlan`, with the keys seen
  unfoldable pub collect :
      List (StudentEvaluation F) → List Text → List (StudentDecision F) → List NewClassPlan
  collect students seen [] = []
  collect students seen (d ∷ decisions) = elim d.target_key [
    | none ↦ collect students seen decisions
    | some key ↦ elim (was_seen key seen) [
      | true ↦ collect students seen decisions
      | false ↦ class_of students key ∷ collect students (key ∷ seen) decisions
    ]
  ]

  abbrev pub count_actions : Counts → List (StudentDecision F) → Counts
  count_actions counts [] = counts
  count_actions counts (d ∷ decisions) = count_actions (count_up d.action counts) decisions

  unfoldable pub build_promotion_plan :
      List (StudentEvaluation F) → PromotionConfig F → Dict String RolloverAction → PromotionPlan F
  build_promotion_plan students config overrides =
      let decisions = map (evaluate_student config overrides) students in
      record {
        decisions = decisions;
        classes = collect students [] decisions;
        counts = count_actions no_counts decisions;
      }
