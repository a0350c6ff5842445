-- ===== src/Rollover/Execute.antt =====
-- The classes that the execution of a rollover creates, and the class it finds for each student
-- who continues: the steps "create-classes" and "promote" of
-- apps/api/src/modules/rollover/rollover.service.ts, up to the first write of "promote". The
-- database, which names each new class, is a parameter.
pub mod Placement
pub mod Enrollments
use openlms.Base.Texts.{Text, same_text_iff, same_text_self, same_text}
use openlms.Base.{
  ℕ, suc, ◌+◌, ◌≡◌, refl, subst, Bool, true, false, ◌&&◌, String, List, [], ◌∷◌, Option, none, some,
  filter, if◌then◌else◌,
}
use openlms.Base.Dict.{Keyed, text_keys, Dict, lookup, insert}
use openlms.Base.Result.{Result, ok, err}
use openlms.Rollover.Evaluation.{
  Scores, RolloverAction, promoted, repeated, graduated, transferred, dropped, PromotionConfig,
  StudentEvaluation, StudentDecision,
}
use openlms.Rollover.Promotion.{NewClassPlan, PromotionPlan, build_promotion_plan}

-- `created.classIdByKey`
abbrev pub ClassIds : Type 0
ClassIds = Dict Text Text

instance abbrev pub key_texts : Keyed Text
key_texts = record { same = λ i k. same_text i k; same_iff = λ i k. same_text_iff i k }

-- what `if (x)` takes of a text that may be missing
abbrev pub truthy : Option Text → Option Text
truthy none = none
truthy (some []) = none
truthy (some (c ∷ s)) = some (c ∷ s)

abbrev pub is_continuing : RolloverAction → Bool
is_continuing promoted = true
is_continuing repeated = true
is_continuing graduated = false
is_continuing transferred = false
is_continuing dropped = false

module _ (new_class_id : ℕ → Text) where
  -- the loop of "create-classes"; `n` counts the rows that the database made
  unfoldable pub create_classes : ℕ → ClassIds → List NewClassPlan → ClassIds
  create_classes n ids [] = ids
  create_classes n ids (c ∷ classes) = elim (truthy (lookup c.key ids)) [
    | some _ ↦ create_classes n ids classes
    | none ↦ create_classes (suc n) (insert c.key (new_class_id n) ids) classes
  ]

abbrev pub id_for : ClassIds → Option Text → Option Text
id_for ids none = none
id_for ids (some key) = lookup key ids

module _ {F : Type 0} where
  -- the loop of "promote" that fills `classIdByStudent`; it throws with the student's id
  unfoldable pub find_classes :
      ClassIds → Dict String Text → List (StudentDecision F) → Result String (Dict String Text)
  find_classes ids found [] = ok found
  find_classes ids found (d ∷ decisions) = elim (truthy (id_for ids d.target_key)) [
    | none ↦ err d.student_id
    | some id ↦ find_classes ids (insert d.student_id id found) decisions
  ]

module _ (new_class_id : ℕ → Text) {F : Type 0} ⦃e : Scores F⦄ where
  unfoldable pub place_students :
      List (StudentEvaluation F)
      → PromotionConfig F
      → Dict String RolloverAction
      → ClassIds
      → Result String (Dict String Text)
  place_students students config overrides ids =
      let plan = build_promotion_plan students config overrides in
      find_classes (create_classes new_class_id 0 ids plan.classes) []
        (filter (λ d. is_continuing d.action) plan.decisions)
