-- ===== src/Rollover/Promotion/Unique.antt =====
-- No class twice in the plan of `buildPromotionPlan` of
-- apps/api/src/modules/rollover/rollover.promotion.ts.
use openlms.Base.Texts.{Text, same_text_self, same_text}
use openlms.Base.{
  ◌≡◌, refl, sym, subst, inl, inr, ◌≢◌, true, false, String, List, [], ◌∷◌, map, arith, All,
  All-weaken, Bool-cases, Option-cases,
}
use openlms.Base.Dict.{Dict}
use openlms.Rollover.Evaluation.{
  Scores, RolloverAction, PromotionConfig, StudentEvaluation, StudentDecision, evaluate_student,
}
use openlms.Rollover.Promotion.{NewClassPlan, was_seen, class_of, collect, build_promotion_plan}

-- no key stands twice
abbrev pub HasUniqueKeys : List NewClassPlan → Type 0
HasUniqueKeys [] = Unit
HasUniqueKeys (c ∷ classes) = All (λ b. b.key ≢ c.key) classes × HasUniqueKeys classes

abbrev IsUnseen : List Text → NewClassPlan → Type 0
IsUnseen seen class = was_seen class.key seen ≡ false

IsUnseen-before :
    (k : Text) (seen : List Text) (c : NewClassPlan) → IsUnseen (k ∷ seen) c → IsUnseen seen c
IsUnseen-before k seen c h = ground arith

IsUnseen-differs :
    (k : Text) (seen : List Text) (c : NewClassPlan) → IsUnseen (k ∷ seen) c → c.key ≢ k
IsUnseen-differs k seen c h same =
    let here : same_text c.key k ≡ true =
      subst (λ z. same_text c.key z ≡ true) same (same_text_self c.key) in
    let apart : same_text c.key k ≡ false = ground arith in cc

module _ {F : Type 0} ⦃e : Scores F⦄ where
  pub class_of-own_key :
      (students : List (StudentEvaluation F)) (k : Text) → (class_of students k).key ≡ k
  unfolding class_of
  class_of-own_key students k = refl

  collect-IsUnseen :
      (students : List (StudentEvaluation F)) (seen : List Text)
      (decisions : List (StudentDecision F))
      → All (IsUnseen seen) (collect students seen decisions)
  unfolding collect
  collect-IsUnseen students seen [] = tt
  collect-IsUnseen students seen (b ∷ decisions) = elim (Option-cases b.target_key) [
    | inl keyless ↦ rw keyless (collect-IsUnseen students seen decisions)
    | inr (k, keyed) ↦ rw keyed (elim (Bool-cases (was_seen k seen)) [
      | inl old ↦ rw old (collect-IsUnseen students seen decisions)
      | inr new ↦ rw new (
        subst (λ z. was_seen z seen ≡ false) (sym (class_of-own_key students k)) new,
        All-weaken (IsUnseen (k ∷ seen)) (IsUnseen seen) (collect students (k ∷ seen) decisions)
            (IsUnseen-before k seen) (collect-IsUnseen students (k ∷ seen) decisions),
      )
    ])
  ]

  collect-HasUniqueKeys :
      (students : List (StudentEvaluation F)) (seen : List Text)
      (decisions : List (StudentDecision F))
      → HasUniqueKeys (collect students seen decisions)
  unfolding collect
  collect-HasUniqueKeys students seen [] = tt
  collect-HasUniqueKeys students seen (b ∷ decisions) = elim (Option-cases b.target_key) [
    | inl keyless ↦ rw keyless (collect-HasUniqueKeys students seen decisions)
    | inr (k, keyed) ↦ rw keyed (elim (Bool-cases (was_seen k seen)) [
      | inl old ↦ rw old (collect-HasUniqueKeys students seen decisions)
      | inr new ↦ rw new (
        subst (λ z. All (λ c. c.key ≢ z) (collect students (k ∷ seen) decisions))
            (sym (class_of-own_key students k))
            (All-weaken (IsUnseen (k ∷ seen)) (λ c. c.key ≢ k)
              (collect students (k ∷ seen) decisions) (IsUnseen-differs k seen)
              (collect-IsUnseen students (k ∷ seen) decisions)),
        collect-HasUniqueKeys students (k ∷ seen) decisions,
      )
    ])
  ]

  -- The plan creates no class twice: the keys of its classes are distinct.
  pub plan-HasUniqueKeys :
      (students : List (StudentEvaluation F)) (config : PromotionConfig F)
      (overrides : Dict String RolloverAction)
      → HasUniqueKeys ((build_promotion_plan students config overrides).classes)
  unfolding build_promotion_plan
  plan-HasUniqueKeys students config overrides =
      collect-HasUniqueKeys students [] (map (evaluate_student config overrides) students)
