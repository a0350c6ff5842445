-- ===== src/Rollover/Promotion/Classes.antt =====
-- The classes of `buildPromotionPlan` of apps/api/src/modules/rollover/rollover.promotion.ts.
use openlms.Base.{
  some-injective, ◌≡◌, refl, sym, ap, subst, ◌∙◌, inl, inr, ◌⊎◌, Bool, true, false, String, List,
  [], ◌∷◌, Option, none, some, map, get_elem?, In, map-In, Bool-cases, Option-cases,
}
use openlms.Base.Dict.{text_keys, Dict, lookup}
use openlms.Base.Int.{ℤ, pos, ◌+ℤ◌, leb_ℤ}
use openlms.Base.Texts.{codes, Text, same_text→eq, same_text}
use openlms.Rollover.Keys.{
  has_colon, flag, target_class_key, to_number, split_colons-key, to_number-to_text,
}
use openlms.Rollover.Evaluation.{
  Scores, EnrollmentStatus, status_transferred, status_dropped, status_active, status_graduated,
  status_promoted, status_repeated, RolloverAction, promoted, repeated, graduated, transferred,
  dropped, PromotionConfig, StudentEvaluation, StudentDecision, passes, key_at, evaluate_scores,
  by_status, overridden, evaluate_student,
}
use openlms.Rollover.Promotion.{
  NewClassPlan, was_seen, part_or, class_of, collect, build_promotion_plan,
}

-- a class for the students of a source class, of a grade, repeated or not
abbrev pub IsFor : Text → ℤ → Bool → NewClassPlan → Type 0
IsFor id grade again class =
    (class.source_class_id ≡ id) × (class.grade_level ≡ some grade) × (class.repeats ≡ again)

flag_read : (again : Bool) → same_text (flag again) (codes "1") ≡ again
flag_read true = refl
flag_read false = refl

module _ {F : Type 0} ⦃e : Scores F⦄ where
  -- A key reads back as what it was made of.
  class_of-key :
      (students : List (StudentEvaluation F)) (id : Text) (grade : ℤ) (again : Bool)
      → has_colon id ≡ false
      → IsFor id grade again (class_of students (target_class_key id grade again))
  unfolding class_of
  class_of-key students id grade again h =
      let parts = split_colons-key id grade again h in
      (
        ap (λ z. part_or [] (get_elem? z 0)) parts,
        ap (λ z. to_number (part_or (codes "10") (get_elem? z 1))) parts ∙ to_number-to_text grade,
        ap (λ z. same_text (part_or [] (get_elem? z 2)) (codes "1")) parts ∙ flag_read again,
      )

  -- the key that the action of a student without an override asks for
  abbrev pub key_for : StudentEvaluation F → RolloverAction → Option Text
  key_for student promoted = key_at student (student.grade_level +ℤ pos 1) false
  key_for student repeated = key_at student student.grade_level true
  key_for student graduated = none
  key_for student transferred = none
  key_for student dropped = none

  evaluate_scores-key :
      (config : PromotionConfig F) (student : StudentEvaluation F)
      → (evaluate_scores config student).target_key
        ≡ key_for student (evaluate_scores config student).action
  unfolding evaluate_scores
  evaluate_scores-key config student = elim (Bool-cases (leb_ℤ student.grade_level (pos 0))) [
    | inl low ↦ rw low refl
    | inr high ↦ elim (Bool-cases (leb_ℤ config.max_grade_level student.grade_level)) [
      | inl last ↦ elim (Bool-cases (passes config student)) [
        | inl passed ↦ rw (high, last, passed) refl
        | inr failed ↦ rw (high, last, failed) refl
      ]
      | inr below ↦ elim (Bool-cases (passes config student)) [
        | inl passed ↦ rw (high, below, passed) refl
        | inr failed ↦ rw (high, below, failed) refl
      ]
    ]
  ]

  by_status-key :
      (status : EnrollmentStatus) (config : PromotionConfig F) (student : StudentEvaluation F)
      → (by_status status config student).target_key
        ≡ key_for student (by_status status config student).action
  by_status-key status_transferred config student = refl
  by_status-key status_dropped config student = refl
  by_status-key status_active config student = evaluate_scores-key config student
  by_status-key status_graduated config student = evaluate_scores-key config student
  by_status-key status_promoted config student = evaluate_scores-key config student
  by_status-key status_repeated config student = evaluate_scores-key config student

  pub evaluate_student-key :
      (config : PromotionConfig F) (overrides : Dict String RolloverAction)
      (student : StudentEvaluation F)
      → lookup student.student_id overrides ≡ none
      → (evaluate_student config overrides student).target_key
        ≡ key_for student (evaluate_student config overrides student).action
  unfolding evaluate_student
  evaluate_student-key config overrides student h =
      subst
        (λ o.
          (overridden o config student).target_key
          ≡ key_for student (overridden o config student).action)
        (sym h) (by_status-key student.current_status config student)

  -- A key that was not seen before has its class in what is collected.
  pub collect-covers :
      (students : List (StudentEvaluation F)) (seen : List Text)
      (decisions : List (StudentDecision F)) (d : StudentDecision F) (key : Text)
      → In d decisions
      → d.target_key ≡ some key
      → (was_seen key seen ≡ true) ⊎ In (class_of students key) (collect students seen decisions)
  unfolding collect
  collect-covers students seen [] d key m t = absurd m
  collect-covers students seen (b ∷ decisions) d key m t = elim (Option-cases b.target_key) [
    | inl keyless ↦ rw keyless (elim m [
      | inl same ↦
          let clash : none ≡ some key = sym keyless ∙ ap (λ z. z.target_key) (sym same) ∙ t in cc
      | inr later ↦ collect-covers students seen decisions d key later t
    ])
    | inr (k, keyed) ↦ rw keyed (elim (Bool-cases (was_seen k seen)) [
      | inl old ↦ rw old (elim m [
        | inl same ↦ inl (subst (λ z. was_seen z seen ≡ true) (same_key k keyed same) old)
        | inr later ↦ collect-covers students seen decisions d key later t
      ])
      | inr new ↦ rw new (elim m [
        | inl same ↦ inr (inl (ap (class_of students) (sym (same_key k keyed same))))
        | inr later ↦ placed k (collect-covers students (k ∷ seen) decisions d key later t)
      ])
    ])
  ]
    where
      same_key : (k : Text) → b.target_key ≡ some k → d ≡ b → k ≡ key
      same_key k keyed same = some-injective (sym keyed ∙ ap (λ z. z.target_key) (sym same) ∙ t)

      placed :
          (k : Text)
          → (was_seen key (k ∷ seen) ≡ true)
            ⊎ In (class_of students key) (collect students (k ∷ seen) decisions)
          → (was_seen key seen ≡ true)
            ⊎ In
                (class_of students key)
                (class_of students k ∷ collect students (k ∷ seen) decisions)
      placed k (inr there) = inr (inr there)
      placed k (inl old) = elim (Bool-cases (same_text key k)) [
        | inl here ↦ inr (inl (ap (class_of students) (same_text→eq key k here)))
        | inr apart ↦ inl (rw apart at old)
      ]

  -- where a student of an action goes
  abbrev pub IsPlaced :
      List NewClassPlan → StudentEvaluation F → StudentDecision F → RolloverAction → Type 0
  IsPlaced classes s d promoted =
      (c : NewClassPlan) × In c classes × IsFor s.source_class_id (s.grade_level +ℤ pos 1) false c
  IsPlaced classes s d repeated =
      (c : NewClassPlan) × In c classes × IsFor s.source_class_id s.grade_level true c
  IsPlaced classes s d graduated = d.target_key ≡ none
  IsPlaced classes s d transferred = d.target_key ≡ none
  IsPlaced classes s d dropped = d.target_key ≡ none

  at_key :
      (students : List (StudentEvaluation F)) (decisions : List (StudentDecision F))
      (s : StudentEvaluation F) (d : StudentDecision F) (grade : ℤ) (again : Bool)
      → has_colon s.source_class_id ≡ false
      → In d decisions
      → d.target_key ≡ key_at s grade again
      → (c : NewClassPlan) × In c (collect students [] decisions)
        × IsFor s.source_class_id grade again c
  at_key students decisions s d grade again h m t =
      let key = target_class_key s.source_class_id grade again in
      elim (collect-covers students [] decisions d key m t) [
        | inl old ↦ let clash : false ≡ true = old in cc
        | inr there ↦
            (class_of students key, there, class_of-key students s.source_class_id grade again h)
      ]

  key-IsPlaced :
      (students : List (StudentEvaluation F)) (decisions : List (StudentDecision F))
      (s : StudentEvaluation F) (d : StudentDecision F) (action : RolloverAction)
      → has_colon s.source_class_id ≡ false
      → In d decisions
      → d.target_key ≡ key_for s action
      → IsPlaced (collect students [] decisions) s d action
  key-IsPlaced students decisions s d promoted h m t =
      at_key students decisions s d (s.grade_level +ℤ pos 1) false h m t
  key-IsPlaced students decisions s d repeated h m t =
      at_key students decisions s d s.grade_level true h m t
  key-IsPlaced students decisions s d graduated h m t = t
  key-IsPlaced students decisions s d transferred h m t = t
  key-IsPlaced students decisions s d dropped h m t = t

  -- A student without an override, whose source class id has no colon, who is promoted has a class
  -- in the plan of the same source class, one grade up and not repeated; one who repeats has a class
  -- of the same source class and grade, repeated; one who graduated, moved or left asks for no class.
  pub plan_places_students :
      (students : List (StudentEvaluation F)) (config : PromotionConfig F)
      (overrides : Dict String RolloverAction) (s : StudentEvaluation F)
      → In s students
      → has_colon s.source_class_id ≡ false
      → lookup s.student_id overrides ≡ none
      → IsPlaced
          ((build_promotion_plan students config overrides).classes)
          s
          (evaluate_student config overrides s)
          ((evaluate_student config overrides s).action)
  unfolding build_promotion_plan
  plan_places_students students config overrides s m h free =
      let d = evaluate_student config overrides s in
      key-IsPlaced students (map (evaluate_student config overrides) students) s d d.action h
        (map-In (evaluate_student config overrides) s students m)
        (evaluate_student-key config overrides s free)
