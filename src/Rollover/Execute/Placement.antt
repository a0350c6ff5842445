-- ===== src/Rollover/Execute/Placement.antt =====
-- When the execution of a rollover finds a class for each student who continues: the steps
-- "create-classes" and "promote" of apps/api/src/modules/rollover/rollover.service.ts.
use openlms.Base.Texts.{Text, same_text_self, same_text}
use openlms.Base.{
  ℕ, suc, ◌≡◌, refl, sym, ap, subst, ◌∙◌, inl, inr, true, false, String, List, [], ◌∷◌, Option,
  none, some, map, filter, In, In-filter, In-map, All, All-In, In-All, filter-In, map-In,
  Bool-cases, Option-cases,
}
use openlms.Base.Dict.{text_keys, Dict, lookup, insert, lookup-insert}
use openlms.Base.Int.{pos, ◌+ℤ◌}
use openlms.Base.Result.{ok, err}
use openlms.Rollover.Keys.{target_class_key}
use openlms.Rollover.Evaluation.{
  Scores, RolloverAction, promoted, repeated, graduated, transferred, dropped, PromotionConfig,
  StudentEvaluation, StudentDecision, evaluate_student, overridden,
}
use openlms.Rollover.Promotion.{NewClassPlan, class_of, collect, build_promotion_plan}
use openlms.Rollover.Promotion.Classes.{key_for, evaluate_student-key, collect-covers}
use openlms.Rollover.Promotion.Unique.{class_of-own_key}
use openlms.Rollover.Execute.{
  ClassIds, key_texts, truthy, is_continuing, create_classes, id_for, find_classes, place_students,
}

-- the class of a key has an id
abbrev pub HasClass : ClassIds → Option Text → Type 0
HasClass ids key = (id : Text) × (truthy (id_for ids key) ≡ some id)

module _ (new_class_id : ℕ → Text)
    (named : (n : ℕ) → truthy (some (new_class_id n)) ≡ some (new_class_id n)) where
  insert-HasClass :
      (n : ℕ) (k key : Text) (ids : ClassIds)
      → HasClass ids (some key)
      → HasClass (insert k (new_class_id n) ids) (some key)
  insert-HasClass n k key ids (id, h) = elim (Bool-cases (same_text key k)) [
    | inl t ↦
        (new_class_id n, ap truthy (lookup-insert k key (new_class_id n) ids) ∙ rw t (named n))
    | inr f ↦ (id, ap truthy (lookup-insert k key (new_class_id n) ids) ∙ rw f h)
  ]

  new-HasClass :
      (n : ℕ) (key : Text) (ids : ClassIds) → HasClass (insert key (new_class_id n) ids) (some key)
  new-HasClass n key ids = (
    new_class_id n,
    ap truthy (lookup-insert key key (new_class_id n) ids) ∙ rw (same_text_self key) (named n),
  )

  create_classes-HasClass :
      (n : ℕ) (key : Text) (ids : ClassIds) (classes : List NewClassPlan)
      → HasClass ids (some key)
      → HasClass (create_classes new_class_id n ids classes) (some key)
  unfolding create_classes
  create_classes-HasClass n key ids [] h = h
  create_classes-HasClass n key ids (c ∷ classes) h =
      elim (Option-cases (truthy (lookup c.key ids))) [
        | inl missing ↦
            rw (missing, create_classes)
              (create_classes-HasClass (suc n) key (insert c.key (new_class_id n) ids) classes
                (insert-HasClass n c.key key ids h))
        | inr (id, there) ↦ rw (there, create_classes) (create_classes-HasClass n key ids classes h)
      ]

  created-HasClass :
      (n : ℕ) (c : NewClassPlan) (ids : ClassIds) (classes : List NewClassPlan)
      → In c classes
      → HasClass (create_classes new_class_id n ids classes) (some c.key)
  unfolding create_classes
  created-HasClass n c ids [] m = absurd m
  created-HasClass n c ids (b ∷ classes) m = elim (Option-cases (truthy (lookup b.key ids))) [
    | inl missing ↦
        rw (missing, create_classes)
          (elim m [
            | inl same ↦
                create_classes-HasClass (suc n) c.key (insert b.key (new_class_id n) ids) classes (
                  subst (λ z. HasClass (insert b.key (new_class_id n) ids) (some z.key)) (sym same)
                    (new-HasClass n b.key ids))
            | inr later ↦
                created-HasClass (suc n) c (insert b.key (new_class_id n) ids) classes later
          ])
    | inr (id, there) ↦
        rw (there, create_classes)
          (elim m [
            | inl same ↦
                create_classes-HasClass n c.key ids classes
                  (id, ap (λ z. truthy (lookup z.key ids)) same ∙ there)
            | inr later ↦ created-HasClass n c ids classes later
          ])
  ]

module _ {F : Type 0} where
  find_classes-eq-ok :
      (ids : ClassIds) (found : Dict String Text) (decisions : List (StudentDecision F))
      → All (λ d. HasClass ids d.target_key) decisions
      → (m : Dict String Text) × (find_classes ids found decisions ≡ ok m)
  unfolding find_classes
  find_classes-eq-ok ids found [] h = (found, refl)
  find_classes-eq-ok ids found (d ∷ decisions) ((id, h), rest) =
      rw (h, find_classes) (find_classes-eq-ok ids (insert d.student_id id found) decisions rest)

  find_classes-eq-err :
      (ids : ClassIds) (found : Dict String Text) (decisions : List (StudentDecision F))
      (d : StudentDecision F)
      → In d decisions
      → d.target_key ≡ none
      → (who : String) × (find_classes ids found decisions ≡ err who)
  unfolding find_classes
  find_classes-eq-err ids found [] d m h = absurd m
  find_classes-eq-err ids found (b ∷ decisions) d m h =
      elim (Option-cases (truthy (id_for ids b.target_key))) [
        | inl missing ↦ (b.student_id, rw (missing, find_classes) refl)
        | inr (id, there) ↦
            rw (there, find_classes)
              (elim m [
                | inl same ↦
                    let lost : none ≡ some id =
                      ap (λ z. truthy (id_for ids z)) (sym (ap (λ z. z.target_key) (sym same) ∙ h))
                      ∙ there in
                    cc
                | inr later ↦
                    find_classes-eq-err ids (insert b.student_id id found) decisions d later h
              ])
      ]

module _ {F : Type 0} ⦃e : Scores F⦄ where
  continuing-key :
      (s : StudentEvaluation F) (action : RolloverAction)
      → is_continuing action ≡ true
      → (id : Text) × (key_for s action ≡ some id)
  continuing-key s promoted h =
      (target_class_key s.source_class_id (s.grade_level +ℤ pos 1) false, refl)
  continuing-key s repeated h = (target_class_key s.source_class_id s.grade_level true, refl)
  continuing-key s graduated h = cc
  continuing-key s transferred h = cc
  continuing-key s dropped h = cc

  collected-HasClass :
      (new_class_id : ℕ → Text)
      → ((n : ℕ) → truthy (some (new_class_id n)) ≡ some (new_class_id n))
      → (students : List (StudentEvaluation F)) (ids : ClassIds)
        (decisions : List (StudentDecision F)) (d : StudentDecision F) (key : Text)
      → In d decisions
      → d.target_key ≡ some key
      → HasClass (create_classes new_class_id 0 ids (collect students [] decisions)) d.target_key
  collected-HasClass new_class_id named students ids decisions d key m t =
      let classes = collect students [] decisions in
      elim (collect-covers students [] decisions d key m t) [
        | inl old ↦ let clash : false ≡ true = old in cc
        | inr there ↦
            subst (HasClass (create_classes new_class_id 0 ids classes))
              (ap some (class_of-own_key students key) ∙ sym t)
              (created-HasClass new_class_id named 0 (class_of students key) ids classes there)
      ]

  -- If no student has an override, and the database names each new class by a text that is not
  -- empty, the step "promote" finds a class for every student who is promoted or repeats: it does
  -- not throw, whatever classes an earlier run created.
  pub place_students_returns :
      (new_class_id : ℕ → Text)
      → ((n : ℕ) → truthy (some (new_class_id n)) ≡ some (new_class_id n))
      → (students : List (StudentEvaluation F)) (config : PromotionConfig F)
        (overrides : Dict String RolloverAction) (ids : ClassIds)
      → All (λ s. lookup s.student_id overrides ≡ none) students
      → (m : Dict String Text) × (place_students new_class_id students config overrides ids ≡ ok m)
  unfolding place_students build_promotion_plan
  place_students_returns new_class_id named students config overrides ids free =
      let decisions = map (evaluate_student config overrides) students in
      find_classes-eq-ok (create_classes new_class_id 0 ids (collect students [] decisions)) []
        (filter (λ d. is_continuing d.action) decisions)
        (In-All
          (λ d.
            HasClass (create_classes new_class_id 0 ids (collect students [] decisions))
              d.target_key)
          (filter (λ d. is_continuing d.action) decisions) has_class)
    where
      decisions : List (StudentDecision F)
      decisions = map (evaluate_student config overrides) students

      has_class :
          (d : StudentDecision F)
          → In d (filter (λ d. is_continuing d.action) decisions)
          → HasClass
              (create_classes new_class_id 0 ids (collect students [] decisions))
              d.target_key
      has_class d m =
          let (i, goes_on) = In-filter (λ d. is_continuing d.action) d decisions m in
          let (s, j, same) = In-map (evaluate_student config overrides) d students i in
          let (key, t) = continuing-key s d.action goes_on in
          let asked =
            evaluate_student-key config overrides s
              (All-In (λ s. lookup s.student_id overrides ≡ none) s students free j) in
          collected-HasClass new_class_id named students ids decisions d key i
            (subst (λ z. z.target_key ≡ key_for s z.action) (sym same) asked ∙ t)

  evaluate_student-overridden :
      (config : PromotionConfig F) (overrides : Dict String RolloverAction)
      (s : StudentEvaluation F) {action : RolloverAction}
      → lookup s.student_id overrides ≡ some action
      → evaluate_student config overrides s ≡ overridden (some action) config s
  unfolding evaluate_student
  evaluate_student-overridden config overrides s h = ap (λ o. overridden o config s) h

  -- If an override says that a student of the plan is promoted or repeats, the step "promote"
  -- throws: no class is found for some student who continues.
  place_students_throws :
      (new_class_id : ℕ → Text) (students : List (StudentEvaluation F)) (config : PromotionConfig F)
      (overrides : Dict String RolloverAction) (ids : ClassIds) (s : StudentEvaluation F)
      (action : RolloverAction)
      → In s students
      → lookup s.student_id overrides ≡ some action
      → is_continuing action ≡ true
      → (who : String) × (place_students new_class_id students config overrides ids ≡ err who)
  unfolding place_students build_promotion_plan
  place_students_throws new_class_id students config overrides ids s action m h goes_on =
      let decisions = map (evaluate_student config overrides) students in
      let d = evaluate_student config overrides s in
      let is_d = evaluate_student-overridden config overrides s h in
      find_classes-eq-err (create_classes new_class_id 0 ids (collect students [] decisions)) []
        (filter (λ d. is_continuing d.action) decisions) d
        (filter-In (λ d. is_continuing d.action) d decisions
          (map-In (evaluate_student config overrides) s students m)
          (ap (λ z. is_continuing z.action) is_d ∙ goes_on))
        (ap (λ z. z.target_key) is_d)
