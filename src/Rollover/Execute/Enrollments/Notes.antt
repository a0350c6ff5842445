-- ===== src/Rollover/Execute/Enrollments/Notes.antt =====
-- The notes of a rollover on one enrollment, `created.previousEnrollmentStatus` of
-- apps/api/src/modules/rollover/rollover.service.ts, and the updates of `rollback` from them.
use openlms.Base.{
  ◌≡◌, ◌∙◌, refl, ap, sym, inl, inr, Bool, true, false, All-weaken, ◌||◌, String, List, [], ◌∷◌,
  some, map, All, In, any, arith, eq_iff, ◌=ₛ◌, Bool-cases, Option-cases,
}
use openlms.Base.Dict.{text_keys, Dict, insert}
use openlms.Rollover.Evaluation.{EnrollmentStatus}
use openlms.Rollover.Execute.Enrollments.{
  EnrollmentRow, has_id, has_row, give_status, old_of, old_ids, remember, restore,
}

-- what the updates of `rollback` make of one row
abbrev pub restored : Dict String EnrollmentStatus → EnrollmentRow → EnrollmentRow
restored [] q = q
restored ((id, status) ∷ previous) q = restored previous (give_status (id ∷ []) status q)

map_once : {A : Type 0} (f g : A → A) (xs : List A) → map g (map f xs) ≡ map (λ x. g (f x)) xs
map_once f g [] = refl
map_once f g (x ∷ xs) = ap (λ ys. g (f x) ∷ ys) (map_once f g xs)

any_same :
    (ids : List String) (status : EnrollmentStatus) (id : String) (rows : List EnrollmentRow)
    → has_row (map (give_status ids status) rows) id ≡ has_row rows id
any_same ids status id [] = refl
any_same ids status id (r ∷ rows) = elim (Bool-cases (has_id ids r.id)) [
  | inl e ↦ rw (e, any_same ids status id rows) refl
  | inr e ↦ rw (e, any_same ids status id rows) refl
]

-- each note is on a row that stands
abbrev pub HaveRows : List EnrollmentRow → Dict String EnrollmentStatus → Type 0
HaveRows rows previous = All (λ e. has_row rows e.0 ≡ true) previous

pub give_status-HaveRows :
    (ids : List String) (status : EnrollmentStatus) (rows : List EnrollmentRow)
    (previous : Dict String EnrollmentStatus)
    → HaveRows rows previous
    → HaveRows (map (give_status ids status) rows) previous
give_status-HaveRows ids status rows previous h =
    All-weaken (λ e. has_row rows e.0 ≡ true)
      (λ e. has_row (map (give_status ids status) rows) e.0 ≡ true) previous
      (λ e here. any_same ids status e.0 rows ∙ here) h

insert-HaveRows :
    (rows : List EnrollmentRow) (k : String) (v : EnrollmentStatus)
    (previous : Dict String EnrollmentStatus)
    → has_row rows k ≡ true
    → HaveRows rows previous
    → HaveRows rows (insert k v previous)
unfolding insert
insert-HaveRows rows k v [] here h = (here, tt)
insert-HaveRows rows k v ((j, w) ∷ previous) here h = elim (Bool-cases (k =ₛ j)) [
  | inl e ↦ rw e h
  | inr e ↦ rw e (h.0, insert-HaveRows rows k v previous here h.1)
]

pub remember-HaveRows :
    (standing rows : List EnrollmentRow) (source : String) (students : List String)
    (previous : Dict String EnrollmentStatus)
    → ((s : String) (o : EnrollmentRow)
        → old_of source rows s ≡ some o
        → has_row standing o.id ≡ true)
    → HaveRows standing previous
    → HaveRows standing (remember source rows students previous)
unfolding remember
remember-HaveRows standing rows source [] previous h have = have
remember-HaveRows standing rows source (s ∷ students) previous h have =
    elim (Option-cases (old_of source rows s)) [
      | inl e ↦ rw (remember, e) (remember-HaveRows standing rows source students previous h have)
      | inr (old, e) ↦
          rw (remember, e)
            (remember-HaveRows standing rows source students (insert old.id old.status previous) h
              (insert-HaveRows standing old.id old.status previous (h s old e) have))
    ]

pub restore-eq-map :
    (previous : Dict String EnrollmentStatus) (rows : List EnrollmentRow)
    → HaveRows rows previous
    → restore previous rows ≡ (true, map (restored previous) rows)
unfolding restore
restore-eq-map [] rows have = ap (λ qs. (true, qs)) (same_map rows)
  where
    same_map : (qs : List EnrollmentRow) → qs ≡ map (λ q. q) qs
    same_map [] = refl
    same_map (q ∷ qs) = ap (λ t. q ∷ t) (same_map qs)
restore-eq-map ((id, status) ∷ previous) rows have =
    rw (restore, have.0)
      (restore-eq-map previous (map (give_status (id ∷ []) status) rows)
          (give_status-HaveRows (id ∷ []) status rows previous have.1)
        ∙ ap (λ qs. (true, qs)) (map_once (give_status (id ∷ []) status) (restored previous) rows))

module _ (r : EnrollmentRow) where
  -- each note on the row has the row's status
  abbrev pub Agrees : Dict String EnrollmentStatus → Type 0
  Agrees previous = All (λ e. e.0 ≡ r.id → e.1 ≡ r.status) previous

  abbrev pub noted : Dict String EnrollmentStatus → Bool
  noted previous = any (λ e. e.0 =ₛ r.id) previous

  insert-Agrees :
      (k : String) (v : EnrollmentStatus) (previous : Dict String EnrollmentStatus)
      → Agrees previous
      → (k ≡ r.id → v ≡ r.status)
      → Agrees (insert k v previous)
  unfolding insert
  insert-Agrees k v [] agrees h = (h, tt)
  insert-Agrees k v ((j, w) ∷ previous) agrees h = elim (Bool-cases (k =ₛ j)) [
    | inl e ↦ rw e ((λ here. h ((eq_iff k j).0 e ∙ here)), agrees.1)
    | inr e ↦ rw e (agrees.0, insert-Agrees k v previous agrees.1 h)
  ]

  noted-insert :
      (k : String) (v : EnrollmentStatus) (previous : Dict String EnrollmentStatus)
      → noted (insert k v previous) ≡ ((k =ₛ r.id) || noted previous)
  unfolding insert
  noted-insert k v [] = ground arith
  noted-insert k v ((j, w) ∷ previous) = elim (Bool-cases (k =ₛ j)) [
    | inl e ↦ rw (e, (eq_iff k j).0 e) (ground arith)
    | inr e ↦ rw (e, noted-insert k v previous) (ground arith)
  ]

  pub remember-Agrees :
      (source : String) (rows : List EnrollmentRow) (students : List String)
      (previous : Dict String EnrollmentStatus)
      → Agrees previous
      → ((s : String) (o : EnrollmentRow)
          → In s students
          → old_of source rows s ≡ some o
          → o.id ≡ r.id
          → o.status ≡ r.status)
      → Agrees (remember source rows students previous)
  unfolding remember
  remember-Agrees source rows [] previous agrees h = agrees
  remember-Agrees source rows (s ∷ students) previous agrees h =
      elim (Option-cases (old_of source rows s)) [
        | inl e ↦
            rw (remember, e)
              (remember-Agrees source rows students previous agrees (λ t o m. h t o (inr m)))
        | inr (old, e) ↦
            rw (remember, e)
              (remember-Agrees source rows students (insert old.id old.status previous)
                (insert-Agrees old.id old.status previous agrees (h s old (inl refl) e))
                (λ t o m. h t o (inr m)))
      ]

  pub noted-remember :
      (source : String) (rows : List EnrollmentRow) (students : List String)
      (previous : Dict String EnrollmentStatus)
      → noted (remember source rows students previous)
        ≡ (has_id (old_ids source rows students) r.id || noted previous)
  unfolding remember old_ids
  noted-remember source rows [] previous = refl
  noted-remember source rows (s ∷ students) previous = elim (Option-cases (old_of source rows s)) [
    | inl e ↦ rw (remember, old_ids, e) (noted-remember source rows students previous)
    | inr (old, e) ↦
        rw
          (
            remember,
            old_ids,
            e,
            noted-remember source rows students (insert old.id old.status previous),
            noted-insert old.id old.status previous,
          )
          (ground arith)
  ]

  -- A row of which only the status was changed has the noted status again.
  pub restored_row :
      (previous : Dict String EnrollmentStatus) (q : EnrollmentRow)
      → record q { status = r.status } ≡ r
      → Agrees previous
      → (noted previous ≡ false → q ≡ r)
      → restored previous q ≡ r
  restored_row [] q core agrees h = h refl
  restored_row ((id, status) ∷ previous) q core agrees h = elim (Bool-cases (id =ₛ q.id)) [
    | inl e ↦ rw e (
        restored_row previous (record q { status = status }) core agrees.1
          (λ _.
            ap (λ st. record q { status = st })
              (agrees.0 ((eq_iff id q.id).0 e ∙ ap (λ z. z.id) core))
            ∙ core))
    | inr e ↦ rw e (
        restored_row previous q core agrees.1
          (λ none_noted. h (rw (sym (ap (λ z. z.id) core), e) none_noted)))
  ]
