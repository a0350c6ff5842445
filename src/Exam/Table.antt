-- ===== src/Exam/Table.antt =====
-- The table of attempts under the writes of apps/api/src/modules/exam/exam-attempt.service.ts.
use openlms.Base.{
  =ₛ_comm, or-eq-false_left, some-injective, ◌≡◌, refl, ap, ◌∙◌, inl, inr, false, String, List, [],
  ◌∷◌, some, map, find, All, In, All-In, eq_refl, ◌=ₛ◌, Bool-cases, if◌then◌else◌,
}
use openlms.Base.Texts.{text_before}
use openlms.Exam.{Attempt, update_row}
use openlms.Exam.Start.{clashes, insert_attempt}
use openlms.Exam.Steps.{KeepsKeys}

-- no two rows that the unique keys refuse
abbrev pub IsUnique : List Attempt → Type 0
IsUnique [] = Unit
IsUnique (a ∷ attempts) = All (λ b. clashes a b ≡ false) attempts × IsUnique attempts

clashes_comm : (a b : Attempt) → clashes a b ≡ clashes b a
clashes_comm a b =
    rw
      (
        =ₛ_comm a.id b.id,
        =ₛ_comm a.exam_session_id b.exam_session_id,
        =ₛ_comm a.student_id b.student_id,
        =ₛ_comm a.token_used b.token_used,
      )
      refl

pub update_row-same :
    {A : Type 0} (field : Attempt → A) (id : String) (f : Attempt → Attempt)
    → ((a : Attempt) → field (f a) ≡ field a)
    → (a : Attempt) → field (update_row id f a) ≡ field a
update_row-same field id f h a = elim (Bool-cases (a.id =ₛ id)) [
  | inl t ↦ rw t (h a)
  | inr e ↦ rw e refl
]

pub update_row-KeepsKeys :
    (id : String) (f : Attempt → Attempt) → KeepsKeys f → KeepsKeys (update_row id f)
update_row-KeepsKeys id f k = record {
  id_kept = update_row-same (λ a. a.id) id f k.id_kept;
  session_kept = update_row-same (λ a. a.exam_session_id) id f k.session_kept;
  student_kept = update_row-same (λ a. a.student_id) id f k.student_kept;
  token_kept = update_row-same (λ a. a.token_used) id f k.token_kept;
}

module _ (g : Attempt → Attempt) (k : KeepsKeys g) where
  clashes-kept : (a b : Attempt) → clashes (g a) (g b) ≡ clashes a b
  clashes-kept a b =
      rw
        (
          k.id_kept a,
          k.id_kept b,
          k.session_kept a,
          k.session_kept b,
          k.student_kept a,
          k.student_kept b,
          k.token_kept a,
          k.token_kept b,
        )
        refl

  All-map_kept :
      (a : Attempt) (attempts : List Attempt)
      → All (λ b. clashes a b ≡ false) attempts
      → All (λ b. clashes (g a) b ≡ false) (map g attempts)
  All-map_kept a [] h = tt
  All-map_kept a (b ∷ attempts) h = (clashes-kept a b ∙ h.0, All-map_kept a attempts h.1)

  pub map-IsUnique : (attempts : List Attempt) → IsUnique attempts → IsUnique (map g attempts)
  map-IsUnique [] h = tt
  map-IsUnique (a ∷ attempts) h = (All-map_kept a attempts h.0, map-IsUnique attempts h.1)

  pub find-map :
      (id : String) (attempts : List Attempt) {a : Attempt}
      → find (λ b. b.id =ₛ id) attempts ≡ some a
      → find (λ b. b.id =ₛ id) (map g attempts) ≡ some (g a)
  find-map id [] h = cc
  find-map id (b ∷ attempts) {a} h = elim (Bool-cases (b.id =ₛ id)) [
    | inl t ↦
        let here : some b ≡ some a = rw t at h in
        rw (ap (λ z. z =ₛ id) (k.id_kept b) ∙ t) (ap (λ z. some (g z)) (some-injective here))
    | inr e ↦ rw (ap (λ z. z =ₛ id) (k.id_kept b) ∙ e) (find-map id attempts (rw e at h))
  ]

All-insert_attempt :
    (P : Attempt → Type 0) (a : Attempt) (attempts : List Attempt)
    → P a
    → All P attempts
    → All P (insert_attempt a attempts)
unfolding insert_attempt
All-insert_attempt P a [] p h = (p, tt)
All-insert_attempt P a (b ∷ attempts) p h = elim (Bool-cases (text_before a.id b.id)) [
  | inl t ↦ rw t (p, h)
  | inr e ↦ rw e (h.0, All-insert_attempt P a attempts p h.1)
]

pub insert_attempt-IsUnique :
    (a : Attempt) (attempts : List Attempt)
    → All (λ b. clashes a b ≡ false) attempts
    → IsUnique attempts
    → IsUnique (insert_attempt a attempts)
unfolding insert_attempt
insert_attempt-IsUnique a [] h u = (tt, tt)
insert_attempt-IsUnique a (b ∷ attempts) h u = elim (Bool-cases (text_before a.id b.id)) [
  | inl t ↦ rw t (h, u)
  | inr e ↦ rw e (
    All-insert_attempt (λ c. clashes b c ≡ false) a attempts (clashes_comm b a ∙ h.0) u.0,
    insert_attempt-IsUnique a attempts h.1 u.1,
  )
]

pub find-insert_attempt :
    (id : String) (a : Attempt) (attempts : List Attempt)
    → (a.id =ₛ id) ≡ false
    → find (λ b. b.id =ₛ id) (insert_attempt a attempts) ≡ find (λ b. b.id =ₛ id) attempts
unfolding insert_attempt
find-insert_attempt id a [] h = rw h refl
find-insert_attempt id a (b ∷ attempts) h = elim (Bool-cases (text_before a.id b.id)) [
  | inl t ↦ rw (t, h) refl
  | inr e ↦ rw e (ap (λ z. if b.id =ₛ id then some b else z) (find-insert_attempt id a attempts h))
]

-- Among unique rows, a row is what is found by its id.
pub find-eq_of_In :
    (a : Attempt) (attempts : List Attempt)
    → IsUnique attempts
    → In a attempts
    → find (λ b. b.id =ₛ a.id) attempts ≡ some a
find-eq_of_In a [] u m = absurd m
find-eq_of_In a (b ∷ attempts) u (inl same) = rw (← same) (rw (eq_refl a.id) refl)
find-eq_of_In a (b ∷ attempts) u (inr m) =
    let apart =
      or-eq-false_left (b.id =ₛ a.id) _ (All-In (λ c. clashes b c ≡ false) a attempts u.0 m) in
    rw apart (find-eq_of_In a attempts u.1 m)
