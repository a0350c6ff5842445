-- ===== src/Exam/Final/Safety.antt =====
-- What stays of attempts in every run of the service:
-- apps/api/src/modules/exam/exam-attempt.service.ts.
use openlms.Base.{
  =ₛ_comm, and-eq-true_left, or-eq-false_left, some-injective, ℕ, zero, suc, ◌≡◌, refl, sym, ap,
  subst, ◌∙◌, inl, inr, true, false, String, List, [], ◌∷◌, some, find, any, take, In, In-filter,
  In-All, All, All-In, any-eq-false, find-eq-some, ◌=ₛ◌, eq_iff, Bool-cases, filter, ◌&&◌,
}
use openlms.Quiz.Grading.{Platform, is_in_progress}
use openlms.Exam.{Attempt, Store, Moment, find_attempt, update_row, update_attempt}
use openlms.Exam.Start.{clashes, add_attempt}
use openlms.Exam.Background.{read_batch, is_over, running, is_running, is_none, drop}
use openlms.Exam.Steps.{KeepsKeys, IsGentle, IsKept, found_id}
use openlms.Exam.Table.{
  IsUnique, map-IsUnique, update_row-KeepsKeys, update_row-same, insert_attempt-IsUnique, find-map,
  find-insert_attempt, find-eq_of_In,
}
use openlms.Exam.Final.{Reaches, Reaches-keeps}

module _ {A : Type 0} where
  In-take : (n : ℕ) (a : A) (xs : List A) → In a (take n xs) → In a xs
  In-take zero a xs m = absurd m
  In-take (suc n) a [] m = absurd m
  In-take (suc n) a (x ∷ xs) (inl e) = inl e
  In-take (suc n) a (x ∷ xs) (inr m) = inr (In-take n a xs m)

  In-drop : (n : ℕ) (a : A) (xs : List A) → In a (drop n xs) → In a xs
  unfolding drop
  In-drop zero a xs m = m
  In-drop (suc n) a [] m = absurd m
  In-drop (suc n) a (x ∷ xs) m = inr (In-drop n a xs m)

-- What the job ends was running.
batch-is_running :
    (batch cursor : ℕ) (now : Moment) (s : Store) (a : Attempt)
    → In a (filter (is_over now s) (read_batch batch now cursor s))
    → In a s.attempts × (is_in_progress a.status ≡ true)
batch-is_running batch cursor now s a m =
    let (taken, over) = In-filter (is_over now s) a (read_batch batch now cursor s) m in
    let (there, going) =
      In-filter (is_running now) a s.attempts
        (In-drop cursor a (running now s) (In-take batch a (drop cursor (running now s)) taken)) in
    (
      there,
      and-eq-true_left (is_in_progress a.status) _
          (and-eq-true_left (is_in_progress a.status && is_none a.submitted_at) _ going),
    )

-- the row of an attempt, with the end that the attempt had
abbrev pub HasEnded : Attempt → Store → Type 0
HasEnded a s =
    (b : Attempt) × (find_attempt a.id s ≡ some b)
    × (b.status ≡ a.status)
    × (b.submitted_at ≡ a.submitted_at)
    × (b.score_auto ≡ a.score_auto)

module _ (a : Attempt) (ended : is_in_progress a.status ≡ false) where
  abbrev IsSettled : Store → Type 0
  IsSettled s = IsUnique s.attempts × HasEnded a s

  abbrev IsOther : String → Type 0
  IsOther id = (id =ₛ a.id) ≡ false

  IsSettled-other : (s t : Store) → s.attempts ≡ t.attempts → IsSettled s → IsSettled t
  IsSettled-other s t e (u, (b, found, status, end, score)) = (
    subst IsUnique e u,
    (b, subst (λ z. find (λ c. c.id =ₛ a.id) z ≡ some b) e found, status, end, score),
  )

  IsSettled-gentle :
      (id : String) (f : Attempt → Attempt) (s : Store)
      → IsGentle f
      → IsSettled s
      → IsSettled (update_attempt id f s)
  IsSettled-gentle id f s g (u, (b, found, status, end, score)) =
      let k = update_row-KeepsKeys id f g.keys_kept in
      (
        map-IsUnique (update_row id f) k s.attempts u,
        (
          update_row id f b,
          find-map (update_row id f) k a.id s.attempts found,
          update_row-same (λ c. c.status) id f g.status_kept b ∙ status,
          update_row-same (λ c. c.submitted_at) id f g.end_kept b ∙ end,
          update_row-same (λ c. c.score_auto) id f g.score_kept b ∙ score,
        ),
      )

  IsSettled-end :
      (id : String) (f : Attempt → Attempt) (s : Store)
      → KeepsKeys f
      → IsOther id
      → IsSettled s
      → IsSettled (update_attempt id f s)
  IsSettled-end id f s k may (u, (b, found, status, end, score)) =
      let k' = update_row-KeepsKeys id f k in
      let apart : (b.id =ₛ id) ≡ false =
        ap (λ z. z =ₛ id) (found_id a.id b s found) ∙ =ₛ_comm a.id id ∙ may in
      let row : update_row id f b ≡ b = rw apart refl in
      (
        map-IsUnique (update_row id f) k' s.attempts u,
        (
          update_row id f b,
          find-map (update_row id f) k' a.id s.attempts found,
          ap (λ c. c.status) row ∙ status,
          ap (λ c. c.submitted_at) row ∙ end,
          ap (λ c. c.score_auto) row ∙ score,
        ),
      )

  IsSettled-add :
      (b : Attempt) (s : Store)
      → any (clashes b) s.attempts ≡ false
      → IsSettled s
      → IsSettled (add_attempt b s)
  IsSettled-add b s free (u, (c, found, status, end, score)) =
      let fits = any-eq-false (clashes b) s.attempts free in
      let (there, is_a) = find-eq-some (λ d. d.id =ₛ a.id) s.attempts found in
      let apart =
        or-eq-false_left (b.id =ₛ c.id) _
          (All-In (λ d. clashes b d ≡ false) c s.attempts fits there) in
      (
        insert_attempt-IsUnique b s.attempts fits u,
        (
          c,
          find-insert_attempt a.id b s.attempts
                (ap (λ z. b.id =ₛ z) (sym (found_id a.id c s found)) ∙ apart)
              ∙ found,
          status,
          end,
          score,
        ),
      )

  IsSettled-may_end :
      (id : String) (b : Attempt) (s : Store)
      → IsSettled s
      → find_attempt id s ≡ some b
      → is_in_progress b.status ≡ true
      → IsOther id
  IsSettled-may_end id b s (u, (c, found, status, end, score)) h going =
      elim (Bool-cases (id =ₛ a.id)) [
        | inl t ↦
            let here : some c ≡ some b =
              sym found ∙ ap (λ z. find_attempt z s) (sym ((eq_iff id a.id).0 t)) ∙ h in
            let over : is_in_progress b.status ≡ false =
              ap (λ z. is_in_progress z.status) (sym (some-injective here))
              ∙ ap is_in_progress status
              ∙ ended in
            let clash : true ≡ false = sym going ∙ over in cc
        | inr e ↦ e
      ]

  IsSettled-IsKept : IsKept IsSettled IsOther
  IsSettled-IsKept = record {
    by_other_tables = IsSettled-other;
    by_gentle = IsSettled-gentle;
    by_end = IsSettled-end;
    may_end = IsSettled-may_end;
  }

  job-IsOther :
      (batch cursor : ℕ) (now : Moment) (s : Store)
      → IsSettled s
      → All (λ b. IsOther b.id) (filter (is_over now s) (read_batch batch now cursor s))
  job-IsOther batch cursor now s h =
      In-All (λ b. IsOther b.id) (filter (is_over now s) (read_batch batch now cursor s))
        (λ b m.
          let (there, going) = batch-is_running batch cursor now s b m in
          IsSettled-may_end b.id b s h (find-eq_of_In b s.attempts h.0 there) going)

-- Whatever transactions follow, one after another, with activity logs and jobs, in any order and
-- with other steps between the read of a job and its transaction, an attempt that has ended keeps
-- its status, the time of its end and its automatic score, where no batch that a job read before
-- names it, and the rows of the store are unique by id, by session and student, and by session and
-- token.
pub ended_is_final :
    (p : Platform) (hash_token : String → String) (a : Attempt) (read : List (List Attempt))
    {s t : Store} {batches : List (List Attempt)}
    → is_in_progress a.status ≡ false
    → IsUnique s.attempts
    → find_attempt a.id s ≡ some a
    → All (λ batch. All (λ b. (b.id =ₛ a.id) ≡ false) batch) read
    → Reaches p hash_token read s batches t
    → HasEnded a t
ended_is_final p hash_token a read ended unique found unread r =
    (Reaches-keeps p hash_token (IsSettled a ended) (IsOther a ended) (IsSettled-IsKept a ended)
      (IsSettled-add a ended) (job-IsOther a ended) read unread
      (unique, (a, found, refl, refl, refl)) r).1
