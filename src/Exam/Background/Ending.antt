-- ===== src/Exam/Background/Ending.antt =====
-- The end of the job `autoSubmitExpired` of apps/api/src/modules/exam/exam-attempt.service.ts.
use openlms.Base.{
  ℕ, zero, suc, ◌+◌, ◌≡◌, ◌≤◌, ◌<◌, refl, ◌∙◌, subst, inl, inr, Bool, false, List, [], ◌∷◌, some,
  arith, filter, length, length-map, take, ltb, ◌==◌, Bool-cases, In-All,
}
use openlms.Base.Result.{Result, ok, err, Result-cases}
use openlms.Base.Transaction.{Ends-at}
use openlms.Quiz.Grading.{Platform}
use openlms.Exam.{Attempt, Store, Error, Moment, update_row}
use openlms.Exam.Background.{
  drop, finalize_all, keep_audits, running, is_running, is_over, read_batch, auto_submit_from,
  auto_submit_expired,
}
use openlms.Exam.Steps.{IsKept}
use openlms.Exam.Steps.Jobs.{finalize_all-keeps}

filter_shorter : {A : Type 0} (q : A → Bool) (xs : List A) → length (filter q xs) ≤ length xs
filter_shorter q [] = omega arith
filter_shorter q (x ∷ xs) = ground (arith, filter_shorter q xs)

take_of_drop :
    {A : Type 0} (m n : ℕ) (xs : List A)
    → (length (take m (drop n xs)) == 0) ≡ false
    → n < length xs
unfolding drop
take_of_drop zero n xs h = cc
take_of_drop (suc m) zero [] h = cc
take_of_drop (suc m) zero (x ∷ xs) h = omega arith
take_of_drop (suc m) (suc n) [] h = cc
take_of_drop (suc m) (suc n) (x ∷ xs) h = omega (arith, take_of_drop (suc m) n xs h)

module _ (n : ℕ) where
  abbrev HasSize : Store → Type 0
  HasSize s = length s.attempts ≡ n

  HasSize-IsKept : IsKept HasSize (λ id. Unit)
  HasSize-IsKept = record {
    by_other_tables = λ s t e h. subst (λ z. length z ≡ n) e h;
    by_gentle = λ id f s g h. length-map (update_row id f) s.attempts ∙ h;
    by_end = λ id f s k may h. length-map (update_row id f) s.attempts ∙ h;
    may_end = λ id a s h found going. tt;
  }

module _ (p : Platform) (batch : ℕ) where
  batch_before_end :
      (now : Moment) (cursor : ℕ) (s : Store)
      → (length (read_batch batch now cursor s) == 0) ≡ false
      → cursor < length s.attempts
  batch_before_end now cursor s more = omega (
    arith,
    take_of_drop batch cursor (running now s) more,
    filter_shorter (is_running now) s.attempts,
  )

  same_size :
      (now : Moment) (attempts : List Attempt) (s : Store) {done : Unit {0}} {t : Store}
      → finalize_all p now attempts s ≡ ok (done, t)
      → length t.attempts ≡ length s.attempts
  same_size now attempts s e =
      let n = length s.attempts in
      Ends-at (λ _ u. HasSize n u) (finalize_all p now attempts s)
        (finalize_all-keeps p (HasSize n) (λ id. Unit) (HasSize-IsKept n) now attempts s
          (In-All (λ a. Unit) attempts (λ a m. tt)) refl)
        e

  -- A batch that is not empty moves the cursor on, and the table keeps its size.
  auto_submit_from_ends :
      (fuel : ℕ) (now : Moment) (cursor count : ℕ) (s : Store)
      → length s.attempts ≤ fuel + cursor
      → (r : Result Error ℕ × Store) × (auto_submit_from p batch (suc fuel) now cursor count s
          ≡ some r)
  unfolding auto_submit_from
  auto_submit_from_ends zero now cursor count s h =
      elim (Bool-cases (length (read_batch batch now cursor s) == 0)) [
        | inl empty ↦ ((ok count, s), rw (auto_submit_from, empty) refl)
        | inr more ↦ absurd (omega (arith, batch_before_end now cursor s more, h))
      ]
  auto_submit_from_ends (suc fuel) now cursor count s h =
      let attempts = read_batch batch now cursor s in
      let over = filter (is_over now s) attempts in
      elim (Bool-cases (length attempts == 0)) [
        | inl empty ↦ ((ok count, s), rw (auto_submit_from, empty) refl)
        | inr more ↦ elim (Result-cases (finalize_all p now over s)) [
          | inr (e, threw) ↦
              ((err e, keep_audits p now over s), rw (auto_submit_from, more, threw) refl)
          | inl ((done, t), ended) ↦ elim (Bool-cases (ltb (length attempts) batch)) [
            | inl last ↦
                ((ok (count + length over), t), rw (auto_submit_from, more, ended, last) refl)
            | inr full ↦
                let (r, e) =
                  auto_submit_from_ends fuel now (cursor + length attempts) (count + length over) t
                    (ground (arith, more, same_size now over s ended, h)) in
                (r, rw (auto_submit_from, more, ended, full) e)
          ]
        ]
      ]

-- The job ends on every store, for every size of a batch.
pub auto_submit_ends :
    (p : Platform) (batch : ℕ) (now : Moment) (s : Store)
    → (r : Result Error ℕ × Store) × (auto_submit_expired p batch now s ≡ some r)
unfolding auto_submit_expired
auto_submit_ends p batch now s =
    auto_submit_from_ends p batch (length s.attempts) now 0 0 s (omega arith)
