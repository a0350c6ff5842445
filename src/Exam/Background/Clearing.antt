-- ===== src/Exam/Background/Clearing.antt =====
-- What the job `autoSubmitExpired` of apps/api/src/modules/exam/exam-attempt.service.ts leaves, where
-- one batch holds all running attempts.
use openlms.Base.{
  filter_none, and-eq-true_left, ℕ, zero, suc, ◌+◌, ◌≡◌, ◌<◌, refl, sym, ◌∙◌, ap, subst, inl, inr,
  true, false, ◌&&◌, List, [], ◌∷◌, Option, some, arith, filter, length, take, ltb, ◌==◌, ◌=ₛ◌,
  eq_refl, Bool-cases, In-filter, filter-In, any_of_In,
}
use openlms.Base.Result.{Result, ok, err, Result-cases}
use openlms.Base.Transaction.{Ends-at}
use openlms.Quiz.Grading.{Platform, is_in_progress}
use openlms.Exam.{Attempt, Store, Error, Moment}
use openlms.Exam.Background.{
  drop, finalize_all, keep_audits, running, is_running, is_over, read_batch, auto_submit_from,
  auto_submit_expired,
}
use openlms.Exam.Background.Others.{OnlyOthersGoOn, finalize_all-others}

take_all : {A : Type 0} (n : ℕ) (xs : List A) → length xs < n → take n xs ≡ xs
take_all zero xs h = absurd (omega (arith, h))
take_all (suc n) [] h = refl
take_all (suc n) (x ∷ xs) h = ap (λ z. x ∷ z) (take_all n xs (omega (arith, h)))

-- whether an attempt is over, by the tables that say so
is_over-same :
    (now : Moment) (a : Attempt) (s t : Store)
    → t.sessions ≡ s.sessions
    → t.exams ≡ s.exams
    → is_over now t a ≡ is_over now s a
is_over-same now a s t sessions exams = rw (sessions, exams) refl

-- Where all that is over was ended, nothing that still runs is over.
nothing_over :
    (now : Moment) (s t : Store)
    → OnlyOthersGoOn (filter (is_over now s) (running now s)) s t
    → filter (is_over now t) (running now t) ≡ []
nothing_over now s t (sessions, exams, rest) = filter_none (is_over now t) (running now t) (λ a m.
    let (there, runs) = In-filter (is_running now) a t.attempts m in
    let going =
      and-eq-true_left (is_in_progress a.status) _
        (and-eq-true_left (is_in_progress a.status && _) _ runs) in
    let (before, other) = rest a there going in
    elim (Bool-cases (is_over now t a)) [
      | inl over ↦
          let listed =
            filter-In (is_over now s) a (running now s)
              (filter-In (is_running now) a s.attempts before runs)
              (sym (is_over-same now a s t sessions exams) ∙ over) in
          let clash : true ≡ false =
            sym (
              any_of_In (λ b. b.id =ₛ a.id) a (filter (is_over now s) (running now s)) listed
                (eq_refl a.id))
            ∙ other in
          cc
      | inr f ↦ f
    ])

nil_of_length : {A : Type 0} (xs : List A) → (length xs == 0) ≡ true → xs ≡ []
nil_of_length [] h = refl
nil_of_length (x ∷ xs) h = absurd (ground (arith, h))

ltb_of_lt : (m n : ℕ) → m < n → ltb m n ≡ true
ltb_of_lt m n h = ground (arith, h)

-- two good results that are one
same_result :
    {m n : ℕ} {s t : Store}
    → ◌≡◌ {A = Option (Result Error ℕ × Store)} (some (ok m, s)) (some (ok n, t))
    → (m ≡ n) × (s ≡ t)
same_result h = (cc, cc)

not_both :
    {e : Error} {n : ℕ} {s t : Store}
    → ◌≡◌ {A = Option (Result Error ℕ × Store)} (some (err e, s)) (some (ok n, t))
    → ⊥
not_both h = cc

module _ (p : Platform) (batch : ℕ) (now : Moment) (s : Store) where
  run_of_none :
      (length (read_batch batch now 0 s) == 0) ≡ true
      → auto_submit_expired p batch now s ≡ some (ok 0, s)
  unfolding auto_submit_expired auto_submit_from
  run_of_none empty = rw (auto_submit_expired, auto_submit_from, empty) refl

  run_that_threw :
      {e : Error}
      → (length (read_batch batch now 0 s) == 0) ≡ false
      → finalize_all p now (filter (is_over now s) (read_batch batch now 0 s)) s ≡ err e
      → auto_submit_expired p batch now s
        ≡ some (err e, keep_audits p now (filter (is_over now s) (read_batch batch now 0 s)) s)
  unfolding auto_submit_expired auto_submit_from
  run_that_threw more threw = rw (auto_submit_expired, auto_submit_from, more, threw) refl

  run_of_batch :
      {done : Unit {0}} {u : Store}
      → (length (read_batch batch now 0 s) == 0) ≡ false
      → length (read_batch batch now 0 s) < batch
      → finalize_all p now (filter (is_over now s) (read_batch batch now 0 s)) s ≡ ok (done, u)
      → auto_submit_expired p batch now s
        ≡ some (ok (0 + length (filter (is_over now s) (read_batch batch now 0 s))), u)
  unfolding auto_submit_expired auto_submit_from
  run_of_batch more few ended =
      rw
        (
          auto_submit_expired,
          auto_submit_from,
          more,
          ended,
          ltb_of_lt (length (read_batch batch now 0 s)) batch few,
        )
        refl

read_batch-whole :
    (batch : ℕ) (now : Moment) (s : Store)
    → length (running now s) < batch
    → read_batch batch now 0 s ≡ running now s
unfolding drop
read_batch-whole batch now s few = take_all batch (running now s) few

-- Where fewer attempts run than a batch holds and the job ends well, it counts the attempts that were
-- over, and none of those that still run is over.
pub auto_submit_clears :
    (p : Platform) (batch : ℕ) (now : Moment) (s : Store) {n : ℕ} {t : Store}
    → length (running now s) < batch
    → auto_submit_expired p batch now s ≡ some (ok n, t)
    → (n ≡ length (filter (is_over now s) (running now s)))
      × (filter (is_over now t) (running now t) ≡ [])
auto_submit_clears p batch now s {n} {t} few h =
    let whole = read_batch-whole batch now s few in
    let over = filter (is_over now s) (read_batch batch now 0 s) in
    let all_over : over ≡ filter (is_over now s) (running now s) =
      ap (filter (is_over now s)) whole in
    elim (Bool-cases (length (read_batch batch now 0 s) == 0)) [
      | inl empty ↦
          let none_runs = sym whole ∙ nil_of_length (read_batch batch now 0 s) empty in
          let (count, same) = same_result (sym (run_of_none p batch now s empty) ∙ h) in
          (
            sym count ∙ rw none_runs refl,
            subst (λ u. filter (is_over now u) (running now u) ≡ []) same (rw none_runs refl),
          )
      | inr more ↦ elim (Result-cases (finalize_all p now over s)) [
        | inr (e, threw) ↦ absurd (not_both (sym (run_that_threw p batch now s more threw) ∙ h))
        | inl ((done, u), ended) ↦
            let small = subst (λ z. length z < batch) (sym whole) few in
            let (count, same) =
              same_result (sym (run_of_batch p batch now s more small ended) ∙ h) in
            (
              omega (arith, count, ap length all_over),
              subst (λ v. filter (is_over now v) (running now v) ≡ []) same
                  (nothing_over now s u (
                    subst (λ z. OnlyOthersGoOn z s u) all_over
                      (Ends-at (λ _ v. OnlyOthersGoOn over s v) (finalize_all p now over s)
                        (finalize_all-others p now over s) ended))),
            )
      ]
    ]
