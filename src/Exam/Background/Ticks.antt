-- ===== src/Exam/Background/Ticks.antt =====
-- The ticks of an exam: `tickActiveExams` of apps/api/src/modules/exam/exam-attempt.service.ts.
use openlms.Base.{
  ℕ, ◌≡◌, ◌≤◌, refl, sym, ◌∙◌, true, false, String, List, [], ◌∷◌, none, some, arith, leb, inl, inr,
  Bool-cases,
}
use openlms.Base.Dict.{text_keys, Dict, lookup, lookup-insert_self}
use openlms.Quiz.Grading.{remaining_seconds}
use openlms.Exam.{Attempt, Moment}
use openlms.Exam.Background.{Tick, tick_threshold, is_sent, tick_attempt}

threshold_near : (remaining : ℕ) → leb remaining 60 ≡ true → tick_threshold remaining ≡ some 60
unfolding tick_threshold
threshold_near remaining h = rw h refl

threshold_far : (remaining : ℕ) → leb remaining 60 ≡ false → tick_threshold remaining ≡ none
unfolding tick_threshold
threshold_far remaining h = ground arith

remaining_falls :
    (started_at duration_min now later : ℕ)
    → now ≤ later
    → leb (remaining_seconds started_at duration_min now) 60 ≡ true
    → leb (remaining_seconds started_at duration_min later) 60 ≡ true
unfolding remaining_seconds
remaining_falls started_at duration_min now later h k = ground (arith, h, k)

-- the mark 60 stands once it was sent, and silences the attempt
silent :
    (now : Moment) (a : Attempt) (duration_min : ℕ) (last_tick_sent : Dict String ℕ)
    → lookup a.id last_tick_sent ≡ some 60
    → leb (remaining_seconds a.started_at duration_min now.time) 60 ≡ true
    → (tick_attempt now a duration_min last_tick_sent).1 ≡ []
unfolding tick_attempt
silent now a duration_min last_tick_sent known near =
    rw
      (
        tick_attempt,
        threshold_near (remaining_seconds a.started_at duration_min now.time) near,
        known,
      )
      refl

far_silent :
    (now : Moment) (a : Attempt) (duration_min : ℕ) (last_tick_sent : Dict String ℕ)
    → leb (remaining_seconds a.started_at duration_min now.time) 60 ≡ false
    → (tick_attempt now a duration_min last_tick_sent).1 ≡ []
unfolding tick_attempt
far_silent now a duration_min last_tick_sent far =
    rw (tick_attempt, threshold_far (remaining_seconds a.started_at duration_min now.time) far) refl

-- what was not marked is marked with 60
marked :
    (now : Moment) (a : Attempt) (duration_min : ℕ) (last_tick_sent : Dict String ℕ)
    → leb (remaining_seconds a.started_at duration_min now.time) 60 ≡ true
    → is_sent (lookup a.id last_tick_sent) 60 ≡ false
    → lookup a.id ((tick_attempt now a duration_min last_tick_sent).0) ≡ some 60
unfolding tick_attempt
marked now a duration_min last_tick_sent near fresh =
    rw
      (
        tick_attempt,
        threshold_near (remaining_seconds a.started_at duration_min now.time) near,
        fresh,
      )
      (lookup-insert_self a.id 60 last_tick_sent)

sent_silent :
    (now : Moment) (a : Attempt) (duration_min : ℕ) (last_tick_sent : Dict String ℕ)
    → leb (remaining_seconds a.started_at duration_min now.time) 60 ≡ true
    → is_sent (lookup a.id last_tick_sent) 60 ≡ true
    → (tick_attempt now a duration_min last_tick_sent).1 ≡ []
unfolding tick_attempt
sent_silent now a duration_min last_tick_sent near known =
    rw
      (
        tick_attempt,
        threshold_near (remaining_seconds a.started_at duration_min now.time) near,
        known,
      )
      refl

-- An attempt that was sent a tick is sent no other: not when 30 or 10 seconds or none are left.
pub one_tick :
    (now later : Moment) (a : Attempt) (duration_min : ℕ) (last_tick_sent : Dict String ℕ)
    {tick : Tick} {ticks : List Tick}
    → now.time ≤ later.time
    → (tick_attempt now a duration_min last_tick_sent).1 ≡ tick ∷ ticks
    → (tick_attempt later a duration_min ((tick_attempt now a duration_min last_tick_sent).0)).1
      ≡ []
one_tick now later a duration_min last_tick_sent {tick} {ticks} h sent =
    elim (Bool-cases (leb (remaining_seconds a.started_at duration_min now.time) 60)) [
      | inl near ↦ elim (Bool-cases (is_sent (lookup a.id last_tick_sent) 60)) [
        | inl known ↦
            let nothing : [] ≡ tick ∷ ticks =
              sym (sent_silent now a duration_min last_tick_sent near known) ∙ sent in
            cc
        | inr fresh ↦
            silent later a duration_min _ (marked now a duration_min last_tick_sent near fresh)
              (remaining_falls a.started_at duration_min now.time later.time h near)
      ]
      | inr far ↦
          let nothing : [] ≡ tick ∷ ticks =
            sym (far_silent now a duration_min last_tick_sent far) ∙ sent in
          cc
    ]
