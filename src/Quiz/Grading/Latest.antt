-- ===== src/Quiz/Grading/Latest.antt =====
-- The answer that counts: `latestAnswersByQuestion` of apps/api/src/modules/quiz/quiz.util.ts.
use openlms.Base.{
  ℕ, ◌≡◌, ◌≤◌, refl, sym, ap, subst, ◌∙◌, inl, inr, true, false, ◌&&◌, String, List, [], ◌∷◌,
  Option, none, some, arith, ltb, ◌=ₛ◌, eq_iff, filter, In, All, All-weaken, if◌then◌else◌,
  Bool-cases,
}
use openlms.Base.Dict.{text_keys, Dict, lookup, insert, lookup-insert_same, lookup-insert_other}
use openlms.Base.Texts.{Text}
use openlms.Quiz.Grading.{
  AnswerLog, answer_text, not_before, latest_from, latest_answers_by_question,
}

-- the log of a question with the greatest time, the last of those
abbrev later_of : String → AnswerLog → Option AnswerLog → Option AnswerLog
later_of q l none = if l.question_id =ₛ q then some l else none
later_of q l (some m) = if l.question_id =ₛ q && ltb m.saved_at l.saved_at then some l else some m

unfoldable pub newest_log : String → List AnswerLog → Option AnswerLog
newest_log q [] = none
newest_log q (l ∷ logs) = later_of q l (newest_log q logs)

-- what a map with an answer and its time becomes by the logs
abbrev updated : Option Text → Option ℕ → Option AnswerLog → Option Text
updated answer time none = answer
updated answer time (some m) =
    if not_before time m.saved_at then some (answer_text m.answer) else answer

later_of-other :
    (q : String) (l : AnswerLog) (rest : Option AnswerLog)
    → (l.question_id =ₛ q) ≡ false
    → later_of q l rest ≡ rest
later_of-other q l none f = rw f refl
later_of-other q l (some m) f = rw f refl

-- One log of the question, against what the later ones say.
updated-newer :
    (q : String) (l : AnswerLog) (answer : Option Text) (time : Option ℕ) (rest : Option AnswerLog)
    → (l.question_id =ₛ q) ≡ true
    → not_before time l.saved_at ≡ true
    → updated (some (answer_text l.answer)) (some l.saved_at) rest
      ≡ updated answer time (later_of q l rest)
updated-newer q l answer none none t n = rw t refl
updated-newer q l answer (some prev) none t n = rw t (rw n refl)
updated-newer q l answer none (some m) t n = rw t (ground arith)
updated-newer q l answer (some prev) (some m) t n = rw t (ground arith)

updated-older :
    (q : String) (l : AnswerLog) (answer : Option Text) (time : Option ℕ) (rest : Option AnswerLog)
    → (l.question_id =ₛ q) ≡ true
    → not_before time l.saved_at ≡ false
    → updated answer time rest ≡ updated answer time (later_of q l rest)
updated-older q l answer none rest t n = cc
updated-older q l answer (some prev) none t n = rw t (rw n refl)
updated-older q l answer (some prev) (some m) t n = rw t (ground arith)

latest_from-newest_log :
    (q : String) (answers : Dict String Text) (times : Dict String ℕ) (logs : List AnswerLog)
    → lookup q (latest_from answers times logs)
      ≡ updated (lookup q answers) (lookup q times) (newest_log q logs)
unfolding latest_from newest_log
latest_from-newest_log q answers times [] = refl
latest_from-newest_log q answers times (l ∷ logs) =
    let text = answer_text l.answer in
    let older = latest_from-newest_log q answers times logs in
    let newer =
      latest_from-newest_log q (insert l.question_id text answers)
        (insert l.question_id l.saved_at times) logs in
    let rest = newest_log q logs in
    elim (Bool-cases (l.question_id =ₛ q)) [
      | inl t ↦
          let same = (eq_iff l.question_id q).0 t in
          let held = ap (λ z. not_before (lookup z times) l.saved_at) same in
          elim (Bool-cases (not_before (lookup q times) l.saved_at)) [
            | inl n ↦ rw (held ∙ n) (
                newer
                ∙ ap (λ z. updated z (lookup q (insert l.question_id l.saved_at times)) rest)
                    (lookup-insert_same l.question_id q text answers same)
                ∙ ap (λ z. updated (some text) z rest)
                    (lookup-insert_same l.question_id q l.saved_at times same)
                ∙ updated-newer q l (lookup q answers) (lookup q times) rest t n)
            | inr n ↦
                rw (held ∙ n)
                  (older ∙ updated-older q l (lookup q answers) (lookup q times) rest t n)
          ]
      | inr f ↦
          let newer_too =
            newer
            ∙ ap (λ z. updated z (lookup q (insert l.question_id l.saved_at times)) rest)
                (lookup-insert_other l.question_id q text answers f)
            ∙ ap (λ z. updated (lookup q answers) z rest)
                (lookup-insert_other l.question_id q l.saved_at times f) in
          let last =
            ap (updated (lookup q answers) (lookup q times)) (sym (later_of-other q l rest f)) in
          elim (Bool-cases (not_before (lookup l.question_id times) l.saved_at)) [
            | inl n ↦ rw n (newer_too ∙ last)
            | inr n ↦ rw n (older ∙ last)
          ]
    ]

abbrev answer_of : Option AnswerLog → Option Text
answer_of none = none
answer_of (some m) = some (answer_text m.answer)

-- the logs of a question
abbrev pub logs_of : String → List AnswerLog → List AnswerLog
logs_of q logs = filter (λ l. l.question_id =ₛ q) logs

-- what the newest log is
abbrev IsNewest : String → List AnswerLog → Option AnswerLog → Type 0
IsNewest q logs none = logs_of q logs ≡ []
IsNewest q logs (some m) =
    In m (logs_of q logs) × All (λ l. l.saved_at ≤ m.saved_at) (logs_of q logs)

later_of-IsNewest :
    (q : String) (l : AnswerLog) (logs : List AnswerLog) (rest : Option AnswerLog)
    → IsNewest q logs rest
    → IsNewest q (l ∷ logs) (later_of q l rest)
later_of-IsNewest q l logs none h = elim (Bool-cases (l.question_id =ₛ q)) [
  | inl t ↦ rw t (rw t (inl refl, (omega arith, rw h tt)))
  | inr f ↦ rw f (rw f h)
]
later_of-IsNewest q l logs (some m) h = elim (Bool-cases (l.question_id =ₛ q)) [
  | inl t ↦ elim (Bool-cases (ltb m.saved_at l.saved_at)) [
    | inl later ↦
        let below : m.saved_at ≤ l.saved_at = ground (arith, later) in
        rw (t, later)
          (rw t (
            inl refl,
            (
              omega arith,
              All-weaken (λ z. z.saved_at ≤ m.saved_at) (λ z. z.saved_at ≤ l.saved_at)
                  (logs_of q logs) (λ z le. omega (arith, le, below)) h.1,
            ),
          ))
    | inr earlier ↦
        let below : l.saved_at ≤ m.saved_at = ground (arith, earlier) in
        rw (t, earlier) (rw t (inr h.0, (below, h.1)))
  ]
  | inr f ↦ rw f (rw f h)
]

newest_log-IsNewest : (q : String) (logs : List AnswerLog) → IsNewest q logs (newest_log q logs)
unfolding newest_log
newest_log-IsNewest q [] = refl
newest_log-IsNewest q (l ∷ logs) =
    later_of-IsNewest q l logs (newest_log q logs) (newest_log-IsNewest q logs)

latest-eq-newest_log :
    (q : String) (logs : List AnswerLog)
    → lookup q (latest_answers_by_question logs) ≡ answer_of (newest_log q logs)
unfolding latest_answers_by_question lookup
latest-eq-newest_log q logs = latest_from-newest_log q [] [] logs ∙ fresh (newest_log q logs)
  where
    fresh : (m : Option AnswerLog) → updated none none m ≡ answer_of m
    fresh none = refl
    fresh (some m) = refl

-- an answer of the newest log of a question, or none where it has no log
abbrev pub IsNewestAnswer : String → List AnswerLog → Option Text → Type 0
IsNewestAnswer q logs none = logs_of q logs ≡ []
IsNewestAnswer q logs (some answer) =
    (m : AnswerLog) × In m (logs_of q logs)
    × (answer ≡ answer_text m.answer)
    × All (λ l. l.saved_at ≤ m.saved_at) (logs_of q logs)

newest_log-IsNewestAnswer :
    (q : String) (logs : List AnswerLog) (best : Option AnswerLog)
    → IsNewest q logs best
    → IsNewestAnswer q logs (answer_of best)
newest_log-IsNewestAnswer q logs none h = h
newest_log-IsNewestAnswer q logs (some m) h = (m, h.0, refl, h.1)

-- The answer that `latestAnswersByQuestion` has for a question is that of a log of the question
-- with the greatest time of all its logs; it has none only for a question without logs.
pub latest_answers-IsNewestAnswer :
    (q : String) (logs : List AnswerLog)
    → IsNewestAnswer q logs (lookup q (latest_answers_by_question logs))
latest_answers-IsNewestAnswer q logs =
    subst (IsNewestAnswer q logs) (sym (latest-eq-newest_log q logs))
      (newest_log-IsNewestAnswer q logs (newest_log q logs) (newest_log-IsNewest q logs))
