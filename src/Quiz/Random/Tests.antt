-- ===== src/Quiz/Random/Tests.antt =====
-- Runs of the shuffle. The seed is the text "attempt-1".
use openlms.Base.{ℕ, ◌≡◌, List, [], ◌∷◌, count, ltb, map, some}
use openlms.Quiz.Random.{seeded_shuffle, present}
use openlms.Quiz.Random.Shuffle.{count-seeded_shuffle}

abbrev seed : List ℕ
seed = 97 ∷ 116 ∷ 116 ∷ 101 ∷ 109 ∷ 112 ∷ 116 ∷ 45 ∷ 49 ∷ []

abbrev five : List ℕ
five = 1 ∷ 2 ∷ 3 ∷ 4 ∷ 5 ∷ []

count-seeded_shuffle_example :
    (seeded_shuffle seed five ≡ map (λ a. some a) (present (seeded_shuffle seed five)))
    × (count (λ x. ltb x 3) (present (seeded_shuffle seed five)) ≡ 2)
count-seeded_shuffle_example = count-seeded_shuffle (λ x. ltb x 3) seed five
