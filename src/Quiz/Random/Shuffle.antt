-- ===== src/Quiz/Random/Shuffle.antt =====
-- A shuffle keeps every item, and draws only indices that are there.
use openlms.Base.{
  ℕ, zero, suc, ◌+◌, ◌-◌, ◌≤◌, ◌<◌, ◌≡◌, refl, ap, ◌∙◌, Bool, List, [], ◌∷◌, some, arith, length,
  length-set, map, subst, sym, get_elem?, set, count, if◌then◌else◌, Option,
}
use openlms.Quiz.Random.{
  u32, scaled, mulberry32, hash_seed, read, write, present, swap, shuffle_from, seeded_shuffle,
  seeded_index,
}

drawn-lt : (state : ℕ) → (mulberry32 state).0 < u32
unfolding mulberry32
drawn-lt state = omega arith

scaled-lt : (d n : ℕ) → d < u32 → 0 < n → scaled d n < n
scaled-lt d n h p = grind arith

-- After a write of what stands at `j`, that is still what stands at `j`.
get_elem?-set_read :
    {A : Type 0} (xs : List A) (i j : ℕ) {v : A}
    → get_elem? xs j ≡ some v
    → get_elem? (set xs i v) j ≡ some v
get_elem?-set_read [] i j h = h
get_elem?-set_read (x ∷ xs) zero zero h = refl
get_elem?-set_read (x ∷ xs) zero (suc j) h = h
get_elem?-set_read (x ∷ xs) (suc i) zero h = h
get_elem?-set_read (x ∷ xs) (suc i) (suc j) h = get_elem?-set_read xs i j h

module _ {A : Type 0} where
  abbrev whole : List A → List (Option A)
  whole xs = map (λ a. some a) xs

  pub item_at : (i : ℕ) (xs : List A) → i < length xs → (a : A) × (get_elem? xs i ≡ some a)
  item_at i [] h = absurd (omega arith)
  item_at zero (x ∷ xs) h = (x, refl)
  item_at (suc i) (x ∷ xs) h = item_at i xs (omega (arith, h))

  read-whole : (i : ℕ) (xs : List A) {a : A} → get_elem? xs i ≡ some a → read i (whole xs) ≡ some a
  unfolding read
  read-whole i [] h = cc
  read-whole zero (x ∷ xs) h = h
  read-whole (suc i) (x ∷ xs) h = read-whole i xs h

  write-whole :
      (i : ℕ) (a : A) (xs : List A)
      → i < length xs
      → write i (some a) (whole xs) ≡ whole (set xs i a)
  unfolding write
  write-whole i a [] h = absurd (omega arith)
  write-whole zero a (x ∷ xs) h = refl
  write-whole (suc i) a (x ∷ xs) h = ap (λ z. some x ∷ z) (write-whole i a xs (omega (arith, h)))

  present-whole : (xs : List A) → present (whole xs) ≡ xs
  present-whole [] = refl
  present-whole (x ∷ xs) = ap (λ z. x ∷ z) (present-whole xs)

  swap-whole :
      (i j : ℕ) (xs : List A) {a b : A}
      → i < length xs
      → j < length xs
      → get_elem? xs i ≡ some a
      → get_elem? xs j ≡ some b
      → swap i j (whole xs) ≡ whole (set (set xs i b) j a)
  unfolding swap
  swap-whole i j xs {a} {b} m n at_i at_j =
      rw (swap, read-whole i xs at_i, read-whole j xs at_j, write-whole i b xs m)
        (write-whole j a (set xs i b) (subst (λ l. j < l) (sym (length-set xs i b)) n))

module _ {A : Type 0} (p : A → Bool) where
  abbrev one : A → ℕ
  one a = if p a then 1 else 0

  count-set :
      (xs : List A) (i : ℕ) (v : A) {a : A}
      → get_elem? xs i ≡ some a
      → count p (set xs i v) + one a ≡ count p xs + one v
  count-set [] i v h = absurd (ground arith)
  count-set (x ∷ xs) zero v h = ground arith
  count-set (x ∷ xs) (suc i) v h = omega (arith, count-set xs i v h)

  -- an array of items of which as many pass the test
  abbrev IsShuffled : List A → List (Option A) → Type 0
  IsShuffled xs copy = (ys : List A) × (copy ≡ whole ys) × (count p ys ≡ count p xs)

  shuffle_from-IsShuffled :
      (i state : ℕ) (xs : List A)
      → i ≤ length xs - 1
      → IsShuffled xs (shuffle_from i state (whole xs))
  unfolding shuffle_from
  shuffle_from-IsShuffled zero state xs h = (xs, refl, refl)
  shuffle_from-IsShuffled (suc i) state xs h =
      let j = scaled (mulberry32 state).0 (suc i + 1) in
      let in_i : suc i < length xs = omega (arith, h) in
      let in_j : j < length xs =
        omega
          (arith, scaled-lt (mulberry32 state).0 (suc i + 1) (drawn-lt state) (omega arith), h) in
      let (a, at_i) = item_at (suc i) xs in_i in
      let (b, at_j) = item_at j xs in_j in
      let ys = set (set xs (suc i) b) j a in
      let long : length ys ≡ length xs =
        length-set (set xs (suc i) b) j a ∙ length-set xs (suc i) b in
      let (zs, same, kept) =
        shuffle_from-IsShuffled i (mulberry32 state).1 ys (omega (arith, h, long)) in
      (
        zs,
        ap (shuffle_from i (mulberry32 state).1) (swap-whole (suc i) j xs in_i in_j at_i at_j)
            ∙ same,
        kept
            ∙ omega (
              arith,
              count-set xs (suc i) b at_i,
              count-set (set xs (suc i) b) j a (get_elem?-set_read xs (suc i) j at_j),
            ),
      )

  -- A shuffle keeps the items: no entry of the result is `undefined`, and for every test, as many
  -- of the shuffled items pass it as before, so that each item stands in the result as often as in
  -- the input.
  pub count-seeded_shuffle :
      (seed : List ℕ) (items : List A)
      → (seeded_shuffle seed items ≡ map (λ a. some a) (present (seeded_shuffle seed items)))
        × (count p (present (seeded_shuffle seed items)) ≡ count p items)
  unfolding seeded_shuffle
  count-seeded_shuffle seed items =
      let (ys, same, kept) =
        shuffle_from-IsShuffled (length items - 1) (hash_seed seed) items (omega arith) in
      let mine : present (seeded_shuffle seed items) ≡ ys = ap present same ∙ present-whole ys in
      (same ∙ ap whole (sym mine), ap (count p) mine ∙ kept)

-- The indices that the shuffle draws at round `i` are among the first `i + 1`, those of the part
-- that is not settled yet, and the index drawn for a package is one of the packages.
pub indices_in_range :
    (seed : List ℕ) (state i n : ℕ)
    → 0 < n
    → (scaled (mulberry32 state).0 (i + 1) ≤ i) × (seeded_index seed n < n)
unfolding seeded_index
indices_in_range seed state i n h = (
  omega (arith, scaled-lt (mulberry32 state).0 (i + 1) (drawn-lt state) (omega arith)),
  ground (arith, scaled-lt (mulberry32 (hash_seed seed)).0 n (drawn-lt (hash_seed seed)) h),
)
