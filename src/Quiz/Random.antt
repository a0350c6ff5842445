-- ===== src/Quiz/Random.antt =====
-- The seeded generator and shuffle of apps/api/src/modules/quiz/quiz.util.ts. A 32-bit integer is
-- its unsigned value, so `| 0` and `>>> 0` are the remainder by 2 ^ 32; a seed is the list of its
-- UTF-16 units. `rng() * n` is exact in a double for n up to 2 ^ 21, and the model is for such n. The
-- entries of an array that is being shuffled may be `undefined`.
pub mod Shuffle
mod Tests
use Prim.Native.Nat.{bit_xor, bit_or}
use openlms.Base.{
  ℕ, zero, suc, ◌+◌, ◌-◌, ◌*◌, ◌/◌, ◌%◌, ◌^◌, List, [], ◌∷◌, Option, none, some, length, get_elem?,
  map, leb, if◌then◌else◌, ◌==◌,
}

abbrev pub u32 : ℕ
u32 = 4294967296

-- `Math.imul(a, b)`, `a << k` and `a >>> k`
abbrev pub imul : ℕ → ℕ → ℕ
imul a b = a * b % u32

abbrev pub shl : ℕ → ℕ → ℕ
shl a k = a * 2 ^ k % u32

abbrev pub shr : ℕ → ℕ → ℕ
shr a k = a / 2 ^ k

hash_units : ℕ → List ℕ → ℕ
hash_units h [] = h
hash_units h (c ∷ seed) =
    let mixed = imul (bit_xor h c) 3432918353 in
    hash_units (bit_or (shl mixed 13) (shr mixed 19)) seed

unfoldable pub hash_seed : List ℕ → ℕ
unfolding hash_units
hash_seed seed =
    let h0 = hash_units (bit_xor 1779033703 (length seed)) seed in
    let h1 = imul (bit_xor h0 (shr h0 16)) 2246822507 in
    let h2 = imul (bit_xor h1 (shr h1 13)) 3266489909 in bit_xor h2 (shr h2 16) % u32

-- One call of the generator: the number drawn, to be read over 2 ^ 32, and the next state.
unfoldable pub mulberry32 : ℕ → ℕ × ℕ
mulberry32 state =
    let a = (state + 1831565813) % u32 in
    let t = imul (bit_xor a (shr a 15)) (bit_or 1 a) in
    let t' = bit_xor ((t + imul (bit_xor t (shr t 7)) (bit_or 61 t)) % u32) t in
    (bit_xor t' (shr t' 14) % u32, a)

-- `Math.floor(rng() * n)` for the number drawn
abbrev pub scaled : ℕ → ℕ → ℕ
scaled drawn n = drawn * n / u32

module _ {A : Type 0} where
  -- `copy[i]`, where `none` is `undefined`
  unfoldable pub read : ℕ → List (Option A) → Option A
  read i copy = elim (get_elem? copy i) [ none ↦ none | some o ↦ o ]

  -- `copy[i] = v`, which makes the array longer where it ends before `i`
  unfoldable pub write : ℕ → Option A → List (Option A) → List (Option A)
  write zero v [] = v ∷ []
  write zero v (o ∷ copy) = v ∷ copy
  write (suc i) v [] = none ∷ write i v []
  write (suc i) v (o ∷ copy) = o ∷ write i v copy

  -- `tmp = copy[i]; copy[i] = copy[j]; copy[j] = tmp`
  unfoldable pub swap : ℕ → ℕ → List (Option A) → List (Option A)
  swap i j copy = write j (read i copy) (write i (read j copy) copy)

  -- The loop, from index `i` down to 1.
  unfoldable pub shuffle_from : ℕ → ℕ → List (Option A) → List (Option A)
  shuffle_from zero state copy = copy
  shuffle_from (suc i) state copy =
      let (drawn, state') = mulberry32 state in
      shuffle_from i state' (swap (suc i) (scaled drawn (suc i + 1)) copy)

  unfoldable pub seeded_shuffle : List ℕ → List A → List (Option A)
  seeded_shuffle seed items =
      shuffle_from (length items - 1) (hash_seed seed) (map (λ a. some a) items)

  -- the items of an array; a shuffle leaves none out (Shuffle)
  abbrev pub present : List (Option A) → List A
  present [] = []
  present (none ∷ copy) = present copy
  present (some a ∷ copy) = a ∷ present copy

unfoldable pub seeded_index : List ℕ → ℕ → ℕ
seeded_index seed n = if n == 0 then 0 else scaled (mulberry32 (hash_seed seed)).0 n % n
