-- ===== src/Base/Members.antt =====
-- Predicates over the members of a list, by recursion, so that they compute to tuples.
use mathlib.Core.Path.{◌≡◌, refl, ap}
use mathlib.Core.Bool.{Bool, true, false}
use mathlib.Core.Logic.{◌⊎◌, inl, inr}
use mathlib.Core.List.{List, [], ◌∷◌, ◌++◌, map}
use mathlib.Core.Option.{none, some}
use native.Mathlib.Omega.{arith}
use openlms.Base.Tests.{Bool-cases}
use openlms.Base.Lists.{filter, find, any}

module _ {A : Type 0} where
  -- Membership that can be taken apart into data.
  abbrev pub In : A → List A → Type 0
  In a [] = ⊥
  In a (x ∷ xs) = (a ≡ x) ⊎ In a xs

  abbrev pub All : (A → Type 0) → List A → Type 0
  All P [] = Unit
  All P (x ∷ xs) = P x × All P xs

  pub All-In : (P : A → Type 0) (a : A) (xs : List A) → All P xs → In a xs → P a
  All-In P a [] h m = absurd m
  All-In P a (x ∷ xs) h (inl e) = rw e h.0
  All-In P a (x ∷ xs) h (inr m) = All-In P a xs h.1 m

  pub In-All : (P : A → Type 0) (xs : List A) → ((a : A) → In a xs → P a) → All P xs
  In-All P [] h = tt
  In-All P (x ∷ xs) h = (h x (inl refl), In-All P xs (λ a m. h a (inr m)))

  pub All-append : (P : A → Type 0) (xs ys : List A) → All P xs → All P ys → All P (xs ++ ys)
  All-append P [] ys h k = k
  All-append P (x ∷ xs) ys h k = (h.0, All-append P xs ys h.1 k)

  pub In-append_left : (a : A) (xs ys : List A) → In a xs → In a (xs ++ ys)
  In-append_left a [] ys m = absurd m
  In-append_left a (x ∷ xs) ys (inl e) = inl e
  In-append_left a (x ∷ xs) ys (inr m) = inr (In-append_left a xs ys m)

  pub In-append_right : (a : A) (xs ys : List A) → In a ys → In a (xs ++ ys)
  In-append_right a [] ys m = m
  In-append_right a (x ∷ xs) ys m = inr (In-append_right a xs ys m)

  pub In-append : (a : A) (xs ys : List A) → In a (xs ++ ys) → In a xs ⊎ In a ys
  In-append a [] ys m = inr m
  In-append a (x ∷ xs) ys (inl e) = inl (inl e)
  In-append a (x ∷ xs) ys (inr m) = elim (In-append a xs ys m) [
    | inl here ↦ inl (inr here)
    | inr later ↦ inr later
  ]

  pub All-weaken : (P Q : A → Type 0) (xs : List A) → ((a : A) → P a → Q a) → All P xs → All Q xs
  All-weaken P Q [] f h = tt
  All-weaken P Q (x ∷ xs) f h = (f x h.0, All-weaken P Q xs f h.1)

  pub In-filter : (p : A → Bool) (a : A) (xs : List A) → In a (filter p xs) → In a xs × (p a ≡ true)
  In-filter p a [] m = absurd m
  In-filter p a (x ∷ xs) m = elim (Bool-cases (p x)) [
    | inl e ↦ elim (rw e at m) as (λ _. (In a (x ∷ xs)) × (p a ≡ true)) [
      | inl same ↦ (inl same, rw same e)
      | inr later ↦ let (i, q) = In-filter p a xs later in (inr i, q)
    ]
    | inr e ↦ let (i, q) = In-filter p a xs (rw e at m) in (inr i, q)
  ]

  pub filter-In : (p : A → Bool) (a : A) (xs : List A) → In a xs → p a ≡ true → In a (filter p xs)
  filter-In p a [] m h = m
  filter-In p a (x ∷ xs) m h = elim (Bool-cases (p x)) [
    | inl e ↦ rw e (elim m [ inl same ↦ inl same | inr later ↦ inr (filter-In p a xs later h) ])
    | inr e ↦ rw e (elim m [
      | inl same ↦ let clash : false ≡ true = sym_at e same h in cc
      | inr later ↦ filter-In p a xs later h
    ])
  ]
    where
      sym_at : {b : A} → p b ≡ false → a ≡ b → p a ≡ true → false ≡ true
      sym_at e same h = cc

  -- What `find` returns is a member that passes the test; it returns nothing only if none does.
  pub find-eq-some :
      (p : A → Bool) (xs : List A) {a : A} → find p xs ≡ some a → In a xs × (p a ≡ true)
  find-eq-some p [] h = cc
  find-eq-some p (x ∷ xs) {a} h = elim (Bool-cases (p x)) [
    | inl e ↦ let same : x ≡ a = ground arith in (inl (cc), cc)
    | inr e ↦ let (i, q) = find-eq-some p xs (rw e at h) in (inr i, q)
  ]

  pub find-eq-none : (p : A → Bool) (xs : List A) → find p xs ≡ none → All (λ a. p a ≡ false) xs
  find-eq-none p [] h = tt
  find-eq-none p (x ∷ xs) h = elim (Bool-cases (p x)) [
    | inl e ↦ let clash : some x ≡ none = rw e at h in cc
    | inr e ↦ (e, find-eq-none p xs (rw e at h))
  ]

  pub filter-eq-nil : (p : A → Bool) (xs : List A) → filter p xs ≡ [] → All (λ a. p a ≡ false) xs
  filter-eq-nil p [] h = tt
  filter-eq-nil p (x ∷ xs) h = elim (Bool-cases (p x)) [
    | inl e ↦ let clash : x ∷ filter p xs ≡ [] = rw e at h in cc
    | inr e ↦ (e, filter-eq-nil p xs (rw e at h))
  ]

  pub filter_none :
      (p : A → Bool) (xs : List A) → ((a : A) → In a xs → p a ≡ false) → filter p xs ≡ []
  filter_none p [] h = refl
  filter_none p (x ∷ xs) h = rw (h x (inl refl)) (filter_none p xs (λ a m. h a (inr m)))

  pub any-eq-false : (p : A → Bool) (xs : List A) → any p xs ≡ false → All (λ a. p a ≡ false) xs
  any-eq-false p [] h = tt
  any-eq-false p (x ∷ xs) h = elim (Bool-cases (p x)) [
    | inl e ↦ let clash : true ≡ false = rw e at h in cc
    | inr e ↦ (e, any-eq-false p xs (rw e at h))
  ]

  pub any_of_In : (p : A → Bool) (a : A) (xs : List A) → In a xs → p a ≡ true → any p xs ≡ true
  any_of_In p a [] m h = absurd m
  any_of_In p a (x ∷ xs) (inl e) h = ground arith
  any_of_In p a (x ∷ xs) (inr m) h = ground (arith, any_of_In p a xs m h)

  pub any-eq-true :
      (p : A → Bool) (xs : List A) → any p xs ≡ true → (a : A) × In a xs × (p a ≡ true)
  any-eq-true p [] h = cc
  any-eq-true p (x ∷ xs) h = elim (Bool-cases (p x)) [
    | inl e ↦ (x, inl refl, e)
    | inr e ↦ let (a, m, q) = any-eq-true p xs (rw e at h) in (a, inr m, q)
  ]

module _ {A B : Type 0} (f : A → B) where
  pub map-In : (a : A) (xs : List A) → In a xs → In (f a) (map f xs)
  map-In a [] m = m
  map-In a (x ∷ xs) (inl e) = inl (ap f e)
  map-In a (x ∷ xs) (inr m) = inr (map-In a xs m)

  pub In-map : (b : B) (xs : List A) → In b (map f xs) → (a : A) × In a xs × (b ≡ f a)
  In-map b [] m = absurd m
  In-map b (x ∷ xs) (inl e) = (x, inl refl, e)
  In-map b (x ∷ xs) (inr m) = let (a, i, e) = In-map b xs m in (a, inr i, e)
