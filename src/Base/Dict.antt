-- ===== src/Base/Dict.antt =====
-- A JavaScript `Map` as an association list in insertion order, over keys with a Boolean
-- equality.
use Prim.Native.Nat.{ℕ}
use Prim.Native.String.{String}
use mathlib.Core.Path.{◌≡◌, refl, sym, subst, ap}
use mathlib.Core.Logic.{◌↔◌, inl, inr}
use mathlib.Core.Bool.{Bool, true, false}
use mathlib.Core.List.{List, [], ◌∷◌, ◌++◌, map}
use openlms.Base.Members.{All}
use mathlib.Core.Option.{Option, none, some}
use native.Mathlib.Omega.{arith}
use text.Mathlib.TextEquality.{eq_iff}
use openlms.Base.Tests.{◌==◌ as nat_beq, ◌=ₛ◌, ==_iff, if◌then◌else◌, Bool-cases}
use openlms.Base.Lists.{filter}

-- Keys that a test tells apart.
pub record Keyed (K : Type 0) : Type 0 where
  pub same : K → K → Bool
  pub same_iff : (i k : K) → (same i k ≡ true) ↔ (i ≡ k)

instance abbrev pub text_keys : Keyed String
text_keys = record { same = λ i k. i =ₛ k; same_iff = λ i k. eq_iff i k }

instance abbrev pub id_keys : Keyed ℕ
id_keys = record { same = λ i k. nat_beq i k; same_iff = λ i k. ==_iff i k }

abbrev pub Dict : Type 0 → Type 0 → Type 0
Dict K V = List (K × V)

module _ {K : Type 0} {V : Type 0} where
  abbrev pub values : Dict K V → List V
  values [] = []
  values ((k, v) ∷ m) = v ∷ values m

  abbrev pub keys : Dict K V → List K
  keys [] = []
  keys ((k, v) ∷ m) = k ∷ keys m

module _ {K : Type 0} {V : Type 0} ⦃e : Keyed K⦄ where
  -- `m.get(k)`
  unfoldable pub lookup : K → Dict K V → Option V
  lookup k [] = none
  lookup k ((j, v) ∷ m) = if e.same k j then some v else lookup k m

  -- `m.set(k, v)`
  unfoldable pub insert : K → V → Dict K V → Dict K V
  insert k v [] = (k, v) ∷ []
  insert k v ((j, w) ∷ m) = if e.same k j then (j, v) ∷ m else (j, w) ∷ insert k v m

  -- `m.delete(k)`; no key stands twice, and the model deletes each.
  unfoldable pub erase : K → Dict K V → Dict K V
  erase k [] = []
  erase k ((j, w) ∷ m) = if e.same k j then erase k m else (j, w) ∷ erase k m

  pub lookup-insert :
      (k j : K) (v : V) (m : Dict K V)
      → lookup j (insert k v m) ≡ (if e.same j k then some v else lookup j m)
  unfolding lookup insert
  lookup-insert k j v [] = refl
  lookup-insert k j v ((i, w) ∷ m) =
      ground (arith, e.same_iff j k, e.same_iff k i, e.same_iff j i, lookup-insert k j v m)

  pub lookup-erase :
      (k j : K) (m : Dict K V) → lookup j (erase k m) ≡ (if e.same j k then none else lookup j m)
  unfolding lookup erase
  lookup-erase k j [] = ground arith
  lookup-erase k j ((i, w) ∷ m) =
      ground (arith, e.same_iff j k, e.same_iff k i, e.same_iff j i, lookup-erase k j m)

  pub lookup-insert_self : (k : K) (v : V) (m : Dict K V) → lookup k (insert k v m) ≡ some v
  lookup-insert_self k v m = ground (arith, lookup-insert k k v m, e.same_iff k k)

  pub lookup-insert_same :
      (k j : K) (v : V) (m : Dict K V) → k ≡ j → lookup j (insert k v m) ≡ some v
  lookup-insert_same k j v m h = ground (arith, lookup-insert k j v m, e.same_iff j k, h)

  pub lookup-insert_other :
      (k j : K) (v : V) (m : Dict K V) → e.same k j ≡ false → lookup j (insert k v m) ≡ lookup j m
  lookup-insert_other k j v m h =
      ground (arith, lookup-insert k j v m, e.same_iff j k, e.same_iff k j, h)

module _ {K : Type 0} {V : Type 0} ⦃e : Keyed K⦄ where
  -- No key stands twice.
  abbrev pub IsMap : Dict K V → Type 0
  IsMap [] = Unit
  IsMap ((k, v) ∷ m) = (lookup k m ≡ none) × IsMap m

  pub insert-IsMap : (k : K) (v : V) (m : Dict K V) → IsMap m → IsMap (insert k v m)
  unfolding lookup insert
  insert-IsMap k v [] h = (refl, tt)
  insert-IsMap k v ((j, w) ∷ m) h =
      ground (arith, insert-IsMap k v m h.1, lookup-insert k j v m, e.same_iff j k, e.same_iff k j)

  pub erase-IsMap : (k : K) (m : Dict K V) → IsMap m → IsMap (erase k m)
  unfolding lookup erase
  erase-IsMap k [] h = tt
  erase-IsMap k ((j, w) ∷ m) h = ground (arith, erase-IsMap k m h.1, lookup-erase k j m)

  abbrev pub keep_if : (K × V → Bool) → K → Option V → Option V
  keep_if p k none = none
  keep_if p k (some v) = if p (k, v) then some v else none

  -- An entry stays where it passes the test.
  pub lookup-filter :
      (p : K × V → Bool) (k : K) (m : Dict K V)
      → IsMap m
      → lookup k (filter p m) ≡ keep_if p k (lookup k m)
  unfolding lookup
  lookup-filter p k [] h = refl
  lookup-filter p k ((j, w) ∷ m) h = elim (Bool-cases (e.same k j)) [
    | inl t ↦
        subst (λ i. lookup i (filter p ((j, w) ∷ m)) ≡ keep_if p i (lookup i ((j, w) ∷ m)))
          (sym ((e.same_iff k j).0 t)) (ground (arith, e.same_iff j j, lookup-filter p j m h.1))
    | inr t ↦ ground (arith, lookup-filter p k m h.1)
  ]

module _ {K : Type 0} {V : Type 0} ⦃e : Keyed K⦄ where
  pub All-insert :
      (P : K × V → Type 0) (k : K) (v : V) (m : Dict K V)
      → All P m
      → P (k, v)
      → All P (insert k v m)
  unfolding insert
  All-insert P k v [] h p = (p, tt)
  All-insert P k v ((j, w) ∷ m) h p = elim (Bool-cases (e.same k j)) [
    | inl t ↦ rw t (subst (λ i. P (i, v)) ((e.same_iff k j).0 t) p, h.1)
    | inr t ↦ rw t (h.0, All-insert P k v m h.1 p)
  ]

  pub All-lookup :
      (P : K × V → Type 0) (k : K) (m : Dict K V) {v : V} → All P m → lookup k m ≡ some v → P (k, v)
  unfolding lookup
  All-lookup P k [] h l = cc
  All-lookup P k ((j, w) ∷ m) {v} h l = elim (Bool-cases (e.same k j)) [
    | inl t ↦
        let found : some w ≡ some v = rw t at l in
        let same : w ≡ v = cc in
        subst (λ i. P (i, v)) (sym ((e.same_iff k j).0 t)) (subst (λ u. P (j, u)) same h.0)
    | inr t ↦ All-lookup P k m h.1 (rw t at l)
  ]

  -- An entry that is replaced by one of the same image leaves the images as they were.
  pub map-values-insert :
      {A : Type 0} (f : V → A) (k : K) (v : V) (m : Dict K V) {w : V}
      → lookup k m ≡ some w
      → f v ≡ f w
      → map f (values (insert k v m)) ≡ map f (values m)
  unfolding lookup insert
  map-values-insert f k v [] l h = cc
  map-values-insert f k v ((j, u) ∷ m) {w} l h = elim (Bool-cases (e.same k j)) [
    | inl t ↦
        let found : some u ≡ some w = rw t at l in
        let same : u ≡ w = cc in rw t (ground (arith, h, same))
    | inr t ↦ rw t (ap (λ z. f u ∷ z) (map-values-insert f k v m (rw t at l) h))
  ]

  pub values-insert_new :
      (k : K) (v : V) (m : Dict K V)
      → lookup k m ≡ none
      → values (insert k v m) ≡ values m ++ v ∷ []
  unfolding lookup insert
  values-insert_new k v [] l = refl
  values-insert_new k v ((j, u) ∷ m) l = ground (arith, values-insert_new k v m)
