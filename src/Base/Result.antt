-- ===== src/Base/Result.antt =====
-- A call that may throw: the value, or the exception.
use mathlib.Core.Path.{◌≡◌, refl}
use mathlib.Core.Logic.{◌⊎◌, inl, inr}
use mathlib.Core.Bool.{Bool, true, false}
use mathlib.Core.Option.{Option, none, some}

pub data Result (E A : Type 0) : Type 0 where
  err : E → Result E A
  ok : A → Result E A

module _ {E : Type 0} where
  infixl 5 ◌>>◌ ◌>>=◌
  -- The rest runs only where the call returned.
  abbrev pub ◌>>=◌ : {X Y : Type 0} → Result E X → (X → Result E Y) → Result E Y
  err thrown >>= rest = err thrown
  ok x >>= rest = rest x

  abbrev pub ◌>>◌ : {Y : Type 0} → Result E (Unit {0}) → Result E Y → Result E Y
  err thrown >> rest = err thrown
  ok done >> rest = rest

  -- `if (test) throw e`
  abbrev pub throw_if : Bool → E → Result E (Unit {0})
  throw_if true e = err e
  throw_if false e = ok tt

  -- `if (!o) throw e`
  abbrev pub or_throw : {A : Type 0} → Option A → E → Result E A
  or_throw none e = err e
  or_throw (some a) e = ok a

  pub Result-cases :
      {X : Type 0} (r : Result E X) → ((x : X) × (r ≡ ok x)) ⊎ ((e : E) × (r ≡ err e))
  Result-cases (err e) = inr (e, refl)
  Result-cases (ok x) = inl (x, refl)

  -- Where the whole returned, its first call did.
  pub bind-returned :
      {X Y : Type 0} (first : Result E X) (rest : X → Result E Y) {y : Y}
      → (first >>= rest) ≡ ok y
      → (x : X) × (first ≡ ok x) × (rest x ≡ ok y)
  bind-returned (err thrown) rest returned = cc
  bind-returned (ok x) rest returned = (x, refl, returned)

  pub throw_if-eq-ok : (b : Bool) (e : E) → throw_if b e ≡ ok tt → b ≡ false
  throw_if-eq-ok true e h = cc
  throw_if-eq-ok false e h = refl

  pub or_throw-eq-ok :
      {A : Type 0} (o : Option A) (e : E) {a : A} → or_throw o e ≡ ok a → o ≡ some a
  or_throw-eq-ok none e h = cc
  or_throw-eq-ok (some x) e h = cc

  -- A first step that only guards: what follows ran, and the guard let it.
  pub throw_if-then-eq-ok :
      {B : Type 0} (b : Bool) (e : E) (m : Result E B) {x : B}
      → (throw_if b e >> m) ≡ ok x
      → (b ≡ false) × (m ≡ ok x)
  throw_if-then-eq-ok true e m h = cc
  throw_if-then-eq-ok false e m h = (refl, h)
