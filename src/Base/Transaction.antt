-- ===== src/Base/Transaction.antt =====
-- A database transaction: what it wrote before a throw is undone, so that it returns with a new
-- store or throws with none.
use mathlib.Core.Path.{◌≡◌, refl, subst}
use mathlib.Core.Bool.{Bool, true, false}
use mathlib.Core.Option.{Option, none, some}
use openlms.Base.Result.{Result, ok, err}

abbrev pub Transaction : Type 0 → Type 0 → Type 0 → Type 0
Transaction S E A = S → Result E (A × S)

ok-injective : {E A : Type 0} {a b : A} → ◌≡◌ {A = Result E A} (ok a) (ok b) → a ≡ b
ok-injective h = cc

module _ {S E : Type 0} where
  abbrev pub then_with :
      {A B : Type 0} → (A → Transaction S E B) → Result E (A × S) → Result E (B × S)
  then_with next (ok (a, store)) = next a store
  then_with next (err e) = err e

  infixl 5 ◌>>◌ ◌>>=◌
  abbrev pub ◌>>=◌ :
      {A B : Type 0} → Transaction S E A → (A → Transaction S E B) → Transaction S E B
  (call >>= next) store = then_with next (call store)

  abbrev pub ◌>>◌ :
      {B : Type 0} → Transaction S E (Unit {0}) → Transaction S E B → Transaction S E B
  (call >> next) store = then_with (λ _. next) (call store)

  abbrev pub returns : {A : Type 0} → A → Transaction S E A
  returns a store = ok (a, store)

  abbrev pub throws : {A : Type 0} → E → Transaction S E A
  throws e store = err e

  abbrev pub throw_when : Bool → E → Transaction S E (Unit {0})
  throw_when true e store = err e
  throw_when false e store = ok (tt, store)

  abbrev pub need : {A : Type 0} → Option A → E → Transaction S E A
  need none e store = err e
  need (some a) e store = ok (a, store)

  abbrev pub gets : {A : Type 0} → (S → A) → Transaction S E A
  gets read store = ok (read store, store)

  abbrev pub modify : (S → S) → Transaction S E (Unit {0})
  modify write store = ok (tt, write store)

  -- a check that reads nothing of the store
  abbrev pub lift : {A : Type 0} → Result E A → Transaction S E A
  lift (ok a) store = ok (a, store)
  lift (err e) store = err e

  -- the outcome, and the store after it
  abbrev pub outcome : {A : Type 0} → S → Result E (A × S) → Result E A × S
  outcome store (ok (a, after)) = (ok a, after)
  outcome store (err e) = (err e, store)

  abbrev pub commit : {A : Type 0} → Transaction S E A → S → Result E A × S
  commit call store = outcome store (call store)

  -- Where a transaction ends well, the property holds of what it returns and leaves.
  abbrev pub Ends : {A : Type 0} → (A → S → Type 0) → Result E (A × S) → Type 0
  Ends Q (ok (a, store)) = Q a store
  Ends Q (err e) = Unit

  -- The rules for the steps of a chain.
  pub Ends-call :
      {A B : Type 0} (P : A → S → Type 0) (Q : B → S → Type 0) (r : Result E (A × S))
      (next : A → Transaction S E B)
      → Ends P r
      → ((a : A) (store : S) → P a store → Ends Q (next a store))
      → Ends Q (then_with next r)
  Ends-call P Q (ok (a, store)) next h k = k a store h
  Ends-call P Q (err e) next h k = tt

  pub Ends-need :
      {A B : Type 0} (Q : B → S → Type 0) (o : Option A) (e : E) (store : S)
      (next : A → Transaction S E B)
      → ((a : A) → o ≡ some a → Ends Q (next a store))
      → Ends Q (then_with next (need o e store))
  Ends-need Q none e store next k = tt
  Ends-need Q (some a) e store next k = k a refl

  pub Ends-guard :
      {B : Type 0} (Q : B → S → Type 0) (b : Bool) (e : E) (store : S)
      (next : Unit {0} → Transaction S E B)
      → (b ≡ false → Ends Q (next tt store))
      → Ends Q (then_with next (throw_when b e store))
  Ends-guard Q true e store next k = tt
  Ends-guard Q false e store next k = k refl

  pub Ends-weaken :
      {A : Type 0} (P Q : A → S → Type 0) (r : Result E (A × S))
      → ((a : A) (store : S) → P a store → Q a store)
      → Ends P r
      → Ends Q r
  Ends-weaken P Q (ok (a, store)) k h = k a store h
  Ends-weaken P Q (err e) k h = tt

  -- What holds at the start, and of each good end, holds after the commit.
  pub Ends-outcome :
      {A : Type 0} (I : S → Type 0) (store : S) (r : Result E (A × S))
      → Ends (λ _ after. I after) r
      → I store
      → I ((outcome store r).1)
  Ends-outcome I store (ok (a, after)) h i = h
  Ends-outcome I store (err e) h i = i

  pub Ends-at :
      {A : Type 0} (Q : A → S → Type 0) (r : Result E (A × S)) {a : A} {after : S}
      → Ends Q r
      → r ≡ ok (a, after)
      → Q a after
  Ends-at Q (ok (b, later)) {a} {after} h e =
      let same : (b, later) ≡ (a, after) = ok-injective e in subst (λ z. Q z.0 z.1) same h
  Ends-at Q (err e) h k = cc

  -- A transaction that ends well, and the rules for the steps of a chain of which none throws.
  abbrev pub Returns : {A : Type 0} → Result E (A × S) → Type 0
  Returns {A} r = (a : A) × (store : S) × (r ≡ ok (a, store))

  pub Returns-guard :
      {B : Type 0} (b : Bool) (e : E) (store : S) (next : Unit {0} → Transaction S E B)
      → b ≡ false
      → Returns (next tt store)
      → Returns (then_with next (throw_when b e store))
  Returns-guard b e store next h k = rw h k

  pub Returns-need :
      {A B : Type 0} (o : Option A) (e : E) (store : S) (next : A → Transaction S E B) {a : A}
      → o ≡ some a
      → Returns (next a store)
      → Returns (then_with next (need o e store))
  Returns-need o e store next h k = rw h k

  pub Returns-call :
      {A B : Type 0} (r : Result E (A × S)) (next : A → Transaction S E B)
      → Returns r
      → ((a : A) (store : S) → Returns (next a store))
      → Returns (then_with next r)
  Returns-call r next (a, store, h) k = rw h (k a store)
