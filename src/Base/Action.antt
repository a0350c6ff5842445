-- ===== src/Base/Action.antt =====
-- A method on a store: it returns or throws, and what it wrote before a throw stays written.
use mathlib.Core.Path.{◌≡◌, ap}
use mathlib.Core.Bool.{Bool, true, false}
use mathlib.Core.Option.{Option, none, some}
use openlms.Base.Result.{Result, ok, err}

abbrev pub Action : Type 0 → Type 0 → Type 0 → Type 0
Action S E A = S → Result E A × S

module _ {S E : Type 0} where
  abbrev pub continue_with : {A B : Type 0} → (A → Action S E B) → Result E A × S → Result E B × S
  continue_with next (ok a, store) = next a store
  continue_with next (err e, store) = (err e, store)

  infixl 5 ◌>>◌ ◌>>=◌
  abbrev pub ◌>>=◌ : {A B : Type 0} → Action S E A → (A → Action S E B) → Action S E B
  (call >>= next) store = continue_with next (call store)

  abbrev pub ◌>>◌ : {B : Type 0} → Action S E (Unit {0}) → Action S E B → Action S E B
  (call >> next) store = continue_with (λ _. next) (call store)

  abbrev pub returns : {A : Type 0} → A → Action S E A
  returns a store = (ok a, store)

  abbrev pub throws : {A : Type 0} → E → Action S E A
  throws e store = (err e, store)

  -- `if (test) throw e`
  abbrev pub throw_when : Bool → E → Action S E (Unit {0})
  throw_when true e store = (err e, store)
  throw_when false e store = (ok tt, store)

  -- `if (!o) throw e`
  abbrev pub need : {A : Type 0} → Option A → E → Action S E A
  need none e store = (err e, store)
  need (some a) e store = (ok a, store)

  -- a read, and a write
  abbrev pub gets : {A : Type 0} → (S → A) → Action S E A
  gets read store = (ok (read store), store)

  abbrev pub modify : (S → S) → Action S E (Unit {0})
  modify write store = (ok tt, write store)

module _ {S E : Type 0} where
  -- What a chain does after a call whose outcome is known.
  pub >>=-eq :
      {A B : Type 0} (call : Action S E A) (next : A → Action S E B) (store : S)
      {r : Result E A × S}
      → call store ≡ r
      → (call >>= next) store ≡ continue_with next r
  >>=-eq call next store e = ap (continue_with next) e

  -- A call keeps a property of the store, whether it returns or throws.
  unfoldable pub Keeps : (S → Type 0) → {A : Type 0} → Action S E A → Type 0
  Keeps I call = (store : S) → I store → I ((call store).1)

  abbrev next_keeps :
      (I : S → Type 0) {A B : Type 0} (next : A → Action S E B)
      → ((a : A) (store : S) → I store → I ((next a store).1))
      → (r : Result E A × S) → I r.1
      → I ((continue_with next r).1)
  next_keeps I next k (ok a, store) h = k a store h
  next_keeps I next k (err e, store) h = h

  pub Keeps->>= :
      (I : S → Type 0) {A B : Type 0} (call : Action S E A) (next : A → Action S E B)
      → Keeps I call
      → ((a : A) → Keeps I (next a))
      → Keeps I (call >>= next)
  unfolding Keeps
  Keeps->>= I call next k l store h = next_keeps I next l (call store) (k store h)

  pub Keeps->> :
      (I : S → Type 0) {B : Type 0} (call : Action S E (Unit {0})) (next : Action S E B)
      → Keeps I call
      → Keeps I next
      → Keeps I (call >> next)
  unfolding Keeps
  Keeps->> I call next k l store h = next_keeps I (λ _. next) (λ _. l) (call store) (k store h)

  pub Keeps-throw_when : (I : S → Type 0) (b : Bool) (e : E) → Keeps I (throw_when b e)
  unfolding Keeps
  Keeps-throw_when I true e store h = h
  Keeps-throw_when I false e store h = h

  pub Keeps-need : (I : S → Type 0) {A : Type 0} (o : Option A) (e : E) → Keeps I (need o e)
  unfolding Keeps
  Keeps-need I none e store h = h
  Keeps-need I (some a) e store h = h

  pub Keeps-at :
      (I : S → Type 0) {A : Type 0} (call : Action S E A) (store : S)
      → Keeps I call
      → I store
      → I ((call store).1)
  unfolding Keeps
  Keeps-at I call store k h = k store h

module _ {S : Type 0} (E : Type 0) where
  pub Keeps-gets : (I : S → Type 0) {A : Type 0} (read : S → A) → Keeps I (gets {E = E} read)
  unfolding Keeps
  Keeps-gets I read store h = h

  pub Keeps-returns : (I : S → Type 0) {A : Type 0} (a : A) → Keeps I (returns {E = E} a)
  unfolding Keeps
  Keeps-returns I a store h = h

  pub Keeps-modify :
      (I : S → Type 0) (write : S → S)
      → ((store : S) → I store → I (write store))
      → Keeps I (modify {E = E} write)
  unfolding Keeps
  Keeps-modify I write k store h = k store h
