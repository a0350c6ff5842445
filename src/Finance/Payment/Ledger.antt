-- ===== src/Finance/Payment/Ledger.antt =====
-- What holds of the payments in every run of the calls of
-- apps/api/src/modules/finance/services/payment.service.ts.
use openlms.Base.{
  ◌≡◌, refl, ◌∙◌, Bool, false, String, List, [], ◌∷◌, ◌++◌, map, Option, none, some, =ₛ_comm, All,
  All-append, All-weaken, find-eq-none,
}
use openlms.Base.Int.{ℤ}
use openlms.Finance.Payment.{Payment, Store}
use openlms.Finance.Payment.Recording.{has_key, find_by_key}
use openlms.Finance.Payment.Runs.{Reaches, IsSound, KeepsTerms, IsKept, Reaches-keeps}

-- two payments with one idempotency key
abbrev pub same_key : Option String → Option String → Bool
same_key none other = false
same_key (some key) other = has_key key other

abbrev pub HasUniqueKeys : List Payment → Type 0
HasUniqueKeys [] = Unit
HasUniqueKeys (p ∷ payments) =
    All (λ q. same_key p.idempotency_key q.idempotency_key ≡ false) payments
    × HasUniqueKeys payments

abbrev pub IsLedger : List Payment → Type 0
IsLedger payments = HasUniqueKeys payments × All IsSound payments

change-IsSound : (f : Payment → Payment) (p : Payment) → KeepsTerms f → IsSound p → IsSound (f p)
change-IsSound f p k h = record {
  amount_positive = rw (k.amount_kept p) h.amount_positive;
  within_amount = rw (k.amount_kept p, k.allocations_kept p) h.within_amount;
  lines_nonneg = rw (k.allocations_kept p) h.lines_nonneg;
}

map-IsSound :
    (f : Payment → Payment) (payments : List Payment)
    → KeepsTerms f
    → All IsSound payments
    → All IsSound (map f payments)
map-IsSound f [] k h = tt
map-IsSound f (p ∷ payments) k h = (change-IsSound f p k h.0, map-IsSound f payments k h.1)

All-map_key :
    (f : Payment → Payment) (p : Payment) (payments : List Payment)
    → KeepsTerms f
    → All (λ q. same_key p.idempotency_key q.idempotency_key ≡ false) payments
    → All (λ q. same_key (f p).idempotency_key q.idempotency_key ≡ false) (map f payments)
All-map_key f p [] k h = tt
All-map_key f p (q ∷ payments) k h =
    (rw (k.key_kept p, k.key_kept q) h.0, All-map_key f p payments k h.1)

map-HasUniqueKeys :
    (f : Payment → Payment) (payments : List Payment)
    → KeepsTerms f
    → HasUniqueKeys payments
    → HasUniqueKeys (map f payments)
map-HasUniqueKeys f [] k h = tt
map-HasUniqueKeys f (p ∷ payments) k h =
    (All-map_key f p payments k h.0, map-HasUniqueKeys f payments k h.1)

-- A key that no row has is no row's key.
unlike : (key other : Option String) → same_key key other ≡ false → same_key other key ≡ false
unlike none none h = refl
unlike none (some k) h = refl
unlike (some k) none h = refl
unlike (some k) (some j) h = =ₛ_comm k j ∙ h

free_of_key :
    (key : Option String) (payments : List Payment)
    → find_by_key key payments ≡ none
    → All (λ q. same_key q.idempotency_key key ≡ false) payments
free_of_key none payments h = all_free payments
  where
    all_free : (ps : List Payment) → All (λ q. same_key q.idempotency_key none ≡ false) ps
    all_free [] = tt
    all_free (p ∷ ps) = (unlike none p.idempotency_key refl, all_free ps)
free_of_key (some k) payments h =
    All-weaken (λ q. has_key k q.idempotency_key ≡ false)
      (λ q. same_key q.idempotency_key (some k) ≡ false) payments
      (λ q e. unlike (some k) q.idempotency_key e)
      (find-eq-none (λ q. has_key k q.idempotency_key) payments h)

append-HasUniqueKeys :
    (p : Payment) (payments : List Payment)
    → All (λ q. same_key q.idempotency_key p.idempotency_key ≡ false) payments
    → HasUniqueKeys payments
    → HasUniqueKeys (payments ++ p ∷ [])
append-HasUniqueKeys p [] h u = (tt, tt)
append-HasUniqueKeys p (q ∷ payments) h u = (
  All-append (λ r. same_key q.idempotency_key r.idempotency_key ≡ false) payments (p ∷ []) u.0
      (h.0, tt),
  append-HasUniqueKeys p payments h.1 u.1,
)

IsLedger-IsKept : IsKept IsLedger
IsLedger-IsKept = record {
  by_change = λ f payments k h. (map-HasUniqueKeys f payments k h.0, map-IsSound f payments k h.1);
  by_add = λ p payments sound free h. (
    append-HasUniqueKeys p payments (free_of_key p.idempotency_key payments free) h.0,
    All-append IsSound payments (p ∷ []) h.1 (sound, tt),
  );
}

-- Whatever calls follow, in any order and whatever each of them read before it wrote, no two payments
-- have one idempotency key, every amount is positive, and the allocations of a payment are not
-- negative and come to no more than its amount, if it begins so.
pub Reaches-IsLedger :
    (show_decimal : ℤ → String) {s t : Store}
    → IsLedger s.payments
    → Reaches show_decimal s t
    → IsLedger t.payments
Reaches-IsLedger show_decimal h r = Reaches-keeps IsLedger IsLedger-IsKept show_decimal h r
