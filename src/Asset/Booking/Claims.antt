-- ===== src/Asset/Booking/Claims.antt =====
-- A booking is decided once: the transaction of `approve` in
-- apps/api/src/modules/asset/services/asset-booking.service.ts.
use openlms.Base.{
  ◌≡◌, ◌≢◌, refl, Bool, true, false, List, [], ◌∷◌, map, Option, none, some, String, arith, find,
  any, Bool-cases, Option-cases, inl, inr, ◌=ₛ◌,
}
use openlms.Base.Result.{Result, ok, err}
use openlms.Base.Action.{◌>>◌}
use openlms.Asset.Booking.{
  BookingStatus, approved, rejected, AssetBooking, Asset, Store, Error, already_processed,
  asset_not_found, status_index, claimable, claim_row, claim_all, claim, no_clash, find_booking,
  approved_conflicts, approve_transaction,
}

-- After a claim that decides, no row of the id is pending.
none_left :
    (id : String) (status : BookingStatus) (approver : String) (bs : List AssetBooking)
    → status_index status ≢ 0
    → any (claimable id) (map (claim_row id status approver) bs) ≡ false
none_left id status approver [] h = refl
none_left id status approver (b ∷ bs) h = ground (arith, h, none_left id status approver bs h)

claim-settles :
    (id : String) (status : BookingStatus) (approver : String) (store : Store)
    → status_index status ≢ 0
    → any (claimable id) (claim id status approver store).1.bookings ≡ false
unfolding claim
claim-settles id status approver store h = elim (Bool-cases (any (claimable id) store.bookings)) [
  | inl e ↦ elim (Option-cases (find_booking id (claim_all id status approver store))) [
    | inl f ↦ rw (e, f) (none_left id status approver store.bookings h)
    | inr (b, f) ↦ rw (e, f) (none_left id status approver store.bookings h)
  ]
  | inr e ↦ rw e e
]

-- What follows the check of conflicts, whatever they are.
checked_claim :
    AssetBooking → String → List AssetBooking → Store → Result Error AssetBooking × Store
checked_claim booking approver conflicts store =
    (no_clash conflicts >> claim booking.id approved approver) store

checked_claim-settles :
    (booking : AssetBooking) (approver : String) (conflicts : List AssetBooking) (store : Store)
    {x : AssetBooking}
    → (checked_claim booking approver conflicts store).0 ≡ ok x
    → any (claimable booking.id) (checked_claim booking approver conflicts store).1.bookings ≡ false
unfolding checked_claim
checked_claim-settles booking approver [] store h =
    claim-settles booking.id approved approver store (λ e. omega (arith, e))
checked_claim-settles booking approver (b ∷ bs) store h = cc

transaction-settles :
    (booking : AssetBooking) (accept : Bool) (approver : String) (store : Store) {x : AssetBooking}
    → (approve_transaction booking accept approver store).0 ≡ ok x
    → any (claimable booking.id) (approve_transaction booking accept approver store).1.bookings
      ≡ false
unfolding approve_transaction checked_claim
transaction-settles booking false approver store h =
    claim-settles booking.id rejected approver store (λ e. omega (arith, e))
transaction-settles booking true approver store {x} h =
    go (find (λ a. a.id =ₛ booking.asset_id) store.assets) refl
  where
    go :
        (o : Option Asset)
        → find (λ a. a.id =ₛ booking.asset_id) store.assets ≡ o
        → any (claimable booking.id) (approve_transaction booking true approver store).1.bookings
          ≡ false
    go none e = let clash' : err asset_not_found ≡ ok x = rw e at h in cc
    go (some a) e = rw e (
        checked_claim-settles booking approver (approved_conflicts booking store) store (rw e at h))

claim_throws :
    (id : String) (status : BookingStatus) (approver : String) (store : Store)
    → any (claimable id) store.bookings ≡ false
    → claim id status approver store ≡ (err already_processed, store)
unfolding claim
claim_throws id status approver store h = rw h refl

checked_claim_throws :
    (booking : AssetBooking) (approver : String) (conflicts : List AssetBooking) (store : Store)
    → any (claimable booking.id) store.bookings ≡ false
    → (e : Error) × (checked_claim booking approver conflicts store ≡ (err e, store))
unfolding checked_claim
checked_claim_throws booking approver [] store h =
    (already_processed, claim_throws booking.id approved approver store h)
checked_claim_throws booking approver (b ∷ bs) store h = (_, refl)

transaction_throws :
    (booking : AssetBooking) (accept : Bool) (approver : String) (store : Store)
    → any (claimable booking.id) store.bookings ≡ false
    → (e : Error) × (approve_transaction booking accept approver store ≡ (err e, store))
unfolding approve_transaction checked_claim
transaction_throws booking false approver store h =
    (already_processed, claim_throws booking.id rejected approver store h)
transaction_throws booking true approver store h =
    elim (Option-cases (find (λ a. a.id =ₛ booking.asset_id) store.assets)) [
      | inl e ↦ (asset_not_found, rw e refl)
      | inr (a, e) ↦
          rw e (checked_claim_throws booking approver (approved_conflicts booking store) store h)
    ]

-- Once a decision on a booking has returned, every further decision on it throws and writes
-- nothing, whether it approves or rejects and whoever makes it.
pub decided_once :
    (booking : AssetBooking) (first second : Bool) (approver other : String) (store : Store)
    {x : AssetBooking}
    → (approve_transaction booking first approver store).0 ≡ ok x
    → let after = (approve_transaction booking first approver store).1 in
      (e : Error) × (approve_transaction booking second other after ≡ (err e, after))
decided_once booking first second approver other store h =
    transaction_throws booking second other (approve_transaction booking first approver store).1
      (transaction-settles booking first approver store h)
