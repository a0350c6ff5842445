-- ===== src/Asset/Booking.antt =====
-- Bookings of assets: apps/api/src/modules/asset/services/asset-booking.service.ts. A transaction
-- holds the lock on the asset, so it is one step on the store; what `approve` and `complete` read
-- before is an argument, which may be out of date. Times are in milliseconds.
pub mod Calendar
pub mod Reachable
pub mod Claims
use openlms.Base.{
  ℕ, Bool, true, false, not, ◌&&◌, ◌||◌, List, [], ◌∷◌, ◌++◌, map, Option, none, some, String,
  filter, find, any, ltb, leb, ◌=ₛ◌, ◌==◌, if◌then◌else◌,
}
use openlms.Base.Result.{ok, err}
use openlms.Base.Action.{Action, ◌>>=◌, ◌>>◌, returns, throw_when, need, gets, modify}
use openlms.Roles.{
  Role, has_any, resolve_actor_role, superadmin, kepsek, wakepsek, kaprodi, operator, guru, bk,
  keuangan, auditor,
}

pub data BookingStatus : Type 0 where
  pending approved rejected cancelled completed : BookingStatus

pub record AssetBooking : Type 0 where
  pub id : String
  pub asset_id : String
  pub booked_by : String
  pub start_at : ℕ
  pub end_at : ℕ
  pub purpose : String
  pub status : BookingStatus
  pub approved_by : Option String

pub record BookAssetInput : Type 0 where
  pub asset_id : String
  pub booked_by : String
  pub start_at : ℕ
  pub end_at : ℕ
  pub purpose : String

pub record Asset : Type 0 where
  pub id : String
  pub retired : Bool

-- An audit row: the booking was made, or cancelled in a status.
pub data BookingNote : Type 0 where
  booked : BookingNote
  cancelled_in : BookingStatus → BookingNote

pub record BookingAudit : Type 0 where
  pub actor_id : String
  pub actor_role : Option Role
  pub entity_id : String
  pub note : BookingNote

pub record Store : Type 0 where
  pub assets : List Asset
  pub bookings : List AssetBooking
  pub audit_logs : List BookingAudit

abbrev pub no_bookings : List Asset → Store
no_bookings assets = record { assets = assets; bookings = []; audit_logs = [] }

pub data Error : Type 0 where
  asset_not_found asset_retired bad_times booking_not_found not_owner : Error
  already_completed not_approved already_processed : Error
  already : BookingStatus → Error
  clash : List String → Error

abbrev pub status_index : BookingStatus → ℕ
status_index pending = 0
status_index approved = 1
status_index rejected = 2
status_index cancelled = 3
status_index completed = 4

abbrev pub has_status : BookingStatus → AssetBooking → Bool
has_status s b = status_index b.status == status_index s

abbrev pub is_active : AssetBooking → Bool
is_active b = has_status pending b || has_status approved b

unfoldable pub is_time_overlap : ℕ → ℕ → ℕ → ℕ → Bool
is_time_overlap start_a end_a start_b end_b = ltb start_a end_b && ltb start_b end_a

abbrev pub overlaps : ℕ → ℕ → AssetBooking → Bool
overlaps start_at end_at b = is_time_overlap start_at end_at b.start_at b.end_at

-- The rows of `findConflictsIn`, after its guard.
unfoldable pub find_conflicts_in : String → ℕ → ℕ → List AssetBooking → List AssetBooking
find_conflicts_in asset_id start_at end_at =
    filter (λ b. (b.asset_id =ₛ asset_id && is_active b) && overlaps start_at end_at b)

abbrev pub no_clash : List AssetBooking → Action Store Error (Unit {0})
no_clash [] store = (ok tt, store)
no_clash (b ∷ bs) store = (err (clash (map (λ c. c.id) (b ∷ bs))), store)

abbrev pub add_booking : AssetBooking → List Role → Store → Store
add_booking booking actor_roles store = record store {
  bookings = store.bookings ++ booking ∷ [];
  audit_logs =
      store.audit_logs
      ++ record {
        actor_id = booking.booked_by;
        actor_role = resolve_actor_role actor_roles none;
        entity_id = booking.id;
        note = booked;
      }
        ∷ [];
}

abbrev pub new_booking : String → BookAssetInput → AssetBooking
new_booking id input = record {
  id = id;
  asset_id = input.asset_id;
  booked_by = input.booked_by;
  start_at = input.start_at;
  end_at = input.end_at;
  purpose = input.purpose;
  status = pending;
  approved_by = none;
}

-- `book`, with the id that the database gives the row
unfoldable pub book : String → BookAssetInput → List Role → Action Store Error AssetBooking
book id input actor_roles = do
  found ← gets (λ s. find (λ a. a.id =ₛ input.asset_id) s.assets)
  asset ← need found asset_not_found
  throw_when asset.retired asset_retired
  throw_when (leb input.end_at input.start_at) bad_times
  conflicts ← gets (λ s. find_conflicts_in input.asset_id input.start_at input.end_at s.bookings)
  no_clash conflicts
  modify (add_booking (new_booking id input) actor_roles)
  returns (new_booking id input)

abbrev pub find_booking : String → Store → Option AssetBooking
find_booking id store = find (λ b. b.id =ₛ id) store.bookings

-- `updateMany({ where: { id, status: "PENDING" }, data })`
abbrev pub claimable : String → AssetBooking → Bool
claimable id b = b.id =ₛ id && has_status pending b

abbrev pub decide : BookingStatus → String → AssetBooking → AssetBooking
decide status approver b = record b { status = status; approved_by = some approver }

abbrev pub claim_row : String → BookingStatus → String → AssetBooking → AssetBooking
claim_row id status approver b = if claimable id b then decide status approver b else b

abbrev pub claim_all : String → BookingStatus → String → Store → Store
claim_all id status approver store = record store {
  bookings = map (claim_row id status approver) store.bookings;
}

unfoldable pub claim : String → BookingStatus → String → Action Store Error AssetBooking
claim id status approver = do
  open_rows ← gets (λ s. any (claimable id) s.bookings)
  throw_when (not open_rows) already_processed
  modify (claim_all id status approver)
  found ← gets (find_booking id)
  need found booking_not_found

-- Approved bookings of the same asset, other than this one, at overlapping times.
abbrev pub approved_conflicts : AssetBooking → Store → List AssetBooking
approved_conflicts booking store =
    filter
      (λ b.
        ((b.asset_id =ₛ booking.asset_id && not (b.id =ₛ booking.id)) && has_status approved b)
        && overlaps booking.start_at booking.end_at b)
      store.bookings

-- The transaction of `approve`, for the booking as it was read before.
unfoldable pub approve_transaction : AssetBooking → Bool → String → Action Store Error AssetBooking
approve_transaction booking false approver = claim booking.id rejected approver
approve_transaction booking true approver = do
  locked ← gets (λ s. find (λ a. a.id =ₛ booking.asset_id) s.assets)
  asset ← need locked asset_not_found
  conflicts ← gets (approved_conflicts booking)
  no_clash conflicts
  claim booking.id approved approver

unfoldable pub approve : String → Bool → String → Action Store Error AssetBooking
approve id accept approver = do
  found ← gets (find_booking id)
  booking ← need found booking_not_found
  throw_when (not (has_status pending booking)) (already booking.status)
  approve_transaction booking accept approver

abbrev pub school_staff_roles : List Role
school_staff_roles =
    superadmin ∷ kepsek ∷ wakepsek ∷ kaprodi ∷ operator ∷ guru ∷ bk ∷ keuangan ∷ auditor ∷ []

abbrev pub may_not_cancel : AssetBooking → String → List Role → Bool
may_not_cancel booking cancelled_by actor_roles =
    not (booking.booked_by =ₛ cancelled_by) && not (has_any school_staff_roles actor_roles)

-- `update({ where: { id }, data: { status } })`
abbrev pub set_status : String → BookingStatus → AssetBooking → AssetBooking
set_status id status b = if b.id =ₛ id then record b { status = status } else b

abbrev pub update_status : String → BookingStatus → Store → Store
update_status id status store = record store {
  bookings = map (set_status id status) store.bookings;
}

abbrev pub log_cancel : String → List Role → AssetBooking → Store → Store
log_cancel actor roles booking store = record store {
  audit_logs =
      store.audit_logs
      ++ record {
        actor_id = actor;
        actor_role = resolve_actor_role roles none;
        entity_id = booking.id;
        note = cancelled_in booking.status;
      }
        ∷ [];
}

unfoldable pub cancel : String → String → List Role → Action Store Error AssetBooking
cancel id cancelled_by actor_roles = do
  found ← gets (find_booking id)
  booking ← need found booking_not_found
  throw_when (may_not_cancel booking cancelled_by actor_roles) not_owner
  throw_when (has_status completed booking) already_completed
  modify (update_status id cancelled)
  modify (log_cancel cancelled_by actor_roles booking)
  returns (record booking { status = cancelled })

-- The update of `complete`, which the check of the status comes before.
abbrev pub complete_update : AssetBooking → Action Store Error AssetBooking
complete_update booking store =
    (ok (record booking { status = completed }), update_status booking.id completed store)

unfoldable pub complete : String → Action Store Error AssetBooking
complete id = do
  found ← gets (find_booking id)
  booking ← need found booking_not_found
  throw_when (not (has_status approved booking)) not_approved
  complete_update booking
