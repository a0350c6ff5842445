-- ===== src/Asset/Booking/Reachable.antt =====
-- The stores that the booking service reaches: apps/api/src/modules/asset/services/asset-booking.service.ts.
use openlms.Base.{Bool, List, String}
use openlms.Base.Action.{Keeps-at}
use openlms.Roles.{Role}
use openlms.Asset.Booking.{
  completed, AssetBooking, BookAssetInput, Asset, Store, no_bookings, book, approve_transaction,
  set_status, cancel, complete_update,
}
use openlms.Asset.Booking.Calendar.{
  NoDoubleBooking, complete-Gentle, map-IsCalendar, approve_transaction-Keeps, cancel-Keeps,
  book-NoDoubleBooking,
}

-- The stores that bookings, decisions, cancellations and completions reach from one without
-- bookings; a decision or completion may go by a booking as it was read at any earlier time.
pub data Reachable : Store → Type 0 where
  start : (assets : List Asset) → Reachable (no_bookings assets)
  after_book :
      (id : String) (input : BookAssetInput) (roles : List Role) {store : Store}
      → Reachable store
      → Reachable (book id input roles store).1
  after_approve :
      (booking : AssetBooking) (accept : Bool) (approver : String) {store : Store}
      → Reachable store
      → Reachable (approve_transaction booking accept approver store).1
  after_cancel :
      (id cancelled_by : String) (roles : List Role) {store : Store}
      → Reachable store
      → Reachable (cancel id cancelled_by roles store).1
  after_complete :
      (booking : AssetBooking) {store : Store}
      → Reachable store
      → Reachable (complete_update booking store).1

-- In every store that the steps of the service reach from one without bookings, in any order, each
-- returning or throwing, and with decisions and completions that go by any reading of a booking,
-- however old: no two pending or approved bookings of one asset overlap.
pub Reachable-NoDoubleBooking : (store : Store) → Reachable store → NoDoubleBooking store
Reachable-NoDoubleBooking _ (start assets) = tt
Reachable-NoDoubleBooking _ (after_book id input roles {store} r) =
    book-NoDoubleBooking id input roles store (Reachable-NoDoubleBooking store r)
Reachable-NoDoubleBooking _ (after_approve booking accept approver {store} r) =
    Keeps-at NoDoubleBooking (approve_transaction booking accept approver) store
      (approve_transaction-Keeps booking accept approver) (Reachable-NoDoubleBooking store r)
Reachable-NoDoubleBooking _ (after_cancel id cancelled_by roles {store} r) =
    Keeps-at NoDoubleBooking (cancel id cancelled_by roles) store
      (cancel-Keeps id cancelled_by roles) (Reachable-NoDoubleBooking store r)
Reachable-NoDoubleBooking _ (after_complete booking {store} r) =
    map-IsCalendar (set_status booking.id completed) (complete-Gentle booking.id) store.bookings
      (Reachable-NoDoubleBooking store r)
