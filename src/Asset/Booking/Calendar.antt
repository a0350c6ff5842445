-- ===== src/Asset/Booking/Calendar.antt =====
-- No double booking: apps/api/src/modules/asset/services/asset-booking.service.ts.
use openlms.Base.{
  ◌≡◌, refl, ℕ, ◌≤◌, ◌<◌, ◌↔◌, Bool, true, false, not, ◌&&◌, List, [], ◌∷◌, ◌++◌, map, String,
  arith, find, any, All, All-weaken, filter-eq-nil, Option-cases, All-append, Bool-cases, inl, inr,
  ◌=ₛ◌, leb,
}
use openlms.Base.Action.{
  Keeps, Keeps->>=, Keeps->>, Keeps-throw_when, Keeps-need, Keeps-gets, Keeps-modify, Keeps-returns,
  gets, need, throw_when, modify, returns, ◌>>◌,
}
use openlms.Roles.{Role}
use openlms.Asset.Booking.{
  BookingStatus, approved, rejected, cancelled, completed, AssetBooking, BookAssetInput, Store,
  approved_conflicts, may_not_cancel, Error, booking_not_found, not_owner, already_completed,
  already_processed, asset_not_found, has_status, is_active, is_time_overlap, overlaps,
  find_conflicts_in, no_clash, new_booking, add_booking, book, find_booking, claimable, claim_row,
  claim_all, claim, approve_transaction, set_status, update_status, log_cancel, cancel,
}

-- Two times of non-zero length overlap exactly where they share an instant.
pub is_time_overlap_iff :
    (start_a end_a start_b end_b : ℕ)
    → start_a < end_a
    → start_b < end_b
    → (is_time_overlap start_a end_a start_b end_b ≡ true)
      ↔ ((t : ℕ) × (start_a ≤ t) × (t < end_a) × (start_b ≤ t) × (t < end_b))
unfolding is_time_overlap
is_time_overlap_iff start_a end_a start_b end_b h k = (
  (λ e. elim (Bool-cases (leb start_a start_b)) [
    | inl le ↦ (start_b, ground arith, ground arith, ground arith, ground arith)
    | inr gt ↦ (start_a, ground arith, ground arith, ground arith, ground arith)
  ]),
  (λ m. ground (arith, m)),
)

-- Both are pending or approved, for one asset, at overlapping times.
abbrev pub clashing : AssetBooking → AssetBooking → Bool
clashing b c =
    ((b.asset_id =ₛ c.asset_id && is_active b) && is_active c) && overlaps c.start_at c.end_at b

abbrev pub IsCalendar : List AssetBooking → Type 0
IsCalendar [] = Unit
IsCalendar (b ∷ bs) = All (λ c. clashing b c ≡ false) bs × IsCalendar bs

abbrev pub NoDoubleBooking : Store → Type 0
NoDoubleBooking store = IsCalendar store.bookings

-- A change of rows that makes no clash keeps the calendar.
abbrev Gentle : (AssetBooking → AssetBooking) → Type 0
Gentle f = (b c : AssetBooking) → clashing b c ≡ false → clashing (f b) (f c) ≡ false

map-All :
    (f : AssetBooking → AssetBooking)
    → Gentle f
    → (b : AssetBooking) (bs : List AssetBooking) → All (λ c. clashing b c ≡ false) bs
    → All (λ c. clashing (f b) c ≡ false) (map f bs)
map-All f g b [] h = tt
map-All f g b (c ∷ cs) h = (g b c h.0, map-All f g b cs h.1)

pub map-IsCalendar :
    (f : AssetBooking → AssetBooking)
    → Gentle f
    → (bs : List AssetBooking) → IsCalendar bs
    → IsCalendar (map f bs)
map-IsCalendar f g [] h = tt
map-IsCalendar f g (b ∷ bs) h = (map-All f g b bs h.0, map-IsCalendar f g bs h.1)

claim_row-Gentle :
    (id : String) (status : BookingStatus) (approver : String)
    → Gentle (claim_row id status approver)
claim_row-Gentle id status approver b c h = ground (arith, h)

cancel-Gentle : (id : String) → Gentle (set_status id cancelled)
cancel-Gentle id b c h = ground (arith, h)

pub complete-Gentle : (id : String) → Gentle (set_status id completed)
complete-Gentle id b c h = ground (arith, h)

snoc-IsCalendar :
    (bs : List AssetBooking) (n : AssetBooking)
    → IsCalendar bs
    → All (λ b. clashing b n ≡ false) bs
    → IsCalendar (bs ++ n ∷ [])
snoc-IsCalendar [] n h k = (tt, tt)
snoc-IsCalendar (b ∷ bs) n h k =
    (All-append (λ c. clashing b c ≡ false) bs (n ∷ []) h.0 (k.0, tt), snoc-IsCalendar bs n h.1 k.1)

claim-Keeps :
    (id : String) (status : BookingStatus) (approver : String)
    → Keeps NoDoubleBooking (claim id status approver)
unfolding claim
claim-Keeps id status approver =
    Keeps->>= NoDoubleBooking (gets (λ s. any (claimable id) s.bookings)) _
      (Keeps-gets Error NoDoubleBooking _)
      (λ open_rows.
        Keeps->> NoDoubleBooking (throw_when (not open_rows) already_processed) _
          (Keeps-throw_when NoDoubleBooking _ _)
          (Keeps->> NoDoubleBooking (modify (claim_all id status approver)) _
            (Keeps-modify Error NoDoubleBooking (claim_all id status approver) (λ s h.
              map-IsCalendar (claim_row id status approver) (claim_row-Gentle id status approver)
                s.bookings h))
            (Keeps->>= NoDoubleBooking (gets (find_booking id)) _
              (Keeps-gets Error NoDoubleBooking _)
              (λ found. Keeps-need NoDoubleBooking found booking_not_found))))

no_clash-Keeps : (bs : List AssetBooking) → Keeps NoDoubleBooking (no_clash bs)
unfolding Keeps
no_clash-Keeps [] store h = h
no_clash-Keeps (b ∷ bs) store h = h

pub approve_transaction-Keeps :
    (booking : AssetBooking) (accept : Bool) (approver : String)
    → Keeps NoDoubleBooking (approve_transaction booking accept approver)
unfolding approve_transaction
approve_transaction-Keeps booking false approver = claim-Keeps booking.id rejected approver
approve_transaction-Keeps booking true approver =
    Keeps->>= NoDoubleBooking (gets (λ s. find (λ a. a.id =ₛ booking.asset_id) s.assets)) _
      (Keeps-gets Error NoDoubleBooking _)
      (λ locked.
        Keeps->>= NoDoubleBooking (need locked asset_not_found) _
          (Keeps-need NoDoubleBooking locked asset_not_found)
          (λ asset.
            Keeps->>= NoDoubleBooking (gets (approved_conflicts booking)) _
              (Keeps-gets Error NoDoubleBooking (approved_conflicts booking))
              (λ conflicts.
                Keeps->> NoDoubleBooking (no_clash conflicts) _ (no_clash-Keeps conflicts)
                  (claim-Keeps booking.id approved approver))))

pub cancel-Keeps :
    (id cancelled_by : String) (roles : List Role)
    → Keeps NoDoubleBooking (cancel id cancelled_by roles)
unfolding cancel
cancel-Keeps id cancelled_by roles =
    Keeps->>= NoDoubleBooking (gets (find_booking id)) _ (Keeps-gets Error NoDoubleBooking _)
      (λ found.
        Keeps->>= NoDoubleBooking (need found booking_not_found) _
          (Keeps-need NoDoubleBooking found booking_not_found)
          (λ booking.
            Keeps->> NoDoubleBooking
              (throw_when (may_not_cancel booking cancelled_by roles) not_owner) _
              (Keeps-throw_when NoDoubleBooking (may_not_cancel booking cancelled_by roles)
                not_owner)
              (Keeps->> NoDoubleBooking
                (throw_when (has_status completed booking) already_completed) _
                (Keeps-throw_when NoDoubleBooking (has_status completed booking) already_completed)
                (Keeps->> NoDoubleBooking (modify (update_status id cancelled)) _
                  (Keeps-modify Error NoDoubleBooking (update_status id cancelled) (λ s h.
                    map-IsCalendar (set_status id cancelled) (cancel-Gentle id) s.bookings h))
                  (Keeps->> NoDoubleBooking (modify (log_cancel cancelled_by roles booking)) _
                    (Keeps-modify Error NoDoubleBooking (log_cancel cancelled_by roles booking)
                      (λ s h. h))
                    (Keeps-returns Error NoDoubleBooking
                      (record booking { status = cancelled })))))))

no_conflicts :
    (id : String) (input : BookAssetInput) (bs : List AssetBooking)
    → find_conflicts_in input.asset_id input.start_at input.end_at bs ≡ []
    → All (λ b. clashing b (new_booking id input) ≡ false) bs
unfolding find_conflicts_in
no_conflicts id input bs h =
    All-weaken _ _ bs (λ b e. ground (arith, e))
      (filter-eq-nil
        (λ b.
          (b.asset_id =ₛ input.asset_id && is_active b) && overlaps input.start_at input.end_at b)
        bs h)

pub book-NoDoubleBooking :
    (id : String) (input : BookAssetInput) (roles : List Role) (store : Store)
    → NoDoubleBooking store
    → NoDoubleBooking (book id input roles store).1
unfolding book
book-NoDoubleBooking id input roles store h =
    elim (Option-cases (find (λ a. a.id =ₛ input.asset_id) store.assets)) [
      | inl e ↦ rw e h
      | inr (asset, e) ↦ elim (Bool-cases asset.retired) [
        | inl t ↦ rw (e, t) h
        | inr t ↦ elim (Bool-cases (leb input.end_at input.start_at)) [
          | inl u ↦ rw (e, t, u) h
          | inr u ↦
              rw (e, t, u)
                (checked
                  (find_conflicts_in input.asset_id input.start_at input.end_at store.bookings)
                  refl)
        ]
      ]
    ]
  where
    checked :
        (conflicts : List AssetBooking)
        → find_conflicts_in input.asset_id input.start_at input.end_at store.bookings ≡ conflicts
        → NoDoubleBooking
            ((no_clash conflicts
                >> (modify (add_booking (new_booking id input) roles)
                    >> returns (new_booking id input)))
              store).1
    checked [] free =
        snoc-IsCalendar store.bookings (new_booking id input) h
          (no_conflicts id input store.bookings free)
    checked (b ∷ bs) busy = h
