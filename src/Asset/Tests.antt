-- ===== src/Asset/Tests.antt =====
-- Runs of the booking service and of the depreciation at concrete inputs.
use openlms.Base.{◌≡◌, refl, ℕ, true, false, [], ◌∷◌, none}
use openlms.Base.Int.{pos, ◌-ℤ◌}
use openlms.Base.Result.{err}
use openlms.Asset.Booking.{
  BookAssetInput, Asset, Store, Error, no_bookings, new_booking, book, find_conflicts_in,
  is_time_overlap, approve_transaction, claim,
}
use openlms.Asset.Booking.Calendar.{NoDoubleBooking}
use openlms.Asset.Booking.Reachable.{start, after_book, after_approve, Reachable-NoDoubleBooking}
use openlms.Asset.Booking.Claims.{decided_once}
use openlms.Asset.Depreciation.{DepreciationInput, monthly_of, calculate_depreciation}

abbrev lab : Asset
lab = record { id = "lab"; retired = false }

abbrev input : ℕ → ℕ → BookAssetInput
input from to = record {
  asset_id = "lab";
  booked_by = "u1";
  start_at = from;
  end_at = to;
  purpose = "praktikum";
}

abbrev one_booked : Store
one_booked = (book "b1" (input 10 20) [] (no_bookings (lab ∷ []))).1

-- The second booking clashes with the first and is not stored.
second_refused : (book "b2" (input 15 25) [] one_booked).1 ≡ one_booked
unfolding book find_conflicts_in is_time_overlap
second_refused = refl

Reachable-NoDoubleBooking_example :
    NoDoubleBooking
      (approve_transaction
        (new_booking "b1" (input 10 20))
        true
        "head"
        (book "b2" (input 15 25) [] one_booked).1).1
Reachable-NoDoubleBooking_example =
    Reachable-NoDoubleBooking
      (approve_transaction (new_booking "b1" (input 10 20)) true "head"
        (book "b2" (input 15 25) [] one_booked).1).1
      (after_approve (new_booking "b1" (input 10 20)) true "head"
        (after_book "b2" (input 15 25) [] (after_book "b1" (input 10 20) [] (start (lab ∷ [])))))

decided_once_example :
    let after = (approve_transaction (new_booking "b1" (input 10 20)) true "head" one_booked).1 in
    (e : Error) × (approve_transaction (new_booking "b1" (input 10 20)) false "other" after
      ≡ (err e, after))
unfolding book find_conflicts_in is_time_overlap approve_transaction claim
decided_once_example =
    decided_once (new_booking "b1" (input 10 20)) true false "head" "other" one_booked refl

abbrev computer : ℕ → DepreciationInput
computer months = record {
  cost = pos 10000;
  useful_life_months = 3;
  months_elapsed = months;
  residual_value = none;
}

-- 100,00 over three months: a hundredth is left at the end of the life.
book_value-run : (calculate_depreciation (computer 3)).book_value ≡ pos 1
unfolding calculate_depreciation monthly_of ◌-ℤ◌
book_value-run = refl
