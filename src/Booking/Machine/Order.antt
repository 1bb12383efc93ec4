-- ===== src/Booking/Machine/Order.antt =====
-- Facts on single transitions, by going through the table.
use poctamat_back.Common.{ℕ, ◌<◌, ◌≡◌, Bool, true, false, arith}
use poctamat_back.Booking.{
  BookingStatus, pending_payment, awaiting_deposit, awaiting_pickup, grace, overdue, to_remove,
  removed, is_held,
}
use poctamat_back.Booking.Machine.{same_status, can_transition}

-- The statuses in which the parcel lies in the cell.
abbrev pub is_inside : BookingStatus → Bool
is_inside awaiting_pickup = true
is_inside BookingStatus.expired = true
is_inside grace = true
is_inside overdue = true
is_inside to_remove = true
is_inside _ = false

-- How far a booking has come; every transition goes further.
abbrev pub stage : BookingStatus → ℕ
stage pending_payment = 0
stage awaiting_deposit = 1
stage awaiting_pickup = 2
stage BookingStatus.expired = 3
stage grace = 4
stage overdue = 5
stage to_remove = 6
stage removed = 7
stage _ = 8

pub same_status-eq : (s t : BookingStatus) → same_status s t ≡ true → s ≡ t
same_status-eq s t e = ground arith

pub can_transition-stage : (s t : BookingStatus) → can_transition s t ≡ true → stage s < stage t
can_transition-stage s t e = ground arith

-- No transition takes a cell back.
pub can_transition-is_held :
    (s t : BookingStatus) → can_transition s t ≡ true → is_held t ≡ true → is_held s ≡ true
can_transition-is_held s t e h = ground arith
