-- ===== src/Booking/Machine.antt =====
-- The status machine of a booking: `ALLOWED_TRANSITIONS`, `can_transition` and `assert_transition` of
-- backend/app/modules/booking/service.py.
pub mod Order
pub mod Paths
use poctamat_back.Common.{
  ℕ, Bool, true, false, not, List, [], ◌∷◌, ◌==◌, if◌then◌else◌, conflict, Result, raise_if,
}
use poctamat_back.Booking.{
  BookingStatus, pending_payment, awaiting_deposit, awaiting_pickup, completed, cancelled, expired,
  grace, overdue, to_remove, removed, closed, payment_failed, position,
}

abbrev pub same_status : BookingStatus → BookingStatus → Bool
same_status s t = position s == position t

abbrev pub has_status : BookingStatus → List BookingStatus → Bool
has_status s [] = false
has_status s (t ∷ ts) = if same_status t s then true else has_status s ts

abbrev pub allowed_transitions : BookingStatus → List BookingStatus
allowed_transitions pending_payment =
    awaiting_deposit ∷ BookingStatus.cancelled ∷ payment_failed ∷ []
allowed_transitions awaiting_deposit = awaiting_pickup ∷ BookingStatus.cancelled ∷ []
allowed_transitions awaiting_pickup = completed ∷ BookingStatus.expired ∷ []
allowed_transitions BookingStatus.expired = completed ∷ grace ∷ []
allowed_transitions grace = completed ∷ overdue ∷ []
allowed_transitions overdue = completed ∷ to_remove ∷ []
allowed_transitions to_remove = completed ∷ removed ∷ []
allowed_transitions removed = closed ∷ []
allowed_transitions closed = []
allowed_transitions completed = []
allowed_transitions BookingStatus.cancelled = []
allowed_transitions payment_failed = []

abbrev pub can_transition : BookingStatus → BookingStatus → Bool
can_transition current target = has_status target (allowed_transitions current)

unfoldable pub assert_transition : BookingStatus → BookingStatus → Result (Unit {0})
assert_transition current target = raise_if (not (can_transition current target)) conflict 409
