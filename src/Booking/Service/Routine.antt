-- ===== src/Booking/Service/Routine.antt =====
-- No operation but the two of the custody procedure reaches a status in which staff hold the parcel.
use Prim.Native.String.{String}
use poctamat_back.Common.{◌≡◌, Bool, true, false, ◌||◌, arith, ok}
use poctamat_back.Settings.{Settings}
use poctamat_back.Booking.{BookingStatus, removed, closed, Booking}
use poctamat_back.Booking.Machine.{same_status, assert_transition}
use poctamat_back.Booking.Codes.{issue_code}
use poctamat_back.Booking.Service.{
  record_event, move, mark_paid, mark_deposited, mark_collected, expire, extend_hold, to_grace,
  fail_payment, flag_removal, to_overdue, mark_removed, close_custody, cancel,
}
use poctamat_back.Booking.Service.Calls.{
  Call, pays, deposits, collects, expires, graces, flags, removes, closes, extends, fails,
  runs_over, cancels, perform,
}

-- The parcel has been taken out by staff.
abbrev pub is_out : BookingStatus → Bool
is_out s = same_status s removed || same_status s closed

abbrev pub is_routine : Call → Bool
is_routine removes = false
is_routine closes = false
is_routine _ = true

pub perform-is_out :
    (hash_pin : String → String) (s : Settings) (c : Call) (b b' : Booking)
    → perform hash_pin s c b ≡ ok b'
    → is_routine c ≡ true
    → is_out b'.status ≡ true
    → is_out b.status ≡ true
unfolding perform mark_paid mark_deposited mark_collected expire extend_hold to_grace fail_payment
    flag_removal to_overdue mark_removed close_custody cancel move assert_transition record_event
    issue_code
perform-is_out hash_pin s (pays now) b b' e r o = ground arith
perform-is_out hash_pin s (deposits p at now code) b b' e r o = ground arith
perform-is_out hash_pin s (collects at) b b' e r o = ground arith
perform-is_out hash_pin s expires b b' e r o = ground arith
perform-is_out hash_pin s graces b b' e r o = ground arith
perform-is_out hash_pin s flags b b' e r o = ground arith
perform-is_out hash_pin s removes b b' e r o = ground arith
perform-is_out hash_pin s closes b b' e r o = ground arith
perform-is_out hash_pin s (extends now) b b' e r o = ground arith
perform-is_out hash_pin s (fails reason) b b' e r o = ground arith
perform-is_out hash_pin s (runs_over now) b b' e r o = ground arith
perform-is_out hash_pin s (cancels reason actor) b b' e r o = ground arith
