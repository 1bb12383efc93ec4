-- ===== src/Booking/Service/Fields.antt =====
-- When each operation succeeds, and what the deposit and the late stages write.
use Prim.Native.String.{String}
use poctamat_back.Common.{
  ℕ, ◌+◌, ◌*◌, ◌≤◌, ◌≡◌, Bool, true, not, ◌&&◌, ◌||◌, some, arith, ltb, ok, is_ok,
}
use poctamat_back.Settings.{Settings, hours}
use poctamat_back.Catalog.{Postamat}
use poctamat_back.Catalog.Opening.{storage_expiry}
use poctamat_back.Catalog.Opening.Calendar.{IsSchedule}
use poctamat_back.Catalog.Opening.Expiry.{IsExpiry, storage_expiry-IsExpiry}
use poctamat_back.Booking.{
  BookingStatus, pending_payment, awaiting_deposit, awaiting_pickup, completed, grace, overdue,
  to_remove, removed, Booking, AccessCode, pickup,
}
use poctamat_back.Booking.Machine.{can_transition, assert_transition, same_status}
use poctamat_back.Booking.Machine.Order.{is_inside}
use poctamat_back.Booking.Codes.{issue_code, code_expiry}
use poctamat_back.Booking.Codes.Grants.{grant, IsFresh, IsSingle, issue_code_lem}
use poctamat_back.Booking.Service.{
  record_event, move, mark_paid, mark_deposited, mark_collected, expire, extend_hold, hold_is_over,
  to_grace, fail_payment, flag_removal, to_overdue, mark_removed, close_custody, cancel,
}
use poctamat_back.Booking.Service.Calls.{
  Call, pays, deposits, collects, expires, graces, flags, removes, closes, extends, fails,
  runs_over, cancels, perform,
}

-- The bookings on which a call succeeds.
abbrev pub permits : Settings → Call → Booking → Bool
permits s (pays now) b = same_status b.status pending_payment
permits s (deposits p at now code) b = same_status b.status awaiting_deposit
permits s (collects at) b = is_inside b.status
permits s expires b = same_status b.status awaiting_pickup
permits s graces b = same_status b.status BookingStatus.expired
permits s flags b = same_status b.status overdue
permits s removes b = same_status b.status to_remove
permits s closes b = same_status b.status removed
permits s (extends now) b =
    same_status b.status pending_payment
    && not (hold_is_over b.hold_expires_at now)
    && ltb b.hold_extensions s.hold_extensions_max
permits s (fails reason) b = same_status b.status pending_payment
permits s (runs_over now) b = same_status b.status grace
permits s (cancels reason actor) b =
    same_status b.status pending_payment || same_status b.status awaiting_deposit

-- Each operation of the booking service succeeds exactly on the bookings that `permits` names for
-- it, and raises on every other.
pub perform-permits :
    (hash_pin : String → String) (s : Settings) (c : Call) (b : Booking)
    → is_ok (perform hash_pin s c b) ≡ permits s c b
unfolding perform mark_paid mark_deposited mark_collected expire extend_hold to_grace fail_payment
    flag_removal to_overdue mark_removed close_custody cancel move assert_transition record_event
    issue_code
perform-permits hash_pin s (pays now) b = ground arith
perform-permits hash_pin s c b = ground arith

-- A booking whose parcel was put in at `at` under the code `code`.
pub record IsDeposited (hash_pin : String → String) (s : Settings) (p : Postamat)
    (at duration_hours : ℕ) (code : String) (b : Booking) : Type 0 where
  pub waits : b.status ≡ awaiting_pickup
  pub stamped : b.deposited_at ≡ some at
  pub sent : b.pickup_code_sent_at ≡ some at
  pub ends : ℕ
  pub stored_end : b.expires_at ≡ some ends
  pub reachable : IsExpiry p (at + hours duration_hours) ends
  pub code_row : AccessCode
  pub granted : grant pickup b.codes ≡ some code_row
  pub fresh : IsFresh (hash_pin code) (ends + hours s.removal_after_hours) code_row

mark_deposited-fields :
    (hash_pin : String → String) (s : Settings) (p : Postamat) (at now : ℕ) (code code' : String)
    (b b' : Booking)
    → mark_deposited hash_pin s p at now code b ≡ ok (b', code')
    → let stored = record b {
      deposited_at = some at;
      expires_at = some (storage_expiry p at b.duration_hours);
    } in
      (code ≡ code')
      × (b'.status ≡ awaiting_pickup)
      × (b'.deposited_at ≡ some at)
      × (b'.pickup_code_sent_at ≡ some at)
      × (b'.expires_at ≡ some (storage_expiry p at b.duration_hours))
      × (b'.codes ≡ (issue_code hash_pin s stored pickup code now).codes)
unfolding mark_deposited move record_event assert_transition issue_code
mark_deposited-fields hash_pin s p at now code code' b b' e =
    (ground arith, ground arith, ground arith, ground arith, ground arith, ground arith)

-- If the schedule is valid and the booking has at most one grant for each purpose, a deposit that
-- succeeds leaves the booking waiting for pickup until the first reachable instant after the paid
-- time, with one fresh pickup grant for the returned code that outlives the storage by
-- `removal_after_hours`.
pub mark_deposited-IsDeposited :
    (hash_pin : String → String) (s : Settings) (p : Postamat) (at now : ℕ) (code code' : String)
    (b b' : Booking)
    → IsSchedule p.schedule
    → IsSingle b.codes
    → mark_deposited hash_pin s p at now code b ≡ ok (b', code')
    → IsDeposited hash_pin s p at b.duration_hours code' b'
unfolding code_expiry
mark_deposited-IsDeposited hash_pin s p at now code code' b b' h single e =
    let (same, waits, stamped, sent, ends, codes) =
      mark_deposited-fields hash_pin s p at now code code' b b' e in
    let stored : Booking = record b {
      deposited_at = some at;
      expires_at = some (storage_expiry p at b.duration_hours);
    } in
    let ((c, found, fresh), _, _) =
      issue_code_lem hash_pin s stored pickup pickup code now single in
    record {
      waits = waits;
      stamped = stamped;
      sent = sent;
      ends = storage_expiry p at b.duration_hours;
      stored_end = ends;
      reachable = storage_expiry-IsExpiry p at b.duration_hours h;
      code_row = c;
      granted = rw codes found;
      fresh = rw (← same) fresh;
    }

-- When a parcel becomes overdue at a clock at least two grace periods after its stored end, the end
-- that `code_expiry` gives its pickup grant lies at least two grace periods before `remove_after`,
-- though the parcel may still be collected.
pub to_overdue-outlives :
    (s : Settings) (now later ends : ℕ) (b b' : Booking)
    → b.expires_at ≡ some ends
    → ends + hours (s.grace_hours * 2) ≤ now
    → to_overdue s now b ≡ ok b'
    → (r : ℕ) × (b'.remove_after ≡ some r)
      × (code_expiry s b' pickup later + hours (s.grace_hours * 2) ≤ r)
      × (can_transition b'.status completed ≡ true)
unfolding to_overdue move record_event assert_transition code_expiry
to_overdue-outlives s now later ends b b' h late e =
    let kept : b'.expires_at ≡ some ends = ground (arith, h) in
    (now + hours s.removal_after_hours, ground arith, rw kept (omega arith), ground arith)
