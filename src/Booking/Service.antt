-- ===== src/Booking/Service.antt =====
-- The booking service, backend/app/modules/booking/service.py, apart from `create_booking`, which
-- needs the tables of Store. An operation returns the changed booking, or the error that it raises.
pub mod History
pub mod Calls
pub mod Fields
pub mod Hold
pub mod Routine
use Prim.Native.String.{String}
use poctamat_back.Common.{
  ℕ, ◌+◌, Bool, true, false, not, Option, none, some, List, [], ◌∷◌, ◌++◌, leb, length, or_text,
  is_some, Result, ok, err, ◌>>=◌, ◌>>◌, raise_if, raise, booking_already_paid,
  booking_hold_expired, hold_extension_limit_exceeded,
}
use poctamat_back.Settings.{Settings, minutes, hours}
use poctamat_back.Catalog.{Postamat}
use poctamat_back.Catalog.Opening.{storage_expiry}
use poctamat_back.Booking.{
  BookingStatus, pending_payment, awaiting_deposit, awaiting_pickup, completed, grace, overdue,
  to_remove, removed, closed, payment_failed, Step, booked, paid, parcel_deposited,
  pickup_code_sent, collected, EventDetails, reason_and_actor, reason_only, extension, BookingEvent,
  Booking, CodePurpose, pickup,
}
use poctamat_back.Booking.Machine.{same_status, assert_transition}
use poctamat_back.Booking.Codes.{issue_code}

unfoldable pub record_event :
    Booking → BookingStatus → String → Option EventDetails → Option Step → Booking
record_event b status message details step = record b {
  events =
      b.events
      ++ record {
        seq = length b.events;
        step = step;
        status = status;
        message = message;
        details = details;
      }
        ∷ [];
}

unfoldable pub move :
    Booking → BookingStatus → String → Option EventDetails → Option Step → Result Booking
move b target message details step = do
  assert_transition b.status target
  ok (record_event (record b { status = target }) target message details step)

unfoldable pub mark_paid : ℕ → Booking → Result Booking
mark_paid now b =
    move
      (record_event (record b { paid_at = some now; hold_expires_at = none }) pending_payment
        "Оплачено" none (some paid))
      awaiting_deposit "Ожидает отправителя" none none

-- `at` is `moment or utcnow()`, and `now` the clock read by `code_expiry`. The code is returned with
-- the booking, once.
unfoldable pub mark_deposited :
    (String → String) → Settings → Postamat → ℕ → ℕ → String → Booking → Result (Booking × String)
mark_deposited hash_pin s postamat at now code b = do
  let stored = record b {
    deposited_at = some at;
    expires_at = some (storage_expiry postamat at b.duration_hours);
  }
  let granted = issue_code hash_pin s stored pickup code now
  moved ←
      move (record granted { pickup_code_sent_at = some at }) awaiting_pickup "Посылка в ячейке"
        none (some parcel_deposited)
  ok (
    record_event moved awaiting_pickup "Код получения отправлен" none (some pickup_code_sent),
    code,
  )

unfoldable pub mark_collected : ℕ → Booking → Result Booking
mark_collected at b =
    move (record b { collected_at = some at }) completed "Получено" none (some collected)

unfoldable pub expire : Booking → Result Booking
expire b = move b BookingStatus.expired "Срок хранения истёк" none (some Step.expired)

-- `booking.hold_expires_at is None or as_utc(booking.hold_expires_at) <= utcnow()`
abbrev pub hold_is_over : Option ℕ → ℕ → Bool
hold_is_over none now = true
hold_is_over (some until) now = leb until now

abbrev pub push_out : Option ℕ → ℕ → Option ℕ
push_out none by = none
push_out (some until) by = some (until + by)

unfoldable pub extend_hold : Settings → ℕ → Booking → Result Booking
extend_hold s now b = do
  raise_if (not (same_status b.status pending_payment)) booking_already_paid 409
  raise_if (hold_is_over b.hold_expires_at now) booking_hold_expired 409
  raise_if (leb s.hold_extensions_max b.hold_extensions) hold_extension_limit_exceeded 409
  ok (
      record_event
        (record b {
          hold_extensions = b.hold_extensions + 1;
          hold_expires_at = push_out b.hold_expires_at (minutes s.hold_minutes);
        })
        b.status "Бронь продлена" (some (extension (b.hold_extensions + 1))) none)

unfoldable pub to_grace : Booking → Result Booking
to_grace b = move b grace "Льготный период" none none

unfoldable pub fail_payment : Option String → Booking → Result Booking
fail_payment reason b =
    move (record b { cancelled_reason = some (or_text reason "Оплата не прошла") }) payment_failed
      "Оплата не прошла" (some (reason_only reason)) none

unfoldable pub flag_removal : Booking → Result Booking
flag_removal b = move b to_remove "К изъятию" none none

unfoldable pub to_overdue : Settings → ℕ → Booking → Result Booking
to_overdue s now b =
    move (record b { remove_after = some (now + hours s.removal_after_hours) }) overdue "Просрочено"
      none none

unfoldable pub mark_removed : Booking → Result Booking
mark_removed b = move b removed "Посылка изъята" none none

unfoldable pub close_custody : Booking → Result Booking
close_custody b = move b closed "Дело закрыто" none none

unfoldable pub cancel : String → Option String → Booking → Result Booking
cancel reason actor b =
    move (record b { cancelled_reason = some reason }) BookingStatus.cancelled "Отменено"
      (some (reason_and_actor reason actor)) (some Step.cancelled)
