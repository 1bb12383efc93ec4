-- ===== src/Mobile.antt =====
-- The booking routes of the mobile API, backend/app/api/mobile/bookings.py, from the point where
-- `require_client` has answered the caller's row. The answers are rendered by views, which are left
-- out. Each reading of a clock is an argument: the store's for `_guard_resend`, and `utcnow()`.
pub mod Create
pub mod Codes
pub mod Touched
pub mod Serve
pub mod Payments
use Prim.Native.String.{String}
use package.text.Mathlib.Text.{◌==◌ as str_eq}
use poctamat_back.Common.{
  ℕ, Bool, true, false, not, ◌&&◌, Option, none, some, List, [], ◌∷◌, first, ◌==◌, if◌then◌else◌,
  or_text, is_some, get, Result, ok, err, ◌>>=◌, ◌>>◌, raise, raise_if, or_raise, not_found,
  profile_incomplete, recipient_phone_same_as_sender, postamat_blocked, duration_not_supported,
  booking_already_cancelled, booking_not_cancellable, grant_already_used, grant_expired,
  code_resend_too_soon, pickup_code_not_issued_yet, transfer_not_allowed, transfer_phone_same,
}
use poctamat_back.Settings.{Settings}
use poctamat_back.Catalog.{PostamatStatus, Postamat, Tariff}
use poctamat_back.Catalog.Cells.{cell_number}
use poctamat_back.Booking.{
  BookingStatus, pending_payment, awaiting_deposit, Depositor, CodePurpose, deposit, pickup, Step,
  actor_only, Booking,
}
use poctamat_back.Booking.Machine.{same_status}
use poctamat_back.Booking.Codes.{code_expiry, issue_code}
use poctamat_back.Booking.Service.{record_event, extend_hold, cancel}
use poctamat_back.Allocation.{Request, create_booking}
use poctamat_back.Notify.{Notification, NotificationKind, sms, add_notice}
use poctamat_back.Payments.Service.{save_booking}
use poctamat_back.KeyValue.{
  Key, code_resend, text, Fields, has_value, KeyValueStore, put_value, get_value,
}
use poctamat_back.Identity.{Client}
use poctamat_back.Store.{Store, booking_key}

-- The tables, the price list, and the key-value store, which no session rolls back.
pub record Desk : Type 0 where
  pub store : Store
  pub tariffs : List Tariff
  pub kv : KeyValueStore

-- `CANCELLABLE`.
abbrev pub is_cancellable : BookingStatus → Bool
is_cancellable pending_payment = true
is_cancellable awaiting_deposit = true
is_cancellable _ = false

abbrev pub is_text : Option String → Bool
is_text none = false
is_text (some t) = not (str_eq t "")

-- `Client.profile_complete`.
abbrev pub profile_complete : Client → Bool
profile_complete c = is_text c.last_name && is_text c.first_name

abbrev pub own_or_raise : ℕ → Option Booking → Result Booking
own_or_raise client_id none = raise not_found 404
own_or_raise client_id (some b) = do raise_if (not (b.client_id == client_id)) not_found 404; ok b

-- `_own_booking`.
unfoldable pub own_booking : Client → ℕ → List Booking → Result Booking
own_booking client booking_id bookings =
    own_or_raise client.id (get booking_key booking_id bookings)

abbrev pub kind_of : CodePurpose → NotificationKind
kind_of deposit = NotificationKind.deposit_code
kind_of pickup = NotificationKind.pickup_code_sent

-- The row of `_send_code`; the digits are in the message and not in the row.
abbrev pub code_sms : Store → Booking → CodePurpose → String → Notification
code_sms st b purpose phone = record {
  client_id = none;
  booking_id = some b.id;
  kind = kind_of purpose;
  channel = sms;
  phone = some phone;
  cell_number = some (cell_number st.cells b.cell_id);
  hours = none;
}

abbrev pub send_code : Booking → CodePurpose → String → Store → Store
send_code b purpose phone st = record st {
  notices = add_notice st.notices (code_sms st b purpose phone);
}

unfoldable pub cancel_booking : Client → ℕ → Option String → Store → Result Store
cancel_booking client booking_id reason st = do
  b ← own_booking client booking_id st.bookings
  raise_if (same_status b.status BookingStatus.cancelled) booking_already_cancelled 409
  raise_if (not (is_cancellable b.status)) booking_not_cancellable 409
  b' ← cancel (or_text reason "Отменено клиентом") (some "client") b
  ok (save_booking b' st)

unfoldable pub extend_own_hold : Settings → Client → ℕ → ℕ → Store → Result Store
extend_own_hold s client booking_id now st = do
  b ← own_booking client booking_id st.bookings
  b' ← extend_hold s now b
  ok (save_booking b' st)
