-- ===== src/Admin/Custody.antt =====
-- The custody routes of backend/app/api/admin/custody.py that write.
use Prim.Native.Char.{code}
use Prim.Native.String.{String}
use poctamat_back.Common.{
  ℕ, Bool, true, false, ◌&&◌, ◌||◌, Option, none, some, leb, ◌==◌, get, Result, ok, ◌>>=◌, ◌>>◌,
  raise, raise_if, or_raise, not_found, internal_error, reason_required, custody_not_due,
}
use poctamat_back.Settings.{Settings}
use poctamat_back.Catalog.Cells.{cell_number}
use poctamat_back.Booking.{Booking}
use poctamat_back.Notify.{Notification, NotificationKind, in_app, add_notice}
use poctamat_back.Custody.{Outcome, CustodyRecord}
use poctamat_back.Custody.Service.{file_removal, hand_over, dispose, check_open, not_due}
use poctamat_back.Store.{Store, booking_key, custody_key}

-- The code points that `str.strip` takes for white space.
abbrev pub is_space : ℕ → Bool
is_space c =
    (leb 9 c && leb c 13)
    || (leb 28 c && leb c 32)
    || c == 133
    || c == 160
    || c == 5760
    || (leb 8192 c && leb c 8202)
    || c == 8232
    || c == 8233
    || c == 8239
    || c == 8287
    || c == 12288

-- `not value.strip()`
abbrev pub is_blank : String → Bool
is_blank String.[] = true
is_blank (String.◌∷◌ c s) = is_space (code c) && is_blank s

-- `_reason`.
abbrev pub check_reason : String → Result (Unit {0})
check_reason reason = raise_if (is_blank reason) reason_required 422

abbrev pub removed_notice : Booking → Notification
removed_notice b = record {
  client_id = some b.client_id;
  booking_id = some b.id;
  kind = NotificationKind.parcel_removed;
  channel = in_app;
  phone = none;
  cell_number = none;
  hours = none;
}

unfoldable pub file_removal_route :
    Settings → ℕ → ℕ → String → ℕ → String → String → Store → Result (Store × CustodyRecord)
file_removal_route s now id admin booking_id reason description st = do
  _ ← check_reason reason
  b ← or_raise (get booking_key booking_id st.bookings) not_found 404
  (st', r) ← file_removal s now id b (cell_number st.cells b.cell_id) admin reason description st
  ok (record st' { notices = add_notice st'.notices (removed_notice b) }, r)

-- Without its booking a record passes the checks of the service and then breaks.
abbrev pub booking_of : CustodyRecord → Bool → Option Booking → Result Booking
booking_of r early (some b) = ok b
booking_of r early none = do
  check_open r
  raise_if early custody_not_due 422
  raise internal_error 500

unfoldable pub hand_over_route :
    ℕ → ℕ → String → String → Option String → Option String → Store → Result (Store × CustodyRecord)
hand_over_route now record_id admin to_whom document_ref note st = do
  r ← or_raise (get custody_key record_id st.custody) not_found 404
  b ← booking_of r false (get booking_key r.booking_id st.bookings)
  hand_over now r b admin to_whom document_ref note st

unfoldable pub dispose_route :
    ℕ → ℕ → ℕ → String → Outcome → String → Store → Result (Store × CustodyRecord)
dispose_route now later record_id admin outcome reason st = do
  r ← or_raise (get custody_key record_id st.custody) not_found 404
  _ ← check_reason reason
  b ← booking_of r (not_due r.disposal_due_at now) (get booking_key r.booking_id st.bookings)
  dispose now later r b admin outcome reason st
