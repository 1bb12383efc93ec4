-- ===== src/Admin/States.antt =====
-- What an operator decides about a cell, and the state that the monitor shows: the routes block,
-- unblock, maintenance and remote-open of backend/app/api/admin/cells.py. Nothing that these routes
-- write is under a constraint; of the cell that they answer, only what is stored is modelled.
pub mod Offered
use Prim.Native.String.{String, ◌++◌ as append}
use poctamat_back.Common.{
  ℕ, Bool, true, false, not, ◌&&◌, Option, none, some, List, first, ◌==◌, or_text, is_some, get,
  put, Result, ok, ◌>>=◌, ◌>>◌, raise, raise_if, or_raise, not_found, cell_has_active_booking,
  device_offline, if◌then◌else◌,
}
use poctamat_back.Catalog.{Cell}
use poctamat_back.Booking.{
  BookingStatus, awaiting_pickup, completed, cancelled, payment_failed, removed, closed, Booking,
}
use poctamat_back.Booking.Machine.{same_status}
use poctamat_back.Audit.{
  AuditEntry, Severity, Source, reason_text, fate_and_note, enabled_only, cell_number_only, log,
}
use poctamat_back.Store.{Store}
use poctamat_back.Admin.Numbers.{str}
use poctamat_back.Admin.Cells.{cell_key, cell_entry}

-- `FINISHED_STATUSES` of backend/app/modules/booking/views.py.
abbrev pub is_finished : BookingStatus → Bool
is_finished completed = true
is_finished cancelled = true
is_finished payment_failed = true
is_finished removed = true
is_finished closed = true
is_finished _ = false

abbrev pub occupies : Cell → Booking → Bool
occupies cell b = b.cell_id == cell.id && not (is_finished b.status)

-- `_live_booking`.
unfoldable pub live_booking : List Booking → Cell → Option Booking
live_booking bookings cell = first (occupies cell) bookings

-- The strings of `_status`.
pub data CellStatus : Type 0 where
  blocked maintenance free occupied booked : CellStatus

abbrev pub status_by : Option Booking → CellStatus
status_by none = free
status_by (some b) = if same_status b.status awaiting_pickup then occupied else booked

unfoldable pub status : Cell → Option Booking → CellStatus
status cell booking =
    if cell.is_blocked
    then blocked
    else if cell.is_maintenance
    then maintenance
    else status_by booking

-- The four values of `parcel_fate`.
pub data ParcelFate : Type 0 where
  collected moved_to_counter cell_was_empty returned_to_sender : ParcelFate

abbrev pub fate_text : ParcelFate → String
fate_text collected = "collected"
fate_text moved_to_counter = "moved_to_counter"
fate_text cell_was_empty = "cell_was_empty"
fate_text returned_to_sender = "returned_to_sender"

abbrev pub load_cell : ℕ → Store → Result Cell
load_cell id st = or_raise (get cell_key id st.cells) not_found 404

-- The changed row is written and the entry added.
abbrev pub save_cell : Cell → AuditEntry → Store → Store
save_cell cell entry st = record st {
  cells = put cell_key cell st.cells;
  audits = log st.audits entry;
}

unfoldable pub block_cell : ℕ → String → String → ℕ → Store → Result Store
block_cell now admin reason id st = do
  old ← load_cell id st
  let cell = record old {
    is_blocked = true;
    blocked_reason = some reason;
    status_changed_at = some now;
  }
  ok (save_cell cell (cell_entry "cell.blocked" reason admin cell (reason_text reason)) st)

unfoldable pub unblock_cell : ℕ → String → ParcelFate → Option String → ℕ → Store → Result Store
unblock_cell now admin parcel_fate remark id st = do
  old ← load_cell id st
  let cell = record old { is_blocked = false; blocked_reason = none; status_changed_at = some now }
  ok (
      save_cell cell
        (cell_entry "cell.unblocked"
          (append "Ячейка " (append (str cell.number) " возвращена в работу.")) admin cell
          (fate_and_note (fate_text parcel_fate) remark))
        st)

abbrev pub if_enabled : Bool → Option String → Option String
if_enabled true reason = reason
if_enabled false reason = none

unfoldable pub set_maintenance : ℕ → String → Bool → Option String → ℕ → Store → Result Store
set_maintenance now admin enabled reason id st = do
  old ← load_cell id st
  raise_if (enabled && is_some (live_booking st.bookings old)) cell_has_active_booking 409
  let cell = record old {
    is_maintenance = enabled;
    blocked_reason = if_enabled enabled reason;
    status_changed_at = some now;
  }
  ok (
      save_cell cell
        (cell_entry "cell.maintenance" (or_text reason "Обслуживание") admin cell
          (enabled_only enabled))
        st)

-- The entry is committed before the refusal.
abbrev pub request_open : String → String → Store → Option Cell → Store × Result (Unit {0})
request_open admin reason st none = (st, raise not_found 404)
request_open admin reason st (some cell) = (
  record st {
    audits =
        log st.audits
          (record (cell_entry "cell.remote_open_requested" reason admin cell
            (cell_number_only cell.number)) { severity = Severity.warning });
  },
  raise device_offline 503,
)

unfoldable pub remote_open : String → String → ℕ → Store → Store × Result (Unit {0})
remote_open admin reason id st = request_open admin reason st (get cell_key id st.cells)
