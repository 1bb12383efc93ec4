-- ===== src/Allocation.antt =====
-- `_held_cell_ids` and `create_booking` of backend/app/modules/booking/service.py: one free cell is
-- taken and held. The tables of cells and bookings are arguments. The session guard at the top of
-- `create_booking` is the caller's: it holds no pending change, as the route has only read.
pub mod Exclusive
pub mod Success
use Prim.Native.String.{String}
use poctamat_back.Common.{
  ℕ, ◌+◌, Bool, true, false, ◌&&◌, Option, none, some, List, [], ◌∷◌, ◌++◌, map, select, count_if,
  ltb, ◌==◌, if◌then◌else◌, Result, ok, err, raise, no_free_cells,
}
use poctamat_back.Settings.{Settings, minutes}
use poctamat_back.Catalog.{Cell}
use poctamat_back.Catalog.Cells.{free_cell_ids}
use poctamat_back.Booking.{
  pending_payment, is_held, Depositor, booked, Booking, CodePurpose, deposit,
}
use poctamat_back.Booking.Codes.{issue_code}
use poctamat_back.Booking.Service.{record_event}

-- The keyword arguments of `create_booking`, and the id that the new row gets.
pub record Request : Type 0 where
  pub id : ℕ
  pub client_id : ℕ
  pub postamat_id : ℕ
  pub cell_type_id : ℕ
  pub duration_hours : ℕ
  pub amount_minor : ℕ
  pub currency : String
  pub recipient_phone : String
  pub recipient_name : Option String
  pub depositor : Depositor
  pub courier_phone : Option String

abbrev pub holds_at : ℕ → Booking → Bool
holds_at postamat_id b = b.postamat_id == postamat_id && is_held b.status

unfoldable pub held_cell_ids : List Booking → ℕ → List ℕ
held_cell_ids bookings postamat_id = map (λ b. b.cell_id) (select (holds_at postamat_id) bookings)

-- The row that takes the cell, before its code and its first event.
abbrev pub new_row : Settings → Request → ℕ → ℕ → Booking
new_row s r cell_id now = record {
  id = r.id;
  client_id = r.client_id;
  postamat_id = r.postamat_id;
  cell_id = cell_id;
  cell_type_id = r.cell_type_id;
  duration_hours = r.duration_hours;
  amount_minor = r.amount_minor;
  currency = r.currency;
  status = pending_payment;
  depositor = r.depositor;
  courier_phone = r.courier_phone;
  recipient_phone = r.recipient_phone;
  recipient_name = r.recipient_name;
  hold_expires_at = some (now + minutes s.hold_minutes);
  paid_at = none;
  deposited_at = none;
  expires_at = none;
  collected_at = none;
  cancelled_reason = none;
  remove_after = none;
  reminded_at = none;
  pickup_code_sent_at = none;
  hold_extensions = 0;
  events = [];
  codes = [];
}

-- The cell is held by this booking.
abbrev pub holds : ℕ → Booking → Bool
holds cell_id b = is_held b.status && b.cell_id == cell_id

-- The flush under `uq_active_booking_per_cell`: the index refuses a second holder of a cell, and
-- the refusal is answered like a sold-out size.
unfoldable pub flush_new :
    List Booking → Booking → String → Result (List Booking × Booking × String)
flush_new bookings b code =
    if ltb 0 (count_if (holds b.cell_id) bookings)
    then raise no_free_cells 409
    else ok (bookings ++ b ∷ [], b, code)

module _ (hash_pin : String → String) (s : Settings) where
  -- `now` is read for the hold and `later` for the end of the code.
  unfoldable pub new_booking : Request → ℕ → ℕ → ℕ → String → Booking
  new_booking r cell_id now later code =
      record_event (issue_code hash_pin s (new_row s r cell_id now) deposit code later)
        pending_payment "Забронировано" none (some booked)

  abbrev pub take_first :
      List Booking → Request → ℕ → ℕ → String → List ℕ → Result (List Booking × Booking × String)
  take_first bookings r now later code [] = raise no_free_cells 409
  take_first bookings r now later code (cell_id ∷ _) =
      flush_new bookings (new_booking r cell_id now later code) code

  unfoldable pub create_booking :
      List Cell → List Booking → Request → ℕ → ℕ → String → Result (List Booking × Booking × String)
  create_booking cells bookings r now later code =
      take_first bookings r now later code
        (free_cell_ids cells r.postamat_id r.cell_type_id (held_cell_ids bookings r.postamat_id))
