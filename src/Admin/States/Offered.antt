-- ===== src/Admin/States/Offered.antt =====
-- The monitor and the allocation agree on which cells are free, and an operator's decision is obeyed
-- by the allocation.
use poctamat_back.Common.{
  ◌≡◌, ◌↔◌, refl, ◌∙◌, inl, inr, false, not, Option, none, some, List, [], ◌∷◌, count_if, Has,
  is_some, ltb, Bool-cases, arith,
}
use poctamat_back.Catalog.{Cell}
use poctamat_back.Catalog.Cells.{free_cells}
use poctamat_back.Catalog.Cells.Free.{free_cells_iff}
use poctamat_back.Booking.{BookingStatus, is_held, Booking}
use poctamat_back.Allocation.{holds, held_cell_ids}
use poctamat_back.Allocation.Success.{IsLocated, IsVacant, free-IsVacant, vacant-IsFree}
use poctamat_back.Admin.States.{is_finished, occupies, live_booking, free, status}

is_finished-is_held : (s : BookingStatus) → is_finished s ≡ not (is_held s)
is_finished-is_held s = ground arith

occupies-holds : (cell : Cell) (b : Booking) → occupies cell b ≡ holds cell.id b
occupies-holds cell b = ground (arith, is_finished-is_held b.status)

live_booking-held :
    (bookings : List Booking) (cell : Cell)
    → is_some (live_booking bookings cell) ≡ ltb 0 (count_if (holds cell.id) bookings)
unfolding live_booking
live_booking-held [] cell = refl
live_booking-held (b ∷ bookings) cell = elim (Bool-cases (holds cell.id b)) [
  | inl hit ↦ rw (occupies-holds cell b, hit) (ground arith)
  | inr miss ↦ rw (occupies-holds cell b, miss) (live_booking-held bookings cell)
]

status-free :
    (cell : Cell) (o : Option Booking)
    → (status cell o ≡ free)
      ↔ ((cell.is_blocked ≡ false) × (cell.is_maintenance ≡ false) × (is_some o ≡ false))
unfolding status
status-free cell none = ground arith
status-free cell (some b) = ground arith

status-IsVacant :
    (bookings : List Booking) (cell : Cell)
    → (status cell (live_booking bookings cell) ≡ free)
      ↔ IsVacant bookings cell.postamat_id cell.cell_type_id cell
status-IsVacant bookings cell = (
  λ e.
      let (unblocked, in_service, gone) = (status-free cell (live_booking bookings cell)).0 e in
      record {
        here = refl;
        sized = refl;
        unblocked = unblocked;
        in_service = in_service;
        unheld = ground (arith, live_booking-held bookings cell, gone);
      },
  λ v.
      (status-free cell (live_booking bookings cell)).1
        (v.unblocked, v.in_service, live_booking-held bookings cell ∙ rw v.unheld refl),
)

-- If cell ids are unique and every booking stands at its cell's postamat, the monitor shows a
-- stored cell as free exactly when the allocation offers it for a booking of its size.
pub status-free_cells :
    (cells : List Cell) (bookings : List Booking) (cell : Cell)
    → IsLocated cells bookings
    → Has cell cells
    → (status cell (live_booking bookings cell) ≡ free)
      ↔ Has cell (
          free_cells cells cell.postamat_id cell.cell_type_id
            (held_cell_ids bookings cell.postamat_id))
status-free_cells cells bookings cell h m =
    let listed =
      free_cells_iff cells cell.postamat_id cell.cell_type_id
        (held_cell_ids bookings cell.postamat_id) cell in
    (
      λ e. listed.1 (
        m,
        vacant-IsFree cells bookings h cell.postamat_id cell.cell_type_id cell m
            ((status-IsVacant bookings cell).0 e),
      ),
      λ f.
          (status-IsVacant bookings cell).1 (
            free-IsVacant cells bookings h cell.postamat_id cell.cell_type_id cell m
              (listed.0 f).1),
    )
