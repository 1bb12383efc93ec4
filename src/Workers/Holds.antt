-- ===== src/Workers/Holds.antt =====
-- backend/app/workers/holds.py: unpaid bookings give their cells back.
pub mod Release
use Prim.Native.String.{String}
use poctamat_back.Common.{
  ℕ, Bool, true, false, ◌&&◌, Option, none, some, List, [], ◌∷◌, leb, select, put, Result, ok, err,
  ◌>>=◌,
}
use poctamat_back.Booking.{BookingStatus, pending_payment, Booking}
use poctamat_back.Booking.Machine.{same_status}
use poctamat_back.Booking.Service.{cancel}
use poctamat_back.Store.{booking_key}

abbrev pub release_reason : String
release_reason = "Бронь не оплачена вовремя"

-- `hold_expires_at IS NOT NULL AND hold_expires_at <= moment`
abbrev pub ran_out : Option ℕ → ℕ → Bool
ran_out none moment = false
ran_out (some until) moment = leb until moment

abbrev pub is_stale : ℕ → Booking → Bool
is_stale moment b = same_status b.status pending_payment && ran_out b.hold_expires_at moment

-- The loop over the selected rows, which writes each back to the table.
unfoldable pub release_each : List Booking → List Booking → Result (List Booking × List ℕ)
release_each [] rows = ok (rows, [])
release_each (b ∷ stale) rows = do
  b' ← cancel release_reason (some "system") b
  (rows', released) ← release_each stale (put booking_key b' rows)
  ok (rows', b.id ∷ released)

unfoldable pub release_expired_holds : ℕ → List Booking → Result (List Booking × List ℕ)
release_expired_holds moment rows = release_each (select (is_stale moment) rows) rows
