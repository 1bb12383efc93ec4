-- ===== src/Store.antt =====
-- The tables that one request or worker run reads and writes, as a record. A run that raises leaves
-- them as they were, because its session is closed without a commit.
pub mod Steps
pub mod Kept
pub mod Invariant
pub mod Runs
pub mod Api
use poctamat_back.Common.{ℕ, List}
use poctamat_back.Catalog.{Postamat, Cell}
use poctamat_back.Booking.{Booking}
use poctamat_back.Payments.{Payment}
use poctamat_back.Custody.{CustodyRecord}
use poctamat_back.Audit.{AuditEntry}
use poctamat_back.Notify.{Notification}

pub record Store : Type 0 where
  pub postamats : List Postamat
  pub cells : List Cell
  pub bookings : List Booking
  pub payments : List Payment
  pub custody : List CustodyRecord
  pub audits : List AuditEntry
  pub notices : List Notification

-- Primary keys.
abbrev pub booking_key : Booking → ℕ
booking_key b = b.id

abbrev pub payment_key : Payment → ℕ
payment_key p = p.id

abbrev pub custody_key : CustodyRecord → ℕ
custody_key r = r.id
