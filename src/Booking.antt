-- ===== src/Booking.antt =====
-- The rows of a booking: backend/app/modules/booking/models.py. Ids are numbers, instants are those
-- of Settings, an optional column is an Option, and the two relationships are lists.
pub mod Machine
pub mod Codes
pub mod Service
use Prim.Native.String.{String}
use poctamat_back.Common.{ℕ, Bool, true, false, Option, List}

pub data BookingStatus : Type 0 where
  pending_payment awaiting_deposit awaiting_pickup completed cancelled : BookingStatus
  expired grace overdue to_remove removed closed payment_failed : BookingStatus

-- `CELL_HELD_STATUSES`, as a test.
abbrev pub is_held : BookingStatus → Bool
is_held pending_payment = true
is_held awaiting_deposit = true
is_held awaiting_pickup = true
is_held expired = true
is_held grace = true
is_held overdue = true
is_held to_remove = true
is_held _ = false

pub data Depositor : Type 0 where
  owner courier : Depositor

pub data CodePurpose : Type 0 where
  deposit pickup : CodePurpose

-- The checklist steps of the contract; the source writes them as strings.
pub data Step : Type 0 where
  booked paid parcel_deposited pickup_code_sent collected expired cancelled : Step

-- The dicts that the code stores as an event's details, by their keys.
pub data EventDetails : Type 0 where
  reason_and_actor : String → Option String → EventDetails
  reason_only : Option String → EventDetails
  extension : ℕ → EventDetails
  actor_only : String → EventDetails

pub record BookingEvent : Type 0 where
  pub seq : ℕ
  pub step : Option Step
  pub status : BookingStatus
  pub message : String
  pub details : Option EventDetails

pub record AccessCode : Type 0 where
  pub booking_id : ℕ
  pub purpose : CodePurpose
  pub code_hash : String
  pub attempts : ℕ
  pub expires_at : Option ℕ
  pub used_at : Option ℕ

pub record Booking : Type 0 where
  pub id : ℕ
  pub client_id : ℕ
  pub postamat_id : ℕ
  pub cell_id : ℕ
  pub cell_type_id : ℕ
  pub duration_hours : ℕ
  pub amount_minor : ℕ
  pub currency : String
  pub status : BookingStatus
  pub depositor : Depositor
  pub courier_phone : Option String
  pub recipient_phone : String
  pub recipient_name : Option String
  pub hold_expires_at : Option ℕ
  pub paid_at : Option ℕ
  pub deposited_at : Option ℕ
  pub expires_at : Option ℕ
  pub collected_at : Option ℕ
  pub cancelled_reason : Option String
  pub remove_after : Option ℕ
  pub reminded_at : Option ℕ
  pub pickup_code_sent_at : Option ℕ
  pub hold_extensions : ℕ
  pub events : List BookingEvent
  pub codes : List AccessCode

-- Equality of statuses, by their position in the enumeration.
abbrev pub position : BookingStatus → ℕ
position pending_payment = 0
position awaiting_deposit = 1
position awaiting_pickup = 2
position completed = 3
position cancelled = 4
position expired = 5
position grace = 6
position overdue = 7
position to_remove = 8
position removed = 9
position closed = 10
position payment_failed = 11
