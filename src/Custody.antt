-- ===== src/Custody.antt =====
-- Custody rows: backend/app/modules/custody/models.py.
pub mod Service
pub mod Effects
pub mod Traced
use Prim.Native.String.{String}
use poctamat_back.Common.{ℕ, Bool, true, false, Option, List}

pub data CustodyStatus : Type 0 where
  at_counter handed_over returned_to_sender disposed : CustodyStatus

-- The literals of `DisposeRequest.outcome`, the keys of `DISPOSAL_STATUS`.
pub data Outcome : Type 0 where
  returned_to_sender disposed : Outcome

pub record CustodyHandover : Type 0 where
  pub to_whom : String
  pub by_admin : String
  pub document_ref : Option String
  pub note : Option String

pub record CustodyRecord : Type 0 where
  pub id : ℕ
  pub booking_id : ℕ
  pub postamat_id : ℕ
  pub cell_id : ℕ
  pub cell_number : ℕ
  pub removed_by : String
  pub removed_at : ℕ
  pub reason : String
  pub description : String
  pub status : CustodyStatus
  pub disposal_due_at : Option ℕ
  pub closed_by : Option String
  pub closed_at : Option ℕ
  pub closing_reason : Option String
  pub handovers : List CustodyHandover
