-- ===== src/Audit.antt =====
-- The audit log: backend/app/modules/audit/models.py and service.py. The trace id of the request is
-- not part of the row here.
use Prim.Native.String.{String}
use poctamat_back.Common.{ℕ, Bool, Option, List, [], ◌∷◌, ◌++◌}

pub data Severity : Type 0 where
  info warning error : Severity

pub data Source : Type 0 where
  system api admin : Source

-- The dicts that the code stores as details, by their keys.
pub data AuditDetails : Type 0 where
  payment_and_amount : ℕ → ℕ → ℕ → AuditDetails
  booking_and_reason : ℕ → String → AuditDetails
  booking_and_receiver : ℕ → String → Option String → AuditDetails
  booking_and_outcome : ℕ → String → AuditDetails
  booking_only : ℕ → AuditDetails
  number_only : ℕ → AuditDetails
  fields_only : List String → AuditDetails
  reason_text : String → AuditDetails
  fate_and_note : String → Option String → AuditDetails
  enabled_only : Bool → AuditDetails
  count_and_grid : ℕ → ℕ → ℕ → AuditDetails
  cell_number_only : ℕ → AuditDetails
  user_and_role : ℕ → ℕ → AuditDetails
  user_and_fields : ℕ → List String → AuditDetails
  user_only : ℕ → AuditDetails
  client_and_reason : ℕ → String → AuditDetails
  client_only : ℕ → AuditDetails

pub record AuditEntry : Type 0 where
  pub event : String
  pub source : Source
  pub severity : Severity
  pub message : String
  pub actor : Option String
  pub postamat_id : Option ℕ
  pub cell_id : Option ℕ
  pub details : Option AuditDetails

-- `audit.record`: the entry goes to the end of the log.
abbrev pub log : List AuditEntry → AuditEntry → List AuditEntry
log entries entry = entries ++ entry ∷ []
