-- ===== src/Custody/Service.antt =====
-- backend/app/modules/custody/service.py: taking a parcel out of its cell, and closing the case. The
-- row of the act, the booking and the log are written in one session.
use Prim.Native.String.{String, ◌++◌ as append}
use poctamat_back.Common.{
  ℕ, ◌+◌, Bool, true, false, not, Option, none, some, List, [], ◌∷◌, ◌++◌, ltb, or_text, put,
  Result, ok, ◌>>=◌, ◌>>◌, raise_if, booking_not_expired, custody_already_closed, custody_not_due,
}
use poctamat_back.Settings.{Settings, days}
use poctamat_back.Booking.{BookingStatus, to_remove, Booking}
use poctamat_back.Booking.Machine.{has_status}
use poctamat_back.Booking.Service.{mark_removed, close_custody}
use poctamat_back.Audit.{
  AuditEntry, Severity, Source, booking_and_reason, booking_and_receiver, booking_and_outcome, log,
}
use poctamat_back.Custody.{CustodyStatus, at_counter, handed_over, Outcome, CustodyRecord}
use poctamat_back.Store.{Store, booking_key, custody_key}

abbrev pub removable : List BookingStatus
removable = to_remove ∷ []

abbrev pub disposal_status : Outcome → CustodyStatus
disposal_status Outcome.returned_to_sender = CustodyStatus.returned_to_sender
disposal_status Outcome.disposed = CustodyStatus.disposed

-- The keys of `DISPOSAL_STATUS`.
abbrev pub outcome_text : Outcome → String
outcome_text Outcome.returned_to_sender = "returned_to_sender"
outcome_text Outcome.disposed = "disposed"

-- The act as it is filed.
abbrev pub new_record : Settings → ℕ → ℕ → Booking → ℕ → String → String → String → CustodyRecord
new_record s now id b cell_number admin reason description = record {
  id = id;
  booking_id = b.id;
  postamat_id = b.postamat_id;
  cell_id = b.cell_id;
  cell_number = cell_number;
  removed_by = admin;
  removed_at = now;
  reason = reason;
  description = description;
  status = at_counter;
  disposal_due_at = some (now + days s.custody_disposal_days);
  closed_by = none;
  closed_at = none;
  closing_reason = none;
  handovers = [];
}

abbrev pub removal_entry : Booking → String → String → String → AuditEntry
removal_entry b admin reason description = record {
  event = "custody.removed";
  source = Source.admin;
  severity = Severity.warning;
  message = description;
  actor = some admin;
  postamat_id = some b.postamat_id;
  cell_id = some b.cell_id;
  details = some (booking_and_reason b.id reason);
}

unfoldable pub file_removal :
    Settings
    → ℕ
    → ℕ
    → Booking
    → ℕ
    → String
    → String
    → String
    → Store
    → Result (Store × CustodyRecord)
file_removal s now id b cell_number admin reason description st = do
  raise_if (not (has_status b.status removable)) booking_not_expired 409
  let row = new_record s now id b cell_number admin reason description
  b' ← mark_removed b
  ok (
    record st {
      custody = st.custody ++ row ∷ [];
      bookings = put booking_key b' st.bookings;
      audits = log st.audits (removal_entry b' admin reason description);
    },
    row,
  )

abbrev pub is_at_counter : CustodyStatus → Bool
is_at_counter at_counter = true
is_at_counter _ = false

-- `_open`.
unfoldable pub check_open : CustodyRecord → Result (Unit {0})
check_open r = raise_if (not (is_at_counter r.status)) custody_already_closed 409

abbrev pub handed_text : String → String
handed_text to_whom = append "Выдано: " to_whom

abbrev pub handed_row :
    ℕ → CustodyRecord → String → String → Option String → Option String → CustodyRecord
handed_row now r admin to_whom document_ref remark = record r {
  handovers =
      r.handovers
      ++ record { to_whom = to_whom; by_admin = admin; document_ref = document_ref; note = remark }
        ∷ [];
  status = handed_over;
  closed_by = some admin;
  closed_at = some now;
  closing_reason = some (handed_text to_whom);
}

abbrev pub handed_entry :
    CustodyRecord → String → String → Option String → Option String → AuditEntry
handed_entry r admin to_whom document_ref remark = record {
  event = "custody.handed_over";
  source = Source.admin;
  severity = Severity.info;
  message = or_text remark (handed_text to_whom);
  actor = some admin;
  postamat_id = some r.postamat_id;
  cell_id = some r.cell_id;
  details = some (booking_and_receiver r.booking_id to_whom document_ref);
}

-- How both closings end: the booking is closed, and the row, the booking and the entry are written.
unfoldable pub close_case :
    CustodyRecord → AuditEntry → Booking → Store → Result (Store × CustodyRecord)
close_case row entry b st = do
  b' ← close_custody b
  ok (
    record st {
      custody = put custody_key row st.custody;
      bookings = put booking_key b' st.bookings;
      audits = log st.audits entry;
    },
    row,
  )

unfoldable pub hand_over :
    ℕ
    → CustodyRecord
    → Booking
    → String
    → String
    → Option String
    → Option String
    → Store
    → Result (Store × CustodyRecord)
hand_over now r b admin to_whom document_ref remark st = do
  check_open r
  close_case (handed_row now r admin to_whom document_ref remark)
      (handed_entry r admin to_whom document_ref remark) b st

-- `due is not None and utcnow() < due`
abbrev pub not_due : Option ℕ → ℕ → Bool
not_due none now = false
not_due (some due) now = ltb now due

abbrev pub disposed_row : ℕ → CustodyRecord → String → Outcome → String → CustodyRecord
disposed_row now r admin outcome reason = record r {
  status = disposal_status outcome;
  closed_by = some admin;
  closed_at = some now;
  closing_reason = some reason;
}

abbrev pub disposed_entry : CustodyRecord → String → Outcome → String → AuditEntry
disposed_entry r admin outcome reason = record {
  event = append "custody." (outcome_text outcome);
  source = Source.admin;
  severity = Severity.warning;
  message = reason;
  actor = some admin;
  postamat_id = some r.postamat_id;
  cell_id = some r.cell_id;
  details = some (booking_and_outcome r.booking_id (outcome_text outcome));
}

-- `now` is the clock of the test, `later` that of `closed_at`.
unfoldable pub dispose :
    ℕ
    → ℕ
    → CustodyRecord
    → Booking
    → String
    → Outcome
    → String
    → Store
    → Result (Store × CustodyRecord)
dispose now later r b admin outcome reason st = do
  check_open r
  raise_if (not_due r.disposal_due_at now) custody_not_due 422
  close_case (disposed_row later r admin outcome reason) (disposed_entry r admin outcome reason) b
      st
