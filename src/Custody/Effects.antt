-- ===== src/Custody/Effects.antt =====
-- When the custody operations go through, and that no parcel leaves its cell without an act.
use Prim.Native.String.{String}
use poctamat_back.Common.{
  ℕ, ◌≡◌, refl, sym, ap, false, not, ◌&&◌, Option, put, arith, Result, ok, >>=-eq-ok, raise_if-ok,
  raise, ok_injective, is_ok, custody_already_closed,
}
use poctamat_back.Settings.{Settings}
use poctamat_back.Booking.{to_remove, removed, Booking}
use poctamat_back.Booking.Machine.{same_status, assert_transition}
use poctamat_back.Booking.Service.{mark_removed, close_custody, move, record_event}
use poctamat_back.Audit.{AuditEntry, log}
use poctamat_back.Custody.{Outcome, CustodyRecord}
use poctamat_back.Custody.Service.{
  file_removal, hand_over, dispose, close_case, handed_row, handed_entry, disposed_row,
  disposed_entry, check_open, not_due, is_at_counter,
}
use poctamat_back.Store.{Store, booking_key, custody_key}

-- A parcel may be taken out exactly when its booking is flagged for removal.
pub file_removal-is_ok :
    (s : Settings) (now id : ℕ) (b : Booking) (cell : ℕ) (admin reason text : String) (st : Store)
    → is_ok (file_removal s now id b cell admin reason text st) ≡ same_status b.status to_remove
unfolding file_removal mark_removed move assert_transition record_event
file_removal-is_ok s now id b cell admin reason text st = ground arith

-- It is given out exactly while it is at the counter and its booking says that it was taken out.
pub hand_over-is_ok :
    (now : ℕ) (r : CustodyRecord) (b : Booking) (admin whom : String)
    (document remark : Option String) (st : Store)
    → is_ok (hand_over now r b admin whom document remark st)
      ≡ is_at_counter r.status && same_status b.status removed
unfolding hand_over check_open close_case close_custody move assert_transition record_event
hand_over-is_ok now r b admin whom document remark st = ground arith

-- A disposal succeeds exactly while the parcel is at the counter, its waiting period is over and
-- its booking says removed.
pub dispose-is_ok :
    (now later : ℕ) (r : CustodyRecord) (b : Booking) (admin : String) (o : Outcome)
    (reason : String) (st : Store)
    → is_ok (dispose now later r b admin o reason st)
      ≡ is_at_counter r.status
        && not (not_due r.disposal_due_at now)
        && same_status b.status removed
unfolding dispose check_open close_case close_custody move assert_transition record_event
dispose-is_ok now later r b admin o reason st = ground arith

-- The two ways to close a case, with what the request says.
pub data Closing : Type 0 where
  hands_over : String → Option String → Option String → Closing
  disposes : Outcome → String → Closing

unfoldable pub close :
    Closing → ℕ → ℕ → CustodyRecord → Booking → String → Store → Result (Store × CustodyRecord)
close (hands_over whom document remark) now later r b admin st =
    hand_over now r b admin whom document remark st
close (disposes o reason) now later r b admin st = dispose now later r b admin o reason st

-- The row and the entry that a closing writes.
abbrev pub closing_row : Closing → ℕ → ℕ → CustodyRecord → String → CustodyRecord
closing_row (hands_over whom document remark) now later r admin =
    handed_row now r admin whom document remark
closing_row (disposes o reason) now later r admin = disposed_row later r admin o reason

abbrev pub closing_entry : Closing → CustodyRecord → String → AuditEntry
closing_entry (hands_over whom document remark) r admin = handed_entry r admin whom document remark
closing_entry (disposes o reason) r admin = disposed_entry r admin o reason

pub close-case :
    (c : Closing) (now later : ℕ) (r : CustodyRecord) (b : Booking) (admin : String) (st : Store)
    (done : Store × CustodyRecord)
    → close c now later r b admin st ≡ ok done
    → close_case (closing_row c now later r admin) (closing_entry c r admin) b st ≡ ok done
unfolding close hand_over dispose
close-case (hands_over whom document remark) now later r b admin st done e =
    let (_, _, rest) = >>=-eq-ok (check_open r) _ e in rest
close-case (disposes o reason) now later r b admin st done e =
    let (_, _, rest) = >>=-eq-ok (check_open r) _ e in
    (raise_if-ok (not_due r.disposal_due_at now) _ _ _ rest).1

-- What the end of a closing writes, if it gets there.
pub close_case-ok :
    (row : CustodyRecord) (entry : AuditEntry) (b : Booking) (st st' : Store) (r' : CustodyRecord)
    → close_case row entry b st ≡ ok (st', r')
    → (b' : Booking) × (close_custody b ≡ ok b')
      × (r' ≡ row)
      × (st' ≡ record st {
        custody = put custody_key row st.custody;
        bookings = put booking_key b' st.bookings;
        audits = log st.audits entry;
      })
unfolding close_case
close_case-ok row entry b st st' r' e =
    let (b', closing, done) = >>=-eq-ok (close_custody b) _ e in
    let same = ok_injective done in
    (
      b',
      closing,
      sym (ap (λ (x : Store × CustodyRecord). x.1) same),
      sym (ap (λ (x : Store × CustodyRecord). x.0) same),
    )

closing_row-status :
    (c : Closing) (now later : ℕ) (r : CustodyRecord) (admin : String)
    → is_at_counter (closing_row c now later r admin).status ≡ false
closing_row-status (hands_over whom document remark) now later r admin = refl
closing_row-status (disposes Outcome.returned_to_sender reason) now later r admin = refl
closing_row-status (disposes Outcome.disposed reason) now later r admin = refl

close-status :
    (c : Closing) (now later : ℕ) (r r' : CustodyRecord) (b : Booking) (admin : String)
    (st st' : Store)
    → close c now later r b admin st ≡ ok (st', r')
    → is_at_counter r'.status ≡ false
close-status c now later r r' b admin st st' e =
    let (_, _, same, _) = close_case-ok _ _ b st st' r' (close-case c now later r b admin st _ e) in
    rw same (closing_row-status c now later r admin)

-- After a hand-over or a disposal every later hand-over or disposal of the record is refused with
-- CUSTODY_ALREADY_CLOSED.
pub close-once :
    (c again : Closing) (now later now₂ later₂ : ℕ) (r r' : CustodyRecord) (b b₂ : Booking)
    (admin admin₂ : String) (st st' st₂ : Store)
    → close c now later r b admin st ≡ ok (st', r')
    → close again now₂ later₂ r' b₂ admin₂ st₂ ≡ raise custody_already_closed 409
unfolding close hand_over dispose check_open
close-once c (hands_over whom document remark) now later now₂ later₂ r r' b b₂ admin admin₂ st st'
      st₂ e =
    rw (close-status c now later r r' b admin st st' e) refl
close-once c (disposes o reason) now later now₂ later₂ r r' b b₂ admin admin₂ st st' st₂ e =
    rw (close-status c now later r r' b admin st st' e) refl
