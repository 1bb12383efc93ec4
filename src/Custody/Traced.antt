-- ===== src/Custody/Traced.antt =====
-- A cell that staff have emptied has an act that says where its parcel went.
use Prim.Native.String.{String}
use poctamat_back.Common.{
  ℕ, ◌≤◌, ◌≡◌, refl, sym, ap, Bool, true, some, List, [], ◌∷◌, ◌++◌, ◌==◌, get, put, get-Has, All,
  All-put, All-Has, All-mono, count_if, count_if-append, count_if-put_eq, arith, ok, >>=-eq-ok,
  raise_if-ok, not, booking_not_expired, ok_injective,
}
use poctamat_back.Settings.{Settings}
use poctamat_back.Booking.{BookingStatus, removed, closed, Booking}
use poctamat_back.Booking.Machine.{has_status, can_transition}
use poctamat_back.Booking.Service.{mark_removed, close_custody, record_event}
use poctamat_back.Booking.Service.Routine.{is_out}
use poctamat_back.Booking.Service.History.{move-ok}
use poctamat_back.Audit.{log}
use poctamat_back.Custody.{CustodyRecord}
use poctamat_back.Custody.Service.{file_removal, new_record, removable, removal_entry}
use poctamat_back.Custody.Effects.{
  Closing, hands_over, disposes, close, close-case, close_case-ok, closing_row,
}
use poctamat_back.Store.{Store, booking_key, custody_key}

abbrev pub is_act_of : ℕ → CustodyRecord → Bool
is_act_of booking_id r = r.booking_id == booking_id

abbrev pub HasAct : List CustodyRecord → Booking → Type 0
HasAct acts b = is_out b.status ≡ true → 1 ≤ count_if (is_act_of b.id) acts

-- Every booking whose parcel was taken out has an act.
abbrev pub IsTraced : Store → Type 0
IsTraced st = All (HasAct st.custody) st.bookings

more_acts :
    (acts : List CustodyRecord) (r : CustodyRecord) (bookings : List Booking)
    → All (HasAct acts) bookings
    → All (HasAct (acts ++ r ∷ [])) bookings
more_acts acts r bookings h =
    All-mono (HasAct acts) (HasAct (acts ++ r ∷ [])) bookings
      (λ b f e. rw (count_if-append (is_act_of b.id) acts (r ∷ [])) (ground (arith, f e))) h

same_acts :
    (acts : List CustodyRecord) (r old : CustodyRecord) (bookings : List Booking)
    → get custody_key r.id acts ≡ some old
    → r.booking_id ≡ old.booking_id
    → All (HasAct acts) bookings
    → All (HasAct (put custody_key r acts)) bookings
same_acts acts r old bookings found same h =
    All-mono (HasAct acts) (HasAct (put custody_key r acts)) bookings
      (λ b f e.
        rw (count_if-put_eq custody_key (is_act_of b.id) r old acts found (rw same refl)) (f e))
      h

mark_removed-id : (b b' : Booking) → mark_removed b ≡ ok b' → b'.id ≡ b.id
unfolding mark_removed record_event
mark_removed-id b b' e = ap booking_key (sym (move-ok _ b' _ _ _ _ e).1)

close_custody-from :
    (b b' : Booking) → close_custody b ≡ ok b' → (b'.id ≡ b.id) × (b.status ≡ removed)
unfolding close_custody record_event
close_custody-from b b' e =
    let (can, done) = move-ok b b' _ _ _ _ e in (ap booking_key (sym done), to_closed b.status can)
  where
    to_closed : (s : BookingStatus) → can_transition s closed ≡ true → s ≡ removed
    to_closed s h = ground arith

pub file_removal-ok :
    (s : Settings) (now id : ℕ) (b : Booking) (cell : ℕ) (admin reason text : String)
    (st st' : Store) (r : CustodyRecord)
    → file_removal s now id b cell admin reason text st ≡ ok (st', r)
    → (b' : Booking) × (mark_removed b ≡ ok b')
      × (st' ≡ record st {
        custody = st.custody ++ new_record s now id b cell admin reason text ∷ [];
        bookings = put booking_key b' st.bookings;
        audits = log st.audits (removal_entry b' admin reason text);
      })
unfolding file_removal
file_removal-ok s now id b cell admin reason text st st' r e =
    let (_, rest) = raise_if-ok (not (has_status b.status removable)) booking_not_expired 409 _ e in
    let (b', taken, done) = >>=-eq-ok (mark_removed b) _ rest in
    (b', taken, sym (ap (λ (x : Store × CustodyRecord). x.0) (ok_injective done)))

-- If every booking whose parcel staff took out has an act, this holds again after a removal that is
-- filed.
pub file_removal-IsTraced :
    (s : Settings) (now id : ℕ) (b : Booking) (cell : ℕ) (admin reason text : String)
    (st st' : Store) (r : CustodyRecord)
    → file_removal s now id b cell admin reason text st ≡ ok (st', r)
    → IsTraced st
    → IsTraced st'
file_removal-IsTraced s now id b cell admin reason text st st' r e h =
    let (b', taken, written) = file_removal-ok s now id b cell admin reason text st st' r e in
    let key = mark_removed-id b b' taken in
    let row = new_record s now id b cell admin reason text in
    rw written (
      All-put booking_key (HasAct (st.custody ++ row ∷ [])) b' st.bookings
        (λ _. rw (key, count_if-append (is_act_of b.id) st.custody (row ∷ [])) (ground arith))
        (more_acts st.custody row st.bookings h))

closing_row-keys :
    (c : Closing) (now later : ℕ) (r : CustodyRecord) (admin : String)
    → ((closing_row c now later r admin).id ≡ r.id)
      × ((closing_row c now later r admin).booking_id ≡ r.booking_id)
closing_row-keys (hands_over whom document remark) now later r admin = (refl, refl)
closing_row-keys (disposes o reason) now later r admin = (refl, refl)

-- If every booking whose parcel staff took out has an act, this holds again after a stored case is
-- closed for its stored booking.
pub close-IsTraced :
    (c : Closing) (now later : ℕ) (r r' : CustodyRecord) (b : Booking) (admin : String)
    (st st' : Store)
    → close c now later r b admin st ≡ ok (st', r')
    → get custody_key r.id st.custody ≡ some r
    → get booking_key b.id st.bookings ≡ some b
    → IsTraced st
    → IsTraced st'
close-IsTraced c now later r r' b admin st st' e found stored h =
    let (b', closing, same, written) =
      close_case-ok _ _ b st st' r' (close-case c now later r b admin st _ e) in
    let (key, out) = close_custody-from b b' closing in
    let row = closing_row c now later r admin in
    let (id, act) = closing_row-keys c now later r admin in
    let kept = same_acts st.custody row r st.bookings (rw id found) act h in
    rw written (
      All-put booking_key (HasAct (put custody_key row st.custody)) b' st.bookings
        (λ _. rw key (
          All-Has (HasAct (put custody_key row st.custody)) b st.bookings kept
            (get-Has booking_key b.id b st.bookings stored).0 (rw out refl)))
        kept)
