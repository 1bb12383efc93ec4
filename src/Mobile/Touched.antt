-- ===== src/Mobile/Touched.antt =====
-- What a route of the mobile API can do to the tables.
use Prim.Native.String.{String}
use package.text.Mathlib.Text.{◌==◌ as str_eq}
use poctamat_back.Common.{
  ℕ, ◌≡◌, refl, ap, subst, ◌∙◌, ◌⊎◌, inl, inr, true, not, Option, none, some, List, get, put, ◌==◌,
  Bool-cases, ok, raise_if-ok, ok_injective, arith,
}
use poctamat_back.Settings.{Settings}
use poctamat_back.Booking.{deposit, Booking}
use poctamat_back.Booking.Codes.{issue_code}
use poctamat_back.Booking.Service.{record_event}
use poctamat_back.Booking.Service.Calls.{Call, perform, Change, Edit, Edit-Change, event-Change}
use poctamat_back.Booking.Service.Routine.{is_routine}
use poctamat_back.Identity.{Client}
use poctamat_back.Store.{Store, booking_key}
use poctamat_back.Mobile.{own_or_raise, own_booking}
use poctamat_back.Mobile.Codes.{
  with_courier, deposit_reissued, pickup_issued, pickup_reissued, transferred,
}

-- The routes that change a booking, with the readings of the clocks and the drawn digits.
pub data Route : Type 0 where
  cancel_route : Option String → Route
  extend_route : ℕ → Route
  deposit_route : ℕ → ℕ → ℕ → ℕ → Option String → String → Route
  pickup_route : ℕ → ℕ → ℕ → ℕ → ℕ → String → Route
  transfer_route : ℕ → ℕ → String → Option String → String → Route

-- The booking was changed by the booking service, or kept its status.
abbrev pub IsHandled : (String → String) → Settings → Booking → Booking → Type 0
IsHandled hash_pin s b b' =
    ((c : Call) × (is_routine c ≡ true) × (perform hash_pin s c b ≡ ok b'))
    ⊎ (Change b b' × (b'.status ≡ b.status))

-- One booking of the caller was changed, and nothing else but the notices.
pub record Served (hash_pin : String → String) (s : Settings) (client : Client) (id : ℕ)
    (st st' : Store) : Type 0 where
  pub before : Booking
  pub after : Booking
  pub stored : get booking_key id st.bookings ≡ some before
  pub owned : before.client_id ≡ client.id
  pub handled : IsHandled hash_pin s before after
  pub written : st'.bookings ≡ put booking_key after st.bookings
  pub same_payments : st'.payments ≡ st.payments
  pub same_custody : st'.custody ≡ st.custody
  pub same_cells : st'.cells ≡ st.cells
  pub same_audits : st'.audits ≡ st.audits

pub own_booking-ok :
    (client : Client) (id : ℕ) (rows : List Booking) (b : Booking)
    → own_booking client id rows ≡ ok b
    → (get booking_key id rows ≡ some b) × (b.client_id ≡ client.id)
unfolding own_booking
own_booking-ok client id rows b e = go (get booking_key id rows) refl e
  where
    go :
        (o : Option Booking)
        → get booking_key id rows ≡ o
        → own_or_raise client.id o ≡ ok b
        → (get booking_key id rows ≡ some b) × (b.client_id ≡ client.id)
    go none f h = cc
    go (some x) f h =
        let (mine, same) = raise_if-ok (not (x.client_id == client.id)) _ _ _ h in
        let x_b = ok_injective same in
        (f ∙ ap some x_b, subst (λ y. y.client_id ≡ client.id) x_b (ground (arith, mine)))

with_courier-Edit : (phone : Option String) (b : Booking) → Edit b (with_courier phone b)
with_courier-Edit none b = ground arith
with_courier-Edit (some phone) b = elim (Bool-cases (str_eq phone "")) [
  | inl empty ↦ rw empty (ground arith)
  | inr given ↦ rw given (ground arith)
]

module _ (hash_pin : String → String) (s : Settings) where
  pub deposit_reissued-Change :
      (now : ℕ) (phone : Option String) (code : String) (b : Booking)
      → Change b (deposit_reissued hash_pin s now phone code b)
        × ((deposit_reissued hash_pin s now phone code b).status ≡ b.status)
  unfolding issue_code record_event
  deposit_reissued-Change now phone code b =
      let d = with_courier-Edit phone b in
      let granted = issue_code hash_pin s (with_courier phone b) deposit code now in
      let edit : Edit b granted = record {
        same_id = d.same_id;
        same_client = d.same_client;
        same_postamat = d.same_postamat;
        same_cell = d.same_cell;
        same_status = d.same_status;
        same_events = d.same_events;
      } in
      (
        event-Change b granted b.status _ _ _ (Edit-Change b granted edit) d.same_status,
        d.same_status,
      )

  pub pickup_reissued-Change :
      (now sent : ℕ) (code : String) (b : Booking)
      → Change b (pickup_reissued hash_pin s now sent code b)
        × ((pickup_reissued hash_pin s now sent code b).status ≡ b.status)
  unfolding issue_code record_event
  pickup_reissued-Change now sent code b =
      let granted = pickup_issued hash_pin s now sent code b in
      (event-Change b granted b.status _ _ _ (Edit-Change b granted (ground arith)) refl, refl)

  pub transferred-Change :
      (now sent : ℕ) (phone : String) (name : Option String) (code : String) (b : Booking)
      → Change b (transferred hash_pin s now sent phone name code b)
        × ((transferred hash_pin s now sent phone name code b).status ≡ b.status)
  unfolding issue_code record_event
  transferred-Change now sent phone name code b =
      let granted =
        pickup_issued hash_pin s now sent code
          (record b { recipient_phone = phone; recipient_name = name }) in
      (event-Change b granted b.status _ _ _ (Edit-Change b granted (ground arith)) refl, refl)
