-- ===== src/Store/Invariant.antt =====
-- What every reachable state of the tables keeps.
use Prim.Native.String.{String}
use poctamat_back.Common.{ℕ, ◌≡◌, refl, sym, subst, inl, inr, some, get, put, ok}
use poctamat_back.Settings.{Settings}
use poctamat_back.Booking.{Booking}
use poctamat_back.Booking.Service.Calls.{Call, perform, perform-Change, removes, closes}
use poctamat_back.Allocation.Exclusive.{put-IsExclusive}
use poctamat_back.Payments.{PaymentProvider}
use poctamat_back.Payments.Opening.{
  start_payment-IsSingleLive, settle-IsSingleLive, cancel_payment-IsSingleLive,
}
use poctamat_back.Payments.Effects.{settle-IsCalled}
use poctamat_back.Custody.Effects.{close-case, close_case-ok}
use poctamat_back.Custody.Traced.{IsTraced, file_removal-ok, file_removal-IsTraced, close-IsTraced}
use package.text.Mathlib.Text.{◌==◌ as str_eq}
use poctamat_back.Booking.{deposit}
use poctamat_back.Identity.{Client}
use poctamat_back.Mobile.{Desk, send_code}
use poctamat_back.Mobile.Create.{BookingCreate, request_of, tell_courier, create_route}
use poctamat_back.Mobile.Create.Priced.{create_route-IsChecked}
use poctamat_back.Mobile.Serve.{serve, IsServed, serve-IsServed}
use poctamat_back.Common.{Option, none, AppError, Bool-cases}
use poctamat_back.Store.{Store, booking_key}
use poctamat_back.Store.Steps.{
  tells, Step, creates, calls, opens, gives_up, settles, books, requests, files, finishes, Reaches,
  stays, goes_on,
}
use poctamat_back.Store.Kept.{
  IsSound, IsSound-IsKept, IsKept-IsSound, put-timelines, stored_as, call-IsKept,
  create_booking-IsKept, called-IsKept, Served-IsKept,
}

module _ (hash_pin : String → String) (s : Settings) where
  -- An operation of the custody procedure, which traces its act in its own way.
  custody-IsSound :
      (st st' : Store) (c : Call) (b b' : Booking)
      → get booking_key b.id st.bookings ≡ some b
      → perform hash_pin s c b ≡ ok b'
      → st'.bookings ≡ put booking_key b' st.bookings
      → st'.payments ≡ st.payments
      → IsTraced st'
      → IsSound st
      → IsSound st'
  custody-IsSound st st' c b b' stored e written payments traced h =
      let change = perform-Change hash_pin s c b b' e in
      record {
        exclusive = rw written (
            put-IsExclusive st.bookings b b' (stored_as hash_pin s st.bookings b b' stored change)
              change h.exclusive);
        single = rw payments h.single;
        traced = traced;
        timelines =
            rw written (put-timelines hash_pin s st.bookings b b' stored change h.timelines);
      }

  -- A route of the mobile API.
  served-IsSound :
      (client : Client) (id : ℕ) (desk : Desk) (r : Desk × Option AppError)
      → IsServed hash_pin s client id desk.store r
      → IsSound desk.store
      → IsSound r.0.store
  served-IsSound client id desk (desk', problem) (inl (_, same)) h = subst IsSound (sym same) h
  served-IsSound client id desk (desk', problem) (inr (_, d)) h =
      IsKept-IsSound desk'.store
        (Served-IsKept hash_pin s client id desk.store desk'.store d (IsSound-IsKept desk.store h))
        (rw d.same_payments h.single)

  told-IsSound :
      (b : Booking) (phone : Option String) (st : Store)
      → IsSound st
      → IsSound (tell_courier b phone st)
  told-IsSound b none st h = h
  told-IsSound b (some phone) st h = elim (Bool-cases (str_eq phone "")) [
    | inl empty ↦ rw empty h
    | inr given ↦
        rw given (IsKept-IsSound (send_code b deposit phone st) (IsSound-IsKept st h) h.single)
  ]

  booked-IsSound :
      (id now later : ℕ) (code digits : String) (client : Client) (p : BookingCreate)
      (desk desk' : Desk) (b : Booking)
      → create_route hash_pin s id now later code client p desk ≡ ok (desk', b, digits)
      → IsSound desk.store
      → IsSound desk'.store
  booked-IsSound id now later code digits client p desk desk' b e h =
      let c = create_route-IsChecked hash_pin s id now later code client p desk desk' b digits e in
      subst (λ (d : Desk). IsSound d.store) (sym c.stored)
        (told-IsSound b b.courier_phone (record desk.store { bookings = c.rows })
          (IsKept-IsSound (record desk.store { bookings = c.rows })
            (create_booking-IsKept hash_pin s desk.store.cells desk.store.bookings c.rows
              desk.store.custody (request_of id client c.postamat p c.tariff) now later code digits
              b c.allocated (IsSound-IsKept desk.store h))
            h.single))

module _ (hash_pin : String → String) (s : Settings) (provider : PaymentProvider) where
  -- Every operation leaves the tables sound: no cell gets a second holder, no booking a second live
  -- payment, no parcel leaves a cell without an act, and the timelines stay whole.
  pub Step-IsSound : (st st' : Store) → Step hash_pin s provider st st' → IsSound st → IsSound st'
  unfolding perform
  Step-IsSound st st' (creates r now later code code' b rows e) h =
      IsKept-IsSound _
        (create_booking-IsKept hash_pin s st.cells st.bookings rows st.custody r now later code
          code' b e (IsSound-IsKept st h))
        h.single
  Step-IsSound st st' (calls c b b' routine stored e) h =
      IsKept-IsSound _
        (call-IsKept hash_pin s st.bookings st.custody c b b' routine stored e
          (IsSound-IsKept st h))
        h.single
  Step-IsSound st st' (opens id client b bank return_url now later p rows e) h =
      IsKept-IsSound _ (IsSound-IsKept st h)
        (start_payment-IsSingleLive s provider id b client bank return_url now later st.payments
          rows p e h.single).0
  Step-IsSound st st' (gives_up now p p' stored e) h =
      IsKept-IsSound _ (IsSound-IsKept st h)
        (cancel_payment-IsSingleLive now p p' st.payments e stored h.single)
  Step-IsSound st _ (settles now later event st' p e) h =
      IsKept-IsSound st'
        (called-IsKept hash_pin s st st' (settle-IsCalled hash_pin s now later event st st' p e)
          (IsSound-IsKept st h))
        (settle-IsSingleLive now later event st st' p e h.single)
  Step-IsSound st _ (books id now later code digits client p desk desk' b st' before after e) h =
      subst IsSound after (
        booked-IsSound hash_pin s id now later code digits client p desk desk' b e
          (subst IsSound (sym before) h))
  Step-IsSound st _ (requests client id route desk st' before after) h = subst IsSound after (
      served-IsSound hash_pin s client id desk (serve hash_pin s client id route desk)
        (serve-IsServed hash_pin s client id route desk) (subst IsSound (sym before) h))
  Step-IsSound st _ (tells n) h = IsKept-IsSound _ (IsSound-IsKept st h) h.single
  Step-IsSound st _ (files now id b number admin reason text st' r stored e) h =
      let (b', taken, written) = file_removal-ok s now id b number admin reason text st st' r e in
      custody-IsSound hash_pin s st st' removes b b' stored taken (rw written refl)
        (rw written refl)
        (file_removal-IsTraced s now id b number admin reason text st st' r e h.traced) h
  Step-IsSound st _ (finishes c now later r r' b admin st' found stored e) h =
      let (b', closing, _, written) =
        close_case-ok _ _ b st st' r' (close-case c now later r b admin st _ e) in
      custody-IsSound hash_pin s st st' closes b b' stored closing (rw written refl)
        (rw written refl) (close-IsTraced c now later r r' b admin st st' e found stored h.traced) h

  -- From sound tables, any number of committed operations leads to sound tables: no cell has two
  -- holders, no booking has two live payments, every parcel that staff took out has an act, and the
  -- events of every booking are numbered, follow the machine and end at its status. The operations
  -- are creating a booking, by the service or by the mobile route, each call of the booking service
  -- but the two of custody, the routes of the mobile API on a booking, opening, cancelling and
  -- settling a payment, filing a removal, closing a case, and recording a notification.
  pub Reaches-IsSound :
      (st st' : Store) → Reaches hash_pin s provider st st' → IsSound st → IsSound st'
  Reaches-IsSound st st' stays h = h
  Reaches-IsSound st _ (goes_on mid st' before last) h =
      Step-IsSound mid st' last (Reaches-IsSound st mid before h)
