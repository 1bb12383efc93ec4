-- ===== src/Store/Steps.antt =====
-- Everything that a request can do to the tables, one committed operation at a time.
use Prim.Native.String.{String}
use poctamat_back.Common.{ℕ, ◌≡◌, true, Option, some, List, get, ok}
use poctamat_back.Settings.{Settings}
use poctamat_back.Booking.{Booking}
use poctamat_back.Booking.Service.Calls.{Call, perform}
use poctamat_back.Booking.Service.Routine.{is_routine}
use poctamat_back.Allocation.{Request, create_booking}
use poctamat_back.Payments.{Payment, PaymentProvider, WebhookEvent}
use poctamat_back.Payments.Service.{
  start_payment, cancel_payment, settle, save_booking, save_payment,
}
use poctamat_back.Custody.{CustodyRecord}
use poctamat_back.Custody.Service.{file_removal}
use poctamat_back.Custody.Effects.{Closing, close}
use poctamat_back.Identity.{Client}
use poctamat_back.Notify.{Notification, add_notice}
use poctamat_back.Mobile.{Desk}
use poctamat_back.Mobile.Create.{BookingCreate, create_route}
use poctamat_back.Mobile.Touched.{Route}
use poctamat_back.Mobile.Serve.{serve}
use poctamat_back.Store.{Store, booking_key, payment_key, custody_key}

module _ (hash_pin : String → String) (s : Settings) (provider : PaymentProvider) where
  pub data Step (st : Store) : Store → Type 0 where
    creates :
        (r : Request) (now later : ℕ) (code code' : String) (b : Booking) (rows : List Booking)
        → create_booking hash_pin s st.cells st.bookings r now later code ≡ ok (rows, b, code')
        → Step st (record st { bookings = rows })
    calls :
        (c : Call) (b b' : Booking)
        → is_routine c ≡ true
        → get booking_key b.id st.bookings ≡ some b
        → perform hash_pin s c b ≡ ok b'
        → Step st (save_booking b' st)
    opens :
        (id client : ℕ) (b : Booking) (bank : String) (return_url : Option String) (now later : ℕ)
        (p : Payment) (rows : List Payment)
        → start_payment s provider id b client bank return_url now later st.payments ≡ ok (rows, p)
        → Step st (record st { payments = rows })
    gives_up :
        (now : ℕ) (p p' : Payment)
        → get payment_key p.id st.payments ≡ some p
        → cancel_payment now p ≡ ok p'
        → Step st (save_payment p' st)
    settles :
        (now later : ℕ) (event : WebhookEvent) (st' : Store) (p : Payment)
        → settle now later event st ≡ ok (st', p)
        → Step st st'
    files :
        (now id : ℕ) (b : Booking) (number : ℕ) (admin reason text : String) (st' : Store)
        (r : CustodyRecord)
        → get booking_key b.id st.bookings ≡ some b
        → file_removal s now id b number admin reason text st ≡ ok (st', r)
        → Step st st'
    books :
        (id now later : ℕ) (code digits : String) (client : Client) (p : BookingCreate)
        (desk desk' : Desk) (b : Booking) (st' : Store)
        → desk.store ≡ st
        → desk'.store ≡ st'
        → create_route hash_pin s id now later code client p desk ≡ ok (desk', b, digits)
        → Step st st'
    requests :
        (client : Client) (id : ℕ) (route : Route) (desk : Desk) (st' : Store)
        → desk.store ≡ st
        → (serve hash_pin s client id route desk).0.store ≡ st'
        → Step st st'
    tells : (n : Notification) → Step st (record st { notices = add_notice st.notices n })
    finishes :
        (c : Closing) (now later : ℕ) (r r' : CustodyRecord) (b : Booking) (admin : String)
        (st' : Store)
        → get custody_key r.id st.custody ≡ some r
        → get booking_key b.id st.bookings ≡ some b
        → close c now later r b admin st ≡ ok (st', r')
        → Step st st'

  -- Any number of operations.
  pub data Reaches (st : Store) : Store → Type 0 where
    stays : Reaches st st
    goes_on : (mid after : Store) → Reaches st mid → Step mid after → Reaches st after
