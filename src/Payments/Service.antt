-- ===== src/Payments/Service.antt =====
-- backend/app/modules/payments/service.py: opening, cancelling and settling a payment.
use Prim.Native.String.{String}
use text.Mathlib.Text.{◌==◌ as str_eq}
use poctamat_back.Common.{
  ℕ, ◌+◌, Bool, true, false, not, ◌&&◌, Option, none, some, List, [], ◌∷◌, ◌++◌, first, leb, ◌==◌,
  if◌then◌else◌, or_text, is_some, get, put, Result, ok, ◌>>=◌, ◌>>◌, raise_if, or_raise,
  bank_not_supported, booking_already_cancelled, booking_already_paid, booking_hold_expired,
  payment_already_exists, payment_not_cancellable, not_found, amount_mismatch, internal_error, ◌||◌,
}
use poctamat_back.Settings.{Settings, minutes}
use poctamat_back.Catalog.Cells.{cell_number}
use poctamat_back.Booking.{BookingStatus, pending_payment, Booking}
use poctamat_back.Booking.Machine.{same_status}
use poctamat_back.Booking.Service.{mark_paid, fail_payment}
use poctamat_back.Audit.{AuditEntry, Severity, Source, payment_and_amount, log}
use poctamat_back.Notify.{NotificationKind, in_app, add_notice}
use poctamat_back.Payments.{
  PaymentStatus, is_live, bank_codes, has_text, Payment, WebhookEvent, PaymentProvider,
}
use poctamat_back.Store.{Store, booking_key, payment_key}

-- `hold_expires_at is not None and hold_expires_at <= utcnow()`
abbrev pub hold_ran_out : Option ℕ → ℕ → Bool
hold_ran_out none now = false
hold_ran_out (some until) now = leb until now

abbrev pub is_empty : List String → Bool
is_empty [] = true
is_empty (x ∷ xs) = false

abbrev pub live_for : ℕ → Payment → Bool
live_for booking_id p = p.booking_id == booking_id && is_live p.status

-- The refusals of `start_payment`, in their order.
unfoldable pub check_start : Settings → List Payment → Booking → String → ℕ → Result (Unit {0})
check_start s payments b bank_code now = do
  raise_if (not (has_text bank_code bank_codes)) bank_not_supported 422
  raise_if (not (is_empty s.supported_banks) && not (has_text bank_code s.supported_banks))
      bank_not_supported 422
  raise_if (same_status b.status BookingStatus.cancelled) booking_already_cancelled 409
  raise_if (is_some b.paid_at) booking_already_paid 409
  raise_if (not (same_status b.status pending_payment)) booking_hold_expired 409
  raise_if (hold_ran_out b.hold_expires_at now) booking_hold_expired 409
  raise_if (is_some (first (live_for b.id) payments)) payment_already_exists 409

-- The row, with what the provider answered.
unfoldable pub opened :
    Settings → PaymentProvider → ℕ → Booking → ℕ → String → Option String → ℕ → Payment
opened s provider id b client_id bank_code return_url now =
    let started =
      provider.start id b.amount_minor b.currency (or_text return_url s.payment_return_url) in
    record {
      id = id;
      booking_id = b.id;
      client_id = client_id;
      provider = provider.name;
      provider_payment_id = some started.provider_payment_id;
      amount_minor = b.amount_minor;
      currency = b.currency;
      status = PaymentStatus.pending;
      bank_code = some bank_code;
      redirect_url = some started.redirect_url;
      expires_at = some (now + minutes s.payment_session_minutes);
      settled_at = none;
      failure_reason = none;
    }

-- `unique=True` on `provider_payment_id`: another row has this id of the provider. A row without an
-- id never clashes.
abbrev pub has_ref : String → Option String → Bool
has_ref given none = false
has_ref given (some known) = str_eq known given

abbrev pub ref_taken : Option String → ℕ → List Payment → Bool
ref_taken none id rows = false
ref_taken (some given) id [] = false
ref_taken (some given) id (q ∷ rows) =
    not (q.id == id) && has_ref given q.provider_payment_id || ref_taken (some given) id rows

-- `now` is read for the hold, `later` for the session's end. A clash at the commit answers 500 and
-- leaves the table as it was.
unfoldable pub start_payment :
    Settings
    → PaymentProvider
    → ℕ
    → Booking
    → ℕ
    → String
    → Option String
    → ℕ
    → ℕ
    → List Payment
    → Result (List Payment × Payment)
start_payment s provider id b client_id bank_code return_url now later payments = do
  check_start s payments b bank_code now
  let payment = opened s provider id b client_id bank_code return_url later
  raise_if (ref_taken payment.provider_payment_id id payments) internal_error 500
  ok (payments ++ payment ∷ [], payment)

abbrev pub is_pending : PaymentStatus → Bool
is_pending PaymentStatus.pending = true
is_pending _ = false

unfoldable pub cancel_payment : ℕ → Payment → Result Payment
cancel_payment now p = do
  raise_if (not (is_pending p.status)) payment_not_cancellable 409
  ok (record p { status = PaymentStatus.cancelled; settled_at = some now })

-- `event.amount_minor is not None and event.amount_minor != payment.amount_minor`
abbrev pub amount_differs : Option ℕ → ℕ → Bool
amount_differs none amount = false
amount_differs (some received) amount = not (received == amount)

-- `event.provider_payment_id or payment.provider_payment_id`
abbrev pub provider_ref : String → Option String → Option String
provider_ref given known = if str_eq given "" then known else some given

abbrev pub stamped : ℕ → WebhookEvent → Payment → Payment
stamped now event p = record p {
  settled_at = some now;
  provider_payment_id = provider_ref event.provider_payment_id p.provider_payment_id;
}

abbrev pub attention : Payment → AuditEntry
attention p = record {
  event = "payment.needs_attention";
  source = Source.system;
  severity = Severity.warning;
  message = "Оплата поступила по брони, которая уже не активна.";
  actor = none;
  postamat_id = none;
  cell_id = none;
  details = some (payment_and_amount p.id p.booking_id p.amount_minor);
}

abbrev pub save_payment : Payment → Store → Store
save_payment p st = record st { payments = put payment_key p st.payments }

abbrev pub save_booking : Booking → Store → Store
save_booking b st = record st { bookings = put booking_key b st.bookings }

-- The branch of a refused payment, by the booking that is found.
unfoldable pub settle_failure :
    Payment → WebhookEvent → Option Booking → Store → Result (Store × Payment)
settle_failure p event none st = ok (save_payment p st, p)
settle_failure p event (some b) st =
    if same_status b.status pending_payment
    then (do b' ← fail_payment event.reason b; ok (save_booking b' (save_payment p st), p))
    else ok (save_payment p st, p)

-- The branch of a payment that succeeded.
unfoldable pub settle_success : ℕ → Payment → Option Booking → Store → Result (Store × Payment)
settle_success now p none st =
    ok (record (save_payment p st) { audits = log st.audits (attention p) }, p)
settle_success now p (some b) st =
    if same_status b.status pending_payment
    then (do
      b' ← mark_paid now b
      ok (
        record (save_booking b' (save_payment p st)) {
          notices = add_notice st.notices (record {
            client_id = some b.client_id;
            booking_id = some b.id;
            kind = NotificationKind.booking_paid;
            channel = in_app;
            phone = none;
            cell_number = some (cell_number st.cells b.cell_id);
            hours = none;
          });
        },
        p,
      ))
    else ok (record (save_payment p st) { audits = log st.audits (attention p) }, p)

-- `now` is the clock of `settled_at`, `later` that of `mark_paid`. The payment is written with the
-- id of the provider in the one commit that each branch ends with: a clash answers 500, with nothing
-- written.
unfoldable pub settle_live : ℕ → ℕ → WebhookEvent → Payment → Store → Result (Store × Payment)
settle_live now later event p st = do
  raise_if (amount_differs event.amount_minor p.amount_minor) amount_mismatch 400
  raise_if (ref_taken (stamped now event p).provider_payment_id p.id st.payments) internal_error 500
  let found = get booking_key p.booking_id st.bookings
  if event.succeeded
      then settle_success later (record (stamped now event p) { status = PaymentStatus.succeeded })
          found st
      else settle_failure
          (record (stamped now event p) {
            status = PaymentStatus.failed;
            failure_reason = event.reason;
          })
          event found st

unfoldable pub settle : ℕ → ℕ → WebhookEvent → Store → Result (Store × Payment)
settle now later event st = do
  p ← or_raise (get payment_key event.payment_id st.payments) not_found 404
  if is_live p.status then settle_live now later event p st else ok (st, p)
