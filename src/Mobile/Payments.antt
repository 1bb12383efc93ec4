-- ===== src/Mobile/Payments.antt =====
-- The payment routes of the mobile API, backend/app/api/mobile/payments.py, and the callback of
-- backend/app/api/webhooks/payments.py.
use Prim.Native.String.{String}
use package.text.Mathlib.Text.{◌==◌ as str_eq}
use poctamat_back.Common.{
  ℕ, not, ◌&&◌, Option, List, ◌==◌, get, Result, ok, ◌>>=◌, ◌>>◌, raise_if, or_raise, not_found,
  callback_signature_invalid,
}
use poctamat_back.Settings.{Settings}
use poctamat_back.Identity.{Client}
use poctamat_back.Payments.{bank_codes, has_text, Payment, PaymentProvider, WebhookEvent}
use poctamat_back.Payments.Service.{start_payment, cancel_payment, settle, save_payment}
use poctamat_back.Store.{Store, payment_key}
use poctamat_back.Mobile.{own_booking}

-- `_own_payment`.
unfoldable pub own_payment : Client → ℕ → List Payment → Result Payment
own_payment client payment_id payments = do
  p ← or_raise (get payment_key payment_id payments) not_found 404
  raise_if (not (p.client_id == client.id)) not_found 404
  ok p

unfoldable pub start_payment_route :
    Settings
    → PaymentProvider
    → ℕ
    → ℕ
    → ℕ
    → Client
    → ℕ
    → String
    → Option String
    → Store
    → Result (Store × Payment)
start_payment_route s provider id now later client booking_id bank_code return_url st = do
  b ← own_booking client booking_id st.bookings
  (rows, p) ← start_payment s provider id b client.id bank_code return_url now later st.payments
  ok (record st { payments = rows }, p)

unfoldable pub cancel_payment_route : ℕ → Client → ℕ → Store → Result (Store × Payment)
cancel_payment_route now client payment_id st = do
  p ← own_payment client payment_id st.payments
  p' ← cancel_payment now p
  ok (save_payment p' st, p')

-- `payment_callback`: `parsed` is what the provider reads out of the request, none if it refuses it.
unfoldable pub payment_callback :
    PaymentProvider → ℕ → ℕ → String → Option WebhookEvent → Store → Result (Store × Payment)
payment_callback handler now later name parsed st = do
  raise_if (not (str_eq name handler.name) && not (has_text name bank_codes)) not_found 404
  event ← or_raise parsed callback_signature_invalid 400
  settle now later event st
