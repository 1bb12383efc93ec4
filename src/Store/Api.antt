-- ===== src/Store/Api.antt =====
-- The writing routes of the HTTP APIs on one state: what a request leaves, whether it is served or
-- refused. A refused request leaves the tables, since its session is not committed.
pub mod Sound
use Prim.Native.String.{String}
use poctamat_back.Common.{
  ℕ, ◌≡◌, refl, sym, ap, subst, ◌∙◌, inl, inr, Option, some, List, [], ◌∷◌, Result, ok, err, get,
  get-Has, or_raise, or_raise-ok, raise_if-ok, >>=-eq-ok, ok_injective, not_found, not, ◌==◌,
  callback_signature_invalid,
}
use poctamat_back.Settings.{Settings}
use poctamat_back.Booking.{Booking}
use poctamat_back.Payments.{Payment, PaymentProvider, WebhookEvent}
use poctamat_back.Payments.Service.{start_payment, cancel_payment, settle}
use poctamat_back.Custody.{Outcome, CustodyRecord}
use poctamat_back.Custody.Service.{file_removal, hand_over, dispose, not_due}
use poctamat_back.Custody.Effects.{hands_over, disposes, close}
use poctamat_back.Catalog.Cells.{cell_number}
use poctamat_back.Identity.{Client}
use poctamat_back.Store.{Store, booking_key, payment_key, custody_key}
use poctamat_back.Store.Steps.{
  Reaches, stays, goes_on, Step, opens, gives_up, settles, files, tells, finishes, books, requests,
}
use poctamat_back.Store.Kept.{IsSound}
use poctamat_back.Store.Invariant.{Reaches-IsSound}
use poctamat_back.Mobile.{Desk, own_booking}
use poctamat_back.Mobile.Create.{BookingCreate, create_route}
use poctamat_back.Mobile.Touched.{Route}
use poctamat_back.Mobile.Serve.{serve}
use poctamat_back.Mobile.Payments.{
  own_payment, start_payment_route, cancel_payment_route, payment_callback,
}
use poctamat_back.Admin.Custody.{
  check_reason, booking_of, removed_notice, file_removal_route, hand_over_route, dispose_route,
}

-- A request, with what its handler draws and the readings of the clock.
pub data Posted : Type 0 where
  booking : ℕ → ℕ → ℕ → String → Client → BookingCreate → Posted
  own : Client → ℕ → Route → Posted
  payment : ℕ → ℕ → ℕ → Client → ℕ → String → Option String → Posted
  payment_cancel : ℕ → Client → ℕ → Posted
  callback : ℕ → ℕ → String → Option WebhookEvent → Posted
  removal : ℕ → ℕ → String → ℕ → String → String → Posted
  handover : ℕ → ℕ → String → String → Option String → Option String → Posted
  disposal : ℕ → ℕ → ℕ → String → Outcome → String → Posted

abbrev pub store_or : {A : Type 0} → Store → Result (Store × A) → Store
store_or st (err problem) = st
store_or st (ok (st', a)) = st'

abbrev pub desk_or : Desk → Result (Desk × Booking × String) → Desk
desk_or desk (err problem) = desk
desk_or desk (ok (desk', b, digits)) = desk'

module _ (hash_pin : String → String) (s : Settings) (provider : PaymentProvider) where
  -- The tables that the routes but the first two leave.
  abbrev pub stored_by : Posted → Store → Store
  stored_by (booking id now later code client p) st = st
  stored_by (own client id route) st = st
  stored_by (payment id now later client booking_id bank url) st =
      store_or st (start_payment_route s provider id now later client booking_id bank url st)
  stored_by (payment_cancel now client id) st = store_or st (cancel_payment_route now client id st)
  stored_by (callback now later name parsed) st =
      store_or st (payment_callback provider now later name parsed st)
  stored_by (removal now id admin booking_id reason text) st =
      store_or st (file_removal_route s now id admin booking_id reason text st)
  stored_by (handover now id admin to_whom document note) st =
      store_or st (hand_over_route now id admin to_whom document note st)
  stored_by (disposal now later id admin outcome reason) st =
      store_or st (dispose_route now later id admin outcome reason st)

  unfoldable pub respond : Posted → Desk → Desk
  respond (booking id now later code client p) desk =
      desk_or desk (create_route hash_pin s id now later code client p desk)
  respond (own client id route) desk = (serve hash_pin s client id route desk).0
  respond request desk = record desk { store = stored_by request desk.store }

  unfoldable pub respond_all : List Posted → Desk → Desk
  respond_all [] desk = desk
  respond_all (r ∷ rs) desk = respond_all rs (respond r desk)
