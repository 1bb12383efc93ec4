-- ===== src/Store/Api/Sound.antt =====
-- Whatever is requested, the tables stay sound: each route takes steps of the relation.
use Prim.Native.String.{String}
use poctamat_back.Common.{
  ℕ, ◌≡◌, refl, sym, ap, subst, ◌∙◌, Bool, false, Option, none, some, List, [], ◌∷◌, Result, ok,
  err, get, get-Has, or_raise, or_raise-ok, raise_if-ok, >>=-eq-ok, ok_injective, not_found, not,
  ◌==◌, callback_signature_invalid,
}
use poctamat_back.Settings.{Settings}
use poctamat_back.Booking.{Booking}
use poctamat_back.Payments.{Payment, PaymentProvider, WebhookEvent}
use poctamat_back.Payments.Service.{start_payment, cancel_payment}
use poctamat_back.Custody.{Outcome, CustodyRecord}
use poctamat_back.Custody.Service.{file_removal, not_due, check_open}
use poctamat_back.Custody.Effects.{Closing, hands_over, disposes, close}
use poctamat_back.Catalog.Cells.{cell_number}
use poctamat_back.Identity.{Client}
use poctamat_back.Store.{Store, booking_key, payment_key, custody_key}
use poctamat_back.Store.Steps.{
  Reaches, stays, goes_on, Step, opens, gives_up, settles, files, tells, finishes, books, requests,
}
use poctamat_back.Store.Kept.{IsSound}
use poctamat_back.Store.Invariant.{Reaches-IsSound}
use poctamat_back.Mobile.{Desk, own_booking}
use poctamat_back.Mobile.Create.{BookingCreate, create_route}
use poctamat_back.Mobile.Payments.{
  own_payment, start_payment_route, cancel_payment_route, payment_callback,
}
use poctamat_back.Admin.Custody.{
  check_reason, booking_of, removed_notice, file_removal_route, hand_over_route, dispose_route,
}
use poctamat_back.Store.Api.{
  Posted, booking, own, payment, payment_cancel, callback, removal, handover, disposal, store_or,
  desk_or, stored_by, respond, respond_all,
}

module _ (hash_pin : String → String) (s : Settings) (provider : PaymentProvider) where
  store_or-Reaches :
      {A : Type 0} (st : Store) (r : Result (Store × A))
      → ((st' : Store) (a : A) → r ≡ ok (st', a) → Reaches hash_pin s provider st st')
      → Reaches hash_pin s provider st (store_or st r)
  store_or-Reaches st (err problem) h = stays
  store_or-Reaches st (ok (st', a)) h = h st' a refl

  one_step : (st st' : Store) → Step hash_pin s provider st st' → Reaches hash_pin s provider st st'
  one_step st st' step = goes_on st st' stays step

  start_payment_route-Reaches :
      (id now later : ℕ) (client : Client) (booking_id : ℕ) (bank : String) (url : Option String)
      (st st' : Store) (p : Payment)
      → start_payment_route s provider id now later client booking_id bank url st ≡ ok (st', p)
      → Reaches hash_pin s provider st st'
  unfolding start_payment_route
  start_payment_route-Reaches id now later client booking_id bank url st st' p e =
      let (b, _, e₁) = >>=-eq-ok (own_booking client booking_id st.bookings) _ e in
      let ((rows, q), opened, e₂) =
        >>=-eq-ok (start_payment s provider id b client.id bank url now later st.payments) _ e₁ in
      subst (Reaches hash_pin s provider st) (ap (λ (r : Store × Payment). r.0) (ok_injective e₂))
        (one_step st _ (opens id client.id b bank url now later q rows opened))

  cancel_payment_route-Reaches :
      (now : ℕ) (client : Client) (id : ℕ) (st st' : Store) (p : Payment)
      → cancel_payment_route now client id st ≡ ok (st', p)
      → Reaches hash_pin s provider st st'
  unfolding cancel_payment_route own_payment
  cancel_payment_route-Reaches now client id st st' p e =
      let (q, mine, e₁) = >>=-eq-ok (own_payment client id st.payments) _ e in
      let (q₁, found, mine₁) =
        >>=-eq-ok (or_raise (get payment_key id st.payments) not_found 404) _ mine in
      let (_, mine₂) = raise_if-ok (not (q₁.client_id == client.id)) _ _ _ mine₁ in
      let same : q₁ ≡ q = ok_injective mine₂ in
      let held : get payment_key id st.payments ≡ some q = or_raise-ok _ _ _ found ∙ ap some same in
      let named = (get-Has payment_key id q st.payments held).1 in
      let (q', cancelled, e₂) = >>=-eq-ok (cancel_payment now q) _ e₁ in
      subst (Reaches hash_pin s provider st) (ap (λ (r : Store × Payment). r.0) (ok_injective e₂)) (
        one_step st _ (
          gives_up now q q' (subst (λ k. get payment_key k st.payments ≡ some q) (sym named) held)
            cancelled))

  payment_callback-Reaches :
      (now later : ℕ) (name : String) (parsed : Option WebhookEvent) (st st' : Store) (p : Payment)
      → payment_callback provider now later name parsed st ≡ ok (st', p)
      → Reaches hash_pin s provider st st'
  unfolding payment_callback
  payment_callback-Reaches now later name parsed st st' p e =
      let (_, e₁) = raise_if-ok _ _ _ _ e in
      let (event, _, e₂) = >>=-eq-ok (or_raise parsed callback_signature_invalid 400) _ e₁ in
      one_step st st' (settles now later event st' p e₂)

  file_removal_route-Reaches :
      (now id : ℕ) (admin : String) (booking_id : ℕ) (reason text : String) (st st' : Store)
      (r : CustodyRecord)
      → file_removal_route s now id admin booking_id reason text st ≡ ok (st', r)
      → Reaches hash_pin s provider st st'
  unfolding file_removal_route
  file_removal_route-Reaches now id admin booking_id reason text st st' r e =
      let (_, _, e₁) = >>=-eq-ok (check_reason reason) _ e in
      let (b, found, e₂) =
        >>=-eq-ok (or_raise (get booking_key booking_id st.bookings) not_found 404) _ e₁ in
      let held = or_raise-ok _ _ _ found in
      let named = (get-Has booking_key booking_id b st.bookings held).1 in
      let ((mid, filed), taken, e₃) =
        >>=-eq-ok (file_removal s now id b (cell_number st.cells b.cell_id) admin reason text st) _
          e₂ in
      subst (Reaches hash_pin s provider st)
        (ap (λ (x : Store × CustodyRecord). x.0) (ok_injective e₃))
        (goes_on mid _
          (one_step st mid (
            files now id b (cell_number st.cells b.cell_id) admin reason text mid filed
              (subst (λ k. get booking_key k st.bookings ≡ some b) (sym named) held) taken))
          (tells (removed_notice b)))

  -- The record and the booking that a closing route has found.
  closing-Reaches :
      (c : Closing) (now later id : ℕ) (r r' : CustodyRecord) (b : Booking) (admin : String)
      (st st' : Store)
      → get custody_key id st.custody ≡ some r
      → get booking_key r.booking_id st.bookings ≡ some b
      → close c now later r b admin st ≡ ok (st', r')
      → Reaches hash_pin s provider st st'
  closing-Reaches c now later id r r' b admin st st' found held e =
      let r_id = (get-Has custody_key id r st.custody found).1 in
      let b_id = (get-Has booking_key r.booking_id b st.bookings held).1 in
      one_step st st' (
        finishes c now later r r' b admin st'
          (subst (λ k. get custody_key k st.custody ≡ some r) (sym r_id) found)
          (subst (λ k. get booking_key k st.bookings ≡ some b) (sym b_id) held) e)

  booking_of-some :
      (r : CustodyRecord) (early : Bool) (o : Option Booking) (b : Booking)
      → booking_of r early o ≡ ok b
      → o ≡ some b
  booking_of-some r early (some x) b e = ap some (ok_injective e)
  booking_of-some r early none b e =
      let (_, _, e₁) = >>=-eq-ok (check_open r) _ e in
      let (_, e₂) = raise_if-ok early _ _ _ e₁ in cc

  hand_over_route-Reaches :
      (now id : ℕ) (admin to_whom : String) (document note : Option String) (st st' : Store)
      (r' : CustodyRecord)
      → hand_over_route now id admin to_whom document note st ≡ ok (st', r')
      → Reaches hash_pin s provider st st'
  unfolding hand_over_route close
  hand_over_route-Reaches now id admin to_whom document note st st' r' e =
      let (r, found, e₁) = >>=-eq-ok (or_raise (get custody_key id st.custody) not_found 404) _ e in
      let (b, held, e₂) =
        >>=-eq-ok (booking_of r false (get booking_key r.booking_id st.bookings)) _ e₁ in
      closing-Reaches (hands_over to_whom document note) now now id r r' b admin st st'
        (or_raise-ok _ _ _ found) (booking_of-some r false _ b held) e₂

  dispose_route-Reaches :
      (now later id : ℕ) (admin : String) (outcome : Outcome) (reason : String) (st st' : Store)
      (r' : CustodyRecord)
      → dispose_route now later id admin outcome reason st ≡ ok (st', r')
      → Reaches hash_pin s provider st st'
  unfolding dispose_route close
  dispose_route-Reaches now later id admin outcome reason st st' r' e =
      let (r, found, e₁) = >>=-eq-ok (or_raise (get custody_key id st.custody) not_found 404) _ e in
      let (_, _, e₂) = >>=-eq-ok (check_reason reason) _ e₁ in
      let (b, held, e₃) =
        >>=-eq-ok
          (booking_of r (not_due r.disposal_due_at now) (get booking_key r.booking_id st.bookings))
          _ e₂ in
      closing-Reaches (disposes outcome reason) now later id r r' b admin st st'
        (or_raise-ok _ _ _ found) (booking_of-some r _ _ b held) e₃

  created-Reaches :
      (id now later : ℕ) (code : String) (client : Client) (p : BookingCreate) (desk : Desk)
      (r : Result (Desk × Booking × String))
      → create_route hash_pin s id now later code client p desk ≡ r
      → Reaches hash_pin s provider desk.store (desk_or desk r).store
  created-Reaches id now later code client p desk (err problem) e = stays
  created-Reaches id now later code client p desk (ok (desk', b, digits)) e =
      one_step desk.store desk'.store
        (books id now later code digits client p desk desk' b desk'.store refl refl e)

  stored_by-Reaches :
      (r : Posted) (st : Store)
      → Reaches hash_pin s provider st (stored_by hash_pin s provider r st)
  stored_by-Reaches (booking id now later code client p) st = stays
  stored_by-Reaches (own client id route) st = stays
  stored_by-Reaches (payment id now later client booking_id bank url) st =
      store_or-Reaches st _ (start_payment_route-Reaches id now later client booking_id bank url st)
  stored_by-Reaches (payment_cancel now client id) st =
      store_or-Reaches st _ (cancel_payment_route-Reaches now client id st)
  stored_by-Reaches (callback now later name parsed) st =
      store_or-Reaches st _ (payment_callback-Reaches now later name parsed st)
  stored_by-Reaches (removal now id admin booking_id reason text) st =
      store_or-Reaches st _ (file_removal_route-Reaches now id admin booking_id reason text st)
  stored_by-Reaches (handover now id admin to_whom document note) st =
      store_or-Reaches st _ (hand_over_route-Reaches now id admin to_whom document note st)
  stored_by-Reaches (disposal now later id admin outcome reason) st =
      store_or-Reaches st _ (dispose_route-Reaches now later id admin outcome reason st)

  pub respond-Reaches :
      (r : Posted) (desk : Desk)
      → Reaches hash_pin s provider desk.store (respond hash_pin s provider r desk).store
  unfolding respond
  respond-Reaches (booking id now later code client p) desk =
      created-Reaches id now later code client p desk _ refl
  respond-Reaches (own client id route) desk =
      one_step desk.store _ (requests client id route desk _ refl refl)
  respond-Reaches (payment id now later client booking_id bank url) desk =
      stored_by-Reaches (payment id now later client booking_id bank url) desk.store
  respond-Reaches (payment_cancel now client id) desk =
      stored_by-Reaches (payment_cancel now client id) desk.store
  respond-Reaches (callback now later name parsed) desk =
      stored_by-Reaches (callback now later name parsed) desk.store
  respond-Reaches (removal now id admin booking_id reason text) desk =
      stored_by-Reaches (removal now id admin booking_id reason text) desk.store
  respond-Reaches (handover now id admin to_whom document note) desk =
      stored_by-Reaches (handover now id admin to_whom document note) desk.store
  respond-Reaches (disposal now later id admin outcome reason) desk =
      stored_by-Reaches (disposal now later id admin outcome reason) desk.store

  -- From sound tables, any sequence of requests, served or refused, leaves sound tables. The
  -- requests are creating a booking, cancelling it, extending its hold, the two rotations and the
  -- transfer of its codes, starting and cancelling a payment, the callback of a provider, and
  -- filing a removal, a hand-over and a disposal.
  pub respond_all-IsSound :
      (rs : List Posted) (desk : Desk)
      → IsSound desk.store
      → IsSound (respond_all hash_pin s provider rs desk).store
  unfolding respond_all
  respond_all-IsSound [] desk h = h
  respond_all-IsSound (r ∷ rs) desk h =
      respond_all-IsSound rs (respond hash_pin s provider r desk)
        (Reaches-IsSound hash_pin s provider desk.store _ (respond-Reaches r desk) h)
