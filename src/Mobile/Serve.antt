-- ===== src/Mobile/Serve.antt =====
-- The routes of the mobile API change one booking of their caller, or nothing.
use Prim.Native.String.{String}
use package.text.Mathlib.Text.{◌==◌ as str_eq}
use poctamat_back.Common.{
  ℕ, ◌≡◌, refl, subst, ◌∙◌, ◌⊎◌, inl, inr, true, not, Option, none, some, is_some, error_of,
  AppError, Result, ok, err, >>=-eq-ok, raise_if-ok, ok_injective, or_text,
}
use poctamat_back.Settings.{Settings}
use poctamat_back.Booking.{deposit, pickup, Booking, BookingStatus, CodePurpose}
use poctamat_back.Booking.Machine.{same_status}
use poctamat_back.Booking.Service.{extend_hold, cancel}
use poctamat_back.Booking.Service.Calls.{cancels, extends, perform}
use poctamat_back.Payments.Service.{save_booking}
use poctamat_back.Identity.{Client}
use poctamat_back.KeyValue.{KeyValueStore}
use poctamat_back.Store.{Store}
use poctamat_back.Mobile.{
  Desk, is_cancellable, own_booking, send_code, cancel_booking, extend_own_hold,
}
use poctamat_back.Mobile.Codes.{
  deposit_open, pickup_open, transferred, answer_rotation, rotate_deposit, rotate_deposit_code,
  rotate_pickup, rotate_pickup_code, transfer_pickup,
}
use poctamat_back.Mobile.Touched.{
  Route, cancel_route, extend_route, deposit_route, pickup_route, transfer_route, Served, IsHandled,
  own_booking-ok, deposit_reissued-Change, pickup_reissued-Change, transferred-Change,
}

abbrev pub with_store : Desk → Result Store → Desk × Option AppError
with_store desk (err problem) = (desk, some problem)
with_store desk (ok st) = (record desk { store = st }, none)

abbrev pub answered {ℓ} : {A : Type ℓ} → Desk × Result A → Desk × Option AppError
answered (desk, result) = (desk, error_of result)

module _ (hash_pin : String → String) (s : Settings) where
  -- A route, and the error that it answers if any.
  unfoldable pub serve : Client → ℕ → Route → Desk → Desk × Option AppError
  serve client id (cancel_route reason) desk =
      with_store desk (cancel_booking client id reason desk.store)
  serve client id (extend_route now) desk =
      with_store desk (extend_own_hold s client id now desk.store)
  serve client id (deposit_route kv_now kv_put now answer phone code) desk =
      answered (rotate_deposit_code hash_pin s kv_now kv_put now answer client id phone code desk)
  serve client id (pickup_route kv_now kv_put now sent answer code) desk =
      answered (rotate_pickup_code hash_pin s kv_now kv_put now sent answer client id code desk)
  serve client id (transfer_route now sent phone name code) desk =
      with_store desk (transfer_pickup hash_pin s now sent client id phone name code desk.store)

  -- The tables are as they were and the route answers an error, or it served its caller.
  abbrev pub IsServed : Client → ℕ → Store → Desk × Option AppError → Type 0
  IsServed client id st (desk, problem) =
      ((is_some problem ≡ true) × (desk.store ≡ st))
      ⊎ ((problem ≡ none) × Served hash_pin s client id st desk.store)

  saved :
      (client : Client) (id : ℕ) (st : Store) (b b' : Booking)
      → own_booking client id st.bookings ≡ ok b
      → IsHandled hash_pin s b b'
      → Served hash_pin s client id st (save_booking b' st)
  saved client id st b b' e handled =
      let (stored, owned) = own_booking-ok client id st.bookings b e in
      record {
        before = b;
        after = b';
        stored = stored;
        owned = owned;
        handled = handled;
        written = refl;
        same_payments = refl;
        same_custody = refl;
        same_cells = refl;
        same_audits = refl;
      }

  told :
      (client : Client) (id : ℕ) (st : Store) (b b' : Booking) (purpose : CodePurpose)
      (phone : String)
      → own_booking client id st.bookings ≡ ok b
      → IsHandled hash_pin s b b'
      → Served hash_pin s client id st (send_code b' purpose phone (save_booking b' st))
  told client id st b b' purpose phone e handled =
      let (stored, owned) = own_booking-ok client id st.bookings b e in
      record {
        before = b;
        after = b';
        stored = stored;
        owned = owned;
        handled = handled;
        written = refl;
        same_payments = refl;
        same_custody = refl;
        same_cells = refl;
        same_audits = refl;
      }

  cancel-Served :
      (client : Client) (id : ℕ) (reason : Option String) (st st' : Store)
      → cancel_booking client id reason st ≡ ok st'
      → Served hash_pin s client id st st'
  unfolding cancel_booking perform
  cancel-Served client id reason st st' e =
      let (b, own, checks) = >>=-eq-ok (own_booking client id st.bookings) _ e in
      let (_, left) = raise_if-ok (same_status b.status BookingStatus.cancelled) _ _ _ checks in
      let (_, called) = raise_if-ok (not (is_cancellable b.status)) _ _ _ left in
      let (b', done, written) =
        >>=-eq-ok (cancel (or_text reason "Отменено клиентом") (some "client") b) _ called in
      subst (λ (t : Store). Served hash_pin s client id st t) (ok_injective written)
        (saved client id st b b' own
          (inl (cancels (or_text reason "Отменено клиентом") (some "client"), refl, done)))

  extend-Served :
      (client : Client) (id now : ℕ) (st st' : Store)
      → extend_own_hold s client id now st ≡ ok st'
      → Served hash_pin s client id st st'
  unfolding extend_own_hold perform
  extend-Served client id now st st' e =
      let (b, own, called) = >>=-eq-ok (own_booking client id st.bookings) _ e in
      let (b', done, written) = >>=-eq-ok (extend_hold s now b) _ called in
      subst (λ (t : Store). Served hash_pin s client id st t) (ok_injective written)
        (saved client id st b b' own (inl (extends now, refl, done)))

  transfer-Served :
      (now sent : ℕ) (client : Client) (id : ℕ) (phone : String) (name : Option String)
      (code : String) (st st' : Store)
      → transfer_pickup hash_pin s now sent client id phone name code st ≡ ok st'
      → Served hash_pin s client id st st'
  unfolding transfer_pickup
  transfer-Served now sent client id phone name code st st' e =
      let (b, own, checks) = >>=-eq-ok (own_booking client id st.bookings) _ e in
      let (_, sent_once) = raise_if-ok (is_some b.collected_at) _ _ _ checks in
      let (_, other) = raise_if-ok (not (is_some b.pickup_code_sent_at)) _ _ _ sent_once in
      let (_, written) = raise_if-ok (str_eq phone b.recipient_phone) _ _ _ other in
      let b' = transferred hash_pin s now sent phone name code b in
      subst (λ (t : Store). Served hash_pin s client id st t) (ok_injective written)
        (told client id st b b' pickup b'.recipient_phone own
          (inr (transferred-Change hash_pin s now sent phone name code b)))

  with_store-IsServed :
      (client : Client) (id : ℕ) (desk : Desk) (r : Result Store)
      → ((st' : Store) → r ≡ ok st' → Served hash_pin s client id desk.store st')
      → IsServed client id desk.store (with_store desk r)
  with_store-IsServed client id desk (err problem) f = inl (refl, refl)
  with_store-IsServed client id desk (ok st) f = inr (refl, f st refl)

  answer-IsServed :
      (client : Client) (id : ℕ) (desk : Desk) (b b' : Booking) (purpose : CodePurpose)
      (phone code : String) (answer : ℕ) (guard : KeyValueStore × Result ℕ)
      → own_booking client id desk.store.bookings ≡ ok b
      → IsHandled hash_pin s b b'
      → IsServed client id desk.store
          (answered (answer_rotation hash_pin s desk b' purpose phone code answer guard))
  answer-IsServed client id desk b b' purpose phone code answer (kv, err problem) own handled =
      inl (refl, refl)
  answer-IsServed client id desk b b' purpose phone code answer (kv, ok n) own handled =
      inr (refl, told client id desk.store b b' purpose phone own handled)

  deposit-IsServed :
      (kv_now kv_put now answer : ℕ) (client : Client) (id : ℕ) (phone : Option String)
      (code : String) (desk : Desk) (r : Result Booking)
      → deposit_open client id desk.store.bookings ≡ r
      → IsServed client id desk.store
          (answered (rotate_deposit hash_pin s kv_now kv_put now answer client phone code desk r))
  deposit-IsServed kv_now kv_put now answer client id phone code desk (err problem) e =
      inl (refl, refl)
  deposit-IsServed kv_now kv_put now answer client id phone code desk (ok b) e =
      let (x, own, checks) = >>=-eq-ok (own_booking client id desk.store.bookings) _ e in
      let (_, left) = raise_if-ok (is_some x.deposited_at) _ _ _ checks in
      let (_, same) = raise_if-ok (not (is_cancellable x.status)) _ _ _ left in
      answer-IsServed client id desk b _ deposit _ code answer _ (own ∙ same)
        (inr (deposit_reissued-Change hash_pin s now phone code b))

  pickup-IsServed :
      (kv_now kv_put now sent answer : ℕ) (client : Client) (id : ℕ) (code : String) (desk : Desk)
      (r : Result Booking)
      → pickup_open client id desk.store.bookings ≡ r
      → IsServed client id desk.store
          (answered (rotate_pickup hash_pin s kv_now kv_put now sent answer code desk r))
  pickup-IsServed kv_now kv_put now sent answer client id code desk (err problem) e =
      inl (refl, refl)
  pickup-IsServed kv_now kv_put now sent answer client id code desk (ok b) e =
      let (x, own, checks) = >>=-eq-ok (own_booking client id desk.store.bookings) _ e in
      let (_, left) = raise_if-ok (not (is_some x.pickup_code_sent_at)) _ _ _ checks in
      let (_, same) = raise_if-ok (is_some x.collected_at) _ _ _ left in
      answer-IsServed client id desk b _ pickup _ code answer _ (own ∙ same)
        (inr (pickup_reissued-Change hash_pin s now sent code b))

  -- A route of the mobile API that cancels a booking, extends its hold, issues a code again or
  -- passes the pickup on either answers an error and leaves every table as it was, or answers none
  -- and changes one stored booking that belongs to its caller, by a call of the booking service or
  -- without moving its status; payments, custody, cells and the audit log stay as they were.
  pub serve-IsServed :
      (client : Client) (id : ℕ) (route : Route) (desk : Desk)
      → IsServed client id desk.store (serve client id route desk)
  unfolding serve rotate_deposit_code rotate_pickup_code
  serve-IsServed client id (cancel_route reason) desk =
      with_store-IsServed client id desk _ (cancel-Served client id reason desk.store)
  serve-IsServed client id (extend_route now) desk =
      with_store-IsServed client id desk _ (extend-Served client id now desk.store)
  serve-IsServed client id (deposit_route kv_now kv_put now answer phone code) desk =
      deposit-IsServed kv_now kv_put now answer client id phone code desk _ refl
  serve-IsServed client id (pickup_route kv_now kv_put now sent answer code) desk =
      pickup-IsServed kv_now kv_put now sent answer client id code desk _ refl
  serve-IsServed client id (transfer_route now sent phone name code) desk =
      with_store-IsServed client id desk _
        (transfer-Served now sent client id phone name code desk.store)
