-- ===== src/Payments/Effects.antt =====
-- A callback changes the booking only by calls of the booking service.
use Prim.Native.String.{String}
use poctamat_back.Common.{
  ℕ, ◌≡◌, refl, sym, subst, ◌⊎◌, inl, inr, true, false, Option, none, some, get, put, get-Has,
  Bool-cases, ok, >>=-eq-ok, ok_injective,
}
use poctamat_back.Settings.{Settings}
use poctamat_back.Booking.{Booking, pending_payment}
use poctamat_back.Booking.Machine.{same_status}
use poctamat_back.Booking.Service.{mark_paid, fail_payment}
use poctamat_back.Booking.Service.Calls.{Call, pays, fails, perform}
use poctamat_back.Booking.Service.Routine.{is_routine}
use poctamat_back.Payments.{Payment, WebhookEvent, is_live}
use poctamat_back.Payments.Service.{settle, settle_success, settle_failure}
use poctamat_back.Payments.Settling.{settle-payment, settle_live-branches, branches}
use poctamat_back.Store.{Store, booking_key}

-- The bookings were not written, or one row was, by a call that is not of the custody procedure.
abbrev pub IsCalled : (String → String) → Settings → Store → Store → Type 0
IsCalled hash_pin s st st' =
    (st'.custody ≡ st.custody)
    × (st'.cells ≡ st.cells)
    × ((st'.bookings ≡ st.bookings)
        ⊎ ((c : Call) × (b : Booking) × (b' : Booking) × (is_routine c ≡ true)
            × (get booking_key b.id st.bookings ≡ some b)
            × (perform hash_pin s c b ≡ ok b')
            × (st'.bookings ≡ put booking_key b' st.bookings)))

module _ (hash_pin : String → String) (s : Settings) where
  settle_success-IsCalled :
      (later : ℕ) (q p' : Payment) (found : Option Booking) (st st' : Store)
      → settle_success later q found st ≡ ok (st', p')
      → ((b : Booking) → found ≡ some b → get booking_key b.id st.bookings ≡ some b)
      → IsCalled hash_pin s st st'
  unfolding settle_success perform
  settle_success-IsCalled later q p' none st st' e stored =
      subst (λ (x : Store × Payment). IsCalled hash_pin s st x.0) (ok_injective e)
        (refl, refl, inl refl)
  settle_success-IsCalled later q p' (some b) st st' e stored =
      elim (Bool-cases (same_status b.status pending_payment)) [
        | inl pending ↦
            let (b', done, rest) = >>=-eq-ok (mark_paid later b) _ (rw pending at e) in
            subst (λ (x : Store × Payment). IsCalled hash_pin s st x.0) (ok_injective rest)
              (refl, refl, inr (pays later, b, b', refl, stored b refl, done, refl))
        | inr other ↦
            subst (λ (x : Store × Payment). IsCalled hash_pin s st x.0)
              (ok_injective (rw other at e)) (refl, refl, inl refl)
      ]

  settle_failure-IsCalled :
      (q p' : Payment) (event : WebhookEvent) (found : Option Booking) (st st' : Store)
      → settle_failure q event found st ≡ ok (st', p')
      → ((b : Booking) → found ≡ some b → get booking_key b.id st.bookings ≡ some b)
      → IsCalled hash_pin s st st'
  unfolding settle_failure perform
  settle_failure-IsCalled q p' event none st st' e stored =
      subst (λ (x : Store × Payment). IsCalled hash_pin s st x.0) (ok_injective e)
        (refl, refl, inl refl)
  settle_failure-IsCalled q p' event (some b) st st' e stored =
      elim (Bool-cases (same_status b.status pending_payment)) [
        | inl pending ↦
            let (b', done, rest) = >>=-eq-ok (fail_payment event.reason b) _ (rw pending at e) in
            subst (λ (x : Store × Payment). IsCalled hash_pin s st x.0) (ok_injective rest)
              (refl, refl, inr (fails event.reason, b, b', refl, stored b refl, done, refl))
        | inr other ↦
            subst (λ (x : Store × Payment). IsCalled hash_pin s st x.0)
              (ok_injective (rw other at e)) (refl, refl, inl refl)
      ]

  branches-IsCalled :
      (now later : ℕ) (event : WebhookEvent) (p p' : Payment) (st st' : Store)
      → branches now later event p st ≡ ok (st', p')
      → IsCalled hash_pin s st st'
  unfolding branches
  branches-IsCalled now later event p p' st st' e =
      let stored : (b : Booking)
          → get booking_key p.booking_id st.bookings ≡ some b
          → get booking_key b.id st.bookings ≡ some b =
        λ b f.
          subst (λ k. get booking_key k st.bookings ≡ some b)
            (sym (get-Has booking_key p.booking_id b st.bookings f).1) f in
      elim (Bool-cases event.succeeded) [
        | inl success ↦ settle_success-IsCalled later _ p' _ st st' (rw success at e) stored
        | inr failure ↦
            settle_failure-IsCalled _ p' (record event { succeeded = false })
              (get booking_key p.booking_id st.bookings) st st' (rw failure at e) stored
      ]

  pub settle-IsCalled :
      (now later : ℕ) (event : WebhookEvent) (st st' : Store) (p' : Payment)
      → settle now later event st ≡ ok (st', p')
      → IsCalled hash_pin s st st'
  settle-IsCalled now later event st st' p' e =
      let (p, found, rest) = settle-payment now later event st st' p' e in
      elim (Bool-cases (is_live p.status)) [
        | inl live ↦
            branches-IsCalled now later event p p' st st'
              (settle_live-branches now later event p p' st st' (rw live at rest)).1
        | inr over ↦
            subst (λ (x : Store × Payment). IsCalled hash_pin s st x.0)
              (ok_injective (rw over at rest)) (refl, refl, inl refl)
      ]
