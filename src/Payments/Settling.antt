-- ===== src/Payments/Settling.antt =====
-- What a provider's callback does: once, and only to the payment and the booking that it names.
use poctamat_back.Common.{
  ℕ, ◌≡◌, refl, sym, subst, ap, ◌∙◌, ◌⊎◌, inl, inr, false, Option, none, some, get, put, get-put,
  get-Has, Bool-cases, arith, Result, ok, >>=-eq-ok, or_raise, or_raise-ok, ok_injective,
  raise_if-ok, not_found, if◌then◌else◌,
}
use poctamat_back.Booking.{Booking}
use poctamat_back.Payments.{PaymentStatus, is_live, Payment, WebhookEvent}
use poctamat_back.Payments.Service.{
  settle, settle_live, settle_success, settle_failure, amount_differs, stamped,
}
use poctamat_back.Store.{Store, booking_key, payment_key}

-- Whatever becomes of the booking, a live payment is written back with the outcome's status.
settle_failure-payments :
    (q p' : Payment) (event : WebhookEvent) (found : Option Booking) (st st' : Store)
    → settle_failure q event found st ≡ ok (st', p')
    → (st'.payments ≡ put payment_key p' st.payments) × (p' ≡ q)
unfolding settle_failure
settle_failure-payments q p' event none st st' e = (ground arith, ground arith)
settle_failure-payments q p' event (some b) st st' e = (ground arith, ground arith)

settle_success-payments :
    (now : ℕ) (q p' : Payment) (found : Option Booking) (st st' : Store)
    → settle_success now q found st ≡ ok (st', p')
    → (st'.payments ≡ put payment_key p' st.payments) × (p' ≡ q)
unfolding settle_success
settle_success-payments now q p' none st st' e = (ground arith, ground arith)
settle_success-payments now q p' (some b) st st' e = (ground arith, ground arith)

-- What is left of `settle_live` once the amounts agree.
unfoldable pub branches : ℕ → ℕ → WebhookEvent → Payment → Store → Result (Store × Payment)
branches now later event p st =
    let found = get booking_key p.booking_id st.bookings in
    if event.succeeded
    then settle_success later (record (stamped now event p) { status = PaymentStatus.succeeded })
        found st
    else settle_failure
        (record (stamped now event p) {
          status = PaymentStatus.failed;
          failure_reason = event.reason;
        })
        event found st

pub settle_live-branches :
    (now later : ℕ) (event : WebhookEvent) (p p' : Payment) (st st' : Store)
    → settle_live now later event p st ≡ ok (st', p')
    → (amount_differs event.amount_minor p.amount_minor ≡ false)
      × (branches now later event p st ≡ ok (st', p'))
unfolding settle_live branches
settle_live-branches now later event p p' st st' e =
    let (same, free) = raise_if-ok (amount_differs event.amount_minor p.amount_minor) _ _ _ e in
    (same, (raise_if-ok _ _ _ _ free).1)

-- The payment as a live payment's callback leaves it.
unfoldable pub settled : ℕ → WebhookEvent → Payment → Payment
settled now event p =
    if event.succeeded
    then record (stamped now event p) { status = PaymentStatus.succeeded }
    else record (stamped now event p) {
      status = PaymentStatus.failed;
      failure_reason = event.reason;
    }

settle_live-payments :
    (now later : ℕ) (event : WebhookEvent) (p p' : Payment) (st st' : Store)
    → settle_live now later event p st ≡ ok (st', p')
    → (st'.payments ≡ put payment_key p' st.payments) × (p' ≡ settled now event p)
unfolding branches settled
settle_live-payments now later event p p' st st' e =
    let (_, h) = settle_live-branches now later event p p' st st' e in
    elim (Bool-cases event.succeeded) [
      | inl success ↦ rw success (settle_success-payments later _ p' _ st st' (rw success at h))
      | inr failure ↦ rw failure (
          settle_failure-payments _ p' (record event { succeeded = false })
            (get booking_key p.booking_id st.bookings) st st' (rw failure at h))
    ]

settled-id : (now : ℕ) (event : WebhookEvent) (p : Payment) → (settled now event p).id ≡ p.id
unfolding settled
settled-id now event p = elim (Bool-cases event.succeeded) [
  | inl success ↦ rw success refl
  | inr failure ↦ rw failure refl
]

settled-is_live :
    (now : ℕ) (event : WebhookEvent) (p : Payment) → is_live (settled now event p).status ≡ false
unfolding settled
settled-is_live now event p = elim (Bool-cases event.succeeded) [
  | inl success ↦ rw success refl
  | inr failure ↦ rw failure refl
]

pub settle-payment :
    (now later : ℕ) (event : WebhookEvent) (st st' : Store) (p' : Payment)
    → settle now later event st ≡ ok (st', p')
    → (p : Payment) × (get payment_key event.payment_id st.payments ≡ some p)
      × (if is_live p.status then settle_live now later event p st else ok (st, p)) ≡ ok (st', p')
unfolding settle
settle-payment now later event st st' p' e =
    let (p, found, rest) =
      >>=-eq-ok (or_raise (get payment_key event.payment_id st.payments) not_found 404) _ e in
    (p, or_raise-ok _ _ _ found, rest)

-- The payments after a callback: as they were, the named one being settled already, or with the
-- row of that payment rewritten to its final status.
pub settle-rows :
    (now later : ℕ) (event : WebhookEvent) (st st' : Store) (p' : Payment)
    → settle now later event st ≡ ok (st', p')
    → (p : Payment) × (get payment_key event.payment_id st.payments ≡ some p)
      × (p'.id ≡ event.payment_id)
      × (is_live p'.status ≡ false)
      × ((st'.payments ≡ put payment_key p' st.payments) ⊎ ((st' ≡ st) × (p' ≡ p)))
settle-rows now later event st st' p' e =
    let (p, found, rest) = settle-payment now later event st st' p' e in
    let key = (get-Has payment_key event.payment_id p st.payments found).1 in
    elim (Bool-cases (is_live p.status)) [
      | inl live ↦
          let (written, same) =
            settle_live-payments now later event p p' st st' (rw live at rest) in
          (
            p,
            found,
            ap payment_key same ∙ settled-id now event p ∙ key,
            rw same (settled-is_live now event p),
            inl written,
          )
      | inr over ↦
          let stay = ok_injective (rw over at rest) in
          let same = ap (λ (r : Store × Payment). r.1) stay in
          (
            p,
            found,
            ap payment_key (sym same) ∙ key,
            subst (λ (q : Payment). is_live q.status ≡ false) same over,
            inr (sym (ap (λ (r : Store × Payment). r.0) stay), sym same),
          )
    ]

-- An accepted callback leaves the payment it names stored as the payment it answers, with a status
-- that is not live.
pub settle-stored :
    (now later : ℕ) (event : WebhookEvent) (st st' : Store) (p' : Payment)
    → settle now later event st ≡ ok (st', p')
    → (get payment_key event.payment_id st'.payments ≡ some p') × (is_live p'.status ≡ false)
settle-stored now later event st st' p' e =
    let (p, found, key, over, rows) = settle-rows now later event st st' p' e in
    elim rows [
      | inl written ↦
          (rw (written, sym key) (get-put payment_key p' p st.payments (rw key found)), over)
      | inr (stay, same) ↦ (rw (stay, same) found, over)
    ]

-- Once a callback was accepted, every later callback for the same payment, whatever it says,
-- changes nothing and answers the payment as the first one left it.
pub settle-again :
    (now later now₂ later₂ : ℕ) (event again : WebhookEvent) (st st' : Store) (p' : Payment)
    → settle now later event st ≡ ok (st', p')
    → again.payment_id ≡ event.payment_id
    → settle now₂ later₂ again st' ≡ ok (st', p')
unfolding settle
settle-again now later now₂ later₂ event again st st' p' e same =
    let (stored, over) = settle-stored now later event st st' p' e in rw (same, stored, over) refl
