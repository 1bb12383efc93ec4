-- ===== src/Payments/Outcome.antt =====
-- What a first callback makes of the booking behind the payment, on every branch that finds it.
use Prim.Native.String.{String}
use text.Mathlib.Text.{◌==◌ as str_eq}
use text.Mathlib.TextEquality.{eq_iff}
use poctamat_back.Common.{
  ℕ, ◌≡◌, refl, sym, subst, ◌∙◌, inl, inr, Bool, true, false, not, ◌&&◌, Option, some, List, ◌≢◌,
  get, put, get-put, get-Has, get-put_ne, Bool-cases, arith, ok, if◌then◌else◌, none, [], ◌∷◌, All,
  Has, ap, ◌==◌, ==_iff, raise, internal_error,
}
use poctamat_back.Booking.{
  BookingStatus, pending_payment, awaiting_deposit, payment_failed, Booking,
}
use poctamat_back.Booking.Machine.{same_status, can_transition, assert_transition}
use poctamat_back.Booking.Machine.Order.{same_status-eq}
use poctamat_back.Booking.Service.{mark_paid, fail_payment, move, record_event}
use poctamat_back.Audit.{AuditEntry, log}
use poctamat_back.Payments.{is_live, Payment, WebhookEvent}
use poctamat_back.Payments.Service.{
  settle, settle_live, settle_success, settle_failure, amount_differs, attention, provider_ref,
  has_ref, ref_taken,
}
use poctamat_back.Payments.Settling.{settled}
use poctamat_back.Store.{Store, booking_key, payment_key}

mark_paid-pending :
    (now : ℕ) (b : Booking)
    → b.status ≡ pending_payment
    → (b' : Booking) × (mark_paid now b ≡ ok b')
      × (b'.id ≡ b.id)
      × (b'.status ≡ awaiting_deposit)
      × (b'.paid_at ≡ some now)
unfolding mark_paid move record_event assert_transition can_transition
mark_paid-pending now b pending = rw pending (_, refl, refl, refl, refl)

fail_payment-pending :
    (reason : Option String) (b : Booking)
    → b.status ≡ pending_payment
    → (b' : Booking) × (fail_payment reason b ≡ ok b')
      × (b'.id ≡ b.id)
      × (b'.status ≡ payment_failed)
      × (b'.paid_at ≡ b.paid_at)
unfolding fail_payment move record_event assert_transition can_transition
fail_payment-pending reason b pending = rw pending (_, refl, refl, refl, refl)

-- The status that a callback gives to the booking behind a live payment.
abbrev pub status_after : Bool → BookingStatus → BookingStatus
status_after succeeded pending_payment = if succeeded then awaiting_deposit else payment_failed
status_after succeeded other = other

-- The audit log that it leaves: longer by one where money came for a booking that is not pending.
abbrev pub audits_after : Bool → Payment → BookingStatus → List AuditEntry → List AuditEntry
audits_after succeeded p status entries =
    if succeeded && not (same_status status pending_payment)
    then log entries (attention p)
    else entries

-- The booking of the row `b` has the status that the callback calls for, every other booking is as it
-- was, and so are the cells; the log has grown by just that entry.
unfoldable pub IsOutcome : Bool → Payment → Booking → Store → Store → Type 0
IsOutcome succeeded p b st st' =
    ((b' : Booking) × (get booking_key b.id st'.bookings ≡ some b')
      × (b'.status ≡ status_after succeeded b.status))
    × ((k : ℕ) → k ≢ b.id → get booking_key k st'.bookings ≡ get booking_key k st.bookings)
    × (st'.audits ≡ audits_after succeeded p b.status st.audits)
    × (st'.cells ≡ st.cells)

status_after-other :
    (succeeded : Bool) (status : BookingStatus)
    → same_status status pending_payment ≡ false
    → status ≡ status_after succeeded status
status_after-other succeeded status other = ground arith

put-changed :
    (b b' : Booking) (rows : List Booking)
    → get booking_key b.id rows ≡ some b
    → b'.id ≡ b.id
    → (get booking_key b.id (put booking_key b' rows) ≡ some b')
      × ((k : ℕ) → k ≢ b.id → get booking_key k (put booking_key b' rows) ≡ get booking_key k rows)
put-changed b b' rows found key = (
  rw (sym key) (get-put booking_key b' b rows (rw key found)),
  λ k ne. get-put_ne booking_key k b' rows (λ e. ne (e ∙ key)),
)

settle_success-IsOutcome :
    (later : ℕ) (q : Payment) (b : Booking) (st : Store)
    → get booking_key b.id st.bookings ≡ some b
    → (st' : Store) × (settle_success later q (some b) st ≡ ok (st', q)) × IsOutcome true q b st st'
unfolding settle_success IsOutcome
settle_success-IsOutcome later q b st found =
    elim (Bool-cases (same_status b.status pending_payment)) [
      | inl pending ↦
          let state = same_status-eq b.status pending_payment pending in
          let (b', done, key, new, _) = mark_paid-pending later b state in
          let (here, frame) = put-changed b b' st.bookings found key in
          rw (pending, done) (_, refl, ((b', here, rw state new), frame, refl, refl))
      | inr other ↦ rw other (
        _,
        refl,
        ((b, found, status_after-other true b.status other), (λ k ne. refl), refl, refl),
      )
    ]

settle_failure-IsOutcome :
    (q : Payment) (event : WebhookEvent) (b : Booking) (st : Store)
    → get booking_key b.id st.bookings ≡ some b
    → (st' : Store) × (settle_failure q event (some b) st ≡ ok (st', q))
      × IsOutcome false q b st st'
unfolding settle_failure IsOutcome
settle_failure-IsOutcome q event b st found =
    elim (Bool-cases (same_status b.status pending_payment)) [
      | inl pending ↦
          let state = same_status-eq b.status pending_payment pending in
          let (b', done, key, new, _) = fail_payment-pending event.reason b state in
          let (here, frame) = put-changed b b' st.bookings found key in
          rw (pending, done) (_, refl, ((b', here, rw state new), frame, refl, refl))
      | inr other ↦ rw other (
        _,
        refl,
        ((b, found, status_after-other false b.status other), (λ k ne. refl), refl, refl),
      )
    ]

-- Every row that has the id of the provider is the payment's own.
abbrev pub IsFree : Option String → ℕ → List Payment → Type 0
IsFree given id rows =
    All
      (λ (q : Payment).
        (ref : String) → q.provider_payment_id ≡ some ref → given ≡ some ref → q.id ≡ id)
      rows

has_ref-eq :
    (given : String) (known : Option String) → has_ref given known ≡ true → known ≡ some given
has_ref-eq given none e = cc
has_ref-eq given (some known) e = ap some ((eq_iff known given).0 e)

IsFree-ref_taken :
    (given : Option String) (id : ℕ) (rows : List Payment)
    → IsFree given id rows
    → ref_taken given id rows ≡ false
IsFree-ref_taken none id rows h = refl
IsFree-ref_taken (some given) id [] h = refl
IsFree-ref_taken (some given) id (q ∷ rows) h =
    elim (Bool-cases (has_ref given q.provider_payment_id)) [
      | inl hit ↦
          let own = (==_iff q.id id).1 (h.0 given (has_ref-eq given _ hit) refl) in
          rw (own, IsFree-ref_taken (some given) id rows h.1) refl
      | inr miss ↦ rw (miss, IsFree-ref_taken (some given) id rows h.1) (ground arith)
    ]

differ : (i j : ℕ) → i ≢ j → (i == j) ≡ false
differ i j ne = ground arith

clash-ref_taken :
    (given : String) (id : ℕ) (q : Payment) (rows : List Payment)
    → Has q rows
    → q.id ≢ id
    → q.provider_payment_id ≡ some given
    → ref_taken (some given) id rows ≡ true
clash-ref_taken given id q [] m ne e = absurd m
clash-ref_taken given id q (r ∷ rows) (inl same) ne e =
    let other : (r.id == id) ≡ false =
      subst (λ (x : Payment). (x.id == id) ≡ false) same (differ q.id id ne) in
    let known : r.provider_payment_id ≡ some given =
      subst (λ (x : Payment). x.provider_payment_id ≡ some given) same e in
    rw (other, known, (eq_iff given given).1 refl) refl
clash-ref_taken given id q (r ∷ rows) (inr m) ne e =
    rw (clash-ref_taken given id q rows m ne e) (ground arith)

-- A callback with the right amount for a live payment whose booking is stored goes through if no
-- other payment has the id of the provider that the payment gets; a pending booking becomes
-- awaiting_deposit or payment_failed, any other keeps its status and money for it adds one audit
-- entry; no other booking and no cell changes.
pub settle-IsOutcome :
    (now later : ℕ) (event : WebhookEvent) (st : Store) (p : Payment) (b : Booking)
    → get payment_key event.payment_id st.payments ≡ some p
    → get booking_key p.booking_id st.bookings ≡ some b
    → is_live p.status ≡ true
    → amount_differs event.amount_minor p.amount_minor ≡ false
    → IsFree (provider_ref event.provider_payment_id p.provider_payment_id) p.id st.payments
    → (st' : Store) × (settle now later event st ≡ ok (st', settled now event p))
      × IsOutcome event.succeeded (settled now event p) b st st'
unfolding settle settle_live settled
settle-IsOutcome now later event st p b paid booked live same free =
    let unique = IsFree-ref_taken _ p.id st.payments free in
    let found =
      subst (λ k. get booking_key k st.bookings ≡ some b)
        (sym (get-Has booking_key p.booking_id b st.bookings booked).1) booked in
    elim (Bool-cases event.succeeded) [
      | inl success ↦
          rw (paid, live, same, unique, booked, success)
            (settle_success-IsOutcome later _ b st found)
      | inr failure ↦
          rw (paid, live, same, unique, booked, failure)
            (settle_failure-IsOutcome _ (record event { succeeded = false }) b st found)
    ]

-- A callback with the right amount for a live payment, which names an id of the provider that
-- another payment has, answers 500 and changes nothing, whether the money came or not.
pub settle-clash :
    (now later : ℕ) (event : WebhookEvent) (st : Store) (p q : Payment)
    → get payment_key event.payment_id st.payments ≡ some p
    → is_live p.status ≡ true
    → amount_differs event.amount_minor p.amount_minor ≡ false
    → event.provider_payment_id ≢ ""
    → Has q st.payments
    → q.id ≢ p.id
    → q.provider_payment_id ≡ some event.provider_payment_id
    → settle now later event st ≡ raise internal_error 500
unfolding settle settle_live
settle-clash now later event st p q paid live same named stored other clash =
    elim (Bool-cases (str_eq event.provider_payment_id "")) [
      | inl empty ↦ absurd (named ((eq_iff event.provider_payment_id "").0 empty))
      | inr given ↦
          rw
            (
              paid,
              live,
              same,
              given,
              clash-ref_taken event.provider_payment_id p.id q st.payments stored other clash,
            )
            refl
    ]
