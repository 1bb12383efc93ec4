-- ===== src/Payments/Opening.antt =====
-- At most one payment of a booking is open: backend/app/modules/payments/service.py.
use Prim.Native.String.{String}
use poctamat_back.Common.{
  ℕ, ◌≤◌, ◌≡◌, refl, sym, subst, ap, inl, inr, Bool, true, false, not, ◌&&◌, Option, none, some,
  List, [], ◌∷◌, ◌++◌, ==_iff, get, put, first, count_if, count_if-append, count_if-put, Bool-cases,
  arith, ErrorCode, ok, >>=-eq-ok, raise_if, raise_if-ok, is_some, ok_injective,
}
use poctamat_back.Settings.{Settings}
use poctamat_back.Booking.{pending_payment, Booking}
use poctamat_back.Booking.Machine.Order.{same_status-eq}
use poctamat_back.Payments.{is_live, bank_codes, has_text, Payment, PaymentProvider, WebhookEvent}
use poctamat_back.Payments.Service.{
  is_empty, hold_ran_out, live_for, check_start, opened, start_payment, cancel_payment, settle,
}
use poctamat_back.Payments.Settling.{settle-rows}
use poctamat_back.Store.{Store, payment_key}

-- No booking has two live payments.
abbrev pub IsSingleLive : List Payment → Type 0
IsSingleLive rows = (k : ℕ) → count_if (live_for k) rows ≤ 1

first-count_if :
    (k : ℕ) (rows : List Payment) → first (live_for k) rows ≡ none → count_if (live_for k) rows ≡ 0
first-count_if k [] e = refl
first-count_if k (row ∷ rows) e = elim (Bool-cases (live_for k row)) [
  | inl hit ↦ cc
  | inr miss ↦ rw miss (first-count_if k rows (rw miss at e))
]

not-false : (t : Bool) → not t ≡ false → t ≡ true
not-false true e = refl
not-false false e = cc

not_some : {A : Type 0} (o : Option A) → is_some o ≡ false → o ≡ none
not_some none e = refl
not_some (some a) e = cc

and_left : (a b : Bool) → a && b ≡ true → a ≡ true
and_left true b e = refl
and_left false b e = cc

and_right : (a b : Bool) → a && b ≡ true → b ≡ true
and_right true b e = e
and_right false b e = cc

clash : {C : Type 0} (t : Bool) → t ≡ true → t ≡ false → C
clash true e h = cc
clash false e h = cc

last : (t : Bool) (c : ErrorCode) (n : ℕ) {a : Unit {0}} → raise_if t c n ≡ ok a → t ≡ false
last true c n e = cc
last false c n e = refl

-- What `check_start` asks of the booking and of the payments before it lets a payment be opened.
unfoldable pub CanStart : Settings → List Payment → Booking → String → ℕ → Type 0
CanStart s rows b bank now =
    (has_text bank bank_codes ≡ true)
    × ((not (is_empty s.supported_banks) && not (has_text bank s.supported_banks)) ≡ false)
    × (b.status ≡ pending_payment)
    × (is_some b.paid_at ≡ false)
    × (hold_ran_out b.hold_expires_at now ≡ false)
    × (first (live_for b.id) rows ≡ none)

check_start-CanStart :
    (s : Settings) (rows : List Payment) (b : Booking) (bank : String) (now : ℕ)
    → check_start s rows b bank now ≡ ok tt
    → CanStart s rows b bank now
unfolding check_start CanStart
check_start-CanStart s rows b bank now e =
    let (known, e₂) = raise_if-ok _ _ _ _ e in
    let (supported, e₃) = raise_if-ok _ _ _ _ e₂ in
    let (_, e₄) = raise_if-ok _ _ _ _ e₃ in
    let (unpaid, e₅) = raise_if-ok _ _ _ _ e₄ in
    let (waiting, e₆) = raise_if-ok _ _ _ _ e₅ in
    let (held, e₇) = raise_if-ok _ _ _ _ e₆ in
    let sole = last _ _ _ e₇ in
    (
      not-false _ known,
      supported,
      same_status-eq _ _ (not-false _ waiting),
      unpaid,
      held,
      not_some _ sole,
    )

CanStart-check_start :
    (s : Settings) (rows : List Payment) (b : Booking) (bank : String) (now : ℕ)
    → CanStart s rows b bank now
    → check_start s rows b bank now ≡ ok tt
unfolding check_start CanStart
CanStart-check_start s rows b bank now (known, supported, waiting, unpaid, held, sole) =
    rw (known, supported, waiting, unpaid, held, sole) refl

start_payment-ok :
    (s : Settings) (provider : PaymentProvider) (id : ℕ) (b : Booking) (client : ℕ) (bank : String)
    (return_url : Option String) (now later : ℕ) (rows rows' : List Payment) (p : Payment)
    → start_payment s provider id b client bank return_url now later rows ≡ ok (rows', p)
    → CanStart s rows b bank now
      × (rows' ≡ rows ++ p ∷ [])
      × (p ≡ opened s provider id b client bank return_url later)
unfolding start_payment
start_payment-ok s provider id b client bank return_url now later rows rows' p e =
    let (a, checked, rest) = >>=-eq-ok (check_start s rows b bank now) _ e in
    let same = ok_injective (raise_if-ok _ _ _ _ rest).1 in
    (
      check_start-CanStart s rows b bank now checked,
      subst (λ (r : List Payment × Payment). r.0 ≡ rows ++ r.1 ∷ []) same refl,
      sym (ap (λ (r : List Payment × Payment). r.1) same),
    )

-- If no booking has two live payments, none has after a payment that is opened, and the new payment
-- is live for its booking.
pub start_payment-IsSingleLive :
    (s : Settings) (provider : PaymentProvider) (id : ℕ) (b : Booking) (client : ℕ) (bank : String)
    (return_url : Option String) (now later : ℕ) (rows rows' : List Payment) (p : Payment)
    → start_payment s provider id b client bank return_url now later rows ≡ ok (rows', p)
    → IsSingleLive rows
    → IsSingleLive rows' × (live_for b.id p ≡ true)
unfolding CanStart opened
start_payment-IsSingleLive s provider id b client bank return_url now later rows rows' p e single =
    let ((_, _, _, _, _, sole), longer, made) =
      start_payment-ok s provider id b client bank return_url now later rows rows' p e in
    (
      (λ k.
          rw (longer, count_if-append (live_for k) rows (p ∷ []))
            (elim (Bool-cases (live_for k p)) [
              | inl hit ↦
                  let same =
                    (==_iff b.id k).0 (and_left _ _ (subst (λ q. live_for k q ≡ true) made hit)) in
                  let nothing =
                    subst (λ j. count_if (live_for j) rows ≡ 0) same
                      (first-count_if b.id rows sole) in
                  rw (hit, nothing) (omega arith)
              | inr miss ↦ rw miss (ground (arith, single k))
            ])),
      rw made (ground arith),
    )

-- A row that was there, rewritten to a status that is not live, leaves them so.
put-IsSingleLive :
    (p p' : Payment) (rows : List Payment)
    → get payment_key p'.id rows ≡ some p
    → is_live p'.status ≡ false
    → IsSingleLive rows
    → IsSingleLive (put payment_key p' rows)
put-IsSingleLive p p' rows found over single k =
    let fewer =
      count_if-put payment_key (live_for k) p' p rows found
        (λ e. clash (is_live p'.status) (and_right _ _ e) over) in
    ground (arith, fewer, single k)

-- If no booking has two live payments, none has after a callback that is accepted.
pub settle-IsSingleLive :
    (now later : ℕ) (event : WebhookEvent) (st st' : Store) (p' : Payment)
    → settle now later event st ≡ ok (st', p')
    → IsSingleLive st.payments
    → IsSingleLive st'.payments
settle-IsSingleLive now later event st st' p' e single =
    let (p, found, key, over, rows) = settle-rows now later event st st' p' e in
    elim rows [
      | inl written ↦ rw written (put-IsSingleLive p p' st.payments (rw key found) over single)
      | inr (stay, _) ↦ rw stay single
    ]

-- Nor does giving a payment up.
pub cancel_payment-IsSingleLive :
    (now : ℕ) (p p' : Payment) (rows : List Payment)
    → cancel_payment now p ≡ ok p'
    → get payment_key p.id rows ≡ some p
    → IsSingleLive rows
    → IsSingleLive (put payment_key p' rows)
unfolding cancel_payment
cancel_payment-IsSingleLive now p p' rows e found single =
    let (_, done) = raise_if-ok _ _ _ _ e in
    let same = ok_injective done in
    put-IsSingleLive p p' rows
      (subst (λ (q : Payment). get payment_key q.id rows ≡ some p) same found)
      (subst (λ (q : Payment). is_live q.status ≡ false) same refl) single
