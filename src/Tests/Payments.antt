-- ===== src/Tests/Payments.antt =====
-- Examples of the payments.
use text.Mathlib.Text.{◌==◌ as str_eq}
use text.Mathlib.TextEquality.{eq_iff}
use poctamat_back.Common.{
  ◌≡◌, ◌≢◌, refl, true, false, none, some, List, [], ◌∷◌, ok, raise, internal_error, arith, inl,
  inr,
}
use poctamat_back.Booking.Machine.{assert_transition}
use poctamat_back.Booking.Service.{mark_paid, move, record_event}
use poctamat_back.Payments.{Payment, WebhookEvent}
use poctamat_back.Payments.Service.{start_payment, settle, settle_live, settle_success}
use poctamat_back.Payments.Settling.{settled, settle-again}
use poctamat_back.Payments.Outcome.{IsOutcome, settle-IsOutcome, settle-clash}
use poctamat_back.Store.{Store}
use poctamat_back.Tests.{value_or, settings, bank, unpaid, open_payment, success, refusal, store}

abbrev settled_store : Store
settled_store = (value_or (store, open_payment) (settle 60 61 success store)).0

abbrev settled_payment : Payment
settled_payment = (value_or (store, open_payment) (settle 60 61 success store)).1

-- The bank repeats its callback, and then contradicts it.
settle-again_example : settle 70 71 refusal settled_store ≡ ok (settled_store, settled_payment)
unfolding settle settle_live settle_success mark_paid move record_event assert_transition
settle-again_example =
    settle-again 60 61 70 71 success refusal store settled_store settled_payment refl refl

settle-IsOutcome_example :
    (st' : Store) × (settle 60 61 refusal store ≡ ok (st', settled 60 refusal open_payment))
    × IsOutcome false (settled 60 refusal open_payment) unpaid store st'
settle-IsOutcome_example =
    settle-IsOutcome 60 61 refusal store open_payment unpaid refl refl refl refl
      ((λ ref e h. refl), tt)

-- Another payment has had the id that the bank sends.
abbrev holder : Payment
holder = record open_payment { id = 502; booking_id = 102; provider_payment_id = some "stub-2" }

abbrev clashing : Store
clashing = record store { payments = open_payment ∷ holder ∷ [] }

abbrev misnamed : WebhookEvent
misnamed = record success { provider_payment_id = "stub-2" }

named : misnamed.provider_payment_id ≢ ""
named e = let same : str_eq misnamed.provider_payment_id "" ≡ true = (eq_iff _ "").1 e in cc

settle-clash_example : settle 60 61 misnamed clashing ≡ raise internal_error 500
settle-clash_example =
    settle-clash 60 61 misnamed clashing open_payment holder refl refl refl named (inr (inl refl))
      (λ e. omega arith) refl

abbrev opening : List Payment × Payment
opening =
    value_or ([], open_payment) (start_payment settings bank 501 unpaid 7 "halk" none 60 61 [])
