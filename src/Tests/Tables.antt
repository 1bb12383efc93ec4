-- ===== src/Tests/Tables.antt =====
-- Examples of the custody procedure and of runs over all tables.
use poctamat_back.Common.{
  List, ◌*◌, ◌≡◌, refl, none, some, false, [], ◌∷◌, arith, raise, custody_already_closed,
}
use poctamat_back.Settings.{us_hour}
use poctamat_back.Booking.{Booking}
use poctamat_back.Booking.Machine.{assert_transition}
use poctamat_back.Booking.Service.{mark_paid, mark_removed, close_custody, move, record_event}
use poctamat_back.Payments.{Payment}
use poctamat_back.Payments.Service.{settle, settle_live, settle_success}
use poctamat_back.Custody.{CustodyRecord, Outcome}
use poctamat_back.Custody.Service.{file_removal, hand_over, close_case, check_open, new_record}
use poctamat_back.Custody.Effects.{hands_over, disposes, close, close-once}
use poctamat_back.Store.{Store}
use poctamat_back.Store.Steps.{settles, stays, goes_on}
use poctamat_back.Store.Kept.{IsSound}
use poctamat_back.Store.Invariant.{Reaches-IsSound}
use poctamat_back.Identity.{Client}
use poctamat_back.Mobile.{Desk}
use poctamat_back.Mobile.Touched.{cancel_route}
use poctamat_back.Store.Api.{Posted, callback, own, removal, respond_all}
use poctamat_back.Store.Api.Sound.{respond_all-IsSound}
use poctamat_back.Tests.{
  value_or, digest, settings, store-IsSingleLive, bank, unpaid, flagged, open_payment, success,
  store, late_store,
}

abbrev empty_act : CustodyRecord
empty_act = new_record settings 0 0 flagged 2 "staff" "" ""

abbrev filed : Store × CustodyRecord
filed =
    value_or (late_store, empty_act)
      (file_removal settings (65 * us_hour) 900 flagged 2 "staff" "overdue" "one box" late_store)

abbrev taken : Booking
taken = value_or flagged (mark_removed flagged)

abbrev given : Store × CustodyRecord
given = value_or filed (
    close (hands_over "the owner" none none) (66 * us_hour) (66 * us_hour) filed.1 taken "staff"
      filed.0)

close-once_example :
    close
      (disposes Outcome.disposed "again")
      (70 * us_hour)
      (70 * us_hour)
      given.1
      taken
      "staff"
      given.0
    ≡ raise custody_already_closed 409
unfolding close hand_over file_removal mark_removed move record_event assert_transition close_case
    close_custody check_open
close-once_example =
    close-once (hands_over "the owner" none none) (disposes Outcome.disposed "again") (66 * us_hour)
      (66 * us_hour) (70 * us_hour) (70 * us_hour) filed.1 given.1 taken taken "staff" "staff"
      filed.0 given.0 given.0 refl

abbrev first_store : Store
first_store = record store { bookings = unpaid ∷ [] }

abbrev second : Store × Payment
second = value_or (first_store, open_payment) (settle 60 61 success first_store)

first_store-IsSound : IsSound first_store
first_store-IsSound = record {
  exclusive = λ cell_id. ground arith;
  single = store-IsSingleLive;
  traced = ((λ o. cc), tt);
  timelines = (record { numbered = tt; walks = refl }, tt);
}

Reaches-IsSound_example : IsSound second.0
unfolding settle settle_live settle_success mark_paid move record_event assert_transition
Reaches-IsSound_example =
    Reaches-IsSound digest settings bank first_store second.0
      (goes_on first_store second.0 stays (settles 60 61 success second.0 second.1 refl))
      first_store-IsSound

abbrev caller : Client
caller = record {
  id = 7;
  phone = "+99365000000";
  last_name = some "Berdiyev";
  first_name = some "Merdan";
  language = "tk";
  is_blocked = false;
  blocked_reason = none;
  blocked_at = none;
}

abbrev first_desk : Desk
first_desk = record { store = first_store; tariffs = []; kv = [] }

-- The payment is settled, a second callback comes, and the client cancels.
abbrev morning : List Posted
morning =
    callback 60 61 "halk" (some success)
    ∷ callback 70 71 "halk" (some success)
    ∷ own caller 100 (cancel_route none)
    ∷ removal 80 900 "staff" 100 "overdue" "one box"
    ∷ []

respond_all-IsSound_example : IsSound (respond_all digest settings bank morning first_desk).store
respond_all-IsSound_example =
    respond_all-IsSound digest settings bank morning first_desk first_store-IsSound
