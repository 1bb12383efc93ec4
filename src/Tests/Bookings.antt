-- ===== src/Tests/Bookings.antt =====
-- Examples of the booking component.
use text.Mathlib.Text.{◌==◌ as str_eq}
use poctamat_back.Common.{
  ℕ, ◌+◌, ◌*◌, ◌≤◌, ◌≡◌, refl, ◌≢◌, subst, inl, inr, true, ◌||◌, none, some, List, [], ◌∷◌, is_some,
  is_ok, arith,
}
use poctamat_back.Settings.{us_hour, hours}
use poctamat_back.Booking.{
  BookingStatus, awaiting_pickup, completed, grace, Booking, AccessCode, deposit, pickup,
}
use poctamat_back.Booking.Machine.{can_transition, assert_transition}
use poctamat_back.Booking.Machine.Order.{is_inside}
use poctamat_back.Booking.Machine.Paths.{Leads, here, next, Leads-is_inside, is_taken_out}
use poctamat_back.Booking.Codes.{issue_code, find_code, code_expiry}
use poctamat_back.Booking.Codes.Grants.{grant, IsFresh, IsSingle, issue_code_lem}
use poctamat_back.Booking.Codes.Lookup.{IsLive, find_code-IsLive, IsLive-find_code}
use poctamat_back.Booking.Service.{mark_paid, mark_deposited, to_overdue, move, record_event}
use poctamat_back.Booking.Service.Calls.{pays, cancels, perform, Change, perform-Change}
use poctamat_back.Booking.Service.Fields.{
  permits, perform-permits, IsDeposited, mark_deposited-IsDeposited, to_overdue-outlives,
}
use poctamat_back.Booking.Service.Hold.{extend_all}
use poctamat_back.Catalog.Opening.{
  storage_expiry, is_open_at, next_opening_after, slot_for, opening_from,
}
use poctamat_back.Tests.{
  value_or, digest, settings, site, site-IsSchedule, unpaid, paid_for, waiting,
}

-- From storage over its end to a collection.
abbrev collected_late : Leads awaiting_pickup completed
collected_late = next {t = BookingStatus.expired} refl (next refl here)

Leads-is_inside_example : (is_inside completed || is_taken_out completed) ≡ true
Leads-is_inside_example = Leads-is_inside {s = awaiting_pickup} {t = completed} collected_late refl

abbrev deposited : Booking
deposited =
    (value_or (paid_for, "")
      (mark_deposited digest settings site (12 * us_hour) (12 * us_hour) "4711" paid_for)).0

mark_deposited-IsDeposited_example :
    IsDeposited digest settings site (12 * us_hour) 24 "4711" deposited
unfolding mark_deposited move record_event assert_transition issue_code storage_expiry is_open_at
    next_opening_after slot_for opening_from
mark_deposited-IsDeposited_example =
    mark_deposited-IsDeposited digest settings site (12 * us_hour) (12 * us_hour) "4711" "4711"
      paid_for deposited site-IsSchedule (λ p. omega arith) refl

perform-permits_example :
    is_ok (perform digest settings (cancels "changed my mind" none) waiting)
    ≡ permits settings (cancels "changed my mind" none) waiting
perform-permits_example = perform-permits digest settings (cancels "changed my mind" none) waiting

abbrev now_paid : Booking
now_paid = value_or unpaid (mark_paid 60 unpaid)

perform-Change_example : Change unpaid now_paid
unfolding perform mark_paid move record_event assert_transition
perform-Change_example = perform-Change digest settings (pays 60) unpaid now_paid refl

abbrev late : Booking
late = record waiting { status = grace }

abbrev now_late : Booking
now_late = value_or late (to_overdue settings (41 * us_hour) late)

to_overdue-outlives_example :
    (r : ℕ) × (now_late.remove_after ≡ some r)
    × (code_expiry settings now_late pickup (42 * us_hour) + hours (settings.grace_hours * 2) ≤ r)
    × (can_transition now_late.status completed ≡ true)
unfolding to_overdue move record_event assert_transition
to_overdue-outlives_example =
    to_overdue-outlives settings (41 * us_hour) (42 * us_hour) (36 * us_hour) late now_late refl
      (omega arith) refl

abbrev extended : Booking
extended = value_or unpaid (extend_all settings (60 ∷ 61 ∷ []) unpaid)

pub waiting-IsSingle : IsSingle waiting.codes
waiting-IsSingle deposit = omega arith
waiting-IsSingle pickup = omega arith

abbrev renewed : List AccessCode
renewed = (issue_code digest settings waiting pickup "9999" 0).codes

issue_code_lem_example :
    ((c : AccessCode) × (grant pickup renewed ≡ some c)
      × IsFresh (digest "9999") (code_expiry settings waiting pickup 0) c)
    × (pickup ≢ deposit → grant deposit renewed ≡ grant deposit waiting.codes)
    × IsSingle renewed
issue_code_lem_example =
    issue_code_lem digest settings waiting pickup deposit "9999" 0 waiting-IsSingle

abbrev pub new_code : AccessCode
new_code = record {
  booking_id = 101;
  purpose = pickup;
  code_hash = "pepper:9999";
  attempts = 0;
  expires_at = some (60 * us_hour);
  used_at = none;
}

pub not_same : digest "4711" ≢ digest "9999"
not_same e =
    let clash : str_eq (digest "4711") (digest "9999") ≡ true =
      subst (λ t. str_eq (digest "4711") t ≡ true) e refl in
    cc

abbrev old_code : AccessCode
old_code = record {
  booking_id = 101;
  purpose = pickup;
  code_hash = "pepper:4711";
  attempts = 0;
  expires_at = some (60 * us_hour);
  used_at = none;
}

find_code-IsLive_example : IsLive digest (unpaid ∷ waiting ∷ []) 1 "4711" old_code
unfolding find_code
find_code-IsLive_example = find_code-IsLive digest 1 "4711" (unpaid ∷ waiting ∷ []) old_code refl

-- A grant whose end is long past.
abbrev old_grant : AccessCode
old_grant = record old_code { expires_at = some 0 }

abbrev old_rows : List Booking
old_rows = unpaid ∷ record waiting { codes = old_grant ∷ [] } ∷ []

old_grant-IsLive : IsLive digest old_rows 1 "4711" old_grant
old_grant-IsLive = record {
  booking = record waiting { codes = old_grant ∷ [] };
  stored = inr (inl refl);
  here = refl;
  holds = refl;
  granted = inl refl;
  same_digest = refl;
  unused = refl;
}

IsLive-find_code_example : is_some (find_code digest old_rows 1 "4711") ≡ true
IsLive-find_code_example = IsLive-find_code digest 1 "4711" old_rows old_grant old_grant-IsLive
