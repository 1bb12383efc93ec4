-- ===== src/Booking/Machine/Paths.antt =====
-- What a booking can become, over any number of transitions.
use poctamat_back.Common.{ℕ, suc, ◌+◌, ◌≤◌, ◌≡◌, Bool, true, false, ◌||◌, ◌&&◌, arith}
use poctamat_back.Booking.{BookingStatus, completed, removed, closed, is_held}
use poctamat_back.Booking.Machine.{can_transition}
use poctamat_back.Booking.Machine.Order.{
  is_inside, stage, can_transition-stage, can_transition-is_held,
}

pub data Leads : BookingStatus → BookingStatus → Type 0 where
  here : {s : BookingStatus} → Leads s s
  next : {s t u : BookingStatus} → can_transition s t ≡ true → Leads t u → Leads s u

-- The number of transitions taken.
abbrev pub steps : {s t : BookingStatus} → Leads s t → ℕ
steps here = 0
steps (next e p) = suc (steps p)

steps-stage : {s t : BookingStatus} (p : Leads s t) → stage s + steps p ≤ stage t
steps-stage here = omega arith
steps-stage (next {s = s} {t = t} e p) = omega (arith, can_transition-stage s t e, steps-stage p)

stage-le : (s : BookingStatus) → stage s ≤ 8
stage-le s = ground arith

-- A booking makes at most eight transitions in its life.
pub steps-le : {s t : BookingStatus} (p : Leads s t) → steps p ≤ 8
steps-le {s} {t} p = omega (arith, steps-stage p, stage-le t)

-- A cell that a booking has given up is never held by that booking again.
pub Leads-is_held : {s t : BookingStatus} → Leads s t → is_held s ≡ false → is_held t ≡ false
Leads-is_held here h = h
Leads-is_held (next {s = s} {t = t} e p) h = Leads-is_held p (given_up s t e h)
  where
    given_up :
        (s t : BookingStatus) → can_transition s t ≡ true → is_held s ≡ false → is_held t ≡ false
    given_up s t e h = ground (arith, can_transition-is_held s t)

-- Collected, or taken out by staff.
abbrev pub is_taken_out : BookingStatus → Bool
is_taken_out completed = true
is_taken_out removed = true
is_taken_out closed = true
is_taken_out _ = false

inside_or_out :
    (s t : BookingStatus)
    → can_transition s t ≡ true
    → (is_inside s || is_taken_out s) ≡ true
    → (is_inside t || is_taken_out t) ≡ true
inside_or_out s t e h = ground arith

-- Once a parcel is in the cell, every status that the machine can reach keeps it there or has it
-- collected or taken out by staff.
pub Leads-is_inside :
    {s t : BookingStatus}
    → Leads s t
    → (is_inside s || is_taken_out s) ≡ true
    → (is_inside t || is_taken_out t) ≡ true
Leads-is_inside here h = h
Leads-is_inside (next {s = s} {t = t} e p) h = Leads-is_inside p (inside_or_out s t e h)

-- Collection is allowed exactly while the parcel is inside, and cancellation exactly while the cell
-- is held and empty.
pub can_transition-completed :
    (s : BookingStatus)
    → (can_transition s completed ≡ is_inside s)
      × ((can_transition s BookingStatus.cancelled || is_inside s) ≡ is_held s)
      × ((can_transition s BookingStatus.cancelled && is_inside s) ≡ false)
can_transition-completed s = ground arith
