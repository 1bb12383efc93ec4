-- ===== src/Booking/Service/History.antt =====
-- The timeline of a booking: its events are numbered from 0, begin at `pending_payment`, follow the
-- allowed transitions and end at the booking's status.
use poctamat_back.Common.{
  ℕ, suc, ◌+◌, ◌≡◌, refl, subst, ◌⊎◌, true, Option, List, [], ◌∷◌, ◌++◌, length, arith, ok,
}
use Prim.Native.String.{String}
use poctamat_back.Booking.{
  BookingStatus, pending_payment, Step, EventDetails, BookingEvent, Booking,
}
use poctamat_back.Booking.Machine.{can_transition, assert_transition}
use poctamat_back.Booking.Service.{record_event, move}

abbrev pub IsNumbered : ℕ → List BookingEvent → Type 0
IsNumbered n [] = Unit
IsNumbered n (e ∷ es) = (e.seq ≡ n) × IsNumbered (suc n) es

-- Nothing changes, or the machine makes a transition.
abbrev pub IsMove : BookingStatus → BookingStatus → Type 0
IsMove s t = (t ≡ s) ⊎ (can_transition s t ≡ true)

-- The events lead from the status `s` to the status `t`.
abbrev pub Walks : BookingStatus → List BookingEvent → BookingStatus → Type 0
Walks s [] t = t ≡ s
Walks s (e ∷ es) t = IsMove s e.status × Walks e.status es t

pub record IsTimeline (b : Booking) : Type 0 where
  pub numbered : IsNumbered 0 b.events
  pub walks : Walks pending_payment b.events b.status

IsNumbered-append :
    (n : ℕ) (es : List BookingEvent) (e : BookingEvent)
    → IsNumbered n es
    → e.seq ≡ n + length es
    → IsNumbered n (es ++ e ∷ [])
IsNumbered-append n [] e h q = (omega arith, tt)
IsNumbered-append n (x ∷ es) e h q = (h.0, IsNumbered-append (suc n) es e h.1 (omega arith))

Walks-append :
    (s t : BookingStatus) (es : List BookingEvent) (e : BookingEvent)
    → Walks s es t
    → IsMove t e.status
    → Walks s (es ++ e ∷ []) e.status
Walks-append s t [] e h m = (subst (λ u. IsMove u e.status) h m, refl)
Walks-append s t (x ∷ es) e h m = (h.0, Walks-append x.status t es e h.1 m)

-- An event for the booking's new status keeps the timeline.
pub record_event-IsTimeline :
    (b : Booking) (s : BookingStatus) (message : String) (details : Option EventDetails)
    (step : Option Step)
    → IsTimeline b
    → IsMove b.status s
    → IsTimeline (record (record_event b s message details step) { status = s })
unfolding record_event
record_event-IsTimeline b s message details step h m = record {
  numbered = IsNumbered-append 0 b.events _ h.numbered (omega arith);
  walks = Walks-append pending_payment b.status b.events _ h.walks m;
}

-- What a move that does not raise has done.
pub move-ok :
    (b b' : Booking) (t : BookingStatus) (message : String) (details : Option EventDetails)
    (step : Option Step)
    → move b t message details step ≡ ok b'
    → (can_transition b.status t ≡ true)
      × (record_event (record b { status = t }) t message details step ≡ b')
unfolding move assert_transition
move-ok b b' t message details step e = (ground arith, ground arith)
