-- ===== src/Tests/Workers.antt =====
-- Examples of the workers' runs.
use poctamat_back.Common.{
  ℕ, ◌*◌, ◌≤◌, ◌≡◌, refl, true, none, some, List, [], ◌∷◌, Has, member, get, keep, IsDistinct,
  arith, ok,
}
use poctamat_back.Settings.{us_hour}
use poctamat_back.Booking.{to_remove, Booking}
use poctamat_back.Booking.Machine.{assert_transition}
use poctamat_back.Booking.Service.{expire, to_grace, to_overdue, flag_removal, move, record_event}
use poctamat_back.Notify.{Notification}
use poctamat_back.Workers.Holds.{release_expired_holds}
use poctamat_back.Workers.Holds.Release.{IsRowAfter, release_expired_holds_lem}
use poctamat_back.Workers.Overdue.{
  reachable, Round, Counts, no_counts, escalate, escalate_by, run_escalation, is_live_parcel,
}
use poctamat_back.Workers.Overdue.Deadlines.{IsEscalated, escalate-IsEscalated}
use poctamat_back.Workers.Overdue.Runs.{IsReadAfter, run_escalation_lem}
use poctamat_back.Workers.Overdue.Patience.{
  Rounds, start, tick, removal_bound, Rounds-removal_bound,
}
use poctamat_back.Workers.Overdue.Progress.{runs, Rounds-to_remove}
use poctamat_back.Store.{Store, booking_key}
use poctamat_back.Tests.{value_or, settings, site, unpaid, waiting, store}

pair-IsDistinct : IsDistinct booking_key (unpaid ∷ waiting ∷ [])
pair-IsDistinct = (((λ e. omega arith), tt), (tt, tt))

-- One hold has run out, and one has not.
abbrev holders : List Booking
holders = unpaid ∷ waiting ∷ record unpaid { id = 103; hold_expires_at = some (2 * us_hour) } ∷ []

holders-IsDistinct : IsDistinct booking_key holders
holders-IsDistinct =
    (((λ e. omega arith), ((λ e. omega arith), tt)), (((λ e. omega arith), tt), (tt, tt)))

release_expired_holds_lem_example :
    (rows' : List Booking) × (ids : List ℕ) × (release_expired_holds us_hour holders
      ≡ ok (rows', ids))
    × ((k : ℕ)
        → IsRowAfter us_hour (member k ids) (get booking_key k holders) (get booking_key k rows'))
release_expired_holds_lem_example = release_expired_holds_lem us_hour holders holders-IsDistinct

abbrev round_of : Booking → Round
round_of b = record { booking = b; notices = []; pushes = []; counts = no_counts }

escalate-IsEscalated_example :
    (r' : Round) × (escalate settings
        (37 * us_hour)
        (some site)
        2
        (λ id. true)
        (37 * us_hour)
        (36 * us_hour)
        waiting
        (round_of waiting)
      ≡ ok r')
    × IsEscalated settings
        (37 * us_hour)
        (some site)
        (37 * us_hour)
        (36 * us_hour)
        waiting
        r'.booking
escalate-IsEscalated_example =
    escalate-IsEscalated settings (37 * us_hour) (some site) 2 (λ id. true) (37 * us_hour)
      (36 * us_hour) waiting (round_of waiting)

run_escalation_lem_example :
    (st' : Store) × (pushes : List Notification) × (counts : Counts) × (run_escalation settings
        (37 * us_hour)
        []
        (λ id. 37 * us_hour)
        store
      ≡ ok (st', pushes, counts))
    × ((k : ℕ)
        → IsReadAfter settings
            (37 * us_hour)
            (λ id. 37 * us_hour)
            store.postamats
            (keep is_live_parcel (get booking_key k store.bookings))
            (get booking_key k store.bookings)
            (get booking_key k st'.bookings))
run_escalation_lem_example =
    run_escalation_lem settings (37 * us_hour) [] (λ id. 37 * us_hour) store pair-IsDistinct

-- Five runs at a site without a schedule's delay: each takes the parcel one stage further.
abbrev run_at : ℕ → Booking → Round
run_at moment b =
    value_or (round_of b)
      (escalate settings moment none 2 (λ id. true) moment (36 * us_hour) b (round_of b))

abbrev first_run : Booking
first_run = (run_at (36 * us_hour) waiting).booking

abbrev second_run : Booking
second_run = (run_at (38 * us_hour) first_run).booking

abbrev third_run : Booking
third_run = (run_at (40 * us_hour) second_run).booking

abbrev fourth_run : Booking
fourth_run = (run_at (64 * us_hour) third_run).booking

abbrev moments : List ℕ
moments = 64 * us_hour ∷ 40 * us_hour ∷ 38 * us_hour ∷ 36 * us_hour ∷ []

fourth_run-Rounds : Rounds settings none (36 * us_hour) waiting moments fourth_run
unfolding escalate escalate_by expire to_grace to_overdue flag_removal move record_event
    assert_transition reachable
fourth_run-Rounds =
    tick (64 * us_hour) (64 * us_hour) 2 (λ id. true) _ third_run (round_of third_run)
      (run_at (64 * us_hour) third_run)
      (tick (40 * us_hour) (40 * us_hour) 2 (λ id. true) _ second_run (round_of second_run)
        (run_at (40 * us_hour) second_run)
        (tick (38 * us_hour) (38 * us_hour) 2 (λ id. true) _ first_run (round_of first_run)
          (run_at (38 * us_hour) first_run)
          (tick (36 * us_hour) (36 * us_hour) 2 (λ id. true) _ waiting (round_of waiting)
            (run_at (36 * us_hour) waiting) start (omega arith) refl)
          (omega arith) refl)
        (omega arith) refl)
      (omega arith) refl

Rounds-removal_bound_example :
    (m : ℕ) × Has m moments × (removal_bound settings none (36 * us_hour) ≤ m)
unfolding escalate escalate_by expire to_grace to_overdue flag_removal move record_event
    assert_transition reachable
Rounds-removal_bound_example =
    Rounds-removal_bound settings none (36 * us_hour) waiting fourth_run moments fourth_run-Rounds
      tt refl refl

-- The third round reads the clock of `to_overdue` one hour after its moment.
abbrev late_run : Round
late_run = value_or (round_of second_run) (
    escalate settings (40 * us_hour) none 2 (λ id. true) (41 * us_hour) (36 * us_hour) second_run
      (round_of second_run))

abbrev last_run : Round
last_run = run_at (65 * us_hour) late_run.booking

Rounds-to_remove_example : last_run.booking.status ≡ to_remove
unfolding escalate escalate_by expire to_grace to_overdue flag_removal move record_event
    assert_transition reachable
Rounds-to_remove_example =
    Rounds-to_remove settings none (36 * us_hour) waiting first_run second_run late_run.booking
      last_run.booking (36 * us_hour) (38 * us_hour) (40 * us_hour) (65 * us_hour) (36 * us_hour)
      (38 * us_hour) (41 * us_hour) (65 * us_hour) refl
      (runs 2 (λ id. true) waiting (round_of waiting) (run_at (36 * us_hour) waiting) refl)
      (omega arith)
      (runs 2 (λ id. true) first_run (round_of first_run) (run_at (38 * us_hour) first_run) refl)
      (omega arith) (runs 2 (λ id. true) second_run (round_of second_run) late_run refl)
      (omega arith) (runs 2 (λ id. true) late_run.booking (round_of late_run.booking) last_run refl)
      (omega arith)
