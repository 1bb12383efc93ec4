-- ===== src/Workers/Overdue/Deadlines.antt =====
-- When a parcel goes to its next stage, and never before.
use poctamat_back.Common.{
  ℕ, ◌+◌, ◌*◌, ◌≡◌, refl, subst, inl, inr, Bool, false, ◌&&◌, Option, none, some, leb, Bool-cases,
  arith, ok, if◌then◌else◌,
}
use poctamat_back.Settings.{Settings, hours}
use poctamat_back.Catalog.{Postamat}
use poctamat_back.Catalog.Opening.{storage_expiry}
use poctamat_back.Catalog.Opening.Calendar.{IsSchedule}
use poctamat_back.Catalog.Opening.Expiry.{IsExpiry, storage_expiry-IsExpiry}
use poctamat_back.Booking.{
  BookingStatus, pending_payment, awaiting_deposit, awaiting_pickup, completed, grace, overdue,
  to_remove, removed, closed, payment_failed, Booking,
}
use poctamat_back.Booking.Machine.{same_status, assert_transition}
use poctamat_back.Booking.Service.{expire, to_grace, to_overdue, flag_removal, move, record_event}
use poctamat_back.Workers.Overdue.{
  reachable, has_passed, Round, escalate, escalate_by, remind, wants_reminder,
}

-- For a valid schedule a deadline behind a locked door is put off to the first instant at which the
-- postamat is open, and a postamat that never opens keeps the plain deadline.
pub reachable-IsExpiry :
    (p : Postamat) (moment : ℕ)
    → IsSchedule p.schedule
    → IsExpiry p moment (reachable (some p) moment)
unfolding reachable storage_expiry
reachable-IsExpiry p moment h =
    subst (λ m. IsExpiry p m (reachable (some p) m)) (ground arith)
      (storage_expiry-IsExpiry p moment 0 h)

-- The deadline of a parcel's stage, if it has one.
abbrev pub deadline : Settings → Option Postamat → ℕ → Booking → BookingStatus → Option ℕ
deadline s place ends b awaiting_pickup = some ends
deadline s place ends b BookingStatus.expired = some (reachable place (ends + hours s.grace_hours))
deadline s place ends b grace = some (reachable place (ends + hours (s.grace_hours * 2)))
deadline s place ends b overdue = b.remove_after
deadline s place ends b _ = none

abbrev pub next_stage : BookingStatus → BookingStatus
next_stage awaiting_pickup = BookingStatus.expired
next_stage BookingStatus.expired = grace
next_stage grace = overdue
next_stage overdue = to_remove
next_stage other = other

-- What a round makes of the row: `clock` is the reading of `to_overdue`.
pub record IsEscalated (s : Settings) (moment : ℕ) (place : Option Postamat) (clock ends : ℕ)
    (b b' : Booking) : Type 0 where
  pub same_id : b'.id ≡ b.id
  pub same_cell : b'.cell_id ≡ b.cell_id
  pub same_end : b'.expires_at ≡ b.expires_at
  pub stage : b'.status ≡ (
      if has_passed (deadline s place ends b b.status) moment
      then next_stage b.status
      else b.status)
  pub removal : b'.remove_after ≡ (
      if same_status b.status grace && has_passed (deadline s place ends b b.status) moment
      then some (clock + hours s.removal_after_hours)
      else b.remove_after)

-- A row that stays as it is, since its deadline has not passed.
stays :
    (s : Settings) (moment : ℕ) (place : Option Postamat) (clock ends : ℕ) (b : Booking)
    → has_passed (deadline s place ends b b.status) moment ≡ false
    → IsEscalated s moment place clock ends b b
stays s moment place clock ends b early = record {
  same_id = refl;
  same_cell = refl;
  same_end = refl;
  stage = rw early refl;
  removal = ground arith;
}

escalate_by-IsEscalated :
    (s : Settings) (moment : ℕ) (place : Option Postamat) (number : ℕ) (wants_push : ℕ → Bool)
    (clock ends : ℕ) (b : Booking) (r : Round) (status : BookingStatus)
    → b.status ≡ status
    → (r' : Round) × (escalate_by s moment status place number wants_push clock ends b r ≡ ok r')
      × IsEscalated s moment place clock ends b r'.booking
unfolding escalate_by expire to_grace to_overdue flag_removal move record_event assert_transition
    remind
escalate_by-IsEscalated s moment place number wants_push clock ends b r awaiting_pickup e =
    elim (Bool-cases (leb ends moment)) [
      | inl due ↦ rw due (
          rw e (
            _,
            refl,
            (record {
              same_id = refl;
              same_cell = refl;
              same_end = refl;
              stage = ground arith;
              removal = ground arith;
            }),
          ))
      | inr early ↦ rw early (
        _,
        refl,
        elim (Bool-cases (wants_reminder s moment b ends)) [
          | inl wants ↦ rw wants (record {
            same_id = refl;
            same_cell = refl;
            same_end = refl;
            stage = ground arith;
            removal = ground arith;
          })
          | inr quiet ↦ rw quiet (stays s moment place clock ends b (rw e early))
        ],
      )
    ]
escalate_by-IsEscalated s moment place number wants_push clock ends b r BookingStatus.expired e =
    elim (Bool-cases (leb (reachable place (ends + hours s.grace_hours)) moment)) [
      | inl due ↦ rw due (
          rw e (
            _,
            refl,
            (record {
              same_id = refl;
              same_cell = refl;
              same_end = refl;
              stage = ground arith;
              removal = ground arith;
            }),
          ))
      | inr early ↦ rw early (_, refl, stays s moment place clock ends b (rw e early))
    ]
escalate_by-IsEscalated s moment place number wants_push clock ends b r grace e =
    elim (Bool-cases (leb (reachable place (ends + hours (s.grace_hours * 2))) moment)) [
      | inl due ↦ rw due (
          rw e (
            _,
            refl,
            (record {
              same_id = refl;
              same_cell = refl;
              same_end = refl;
              stage = ground arith;
              removal = ground arith;
            }),
          ))
      | inr early ↦ rw early (_, refl, stays s moment place clock ends b (rw e early))
    ]
escalate_by-IsEscalated s moment place number wants_push clock ends b r overdue e =
    elim (Bool-cases (has_passed b.remove_after moment)) [
      | inl due ↦ rw due (
          rw e (
            _,
            refl,
            (record {
              same_id = refl;
              same_cell = refl;
              same_end = refl;
              stage = ground arith;
              removal = ground arith;
            }),
          ))
      | inr early ↦ rw early (_, refl, stays s moment place clock ends b (rw e early))
    ]
escalate_by-IsEscalated s moment place number wants_push clock ends b r pending_payment e =
    (_, refl, stays s moment place clock ends b (rw e refl))
escalate_by-IsEscalated s moment place number wants_push clock ends b r awaiting_deposit e =
    (_, refl, stays s moment place clock ends b (rw e refl))
escalate_by-IsEscalated s moment place number wants_push clock ends b r completed e =
    (_, refl, stays s moment place clock ends b (rw e refl))
escalate_by-IsEscalated s moment place number wants_push clock ends b r BookingStatus.cancelled e =
    (_, refl, stays s moment place clock ends b (rw e refl))
escalate_by-IsEscalated s moment place number wants_push clock ends b r to_remove e =
    (_, refl, stays s moment place clock ends b (rw e refl))
escalate_by-IsEscalated s moment place number wants_push clock ends b r removed e =
    (_, refl, stays s moment place clock ends b (rw e refl))
escalate_by-IsEscalated s moment place number wants_push clock ends b r closed e =
    (_, refl, stays s moment place clock ends b (rw e refl))
escalate_by-IsEscalated s moment place number wants_push clock ends b r payment_failed e =
    (_, refl, stays s moment place clock ends b (rw e refl))

-- A round of the escalation never fails, takes a parcel to its next stage exactly when the deadline
-- of its stage has passed, and sets the removal time exactly when it becomes overdue.
pub escalate-IsEscalated :
    (s : Settings) (moment : ℕ) (place : Option Postamat) (number : ℕ) (wants_push : ℕ → Bool)
    (clock ends : ℕ) (b : Booking) (r : Round)
    → (r' : Round) × (escalate s moment place number wants_push clock ends b r ≡ ok r')
      × IsEscalated s moment place clock ends b r'.booking
unfolding escalate
escalate-IsEscalated s moment place number wants_push clock ends b r =
    escalate_by-IsEscalated s moment place number wants_push clock ends b r b.status refl
