-- ===== src/Workers/Overdue/Patience.antt =====
-- A parcel is not given to staff before its recipient has had the whole of every stage.
use poctamat_back.Common.{
  ℕ, ◌+◌, ◌*◌, ◌≤◌, ◌≡◌, refl, sym, subst, ◌∙◌, ◌⊎◌, inl, inr, Bool, true, Option, none, some, List,
  [], ◌∷◌, leb, leb→le, Has, Bool-cases, arith, ok, ok_injective,
}
use poctamat_back.Settings.{Settings, hours}
use poctamat_back.Catalog.{Postamat}
use poctamat_back.Catalog.Opening.Calendar.{IsSchedule}
use poctamat_back.Booking.{BookingStatus, awaiting_pickup, grace, overdue, to_remove, Booking}
use poctamat_back.Workers.Overdue.{reachable, has_passed, Round, escalate}
use poctamat_back.Workers.Overdue.Deadlines.{IsEscalated, escalate-IsEscalated, reachable-IsExpiry}

abbrev pub IsPlace : Option Postamat → Type 0
IsPlace none = Unit
IsPlace (some p) = IsSchedule p.schedule

reachable-le :
    (place : Option Postamat) (moment : ℕ) → IsPlace place → moment ≤ reachable place moment
unfolding reachable
reachable-le none moment h = omega arith
reachable-le (some p) moment h = (reachable-IsExpiry p moment h).later

-- How a round can leave a parcel overdue: it was so before, or it was in its grace period and that
-- was over.
becomes_overdue :
    (s : Settings) (moment : ℕ) (place : Option Postamat) (clock ends : ℕ) (c c' : Booking)
    → IsEscalated s moment place clock ends c c'
    → c'.status ≡ overdue
    → (status : BookingStatus) → c.status ≡ status
    → ((leb (reachable place (ends + hours (s.grace_hours * 2))) moment ≡ true)
        × (c'.remove_after ≡ some (clock + hours s.removal_after_hours)))
      ⊎ ((c.status ≡ overdue) × (c'.remove_after ≡ c.remove_after))
becomes_overdue s moment place clock ends c c' done o grace e =
    elim (Bool-cases (leb (reachable place (ends + hours (s.grace_hours * 2))) moment)) [
      | inl passed ↦ inl (passed, rw (e, passed) at done.removal)
      | inr early ↦ absurd (ground (arith, o, rw (e, early) at done.stage))
    ]
becomes_overdue s moment place clock ends c c' done o overdue e = inr (e, rw e at done.removal)
becomes_overdue s moment place clock ends c c' done o status e =
    absurd (ground (arith, o, rw e at done.stage))

becomes_flagged :
    (s : Settings) (moment : ℕ) (place : Option Postamat) (clock ends : ℕ) (c c' : Booking)
    → IsEscalated s moment place clock ends c c'
    → c'.status ≡ to_remove
    → (status : BookingStatus) → c.status ≡ status
    → ((c.status ≡ overdue) × (has_passed c.remove_after moment ≡ true)) ⊎ (c.status ≡ to_remove)
becomes_flagged s moment place clock ends c c' done o overdue e =
    elim (Bool-cases (has_passed c.remove_after moment)) [
      | inl passed ↦ inl (e, passed)
      | inr early ↦ absurd (ground (arith, o, rw (e, early) at done.stage))
    ]
becomes_flagged s moment place clock ends c c' done o to_remove e = inr e
becomes_flagged s moment place clock ends c c' done o status e =
    absurd (ground (arith, o, rw e at done.stage))

module _ (s : Settings) (place : Option Postamat) (ends : ℕ) where
  -- The earliest moment at which a parcel may be flagged for removal.
  abbrev pub removal_bound : ℕ
  removal_bound = ends + hours (s.grace_hours * 2) + hours s.removal_after_hours

  -- Rounds of the worker on the row of one booking, the newest moment first. The clock of
  -- `to_overdue` is not behind the moment of its run.
  pub data Rounds (b : Booking) : List ℕ → Booking → Type 0 where
    start : Rounds b [] b
    tick :
        (moment clock number : ℕ) (wants_push : ℕ → Bool) (moments : List ℕ) (c : Booking)
        (r r' : Round)
        → Rounds b moments c
        → moment ≤ clock
        → escalate s moment place number wants_push clock ends c r ≡ ok r'
        → Rounds b (moment ∷ moments) r'.booking

  -- What holds of the row meanwhile.
  record IsPatient (moments : List ℕ) (c : Booking) : Type 0 where
    waits :
        c.status ≡ overdue → (limit : ℕ) × (c.remove_after ≡ some limit) × (removal_bound ≤ limit)
    flagged : c.status ≡ to_remove → (m : ℕ) × Has m moments × (removal_bound ≤ m)

  tick-IsPatient :
      (moment clock : ℕ) (moments : List ℕ) (c c' : Booking)
      → IsPlace place
      → moment ≤ clock
      → IsEscalated s moment place clock ends c c'
      → IsPatient moments c
      → IsPatient (moment ∷ moments) c'
  tick-IsPatient moment clock moments c c' place_ok le done h = record {
    waits = λ o. elim (becomes_overdue s moment place clock ends c c' done o c.status refl) [
      | inl (passed, written) ↦ (
        clock + hours s.removal_after_hours,
        written,
        omega (
          arith,
          leb→le _ _ passed,
          reachable-le place (ends + hours (s.grace_hours * 2)) place_ok,
          le,
        ),
      )
      | inr (same, kept) ↦ let (limit, was, bound) = h.waits same in (limit, kept ∙ was, bound)
    ];
    flagged = λ o. elim (becomes_flagged s moment place clock ends c c' done o c.status refl) [
      | inl (same, passed) ↦
          let (limit, was, bound) = h.waits same in
          (moment, inl refl, omega (arith, bound, leb→le limit moment (rw was at passed)))
      | inr same ↦ let (m, had, bound) = h.flagged same in (m, inr had, bound)
    ];
  }

  Rounds-IsPatient :
      (b b' : Booking) (moments : List ℕ)
      → IsPlace place
      → b.status ≡ awaiting_pickup
      → Rounds b moments b'
      → IsPatient moments b'
  Rounds-IsPatient b b' [] place_ok waiting start = record {
    waits = λ o. absurd (ground (arith, o, waiting));
    flagged = λ o. absurd (ground (arith, o, waiting));
  }
  Rounds-IsPatient b b' moments place_ok waiting
        (tick moment clock number wants_push ms c r r' before le run) =
      let (made, same, done) =
        escalate-IsEscalated s moment place number wants_push clock ends c r in
      let exact = ok_injective (sym same ∙ run) in
      tick-IsPatient moment clock ms c r'.booking place_ok le
        (subst (λ x. IsEscalated s moment place clock ends c x.booking) exact done)
        (Rounds-IsPatient b c ms place_ok waiting before)

  -- At a place with a valid schedule, and with a clock of `to_overdue` that is not behind its run,
  -- a parcel that waited for pickup is flagged for removal over any sequence of rounds only if one
  -- of them runs at or after the end of its storage plus two grace periods plus the removal
  -- interval.
  pub Rounds-removal_bound :
      (b b' : Booking) (moments : List ℕ)
      → Rounds b moments b'
      → IsPlace place
      → b.status ≡ awaiting_pickup
      → b'.status ≡ to_remove
      → (m : ℕ) × Has m moments × (removal_bound ≤ m)
  Rounds-removal_bound b b' moments rounds place_ok waiting flag =
      (Rounds-IsPatient b b' moments place_ok waiting rounds).flagged flag
