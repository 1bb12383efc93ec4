-- ===== src/Workers/Overdue/Progress.antt =====
-- A parcel that nobody collects does reach staff.
use poctamat_back.Common.{
  ℕ, ◌+◌, ◌*◌, ◌≤◌, ◌≡◌, refl, sym, subst, ◌∙◌, ok, ok_injective, Bool, true, Option, some, inl,
  inr, Bool-cases, le→leb, if◌then◌else◌,
}
use poctamat_back.Settings.{Settings, hours}
use poctamat_back.Catalog.{Postamat}
use poctamat_back.Booking.{BookingStatus, awaiting_pickup, grace, overdue, to_remove, Booking}
use poctamat_back.Booking.Machine.{same_status}
use poctamat_back.Workers.Overdue.{reachable, has_passed, Round, escalate}
use poctamat_back.Workers.Overdue.Deadlines.{
  IsEscalated, deadline, next_stage, escalate-IsEscalated,
}

module _ (s : Settings) (place : Option Postamat) (ends : ℕ) where
  -- A round of the worker on the row of one booking: what it started from and what it left.
  pub data IsRound (moment clock : ℕ) : Booking → Booking → Type 0 where
    runs :
        (number : ℕ) (wants_push : ℕ → Bool) (c : Booking) (r r' : Round)
        → escalate s moment place number wants_push clock ends c r ≡ ok r'
        → IsRound moment clock c r'.booking

  IsRound-IsEscalated :
      (moment clock : ℕ) (c c' : Booking)
      → IsRound moment clock c c'
      → IsEscalated s moment place clock ends c c'
  IsRound-IsEscalated moment clock _ _ (runs number wants_push c r r' run) =
      let (made, same, done) =
        escalate-IsEscalated s moment place number wants_push clock ends c r in
      subst (λ (x : Round). IsEscalated s moment place clock ends c x.booking)
        (ok_injective (sym same ∙ run)) done

  -- A round at or after the deadline of a parcel's stage.
  goes_on :
      (c c' : Booking) (moment clock limit : ℕ) (status : BookingStatus)
      → c.status ≡ status
      → IsRound moment clock c c'
      → deadline s place ends c status ≡ some limit
      → limit ≤ moment
      → (c'.status ≡ next_stage status)
        × (c'.remove_after ≡ (
            if same_status status grace
            then some (clock + hours s.removal_after_hours)
            else c.remove_after))
  goes_on c c' moment clock limit status is round due le =
      let done = IsRound-IsEscalated moment clock c c' round in
      let passed : has_passed (deadline s place ends c c.status) moment ≡ true =
        rw (is, due) (le→leb limit moment le) in
      (
        rw (passed, is) at done.stage,
        elim (Bool-cases (same_status c.status grace)) [
          | inl late ↦ rw (rw is at late) (rw (late, passed) at done.removal)
          | inr early ↦ rw (rw is at early) (rw early at done.removal)
        ],
      )

  -- Any four rounds in a row on a parcel that waits for pickup flag it for removal, if the first
  -- runs at or after the end of its storage, the second at or after the reachable end of the first
  -- grace period, the third at or after that of the second, and the fourth at least the removal
  -- interval after the clock that `to_overdue` read in the third.
  pub Rounds-to_remove :
      (b b₁ b₂ b₃ b₄ : Booking) (first second third fourth clock₁ clock₂ clock₃ clock₄ : ℕ)
      → b.status ≡ awaiting_pickup
      → IsRound first clock₁ b b₁
      → ends ≤ first
      → IsRound second clock₂ b₁ b₂
      → reachable place (ends + hours s.grace_hours) ≤ second
      → IsRound third clock₃ b₂ b₃
      → reachable place (ends + hours (s.grace_hours * 2)) ≤ third
      → IsRound fourth clock₄ b₃ b₄
      → clock₃ + hours s.removal_after_hours ≤ fourth
      → b₄.status ≡ to_remove
  Rounds-to_remove b b₁ b₂ b₃ b₄ first second third fourth clock₁ clock₂ clock₃ clock₄ waiting
        round₁ e₁ round₂ e₂ round₃ e₃ round₄ e₄ =
      let (s₁, _) = goes_on b b₁ first clock₁ ends awaiting_pickup waiting round₁ refl e₁ in
      let (s₂, _) = goes_on b₁ b₂ second clock₂ _ BookingStatus.expired s₁ round₂ refl e₂ in
      let (s₃, limit) = goes_on b₂ b₃ third clock₃ _ grace s₂ round₃ refl e₃ in
      (goes_on b₃ b₄ fourth clock₄ _ overdue s₃ round₄ limit e₄).0
