-- ===== src/Catalog/Opening/Calendar.antt =====
-- Days and times of day of an instant, and what a valid schedule is: the checks of `ScheduleSlotIn`
-- and `SchedulePut` in backend/app/modules/catalog/schemas.py.
use poctamat_back.Common.{ℕ, ◌+◌, ◌*◌, ◌/◌, ◌%◌, ◌<◌, ◌≡◌, some, List, [], ◌∷◌, All, arith}
use poctamat_back.Settings.{us_minute, us_day, days}
use poctamat_back.Catalog.{PostamatSchedule}
use poctamat_back.Catalog.Opening.{slot_for, opening_on}

-- A window opens before it closes, within one day.
pub record IsWindow (slot : PostamatSchedule) : Type 0 where
  pub ordered : slot.opens_at < slot.closes_at
  pub same_day : slot.closes_at < us_day
  pub numbered : slot.weekday < 7

-- The contract's `HH:MM`: no seconds.
abbrev pub IsWholeMinute : PostamatSchedule → Type 0
IsWholeMinute slot = slot.opens_at % us_minute ≡ 0

abbrev pub IsSchedule : List PostamatSchedule → Type 0
IsSchedule = All (λ slot. IsWindow slot × IsWholeMinute slot)

pub slot_for-IsWindow :
    (day : ℕ) (slots : List PostamatSchedule) (slot : PostamatSchedule)
    → IsSchedule slots
    → slot_for slots day ≡ some slot
    → IsWindow slot × IsWholeMinute slot
unfolding slot_for
slot_for-IsWindow day [] slot h e = cc
slot_for-IsWindow day (s ∷ slots) slot h e = ground (arith, slot_for-IsWindow day slots slot h.1)

pub day-add_days : (t k : ℕ) → (t + days k) / us_day ≡ t / us_day + k
day-add_days t k = omega arith

-- The opening of a valid slot is the day's midnight plus the opening time.
pub opening_on-eq :
    (slot : PostamatSchedule) (t k : ℕ)
    → IsWholeMinute slot
    → opening_on slot (t + days k) ≡ (t / us_day + k) * us_day + slot.opens_at
opening_on-eq slot t k h = omega (arith, day-add_days t k)
