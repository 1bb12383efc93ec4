-- ===== src/Catalog/Opening.antt =====
-- When a postamat is open, and when storage ends: backend/app/modules/catalog/service.py.
pub mod Calendar
pub mod Search
pub mod Next
pub mod Expiry
use poctamat_back.Common.{
  ℕ, zero, suc, ◌+◌, ◌*◌, ◌/◌, ◌%◌, Bool, true, false, ◌&&◌, Option, none, some, List, [], ◌∷◌, ltb,
  leb, ◌==◌, if◌then◌else◌,
}
use poctamat_back.Settings.{us_minute, us_day, days, hours}
use poctamat_back.Catalog.{Postamat, PostamatSchedule}

-- `moment.weekday()` and `moment.time()`.
abbrev pub weekday : ℕ → ℕ
weekday moment = moment / us_day % 7

abbrev pub time_of : ℕ → ℕ
time_of moment = moment % us_day

unfoldable pub slot_for : List PostamatSchedule → ℕ → Option PostamatSchedule
slot_for [] day = none
slot_for (slot ∷ slots) day = if slot.weekday == day then some slot else slot_for slots day

-- The window is half-open.
abbrev pub in_window : PostamatSchedule → ℕ → Bool
in_window slot time = leb slot.opens_at time && ltb time slot.closes_at

abbrev pub open_slot : Option PostamatSchedule → ℕ → Bool
open_slot none time = false
open_slot (some slot) time = in_window slot time

unfoldable pub is_open_at : Postamat → ℕ → Bool
is_open_at p moment =
    if p.round_the_clock
    then true
    else open_slot (slot_for p.schedule (weekday moment)) (time_of moment)

-- `day.replace(hour=…, minute=…, second=0, microsecond=0)`: the opening to the minute, on that day.
abbrev pub opening_on : PostamatSchedule → ℕ → ℕ
opening_on slot day = day / us_day * us_day + slot.opens_at / us_minute * us_minute

-- The rounds `offset, offset + 1, …` of the loop `for offset in range(8)`.
unfoldable pub opening_from : List PostamatSchedule → ℕ → ℕ → ℕ → Option ℕ
opening_from schedule moment offset zero = none
opening_from schedule moment offset (suc rounds) =
    let later = opening_from schedule moment (suc offset) rounds in
    let day = moment + days offset in
    elim (slot_for schedule (weekday day)) [
      | none ↦ later
      | some slot ↦ if ltb moment (opening_on slot day) then some (opening_on slot day) else later
    ]

unfoldable pub next_opening_after : Postamat → ℕ → Option ℕ
unfolding opening_from
next_opening_after p moment =
    if p.round_the_clock then some moment else opening_from p.schedule moment 0 8

unfoldable pub storage_expiry : Postamat → ℕ → ℕ → ℕ
storage_expiry p deposited_at duration_hours =
    let plain = deposited_at + hours duration_hours in
    if is_open_at p plain
    then plain
    else elim (next_opening_after p plain) [ none ↦ plain | some opening ↦ opening ]
