-- ===== src/Catalog/Opening/Search.antt =====
-- The loop of `next_opening_after`, round by round.
use poctamat_back.Common.{
  ℕ, zero, suc, ◌+◌, ◌/◌, ◌≤◌, ◌<◌, ◌≡◌, sym, subst, ◌∙◌, inl, inr, Bool, true, false, none, some,
  List, arith, lt→ltb, Option-cases, some_injective,
}
use native.Mathlib.Decide.{dec_lt}
use poctamat_back.Settings.{us_day, days}
use poctamat_back.Catalog.{PostamatSchedule}
use poctamat_back.Catalog.Opening.{
  weekday, time_of, slot_for, in_window, open_slot, opening_on, opening_from,
}
use poctamat_back.Catalog.Opening.Calendar.{
  IsWindow, IsWholeMinute, IsSchedule, slot_for-IsWindow, opening_on-eq,
}

abbrev pub open_by : List PostamatSchedule → ℕ → Bool
open_by schedule t = open_slot (slot_for schedule (weekday t)) (time_of t)

-- The opening of a day's slot lies in that slot's window.
open_by-opening_on :
    (schedule : List PostamatSchedule) (slot : PostamatSchedule) (day : ℕ)
    → IsWindow slot
    → IsWholeMinute slot
    → slot_for schedule (weekday day) ≡ some slot
    → open_by schedule (opening_on slot day) ≡ true
open_by-opening_on schedule slot day w m e =
    let same : weekday (opening_on slot day) ≡ weekday day = omega arith in
    rw (same, e) (ground arith)

module _ (schedule : List PostamatSchedule) (moment offset rounds : ℕ) where
  -- One round, by what it finds.
  round_none :
      slot_for schedule (weekday (moment + days offset)) ≡ none
      → opening_from schedule moment offset (suc rounds)
        ≡ opening_from schedule moment (suc offset) rounds
  unfolding opening_from
  round_none e = rw (e, opening_from)

  round_hit :
      (slot : PostamatSchedule)
      → slot_for schedule (weekday (moment + days offset)) ≡ some slot
      → moment < opening_on slot (moment + days offset)
      → opening_from schedule moment offset (suc rounds)
        ≡ some (opening_on slot (moment + days offset))
  unfolding opening_from
  round_hit slot e hit = rw (e, opening_from) (rw (lt→ltb _ _ hit))

  round_miss :
      (slot : PostamatSchedule)
      → slot_for schedule (weekday (moment + days offset)) ≡ some slot
      → ¬ (moment < opening_on slot (moment + days offset))
      → opening_from schedule moment offset (suc rounds)
        ≡ opening_from schedule moment (suc offset) rounds
  unfolding opening_from
  round_miss slot e miss = rw (e, opening_from) (ground arith)

-- What a round returns lies after `moment` and in the window of its own day.
pub opening_from-opens :
    (schedule : List PostamatSchedule) (moment offset rounds c : ℕ)
    → IsSchedule schedule
    → opening_from schedule moment offset rounds ≡ some c
    → (moment < c) × (open_by schedule c ≡ true)
unfolding opening_from
opening_from-opens schedule moment offset zero c h e = cc
opening_from-opens schedule moment offset (suc rounds) c h e =
    let day = moment + days offset in
    let later = opening_from-opens schedule moment (suc offset) rounds c h in
    elim (Option-cases (slot_for schedule (weekday day))) [
      | inl free ↦ later (rw (round_none schedule moment offset rounds free) at e)
      | inr (slot, found) ↦
          let valid = slot_for-IsWindow (weekday day) schedule slot h found in
          elim (dec_lt moment (opening_on slot day)) [
            | yes hit ↦
                let eq =
                  some_injective
                    (sym (round_hit schedule moment offset rounds slot found hit) ∙ e) in
                subst (λ o. (moment < o) × (open_by schedule o ≡ true)) eq
                  (hit, open_by-opening_on schedule slot day valid.0 valid.1 found)
            | no miss ↦ later (rw (round_miss schedule moment offset rounds slot found miss) at e)
          ]
    ]

-- The rounds look at no day past the last.
pub opening_from-bound :
    (schedule : List PostamatSchedule) (moment offset rounds c : ℕ)
    → IsSchedule schedule
    → opening_from schedule moment offset rounds ≡ some c
    → c / us_day < moment / us_day + offset + rounds
unfolding opening_from
opening_from-bound schedule moment offset zero c h e = cc
opening_from-bound schedule moment offset (suc rounds) c h e =
    let day = moment + days offset in
    let later = opening_from-bound schedule moment (suc offset) rounds c h in
    elim (Option-cases (slot_for schedule (weekday day))) [
      | inl free ↦ omega (arith, later (sym (round_none schedule moment offset rounds free) ∙ e))
      | inr (slot, found) ↦
          let valid = slot_for-IsWindow (weekday day) schedule slot h found in
          elim (dec_lt moment (opening_on slot day)) [
            | yes hit ↦ omega (
              arith,
              some_injective (sym (round_hit schedule moment offset rounds slot found hit) ∙ e),
              opening_on-eq slot moment offset valid.1,
            )
            | no miss ↦
                omega (
                  arith,
                  later (sym (round_miss schedule moment offset rounds slot found miss) ∙ e),
                )
          ]
    ]

-- On the day of a slot that has opened by `moment`, the doors stay shut if they are shut at
-- `moment`.
shut_past :
    (slot : PostamatSchedule) (moment t : ℕ)
    → IsWindow slot
    → in_window slot (time_of moment) ≡ false
    → slot.opens_at ≤ time_of moment
    → time_of moment ≤ time_of t
    → in_window slot (time_of t) ≡ false
shut_past slot moment t w shut opened le = ground arith

-- Before the opening of the day's slot, the doors are shut.
shut_before :
    (slot : PostamatSchedule) (t : ℕ)
    → time_of t < slot.opens_at
    → in_window slot (time_of t) ≡ false
shut_before slot t h = ground arith

weekday-add_days :
    (moment t offset : ℕ)
    → t / us_day ≡ moment / us_day + offset
    → weekday t ≡ weekday (moment + days offset)
weekday-add_days moment t offset e = omega arith

-- A slot of the rounds whose opening is not after `moment` is one of the day of `moment`.
missed_today :
    (slot : PostamatSchedule) (moment offset : ℕ)
    → IsWindow slot
    → IsWholeMinute slot
    → ¬ (moment < opening_on slot (moment + days offset))
    → (offset ≡ 0) × (slot.opens_at ≤ time_of moment)
missed_today slot moment offset w m miss =
    let e = opening_on-eq slot moment offset m in (omega (arith, e), omega (arith, e))

-- The doors are shut on the day of one round, up to the round's own opening.
shut_on_day :
    (schedule : List PostamatSchedule) (moment offset rounds t : ℕ)
    → IsSchedule schedule
    → open_by schedule moment ≡ false
    → moment ≤ t
    → t / us_day ≡ moment / us_day + offset
    → ((c : ℕ) → opening_from schedule moment offset (suc rounds) ≡ some c → t < c)
    → open_by schedule t ≡ false
shut_on_day schedule moment offset rounds t h shut le same before =
    let day = moment + days offset in
    rw (weekday-add_days moment t offset same)
      (elim (Option-cases (slot_for schedule (weekday day))) [
        | inl free ↦ rw free
        | inr (slot, found) ↦
            let valid = slot_for-IsWindow (weekday day) schedule slot h found in
            rw found (elim (dec_lt moment (opening_on slot day)) [
              | yes hit ↦ shut_before slot t (
                  omega (
                    arith,
                    before _ (round_hit schedule moment offset rounds slot found hit),
                    opening_on-eq slot moment offset valid.1,
                  ))
              | no miss ↦
                  let today = missed_today slot moment offset valid.0 valid.1 miss in
                  let same_day : weekday moment ≡ weekday day = omega (arith, today.0) in
                  shut_past slot moment t valid.0 (rw (same_day, found) at shut) today.1
                    (omega (arith, today.0))
            ])
      ])

-- A day after the round's: the round did not end the loop, so the bound passes to the rest.
before_later :
    (schedule : List PostamatSchedule) (moment offset rounds t c : ℕ)
    → IsSchedule schedule
    → moment / us_day + offset < t / us_day
    → ((c : ℕ) → opening_from schedule moment offset (suc rounds) ≡ some c → t < c)
    → opening_from schedule moment (suc offset) rounds ≡ some c
    → t < c
before_later schedule moment offset rounds t c h past before e =
    let day = moment + days offset in
    elim (Option-cases (slot_for schedule (weekday day))) [
      | inl free ↦ before c (round_none schedule moment offset rounds free ∙ e)
      | inr (slot, found) ↦
          let valid = slot_for-IsWindow (weekday day) schedule slot h found in
          elim (dec_lt moment (opening_on slot day)) [
            | yes hit ↦ absurd (
                omega (
                  arith,
                  before _ (round_hit schedule moment offset rounds slot found hit),
                  opening_on-eq slot moment offset valid.1,
                ))
            | no miss ↦ before c (round_miss schedule moment offset rounds slot found miss ∙ e)
          ]
    ]

-- Until the rounds' result the doors stay shut, if they are shut at `moment`: the days of the
-- rounds run from `offset` to `offset + rounds`, and `t` lies on one of them.
pub opening_from-closed :
    (schedule : List PostamatSchedule) (moment offset rounds t : ℕ)
    → IsSchedule schedule
    → open_by schedule moment ≡ false
    → moment ≤ t
    → moment / us_day + offset ≤ t / us_day
    → t / us_day < moment / us_day + offset + rounds
    → ((c : ℕ) → opening_from schedule moment offset rounds ≡ some c → t < c)
    → open_by schedule t ≡ false
opening_from-closed schedule moment offset zero t h shut le from to before = absurd (omega arith)
opening_from-closed schedule moment offset (suc rounds) t h shut le from to before =
    elim (dec_lt (moment / us_day + offset) (t / us_day)) [
      | yes past ↦
          opening_from-closed schedule moment (suc offset) rounds t h shut le (omega arith)
            (omega arith) (λ c e. before_later schedule moment offset rounds t c h past before e)
      | no today ↦ shut_on_day schedule moment offset rounds t h shut le (omega arith) before
    ]
