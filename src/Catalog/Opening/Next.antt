-- ===== src/Catalog/Opening/Next.antt =====
-- `next_opening_after` finds the first instant at which the doors open again.
use poctamat_back.Common.{
  ℕ, ◌+◌, ◌*◌, ◌/◌, ◌%◌, ◌≤◌, ◌<◌, ◌≡◌, sym, ◌∙◌, inl, inr, true, false, none, some, List, arith,
  Bool-cases, some_injective,
}
use poctamat_back.Settings.{us_day}
use poctamat_back.Catalog.{Postamat, PostamatSchedule}
use poctamat_back.Catalog.Opening.{weekday, time_of, is_open_at, opening_from, next_opening_after}
use poctamat_back.Catalog.Opening.Calendar.{IsSchedule}
use poctamat_back.Catalog.Opening.Search.{
  open_by, opening_from-bound, opening_from-closed, opening_from-opens,
}

open_by-is_open_at :
    (p : Postamat) (t : ℕ) → p.round_the_clock ≡ false → is_open_at p t ≡ open_by p.schedule t
unfolding is_open_at
open_by-is_open_at p t e = rw e

pub always_open : (p : Postamat) (t : ℕ) → p.round_the_clock ≡ true → is_open_at p t ≡ false → ⊥
unfolding is_open_at
always_open p t e shut = ground arith

-- With a valid schedule that is not round the clock, an instant that `next_opening_after` answers
-- is after the moment, and the postamat is open then.
pub next_opening_after-opens :
    (p : Postamat) (moment c : ℕ)
    → IsSchedule p.schedule
    → p.round_the_clock ≡ false
    → next_opening_after p moment ≡ some c
    → (moment < c) × (is_open_at p c ≡ true)
unfolding next_opening_after
next_opening_after-opens p moment c h clock e =
    let (after, opens) = opening_from-opens p.schedule moment 0 8 c h (rw clock at e) in
    (after, open_by-is_open_at p c clock ∙ opens)

-- With a valid schedule, a postamat that is shut at the moment stays shut until the instant that
-- `next_opening_after` answers.
pub next_opening_after-first :
    (p : Postamat) (moment c t : ℕ)
    → IsSchedule p.schedule
    → is_open_at p moment ≡ false
    → next_opening_after p moment ≡ some c
    → moment ≤ t
    → t < c
    → is_open_at p t ≡ false
unfolding next_opening_after
next_opening_after-first p moment c t h shut e le lt = elim (Bool-cases p.round_the_clock) [
  | inl clock ↦ absurd (always_open p moment clock shut)
  | inr clock ↦
      let found : opening_from p.schedule moment 0 8 ≡ some c = rw clock at e in
      let last = opening_from-bound p.schedule moment 0 8 c h found in
      open_by-is_open_at p t clock
      ∙ opening_from-closed p.schedule moment 0 8 t h
          (sym (open_by-is_open_at p moment clock) ∙ shut) le (omega arith) (omega arith)
          (λ d g. omega (arith, some_injective (sym g ∙ found)))
]

-- The day after `moment` that falls on the weekday of `t`, at the time of `t`.
same_weekday : ℕ → ℕ → ℕ
same_weekday moment t =
    (moment / us_day + 1 + (t / us_day + 6 * (moment / us_day + 1)) % 7) * us_day + time_of t

same_weekday-weekday :
    (moment t : ℕ)
    → (weekday (same_weekday moment t) ≡ weekday t) × (time_of (same_weekday moment t) ≡ time_of t)
unfolding same_weekday
same_weekday-weekday moment t = (omega arith, omega arith)

same_weekday-bounds :
    (moment t : ℕ)
    → (moment ≤ same_weekday moment t)
      × (moment / us_day ≤ same_weekday moment t / us_day)
      × (same_weekday moment t / us_day < moment / us_day + 8)
unfolding same_weekday
same_weekday-bounds moment t = (omega arith, omega arith, omega arith)

open_by-same :
    (schedule : List PostamatSchedule) (t u : ℕ)
    → weekday t ≡ weekday u
    → time_of t ≡ time_of u
    → open_by schedule t ≡ open_by schedule u
open_by-same schedule t u day time = rw (day, time)

-- With a valid schedule, a postamat that is shut at the moment and for which no opening is found is
-- never open.
pub next_opening_after-never :
    (p : Postamat) (moment t : ℕ)
    → IsSchedule p.schedule
    → is_open_at p moment ≡ false
    → next_opening_after p moment ≡ none
    → is_open_at p t ≡ false
unfolding next_opening_after
next_opening_after-never p moment t h shut e = elim (Bool-cases p.round_the_clock) [
  | inl clock ↦ absurd (always_open p moment clock shut)
  | inr clock ↦
      let missing : opening_from p.schedule moment 0 8 ≡ none = rw clock at e in
      let u = same_weekday moment t in
      let (day, time) = same_weekday-weekday moment t in
      let (le, from, to) = same_weekday-bounds moment t in
      open_by-is_open_at p t clock
      ∙ sym (open_by-same p.schedule u t day time)
      ∙ opening_from-closed p.schedule moment 0 8 u h
          (sym (open_by-is_open_at p moment clock) ∙ shut) le (omega arith) (omega arith)
          (λ d g. cc)
]
