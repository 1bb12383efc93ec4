-- ===== src/Catalog/Opening/Expiry.antt =====
-- `storage_expiry`: storage ends at the first instant from the plain clock on at which the recipient
-- can reach the cell.
use poctamat_back.Common.{
  ℕ, ◌+◌, ◌≤◌, ◌<◌, ◌≡◌, refl, ◌⊎◌, inl, inr, true, false, some, arith, Bool-cases, Option-cases,
}
use poctamat_back.Settings.{hours}
use poctamat_back.Catalog.{Postamat}
use poctamat_back.Catalog.Opening.{is_open_at, next_opening_after, storage_expiry}
use poctamat_back.Catalog.Opening.Calendar.{IsSchedule}
use poctamat_back.Catalog.Opening.Next.{
  always_open, next_opening_after-opens, next_opening_after-first, next_opening_after-never,
}

-- `e` is the first instant from `plain` on at which the postamat is open; where it never opens, `e`
-- is `plain`.
pub record IsExpiry (p : Postamat) (plain e : ℕ) : Type 0 where
  pub later : plain ≤ e
  pub shut_until : (t : ℕ) → plain ≤ t → t < e → is_open_at p t ≡ false
  pub reachable : (is_open_at p e ≡ true) ⊎ ((e ≡ plain) × ((t : ℕ) → is_open_at p t ≡ false))

later_opening :
    (p : Postamat) (plain c : ℕ)
    → IsSchedule p.schedule
    → is_open_at p plain ≡ false
    → next_opening_after p plain ≡ some c
    → IsExpiry p plain c
later_opening p plain c h shut found = elim (Bool-cases p.round_the_clock) [
  | inl clock ↦ absurd (always_open p plain clock shut)
  | inr clock ↦
      let (after, opens) = next_opening_after-opens p plain c h clock found in
      record {
        later = omega arith;
        shut_until = λ t. next_opening_after-first p plain c t h shut found;
        reachable = inl opens;
      }
]

-- For a valid schedule storage ends at the first open instant not before deposit plus duration, or
-- at that plain instant if the postamat never opens.
pub storage_expiry-IsExpiry :
    (p : Postamat) (deposited_at duration_hours : ℕ)
    → IsSchedule p.schedule
    → IsExpiry p
        (deposited_at + hours duration_hours)
        (storage_expiry p deposited_at duration_hours)
unfolding storage_expiry
storage_expiry-IsExpiry p deposited_at duration_hours h =
    let plain = deposited_at + hours duration_hours in
    elim (Bool-cases (is_open_at p plain)) [
      | inl open_now ↦ rw open_now (record {
        later = omega arith;
        shut_until = λ t le lt. absurd (omega arith);
        reachable = inl open_now;
      })
      | inr shut ↦ rw shut (elim (Option-cases (next_opening_after p plain)) [
        | inl never ↦ rw never (record {
          later = omega arith;
          shut_until = λ t le lt. absurd (omega arith);
          reachable = inr (refl, λ t. next_opening_after-never p plain t h shut never);
        })
        | inr (c, found) ↦ rw found (later_opening p plain c h shut found)
      ])
    ]
