-- ===== src/Tests/Sites.antt =====
-- Examples of the catalogue and of the allocation.
use Prim.Native.String.{String}
use poctamat_back.Common.{
  ℕ, ◌+◌, ◌*◌, ◌≡◌, refl, sym, ap, ◌∙◌, ◌⊎◌, inl, inr, none, List, [], ◌∷◌, Has, arith, ok, raise,
  no_free_cells,
}
use poctamat_back.Settings.{us_hour, us_day, hours}
use poctamat_back.Catalog.{Cell}
use poctamat_back.Catalog.Opening.{storage_expiry}
use poctamat_back.Catalog.Opening.Expiry.{IsExpiry, storage_expiry-IsExpiry}
use poctamat_back.Booking.{Depositor, Booking}
use poctamat_back.Allocation.{Request, create_booking}
use poctamat_back.Allocation.Success.{IsLocated, IsVacant, IsAllocated, create_booking_lem}
use poctamat_back.Pages.Walk.{walk, walk-all}
use poctamat_back.Tests.{digest, settings, site, site-IsSchedule, cells, unpaid}

-- A Monday evening, and the Wednesday opening after it.
abbrev evening : ℕ
evening = 20 * us_hour

abbrev wednesday_opening : ℕ
wednesday_opening = 2 * us_day + 9 * us_hour

storage_expiry-IsExpiry_example :
    IsExpiry site (12 * us_hour + hours 8) (storage_expiry site (12 * us_hour) 8)
storage_expiry-IsExpiry_example = storage_expiry-IsExpiry site (12 * us_hour) 8 site-IsSchedule

abbrev request : Request
request = record {
  id = 200;
  client_id = 9;
  postamat_id = 1;
  cell_type_id = 5;
  duration_hours = 24;
  amount_minor = 1500;
  currency = "TMT";
  recipient_phone = "+99365000001";
  recipient_name = none;
  depositor = Depositor.owner;
  courier_phone = none;
}

-- The two cells have different ids.
cells_unique : (c d : Cell) → Has c cells → Has d cells → c.id ≡ d.id → c ≡ d
cells_unique c d (inl p) (inl q) e = p ∙ sym q
cells_unique c d (inl p) (inr (inl q)) e =
    absurd (omega (arith, e, ap (λ (x : Cell). x.id) p, ap (λ (x : Cell). x.id) q))
cells_unique c d (inr (inl p)) (inl q) e =
    absurd (omega (arith, e, ap (λ (x : Cell). x.id) p, ap (λ (x : Cell). x.id) q))
cells_unique c d (inr (inl p)) (inr (inl q)) e = p ∙ sym q
cells_unique c d (inl p) (inr (inr n)) e = absurd n
cells_unique c d (inr (inl p)) (inr (inr n)) e = absurd n
cells_unique c d (inr (inr m)) n e = absurd m

at_site : (c : Cell) → Has c cells → c.postamat_id ≡ 1
at_site c (inl p) = ap (λ (x : Cell). x.postamat_id) p
at_site c (inr (inl p)) = ap (λ (x : Cell). x.postamat_id) p
at_site c (inr (inr m)) = absurd m

pub unpaid-IsLocated : IsLocated cells (unpaid ∷ [])
unpaid-IsLocated = record { unique = cells_unique; placed = (λ c m e. at_site c m, tt) }

create_booking_lem_example :
    ((create_booking digest settings cells (unpaid ∷ []) request 0 1 "4711"
        ≡ raise no_free_cells 409)
      × ((d : Cell) → Has d cells → ¬ IsVacant (unpaid ∷ []) 1 5 d))
    ⊎ ((x : List Booking × Booking × String) × (create_booking digest settings cells
            (unpaid ∷ [])
            request
            0
            1
            "4711"
          ≡ ok x)
        × IsAllocated digest settings cells (unpaid ∷ []) request 0 1 "4711" x)
create_booking_lem_example =
    create_booking_lem digest settings cells (unpaid ∷ []) request 0 1 "4711" unpaid-IsLocated

abbrev stamps : List (ℕ × ℕ)
stamps = (9, 1) ∷ (7, 4) ∷ (7, 2) ∷ (3, 8) ∷ []

walk-all_example : walk (λ r. r.0) (λ r. r.1) 5 2 none stamps ≡ stamps
walk-all_example =
    walk-all (λ r. r.0) (λ r. r.1) 2 stamps (omega arith)
      ((refl, (refl, (refl, tt))), ((refl, (refl, tt)), ((refl, tt), (tt, tt))))
