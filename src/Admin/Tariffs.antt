-- ===== src/Admin/Tariffs.antt =====
-- The price list: `replace_tariffs` of backend/app/api/admin/tariffs.py, with the validators of its
-- body.
pub mod Complete
use Prim.Native.String.{String, ◌++◌ as append}
use poctamat_back.Common.{
  ℕ, Bool, true, false, not, ◌&&◌, ◌||◌, Option, none, some, List, [], ◌∷◌, map, ltb, leb, ◌==◌,
  get, is_some, length, count_if, member, Result, ok, ◌>>=◌, ◌>>◌, raise_if, validation_error,
  tariff_incomplete, city_not_available, not_found, internal_error,
}
use poctamat_back.Settings.{Settings}
use poctamat_back.Catalog.{Tariff}
use poctamat_back.Audit.{AuditEntry, Severity, Source, log}
use poctamat_back.Admin.Numbers.{str}

pub record TariffWrite : Type 0 where
  pub city_id : ℕ
  pub cell_type_id : ℕ
  pub duration_hours : ℕ
  pub amount_minor : ℕ
  pub currency : String

pub record City : Type 0 where
  pub id : ℕ
  pub is_active : Bool

-- The price list, and the tables that a new one is checked against.
pub record Market : Type 0 where
  pub tariffs : List Tariff
  pub cities : List City
  pub cell_types : List ℕ
  pub audits : List AuditEntry

abbrev pub all {ℓ} : {A : Type ℓ} → (A → Bool) → List A → Bool
all p [] = true
all p (x ∷ xs) = p x && all p xs

-- `_known_duration` and `_a_believable_price`; an amount is no negative number here.
abbrev pub is_valid : Settings → TariffWrite → Bool
is_valid s item = member item.duration_hours s.rental_durations && leb item.amount_minor 1_000_000

abbrev pub is_slot : ℕ → ℕ → ℕ → TariffWrite → Bool
is_slot city_id cell_type_id duration item =
    item.city_id == city_id
    && (item.cell_type_id == cell_type_id && item.duration_hours == duration)

-- The durations of the item's city and size that the matrix prices: `seen[…]`.
abbrev pub is_seen : List TariffWrite → TariffWrite → ℕ → Bool
is_seen items item duration =
    ltb 0 (count_if (is_slot item.city_id item.cell_type_id duration) items)

-- No pair has `required - durations`.
unfoldable pub is_complete : Settings → List TariffWrite → Bool
is_complete s items = all (λ item. all (is_seen items item) s.rental_durations) items

abbrev pub is_city : List City → TariffWrite → Bool
is_city [] item = false
is_city (c ∷ cities) item = (c.id == item.city_id && c.is_active) || is_city cities item

-- The unique index on city, size and duration refuses a second row.
unfoldable pub has_duplicate : List TariffWrite → Bool
has_duplicate [] = false
has_duplicate (item ∷ items) =
    ltb 0 (count_if (is_slot item.city_id item.cell_type_id item.duration_hours) items)
    || has_duplicate items

abbrev pub tariff_of : TariffWrite → Tariff
tariff_of item = record {
  city_id = item.city_id;
  cell_type_id = item.cell_type_id;
  duration_hours = item.duration_hours;
  amount_minor = item.amount_minor;
  currency = item.currency;
}

unfoldable pub replace_tariffs : Settings → String → List TariffWrite → Market → Result Market
replace_tariffs s admin items market = do
  raise_if (not (all (is_valid s) items)) validation_error 422
  raise_if (not (is_complete s items)) tariff_incomplete 422
  raise_if (not (all (is_city market.cities) items)) city_not_available 422
  raise_if (not (all (λ item. member item.cell_type_id market.cell_types) items)) not_found 404
  raise_if (has_duplicate items) internal_error 500
  ok (record market {
    tariffs = map tariff_of items;
    audits = log market.audits (record {
      event = "tariffs.replaced";
      source = Source.admin;
      severity = Severity.info;
      message = append "Tariff matrix replaced with " (append (str (length items)) " entries");
      actor = some admin;
      postamat_id = none;
      cell_id = none;
      details = none;
    });
  })
