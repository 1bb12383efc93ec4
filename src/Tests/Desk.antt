-- ===== src/Tests/Desk.antt =====
-- Examples of the booking routes of the mobile API.
use Prim.Native.String.{String}
use poctamat_back.Common.{
  ℕ, ◌≡◌, refl, false, none, some, [], ◌∷◌, inl, raise, arith, get, ◌≢◌, Result,
  code_resend_too_soon,
}
use poctamat_back.Catalog.{PostamatStatus, Postamat, Tariff}
use poctamat_back.Booking.{Booking, Depositor, pickup}
use poctamat_back.Allocation.{create_booking, held_cell_ids, new_booking, flush_new}
use poctamat_back.Catalog.Cells.{free_cell_ids, usable_cells, order_by_number, free_cells}
use poctamat_back.Booking.Codes.{code_matches, issue_code, replace_code, code_expiry}
use poctamat_back.Booking.Service.{record_event}
use poctamat_back.KeyValue.{KeyValueStore, get_value, live, entry_of}
use poctamat_back.Identity.{Client}
use poctamat_back.Mobile.{Desk}
use poctamat_back.Mobile.Create.{BookingCreate, create_route}
use poctamat_back.Mobile.Create.Priced.{IsFirst, IsPriced, create_route-IsPriced}
use poctamat_back.Mobile.Codes.{guard_resend}
use poctamat_back.Mobile.Codes.Reissue.{of_pickup, reissued-replaces, guard_resend-cools}
use poctamat_back.Mobile.Touched.{cancel_route}
use poctamat_back.Mobile.Serve.{serve, IsServed, serve-IsServed}
use poctamat_back.Tests.Bookings.{waiting-IsSingle, not_same, new_code}
use poctamat_back.Tests.{value_or, digest, settings, store, waiting, unpaid}

abbrev caller : Client
caller = record {
  id = 7;
  phone = "+99365000000";
  last_name = some "Berdiyev";
  first_name = some "Merdan";
  language = "tk";
  is_blocked = false;
  blocked_reason = none;
  blocked_at = none;
}

abbrev tariff : Tariff
tariff = record {
  city_id = 1;
  cell_type_id = 5;
  duration_hours = 24;
  amount_minor = 1500;
  currency = "TMT";
}

-- The same city and size, for another duration.
abbrev short : Tariff
short = record tariff { duration_hours = 12; amount_minor = 900 }

abbrev desk : Desk
desk = record {
  store = record store { bookings = unpaid ∷ [] };
  tariffs = short ∷ tariff ∷ [];
  kv = [];
}

serve-IsServed_example :
    IsServed digest settings caller 100 desk.store
      (serve digest settings caller 100 (cancel_route none) desk)
serve-IsServed_example = serve-IsServed digest settings caller 100 (cancel_route none) desk

abbrev wish : BookingCreate
wish = record {
  postamat_id = 1;
  cell_type_id = 5;
  duration_hours = 24;
  recipient_phone = none;
  recipient_name = none;
  deposited_by = Depositor.owner;
  courier_phone = none;
}

abbrev booked : Desk × Booking × String
booked =
    value_or (desk, unpaid, "") (create_route digest settings 200 10 11 "4711" caller wish desk)

create_route-IsPriced_example :
    (x : Postamat) × (t : Tariff) × (get (λ (y : Postamat). y.id) 1 desk.store.postamats ≡ some x)
    × (x.status ≢ PostamatStatus.blocked)
    × IsFirst x.city_id wish t desk.tariffs
    × IsPriced digest settings caller wish t booked.1
unfolding create_route create_booking free_cell_ids usable_cells order_by_number free_cells
    held_cell_ids new_booking flush_new record_event issue_code
create_route-IsPriced_example =
    create_route-IsPriced digest settings 200 10 11 "4711" caller wish desk booked.0 booked.1
      booked.2 refl

abbrev asked : KeyValueStore × Result ℕ
asked = guard_resend settings 5 6 101 pickup []

guard_resend-cools_example :
    (guard_resend settings 7 8 101 pickup asked.0).1 ≡ raise code_resend_too_soon 429
unfolding guard_resend get_value live entry_of
guard_resend-cools_example =
    guard_resend-cools settings 101 pickup 5 6 settings.code_resend_seconds 7 8 [] asked.0 refl
      (omega arith)

reissued-replaces_example : code_matches (digest "4711") new_code ≡ false
unfolding issue_code replace_code code_expiry record_event
reissued-replaces_example =
    reissued-replaces digest settings (of_pickup 0 1) "9999" "4711" waiting new_code
      waiting-IsSingle (inl refl) refl not_same
