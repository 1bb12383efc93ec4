-- ===== src/Mobile/Create.antt =====
-- `create_booking` of backend/app/api/mobile/bookings.py: what it refuses before the allocation, and
-- the price it books at.
pub mod Priced
use Prim.Native.String.{String}
use package.text.Mathlib.Text.{◌==◌ as str_eq}
use poctamat_back.Common.{
  ℕ, Bool, true, false, not, ◌&&◌, Option, none, some, first, ◌==◌, if◌then◌else◌, or_text, get,
  Result, ok, ◌>>=◌, ◌>>◌, raise_if, or_raise, not_found, profile_incomplete,
  recipient_phone_same_as_sender, postamat_blocked, duration_not_supported,
}
use poctamat_back.Settings.{Settings}
use poctamat_back.Catalog.{PostamatStatus, Postamat, Tariff}
use poctamat_back.Booking.{Depositor, deposit, Booking}
use poctamat_back.Allocation.{Request, create_booking}
use poctamat_back.KeyValue.{text}
use poctamat_back.Identity.{Client}
use poctamat_back.Store.{Store}
use poctamat_back.Mobile.{Desk, profile_complete, send_code}

-- `BookingCreate`.
pub record BookingCreate : Type 0 where
  pub postamat_id : ℕ
  pub cell_type_id : ℕ
  pub duration_hours : ℕ
  pub recipient_phone : Option String
  pub recipient_name : Option String
  pub deposited_by : Depositor
  pub courier_phone : Option String

abbrev pub same_text : Option String → String → Bool
same_text none t = false
same_text (some s) t = str_eq s t

abbrev pub is_blocked_site : PostamatStatus → Bool
is_blocked_site PostamatStatus.blocked = true
is_blocked_site _ = false

abbrev pub prices : ℕ → BookingCreate → Tariff → Bool
prices city_id p t =
    t.city_id == city_id
    && (t.cell_type_id == p.cell_type_id && t.duration_hours == p.duration_hours)

-- The keyword arguments that the route passes on; the recipient is the caller if none is named.
abbrev pub request_of : ℕ → Client → Postamat → BookingCreate → Tariff → Request
request_of id client postamat p t = record {
  id = id;
  client_id = client.id;
  postamat_id = postamat.id;
  cell_type_id = p.cell_type_id;
  duration_hours = p.duration_hours;
  amount_minor = t.amount_minor;
  currency = t.currency;
  recipient_phone = or_text p.recipient_phone client.phone;
  recipient_name = p.recipient_name;
  depositor = p.deposited_by;
  courier_phone = p.courier_phone;
}

-- `if booking.courier_phone: await _send_code(…)`
abbrev pub tell_courier : Booking → Option String → Store → Store
tell_courier b none st = st
tell_courier b (some phone) st = if str_eq phone "" then st else send_code b deposit phone st

module _ (hash_pin : String → String) (s : Settings) where
  unfoldable pub create_route :
      ℕ → ℕ → ℕ → String → Client → BookingCreate → Desk → Result (Desk × Booking × String)
  create_route id now later code client p desk = do
    raise_if (not (profile_complete client)) profile_incomplete 422
    raise_if (same_text p.recipient_phone client.phone) recipient_phone_same_as_sender 422
    postamat ←
        or_raise (get (λ (x : Postamat). x.id) p.postamat_id desk.store.postamats) not_found 404
    raise_if (is_blocked_site postamat.status) postamat_blocked 409
    tariff ← or_raise (first (prices postamat.city_id p) desk.tariffs) duration_not_supported 422
    (rows, b, digits) ←
        create_booking hash_pin s desk.store.cells desk.store.bookings
          (request_of id client postamat p tariff) now later code
    ok (
      record desk {
        store = tell_courier b b.courier_phone (record desk.store { bookings = rows });
      },
      b,
      digits,
    )
