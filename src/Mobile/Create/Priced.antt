-- ===== src/Mobile/Create/Priced.antt =====
-- What a booking made through the mobile API was checked against.
use Prim.Native.String.{String}
use poctamat_back.Common.{
  ℕ, ◌≡◌, refl, sym, ap, subst, ◌∙◌, true, false, not, some, List, [], ◌∷◌, first, or_text, get,
  get-Has, ok, >>=-eq-ok, raise_if-ok, or_raise, or_raise-ok, ok_injective, not_found,
  duration_not_supported, arith, ◌≢◌, Bool-cases, inl, inr, some_injective,
}
use poctamat_back.Settings.{Settings}
use poctamat_back.Catalog.{PostamatStatus, Postamat, Cell, Tariff}
use poctamat_back.Booking.{pending_payment, Booking}
use poctamat_back.Booking.Codes.{issue_code}
use poctamat_back.Booking.Service.{record_event}
use poctamat_back.Allocation.{Request, create_booking, take_first, flush_new, new_booking}
use poctamat_back.Identity.{Client}
use poctamat_back.Mobile.{Desk, profile_complete}
use poctamat_back.Mobile.Create.{
  BookingCreate, same_text, is_blocked_site, prices, request_of, tell_courier, create_route,
}

-- The checks that a booking has passed, with the postamat and the tariff that were found.
pub record IsChecked (hash_pin : String → String) (s : Settings) (id now later : ℕ) (code : String)
    (client : Client) (p : BookingCreate) (desk desk' : Desk) (b : Booking) (digits : String)
    : Type 0 where
  pub named : profile_complete client ≡ true
  pub other_number : same_text p.recipient_phone client.phone ≡ false
  pub postamat : Postamat
  pub found : get (λ (x : Postamat). x.id) p.postamat_id desk.store.postamats ≡ some postamat
  pub in_service : is_blocked_site postamat.status ≡ false
  pub tariff : Tariff
  pub priced : first (prices postamat.city_id p) desk.tariffs ≡ some tariff
  pub rows : List Booking
  pub allocated :
      create_booking hash_pin s desk.store.cells desk.store.bookings
        (request_of id client postamat p tariff)
        now
        later
        code
      ≡ ok (rows, b, digits)
  pub stored : desk' ≡ record desk {
    store = tell_courier b b.courier_phone (record desk.store { bookings = rows });
  }

-- The tariff is of the city, and of the size and the duration that are asked for.
abbrev pub Fits : ℕ → BookingCreate → Tariff → Type 0
Fits city_id p t =
    (t.city_id ≡ city_id)
    × (t.cell_type_id ≡ p.cell_type_id)
    × (t.duration_hours ≡ p.duration_hours)

-- It is the first one of the list that fits.
pub data IsFirst (city_id : ℕ) (p : BookingCreate) (t : Tariff) : List Tariff → Type 0 where
  here : (rows : List Tariff) → Fits city_id p t → IsFirst city_id p t (t ∷ rows)
  there :
      (other : Tariff) (rows : List Tariff)
      → ¬ Fits city_id p other
      → IsFirst city_id p t rows
      → IsFirst city_id p t (other ∷ rows)

prices-Fits :
    (city_id : ℕ) (p : BookingCreate) (t : Tariff) → prices city_id p t ≡ true → Fits city_id p t
prices-Fits city_id p t e = ground arith

Fits-prices :
    (city_id : ℕ) (p : BookingCreate) (t : Tariff) → Fits city_id p t → prices city_id p t ≡ true
Fits-prices city_id p t (city, size, duration) = ground arith

first-IsFirst :
    (city_id : ℕ) (p : BookingCreate) (t : Tariff) (rows : List Tariff)
    → first (prices city_id p) rows ≡ some t
    → IsFirst city_id p t rows
first-IsFirst city_id p t [] e = cc
first-IsFirst city_id p t (u ∷ rows) e = elim (Bool-cases (prices city_id p u)) [
  | inl hit ↦
      let same = some_injective (rw hit at e) in
      subst (λ x. IsFirst city_id p x (u ∷ rows)) same (here rows (prices-Fits city_id p u hit))
  | inr miss ↦
      there u rows (λ fits. let hit = Fits-prices city_id p u fits in cc)
        (first-IsFirst city_id p t rows (rw miss at e))
]

serves-not_blocked :
    (status : PostamatStatus) → is_blocked_site status ≡ false → status ≢ PostamatStatus.blocked
serves-not_blocked status e same = let out : is_blocked_site status ≡ true = rw same refl in cc

module _ (hash_pin : String → String) (s : Settings) where
  pub create_route-IsChecked :
      (id now later : ℕ) (code : String) (client : Client) (p : BookingCreate) (desk desk' : Desk)
      (b : Booking) (digits : String)
      → create_route hash_pin s id now later code client p desk ≡ ok (desk', b, digits)
      → IsChecked hash_pin s id now later code client p desk desk' b digits
  unfolding create_route
  create_route-IsChecked id now later code client p desk desk' b digits e =
      let (named, e1) = raise_if-ok (not (profile_complete client)) _ _ _ e in
      let (other, e2) = raise_if-ok (same_text p.recipient_phone client.phone) _ _ _ e1 in
      let (postamat, found, e3) =
        >>=-eq-ok
          (or_raise (get (λ (x : Postamat). x.id) p.postamat_id desk.store.postamats) not_found 404)
          _ e2 in
      let (serves, e4) = raise_if-ok (is_blocked_site postamat.status) _ _ _ e3 in
      let (tariff, priced, e5) =
        >>=-eq-ok
          (or_raise (first (prices postamat.city_id p) desk.tariffs) duration_not_supported 422) _
          e4 in
      let ((rows, b', digits'), allocated, written) =
        >>=-eq-ok
          (create_booking hash_pin s desk.store.cells desk.store.bookings
            (request_of id client postamat p tariff) now later code)
          _ e5 in
      let same = ok_injective written in
      record {
        named = ground (arith, named);
        other_number = other;
        postamat = postamat;
        found = or_raise-ok _ not_found 404 found;
        in_service = serves;
        tariff = tariff;
        priced = or_raise-ok _ duration_not_supported 422 priced;
        rows = rows;
        allocated = allocated ∙ ap (λ (x : Desk × Booking × String). ok (rows, x.1, x.2)) same;
        stored =
            subst
              (λ (y : Booking). desk' ≡ record desk {
                store = tell_courier y y.courier_phone (record desk.store { bookings = rows });
              })
              (ap (λ (x : Desk × Booking × String). x.1) same)
              (sym (ap (λ (x : Desk × Booking × String). x.0) same));
      }

  flush_new-row :
      (bookings rows : List Booking) (b b' : Booking) (code code' : String)
      → flush_new bookings b code ≡ ok (rows, b', code')
      → b' ≡ b
  unfolding flush_new
  flush_new-row bookings rows b b' code code' e = ground (arith, e)

  -- The row of an allocation is the new booking at some cell.
  take_first-row :
      (bookings rows : List Booking) (r : Request) (now later : ℕ) (code code' : String)
      (b : Booking) (ids : List ℕ)
      → take_first hash_pin s bookings r now later code ids ≡ ok (rows, b, code')
      → (cell_id : ℕ) × (b ≡ new_booking hash_pin s r cell_id now later code)
  take_first-row bookings rows r now later code code' b [] e = cc
  take_first-row bookings rows r now later code code' b (cell_id ∷ ids) e =
      (cell_id, flush_new-row bookings rows _ b code code' e)

  create_booking-row :
      (cells : List Cell) (bookings rows : List Booking) (r : Request) (now later : ℕ)
      (code code' : String) (b : Booking)
      → create_booking hash_pin s cells bookings r now later code ≡ ok (rows, b, code')
      → (cell_id : ℕ) × (b ≡ new_booking hash_pin s r cell_id now later code)
  unfolding create_booking
  create_booking-row cells bookings rows r now later code code' b e =
      take_first-row bookings rows r now later code code' b _ e

  -- What the new booking says, by the caller, the request and the tariff.
  pub record IsPriced (client : Client) (p : BookingCreate) (t : Tariff) (b : Booking)
      : Type 0 where
    pub of_caller : b.client_id ≡ client.id
    pub at_site : b.postamat_id ≡ p.postamat_id
    pub of_size : b.cell_type_id ≡ p.cell_type_id
    pub lasts : b.duration_hours ≡ p.duration_hours
    pub costs : b.amount_minor ≡ t.amount_minor
    pub in_currency : b.currency ≡ t.currency
    pub unpaid : b.status ≡ pending_payment
    pub for_someone : b.recipient_phone ≡ or_text p.recipient_phone client.phone

  new_booking-IsPriced :
      (id cell_id now later : ℕ) (code : String) (client : Client) (site : Postamat)
      (p : BookingCreate) (t : Tariff)
      → site.id ≡ p.postamat_id
      → IsPriced client p t
          (new_booking hash_pin s (request_of id client site p t) cell_id now later code)
  unfolding new_booking record_event issue_code
  new_booking-IsPriced id cell_id now later code client site p t e = record {
    of_caller = refl;
    at_site = e;
    of_size = refl;
    lasts = refl;
    costs = refl;
    in_currency = refl;
    unpaid = refl;
    for_someone = refl;
  }

  -- A booking that the mobile API creates stands at the requested postamat, whose status is not
  -- blocked, has the requested size and duration, and costs what the first tariff with the
  -- postamat's city, that size and that duration says; it is the caller's, unpaid, and for the
  -- named recipient or else the caller.
  pub create_route-IsPriced :
      (id now later : ℕ) (code : String) (client : Client) (p : BookingCreate) (desk desk' : Desk)
      (b : Booking) (digits : String)
      → create_route hash_pin s id now later code client p desk ≡ ok (desk', b, digits)
      → (site : Postamat) × (t : Tariff) × (get
            (λ (x : Postamat). x.id)
            p.postamat_id
            desk.store.postamats
          ≡ some site)
        × (site.status ≢ PostamatStatus.blocked)
        × IsFirst site.city_id p t desk.tariffs
        × IsPriced client p t b
  create_route-IsPriced id now later code client p desk desk' b digits e =
      let c = create_route-IsChecked id now later code client p desk desk' b digits e in
      let (cell_id, same) =
        create_booking-row desk.store.cells desk.store.bookings c.rows
          (request_of id client c.postamat p c.tariff) now later code digits b c.allocated in
      (
        c.postamat,
        c.tariff,
        c.found,
        serves-not_blocked c.postamat.status c.in_service,
        first-IsFirst c.postamat.city_id p c.tariff desk.tariffs c.priced,
        subst (IsPriced client p c.tariff) (sym same) (
            new_booking-IsPriced id cell_id now later code client c.postamat p c.tariff
              (get-Has (λ (x : Postamat). x.id) p.postamat_id c.postamat desk.store.postamats
                c.found).1),
      )
