-- ===== src/Admin/Tariffs/Complete.antt =====
-- Whatever is priced, is priced once for every duration.
use Prim.Native.String.{String}
use poctamat_back.Common.{
  ℕ, suc, ◌≤◌, ◌≡◌, refl, sym, ap, ◌∙◌, subst, inl, inr, Bool, true, false, not, Bool-cases, List,
  [], ◌∷◌, map, Has, count_if, member, ◌==◌, ==_iff, ltb, if◌then◌else◌, arith, ok, raise_if-ok,
  ok_injective,
}
use poctamat_back.Settings.{Settings}
use poctamat_back.Catalog.{Tariff}
use poctamat_back.Mobile.Create.{BookingCreate, prices}
use poctamat_back.Admin.Tariffs.{
  TariffWrite, Market, all, is_valid, is_slot, is_seen, is_complete, is_city, has_duplicate,
  tariff_of, replace_tariffs,
}

all-Has :
    {A : Type 0} (p : A → Bool) (xs : List A) (x : A) → all p xs ≡ true → Has x xs → p x ≡ true
all-Has p [] x h m = absurd m
all-Has p (y ∷ ys) x h (inl same) = subst (λ z. p z ≡ true) (sym same) (ground (arith, h))
all-Has p (y ∷ ys) x h (inr m) = all-Has p ys x (ground (arith, h)) m

all-member :
    (p : ℕ → Bool) (xs : List ℕ) (x : ℕ) → all p xs ≡ true → member x xs ≡ true → p x ≡ true
all-member p [] x h m = cc
all-member p (y ∷ ys) x h m = elim (Bool-cases (y == x)) [
  | inl here ↦ subst (λ z. p z ≡ true) ((==_iff y x).0 here) (ground (arith, h))
  | inr other ↦ all-member p ys x (ground (arith, h)) (rw other at m)
]

Has-map :
    {A B : Type 0} (f : A → B) (xs : List A) (y : B)
    → Has y (map f xs)
    → (x : A) × Has x xs × (y ≡ f x)
Has-map f [] y m = absurd m
Has-map f (x ∷ xs) y (inl same) = (x, inl refl, same)
Has-map f (x ∷ xs) y (inr m) = let (z, n, same) = Has-map f xs y m in (z, inr n, same)

count-prices :
    (city_id : ℕ) (p : BookingCreate) (items : List TariffWrite)
    → count_if (prices city_id p) (map tariff_of items)
      ≡ count_if (is_slot city_id p.cell_type_id p.duration_hours) items
count-prices city_id p [] = refl
count-prices city_id p (item ∷ items) =
    ap (λ n. if is_slot city_id p.cell_type_id p.duration_hours item then suc n else n)
      (count-prices city_id p items)

is_slot-same :
    (city_id cell_type_id duration : ℕ) (item : TariffWrite)
    → is_slot city_id cell_type_id duration item ≡ true
    → (item.city_id ≡ city_id)
      × (item.cell_type_id ≡ cell_type_id)
      × (item.duration_hours ≡ duration)
is_slot-same city_id cell_type_id duration item h = ground arith

has_duplicate-le :
    (city_id cell_type_id duration : ℕ) (items : List TariffWrite)
    → has_duplicate items ≡ false
    → count_if (is_slot city_id cell_type_id duration) items ≤ 1
unfolding has_duplicate
has_duplicate-le c k d [] h = omega arith
has_duplicate-le c k d (item ∷ items) h = elim (Bool-cases (is_slot c k d item)) [
  | inl hit ↦
      let (city, size, duration) = is_slot-same c k d item hit in
      let no_more : ltb 0 (count_if (is_slot c k d) items) ≡ false =
        rw (sym city, sym size, sym duration) (ground (arith, h)) in
      rw hit (ground (arith, no_more))
  | inr miss ↦ rw miss (has_duplicate-le c k d items (ground (arith, h)))
]

-- After the price list was replaced, a booking of any rental duration finds exactly one tariff in
-- every city and for every size that have a tariff at all.
pub replace_tariffs-bookable :
    (s : Settings) (admin : String) (items : List TariffWrite) (market market' : Market)
    (t : Tariff) (p : BookingCreate)
    → replace_tariffs s admin items market ≡ ok market'
    → Has t market'.tariffs
    → member p.duration_hours s.rental_durations ≡ true
    → p.cell_type_id ≡ t.cell_type_id
    → count_if (prices t.city_id p) market'.tariffs ≡ 1
unfolding replace_tariffs is_complete
replace_tariffs-bookable s admin items market market' t p e m offered size =
    let (_, e₁) = raise_if-ok (not (all (is_valid s) items)) _ _ _ e in
    let (complete, e₂) = raise_if-ok (not (is_complete s items)) _ _ _ e₁ in
    let (_, e₃) = raise_if-ok (not (all (is_city market.cities) items)) _ _ _ e₂ in
    let (_, e₄) =
      raise_if-ok (not (all (λ item. member item.cell_type_id market.cell_types) items)) _ _ _ e₃ in
    let (single, e₅) = raise_if-ok (has_duplicate items) _ _ _ e₄ in
    let listed : map tariff_of items ≡ market'.tariffs =
      ap (λ (x : Market). x.tariffs) (ok_injective e₅) in
    let (item, stored, same) =
      Has-map tariff_of items t (subst (λ rows. Has t rows) (sym listed) m) in
    let seen =
      all-member (is_seen items item) s.rental_durations p.duration_hours
        (all-Has (λ item. all (is_seen items item) s.rental_durations) items item
          (ground (arith, complete)) stored)
        offered in
    let city : t.city_id ≡ item.city_id = ap (λ (x : Tariff). x.city_id) same in
    let kind : p.cell_type_id ≡ item.cell_type_id =
      size ∙ ap (λ (x : Tariff). x.cell_type_id) same in
    let most = has_duplicate-le t.city_id p.cell_type_id p.duration_hours items single in
    let least : ltb 0 (count_if (is_slot t.city_id p.cell_type_id p.duration_hours) items) ≡ true =
      rw (city, kind) seen in
    sym (ap (count_if (prices t.city_id p)) listed)
    ∙ (count-prices t.city_id p items ∙ ground (arith, most, least))
