-- ===== src/KeyValue/View.antt =====
-- What the store holds at an instant, as a map from keys to live entries: an entry that has run out
-- is not there, whether or not the dictionary still has it.
use package.text.Mathlib.TextEquality.{eq_iff}
use mathlib.Core.Option.{map as map_option}
use poctamat_back.Common.{
  ap, ℕ, ◌≤◌, ◌≡◌, refl, ◌↔◌, inl, inr, true, Option, none, some, [], ◌∷◌, leb, if◌then◌else◌,
  Bool-cases, arith, subst,
}
use poctamat_back.Booking.{CodePurpose, deposit, pickup}
use poctamat_back.Booking.Codes.{same_purpose}
use poctamat_back.KeyValue.{
  Key, otp_request, otp_phone, rate, code_resend, same_key, Entry, KeyValueStore, entry_of, delete,
  store_entry, live_or_drop, live, get_value,
}

same_purpose_iff : (c d : CodePurpose) → (same_purpose c d ≡ true) ↔ (c ≡ d)
same_purpose_iff deposit deposit = ground arith
same_purpose_iff deposit pickup = ground arith
same_purpose_iff pickup deposit = ground arith
same_purpose_iff pickup pickup = ground arith

pub same_key_iff : (j k : Key) → (same_key j k ≡ true) ↔ (j ≡ k)
same_key_iff (otp_request a) (otp_request b) = ground (arith, eq_iff a b)
same_key_iff (otp_phone a) (otp_phone b) = ground (arith, eq_iff a b)
same_key_iff (rate a c) (rate b d) = ground (arith, eq_iff a b, eq_iff c d)
same_key_iff (code_resend a c) (code_resend b d) = ground (arith, same_purpose_iff c d)
same_key_iff (otp_request a) (otp_phone b) = ground arith
same_key_iff (otp_request a) (rate b c) = ground arith
same_key_iff (otp_request a) (code_resend b c) = ground arith
same_key_iff (otp_phone a) (otp_request b) = ground arith
same_key_iff (otp_phone a) (rate b c) = ground arith
same_key_iff (otp_phone a) (code_resend b c) = ground arith
same_key_iff (rate a d) (otp_request b) = ground arith
same_key_iff (rate a d) (otp_phone b) = ground arith
same_key_iff (rate a d) (code_resend b c) = ground arith
same_key_iff (code_resend a d) (otp_request b) = ground arith
same_key_iff (code_resend a d) (otp_phone b) = ground arith
same_key_iff (code_resend a d) (rate b c) = ground arith

pub same_key_refl : (k : Key) → same_key k k ≡ true
same_key_refl k = (same_key_iff k k).1 refl

pub entry_of-delete :
    (k j : Key) (st : KeyValueStore)
    → entry_of j (delete k st) ≡ (if same_key k j then none else entry_of j st)
unfolding entry_of delete
entry_of-delete k j [] = ground arith
entry_of-delete k j ((i, e) ∷ st) =
    ground (arith, same_key_iff i k, same_key_iff i j, same_key_iff k j, entry_of-delete k j st)

pub entry_of-store :
    (k j : Key) (e : Entry) (st : KeyValueStore)
    → entry_of j (store_entry k e st) ≡ (if same_key k j then some e else entry_of j st)
unfolding store_entry entry_of
entry_of-store k j e st = ground (arith, entry_of-delete k j st)

-- The entry that a reading at `now` finds.
abbrev pub alive : ℕ → Option Entry → Option Entry
alive now none = none
alive now (some e) = if leb e.expires_at now then none else some e

abbrev pub View : Type 0
View = ℕ → Key → Option Entry

abbrev pub view : KeyValueStore → View
view st now k = alive now (entry_of k st)

pub live-alive : (now : ℕ) (k : Key) (st : KeyValueStore) → (live now k st).1 ≡ view st now k
unfolding live
live-alive now k st = go (entry_of k st)
  where
    go : (o : Option Entry) → (live_or_drop now k st o).1 ≡ alive now o
    go none = refl
    go (some e) = ground arith

pub run_out :
    (now later : ℕ) (e : Entry)
    → now ≤ later
    → leb e.expires_at now ≡ true
    → leb e.expires_at later ≡ true
run_out now later e h over = ground arith

-- A reading drops nothing that a later one would find.
pub live-view :
    (now later : ℕ) (k j : Key) (st : KeyValueStore)
    → now ≤ later
    → view (live now k st).0 later j ≡ view st later j
unfolding live
live-view now later k j st h = go (entry_of k st) refl
  where
    go :
        (o : Option Entry)
        → entry_of k st ≡ o
        → alive later (entry_of j (live_or_drop now k st o).0) ≡ alive later (entry_of j st)
    go none e = refl
    go (some x) e = elim (Bool-cases (leb x.expires_at now)) [
      | inr kept ↦ rw kept refl
      | inl over ↦ elim (Bool-cases (same_key k j)) [
        | inr other ↦ rw over (rw (entry_of-delete k j st) (rw other refl))
        | inl same ↦
            let found : entry_of j st ≡ some x =
              subst (λ i. entry_of i st ≡ some x) ((same_key_iff k j).0 same) e in
            rw over (
              rw (entry_of-delete k j st) (rw (same, found) (rw (run_out now later x h over) refl)))
      ]
    ]

pub view-delete :
    (k j : Key) (later : ℕ) (st : KeyValueStore)
    → view (delete k st) later j ≡ (if same_key k j then none else view st later j)
view-delete k j later st = rw (entry_of-delete k j st) (ground arith)

pub view-store :
    (k j : Key) (e : Entry) (later : ℕ) (st : KeyValueStore)
    → view (store_entry k e st) later j
      ≡ (if same_key k j then alive later (some e) else view st later j)
view-store k j e later st =
    rw (entry_of-store k j e st)
      (elim (Bool-cases (same_key k j)) [ inl same ↦ rw same refl | inr other ↦ rw other refl ])

-- What a reading answers is in the view.
pub get_value-view :
    (now : ℕ) (k : Key) (st : KeyValueStore)
    → (get_value now k st).1 ≡ map_option (λ (e : Entry). e.value) (view st now k)
unfolding get_value
get_value-view now k st = ap (map_option (λ (e : Entry). e.value)) (live-alive now k st)

pub alive_later :
    (now later : ℕ) (o : Option Entry) → now ≤ later → alive now o ≡ none → alive later o ≡ none
alive_later now later none h e = refl
alive_later now later (some x) h e = elim (Bool-cases (leb x.expires_at now)) [
  | inl over ↦ rw (run_out now later x h over) refl
  | inr kept ↦ let bad : some x ≡ none = rw kept at e in cc
]

-- Nor does reading the value drop anything.
pub get_value-keeps :
    (now later : ℕ) (k j : Key) (st : KeyValueStore)
    → now ≤ later
    → view (get_value now k st).0 later j ≡ view st later j
unfolding get_value
get_value-keeps now later k j st h = live-view now later k j st h
