-- ===== src/KeyValue/Operations.antt =====
-- Each operation of the store is what it means on the view.
use Prim.Native.String.{String}
use mathlib.Core.Option.{map as map_option}
use poctamat_back.Common.{
  ℕ, ◌+◌, ◌≤◌, ◌≡◌, refl, inl, inr, true, Option, none, some, [], ◌∷◌, leb, if◌then◌else◌,
  Bool-cases, Result, ok, err, arith, subst,
}
use poctamat_back.KeyValue.{
  Key, same_key, Field, count, Fields, field, int_of, with_field, Entry, KeyValueStore, seconds,
  entry_of, delete, clear, store_entry, live_or_drop, live, put_value, get_value, set_live,
  set_field, count_up, increment_live, increment,
}
use poctamat_back.KeyValue.View.{
  same_key_iff, alive, View, view, live-view, view-delete, view-store, run_out,
}

-- The operations and their meaning on the view.
pub data Operation : Type 0 where
  puts : Key → Fields → ℕ → Operation
  gets : Key → Operation
  sets : Key → String → Field → Operation
  deletes : Key → Operation
  clears : Operation
  increments : Key → ℕ → Operation

-- `clock` is the second reading of `increment`.
abbrev pub apply : ℕ → ℕ → Operation → KeyValueStore → KeyValueStore
apply now clock (puts k value ttl) st = put_value now k value ttl st
apply now clock (gets k) st = (get_value now k st).0
apply now clock (sets k name new) st = set_field now k name new st
apply now clock (deletes k) st = delete k st
apply now clock clears st = clear st
apply now clock (increments k ttl) st = (increment now clock k ttl st).0

abbrev pub set_in : String → Field → Entry → Entry
set_in name new e = record e { value = with_field name new e.value }

abbrev pub fresh : Fields → ℕ → ℕ → Option Entry
fresh value now ttl = some (record { value = value; expires_at = now + seconds ttl })

abbrev pub one_more : Entry → Result ℕ → Entry
one_more e (ok n) = set_in "n" (count (n + 1)) e
one_more e (err problem) = e

abbrev pub counted : ℕ → ℕ → Option Entry → Option Entry
counted clock ttl none = fresh (("n", count 1) ∷ []) clock ttl
counted clock ttl (some e) = some (one_more e (int_of (field "n" e.value)))

abbrev pub meaning : ℕ → ℕ → Operation → View → View
meaning now clock (puts k value ttl) m later j =
    if same_key k j then alive later (fresh value now ttl) else m later j
meaning now clock (gets k) m later j = m later j
meaning now clock (sets k name new) m later j =
    if same_key k j then map_option (set_in name new) (m later j) else m later j
meaning now clock (deletes k) m later j = if same_key k j then none else m later j
meaning now clock clears m later j = none
meaning now clock (increments k ttl) m later j =
    if same_key k j then alive later (counted clock ttl (m now k)) else m later j

entry_at :
    (k j : Key) (st : KeyValueStore) {o : Option Entry}
    → entry_of k st ≡ o
    → same_key k j ≡ true
    → entry_of j st ≡ o
entry_at k j st {o} e same = subst (λ i. entry_of i st ≡ o) ((same_key_iff k j).0 same) e

pub alive_set :
    (later : ℕ) (name : String) (new : Field) (x : Entry)
    → alive later (some (set_in name new x)) ≡ map_option (set_in name new) (alive later (some x))
alive_set later name new x = elim (Bool-cases (leb x.expires_at later)) [
  | inl over ↦ rw over refl
  | inr kept ↦ rw kept refl
]

module _ (now later : ℕ) (k j : Key) (st : KeyValueStore) (h : now ≤ later) where
  view-set_live :
      (name : String) (new : Field) (o : Option Entry)
      → entry_of k st ≡ o
      → view (set_live k name new (live_or_drop now k st o)) later j
        ≡ (if same_key k j then map_option (set_in name new) (view st later j) else view st later j)
  view-set_live name new none e = elim (Bool-cases (same_key k j)) [
    | inl same ↦ rw (same, entry_at k j st e same) refl
    | inr other ↦ rw other refl
  ]
  view-set_live name new (some x) e = elim (Bool-cases (leb x.expires_at now)) [
    | inl over ↦ rw over (
        rw (view-delete k j later st) (elim (Bool-cases (same_key k j)) [
          | inl same ↦ rw (same, entry_at k j st e same) (rw (run_out now later x h over) refl)
          | inr other ↦ rw other refl
        ]))
    | inr kept ↦ rw kept (
        rw (view-store k j (set_in name new x) later st) (elim (Bool-cases (same_key k j)) [
          | inl same ↦ rw (same, entry_at k j st e same) (alive_set later name new x)
          | inr other ↦ rw other refl
        ]))
  ]

  view-count_up :
      (clock : ℕ) (x : Entry) (n : Result ℕ)
      → entry_of k st ≡ some x
      → view (count_up k clock x st n).0 later j
        ≡ (if same_key k j then alive later (some (one_more x n)) else view st later j)
  view-count_up clock x (ok n) e = view-store k j (set_in "n" (count (n + 1)) x) later st
  view-count_up clock x (err problem) e = elim (Bool-cases (same_key k j)) [
    | inl same ↦ rw (same, entry_at k j st e same) refl
    | inr other ↦ rw other refl
  ]

  view-store_drop :
      (e : Entry)
      → view (store_entry k e (delete k st)) later j
        ≡ (if same_key k j then alive later (some e) else view st later j)
  view-store_drop e = rw (view-store k j e later (delete k st)) (
      rw (view-delete k j later st)
        (elim (Bool-cases (same_key k j)) [ inl same ↦ rw same refl | inr other ↦ rw other refl ]))

  view-increment_live :
      (clock ttl : ℕ) (o : Option Entry)
      → entry_of k st ≡ o
      → view (increment_live clock k ttl (live_or_drop now k st o)).0 later j
        ≡ (if same_key k j then alive later (counted clock ttl (alive now o)) else view st later j)
  unfolding put_value
  view-increment_live clock ttl none e = view-store k j _ later st
  view-increment_live clock ttl (some x) e = elim (Bool-cases (leb x.expires_at now)) [
    | inl over ↦ rw over (view-store_drop _)
    | inr kept ↦ rw kept (view-count_up clock x (int_of (field "n" x.value)) e)
  ]

-- Whenever it is looked at later, the key-value store after an operation holds what the operation
-- means for a map from keys to values that run out: entries that have expired and the moment of
-- their removal do not show.
pub apply-view :
    (now clock later : ℕ) (op : Operation) (st : KeyValueStore) (j : Key)
    → now ≤ clock
    → clock ≤ later
    → view (apply now clock op st) later j ≡ meaning now clock op (view st) later j
unfolding put_value get_value set_field increment live entry_of
apply-view now clock later (puts k value ttl) st j h g = view-store k j _ later st
apply-view now clock later (gets k) st j h g = live-view now later k j st (omega arith)
apply-view now clock later (deletes k) st j h g = view-delete k j later st
apply-view now clock later clears st j h g = refl
apply-view now clock later (sets k name new) st j h g =
    view-set_live now later k j st (omega arith) name new (entry_of k st) refl
apply-view now clock later (increments k ttl) st j h g =
    view-increment_live now later k j st (omega arith) clock ttl (entry_of k st) refl
