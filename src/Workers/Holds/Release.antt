-- ===== src/Workers/Holds/Release.antt =====
-- Which bookings a run releases, and that it always ends.
use poctamat_back.Common.{
  ℕ, ◌≡◌, refl, sym, ap, subst, ◌∙◌, ◌≢◌, inl, inr, true, Option, none, some, List, [], ◌∷◌, map,
  ◌==◌, ==_iff, ==_false, keep, select, get, put, get-put, get-put_ne, All, All-mono, All-both,
  All-select, All-select_sub, All-get, All-stored, IsDistinct, get-select, select-IsDistinct,
  Bool-cases, arith, ok, if◌then◌else◌, Bool, false, ◌≤◌, leb→le, le→leb, member, is_some,
}
use poctamat_back.Booking.{BookingStatus, pending_payment, reason_and_actor, Step, Booking}
use poctamat_back.Booking.Machine.{assert_transition}
use poctamat_back.Booking.Service.{cancel, move, record_event}
use poctamat_back.Workers.Holds.{
  ran_out, is_stale, release_reason, release_each, release_expired_holds,
}
use poctamat_back.Store.{booking_key}

-- The booking as it is released: cancelled, with the reason and one event.
unfoldable pub released : Booking → Booking
released b =
    record_event
      (record b { status = BookingStatus.cancelled; cancelled_reason = some release_reason })
      BookingStatus.cancelled "Отменено" (some (reason_and_actor release_reason (some "system")))
      (some Step.cancelled)

cancel-released :
    (b : Booking)
    → b.status ≡ pending_payment
    → cancel release_reason (some "system") b ≡ ok (released b)
unfolding cancel released move assert_transition
cancel-released b e = rw e refl

released-id : (b : Booking) → (released b).id ≡ b.id
unfolding released record_event
released-id b = refl

-- What the loop may start from: rows of the table that wait for payment.
abbrev IsTodo : List Booking → Booking → Type 0
IsTodo rows b = (b.status ≡ pending_payment) × (get booking_key b.id rows ≡ some b)

abbrev read_after : Option Booking → Option Booking → Option Booking
read_after none before = before
read_after (some b) before = some (released b)

release_each_lem :
    (todo rows : List Booking)
    → IsDistinct booking_key todo
    → All (IsTodo rows) todo
    → (rows' : List Booking) × (release_each todo rows ≡ ok (rows', map booking_key todo))
      × ((k : ℕ)
          → get booking_key k rows' ≡ read_after (get booking_key k todo) (get booking_key k rows))
unfolding release_each
release_each_lem [] rows d h = (rows, refl, λ k. refl)
release_each_lem (b ∷ todo) rows d h =
    let next = put booking_key (released b) rows in
    let still =
      All-mono (λ c. (c.id ≢ b.id) × IsTodo rows c) (IsTodo next) todo
        (λ c f. (
          f.1.0,
          get-put_ne booking_key c.id (released b) rows (λ e. f.0 (e ∙ released-id b)) ∙ f.1.1,
        ))
        (All-both (λ c. c.id ≢ b.id) (IsTodo rows) todo d.0 h.1) in
    let (rows', run, reads) = release_each_lem todo next d.1 still in
    (
      rows',
      rw (cancel-released b h.0.0, run) refl,
      λ k. elim (Bool-cases (b.id == k)) [
        | inl hit ↦
            let same = (==_iff b.id k).0 hit in
            let gone =
              All-get booking_key k todo (subst (λ j. All (λ c. c.id ≢ j) todo) same d.0) in
            rw (hit, reads k, gone)
              (subst (λ j. get booking_key j next ≡ some (released b)) (released-id b ∙ same)
                (get-put booking_key (released b) b rows
                  (subst (λ j. get booking_key j rows ≡ some b) (sym (released-id b)) h.0.1)))
        | inr miss ↦
            rw (miss, reads k)
              (ap (read_after (get booking_key k todo)) (
                get-put_ne booking_key k (released b) rows
                  (λ e. ==_false b.id k miss (sym (e ∙ released-id b)))))
      ],
    )

is_stale-pending :
    (moment : ℕ) (b : Booking) → is_stale moment b ≡ true → b.status ≡ pending_payment
is_stale-pending moment b e = ground arith

-- The row as a run at `moment` leaves it.
unfoldable pub row_after : ℕ → Option Booking → Option Booking
row_after moment none = none
row_after moment (some b) = some (if is_stale moment b then released b else b)

read_after-keep :
    (moment : ℕ) (before : Option Booking)
    → read_after (keep (is_stale moment) before) before ≡ row_after moment before
unfolding row_after
read_after-keep moment none = refl
read_after-keep moment (some b) = elim (Bool-cases (is_stale moment b)) [
  | inl stale ↦ rw stale refl
  | inr other ↦ rw other refl
]

release_expired_holds-row_after :
    (moment : ℕ) (rows : List Booking)
    → IsDistinct booking_key rows
    → (rows' : List Booking) × (release_expired_holds moment rows
        ≡ ok (rows', map booking_key (select (is_stale moment) rows)))
      × ((k : ℕ) → get booking_key k rows' ≡ row_after moment (get booking_key k rows))
unfolding release_expired_holds
release_expired_holds-row_after moment rows d =
    let todo = select (is_stale moment) rows in
    let waiting =
      All-mono (λ b. is_stale moment b ≡ true) (λ b. b.status ≡ pending_payment) todo
        (is_stale-pending moment) (All-select (is_stale moment) rows) in
    let stored =
      All-select_sub (λ b. get booking_key b.id rows ≡ some b) (is_stale moment) rows
        (All-stored booking_key rows d) in
    let (rows', run, reads) =
      release_each_lem todo rows (select-IsDistinct booking_key (is_stale moment) rows d)
        (All-both _ _ todo waiting stored) in
    (
      rows',
      run,
      λ k.
          reads k
          ∙ ap (λ o. read_after o (get booking_key k rows))
              (get-select booking_key (is_stale moment) k rows d)
          ∙ read_after-keep moment (get booking_key k rows),
    )

-- An unpaid booking whose hold has an end, which is past.
abbrev pub HasRunOut : ℕ → Booking → Type 0
HasRunOut moment b =
    (b.status ≡ pending_payment) × (until : ℕ) × (b.hold_expires_at ≡ some until) × (until ≤ moment)

-- What a run makes of the row of an id, and whether it answers the id.
pub data IsRowAfter (moment : ℕ) : Bool → Option Booking → Option Booking → Type 0 where
  absent : IsRowAfter moment false none none
  lets_go : (b : Booking) → HasRunOut moment b → IsRowAfter moment true (some b) (some (released b))
  keeps : (b : Booking) → ¬ HasRunOut moment b → IsRowAfter moment false (some b) (some b)

ran_out-until :
    (moment : ℕ) (end : Option ℕ)
    → ran_out end moment ≡ true
    → (until : ℕ) × (end ≡ some until) × (until ≤ moment)
ran_out-until moment none e = cc
ran_out-until moment (some until) e = (until, refl, leb→le until moment e)

is_stale-HasRunOut : (moment : ℕ) (b : Booking) → is_stale moment b ≡ true → HasRunOut moment b
is_stale-HasRunOut moment b e =
    let (until, ends, past) = ran_out-until moment b.hold_expires_at (ground arith) in
    (is_stale-pending moment b e, until, ends, past)

HasRunOut-is_stale : (moment : ℕ) (b : Booking) → HasRunOut moment b → is_stale moment b ≡ true
HasRunOut-is_stale moment b (pending, until, ends, past) =
    rw (pending, ends) (le→leb until moment past)

-- The ids of some rows.
member-get :
    (k : ℕ) (rows : List Booking)
    → member k (map booking_key rows) ≡ is_some (get booking_key k rows)
member-get k [] = refl
member-get k (r ∷ rows) = elim (Bool-cases (r.id == k)) [
  | inl hit ↦ rw hit refl
  | inr miss ↦ rw miss (member-get k rows)
]

row_after-IsRowAfter :
    (moment : ℕ) (before : Option Booking)
    → IsRowAfter moment (is_some (keep (is_stale moment) before)) before (row_after moment before)
unfolding row_after
row_after-IsRowAfter moment none = absent
row_after-IsRowAfter moment (some b) = elim (Bool-cases (is_stale moment b)) [
  | inl stale ↦ rw stale (lets_go b (is_stale-HasRunOut moment b stale))
  | inr other ↦ rw other (keeps b (λ h. let stale = HasRunOut-is_stale moment b h in cc))
]

-- On a table with distinct ids a run of the hold worker always ends without an error. It cancels
-- and answers exactly the bookings that wait for payment and whose hold has an end at or before the
-- moment of the run, and it leaves every other row as it was.
pub release_expired_holds_lem :
    (moment : ℕ) (rows : List Booking)
    → IsDistinct booking_key rows
    → (rows' : List Booking) × (ids : List ℕ) × (release_expired_holds moment rows
        ≡ ok (rows', ids))
      × ((k : ℕ)
          → IsRowAfter moment (member k ids) (get booking_key k rows) (get booking_key k rows'))
release_expired_holds_lem moment rows d =
    let (rows', run, reads) = release_expired_holds-row_after moment rows d in
    (
      rows',
      map booking_key (select (is_stale moment) rows),
      run,
      λ k.
          rw
            (
              reads k,
              member-get k (select (is_stale moment) rows),
              get-select booking_key (is_stale moment) k rows d,
            )
            (row_after-IsRowAfter moment (get booking_key k rows)),
    )
