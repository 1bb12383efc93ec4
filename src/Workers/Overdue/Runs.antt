-- ===== src/Workers/Overdue/Runs.antt =====
-- A whole run of the escalation: it ends without an error, and it moves just the rows that it selects.
use poctamat_back.Common.{
  ℕ, ◌≡◌, refl, sym, subst, ◌∙◌, ◌≢◌, inl, inr, Bool, true, false, ◌&&◌, Option, none, some, List,
  [], ◌∷◌, ◌==◌, ==_iff, ==_false, keep, select, is_some, get, put, get-put, get-put_ne, All,
  All-mono, All-both, All-select, All-select_sub, All-get, All-stored, IsDistinct, get-select,
  select-IsDistinct, Bool-cases, Result, ok, ◌>>=◌,
}
use poctamat_back.Settings.{Settings}
use poctamat_back.Catalog.{Postamat}
use poctamat_back.Catalog.Cells.{cell_number}
use poctamat_back.Booking.{Booking}
use poctamat_back.Notify.{Notification}
use poctamat_back.Workers.Overdue.{
  postamat_key, push_enabled, is_live_parcel, if_timed, Round, Counts, no_counts, escalate_each,
  run_escalation,
}
use poctamat_back.Workers.Overdue.Deadlines.{IsEscalated, escalate-IsEscalated}
use poctamat_back.Store.{Store, booking_key}

module _ (s : Settings) (moment : ℕ) (clock : ℕ → ℕ) (places : List Postamat) where
  -- A row that was selected was escalated once, and any other is as it was.
  abbrev pub IsReadAfter : Option Booking → Option Booking → Option Booking → Type 0
  IsReadAfter none before after = after ≡ before
  IsReadAfter (some b) before after =
      (b' : Booking) × (after ≡ some b')
      × (ends : ℕ) × (b.expires_at ≡ some ends)
      × IsEscalated s moment (get postamat_key b.postamat_id places) (clock b.id) ends b b'

abbrev IsTodo : List Booking → Booking → Type 0
IsTodo rows b = ((ends : ℕ) × (b.expires_at ≡ some ends)) × (get booking_key b.id rows ≡ some b)

has_end : (o : Option ℕ) → is_some o ≡ true → (ends : ℕ) × (o ≡ some ends)
has_end none e = cc
has_end (some ends) e = (ends, refl)

if_timed-some :
    {A : Type 0} (o : Option ℕ) (ends : ℕ) (skip : A) (go : ℕ → A)
    → o ≡ some ends
    → if_timed o skip go ≡ go ends
if_timed-some o ends skip go e = rw e refl

>>=-ok : {A B : Type 0} (m : Result A) (f : A → Result B) (a : A) → m ≡ ok a → (m >>= f) ≡ f a
>>=-ok m f a e = rw e refl

and_right : (a b : Bool) → a && b ≡ true → b ≡ true
and_right true b e = e
and_right false b e = cc

escalate_each_lem :
    (s : Settings) (moment : ℕ) (clock : ℕ → ℕ) (wants_push : ℕ → Bool) (todo : List Booking)
    (st : Store) (pushes : List Notification) (counts : Counts)
    → IsDistinct booking_key todo
    → All (IsTodo st.bookings) todo
    → (st' : Store) × (pushes' : List Notification) × (counts' : Counts) × (escalate_each s moment
          wants_push clock todo st pushes counts
        ≡ ok (st', pushes', counts'))
      × ((k : ℕ)
          → IsReadAfter s moment clock st.postamats
              (get booking_key k todo)
              (get booking_key k st.bookings)
              (get booking_key k st'.bookings))
unfolding escalate_each
escalate_each_lem s moment clock wants_push [] st pushes counts d h =
    (st, pushes, counts, refl, λ k. refl)
escalate_each_lem s moment clock wants_push (b ∷ todo) st pushes counts d h =
    let ((ends, timed), stored) = h.0 in
    let start : Round = record {
      booking = b;
      notices = st.notices;
      pushes = pushes;
      counts = counts;
    } in
    let (r, round, done) =
      escalate-IsEscalated s moment (get postamat_key b.postamat_id st.postamats)
        (cell_number st.cells b.cell_id) wants_push (clock b.id) ends b start in
    let next : Store = record st {
      bookings = put booking_key r.booking st.bookings;
      notices = r.notices;
    } in
    let still =
      All-mono (λ c. (c.id ≢ b.id) × IsTodo st.bookings c) (IsTodo next.bookings) todo
        (λ c f. (
          f.1.0,
          get-put_ne booking_key c.id r.booking st.bookings (λ e. f.0 (e ∙ done.same_id)) ∙ f.1.1,
        ))
        (All-both (λ c. c.id ≢ b.id) (IsTodo st.bookings) todo d.0 h.1) in
    let (st', pushes', counts', run, reads) =
      escalate_each_lem s moment clock wants_push todo next r.pushes r.counts d.1 still in
    (
      st',
      pushes',
      counts',
      if_timed-some _ _ _ _ timed ∙ >>=-ok _ _ _ round ∙ run,
      λ k. elim (Bool-cases (b.id == k)) [
        | inl hit ↦
            let same = (==_iff b.id k).0 hit in
            let gone =
              All-get booking_key k todo (subst (λ j. All (λ c. c.id ≢ j) todo) same d.0) in
            let here : some b ≡ get booking_key k (b ∷ todo) = rw hit refl in
            let now_there =
              subst (λ j. get booking_key j next.bookings ≡ some r.booking) (done.same_id ∙ same)
                (get-put booking_key r.booking b st.bookings (
                  subst (λ j. get booking_key j st.bookings ≡ some b) (sym done.same_id) stored)) in
            subst
              (λ o.
                IsReadAfter s moment clock st.postamats o (get booking_key k st.bookings)
                  (get booking_key k st'.bookings))
              here
              (
                r.booking,
                subst
                      (λ o.
                        IsReadAfter s moment clock st.postamats o (get booking_key k next.bookings)
                          (get booking_key k st'.bookings))
                      gone (reads k)
                    ∙ now_there,
                ends,
                timed,
                done,
              )
        | inr miss ↦
            subst
              (λ o.
                IsReadAfter s moment clock st.postamats o (get booking_key k st.bookings)
                  (get booking_key k st'.bookings))
              (rw miss refl)
              (subst
                (λ o.
                  IsReadAfter s moment clock st.postamats (get booking_key k todo) o
                    (get booking_key k st'.bookings))
                (get-put_ne booking_key k r.booking st.bookings
                  (λ e. ==_false b.id k miss (sym (e ∙ done.same_id))))
                (reads k))
      ],
    )

-- On a table with distinct ids a run of the escalation always ends without an error, escalates each
-- selected parcel once and leaves every other booking as it was.
pub run_escalation_lem :
    (s : Settings) (moment : ℕ) (rows : List (ℕ × Bool)) (clock : ℕ → ℕ) (st : Store)
    → IsDistinct booking_key st.bookings
    → (st' : Store) × (pushes : List Notification) × (counts : Counts) × (run_escalation s moment
          rows clock st
        ≡ ok (st', pushes, counts))
      × ((k : ℕ)
          → IsReadAfter s moment clock st.postamats
              (keep is_live_parcel (get booking_key k st.bookings))
              (get booking_key k st.bookings)
              (get booking_key k st'.bookings))
unfolding run_escalation
run_escalation_lem s moment rows clock st d =
    let todo = select is_live_parcel st.bookings in
    let timed =
      All-mono (λ b. is_live_parcel b ≡ true) (λ b. (ends : ℕ) × (b.expires_at ≡ some ends)) todo
        (λ b e. has_end b.expires_at (and_right _ _ e)) (All-select is_live_parcel st.bookings) in
    let stored =
      All-select_sub (λ b. get booking_key b.id st.bookings ≡ some b) is_live_parcel st.bookings
        (All-stored booking_key st.bookings d) in
    let (st', pushes, counts, run, reads) =
      escalate_each_lem s moment clock (push_enabled rows) todo st [] no_counts
        (select-IsDistinct booking_key is_live_parcel st.bookings d)
        (All-both _ _ todo timed stored) in
    (
      st',
      pushes,
      counts,
      run,
      λ k.
          subst
            (λ o.
              IsReadAfter s moment clock st.postamats o (get booking_key k st.bookings)
                (get booking_key k st'.bookings))
            (get-select booking_key is_live_parcel k st.bookings d) (reads k),
    )
