-- ===== src/Store/Kept.antt =====
-- What the operations on bookings keep of sound tables.
use Prim.Native.String.{String}
use poctamat_back.Common.{
  ℕ, ◌≡◌, refl, sym, subst, inl, inr, true, some, List, [], ◌∷◌, ◌++◌, get, put, get-Has, All,
  All-put, All-Has, All-append, ok, arith,
}
use poctamat_back.Settings.{Settings}
use poctamat_back.Catalog.{Cell}
use poctamat_back.Booking.{Booking}
use poctamat_back.Booking.Service.{record_event}
use poctamat_back.Booking.Codes.{issue_code}
use poctamat_back.Booking.Service.History.{IsTimeline}
use poctamat_back.Booking.Service.Calls.{Call, perform, Change, perform-Change}
use poctamat_back.Booking.Service.Routine.{is_routine, perform-is_out}
use poctamat_back.Allocation.{Request, create_booking, take_first, flush_new, new_booking}
use poctamat_back.Allocation.Exclusive.{IsExclusive, put-IsExclusive, flush_new-IsExclusive}
use poctamat_back.Payments.Opening.{IsSingleLive}
use poctamat_back.Payments.Effects.{IsCalled}
use poctamat_back.Custody.{CustodyRecord}
use poctamat_back.Custody.Traced.{HasAct, IsTraced}
use poctamat_back.Store.{Store, booking_key}
use poctamat_back.Booking.Service.Routine.{is_out}
use poctamat_back.Identity.{Client}
use poctamat_back.Mobile.Touched.{Served, IsHandled}

pub record IsSound (st : Store) : Type 0 where
  -- No cell has two holders.
  pub exclusive : IsExclusive st.bookings
  -- No booking has two live payments.
  pub single : IsSingleLive st.payments
  -- No parcel was taken out by staff without an act.
  pub traced : IsTraced st
  -- The events of each booking are numbered, follow the machine and end at its status.
  pub timelines : All IsTimeline st.bookings

-- Only the bookings and the acts of a state matter to these.
pub record IsKept (bookings : List Booking) (acts : List CustodyRecord) : Type 0 where
  pub exclusive : IsExclusive bookings
  pub traced : All (HasAct acts) bookings
  pub timelines : All IsTimeline bookings

pub IsSound-IsKept : (st : Store) → IsSound st → IsKept st.bookings st.custody
IsSound-IsKept st h = record { exclusive = h.exclusive; traced = h.traced; timelines = h.timelines }

pub IsKept-IsSound :
    (st : Store) → IsKept st.bookings st.custody → IsSingleLive st.payments → IsSound st
IsKept-IsSound st h single = record {
  exclusive = h.exclusive;
  single = single;
  traced = h.traced;
  timelines = h.timelines;
}

module _ (hash_pin : String → String) (s : Settings) where
  pub put-timelines :
      (bookings : List Booking) (b b' : Booking)
      → get booking_key b.id bookings ≡ some b
      → Change b b'
      → All IsTimeline bookings
      → All IsTimeline (put booking_key b' bookings)
  put-timelines bookings b b' stored c h =
      All-put booking_key IsTimeline b' bookings
        (c.timeline
          (All-Has IsTimeline b bookings h (get-Has booking_key b.id b bookings stored).0))
        h

  pub stored_as :
      (bookings : List Booking) (b b' : Booking)
      → get booking_key b.id bookings ≡ some b
      → Change b b'
      → get booking_key b'.id bookings ≡ some b
  stored_as bookings b b' stored c =
      subst (λ k. get booking_key k bookings ≡ some b) (sym c.same_id) stored

  pub call-IsKept :
      (bookings : List Booking) (acts : List CustodyRecord) (c : Call) (b b' : Booking)
      → is_routine c ≡ true
      → get booking_key b.id bookings ≡ some b
      → perform hash_pin s c b ≡ ok b'
      → IsKept bookings acts
      → IsKept (put booking_key b' bookings) acts
  call-IsKept bookings acts c b b' routine stored e h =
      let change = perform-Change hash_pin s c b b' e in
      record {
        exclusive =
            put-IsExclusive bookings b b' (stored_as bookings b b' stored change) change
              h.exclusive;
        traced =
            All-put booking_key (HasAct acts) b' bookings
              (λ o. rw change.same_id (
                All-Has (HasAct acts) b bookings h.traced
                  (get-Has booking_key b.id b bookings stored).0
                  (perform-is_out hash_pin s c b b' e routine o)))
              h.traced;
        timelines = put-timelines bookings b b' stored change h.timelines;
      }

  new_booking-IsTimeline :
      (r : Request) (cell_id now later : ℕ) (code : String)
      → IsTimeline (new_booking hash_pin s r cell_id now later code)
  unfolding new_booking record_event issue_code
  new_booking-IsTimeline r cell_id now later code = record {
    numbered = (refl, tt);
    walks = (inl refl, refl);
  }

  flush_new-rows :
      (bookings rows : List Booking) (b b' : Booking) (code code' : String)
      → flush_new bookings b code ≡ ok (rows, b', code')
      → bookings ++ b ∷ [] ≡ rows
  unfolding flush_new
  flush_new-rows bookings rows b b' code code' e = ground (arith, e)

  new_booking-HasAct :
      (acts : List CustodyRecord) (r : Request) (cell_id now later : ℕ) (code : String)
      → HasAct acts (new_booking hash_pin s r cell_id now later code)
  unfolding new_booking record_event issue_code
  new_booking-HasAct acts r cell_id now later code o = cc

  take_first-IsKept :
      (bookings rows : List Booking) (acts : List CustodyRecord) (r : Request) (now later : ℕ)
      (code code' : String) (b : Booking) (ids : List ℕ)
      → take_first hash_pin s bookings r now later code ids ≡ ok (rows, b, code')
      → IsKept bookings acts
      → IsKept rows acts
  take_first-IsKept bookings rows acts r now later code code' b [] e h = cc
  take_first-IsKept bookings rows acts r now later code code' b (cell_id ∷ ids) e h =
      let new = new_booking hash_pin s r cell_id now later code in
      let longer = flush_new-rows bookings rows new b code code' e in
      record {
        exclusive = flush_new-IsExclusive bookings new b code code' rows e h.exclusive;
        traced = subst (All (HasAct acts)) longer (
            All-append (HasAct acts) bookings (new ∷ []) h.traced
              (new_booking-HasAct acts r cell_id now later code, tt));
        timelines = subst (All IsTimeline) longer (
            All-append IsTimeline bookings (new ∷ []) h.timelines
              (new_booking-IsTimeline r cell_id now later code, tt));
      }

  pub create_booking-IsKept :
      (cells : List Cell) (bookings rows : List Booking) (acts : List CustodyRecord) (r : Request)
      (now later : ℕ) (code code' : String) (b : Booking)
      → create_booking hash_pin s cells bookings r now later code ≡ ok (rows, b, code')
      → IsKept bookings acts
      → IsKept rows acts
  unfolding create_booking
  create_booking-IsKept cells bookings rows acts r now later code code' b e h =
      take_first-IsKept bookings rows acts r now later code code' b _ e h

  pub called-IsKept :
      (st st' : Store)
      → IsCalled hash_pin s st st'
      → IsKept st.bookings st.custody
      → IsKept st'.bookings st'.custody
  called-IsKept st st' (acts, _, inl same) h = rw (acts, same) h
  called-IsKept st st' (acts, _, inr (c, b, b', routine, stored, e, written)) h =
      rw (acts, written) (call-IsKept st.bookings st.custody c b b' routine stored e h)

  -- A booking that keeps its status.
  edit-IsKept :
      (bookings : List Booking) (acts : List CustodyRecord) (b b' : Booking)
      → get booking_key b.id bookings ≡ some b
      → Change b b'
      → b'.status ≡ b.status
      → IsKept bookings acts
      → IsKept (put booking_key b' bookings) acts
  edit-IsKept bookings acts b b' stored change same h = record {
    exclusive =
        put-IsExclusive bookings b b' (stored_as bookings b b' stored change) change h.exclusive;
    traced =
        All-put booking_key (HasAct acts) b' bookings
          (λ o. rw change.same_id (
            All-Has (HasAct acts) b bookings h.traced (get-Has booking_key b.id b bookings stored).0
              (subst (λ st. is_out st ≡ true) same o)))
          h.traced;
    timelines = put-timelines bookings b b' stored change h.timelines;
  }

  pub Served-IsKept :
      (client : Client) (id : ℕ) (st st' : Store)
      → Served hash_pin s client id st st'
      → IsKept st.bookings st.custody
      → IsKept st'.bookings st'.custody
  Served-IsKept client id st st' d h =
      let same_key = (get-Has booking_key id d.before st.bookings d.stored).1 in
      let stored : get booking_key d.before.id st.bookings ≡ some d.before =
        subst (λ k. get booking_key k st.bookings ≡ some d.before) (sym same_key) d.stored in
      rw (d.written, d.same_custody) (go stored d.handled)
    where
      go :
          get booking_key d.before.id st.bookings ≡ some d.before
          → IsHandled hash_pin s d.before d.after
          → IsKept (put booking_key d.after st.bookings) st.custody
      go stored (inl (c, routine, e)) =
          call-IsKept st.bookings st.custody c d.before d.after routine stored e h
      go stored (inr (change, same)) =
          edit-IsKept st.bookings st.custody d.before d.after stored change same h
