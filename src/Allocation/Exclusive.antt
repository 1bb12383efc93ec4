-- ===== src/Allocation/Exclusive.antt =====
-- No cell has two holders: the rule of the index `uq_active_booking_per_cell`, kept by every
-- operation of the booking service and by the allocation.
use Prim.Native.String.{String}
use poctamat_back.Common.{
  ℕ, ◌+◌, ◌≤◌, ◌≡◌, subst, inl, inr, true, false, some, List, [], ◌∷◌, ◌++◌, count_if,
  count_if-append, ltb, ◌==◌, ==_iff, get, put, count_if-put, arith, Bool-cases, ok,
}
use poctamat_back.Booking.{BookingStatus, is_held, Booking}
use poctamat_back.Booking.Machine.Order.{can_transition-is_held}
use poctamat_back.Booking.Service.History.{IsMove}
use poctamat_back.Booking.Service.Calls.{Change}
use poctamat_back.Store.{booking_key}
use poctamat_back.Allocation.{holds, flush_new}

abbrev pub IsExclusive : List Booking → Type 0
IsExclusive bookings = (cell_id : ℕ) → count_if (holds cell_id) bookings ≤ 1

move-is_held : (s t : BookingStatus) → IsMove s t → is_held t ≡ true → is_held s ≡ true
move-is_held s t (inl same) h = subst (λ u. is_held u ≡ true) same h
move-is_held s t (inr can) h = can_transition-is_held s t can h

-- A changed row holds no cell that it did not hold before.
pub Change-holds :
    (cell_id : ℕ) (b b' : Booking) → Change b b' → holds cell_id b' ≡ true → holds cell_id b ≡ true
Change-holds cell_id b b' c h = ground (arith, c.same_cell, move-is_held b.status b'.status c.moved)

-- If no cell has two holders, writing back a stored booking that the service has changed leaves
-- every cell with one holder at most.
pub put-IsExclusive :
    (bookings : List Booking) (b b' : Booking)
    → get booking_key b'.id bookings ≡ some b
    → Change b b'
    → IsExclusive bookings
    → IsExclusive (put booking_key b' bookings)
put-IsExclusive bookings b b' stored c h cell_id = omega (
  arith,
  h cell_id,
  count_if-put booking_key (holds cell_id) b' b bookings stored (Change-holds cell_id b b' c),
)

one_more :
    (bookings : List Booking) (b : Booking) (cell_id : ℕ)
    → ltb 0 (count_if (holds b.cell_id) bookings) ≡ false
    → count_if (holds cell_id) bookings ≤ 1
    → count_if (holds cell_id) bookings + count_if (holds cell_id) (b ∷ []) ≤ 1
one_more bookings b cell_id free h = elim (Bool-cases (b.cell_id == cell_id)) [
  | inl same ↦
      let at : b.cell_id ≡ cell_id = (==_iff b.cell_id cell_id).0 same in
      let none_yet : ltb 0 (count_if (holds cell_id) bookings) ≡ false =
        subst (λ c. ltb 0 (count_if (holds c) bookings) ≡ false) at free in
      ground (arith, none_yet)
  | inr other ↦ ground (arith, h, other)
]

-- So does a flush of a new row, because the index refuses any other.
pub flush_new-IsExclusive :
    (bookings : List Booking) (b b' : Booking) (code code' : String) (bookings' : List Booking)
    → flush_new bookings b code ≡ ok (bookings', b', code')
    → IsExclusive bookings
    → IsExclusive bookings'
unfolding flush_new
flush_new-IsExclusive bookings b b' code code' bookings' e h cell_id =
    elim (Bool-cases (ltb 0 (count_if (holds b.cell_id) bookings))) [
      | inl taken ↦ absurd (ground (arith, e, taken))
      | inr free ↦
          let same : (bookings ++ b ∷ []) ≡ bookings' = ground (arith, e, free) in
          subst (λ bs. count_if (holds cell_id) bs ≤ 1) same
            (rw (count_if-append (holds cell_id) bookings (b ∷ []))
              (one_more bookings b cell_id free (h cell_id)))
    ]
