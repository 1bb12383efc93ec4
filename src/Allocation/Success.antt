-- ===== src/Allocation/Success.antt =====
-- The allocation succeeds exactly when a cell of the size is free; the index is never what refuses.
use Prim.Native.String.{String}
use poctamat_back.Common.{
  ℕ, ◌≤◌, ◌≡◌, refl, sym, subst, ◌∙◌, ◌⊎◌, inl, inr, false, List, [], ◌∷◌, ◌++◌, map, member,
  count_if, ltb, All, Has, All-Has, arith, ok, raise, no_free_cells,
}
use poctamat_back.Settings.{Settings}
use poctamat_back.Catalog.{Cell}
use poctamat_back.Catalog.Cells.{free_cells, free_cell_ids}
use poctamat_back.Catalog.Cells.Free.{IsFree, IsOrdered, free_cells_iff, free_cells-IsOrdered}
use poctamat_back.Booking.{Booking}
use poctamat_back.Booking.Codes.{issue_code}
use poctamat_back.Booking.Service.{record_event}
use poctamat_back.Allocation.{
  Request, held_cell_ids, holds, flush_new, new_booking, take_first, create_booking,
}

-- Cell ids are unique, and a booking stands at the postamat of its cell.
pub record IsLocated (cells : List Cell) (bookings : List Booking) : Type 0 where
  pub unique : (c d : Cell) → Has c cells → Has d cells → c.id ≡ d.id → c ≡ d
  pub placed :
      All
        (λ b. (c : Cell) → Has c cells → c.id ≡ b.cell_id → c.postamat_id ≡ b.postamat_id)
        bookings

-- A stored cell that a booking of the size could have: no booking holds it.
pub record IsVacant (bookings : List Booking) (postamat_id cell_type_id : ℕ) (c : Cell)
    : Type 0 where
  pub here : c.postamat_id ≡ postamat_id
  pub sized : c.cell_type_id ≡ cell_type_id
  pub unblocked : c.is_blocked ≡ false
  pub in_service : c.is_maintenance ≡ false
  pub unheld : count_if (holds c.id) bookings ≡ 0

-- At the cell's own postamat, the ids of `_held_cell_ids` are those of the cells with a holder.
held-member :
    (bookings : List Booking) (postamat_id cell_id : ℕ)
    → All (λ b. b.cell_id ≡ cell_id → b.postamat_id ≡ postamat_id) bookings
    → member cell_id (held_cell_ids bookings postamat_id)
      ≡ ltb 0 (count_if (holds cell_id) bookings)
unfolding held_cell_ids
held-member [] postamat_id cell_id h = refl
held-member (b ∷ bookings) postamat_id cell_id h =
    ground (arith, held-member bookings postamat_id cell_id h.1, h.0)

at_cell :
    (cells : List Cell) (bookings : List Booking) (c : Cell)
    → Has c cells
    → All
        (λ b. (d : Cell) → Has d cells → d.id ≡ b.cell_id → d.postamat_id ≡ b.postamat_id)
        bookings
    → All (λ b. b.cell_id ≡ c.id → b.postamat_id ≡ c.postamat_id) bookings
at_cell cells [] c m h = tt
at_cell cells (b ∷ bookings) c m h = (λ e. sym (h.0 c m (sym e)), at_cell cells bookings c m h.1)

module _ (cells : List Cell) (bookings : List Booking) (h : IsLocated cells bookings) where
  held_ids :
      (c : Cell) (postamat_id : ℕ)
      → Has c cells
      → c.postamat_id ≡ postamat_id
      → member c.id (held_cell_ids bookings postamat_id) ≡ ltb 0 (count_if (holds c.id) bookings)
  held_ids c postamat_id m e =
      subst (λ p. member c.id (held_cell_ids bookings p) ≡ ltb 0 (count_if (holds c.id) bookings)) e
        (held-member bookings c.postamat_id c.id (at_cell cells bookings c m h.placed))

  pub free-IsVacant :
      (postamat_id cell_type_id : ℕ) (c : Cell)
      → Has c cells
      → IsFree postamat_id cell_type_id (held_cell_ids bookings postamat_id) c
      → IsVacant bookings postamat_id cell_type_id c
  free-IsVacant postamat_id cell_type_id c m f = record {
    here = f.here;
    sized = f.sized;
    unblocked = f.unblocked;
    in_service = f.in_service;
    unheld = ground (arith, held_ids c postamat_id m f.here, f.untaken);
  }

  pub vacant-IsFree :
      (postamat_id cell_type_id : ℕ) (c : Cell)
      → Has c cells
      → IsVacant bookings postamat_id cell_type_id c
      → IsFree postamat_id cell_type_id (held_cell_ids bookings postamat_id) c
  vacant-IsFree postamat_id cell_type_id c m v = record {
    here = v.here;
    sized = v.sized;
    unblocked = v.unblocked;
    in_service = v.in_service;
    untaken = held_ids c postamat_id m v.here ∙ rw v.unheld;
  }

-- What a successful allocation has done: it took the vacant cell with the lowest door number and
-- appended the new row for it.
pub record IsAllocated (hash_pin : String → String) (s : Settings) (cells : List Cell)
    (bookings : List Booking) (r : Request) (now later : ℕ) (code : String)
    (result : List Booking × Booking × String) : Type 0 where
  pub cell : Cell
  pub stored : Has cell cells
  pub vacant : IsVacant bookings r.postamat_id r.cell_type_id cell
  pub lowest :
      (d : Cell)
      → Has d cells
      → IsVacant bookings r.postamat_id r.cell_type_id d
      → cell.number ≤ d.number
  pub result_is : result ≡ (
    bookings ++ new_booking hash_pin s r cell.id now later code ∷ [],
    new_booking hash_pin s r cell.id now later code,
    code,
  )

new_booking-cell :
    (hash_pin : String → String) (s : Settings) (r : Request) (cell_id now later : ℕ)
    (code : String)
    → (new_booking hash_pin s r cell_id now later code).cell_id ≡ cell_id
unfolding new_booking record_event issue_code
new_booking-cell hash_pin s r cell_id now later code = refl

flush-vacant :
    (bookings : List Booking) (b : Booking) (code : String)
    → count_if (holds b.cell_id) bookings ≡ 0
    → flush_new bookings b code ≡ ok (bookings ++ b ∷ [], b, code)
unfolding flush_new
flush-vacant bookings b code e = rw e

least : (c d : Cell) (fs : List Cell) → IsOrdered (c ∷ fs) → Has d (c ∷ fs) → c.number ≤ d.number
least c d fs h (inl e) = ground (arith, e)
least c d fs h (inr m) = All-Has (λ x. c.number ≤ x.number) d fs h.0 m

module _ (hash_pin : String → String) (s : Settings) (cells : List Cell) (bookings : List Booking)
    (r : Request) (now later : ℕ) (code : String) (h : IsLocated cells bookings) where
  abbrev candidates : List Cell
  candidates = free_cells cells r.postamat_id r.cell_type_id (held_cell_ids bookings r.postamat_id)

  created :
      (fs : List Cell)
      → candidates ≡ fs
      → create_booking hash_pin s cells bookings r now later code
        ≡ take_first hash_pin s bookings r now later code (map (λ c. c.id) fs)
  unfolding create_booking free_cell_ids
  created fs e = rw e

  candidate-IsVacant :
      (d : Cell) → Has d candidates → Has d cells × IsVacant bookings r.postamat_id r.cell_type_id d
  candidate-IsVacant d m =
      let (stored, free) = (free_cells_iff cells r.postamat_id r.cell_type_id _ d).0 m in
      (stored, free-IsVacant cells bookings h r.postamat_id r.cell_type_id d stored free)

  vacant-candidate :
      (d : Cell) → Has d cells → IsVacant bookings r.postamat_id r.cell_type_id d → Has d candidates
  vacant-candidate d m v =
      (free_cells_iff cells r.postamat_id r.cell_type_id _ d).1
        (m, vacant-IsFree cells bookings h r.postamat_id r.cell_type_id d m v)

  -- The outcome, by the list of candidates.
  outcome :
      (fs : List Cell)
      → candidates ≡ fs
      → ((fs ≡ [])
          × (create_booking hash_pin s cells bookings r now later code ≡ raise no_free_cells 409))
        ⊎ ((x : List Booking × Booking × String) × (create_booking hash_pin s cells bookings r now
                later code
              ≡ ok x)
            × IsAllocated hash_pin s cells bookings r now later code x)
  outcome [] e = inl (refl, created [] e)
  outcome (c ∷ fs) e =
      let (stored, vacant) = candidate-IsVacant c (subst (λ l. Has c l) (sym e) (inl refl)) in
      let b = new_booking hash_pin s r c.id now later code in
      let unheld : count_if (holds b.cell_id) bookings ≡ 0 =
        rw (new_booking-cell hash_pin s r c.id now later code) vacant.unheld in
      inr (
        (bookings ++ b ∷ [], b, code),
        created (c ∷ fs) e ∙ flush-vacant bookings b code unheld,
        record {
          cell = c;
          stored = stored;
          vacant = vacant;
          lowest = λ d m v.
              least c d fs
                (subst (λ l. IsOrdered l) e
                  (free_cells-IsOrdered cells r.postamat_id r.cell_type_id _))
                (subst (λ l. Has d l) e (vacant-candidate d m v));
          result_is = refl;
        },
      )

  -- If cell ids are unique and every booking stands at its cell's postamat, `create_booking` takes
  -- the vacant cell of the size with the lowest door number, or it raises NO_FREE_CELLS and no cell
  -- of the size is vacant.
  pub create_booking_lem :
      ((create_booking hash_pin s cells bookings r now later code ≡ raise no_free_cells 409)
        × ((d : Cell) → Has d cells → ¬ IsVacant bookings r.postamat_id r.cell_type_id d))
      ⊎ ((x : List Booking × Booking × String) × (create_booking hash_pin s cells bookings r now
              later code
            ≡ ok x)
          × IsAllocated hash_pin s cells bookings r now later code x)
  create_booking_lem = elim (outcome candidates refl) [
    | inl (empty, refused) ↦
        inl (refused, λ d m v. subst (λ l. Has d l) empty (vacant-candidate d m v))
    | inr done ↦ inr done
  ]
