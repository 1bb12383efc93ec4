-- ===== src/Admin/Bulk/Grid.antt =====
-- The cells of a new cabinet fill its grid row by row.
use Prim.Native.String.{String}
use poctamat_back.Common.{
  ℕ, zero, suc, ◌+◌, ◌*◌, ◌/◌, ◌%◌, ◌≤◌, ◌<◌, ◌≡◌, refl, ap, subst, ◌∙◌, not, false, List, [], ◌∷◌,
  ◌++◌, length, length-append, ltb, member, get, get-Has, ok, >>=-eq-ok, raise_if-ok, or_raise,
  or_raise-ok, not_found, ok_injective, arith, sym, raise, Result, internal_error, if◌then◌else◌,
}
use poctamat_back.Catalog.{Postamat, Cell}
use poctamat_back.Admin.{Fleet}
use poctamat_back.Admin.Cells.{number_taken}
use poctamat_back.Admin.Bulk.Placed.{IsPlaced, ArePlaced, is_shown, shown-answer}
use poctamat_back.Admin.Bulk.{
  LayoutEntry, GridBulkCreate, total, Cursor, advance, grid_cell, fill, lay_out, any, start_of,
  bulk_create_cells,
}

row_of-lt : (i rows cols : ℕ) → 0 < cols → i < rows * cols → i / cols < rows
row_of-lt i rows cols h g = grind arith

row_col : (i cols : ℕ) → 0 < cols → i / cols * cols + i % cols ≡ i
row_col i cols h = grind arith

col_of-lt : (i cols : ℕ) → 0 < cols → i % cols < cols
col_of-lt i cols h = omega arith

-- The loop variables keep pace with the index.
abbrev at_index : GridBulkCreate → ℕ → Cursor
at_index p i = record {
  number = p.numbering_start + i;
  output = p.hardware_start.output + i;
  index = i;
}

advance-at_index : (p : GridBulkCreate) (i : ℕ) → advance (at_index p i) ≡ at_index p (suc i)
advance-at_index p i = ground arith

start-at_index : (p : GridBulkCreate) → start_of p ≡ at_index p 0
start-at_index p = ground arith

module _ (first_id : ℕ) (p : GridBulkCreate) (positive : 0 < p.grid_cols) where
  abbrev cell_at : ℕ → ℕ → Cell
  cell_at cell_type_id i =
      grid_cell first_id p.postamat_id p.grid_cols p.hardware_start.board cell_type_id
        (at_index p i)

  cell_at-IsPlaced :
      (cell_type_id i : ℕ) → i < p.grid_rows * p.grid_cols → IsPlaced p i (cell_at cell_type_id i)
  cell_at-IsPlaced cell_type_id i h = record {
    row = i / p.grid_cols;
    col = i % p.grid_cols;
    at_row = refl;
    at_col = refl;
    in_rows = row_of-lt i p.grid_rows p.grid_cols positive h;
    in_cols = col_of-lt i p.grid_cols positive;
    counted = row_col i p.grid_cols positive;
    numbered = refl;
    board = refl;
    output = refl;
    site = refl;
  }

  abbrev filled : ℕ → ℕ → ℕ → List Cell × Cursor
  filled n cell_type_id i =
      fill first_id p.postamat_id p.grid_cols p.hardware_start.board n cell_type_id (at_index p i)

  same_index : (i n : ℕ) → at_index p (suc i + n) ≡ at_index p (i + suc n)
  same_index i n = ground arith

  fill-cursor : (n cell_type_id i : ℕ) → (filled n cell_type_id i).1 ≡ at_index p (i + n)
  unfolding fill
  fill-cursor zero cell_type_id i = ground arith
  fill-cursor (suc n) cell_type_id i =
      rw (advance-at_index p i) (fill-cursor n cell_type_id (suc i) ∙ same_index i n)

  fill-placed :
      (n cell_type_id i : ℕ)
      → i + n ≤ p.grid_rows * p.grid_cols
      → ArePlaced p i (filled n cell_type_id i).0 × (length (filled n cell_type_id i).0 ≡ n)
  unfolding fill
  fill-placed zero cell_type_id i h = (tt, refl)
  fill-placed (suc n) cell_type_id i h =
      let (placed, count) = fill-placed n cell_type_id (suc i) (omega arith) in
      rw (advance-at_index p i)
        ((cell_at-IsPlaced cell_type_id i (omega arith), placed), ap suc count)

  placed-append :
      (i : ℕ) (cells more : List Cell)
      → ArePlaced p i cells
      → ArePlaced p (i + length cells) more
      → ArePlaced p i (cells ++ more)
  placed-append i [] more h g = subst (λ j. ArePlaced p j more) (omega arith) g
  placed-append i (c ∷ cells) more h g =
      (h.0, placed-append (suc i) cells more h.1 (subst (λ j. ArePlaced p j more) (omega arith) g))

  lay_out-placed :
      (cell_types : List ℕ) (layout : List LayoutEntry) (i : ℕ) (rows : List Cell)
      → lay_out first_id p.postamat_id p.grid_cols p.hardware_start.board cell_types layout
          (at_index p i)
        ≡ ok rows
      → i + total layout ≤ p.grid_rows * p.grid_cols
      → ArePlaced p i rows × (length rows ≡ total layout)
  unfolding lay_out
  lay_out-placed cell_types [] i rows e h =
      subst (λ (r : List Cell). ArePlaced p i r × (length r ≡ 0)) (ok_injective e) (tt, refl)
  lay_out-placed cell_types (x ∷ layout) i rows e h =
      let (_, e₁) = raise_if-ok (not (member x.cell_type_id cell_types)) _ _ _ e in
      let (rest, laid, done) =
        >>=-eq-ok
          (lay_out first_id p.postamat_id p.grid_cols p.hardware_start.board cell_types layout
            (filled x.count x.cell_type_id i).1)
          _ e₁ in
      let (here, count) = fill-placed x.count x.cell_type_id i (omega arith) in
      let (there, count') =
        lay_out-placed cell_types layout (i + x.count) rest
          (rw (fill-cursor x.count x.cell_type_id i) at laid) (omega arith) in
      subst (λ (r : List Cell). ArePlaced p i r × (length r ≡ total (x ∷ layout)))
        (ok_injective done)
        (
          placed-append i (filled x.count x.cell_type_id i).0 rest here (rw count there),
          length-append (filled x.count x.cell_type_id i).0 rest ∙ omega (arith, count, count'),
        )

within :
    (p : GridBulkCreate)
    → ltb (p.grid_rows * p.grid_cols) (total p.layout) ≡ false
    → 0 + total p.layout ≤ p.grid_rows * p.grid_cols
within p h = ground arith

-- On a grid with columns, a cabinet that is committed has as many new cells as its layout counts;
-- cell by cell they have the next door number, the next output of the board and the next place of
-- the grid row by row, inside the grid, and they are appended to the stored cells. The answer is
-- these cells if there are none or the board and every output are below 256, and else 500.
pub bulk_create_cells-placed :
    (first_id : ℕ) (admin : String) (p : GridBulkCreate) (fleet fleet' : Fleet)
    (answer : Result (List Cell))
    → 0 < p.grid_cols
    → bulk_create_cells first_id admin p fleet ≡ ok (fleet', answer)
    → (rows : List Cell) × ArePlaced p 0 rows
      × (length rows ≡ total p.layout)
      × (fleet'.store.cells ≡ fleet.store.cells ++ rows)
      × (answer ≡ (if is_shown p then ok rows else raise internal_error 500))
unfolding bulk_create_cells
bulk_create_cells-placed first_id admin p fleet fleet' answer positive e =
    let (fits, e₁) = raise_if-ok (ltb (p.grid_rows * p.grid_cols) (total p.layout)) _ _ _ e in
    let (site, found, e₂) =
      >>=-eq-ok
        (or_raise (get (λ (x : Postamat). x.id) p.postamat_id fleet.store.postamats) not_found 404)
        _ e₁ in
    let (rows', laid, e₃) =
      >>=-eq-ok
        (lay_out first_id site.id p.grid_cols p.hardware_start.board fleet.cell_types p.layout
          (start_of p))
        _ e₂ in
    let (_, done) = raise_if-ok (any (number_taken fleet.store.cells) rows') _ _ _ e₃ in
    let same =
      (get-Has (λ (x : Postamat). x.id) p.postamat_id site fleet.store.postamats
        (or_raise-ok _ not_found 404 found)).1 in
    let (placed, count) =
      lay_out-placed first_id p positive fleet.cell_types p.layout 0 rows'
        (rw (same, start-at_index p) at laid) (within p fits) in
    let stored = ok_injective done in
    (
      rows',
      placed,
      count,
      sym (ap (λ (r : Fleet × Result (List Cell)). r.0.store.cells) stored),
      sym (ap (λ (r : Fleet × Result (List Cell)). r.1) stored) ∙ shown-answer p rows' placed count,
    )
