-- ===== src/Admin/Bulk/Placed.antt =====
-- Where the cells of a new cabinet are, and what `_contract_cell` of
-- backend/app/api/admin/cells.py makes of them after the commit.
use poctamat_back.Common.{
  ℕ, suc, ◌+◌, ◌*◌, ◌≤◌, ◌<◌, ◌≡◌, refl, subst, some, false, List, [], ◌∷◌, length, ok, arith, Bool,
  true, ◌&&◌, ◌||◌, leb, ◌==◌, leb→le, le→leb, Bool-cases, inl, inr, sym, raise, internal_error,
  if◌then◌else◌,
}
use poctamat_back.Catalog.{Cell}
use poctamat_back.Admin.Cells.{contract_cell}
use poctamat_back.Admin.Bulk.{GridBulkCreate, total, contract_cells}

-- The cell is the one of index `i`, counted row by row: its place, its number and its lock output.
pub record IsPlaced (p : GridBulkCreate) (i : ℕ) (c : Cell) : Type 0 where
  pub row : ℕ
  pub col : ℕ
  pub at_row : c.row ≡ some (row + 1)
  pub at_col : c.col ≡ some (col + 1)
  pub in_rows : row < p.grid_rows
  pub in_cols : col < p.grid_cols
  pub counted : row * p.grid_cols + col ≡ i
  pub numbered : c.number ≡ p.numbering_start + i
  pub board : c.board ≡ p.hardware_start.board
  pub output : c.output ≡ p.hardware_start.output + i
  pub site : c.postamat_id ≡ p.postamat_id

-- The cells have the indices from `i` on.
abbrev pub ArePlaced : GridBulkCreate → ℕ → List Cell → Type 0
ArePlaced p i [] = Unit {0}
ArePlaced p i (c ∷ cells) = IsPlaced p i c × ArePlaced p (suc i) cells

-- The answer can be rendered: the board and the outputs of all new cells are within a byte.
abbrev pub is_shown : GridBulkCreate → Bool
is_shown p =
    total p.layout == 0
    || leb p.hardware_start.board 255 && leb (p.hardware_start.output + total p.layout) 256

contract_cell-ok : (c : Cell) → c.board ≤ 255 → c.output ≤ 255 → contract_cell c ≡ ok c
unfolding contract_cell
contract_cell-ok c board output = rw (le→leb c.board 255 board, le→leb c.output 255 output) refl

contract_cell-fails :
    (c : Cell)
    → (leb c.board 255 && leb c.output 255) ≡ false
    → contract_cell c ≡ raise internal_error 500
unfolding contract_cell
contract_cell-fails c e = rw e refl

contract_cells-ok :
    (p : GridBulkCreate) (i : ℕ) (rows : List Cell)
    → ArePlaced p i rows
    → p.hardware_start.board ≤ 255
    → p.hardware_start.output + (i + length rows) ≤ 256
    → contract_cells rows ≡ ok rows
unfolding contract_cells
contract_cells-ok p i [] h board fits = refl
contract_cells-ok p i (c ∷ rows) h board fits =
    rw
      (
        contract_cell-ok c (rw h.0.board board) (rw h.0.output (omega arith)),
        contract_cells-ok p (suc i) rows h.1 board (omega arith),
      )
      refl

contract_cells-fails :
    (p : GridBulkCreate) (i : ℕ) (rows : List Cell)
    → ArePlaced p i rows
    → 0 < length rows
    → (leb p.hardware_start.board 255 && leb (p.hardware_start.output + (i + length rows)) 256)
      ≡ false
    → contract_cells rows ≡ raise internal_error 500
unfolding contract_cells
contract_cells-fails p i [] h some_row e = absurd (omega arith)
contract_cells-fails p i (c ∷ rows) h some_row e =
    elim (Bool-cases (leb c.board 255 && leb c.output 255)) [
      | inl good ↦
          let board : leb p.hardware_start.board 255 ≡ true =
            subst (λ n. leb n 255 ≡ true) h.0.board (ground (arith, good)) in
          let output : leb (p.hardware_start.output + i) 255 ≡ true =
            subst (λ n. leb n 255 ≡ true) h.0.output (ground (arith, good)) in
          let more : leb (p.hardware_start.output + (i + suc (length rows))) 256 ≡ false =
            rw board at e in
          rw
            (
              contract_cell-ok c (leb→le c.board 255 (ground (arith, good)))
                  (leb→le c.output 255 (ground (arith, good))),
              contract_cells-fails p (suc i) rows h.1 (ground (arith, more, output))
                  (rw board (ground (arith, more))),
            )
            refl
      | inr bad ↦ rw (contract_cell-fails c bad) refl
    ]

pub shown-answer :
    (p : GridBulkCreate) (rows : List Cell)
    → ArePlaced p 0 rows
    → length rows ≡ total p.layout
    → contract_cells rows ≡ (if is_shown p then ok rows else raise internal_error 500)
unfolding contract_cells
shown-answer p [] h count = rw (sym count) refl
shown-answer p (c ∷ rows) h count =
    elim (Bool-cases (
      leb p.hardware_start.board 255
      && leb (p.hardware_start.output + (0 + length (c ∷ rows))) 256)) [
        | inl fits ↦
            let shown : is_shown p ≡ true = ground (arith, fits, count) in
            rw
              (
                shown,
                contract_cells-ok p 0 (c ∷ rows) h (ground (arith, fits)) (ground (arith, fits)),
              )
              refl
        | inr large ↦
            let hidden : is_shown p ≡ false = ground (arith, large, count) in
            rw (hidden, contract_cells-fails p 0 (c ∷ rows) h (omega arith) large) refl
      ]
