-- ===== src/Admin/Bulk.antt =====
-- A whole cabinet at once: `bulk_create_cells` of backend/app/api/admin/cells.py. The new rows get
-- the ids from `first_id` on.
pub mod Placed
pub mod Grid
pub mod Clash
use Prim.Native.String.{String, ◌++◌ as append}
use poctamat_back.Common.{
  ℕ, zero, suc, ◌+◌, ◌*◌, ◌/◌, ◌%◌, Bool, true, false, not, ◌&&◌, ◌||◌, Option, none, some, List,
  [], ◌∷◌, ◌++◌, length, count_if, ltb, member, ◌==◌, get, Result, ok, ◌>>=◌, ◌>>◌, raise_if,
  or_raise, not_found, layout_exceeds_grid, bulk_create_partial_failure,
}
use poctamat_back.Catalog.{Postamat, Cell}
use poctamat_back.Audit.{AuditEntry, Severity, Source, count_and_grid, log}
use poctamat_back.Store.{Store}
use poctamat_back.Admin.{Fleet}
use poctamat_back.Admin.Numbers.{str}
use poctamat_back.Admin.Cells.{HardwareAddress, number_taken, contract_cell}

pub record LayoutEntry : Type 0 where
  pub cell_type_id : ℕ
  pub count : ℕ

pub record GridBulkCreate : Type 0 where
  pub postamat_id : ℕ
  pub grid_rows : ℕ
  pub grid_cols : ℕ
  pub numbering_start : ℕ
  pub hardware_start : HardwareAddress
  pub layout : List LayoutEntry

-- `sum(entry.count for entry in payload.layout)`
abbrev pub total : List LayoutEntry → ℕ
total [] = 0
total (e ∷ layout) = e.count + total layout

-- The variables of the loop.
pub record Cursor : Type 0 where
  pub number : ℕ
  pub output : ℕ
  pub index : ℕ

abbrev pub advance : Cursor → Cursor
advance at = record { number = at.number + 1; output = at.output + 1; index = at.index + 1 }

module _ (first_id postamat_id grid_cols board : ℕ) where
  abbrev pub grid_cell : ℕ → Cursor → Cell
  grid_cell cell_type_id at = record {
    id = first_id + at.index;
    postamat_id = postamat_id;
    cell_type_id = cell_type_id;
    number = at.number;
    row = some (at.index / grid_cols + 1);
    col = some (at.index % grid_cols + 1);
    row_span = none;
    col_span = none;
    board = board;
    output = at.output;
    is_blocked = false;
    is_maintenance = false;
    blocked_reason = none;
    status_changed_at = none;
  }

  -- `for _ in range(entry.count)`, and the variables after it.
  unfoldable pub fill : ℕ → ℕ → Cursor → List Cell × Cursor
  fill zero cell_type_id at = ([], at)
  fill (suc n) cell_type_id at =
      let (cells, at') = fill n cell_type_id (advance at) in
      (grid_cell cell_type_id at ∷ cells, at')

  unfoldable pub lay_out : List ℕ → List LayoutEntry → Cursor → Result (List Cell)
  lay_out cell_types [] at = ok []
  lay_out cell_types (e ∷ layout) at = do
    raise_if (not (member e.cell_type_id cell_types)) not_found 404
    rest ← lay_out cell_types layout (fill e.count e.cell_type_id at).1
    ok ((fill e.count e.cell_type_id at).0 ++ rest)

abbrev pub any : {A : Type 0} → (A → Bool) → List A → Bool
any p [] = false
any p (x ∷ xs) = p x || any p xs

abbrev pub start_of : GridBulkCreate → Cursor
start_of p = record { number = p.numbering_start; output = p.hardware_start.output; index = 0 }

unfoldable pub contract_cells : List Cell → Result (List Cell)
contract_cells [] = ok []
contract_cells (c ∷ cells) = do
  item ← contract_cell c
  items ← contract_cells cells
  ok (item ∷ items)

-- The tables after the commit, and the answer. The new numbers rise by one, so only a stored row can
-- have one of them.
unfoldable pub bulk_create_cells :
    ℕ → String → GridBulkCreate → Fleet → Result (Fleet × Result (List Cell))
bulk_create_cells first_id admin p fleet = do
  raise_if (ltb (p.grid_rows * p.grid_cols) (total p.layout)) layout_exceeds_grid 422
  postamat ←
      or_raise (get (λ (x : Postamat). x.id) p.postamat_id fleet.store.postamats) not_found 404
  rows ←
      lay_out first_id postamat.id p.grid_cols p.hardware_start.board fleet.cell_types p.layout
        (start_of p)
  raise_if (any (number_taken fleet.store.cells) rows) bulk_create_partial_failure 409
  ok (
    record fleet {
      store = record fleet.store {
        cells = fleet.store.cells ++ rows;
        audits = log fleet.store.audits (record {
          event = "cells.bulk_created";
          source = Source.admin;
          severity = Severity.info;
          message = append (str (length rows)) " ячеек добавлено.";
          actor = some admin;
          postamat_id = some postamat.id;
          cell_id = none;
          details = some (count_and_grid (length rows) p.grid_rows p.grid_cols);
        });
      };
    },
    contract_cells rows,
  )
