-- ===== src/Tests/Cabinet.antt =====
-- Examples of the cell routes of the admin API.
use poctamat_back.Common.{
  ◌≡◌, refl, ◌↔◌, none, some, List, [], ◌∷◌, length, ok, arith, Has, Result, raise, internal_error,
  if◌then◌else◌, ◌++◌, inl,
}
use poctamat_back.Catalog.{Cell}
use poctamat_back.Catalog.Cells.{free_cells}
use poctamat_back.Allocation.{held_cell_ids}
use poctamat_back.Admin.{Fleet}
use poctamat_back.Admin.Numbers.{str, door_number, door_number-str}
use poctamat_back.Admin.Cells.{
  CellWrite, create_cell, cell_of, apply_write, hardware_taken, breaks_constraint,
}
use poctamat_back.Admin.Cells.Wiring.{IsWired, create_cell-IsWired}
use poctamat_back.Admin.Bulk.{GridBulkCreate, bulk_create_cells, fill, lay_out}
use poctamat_back.Admin.Bulk.Placed.{ArePlaced, is_shown}
use poctamat_back.Admin.Bulk.Grid.{bulk_create_cells-placed}
use poctamat_back.Admin.Bulk.Clash.{bulk_create_cells-clash}
use poctamat_back.Admin.States.{free, status, live_booking}
use poctamat_back.Admin.States.Offered.{status-free_cells}
use poctamat_back.Tests.Sites.{unpaid-IsLocated}
use poctamat_back.Tests.{value_or, store, cells, low_cell, high_cell, unpaid}

abbrev fleet : Fleet
fleet = record { store = store; cell_types = 5 ∷ [] }

door_number-str_example : door_number (str 42) ≡ ok 42
door_number-str_example = door_number-str 42

-- A third cell, on the third output.
abbrev third : CellWrite
third = record {
  postamat_id = some 1;
  number = some "3";
  row = none;
  col = none;
  row_span = none;
  col_span = none;
  hardware_address = some (record { board = 1; output = 3 });
  cell_type_id = some 5;
}

abbrev enlarged : Fleet × Result Cell
enlarged = value_or (fleet, ok low_cell) (create_cell 12 "staff" third fleet)

cells-IsWired : IsWired cells
cells-IsWired postamat_id board output = ground arith

create_cell-IsWired_example : IsWired enlarged.0.store.cells
unfolding create_cell cell_of apply_write hardware_taken breaks_constraint door_number str
create_cell-IsWired_example =
    create_cell-IsWired 12 "staff" third fleet enlarged.0 enlarged.1 refl
      (omega arith, (omega arith, tt)) cells-IsWired

-- Two more cells in the second row, on outputs from 2 on, though the output 2 is in use.
abbrev two_more : GridBulkCreate
two_more = record {
  postamat_id = 1;
  grid_rows = 1;
  grid_cols = 2;
  numbering_start = 3;
  hardware_start = record { board = 1; output = 2 };
  layout = record { cell_type_id = 5; count = 2 } ∷ [];
}

abbrev filled : Fleet × Result (List Cell)
filled = value_or (fleet, ok []) (bulk_create_cells 12 "staff" two_more fleet)

bulk_create_cells-placed_example :
    (rows : List Cell) × ArePlaced two_more 0 rows
    × (length rows ≡ 2)
    × (filled.0.store.cells ≡ cells ++ rows)
    × (filled.1 ≡ (if is_shown two_more then ok rows else raise internal_error 500))
unfolding bulk_create_cells fill lay_out str
bulk_create_cells-placed_example =
    bulk_create_cells-placed 12 "staff" two_more fleet filled.0 filled.1 (omega arith) refl

bulk_create_cells-clash_example : ¬ IsWired filled.0.store.cells
unfolding bulk_create_cells fill lay_out str
bulk_create_cells-clash_example =
    bulk_create_cells-clash 12 "staff" two_more fleet filled.0 filled.1 high_cell 0 (omega arith)
      refl (inl refl) refl refl refl (omega arith)

status-free_cells_example :
    (status high_cell (live_booking (unpaid ∷ []) high_cell) ≡ free)
    ↔ Has high_cell (free_cells cells 1 5 (held_cell_ids (unpaid ∷ []) 1))
status-free_cells_example =
    status-free_cells cells (unpaid ∷ []) high_cell unpaid-IsLocated (inl refl)
