-- ===== src/Catalog/Cells.antt =====
-- Which cells of a postamat can be rented: backend/app/modules/catalog/service.py.
pub mod Free
use poctamat_back.Common.{
  ℕ, Bool, true, false, not, ◌&&◌, Option, none, some, List, [], ◌∷◌, ◌++◌, map, leb, ◌==◌,
  if◌then◌else◌, select, first, member,
}
use poctamat_back.Catalog.{Cell}

-- `ORDER BY number`, one row after the other.
unfoldable pub insert_by_number : Cell → List Cell → List Cell
insert_by_number c [] = c ∷ []
insert_by_number c (d ∷ cells) =
    if leb c.number d.number then c ∷ d ∷ cells else d ∷ insert_by_number c cells

unfoldable pub order_by_number : List Cell → List Cell
unfolding insert_by_number
order_by_number [] = []
order_by_number (c ∷ cells) = insert_by_number c (order_by_number cells)

abbrev pub is_usable : ℕ → Cell → Bool
is_usable postamat_id c = c.postamat_id == postamat_id && (not c.is_blocked && not c.is_maintenance)

unfoldable pub usable_cells : List Cell → ℕ → List Cell
unfolding order_by_number
usable_cells cells postamat_id = order_by_number (select (is_usable postamat_id) cells)

-- `pools[key].append(id)` on a dict of lists.
unfoldable pub append_pool : ℕ → ℕ → List (ℕ × List ℕ) → List (ℕ × List ℕ)
append_pool key id [] = (key, id ∷ []) ∷ []
append_pool key id ((k, ids) ∷ pools) =
    if k == key then (k, ids ++ id ∷ []) ∷ pools else (k, ids) ∷ append_pool key id pools

unfoldable pub pool_cells : List Cell → List (ℕ × List ℕ) → List (ℕ × List ℕ)
unfolding append_pool
pool_cells [] pools = pools
pool_cells (c ∷ cells) pools = pool_cells cells (append_pool c.cell_type_id c.id pools)

unfoldable pub cell_ids_by_type : List Cell → ℕ → List (ℕ × List ℕ)
unfolding usable_cells pool_cells
cell_ids_by_type cells postamat_id = pool_cells (usable_cells cells postamat_id) []

-- The cells over which the comprehension of `free_cell_ids` runs and which it keeps.
unfoldable pub free_cells : List Cell → ℕ → ℕ → List ℕ → List Cell
unfolding usable_cells
free_cells cells postamat_id cell_type_id taken =
    select (λ c. not (member c.id taken))
      (select (λ c. c.cell_type_id == cell_type_id) (usable_cells cells postamat_id))

unfoldable pub free_cell_ids : List Cell → ℕ → ℕ → List ℕ → List ℕ
free_cell_ids cells postamat_id cell_type_id taken =
    map (λ c. c.id) (free_cells cells postamat_id cell_type_id taken)

-- `cell_numbers(…).get(cell_id, 0)`: every caller reads the dict in this way.
unfoldable pub cell_number : List Cell → ℕ → ℕ
cell_number [] cell_id = 0
cell_number (c ∷ cells) cell_id = if c.id == cell_id then c.number else cell_number cells cell_id
