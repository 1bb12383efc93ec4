-- ===== src/Admin/Bulk/Clash.antt =====
-- A new cabinet is not checked for lock outputs that other cells drive.
use Prim.Native.String.{String}
use poctamat_back.Common.{
  ℕ, suc, ◌+◌, ◌-◌, ◌≤◌, ◌<◌, ◌≡◌, refl, subst, inl, inr, Bool-cases, ◌==◌, ==_iff, List, [], ◌∷◌,
  ◌++◌, length, count_if, count_if-append, Has, Has-count_if, ok, Result, arith,
}
use poctamat_back.Catalog.{Cell}
use poctamat_back.Admin.{Fleet}
use poctamat_back.Admin.Cells.Wiring.{is_wired, IsWired}
use poctamat_back.Admin.Bulk.{GridBulkCreate, total, bulk_create_cells}
use poctamat_back.Admin.Bulk.Placed.{IsPlaced, ArePlaced}
use poctamat_back.Admin.Bulk.Grid.{bulk_create_cells-placed}

-- Every index has its cell.
IsPlaced-at :
    (p : GridBulkCreate) (i k : ℕ) (rows : List Cell)
    → ArePlaced p i rows
    → k < length rows
    → (c : Cell) × Has c rows × IsPlaced p (i + k) c
IsPlaced-at p i k [] h g = absurd (omega arith)
IsPlaced-at p i k (c ∷ rows) h g = elim (Bool-cases (k == 0)) [
  | inl here ↦
      let e : k ≡ 0 = (==_iff k 0).0 here in
      (c, inl refl, subst (λ j. IsPlaced p j c) (omega (arith, e)) h.0)
  | inr later ↦
      let (d, m, q) = IsPlaced-at p (suc i) (k - 1) rows h.1 (ground (arith, later)) in
      (d, inr m, subst (λ j. IsPlaced p j d) (ground (arith, later)) q)
]

-- If a stored cell of the postamat drives one of the outputs that a new cabinet takes, and the
-- cabinet is committed, then two cells of the postamat drive the same output afterwards.
pub bulk_create_cells-clash :
    (first_id : ℕ) (admin : String) (p : GridBulkCreate) (fleet fleet' : Fleet)
    (answer : Result (List Cell)) (c : Cell) (k : ℕ)
    → 0 < p.grid_cols
    → bulk_create_cells first_id admin p fleet ≡ ok (fleet', answer)
    → Has c fleet.store.cells
    → c.postamat_id ≡ p.postamat_id
    → c.board ≡ p.hardware_start.board
    → c.output ≡ p.hardware_start.output + k
    → k < total p.layout
    → ¬ IsWired fleet'.store.cells
bulk_create_cells-clash first_id admin p fleet fleet' answer c k positive e m site board output h
      w =
    let (rows, placed, count, written, _) =
      bulk_create_cells-placed first_id admin p fleet fleet' answer positive e in
    let (d, new, q) = IsPlaced-at p 0 k rows placed (rw count h) in
    let output_k = p.hardware_start.output + k in
    let test = is_wired p.postamat_id p.hardware_start.board output_k in
    let old_one = Has-count_if test c fleet.store.cells m (ground (arith, site, board, output)) in
    let new_one = Has-count_if test d rows new (ground (arith, q.site, q.board, q.output)) in
    let both : count_if test (fleet.store.cells ++ rows) ≤ 1 =
      rw written at (w p.postamat_id p.hardware_start.board output_k) in
    absurd (omega (arith, old_one, new_one, both, count_if-append test fleet.store.cells rows))
