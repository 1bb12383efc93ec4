-- ===== src/Admin/Cells/Wiring.antt =====
-- No lock output drives two doors: what creating and changing one cell keep of that.
use Prim.Native.String.{String}
use poctamat_back.Common.{
  ℕ, ◌≤◌, ◌≡◌, ◌≢◌, refl, sym, ap, subst, ◌∙◌, inl, inr, Bool, true, false, ◌&&◌, Option, none,
  some, List, [], ◌∷◌, ◌++◌, count_if, count_if-append, count_if-put, All, IsDistinct, ◌==◌, ==_iff,
  is_some, get, put, get-Has, ok, Result, >>=-eq-ok, raise_if-ok, or_raise, or_raise-ok, not_found,
  ok_injective, Bool-cases, arith, validation_error, raise, internal_error,
}
use poctamat_back.Catalog.{Cell}
use poctamat_back.Admin.{Fleet}
use poctamat_back.Admin.Numbers.{door_number}
use poctamat_back.Admin.Cells.{
  HardwareAddress, CellWrite, cell_key, with_number, with_address, apply_write, drives,
  hardware_taken, breaks_constraint, new_cell, cell_of, create_cell, update_cell,
}

-- The cell of a postamat behind an output of a board.
abbrev pub is_wired : ℕ → ℕ → ℕ → Cell → Bool
is_wired postamat_id board output c =
    c.postamat_id == postamat_id && (c.board == board && c.output == output)

abbrev pub IsWired : List Cell → Type 0
IsWired cells =
    (postamat_id board output : ℕ) → count_if (is_wired postamat_id board output) cells ≤ 1

abbrev wired_like : Cell → Cell → Bool
wired_like cell = is_wired cell.postamat_id cell.board cell.output

not_taken :
    (cells : List Cell) (cell : Cell)
    → hardware_taken cells cell ≡ false
    → count_if (drives cell) cells ≡ 0
unfolding hardware_taken
not_taken cells cell h = ground (arith, h)

-- Without a row of the same id, the test of `_hardware_taken` looks at all rows.
free_output :
    (cells : List Cell) (cell : Cell)
    → All (λ c. c.id ≢ cell.id) cells
    → count_if (drives cell) cells ≡ 0
    → count_if (wired_like cell) cells ≡ 0
free_output [] cell d h = refl
free_output (c ∷ cells) cell d h = ground (arith, free_output cells cell d.1, d.0)

-- The new row in place of the old one of its id.
put-free_output :
    (cells : List Cell) (cell : Cell)
    → IsDistinct cell_key cells
    → count_if (drives cell) cells ≡ 0
    → count_if (wired_like cell) (put cell_key cell cells) ≤ 1
put-free_output [] cell d h = omega arith
put-free_output (c ∷ cells) cell d h = elim (Bool-cases (c.id == cell.id)) [
  | inl hit ↦
      let others = subst (λ k. All (λ x. x.id ≢ k) cells) ((==_iff c.id cell.id).0 hit) d.0 in
      rw hit (ground (arith, free_output cells cell others))
  | inr miss ↦ rw miss (ground (arith, miss, put-free_output cells cell d.1))
]

-- The same output as the new cell's, or another.
wired_as :
    (postamat_id board output : ℕ) (cell : Cell)
    → is_wired postamat_id board output cell ≡ true
    → (postamat_id ≡ cell.postamat_id) × (board ≡ cell.board) × (output ≡ cell.output)
wired_as postamat_id board output cell h = ground arith

add-IsWired :
    (cells : List Cell) (cell : Cell)
    → All (λ c. c.id ≢ cell.id) cells
    → count_if (drives cell) cells ≡ 0
    → IsWired cells
    → IsWired (cells ++ cell ∷ [])
add-IsWired cells cell d h w pid b o =
    rw (count_if-append (is_wired pid b o) cells (cell ∷ []))
      (elim (Bool-cases (is_wired pid b o cell)) [
        | inl hit ↦
            let (e₁, e₂, e₃) = wired_as pid b o cell hit in
            let none_yet : count_if (is_wired pid b o) cells ≡ 0 =
              rw (e₁, e₂, e₃) (free_output cells cell d h) in
            rw (hit, none_yet) (omega arith)
        | inr miss ↦ rw miss (ground (arith, w pid b o))
      ])

put-IsWired :
    (cells : List Cell) (cell old : Cell)
    → get cell_key cell.id cells ≡ some old
    → IsDistinct cell_key cells
    → count_if (drives cell) cells ≡ 0
    → IsWired cells
    → IsWired (put cell_key cell cells)
put-IsWired cells cell old e d h w pid b o = elim (Bool-cases (is_wired pid b o cell)) [
  | inl hit ↦
      let (e₁, e₂, e₃) = wired_as pid b o cell hit in
      rw (e₁, e₂, e₃) (put-free_output cells cell d h)
  | inr miss ↦ omega (
    arith,
    count_if-put cell_key (is_wired pid b o) cell old cells e
        (λ hit. absurd (ground (arith, miss, hit))),
    w pid b o,
  )
]

with_number-id : (text : Option String) (c c' : Cell) → with_number text c ≡ ok c' → c'.id ≡ c.id
with_number-id none c c' e = ap (λ (x : Cell). x.id) (sym (ok_injective e))
with_number-id (some text) c c' e =
    let (n, _, done) = >>=-eq-ok (door_number text) _ e in
    ap (λ (x : Cell). x.id) (sym (ok_injective done))

with_address-id : (a : Option HardwareAddress) (c : Cell) → (with_address a c).id ≡ c.id
with_address-id none c = refl
with_address-id (some a) c = refl

pub apply_write-id : (c c' : Cell) (p : CellWrite) → apply_write c p ≡ ok c' → c'.id ≡ c.id
unfolding apply_write
apply_write-id c c' p e =
    let (numbered, named, done) = >>=-eq-ok _ _ e in
    ap (λ (x : Cell). x.id) (sym (ok_injective done))
    ∙ with_address-id p.hardware_address numbered
    ∙ with_number-id p.number _ numbered named

cell_of-id : (id : ℕ) (p : CellWrite) (cell : Cell) → cell_of id p ≡ ok cell → cell.id ≡ id
unfolding cell_of
cell_of-id id p cell e =
    let (postamat_id, _, e₁) = >>=-eq-ok (or_raise p.postamat_id validation_error 422) _ e in
    let (cell_type_id, _, e₂) = >>=-eq-ok (or_raise p.cell_type_id validation_error 422) _ e₁ in
    let (text, _, e₃) = >>=-eq-ok (or_raise p.number validation_error 422) _ e₂ in
    let (address, _, e₄) = >>=-eq-ok (or_raise p.hardware_address validation_error 422) _ e₃ in
    let (number, _, e₅) = >>=-eq-ok (door_number text) _ e₄ in
    apply_write-id (new_cell id postamat_id cell_type_id number) cell p e₅

-- If no two stored cells of a postamat drive the same output of a board, this holds after a cell
-- with a new id that `create_cell` adds.
pub create_cell-IsWired :
    (id : ℕ) (admin : String) (p : CellWrite) (fleet fleet' : Fleet) (answer : Result Cell)
    → create_cell id admin p fleet ≡ ok (fleet', answer)
    → All (λ c. c.id ≢ id) fleet.store.cells
    → IsWired fleet.store.cells
    → IsWired fleet'.store.cells
unfolding create_cell
create_cell-IsWired id admin p fleet fleet' answer e fresh w =
    let (cell', made, e₁) = >>=-eq-ok (cell_of id p) _ e in
    let (free, e₂) = raise_if-ok (hardware_taken fleet.store.cells cell') _ _ _ e₁ in
    let (_, done) = raise_if-ok (breaks_constraint fleet cell') _ _ _ e₂ in
    subst (λ (r : Fleet × Result Cell). IsWired r.0.store.cells) (ok_injective done)
      (add-IsWired fleet.store.cells cell'
        (subst (λ k. All (λ c. c.id ≢ k) fleet.store.cells) (sym (cell_of-id id p cell' made))
          fresh)
        (not_taken fleet.store.cells cell' free) w)

pub update_cell-IsWired :
    (id : ℕ) (admin : String) (p : CellWrite) (fleet fleet' : Fleet) (answer : Result Cell)
    → update_cell id admin p fleet ≡ ok (fleet', answer)
    → is_some p.hardware_address ≡ true
    → IsDistinct cell_key fleet.store.cells
    → IsWired fleet.store.cells
    → IsWired fleet'.store.cells
unfolding update_cell
update_cell-IsWired id admin p fleet fleet' answer e given d w =
    let (old, found, e₁) =
      >>=-eq-ok (or_raise (get cell_key id fleet.store.cells) not_found 404) _ e in
    let (cell', written, e₂) = >>=-eq-ok (apply_write old p) _ e₁ in
    let (_, e₃) = raise_if-ok (breaks_constraint fleet cell') _ _ _ e₂ in
    let (free, done) =
      raise_if-ok (is_some p.hardware_address && hardware_taken fleet.store.cells cell') _ _ _ e₃ in
    let stored = or_raise-ok _ not_found 404 found in
    let same : cell'.id ≡ id =
      apply_write-id old cell' p written ∙ (get-Has cell_key id old fleet.store.cells stored).1 in
    subst (λ (r : Fleet × Result Cell). IsWired r.0.store.cells) (ok_injective done)
      (put-IsWired fleet.store.cells cell' old
        (subst (λ k. get cell_key k fleet.store.cells ≡ some old) (sym same) stored) d
        (not_taken fleet.store.cells cell' (rw given at free)) w)

-- A change that breaks a constraint of the table is answered with status 500.
pub update_cell-broken :
    (id : ℕ) (admin : String) (p : CellWrite) (fleet : Fleet) (old cell : Cell)
    → get cell_key id fleet.store.cells ≡ some old
    → apply_write old p ≡ ok cell
    → breaks_constraint fleet cell ≡ true
    → update_cell id admin p fleet ≡ raise internal_error 500
unfolding update_cell
update_cell-broken id admin p fleet old cell e f h = rw e (rw f (rw h refl))
