-- ===== src/Catalog/Cells/Free.antt =====
-- `free_cell_ids` lists exactly the rentable cells of a type, in door order, and agrees with the
-- pools of `cell_ids_by_type`.
use poctamat_back.Common.{
  ℕ, ◌≤◌, ◌≡◌, refl, sym, ap, subst, ◌∙◌, ◌⊎◌, inl, inr, Bool, false, not, List, [], ◌∷◌, ◌++◌, map,
  arith, leb, leb→le, ◌==◌, if◌then◌else◌, select, member, All, Has, All-select_sub, select-Has,
  ◌↔◌, Has-select, Bool-cases,
}
use mathlib.Core.List.{append-nil, append_assoc}
use poctamat_back.Catalog.{Cell}
use poctamat_back.Catalog.Cells.{
  insert_by_number, order_by_number, is_usable, usable_cells, append_pool, pool_cells,
  cell_ids_by_type, free_cells, free_cell_ids,
}

-- Door numbers do not fall along the list.
abbrev pub IsOrdered : List Cell → Type 0
IsOrdered [] = Unit
IsOrdered (c ∷ cells) = All (λ d. c.number ≤ d.number) cells × IsOrdered cells

All-insert :
    (P : Cell → Type 0) (c : Cell) (cells : List Cell)
    → P c
    → All P cells
    → All P (insert_by_number c cells)
unfolding insert_by_number
All-insert P c [] p h = (p, tt)
All-insert P c (d ∷ cells) p h = elim (Bool-cases (leb c.number d.number)) [
  | inl le ↦ rw le (p, h)
  | inr gt ↦ rw gt (h.0, All-insert P c cells p h.1)
]

Has-insert_new : (c : Cell) (cells : List Cell) → Has c (insert_by_number c cells)
unfolding insert_by_number
Has-insert_new c [] = inl refl
Has-insert_new c (d ∷ cells) = elim (Bool-cases (leb c.number d.number)) [
  | inl le ↦ rw le (inl refl)
  | inr gt ↦ rw gt (inr (Has-insert_new c cells))
]

Has-insert_old : (x c : Cell) (cells : List Cell) → Has x cells → Has x (insert_by_number c cells)
unfolding insert_by_number
Has-insert_old x c [] m = absurd m
Has-insert_old x c (d ∷ cells) m = elim (Bool-cases (leb c.number d.number)) [
  | inl le ↦ rw le (inr m)
  | inr gt ↦ rw gt (elim m [ inl e ↦ inl e | inr n ↦ inr (Has-insert_old x c cells n) ])
]

All-order : (P : Cell → Type 0) (cells : List Cell) → All P cells → All P (order_by_number cells)
unfolding order_by_number
All-order P [] h = tt
All-order P (c ∷ cells) h = All-insert P c (order_by_number cells) h.0 (All-order P cells h.1)

Has-order : (x : Cell) (cells : List Cell) → Has x cells → Has x (order_by_number cells)
unfolding order_by_number
Has-order x [] m = m
Has-order x (c ∷ cells) (inl e) =
    subst (λ y. Has y (insert_by_number c (order_by_number cells))) (sym e)
      (Has-insert_new c (order_by_number cells))
Has-order x (c ∷ cells) (inr m) = Has-insert_old x c (order_by_number cells) (Has-order x cells m)

insert-Has_past :
    (x c d : Cell) (cells : List Cell)
    → (Has x (insert_by_number c cells) → (x ≡ c) ⊎ Has x cells)
    → Has x (d ∷ insert_by_number c cells)
    → (x ≡ c) ⊎ Has x (d ∷ cells)
insert-Has_past x c d cells rest (inl e) = inr (inl e)
insert-Has_past x c d cells rest (inr m) = elim (rest m) [ inl e ↦ inl e | inr n ↦ inr (inr n) ]

insert-Has :
    (x c : Cell) (cells : List Cell) → Has x (insert_by_number c cells) → (x ≡ c) ⊎ Has x cells
unfolding insert_by_number
insert-Has x c [] m = m
insert-Has x c (d ∷ cells) m = elim (Bool-cases (leb c.number d.number)) [
  | inl le ↦ rw le at m
  | inr gt ↦ insert-Has_past x c d cells (insert-Has x c cells) (rw gt at m)
]

order-Has : (x : Cell) (cells : List Cell) → Has x (order_by_number cells) → Has x cells
unfolding order_by_number
order-Has x [] m = m
order-Has x (c ∷ cells) m = elim (insert-Has x c (order_by_number cells) m) [
  | inl e ↦ inl e
  | inr n ↦ inr (order-Has x cells n)
]

All-le_trans :
    (m n : ℕ) (cells : List Cell)
    → m ≤ n
    → All (λ d. n ≤ d.number) cells
    → All (λ d. m ≤ d.number) cells
All-le_trans m n [] le h = tt
All-le_trans m n (d ∷ cells) le h = (omega arith, All-le_trans m n cells le h.1)

insert-IsOrdered :
    (c : Cell) (cells : List Cell) → IsOrdered cells → IsOrdered (insert_by_number c cells)
unfolding insert_by_number
insert-IsOrdered c [] h = (tt, tt)
insert-IsOrdered c (d ∷ cells) h = elim (Bool-cases (leb c.number d.number)) [
  | inl le ↦ rw le ((leb→le _ _ le, All-le_trans c.number d.number cells (leb→le _ _ le) h.0), h)
  | inr gt ↦ rw gt (
    All-insert (λ e. d.number ≤ e.number) c cells (ground arith) h.0,
    insert-IsOrdered c cells h.1,
  )
]

order-IsOrdered : (cells : List Cell) → IsOrdered (order_by_number cells)
unfolding order_by_number
order-IsOrdered [] = tt
order-IsOrdered (c ∷ cells) = insert-IsOrdered c (order_by_number cells) (order-IsOrdered cells)

select-IsOrdered :
    (p : Cell → Bool) (cells : List Cell) → IsOrdered cells → IsOrdered (select p cells)
select-IsOrdered p [] h = tt
select-IsOrdered p (c ∷ cells) h = elim (Bool-cases (p c)) [
  | inl hit ↦
      rw hit (All-select_sub (λ d. c.number ≤ d.number) p cells h.0, select-IsOrdered p cells h.1)
  | inr miss ↦ rw miss (select-IsOrdered p cells h.1)
]

-- What makes a cell free for a booking of the type: not withdrawn, and not among the taken ones.
pub record IsFree (postamat_id cell_type_id : ℕ) (taken : List ℕ) (c : Cell) : Type 0 where
  pub here : c.postamat_id ≡ postamat_id
  pub sized : c.cell_type_id ≡ cell_type_id
  pub unblocked : c.is_blocked ≡ false
  pub in_service : c.is_maintenance ≡ false
  pub untaken : member c.id taken ≡ false

module _ (cells : List Cell) (postamat_id cell_type_id : ℕ) (taken : List ℕ) where
  free_cells_sound :
      (c : Cell)
      → Has c (free_cells cells postamat_id cell_type_id taken)
      → Has c cells × IsFree postamat_id cell_type_id taken c
  unfolding free_cells usable_cells
  free_cells_sound c m =
      let (typed, untaken) = select-Has (λ c. not (member c.id taken)) c _ m in
      let (ordered, sized) = select-Has (λ c. c.cell_type_id == cell_type_id) c _ typed in
      let (stored, usable) = select-Has (is_usable postamat_id) c cells (order-Has c _ ordered) in
      (stored, ground arith)

  free_cells-complete :
      (c : Cell)
      → Has c cells
      → IsFree postamat_id cell_type_id taken c
      → Has c (free_cells cells postamat_id cell_type_id taken)
  unfolding free_cells usable_cells
  free_cells-complete c m f =
      Has-select (λ c. not (member c.id taken)) c _
        (Has-select (λ c. c.cell_type_id == cell_type_id) c _
          (Has-order c _ (Has-select (is_usable postamat_id) c cells m (ground (arith, f))))
          (ground (arith, f)))
        (ground (arith, f))

  -- A cell is listed exactly when it is a stored cell of the postamat and the type that is neither
  -- blocked nor withdrawn nor taken.
  pub free_cells_iff :
      (c : Cell)
      → Has c (free_cells cells postamat_id cell_type_id taken)
        ↔ (Has c cells × IsFree postamat_id cell_type_id taken c)
  free_cells_iff c = (free_cells_sound c, λ m. free_cells-complete c m.0 m.1)

  -- The free cells are listed by rising door number.
  pub free_cells-IsOrdered : IsOrdered (free_cells cells postamat_id cell_type_id taken)
  unfolding free_cells usable_cells
  free_cells-IsOrdered =
      select-IsOrdered _ _
        (select-IsOrdered _ _ (order-IsOrdered (select (is_usable postamat_id) cells)))

-- The ids filed under a type, `pools.get(type, [])`.
abbrev pub pool : ℕ → List (ℕ × List ℕ) → List ℕ
pool key [] = []
pool key ((k, ids) ∷ pools) = if k == key then ids else pool key pools

abbrev ids : List Cell → List ℕ
ids = map (λ c. c.id)

pool-append :
    (key id t : ℕ) (pools : List (ℕ × List ℕ))
    → pool t (append_pool key id pools)
      ≡ (if key == t then pool t pools ++ id ∷ [] else pool t pools)
unfolding append_pool
pool-append key id t [] = ground arith
pool-append key id t ((k, xs) ∷ pools) = ground (arith, pool-append key id t pools)

pool-pool_cells :
    (t : ℕ) (cells : List Cell) (pools : List (ℕ × List ℕ))
    → pool t (pool_cells cells pools)
      ≡ pool t pools ++ ids (select (λ c. c.cell_type_id == t) cells)
unfolding pool_cells
pool-pool_cells t [] pools = sym (append-nil (pool t pools))
pool-pool_cells t (c ∷ cells) pools =
    pool-pool_cells t cells (append_pool c.cell_type_id c.id pools)
    ∙ elim (Bool-cases (c.cell_type_id == t)) [
      | inl hit ↦ rw (pool-append c.cell_type_id c.id t pools, hit) (simp append_assoc)
      | inr miss ↦ rw (pool-append c.cell_type_id c.id t pools, miss)
    ]

select-untaken : (cells : List Cell) → select (λ c. not (member c.id [])) cells ≡ cells
select-untaken [] = refl
select-untaken (c ∷ cells) = ap (◌∷◌ c) (select-untaken cells)

-- The pool of a type in cell_ids_by_type lists what free_cell_ids lists when nothing is taken.
pub pool-cell_ids_by_type :
    (cells : List Cell) (postamat_id t : ℕ)
    → pool t (cell_ids_by_type cells postamat_id) ≡ free_cell_ids cells postamat_id t []
unfolding cell_ids_by_type free_cell_ids free_cells
pool-cell_ids_by_type cells postamat_id t =
    pool-pool_cells t (usable_cells cells postamat_id) []
    ∙ ap ids
        (sym (select-untaken (select (λ c. c.cell_type_id == t) (usable_cells cells postamat_id))))
