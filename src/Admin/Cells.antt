-- ===== src/Admin/Cells.antt =====
-- One cell at a time: `_apply_write`, `create_cell` and `update_cell` of
-- backend/app/api/admin/cells.py. A flush that breaks a constraint of the table raises
-- IntegrityError; the constraints are `uq_cell_number` and the two foreign keys.
pub mod Wiring
use Prim.Native.String.{String, ◌++◌ as append}
use poctamat_back.Common.{
  ℕ, Bool, true, false, not, ◌&&◌, ◌||◌, Option, none, some, List, [], ◌∷◌, ◌++◌, count_if, ltb,
  member, ◌==◌, is_some, get, put, Result, ok, err, ◌>>=◌, ◌>>◌, raise, raise_if, or_raise, leb,
  not_found, validation_error, internal_error, hardware_address_duplicate, cell_number_duplicate,
  if◌then◌else◌,
}
use poctamat_back.Catalog.{Postamat, Cell}
use poctamat_back.Audit.{AuditEntry, Severity, Source, AuditDetails, number_only, fields_only, log}
use poctamat_back.Store.{Store}
use poctamat_back.Admin.{Fleet}
use poctamat_back.Admin.Numbers.{str, door_number}

pub record HardwareAddress : Type 0 where
  pub board : ℕ
  pub output : ℕ

pub record CellWrite : Type 0 where
  pub postamat_id : Option ℕ
  pub number : Option String
  pub row : Option ℕ
  pub col : Option ℕ
  pub row_span : Option ℕ
  pub col_span : Option ℕ
  pub hardware_address : Option HardwareAddress
  pub cell_type_id : Option ℕ

abbrev pub cell_key : Cell → ℕ
cell_key c = c.id

-- `if value is not None: setattr(cell, field, value)`, on a required and on an optional column.
abbrev pub or_kept : Option ℕ → ℕ → ℕ
or_kept none old = old
or_kept (some new) old = new

abbrev pub or_kept? : Option ℕ → Option ℕ → Option ℕ
or_kept? none old = old
or_kept? (some new) old = some new

abbrev pub with_number : Option String → Cell → Result Cell
with_number none c = ok c
with_number (some text) c = do n ← door_number text; ok (record c { number = n })

abbrev pub with_address : Option HardwareAddress → Cell → Cell
with_address none c = c
with_address (some a) c = record c { board = a.board; output = a.output }

-- The written cell; `written_fields` has the names that `_apply_write` returns.
unfoldable pub apply_write : Cell → CellWrite → Result Cell
apply_write c p = do
  numbered ← with_number p.number (record c {
    postamat_id = or_kept p.postamat_id c.postamat_id;
    cell_type_id = or_kept p.cell_type_id c.cell_type_id;
    row = or_kept? p.row c.row;
    col = or_kept? p.col c.col;
    row_span = or_kept? p.row_span c.row_span;
    col_span = or_kept? p.col_span c.col_span;
  })
  ok (with_address p.hardware_address numbered)

abbrev named_if : Bool → String → List String → List String
named_if true name rest = name ∷ rest
named_if false name rest = rest

-- `sorted(changed)`.
abbrev pub written_fields : CellWrite → List String
written_fields p = named_if (is_some p.cell_type_id) "cell_type_id" (
    named_if (is_some p.col) "col" (
      named_if (is_some p.col_span) "col_span" (
        named_if (is_some p.hardware_address) "hardware_address" (
          named_if (is_some p.number) "number" (
            named_if (is_some p.postamat_id) "postamat_id"
              (named_if (is_some p.row) "row" (named_if (is_some p.row_span) "row_span" [])))))))

-- Another cell of the postamat with this lock output.
abbrev pub drives : Cell → Cell → Bool
drives cell c =
    c.postamat_id == cell.postamat_id
    && (c.board == cell.board && (c.output == cell.output && not (c.id == cell.id)))

-- `_hardware_taken`.
unfoldable pub hardware_taken : List Cell → Cell → Bool
hardware_taken cells cell = ltb 0 (count_if (drives cell) cells)

abbrev pub shares_number : Cell → Cell → Bool
shares_number cell c =
    c.postamat_id == cell.postamat_id && (c.number == cell.number && not (c.id == cell.id))

abbrev pub number_taken : List Cell → Cell → Bool
number_taken cells cell = ltb 0 (count_if (shares_number cell) cells)

-- A flush of this row raises IntegrityError.
unfoldable pub breaks_constraint : Fleet → Cell → Bool
breaks_constraint fleet cell =
    number_taken fleet.store.cells cell
    || not (is_some (get (λ (p : Postamat). p.id) cell.postamat_id fleet.store.postamats))
    || not (member cell.cell_type_id fleet.cell_types)

abbrev pub cell_entry : String → String → String → Cell → AuditDetails → AuditEntry
cell_entry event message admin cell details = record {
  event = event;
  source = Source.admin;
  severity = Severity.info;
  message = message;
  actor = some admin;
  postamat_id = some cell.postamat_id;
  cell_id = some cell.id;
  details = some details;
}

abbrev pub new_cell : ℕ → ℕ → ℕ → ℕ → Cell
new_cell id postamat_id cell_type_id number = record {
  id = id;
  postamat_id = postamat_id;
  cell_type_id = cell_type_id;
  number = number;
  row = none;
  col = none;
  row_span = none;
  col_span = none;
  board = 0;
  output = 0;
  is_blocked = false;
  is_maintenance = false;
  blocked_reason = none;
  status_changed_at = none;
}

-- The cell that `create_cell` adds, if the payload lacks nothing.
unfoldable pub cell_of : ℕ → CellWrite → Result Cell
cell_of id p = do
  postamat_id ← or_raise p.postamat_id validation_error 422
  cell_type_id ← or_raise p.cell_type_id validation_error 422
  text ← or_raise p.number validation_error 422
  address ← or_raise p.hardware_address validation_error 422
  number ← door_number text
  apply_write (new_cell id postamat_id cell_type_id number) p

-- `_contract_cell`, called after the commit: `HardwareAddress` takes numbers up to 255, and a stored
-- row with a larger one answers 500.
unfoldable pub contract_cell : Cell → Result Cell
contract_cell c = if leb c.board 255 && leb c.output 255 then ok c else raise internal_error 500

-- The tables after the commit, and the answer.
unfoldable pub create_cell : ℕ → String → CellWrite → Fleet → Result (Fleet × Result Cell)
create_cell id admin p fleet = do
  cell ← cell_of id p
  raise_if (hardware_taken fleet.store.cells cell) hardware_address_duplicate 409
  raise_if (breaks_constraint fleet cell) cell_number_duplicate 409
  ok (
    record fleet {
      store = record fleet.store {
        cells = fleet.store.cells ++ cell ∷ [];
        audits = log fleet.store.audits (
            cell_entry "cell.created" (append "Ячейка " (append (str cell.number) " добавлена."))
              admin cell (number_only cell.number));
      };
    },
    contract_cell cell,
  )

-- The changed row is first flushed by the query of `_hardware_taken`, or by `record`, and neither
-- stands in the `try`: a broken constraint leaves the handler as it is.
unfoldable pub update_cell : ℕ → String → CellWrite → Fleet → Result (Fleet × Result Cell)
update_cell id admin p fleet = do
  old ← or_raise (get cell_key id fleet.store.cells) not_found 404
  cell ← apply_write old p
  raise_if (breaks_constraint fleet cell) internal_error 500
  raise_if (is_some p.hardware_address && hardware_taken fleet.store.cells cell)
      hardware_address_duplicate 409
  ok (
    record fleet {
      store = record fleet.store {
        cells = put cell_key cell fleet.store.cells;
        audits = log fleet.store.audits (
            cell_entry "cell.updated" (append "Ячейка " (append (str cell.number) " изменена."))
              admin cell (fields_only (written_fields p)));
      };
    },
    contract_cell cell,
  )
