-- ===== src/Catalog.antt =====
-- The catalogue's rows, backend/app/modules/catalog/models.py: postamats with their weekly
-- schedule, and cells. Ids are numbers; a `time` is its microseconds since midnight.
pub mod Opening
pub mod Cells
use Prim.Native.String.{String}
use poctamat_back.Common.{ℕ, Bool, Option, List}

pub data PostamatStatus : Type 0 where
  active maintenance blocked : PostamatStatus

pub record PostamatSchedule : Type 0 where
  pub weekday : ℕ
  pub opens_at : ℕ
  pub closes_at : ℕ

pub record Postamat : Type 0 where
  pub id : ℕ
  pub name : String
  pub city_id : ℕ
  pub status : PostamatStatus
  pub round_the_clock : Bool
  pub schedule : List PostamatSchedule

pub record Cell : Type 0 where
  pub id : ℕ
  pub postamat_id : ℕ
  pub cell_type_id : ℕ
  pub number : ℕ
  pub row : Option ℕ
  pub col : Option ℕ
  pub row_span : Option ℕ
  pub col_span : Option ℕ
  pub board : ℕ
  pub output : ℕ
  pub is_blocked : Bool
  pub is_maintenance : Bool
  pub blocked_reason : Option String
  pub status_changed_at : Option ℕ

pub record Tariff : Type 0 where
  pub city_id : ℕ
  pub cell_type_id : ℕ
  pub duration_hours : ℕ
  pub amount_minor : ℕ
  pub currency : String
