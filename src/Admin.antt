-- ===== src/Admin.antt =====
-- The admin API from the point where the caller has the permission: the cell routes of
-- backend/app/api/admin/cells.py, the custody routes of custody.py in Custody, the
-- price list of tariffs.py in Tariffs, and the blocking of clients.py in Clients. `admin` is the caller's login and each reading of `utcnow()` an argument. The
-- answers are rendered in the children only where a decision of the code shows in them.
pub mod Numbers
pub mod Cells
pub mod Bulk
pub mod States
pub mod Custody
pub mod Tariffs
pub mod Clients
use poctamat_back.Common.{ℕ, List}
use poctamat_back.Store.{Store}

-- The tables, and the ids of the cell types, which the database checks a new cell against.
pub record Fleet : Type 0 where
  pub store : Store
  pub cell_types : List ℕ
