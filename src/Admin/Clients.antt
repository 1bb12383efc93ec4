-- ===== src/Admin/Clients.antt =====
-- Blocking a client: `block_client` and `unblock_client` of backend/app/api/admin/clients.py.
pub mod Blocked
use Prim.Native.String.{String, ◌++◌ as append}
use poctamat_back.Common.{
  ℕ, true, false, none, some, List, get, put, Result, ok, ◌>>=◌, or_raise, not_found,
}
use poctamat_back.Audit.{
  AuditEntry, Severity, Source, AuditDetails, client_and_reason, client_only, log,
}
use poctamat_back.Identity.{Client, Accounts}
use poctamat_back.Staff.{Office}

abbrev pub client_key : Client → ℕ
client_key c = c.id

abbrev pub client_entry : String → String → String → AuditDetails → AuditEntry
client_entry event message admin details = record {
  event = event;
  source = Source.admin;
  severity = Severity.info;
  message = message;
  actor = some admin;
  postamat_id = none;
  cell_id = none;
  details = some details;
}

-- The changed row and the entry, in one session.
abbrev pub save_client : Client → AuditEntry → Office → Office
save_client c entry office = record office {
  accounts = record office.accounts { clients = put client_key c office.accounts.clients };
  audits = log office.audits entry;
}

unfoldable pub block_client : ℕ → String → String → ℕ → Office → Result Office
block_client now admin reason client_id office = do
  c ← or_raise (get client_key client_id office.accounts.clients) not_found 404
  ok (
      save_client
        (record c { is_blocked = true; blocked_reason = some reason; blocked_at = some now })
        (client_entry "client.blocked" (append "Клиент " (append c.phone " заблокирован.")) admin
          (client_and_reason c.id reason))
        office)

unfoldable pub unblock_client : String → ℕ → Office → Result Office
unblock_client admin client_id office = do
  c ← or_raise (get client_key client_id office.accounts.clients) not_found 404
  ok (
      save_client (record c { is_blocked = false; blocked_reason = none; blocked_at = none })
        (client_entry "client.unblocked" (append "Клиент " (append c.phone " разблокирован.")) admin
          (client_only c.id))
        office)
