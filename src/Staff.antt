-- ===== src/Staff.antt =====
-- Staff accounts: who is let in. `require_client`, `require_admin` and `require_permission` of
-- backend/app/core/deps.py on the claims of a decoded token, and `login` of
-- backend/app/api/admin/auth.py. Users has what an operator does with the accounts.
pub mod Users
use Prim.Native.String.{String}
use package.text.Mathlib.Text.{◌==◌ as str_eq}
use poctamat_back.Common.{
  ℕ, Bool, true, false, not, ◌&&◌, ◌||◌, Option, none, some, List, [], ◌∷◌, first, get, put,
  if◌then◌else◌, Result, ok, ◌>>=◌, ◌>>◌, raise, raise_if, or_raise, token_invalid, client_blocked,
  admin_account_blocked, admin_credentials_invalid, forbidden, internal_error,
}
use poctamat_back.Settings.{Settings}
use poctamat_back.Audit.{AuditEntry}
use poctamat_back.Identity.{Client, AdminUser, Accounts, admin, issue_token_pair, is_inactive_admin}

pub record Role : Type 0 where
  pub id : ℕ
  pub code : String
  pub name : String
  pub permissions : List String

-- The tables that the staff routes read and write.
pub record Office : Type 0 where
  pub accounts : Accounts
  pub roles : List Role
  pub audits : List AuditEntry

abbrev pub admin_key : AdminUser → ℕ
admin_key a = a.id

abbrev pub role_key : Role → ℕ
role_key r = r.id

-- What `decode_token` answers of a good token.
pub record TokenClaims : Type 0 where
  pub typ : String
  pub sub : ℕ

unfoldable pub require_client : TokenClaims → List Client → Result Client
require_client claims clients = do
  raise_if (not (str_eq claims.typ "client")) token_invalid 401
  c ← or_raise (get (λ (x : Client). x.id) claims.sub clients) token_invalid 401
  raise_if c.is_blocked client_blocked 403
  ok c

unfoldable pub require_admin : TokenClaims → List AdminUser → Result AdminUser
require_admin claims admins = do
  raise_if (not (str_eq claims.typ "admin")) token_invalid 401
  a ← or_raise (get admin_key claims.sub admins) admin_account_blocked 403
  raise_if (not a.is_active) admin_account_blocked 403
  ok a

abbrev pub has_text : String → List String → Bool
has_text t [] = false
has_text t (u ∷ us) = str_eq u t || has_text t us

-- The role is joined to the account; without it the attribute has no `permissions`.
unfoldable pub require_permission : String → TokenClaims → Office → Result AdminUser
require_permission code claims office = do
  a ← require_admin claims office.accounts.admins
  role ← or_raise (get role_key a.role_id office.roles) internal_error 500
  raise_if (not (has_text code role.permissions)) forbidden 403
  ok a

abbrev pub has_login : String → AdminUser → Bool
has_login login a = str_eq a.login login

module _ (hash_token : String → String) (verify_secret : String → String → Bool) where
  abbrev pub check_password : String → Option AdminUser → Result AdminUser
  check_password password none = raise admin_credentials_invalid 401
  check_password password (some a) = do
    raise_if (not (verify_secret password a.password_hash)) admin_credentials_invalid 401
    ok a

  -- `login`; `now` stamps the account, and `later` begins the token `fresh`.
  unfoldable pub log_in :
      Settings → ℕ → ℕ → String → String → String → Accounts → Result (Accounts × AdminUser)
  log_in s now later fresh login password accounts = do
    a ← check_password password (first (has_login login) accounts.admins)
    raise_if (not a.is_active) admin_account_blocked 403
    let stamped = record a { last_login_at = some now } in
        ok (
          issue_token_pair hash_token s later fresh admin a.id
              (record accounts { admins = put admin_key stamped accounts.admins }),
          stamped,
        )
