-- ===== src/Staff/Users.antt =====
-- The accounts of the staff as an operator manages them: backend/app/modules/staff/service.py and the
-- routes of backend/app/api/admin/users.py. A field of a change is none if the body does not name it,
-- and some none if the body has null for it.
pub mod Ended
pub mod Self
use Prim.Native.String.{String, ◌++◌ as append}
use package.text.Mathlib.Text.{◌==◌ as str_eq}
use poctamat_back.Common.{
  ℕ, ◌+◌, Bool, true, false, not, ◌&&◌, ◌||◌, Option, none, some, is_some, List, [], ◌∷◌, ◌++◌, map,
  first, get, put, ◌==◌, if◌then◌else◌, Result, ok, ◌>>=◌, ◌>>◌, raise, raise_if, or_raise,
  not_found, user_login_taken, role_not_found, cannot_modify_self, internal_error,
}
use poctamat_back.Settings.{hours}
use poctamat_back.Audit.{
  AuditEntry, Severity, Source, AuditDetails, user_and_role, user_and_fields, user_only, log,
}
use poctamat_back.Identity.{AdminUser, RefreshToken, Accounts, admin, same_subject}
use poctamat_back.Staff.{
  Role, Office, TokenClaims, admin_key, role_key, has_login, require_permission,
}

pub record AdminUserCreate : Type 0 where
  pub login : String
  pub password : String
  pub role_id : ℕ
  pub full_name : String
  pub postamat_ids : List ℕ

pub record AdminUserPatch : Type 0 where
  pub full_name : Option (Option String)
  pub role_id : Option (Option ℕ)
  pub is_active : Option (Option Bool)
  pub postamat_ids : Option (Option (List ℕ))

abbrev pub temporary_password_hours : ℕ
temporary_password_hours = 24

abbrev pub user_entry : String → String → AdminUser → AuditDetails → AuditEntry
user_entry event message actor details = record {
  event = event;
  source = Source.admin;
  severity = Severity.info;
  message = message;
  actor = some actor.login;
  postamat_id = none;
  cell_id = none;
  details = some details;
}

abbrev pub with_admins : List AdminUser → Office → Office
with_admins admins office = record office { accounts = record office.accounts { admins = admins } }

abbrev pub new_user : (String → String) → ℕ → AdminUserCreate → AdminUser
new_user hash_secret id p = record {
  id = id;
  login = p.login;
  full_name = p.full_name;
  password_hash = hash_secret p.password;
  role_id = p.role_id;
  is_active = true;
  must_change_password = true;
  postamat_ids = p.postamat_ids;
  last_login_at = none;
}

-- `service.create_user`.
unfoldable pub create_user :
    (String → String) → ℕ → AdminUserCreate → Office → Result (Office × AdminUser)
create_user hash_secret id p office = do
  raise_if (is_some (first (has_login p.login) office.accounts.admins)) user_login_taken 409
  role ← or_raise (get role_key p.role_id office.roles) role_not_found 422
  ok (
    with_admins (office.accounts.admins ++ new_user hash_secret id p ∷ []) office,
    new_user hash_secret id p,
  )

-- `changes.get("is_active") is False`
abbrev pub switches_off : Option (Option Bool) → Bool
switches_off (some (some active)) = not active
switches_off _ = false

-- `"role_id" in changes and changes["role_id"] != user.role_id`
abbrev pub changes_role : Option (Option ℕ) → ℕ → Bool
changes_role none old = false
changes_role (some none) old = true
changes_role (some (some new)) old = not (new == old)

abbrev pub locking_out : AdminUserPatch → AdminUser → Bool
locking_out p user = switches_off p.is_active || changes_role p.role_id user.role_id

-- `_role_or_422` if a role is named.
abbrev pub check_role : Option (Option ℕ) → List Role → Result (Unit {0})
check_role (some (some id)) roles =
    raise_if (not (is_some (get role_key id roles))) role_not_found 422
check_role _ roles = ok tt

-- `setattr` of a column that may not be null: the flush refuses a null.
abbrev pub set_column {ℓ} : {A : Type ℓ} → Option (Option A) → A → Result A
set_column none old = ok old
set_column (some none) old = raise internal_error 500
set_column (some (some new)) old = ok new

-- A JSON column takes a null, which is read as an empty list.
abbrev pub set_ids : Option (Option (List ℕ)) → List ℕ → List ℕ
set_ids none old = old
set_ids (some none) old = []
set_ids (some (some new)) old = new

-- `service.update_user`.
unfoldable pub update_user : AdminUserPatch → AdminUser → AdminUser → List Role → Result AdminUser
update_user p user actor roles = do
  raise_if (user.id == actor.id && locking_out p user) cannot_modify_self 403
  u ← check_role p.role_id roles
  full_name ← set_column p.full_name user.full_name
  role_id ← set_column p.role_id user.role_id
  is_active ← set_column p.is_active user.is_active
  ok (record user {
    full_name = full_name;
    role_id = role_id;
    is_active = is_active;
    postamat_ids = set_ids p.postamat_ids user.postamat_ids;
  })

abbrev pub is_stale : ℕ → RefreshToken → Bool
is_stale user_id t =
    same_subject t.subject_type admin && (t.subject_id == user_id && not (is_some t.revoked_at))

abbrev pub end_session : ℕ → ℕ → RefreshToken → RefreshToken
end_session user_id now t = if is_stale user_id t then record t { revoked_at = some now } else t

-- `service.reset_password`: the temporary password is drawn, and its end is only answered.
unfoldable pub reset_password :
    (String → String) → ℕ → String → AdminUser → Accounts → Accounts × String × ℕ
reset_password hash_secret now password user accounts = (
  record accounts {
    admins =
        put admin_key
          (record user { password_hash = hash_secret password; must_change_password = true })
          accounts.admins;
    tokens = map (end_session user.id now) accounts.tokens;
  },
  password,
  now + hours temporary_password_hours,
)

abbrev named_if {ℓ} : {A : Type ℓ} → Option A → String → List String → List String
named_if none name rest = rest
named_if (some x) name rest = name ∷ rest

-- `sorted(changes)`
abbrev pub changed_fields : AdminUserPatch → List String
changed_fields p = named_if p.full_name "full_name" (
    named_if p.is_active "is_active"
      (named_if p.postamat_ids "postamat_ids" (named_if p.role_id "role_id" [])))

abbrev pub logged : AuditEntry → Office → Office
logged entry office = record office { audits = log office.audits entry }

-- The three routes, with the permission that each of them asks for.
unfoldable pub create_user_route :
    (String → String) → ℕ → TokenClaims → AdminUserCreate → Office → Result (Office × AdminUser)
create_user_route hash_secret id claims p office = do
  actor ← require_permission "users.write" claims office
  (office', user) ← create_user hash_secret id p office
  ok (
    logged
        (user_entry "admin_user.created" (append "Создана учётная запись " (append user.login "."))
          actor (user_and_role user.id user.role_id))
        office',
    user,
  )

unfoldable pub update_user_route :
    ℕ → TokenClaims → AdminUserPatch → Office → Result (Office × AdminUser)
update_user_route user_id claims p office = do
  actor ← require_permission "users.write" claims office
  user ← or_raise (get admin_key user_id office.accounts.admins) not_found 404
  user' ← update_user p user actor office.roles
  ok (
    logged
        (user_entry "admin_user.updated" (append "Изменена учётная запись " (append user.login "."))
          actor (user_and_fields user.id (changed_fields p)))
        (with_admins (put admin_key user' office.accounts.admins) office),
    user',
  )

unfoldable pub reset_password_route :
    (String → String) → ℕ → String → ℕ → TokenClaims → Office → Result (Office × String × ℕ)
reset_password_route hash_secret now password user_id claims office = do
  actor ← require_permission "users.write" claims office
  user ← or_raise (get admin_key user_id office.accounts.admins) not_found 404
  let (accounts, given, expires_at) =
        reset_password hash_secret now password user office.accounts in
      ok (
        logged
            (user_entry "admin_user.password_reset"
              (append "Сброшен пароль " (append user.login ".")) actor (user_only user.id))
            (record office { accounts = accounts }),
        given,
        expires_at,
      )
