-- ===== src/Identity/SignIn.antt =====
-- Signing in and out of the mobile app: `get_or_create_client` of
-- backend/app/modules/identity/service.py, with `verify_otp` and `logout` of api/mobile/auth.py.
use Prim.Native.String.{String}
use package.text.Mathlib.Text.{◌==◌ as str_eq}
use poctamat_back.Common.{
  ℕ, Bool, false, Option, none, some, List, [], ◌∷◌, ◌++◌, first, if◌then◌else◌, Result, ok, err,
  ◌>>=◌, ◌>>◌, raise_if, client_blocked,
}
use poctamat_back.Settings.{Settings}
use poctamat_back.KeyValue.{KeyValueStore}
use poctamat_back.Identity.{Client, client, Accounts, issue_token_pair, revoke_client_session}
use poctamat_back.Identity.Otp.{verify_otp}
use poctamat_back.Identity.PushTokens.{PushToken, revoke_push_token_value}

abbrev pub has_phone : String → Client → Bool
has_phone phone c = str_eq c.phone phone

abbrev pub new_client : ℕ → String → Client
new_client id phone = record {
  id = id;
  phone = phone;
  last_name = none;
  first_name = none;
  language = "tk";
  is_blocked = false;
  blocked_reason = none;
  blocked_at = none;
}

abbrev pub found_or_new : ℕ → String → List Client → Option Client → Result (List Client × Client)
found_or_new id phone clients none = ok (clients ++ new_client id phone ∷ [], new_client id phone)
found_or_new id phone clients (some c) = do
  raise_if c.is_blocked client_blocked 403
  ok (clients, c)

unfoldable pub get_or_create_client : ℕ → String → List Client → Result (List Client × Client)
get_or_create_client id phone clients =
    found_or_new id phone clients (first (has_phone phone) clients)

-- A code that is asked for is spent whatever follows, since the key-value store is not rolled back.
abbrev pub admitted :
    (String → String)
    → Settings
    → ℕ
    → ℕ
    → String
    → Accounts
    → KeyValueStore × Result String
    → KeyValueStore × Result (Accounts × Client)
admitted hash_token s id now fresh accounts (kv, err problem) = (kv, err problem)
admitted hash_token s id now fresh accounts (kv, ok phone) = (
  kv,
  do
    (clients, c) ← get_or_create_client id phone accounts.clients
    ok (
      issue_token_pair hash_token s now fresh client c.id (record accounts { clients = clients }),
      c,
    ),
)

-- The route `verify_otp`.
unfoldable pub sign_in :
    (String → String)
    → Settings
    → ℕ
    → ℕ
    → ℕ
    → ℕ
    → String
    → String
    → String
    → KeyValueStore
    → Accounts
    → KeyValueStore × Result (Accounts × Client)
sign_in hash_token s kv_now kv_clock id now fresh request_id code kv accounts =
    admitted hash_token s id now fresh accounts (verify_otp s kv_now kv_clock request_id code kv)

abbrev pub silenced : ℕ → ℕ → Option String → List PushToken → List PushToken
silenced now client_id none rows = rows
silenced now client_id (some token) rows =
    if str_eq token "" then rows else revoke_push_token_value now client_id token rows

-- The route `logout`.
unfoldable pub log_out :
    (String → String)
    → ℕ
    → ℕ
    → Client
    → Option String
    → Option String
    → Accounts
    → List PushToken
    → Accounts × List PushToken
log_out hash_token now later c refresh_token push_token accounts rows = (
  revoke_client_session hash_token c.id refresh_token now accounts,
  silenced later c.id push_token rows,
)
