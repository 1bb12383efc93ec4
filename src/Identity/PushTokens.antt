-- ===== src/Identity/PushTokens.antt =====
-- The devices of a client: `register_push_token`, `revoke_push_token` and `revoke_push_token_value`
-- of backend/app/modules/identity/service.py.
pub mod Devices
use Prim.Native.String.{String}
use package.text.Mathlib.Text.{◌==◌ as str_eq}
use poctamat_back.Common.{
  ℕ, Bool, true, false, not, ◌&&◌, ◌||◌, Option, none, some, List, [], ◌∷◌, ◌++◌, first, ◌==◌,
  if◌then◌else◌, is_some, get, put, Result, ok, ◌>>=◌, ◌>>◌, raise, raise_if, or_raise, not_found,
}

pub record PushToken : Type 0 where
  pub id : ℕ
  pub client_id : ℕ
  pub token : String
  pub platform : String
  pub app_version : Option String
  pub revoked_at : Option ℕ

abbrev pub token_key : PushToken → ℕ
token_key t = t.id

abbrev pub is_device : ℕ → String → PushToken → Bool
is_device client_id token t = t.client_id == client_id && str_eq t.token token

abbrev pub revived : String → Option String → PushToken → PushToken
revived platform app_version t = record t {
  revoked_at = none;
  platform = platform;
  app_version = app_version;
}

abbrev pub new_token : ℕ → ℕ → String → String → Option String → PushToken
new_token id client_id token platform app_version = record {
  id = id;
  client_id = client_id;
  token = token;
  platform = platform;
  app_version = app_version;
  revoked_at = none;
}

-- The row that holds the token is written, or a new one is added; `id` is for the new row.
unfoldable pub register_push_token :
    ℕ → ℕ → String → String → Option String → List PushToken → List PushToken
register_push_token id client_id token platform app_version [] =
    new_token id client_id token platform app_version ∷ []
register_push_token id client_id token platform app_version (t ∷ rows) =
    if is_device client_id token t
    then revived platform app_version t ∷ rows
    else t ∷ register_push_token id client_id token platform app_version rows

unfoldable pub revoke_push_token : ℕ → ℕ → ℕ → List PushToken → Result (List PushToken)
revoke_push_token now client_id id rows = do
  t ← or_raise (get token_key id rows) not_found 404
  raise_if (not (t.client_id == client_id) || is_some t.revoked_at) not_found 404
  ok (put token_key (record t { revoked_at = some now }) rows)

-- The first live row with the token, if there is one, is revoked.
unfoldable pub revoke_push_token_value : ℕ → ℕ → String → List PushToken → List PushToken
revoke_push_token_value now client_id token [] = []
revoke_push_token_value now client_id token (t ∷ rows) =
    if is_device client_id token t && not (is_some t.revoked_at)
    then record t { revoked_at = some now } ∷ rows
    else t ∷ revoke_push_token_value now client_id token rows
