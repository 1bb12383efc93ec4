-- ===== src/Identity/PushTokens/Devices.antt =====
-- One row for each device of a client.
use Prim.Native.String.{String}
use package.text.Mathlib.TextEquality.{eq_iff}
use package.text.Mathlib.TextPositions.{eq_refl}
use poctamat_back.Common.{
  ℕ, ◌≤◌, ◌≡◌, refl, Bool, true, not, ◌&&◌, Option, List, [], ◌∷◌, count_if, ◌==◌, ==_refl, is_some,
  arith, if◌then◌else◌,
}
use poctamat_back.Identity.PushTokens.{PushToken, is_device, new_token, register_push_token}

-- The index `uq_push_token_per_client`.
abbrev pub IsOnePerDevice : List PushToken → Type 0
IsOnePerDevice rows =
    (client_id : ℕ) (token : String) → count_if (is_device client_id token) rows ≤ 1

abbrev pub is_live_device : ℕ → String → PushToken → Bool
is_live_device client_id token t = is_device client_id token t && not (is_some t.revoked_at)

is_device_new :
    (id client_id : ℕ) (token platform : String) (app_version : Option String)
    → is_device client_id token (new_token id client_id token platform app_version) ≡ true
is_device_new id client_id token platform app_version = rw (==_refl client_id, eq_refl token) refl

-- A device has the row that it had, and the one that registers has exactly one more than none.
register-count :
    (id client_id : ℕ) (token platform : String) (app_version : Option String)
    (rows : List PushToken) (c : ℕ) (t : String)
    → count_if (is_device c t) (register_push_token id client_id token platform app_version rows)
      ≡ (if is_device c t (new_token id client_id token platform app_version)
          then (if count_if (is_device c t) rows == 0 then 1 else count_if (is_device c t) rows)
          else count_if (is_device c t) rows)
unfolding register_push_token
register-count id client_id token platform app_version [] c t = ground arith
register-count id client_id token platform app_version (x ∷ rows) c t = ground (
  arith,
  register-count id client_id token platform app_version rows c t,
  eq_iff x.token token,
  eq_iff x.token t,
  eq_iff token t,
)
