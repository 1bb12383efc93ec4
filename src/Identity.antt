-- ===== src/Identity.antt =====
-- Sessions of clients and staff: the refresh tokens of backend/app/modules/identity/service.py, with
-- the rows of models.py that they read. Otp has the one-time codes and PushTokens the
-- devices of a client.
pub mod Rotation
pub mod Otp
pub mod PushTokens
pub mod SignIn
use Prim.Native.String.{String}
use text.Mathlib.Text.{◌==◌ as str_eq}
use poctamat_back.Common.{
  ℕ, ◌+◌, Bool, true, false, not, ◌&&◌, ◌||◌, Option, none, some, List, [], ◌∷◌, ◌++◌, map, first,
  leb, ◌==◌, is_some, get, Result, ok, err, ◌>>=◌, ◌>>◌, raise, raise_if, refresh_token_invalid,
  client_blocked, admin_account_blocked, if◌then◌else◌,
}
use poctamat_back.Settings.{Settings, days}

-- The strings of `subject_type`.
pub data SubjectType : Type 0 where
  client admin : SubjectType

pub record Client : Type 0 where
  pub id : ℕ
  pub phone : String
  pub last_name : Option String
  pub first_name : Option String
  pub language : String
  pub is_blocked : Bool
  pub blocked_reason : Option String
  pub blocked_at : Option ℕ

pub record AdminUser : Type 0 where
  pub id : ℕ
  pub login : String
  pub full_name : String
  pub password_hash : String
  pub role_id : ℕ
  pub is_active : Bool
  pub must_change_password : Bool
  pub postamat_ids : List ℕ
  pub last_login_at : Option ℕ

pub record RefreshToken : Type 0 where
  pub token_hash : String
  pub subject_type : SubjectType
  pub subject_id : ℕ
  pub expires_at : ℕ
  pub revoked_at : Option ℕ

pub record Accounts : Type 0 where
  pub clients : List Client
  pub admins : List AdminUser
  pub tokens : List RefreshToken

abbrev pub same_subject : SubjectType → SubjectType → Bool
same_subject client client = true
same_subject admin admin = true
same_subject _ _ = false

abbrev pub has_hash : String → RefreshToken → Bool
has_hash digest t = str_eq t.token_hash digest

-- `subject_type` differs, or the row is revoked, or its end has come.
abbrev pub is_unusable : ℕ → SubjectType → RefreshToken → Bool
is_unusable now subject t =
    not (same_subject t.subject_type subject) || is_some t.revoked_at || leb t.expires_at now

abbrev pub usable_or_raise : ℕ → SubjectType → Option RefreshToken → Result RefreshToken
usable_or_raise now subject none = raise refresh_token_invalid 401
usable_or_raise now subject (some t) = do
  raise_if (is_unusable now subject t) refresh_token_invalid 401
  ok t

abbrev pub is_blocked_client : Option Client → Bool
is_blocked_client none = true
is_blocked_client (some c) = c.is_blocked

abbrev pub is_inactive_admin : Option AdminUser → Bool
is_inactive_admin none = true
is_inactive_admin (some a) = not a.is_active

-- `_assert_subject_usable`.
unfoldable pub assert_subject_usable : SubjectType → ℕ → Accounts → Result (Unit {0})
assert_subject_usable client id accounts =
    raise_if (is_blocked_client (get (λ c. c.id) id accounts.clients)) client_blocked 403
assert_subject_usable admin id accounts =
    raise_if (is_inactive_admin (get (λ a. a.id) id accounts.admins)) admin_account_blocked 403

-- `stored.revoked_at = utcnow()` on the row that the digest finds.
unfoldable pub revoke_first : String → ℕ → List RefreshToken → List RefreshToken
revoke_first digest now [] = []
revoke_first digest now (t ∷ ts) =
    if has_hash digest t
    then record t { revoked_at = some now } ∷ ts
    else t ∷ revoke_first digest now ts

module _ (hash_token : String → String) where
  unfoldable pub load_usable : ℕ → String → SubjectType → Accounts → Result RefreshToken
  load_usable now token subject accounts =
      usable_or_raise now subject (first (has_hash (hash_token token)) accounts.tokens)

  -- `issue_token_pair` without the access token, which no table keeps; `fresh` is the drawn text.
  abbrev pub issued : Settings → ℕ → String → SubjectType → ℕ → RefreshToken
  issued s now fresh subject id = record {
    token_hash = hash_token fresh;
    subject_type = subject;
    subject_id = id;
    expires_at = now + days s.refresh_token_ttl_days;
    revoked_at = none;
  }

  unfoldable pub issue_token_pair : Settings → ℕ → String → SubjectType → ℕ → Accounts → Accounts
  issue_token_pair s now fresh subject id accounts = record accounts {
    tokens = accounts.tokens ++ issued s now fresh subject id ∷ [];
  }

  unfoldable pub rotate_refresh_token :
      Settings → ℕ → ℕ → ℕ → String → String → SubjectType → Accounts → Result Accounts
  rotate_refresh_token s now revoked later token fresh subject accounts = do
    stored ← load_usable now token subject accounts
    assert_subject_usable stored.subject_type stored.subject_id accounts
    ok (
        issue_token_pair s later fresh stored.subject_type stored.subject_id
          (record accounts { tokens = revoke_first (hash_token token) revoked accounts.tokens }))

  unfoldable pub revoke_refresh_token : ℕ → ℕ → String → SubjectType → Accounts → Result Accounts
  revoke_refresh_token now revoked token subject accounts = do
    stored ← load_usable now token subject accounts
    ok (record accounts { tokens = revoke_first (hash_token token) revoked accounts.tokens })

  abbrev pub named : Option String → RefreshToken → Bool
  named none t = true
  named (some token) t = has_hash (hash_token token) t

  -- The rows of the statement in `revoke_client_session`.
  abbrev pub is_of_session : ℕ → Option String → RefreshToken → Bool
  is_of_session client_id token t =
      same_subject t.subject_type client
      && t.subject_id == client_id
      && not (is_some t.revoked_at)
      && named token t

  abbrev pub revoke_row : ℕ → Option String → ℕ → RefreshToken → RefreshToken
  revoke_row client_id token now t =
      if is_of_session client_id token t then record t { revoked_at = some now } else t

  unfoldable pub revoke_client_session : ℕ → Option String → ℕ → Accounts → Accounts
  revoke_client_session client_id token now accounts = record accounts {
    tokens = map (revoke_row client_id token now) accounts.tokens;
  }
