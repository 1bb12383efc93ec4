-- ===== src/Tests/Sessions.antt =====
-- Examples of the refresh tokens.
use poctamat_back.Common.{
  ◌≡◌, refl, true, false, none, some, [], ◌∷◌, raise, is_ok, refresh_token_invalid, arith,
}
use poctamat_back.Settings.{days}
use poctamat_back.Identity.{
  client, Accounts, load_usable, revoke_first, rotate_refresh_token, issue_token_pair,
  assert_subject_usable,
}
use poctamat_back.Identity.Rotation.{rotate-once, rotate-usable}
use poctamat_back.Tests.{value_or, digest, settings}

abbrev accounts : Accounts
accounts = record {
  clients =
      record {
        id = 7;
        phone = "+99365000000";
        last_name = some "Berdiyev";
        first_name = some "Merdan";
        language = "tk";
        is_blocked = false;
        blocked_reason = none;
        blocked_at = none;
      }
      ∷ [];
  admins = [];
  tokens =
      record {
        token_hash = "pepper:first";
        subject_type = client;
        subject_id = 7;
        expires_at = days 30;
        revoked_at = none;
      }
      ∷ [];
}

abbrev rotated : Accounts
rotated =
    value_or accounts
      (rotate_refresh_token digest settings 10 11 12 "first" "second" client accounts)

rotate-once_example : load_usable digest 20 "first" client rotated ≡ raise refresh_token_invalid 401
unfolding rotate_refresh_token load_usable assert_subject_usable issue_token_pair revoke_first
rotate-once_example =
    rotate-once digest settings 10 11 12 20 "first" "second" client client accounts rotated refl

rotate-usable_example : is_ok (load_usable digest 20 "second" client rotated) ≡ true
unfolding rotate_refresh_token load_usable assert_subject_usable issue_token_pair revoke_first
rotate-usable_example =
    rotate-usable digest settings 10 11 12 20 "first" "second" client accounts rotated refl refl
      (omega arith)
