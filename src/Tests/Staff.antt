-- ===== src/Tests/Staff.antt =====
-- Examples of the staff accounts and of the delivery of pushes.
use Prim.Native.String.{String}
use package.text.Mathlib.Text.{◌==◌ as str_eq}
use package.text.Mathlib.TextPositions.{eq_refl}
use poctamat_back.Common.{
  inl, count_if, ℕ, zero, suc, ◌+◌, ◌*◌, ◌≡◌, ◌≢◌, refl, true, false, Bool, none, some, List, [],
  ◌∷◌, is_ok,
}
use poctamat_back.Settings.{us_hour}
use poctamat_back.Notify.{NotificationKind, push}
use poctamat_back.Notify.Delivery.{Row, Attempt, took, failed, found, broken, deliver_pending}
use poctamat_back.Notify.Delivery.Settled.{
  AreDelivered, deliver_pending-settles, deliver_pending-again,
}
use poctamat_back.Booking.{Depositor}
use poctamat_back.Mobile.Create.{BookingCreate, prices}
use poctamat_back.Admin.Clients.{block_client}
use poctamat_back.Admin.Clients.Blocked.{block_client-locks_out}
use poctamat_back.Admin.Tariffs.{
  TariffWrite, Market, replace_tariffs, is_complete, has_duplicate, tariff_of,
}
use poctamat_back.Admin.Tariffs.Complete.{replace_tariffs-bookable}
use poctamat_back.Identity.{
  Client, client, rotate_refresh_token, AdminUser, RefreshToken, Accounts, admin, load_usable,
}
use poctamat_back.Identity.PushTokens.{PushToken}
use poctamat_back.Staff.{
  require_client, Office, TokenClaims, log_in, require_permission, require_admin,
}
use poctamat_back.Staff.Users.{
  AdminUserPatch, update_user, update_user_route, reset_password, reset_password_route,
}
use poctamat_back.Staff.Users.Ended.{reset_password_route-ends, reset_password-lasts}
use poctamat_back.Staff.Users.Self.{update_user_route-keeps_access}
use poctamat_back.Tests.{value_or, digest, settings}

abbrev owner : AdminUser
owner = record {
  id = 1;
  login = "owner";
  full_name = "Owner";
  password_hash = "pepper:first";
  role_id = 3;
  is_active = true;
  must_change_password = false;
  postamat_ids = [];
  last_login_at = none;
}

abbrev operator : AdminUser
operator = record owner { id = 2; login = "operator" }

abbrev session_of : ℕ → String → RefreshToken
session_of id text = record {
  token_hash = text;
  subject_type = admin;
  subject_id = id;
  expires_at = 30 * us_hour;
  revoked_at = none;
}

abbrev accounts : Accounts
accounts = record {
  clients = [];
  admins = owner ∷ operator ∷ [];
  tokens = session_of 2 "pepper:a" ∷ session_of 1 "pepper:b" ∷ [];
}

abbrev office : Office
office = record {
  accounts = accounts;
  roles = record { id = 3; code = "owner"; name = "Owner"; permissions = "users.write" ∷ [] } ∷ [];
  audits = [];
}

abbrev as_owner : TokenClaims
as_owner = record { typ = "admin"; sub = 1 }

abbrev renamed : AdminUserPatch
renamed = record {
  full_name = some (some "The owner");
  role_id = some (some 3);
  is_active = none;
  postamat_ids = none;
}

abbrev updated : Office × AdminUser
updated = value_or (office, owner) (update_user_route 1 as_owner renamed office)

update_user_route-keeps_access_example :
    is_ok (require_permission "users.write" as_owner updated.0) ≡ true
unfolding require_permission require_admin update_user update_user_route
update_user_route-keeps_access_example =
    update_user_route-keeps_access 1 "users.write" as_owner renamed office updated.0 updated.1 owner
      refl refl

abbrev reset : Office × String × ℕ
reset = value_or (office, "", 0) (reset_password_route digest 10 "temporary" 2 as_owner office)

-- The session of the owner goes on after the operator's reset.
reset_password_route-ends_example : (session_of 1 "pepper:b").subject_id ≢ 2
unfolding require_permission require_admin reset_password reset_password_route load_usable
reset_password_route-ends_example =
    reset_password_route-ends digest digest 10 11 "temporary" "b" 2 as_owner office reset.0 reset.1
      reset.2 (session_of 1 "pepper:b") refl refl

abbrev verify : String → String → Bool
verify t hashed = str_eq hashed (digest t)

verify_own : (t : String) → verify t (digest t) ≡ true
verify_own t = eq_refl (digest t)

reset_password-lasts_example :
    is_ok (
      log_in digest verify settings
        (1000 * us_hour)
        (1000 * us_hour)
        "c"
        "operator"
        "temporary"
        (reset_password digest 10 "temporary" operator accounts).0)
    ≡ true
reset_password-lasts_example =
    reset_password-lasts digest digest verify verify_own settings 10 (1000 * us_hour)
      (1000 * us_hour) "temporary" "c" operator accounts refl refl refl

abbrev troublemaker : Client
troublemaker = record {
  id = 7;
  phone = "+99365000000";
  last_name = none;
  first_name = none;
  language = "tk";
  is_blocked = false;
  blocked_reason = none;
  blocked_at = none;
}

abbrev open_office : Office
open_office = record office {
  accounts = record accounts {
    clients = troublemaker ∷ [];
    tokens = record (session_of 7 "pepper:c") { subject_type = client } ∷ [];
  };
}

abbrev shut : Office
shut = value_or office (block_client 10 "owner" "fraud" 7 open_office)

block_client-locks_out_example :
    (is_ok (require_client (record { typ = "client"; sub = 7 }) shut.accounts.clients) ≡ false)
    × (is_ok (rotate_refresh_token digest settings 11 12 13 "c" "d" client shut.accounts) ≡ false)
unfolding block_client
block_client-locks_out_example =
    block_client-locks_out digest settings 10 "owner" "fraud" 7 open_office shut
      (record { typ = "client"; sub = 7 }) 11 12 13 "c" "d"
      (record (session_of 7 "pepper:c") { subject_type = client }) refl refl refl refl

-- A price list of one city and one size.
abbrev at_price : ℕ → ℕ → TariffWrite
at_price duration amount = record {
  city_id = 1;
  cell_type_id = 5;
  duration_hours = duration;
  amount_minor = amount;
  currency = "TMT";
}

abbrev matrix : List TariffWrite
matrix = at_price 12 900 ∷ at_price 24 1500 ∷ at_price 48 2500 ∷ []

abbrev market : Market
market = record {
  tariffs = [];
  cities = record { id = 1; is_active = true } ∷ [];
  cell_types = 5 ∷ [];
  audits = [];
}

abbrev priced : Market
priced = value_or market (replace_tariffs settings "owner" matrix market)

abbrev two_days : BookingCreate
two_days = record {
  postamat_id = 1;
  cell_type_id = 5;
  duration_hours = 48;
  recipient_phone = none;
  recipient_name = none;
  deposited_by = Depositor.owner;
  courier_phone = none;
}

replace_tariffs-bookable_example : count_if (prices 1 two_days) priced.tariffs ≡ 1
unfolding replace_tariffs is_complete has_duplicate
replace_tariffs-bookable_example =
    replace_tariffs-bookable settings "owner" matrix market priced (tariff_of (at_price 12 900))
      two_days refl (inl refl) refl refl

-- A provider that counts its calls and fails on the second.
abbrev second_fails : ℕ → Attempt
second_fails (suc zero) = failed "gone"
second_fails n = took n

abbrev send : String → String → String → ℕ → ℕ × Attempt
send token title body n = (n + 1, second_fails n)

abbrev device : PushToken
device = record {
  id = 1;
  client_id = 7;
  token = "d1";
  platform = "android";
  app_version = none;
  revoked_at = none;
}

abbrev reminder : Row
reminder = record {
  id = 1;
  notice = record {
    client_id = some 7;
    booking_id = some 101;
    kind = NotificationKind.booking_expiring;
    channel = push;
    phone = none;
    cell_number = some 1;
    hours = some 2;
  };
  title = "";
  body = "";
  sent_at = none;
  error = none;
  provider_message_id = none;
  delivered_at = none;
  delivery_status = none;
}

abbrev reminders : List Row
reminders = reminder ∷ record reminder { id = 2 } ∷ []

deliver_pending-settles_example :
    AreDelivered reminders (deliver_pending send (found (device ∷ [])) reminders 0).1
deliver_pending-settles_example = deliver_pending-settles send (found (device ∷ [])) reminders 0

deliver_pending-again_example :
    deliver_pending send
      (found (device ∷ []))
      (deliver_pending send (broken "database is locked") reminders 0).1
      5
    ≡ (5, (deliver_pending send (broken "database is locked") reminders 0).1)
deliver_pending-again_example =
    deliver_pending-again send (broken "database is locked") (found (device ∷ [])) reminders 0 5
