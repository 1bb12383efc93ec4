-- ===== src/Identity/Otp.antt =====
-- The one-time codes of backend/app/modules/identity/service.py, over the key-value store. The id of
-- a request and the digits of a code, which the source draws at random, are arguments, and so is
-- each reading of a clock: `time.monotonic()` for the store and `utcnow()` for the answer.
pub mod Attempts
pub mod Guesses
pub mod Once
use Prim.Native.String.{String}
use package.text.Mathlib.Text.{◌==◌ as str_eq}
use poctamat_back.Common.{
  ℕ, ◌+◌, Bool, true, false, ◌&&◌, Option, none, some, List, [], ◌∷◌, leb, first, is_some,
  if◌then◌else◌, Result, ok, err, raise, client_blocked, otp_request_too_soon, otp_not_found,
  otp_attempts_exceeded, otp_invalid,
}
use poctamat_back.Settings.{Settings}
use poctamat_back.KeyValue.{
  Key, otp_request, otp_phone, text, count, Fields, field, text_of, int_of, KeyValueStore, seconds,
  delete, put_value, get_value, set_field, has_value,
}
use poctamat_back.Notify.{Notification, NotificationKind, sms, add_notice}
use poctamat_back.Identity.{Client}

-- What a request for a code reads and writes. The store is not rolled back with the session.
pub record Login : Type 0 where
  pub clients : List Client
  pub notices : List Notification
  pub kv : KeyValueStore

pub record IssuedOtp : Type 0 where
  pub request_id : String
  pub expires_at : ℕ
  pub resend_after : ℕ

abbrev pub is_blocked_phone : String → Client → Bool
is_blocked_phone phone c = str_eq c.phone phone && c.is_blocked

abbrev pub code_notice : String → Notification
code_notice phone = record {
  client_id = none;
  booking_id = none;
  kind = NotificationKind.otp;
  channel = sms;
  phone = some phone;
  cell_number = none;
  hours = none;
}

abbrev pub otp_fields : String → ℕ → String → Fields
otp_fields code attempts phone =
    ("code", text code) ∷ ("attempts", count attempts) ∷ ("phone", text phone) ∷ []

-- The two entries of a new code, put at `at` and at `then_at`.
abbrev pub file_code : Settings → ℕ → ℕ → String → String → String → KeyValueStore → KeyValueStore
file_code s at then_at request_id code phone kv =
    put_value then_at (otp_phone phone) (("request_id", text request_id) ∷ []) s.otp_resend_seconds
      (put_value at (otp_request request_id) (otp_fields code 0 phone) s.otp_ttl_seconds kv)

-- `put_at` and `resend_at` are read by the two `put`, and `clock` for the answer.
unfoldable pub issue_otp :
    Settings → ℕ → ℕ → ℕ → ℕ → String → String → String → Login → Login × Result IssuedOtp
issue_otp s now put_at resend_at clock request_id code phone st =
    if is_some (first (is_blocked_phone phone) st.clients)
    then (st, raise client_blocked 403)
    else let (kv, waiting) = get_value now (otp_phone phone) st.kv in
      if has_value waiting then (record st { kv = kv }, raise otp_request_too_soon 429) else (
        record st {
          kv = file_code s put_at resend_at request_id code phone kv;
          notices = add_notice st.notices (code_notice phone);
        },
        ok (record {
          request_id = request_id;
          expires_at = clock + seconds s.otp_ttl_seconds;
          resend_after = s.otp_resend_seconds;
        }),
      )

-- The end of `verify_otp`: `secrets.compare_digest` of the stored code and the given one.
abbrev pub compare_code :
    ℕ → Key → String → ℕ → Fields → KeyValueStore → Result String → KeyValueStore × Result String
compare_code clock key code attempts fields kv (err problem) = (kv, err problem)
compare_code clock key code attempts fields kv (ok stored) =
    if str_eq stored code
    then (delete key kv, text_of (field "phone" fields))
    else (set_field clock key "attempts" (count attempts) kv, raise otp_invalid 401)

abbrev pub count_attempt :
    Settings → ℕ → Key → String → Fields → KeyValueStore → Result ℕ → KeyValueStore × Result String
count_attempt s clock key code fields kv (err problem) = (kv, err problem)
count_attempt s clock key code fields kv (ok tried) =
    if leb s.otp_max_attempts (tried + 1)
    then (delete key kv, raise otp_attempts_exceeded 429)
    else compare_code clock key code (tried + 1) fields kv (text_of (field "code" fields))

abbrev pub check_stored :
    Settings → ℕ → Key → String → KeyValueStore × Option Fields → KeyValueStore × Result String
check_stored s clock key code (kv, none) = (kv, raise otp_not_found 401)
check_stored s clock key code (kv, some []) = (kv, raise otp_not_found 401)
check_stored s clock key code (kv, some (f ∷ fields)) =
    count_attempt s clock key code (f ∷ fields) kv (int_of (field "attempts" (f ∷ fields)))

-- `now` is read by `get`, and `clock` by `set_field`.
unfoldable pub verify_otp :
    Settings → ℕ → ℕ → String → String → KeyValueStore → KeyValueStore × Result String
verify_otp s now clock request_id code kv =
    check_stored s clock (otp_request request_id) code (get_value now (otp_request request_id) kv)
