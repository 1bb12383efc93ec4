-- ===== src/Common/Errors.antt =====
-- Errors as values: `AppError` of backend/app/core/errors.py with its code and HTTP status, and the
-- exception monad. An operation that raises is rolled back by its session, so an error carries no
-- state.
use Prim.Native.Nat.{ℕ}
use mathlib.Core.Path.{◌≡◌, refl}
use mathlib.Core.Bool.{Bool, true, false}
use mathlib.Core.Option.{Option, none, some}

pub data ErrorCode : Type 0 where
  validation_error not_found internal_error token_expired : ErrorCode
  refresh_token_invalid refresh_token_expired token_invalid forbidden : ErrorCode
  otp_invalid otp_expired otp_attempts_exceeded otp_not_found : ErrorCode
  otp_request_too_soon client_blocked admin_account_blocked admin_credentials_invalid : ErrorCode
  user_login_taken role_not_found password_too_weak cannot_modify_self : ErrorCode
  reason_required idempotency_key_reused idempotency_key_missing rate_limited : ErrorCode
  file_too_large export_too_large unsupported_media_type tariff_incomplete : ErrorCode
  booking_not_expired custody_already_closed custody_not_due postamat_blocked : ErrorCode
  cell_number_duplicate conflict profile_incomplete city_not_available : ErrorCode
  name_invalid no_free_cells cell_type_unavailable cell_type_in_use : ErrorCode
  cell_has_active_booking cell_position_occupied hardware_address_duplicate layout_exceeds_grid :
      ErrorCode
  bulk_create_partial_failure remote_open_not_allowed device_offline lock_agent_unavailable :
      ErrorCode
  duration_not_supported recipient_phone_same_as_sender booking_limit_exceeded
        booking_not_cancellable :
      ErrorCode
  booking_already_cancelled booking_already_paid booking_hold_expired
        hold_extension_limit_exceeded :
      ErrorCode
  grant_already_used grant_expired pickup_code_not_issued_yet code_resend_too_soon : ErrorCode
  code_resend_limit_exceeded transfer_not_allowed transfer_phone_same payment_already_exists :
      ErrorCode
  payment_not_cancellable payment_provider_unavailable bank_not_supported
        callback_signature_invalid :
      ErrorCode
  amount_mismatch : ErrorCode

pub record AppError : Type 0 where
  pub code : ErrorCode
  pub status_code : ℕ

pub data Result {ℓ} (A : Type ℓ) : Type ℓ where
  ok : A → Result A
  err : AppError → Result A

abbrev pub raise {ℓ} : {A : Type ℓ} → ErrorCode → ℕ → Result A
raise c n = err (record { code = c; status_code = n })

infixl 5 ◌>>=◌ ◌>>◌
abbrev pub ◌>>=◌ {ℓ κ} : {A : Type ℓ} {B : Type κ} → Result A → (A → Result B) → Result B
err problem >>= next = err problem
ok value >>= next = next value

-- `if test: raise AppError(code, ..., status)`
abbrev pub raise_if : Bool → ErrorCode → ℕ → Result (Unit {0})
raise_if true c n = raise c n
raise_if false c n = ok tt

abbrev pub ◌>>◌ {ℓ} : {B : Type ℓ} → Result (Unit {0}) → Result B → Result B
check >> rest = check >>= λ _. rest

abbrev pub or_raise {ℓ} : {A : Type ℓ} → Option A → ErrorCode → ℕ → Result A
or_raise none c n = raise c n
or_raise (some a) c n = ok a

-- A run that succeeded began with a step that did.
pub >>=-eq-ok {ℓ κ} :
    {A : Type ℓ} {B : Type κ} (first : Result A) (next : A → Result B) {last : B}
    → (first >>= next) ≡ ok last
    → (a : A) × (first ≡ ok a) × (next a ≡ ok last)
>>=-eq-ok (err problem) next e = cc
>>=-eq-ok (ok value) next e = (value, refl, e)

pub raise_if-ok {ℓ} :
    {A : Type ℓ} (t : Bool) (c : ErrorCode) (n : ℕ) (k : Result A) {a : A}
    → (raise_if t c n >> k) ≡ ok a
    → (t ≡ false) × (k ≡ ok a)
raise_if-ok true c n k h = cc
raise_if-ok false c n k h = (refl, h)

pub or_raise-ok {ℓ} :
    {A : Type ℓ} (o : Option A) (c : ErrorCode) (n : ℕ) {a : A} → or_raise o c n ≡ ok a → o ≡ some a
or_raise-ok none c n h = cc
or_raise-ok (some a) c n h = cc

pub ok_injective {ℓ} : {A : Type ℓ} {a b : A} → ok a ≡ ok b → a ≡ b
ok_injective e = cc

abbrev pub is_ok {ℓ} : {A : Type ℓ} → Result A → Bool
is_ok (ok a) = true
is_ok (err e) = false

-- The error that is raised, if any.
abbrev pub error_of {ℓ} : {A : Type ℓ} → Result A → Option AppError
error_of (ok a) = none
error_of (err e) = some e
