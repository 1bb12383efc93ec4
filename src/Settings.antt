-- ===== src/Settings.antt =====
-- backend/app/core/config.py: the settings that the modelled code reads, with their defaults, and
-- the units in which instants are counted.
--
-- An instant is the number of microseconds since 0001-01-01T00:00Z, which is a Monday. A stored
-- datetime is its instant: `as_utc` only gives a naive value its zone back.
use Prim.Native.String.{String}
use poctamat_back.Common.{ℕ, ◌*◌, List, [], ◌∷◌}

abbrev pub us_minute : ℕ
us_minute = 60_000_000

abbrev pub us_hour : ℕ
us_hour = 3_600_000_000

abbrev pub us_day : ℕ
us_day = 86_400_000_000

-- `timedelta(minutes=n)`, `timedelta(hours=n)` and `timedelta(days=n)`.
abbrev pub minutes : ℕ → ℕ
minutes n = n * us_minute

abbrev pub hours : ℕ → ℕ
hours n = n * us_hour

abbrev pub days : ℕ → ℕ
days n = n * us_day

pub record Settings : Type 0 where
  pub refresh_token_ttl_days : ℕ
  pub otp_ttl_seconds : ℕ
  pub otp_max_attempts : ℕ
  pub otp_resend_seconds : ℕ
  pub code_resend_seconds : ℕ
  pub deposit_code_hours : ℕ
  pub payment_session_minutes : ℕ
  pub supported_banks : List String
  pub hold_minutes : ℕ
  pub hold_extensions_max : ℕ
  pub payment_return_url : String
  pub reminder_hours_before : ℕ
  pub grace_hours : ℕ
  pub removal_after_hours : ℕ
  pub custody_disposal_days : ℕ
  pub rental_durations : List ℕ

abbrev pub default_settings : Settings
default_settings = record {
  refresh_token_ttl_days = 30;
  otp_ttl_seconds = 300;
  otp_max_attempts = 5;
  otp_resend_seconds = 60;
  code_resend_seconds = 60;
  deposit_code_hours = 24;
  payment_session_minutes = 15;
  supported_banks = [];
  hold_minutes = 10;
  hold_extensions_max = 2;
  payment_return_url = "https://example.invalid/payment/done";
  reminder_hours_before = 2;
  grace_hours = 2;
  removal_after_hours = 24;
  custody_disposal_days = 30;
  rental_durations = 12 ∷ 24 ∷ 48 ∷ [];
}
