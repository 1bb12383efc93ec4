-- ===== src/Booking/Codes.antt =====
-- Door codes: backend/app/modules/booking/codes.py. The digits that `_digits` draws are an argument
-- of each operation, and so is `hash_pin`, the keyed digest of backend/app/core/security.py.
pub mod Grants
pub mod Lookup
use Prim.Native.String.{String}
use text.Mathlib.Text.{◌==◌ as str_eq}
use poctamat_back.Common.{
  ℕ, ◌+◌, Bool, true, false, not, ◌&&◌, Option, none, some, List, [], ◌∷◌, ◌==◌, if◌then◌else◌,
  is_some,
}
use poctamat_back.Settings.{Settings, hours}
use poctamat_back.Booking.{
  BookingStatus, is_held, CodePurpose, deposit, pickup, AccessCode, Booking,
}

abbrev pub same_purpose : CodePurpose → CodePurpose → Bool
same_purpose deposit deposit = true
same_purpose pickup pickup = true
same_purpose _ _ = false

-- `booking.expires_at` is none before the deposit.
abbrev pub pickup_expiry : Settings → ℕ → Option ℕ → ℕ → ℕ
pickup_expiry s duration_hours none now = now + hours duration_hours
pickup_expiry s duration_hours (some stored) now = stored + hours s.removal_after_hours

unfoldable pub code_expiry : Settings → Booking → CodePurpose → ℕ → ℕ
code_expiry s b deposit now = now + hours s.deposit_code_hours
code_expiry s b pickup now = pickup_expiry s b.duration_hours b.expires_at now

-- The loop of `issue_code` over `booking.codes`: the first code of the purpose is overwritten, and
-- if there is none a new one is appended.
unfoldable pub replace_code : ℕ → CodePurpose → String → ℕ → List AccessCode → List AccessCode
replace_code booking_id purpose digest expires_at [] =
    record {
      booking_id = booking_id;
      purpose = purpose;
      code_hash = digest;
      attempts = 0;
      expires_at = some expires_at;
      used_at = none;
    }
    ∷ []
replace_code booking_id purpose digest expires_at (existing ∷ codes) =
    if same_purpose existing.purpose purpose
    then record existing {
      code_hash = digest;
      attempts = 0;
      used_at = none;
      expires_at = some expires_at;
    }
      ∷ codes
    else existing ∷ replace_code booking_id purpose digest expires_at codes

-- The conditions of `find_code` on the code and on its booking.
abbrev pub code_matches : String → AccessCode → Bool
code_matches digest c = str_eq c.code_hash digest && not (is_some c.used_at)

abbrev pub booking_opens : ℕ → Booking → Bool
booking_opens postamat_id b = b.postamat_id == postamat_id && is_held b.status

abbrev pub first_or {ℓ} : {A : Type ℓ} → (A → Bool) → List A → Option A → Option A
first_or p [] rest = rest
first_or p (x ∷ xs) rest = if p x then some x else first_or p xs rest

module _ (hash_pin : String → String) where
  unfoldable pub issue_code : Settings → Booking → CodePurpose → String → ℕ → Booking
  unfolding replace_code code_expiry
  issue_code s b purpose code now = record b {
    codes = replace_code b.id purpose (hash_pin code) (code_expiry s b purpose now) b.codes;
  }

  -- The join of `find_code`: the first row that passes the four conditions.
  unfoldable pub find_code : List Booking → ℕ → String → Option AccessCode
  find_code [] postamat_id plaintext = none
  find_code (b ∷ bookings) postamat_id plaintext =
      let rest = find_code bookings postamat_id plaintext in
      if booking_opens postamat_id b
      then first_or (code_matches (hash_pin plaintext)) b.codes rest
      else rest
