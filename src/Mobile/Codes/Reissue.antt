-- ===== src/Mobile/Codes/Reissue.antt =====
-- A code that is issued again replaces the old one, and cannot be asked for twice in a row.
use Prim.Native.String.{String}
use mathlib.Core.Option.{map as map_option}
use poctamat_back.Common.{
  ℕ, ◌+◌, ◌<◌, ◌≡◌, ◌≢◌, refl, sym, ap, ◌∙◌, inl, inr, true, false, Bool-cases, Option, none, some,
  [], ◌∷◌, Has, Result, ok, raise, code_resend_too_soon, arith,
}
use poctamat_back.Settings.{Settings}
use poctamat_back.Booking.{CodePurpose, deposit, pickup, Booking, AccessCode}
use poctamat_back.Booking.Codes.{code_matches}
use poctamat_back.Booking.Codes.Grants.{IsSingle, is_for, issue_code-replaces}
use poctamat_back.Booking.Service.{record_event}
use poctamat_back.KeyValue.{
  code_resend, text, has_value, Entry, KeyValueStore, seconds, get_value, put_value,
}
use poctamat_back.KeyValue.View.{alive, view, view-store, same_key_refl, get_value-view}
use poctamat_back.Mobile.Codes.{
  with_courier, guard_resend, deposit_reissued, pickup_reissued, transferred,
}

abbrev sent_entry : ℕ → Entry
sent_entry end = record { value = ("sent", text "1") ∷ []; expires_at = end }

sent_entry-alive :
    (now end : ℕ) → now < end → alive now (some (sent_entry end)) ≡ some (sent_entry end)
sent_entry-alive now end h = ground arith

raise-ne-ok :
    {A : Type 0} {a : A} (r : Result A) → r ≡ raise code_resend_too_soon 429 → r ≡ ok a → ⊥
raise-ne-ok r e f = cc

module _ (s : Settings) (booking_id : ℕ) (purpose : CodePurpose) where
  -- An accepted request has marked the window.
  guard_resend-ok :
      (now put_at n : ℕ) (kv kv' : KeyValueStore)
      → guard_resend s now put_at booking_id purpose kv ≡ (kv', ok n)
      → (before : KeyValueStore) × (kv'
          ≡ put_value put_at
              (code_resend booking_id purpose)
              (("sent", text "1") ∷ [])
              s.code_resend_seconds
              before)
  unfolding guard_resend
  guard_resend-ok now put_at n kv kv' e =
      elim (Bool-cases (has_value (get_value now (code_resend booking_id purpose) kv).1)) [
        | inl sent ↦
            absurd (raise-ne-ok _ refl (ap (λ (p : KeyValueStore × Result ℕ). p.1) (rw sent at e)))
        | inr free ↦ (
          (get_value now (code_resend booking_id purpose) kv).0,
          sym (ap (λ (p : KeyValueStore × Result ℕ). p.0) (rw free at e)),
        )
      ]

  -- After a rotation was let through, the next one for that booking and purpose is refused with
  -- CODE_RESEND_TOO_SOON until `code_resend_seconds` have passed since it was marked.
  pub guard_resend-cools :
      (now put_at n then_on then_put : ℕ) (kv kv' : KeyValueStore)
      → guard_resend s now put_at booking_id purpose kv ≡ (kv', ok n)
      → then_on < put_at + seconds s.code_resend_seconds
      → (guard_resend s then_on then_put booking_id purpose kv').1 ≡ raise code_resend_too_soon 429
  unfolding guard_resend put_value
  guard_resend-cools now put_at n then_on then_put kv kv' e before =
      let key = code_resend booking_id purpose in
      let end = put_at + seconds s.code_resend_seconds in
      let (kv₀, marked) = guard_resend-ok now put_at n kv kv' e in
      let seen : view kv' then_on key ≡ some (sent_entry end) =
        ap (λ (t : KeyValueStore). view t then_on key) marked
        ∙ (view-store key key (sent_entry end) then_on kv₀
            ∙ (rw (same_key_refl key) refl ∙ sent_entry-alive then_on end before)) in
      let waits : (get_value then_on key kv').1 ≡ some (("sent", text "1") ∷ []) =
        get_value-view then_on key kv' ∙ ap (map_option (λ (x : Entry). x.value)) seen in
      rw waits refl

with_courier-codes : (phone : Option String) (b : Booking) → (with_courier phone b).codes ≡ b.codes
with_courier-codes none b = refl
with_courier-codes (some phone) b = ground arith

-- The three ways to issue a code again.
pub data Reissue : Type 0 where
  of_deposit : ℕ → Option String → Reissue
  of_pickup : ℕ → ℕ → Reissue
  to_another : ℕ → ℕ → String → Option String → Reissue

abbrev pub purpose_of : Reissue → CodePurpose
purpose_of (of_deposit now phone) = deposit
purpose_of (of_pickup now sent) = pickup
purpose_of (to_another now sent phone name) = pickup

module _ (hash_pin : String → String) (s : Settings) where
  abbrev pub reissued : Reissue → String → Booking → Booking
  reissued (of_deposit now phone) code b = deposit_reissued hash_pin s now phone code b
  reissued (of_pickup now sent) code b = pickup_reissued hash_pin s now sent code b
  reissued (to_another now sent phone name) code b =
      transferred hash_pin s now sent phone name code b

  -- If a booking has at most one grant for each purpose, no grant of the purpose of a code that is
  -- issued again, or issued for another recipient, matches a text with another digest.
  pub reissued-replaces :
      (how : Reissue) (code old : String) (b : Booking) (x : AccessCode)
      → IsSingle b.codes
      → Has x (reissued how code b).codes
      → is_for (purpose_of how) x ≡ true
      → hash_pin old ≢ hash_pin code
      → code_matches (hash_pin old) x ≡ false
  unfolding record_event
  reissued-replaces (of_deposit now phone) code old b x h m f ne =
      issue_code-replaces hash_pin s (with_courier phone b) deposit code old now x
        (rw (with_courier-codes phone b) h) m f ne
  reissued-replaces (of_pickup now sent) code old b x h m f ne =
      issue_code-replaces hash_pin s b pickup code old now x h m f ne
  reissued-replaces (to_another now sent phone name) code old b x h m f ne =
      issue_code-replaces hash_pin s (record b { recipient_phone = phone; recipient_name = name })
        pickup code old now x h m f ne
