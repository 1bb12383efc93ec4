-- ===== src/Identity/Otp/Once.antt =====
-- A code logs in once, and a phone waits for the next one.
use Prim.Native.String.{String}
use mathlib.Core.Option.{map as map_option}
use poctamat_back.Common.{
  ℕ, ◌+◌, ◌<◌, ◌≡◌, refl, sym, ap, ◌∙◌, inl, inr, false, Option, none, some, [], ◌∷◌, leb, first,
  is_some, Bool-cases, Result, ok, err, raise, otp_not_found, otp_request_too_soon, arith,
}
use package.text.Mathlib.Text.{◌==◌ as str_eq}
use poctamat_back.Settings.{Settings}
use poctamat_back.KeyValue.{
  has_value, Key, otp_request, otp_phone, text, Fields, field, int_of, text_of, Entry,
  KeyValueStore, seconds, delete, put_value, get_value,
}
use poctamat_back.KeyValue.View.{
  alive, view, view-delete, view-store, same_key_refl, get_value-view,
}
use poctamat_back.Identity.Otp.{
  Login, IssuedOtp, is_blocked_phone, issue_otp, otp_fields, check_stored, count_attempt,
  compare_code, verify_otp,
}
use poctamat_back.Identity.Otp.Guesses.{issued-store, ok_of_raise}

module _ (s : Settings) (clock : ℕ) (key : Key) (code : String) where
  compare_code-ok :
      (n : ℕ) (fields : Fields) (kv : KeyValueStore) (r : Result String) {phone : String}
      → (compare_code clock key code n fields kv r).1 ≡ ok phone
      → (compare_code clock key code n fields kv r).0 ≡ delete key kv
  compare_code-ok n fields kv (err problem) e = cc
  compare_code-ok n fields kv (ok stored) e = elim (Bool-cases (str_eq stored code)) [
    | inl hit ↦ rw hit refl
    | inr miss ↦ absurd (ok_of_raise (rw miss at e))
  ]

  count_attempt-ok :
      (fields : Fields) (kv : KeyValueStore) (r : Result ℕ) {phone : String}
      → (count_attempt s clock key code fields kv r).1 ≡ ok phone
      → (count_attempt s clock key code fields kv r).0 ≡ delete key kv
  count_attempt-ok fields kv (err problem) e = cc
  count_attempt-ok fields kv (ok n) e = elim (Bool-cases (leb s.otp_max_attempts (n + 1))) [
    | inl last ↦ absurd (ok_of_raise (rw last at e))
    | inr more ↦
        rw more (compare_code-ok (n + 1) fields kv (text_of (field "code" fields)) (rw more at e))
  ]

  -- A check that succeeds deletes the entry.
  check_stored-ok :
      (p : KeyValueStore × Option Fields) {phone : String}
      → (check_stored s clock key code p).1 ≡ ok phone
      → (check_stored s clock key code p).0 ≡ delete key p.0
  check_stored-ok (kv, none) e = cc
  check_stored-ok (kv, some []) e = cc
  check_stored-ok (kv, some (f ∷ fields)) e =
      count_attempt-ok (f ∷ fields) kv (int_of (field "attempts" (f ∷ fields))) e

  check_stored-none :
      (p : KeyValueStore × Option Fields)
      → p.1 ≡ none
      → (check_stored s clock key code p).1 ≡ raise otp_not_found 401
  check_stored-none (kv, none) e = refl
  check_stored-none (kv, some fields) e = cc

-- After a code has logged somebody in, every later check of its request is refused with
-- OTP_NOT_FOUND, at every clock and for all digits.
pub verify-once :
    (s : Settings) (now clock then_on then_at : ℕ) (request_id code again phone : String)
    (kv kv' : KeyValueStore)
    → verify_otp s now clock request_id code kv ≡ (kv', ok phone)
    → (verify_otp s then_on then_at request_id again kv').1 ≡ raise otp_not_found 401
unfolding verify_otp
verify-once s now clock then_on then_at request_id code again phone kv kv' e =
    let key = otp_request request_id in
    let gone : kv' ≡ delete key (get_value now key kv).0 =
      sym (ap (λ (p : KeyValueStore × Result String). p.0) e)
      ∙ check_stored-ok s clock key code (get_value now key kv)
          (ap (λ (p : KeyValueStore × Result String). p.1) e) in
    let empty : view kv' then_on key ≡ none =
      rw gone
        (rw (view-delete key key then_on (get_value now key kv).0) (rw (same_key_refl key) refl)) in
    check_stored-none s then_at key again (get_value then_on key kv')
      (get_value-view then_on key kv' ∙ ap (map_option (λ (e : Entry). e.value)) empty)

abbrev resend_entry : String → ℕ → Entry
resend_entry request_id end = record {
  value = ("request_id", text request_id) ∷ [];
  expires_at = end;
}

resend_entry-alive :
    (request_id : String) (now end : ℕ)
    → now < end
    → alive now (some (resend_entry request_id end)) ≡ some (resend_entry request_id end)
resend_entry-alive request_id now end h = ground arith

module _ (s : Settings) (now put_at resend_at clock : ℕ) (request_id code phone : String)
    (st st' : Login) (sent : IssuedOtp)
    (issued : issue_otp s now put_at resend_at clock request_id code phone st
      ≡ (st', ok sent)) where
  issued-clients : is_some (first (is_blocked_phone phone) st'.clients) ≡ false
  unfolding issue_otp
  issued-clients = elim (Bool-cases (is_some (first (is_blocked_phone phone) st.clients))) [
    | inl bad ↦ absurd (ok_of_raise (ap (λ (p : Login × Result IssuedOtp). p.1) (rw bad at issued)))
    | inr good ↦ elim (Bool-cases (has_value (get_value now (otp_phone phone) st.kv).1)) [
      | inl soon ↦
          absurd
            (ok_of_raise (ap (λ (p : Login × Result IssuedOtp). p.1) (rw (good, soon) at issued)))
      | inr free ↦
          ap
            (λ (p : Login × Result IssuedOtp). is_some (first (is_blocked_phone phone) p.0.clients))
            (sym (rw (good, free) at issued))
          ∙ good
    ]
  ]

  waits :
      (then_on : ℕ)
      → then_on < resend_at + seconds s.otp_resend_seconds
      → (get_value then_on (otp_phone phone) st'.kv).1 ≡ some (("request_id", text request_id) ∷ [])
  unfolding put_value
  waits then_on before =
      let (kv, e) =
        issued-store s now put_at resend_at clock request_id code phone st st' sent issued in
      let marked =
        view-store (otp_phone phone) (otp_phone phone)
          (resend_entry request_id (resend_at + seconds s.otp_resend_seconds)) then_on
          (put_value put_at (otp_request request_id) (otp_fields code 0 phone) s.otp_ttl_seconds kv)
        ∙ rw (same_key_refl (otp_phone phone)) refl
        ∙ resend_entry-alive request_id then_on (resend_at + seconds s.otp_resend_seconds) before in
      get_value-view then_on (otp_phone phone) st'.kv
      ∙ ap (map_option (λ (x : Entry). x.value))
          (ap (λ (t : KeyValueStore). view t then_on (otp_phone phone)) e ∙ marked)

  pub issue-resend :
      (then_on put_on resend_on clock_on : ℕ) (other other_code : String)
      → then_on < resend_at + seconds s.otp_resend_seconds
      → (issue_otp s then_on put_on resend_on clock_on other other_code phone st').1
        ≡ raise otp_request_too_soon 429
  unfolding issue_otp
  issue-resend then_on put_on resend_on clock_on other other_code before =
      rw issued-clients (rw (waits then_on before) refl)
