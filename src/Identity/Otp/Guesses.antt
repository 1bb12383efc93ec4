-- ===== src/Identity/Otp/Guesses.antt =====
-- How a code that was sent can be guessed, and that it logs in once.
use Prim.Native.String.{String}
use package.text.Mathlib.TextPositions.{eq_refl}
use poctamat_back.Common.{
  ℕ, ◌+◌, ◌≤◌, ◌<◌, ◌≡◌, sym, ap, subst, inl, inr, some, List, ltb, length, if◌then◌else◌,
  Bool-cases, Result, ok, raise, otp_not_found, otp_attempts_exceeded, arith, is_some, first,
  lt→ltb, ErrorCode,
}
use poctamat_back.Settings.{Settings}
use poctamat_back.KeyValue.{has_value, otp_phone, text, KeyValueStore, seconds, get_value}
use poctamat_back.Identity.Otp.{
  Login, IssuedOtp, issue_otp, file_code, verify_otp, is_blocked_phone,
}
use poctamat_back.Identity.Otp.Attempts.{
  Guess, AreWrong, last_clock, waiting, try_guesses, Holds, guesses-Holds, right-answer,
  filed-Holds, held,
}

nothing_add : (n : ℕ) → 0 + n ≡ n
nothing_add n = omega arith

-- The answer to the right digits after some wrong ones.
abbrev pub answer_after : Settings → ℕ → String → Result String
answer_after s wrong phone =
    if ltb (wrong + 1) s.otp_max_attempts
    then ok phone
    else if ltb wrong s.otp_max_attempts
    then raise otp_attempts_exceeded 429
    else raise otp_not_found 401

pub ok_of_raise : {A : Type 0} {a : A} {c : ErrorCode} {n : ℕ} → raise c n ≡ ok a → ⊥
ok_of_raise e = cc

module _ (s : Settings) (now put_at resend_at clock : ℕ) (request_id code phone : String)
    (st st' : Login) (sent : IssuedOtp)
    (issued : issue_otp s now put_at resend_at clock request_id code phone st
      ≡ (st', ok sent)) where
  pub issued-store :
      (kv : KeyValueStore) × (st'.kv ≡ file_code s put_at resend_at request_id code phone kv)
  unfolding issue_otp
  issued-store = elim (Bool-cases (is_some (first (is_blocked_phone phone) st.clients))) [
    | inl bad ↦ absurd (ok_of_raise (ap (λ (p : Login × Result IssuedOtp). p.1) (rw bad at issued)))
    | inr good ↦ elim (Bool-cases (has_value (get_value now (otp_phone phone) st.kv).1)) [
      | inl soon ↦
          absurd
            (ok_of_raise (ap (λ (p : Login × Result IssuedOtp). p.1) (rw (good, soon) at issued)))
      | inr free ↦ (
        (get_value now (otp_phone phone) st.kv).0,
        sym (ap (λ (p : Login × Result IssuedOtp). p.0.kv) (rw (good, free) at issued)),
      )
    ]
  ]

  stored-Holds :
      Holds s request_id resend_at
        (some (waiting code 0 phone (put_at + seconds s.otp_ttl_seconds)))
        st'.kv
  stored-Holds =
      let (kv, e) = issued-store in rw e (filed-Holds s request_id put_at resend_at code phone kv)

  -- If at least one attempt is allowed, then for a code that was issued, and on a clock that does
  -- not run backwards, with every wrong guess and the last check before the end of the code
  -- (`otp_ttl_seconds` after it was put), the right digits after some wrong ones answer the phone
  -- only while fewer than `otp_max_attempts` less one were wrong; after exactly that many they are
  -- refused with OTP_ATTEMPTS_EXCEEDED, and after more the code is gone.
  pub issue-guesses :
      1 ≤ s.otp_max_attempts
      → (gs : List Guess) → AreWrong code resend_at (put_at + seconds s.otp_ttl_seconds) gs
      → (then_on then_at : ℕ) → last_clock resend_at gs ≤ then_on
      → then_on ≤ then_at
      → then_on < put_at + seconds s.otp_ttl_seconds
      → (verify_otp s then_on then_at request_id code (try_guesses s request_id gs st'.kv)).1
        ≡ answer_after s (length gs) phone
  issue-guesses positive gs wrong then_on then_at h turn before =
      let end = put_at + seconds s.otp_ttl_seconds in
      let unused = lt→ltb 0 s.otp_max_attempts (omega arith) in
      let held_now =
        guesses-Holds s request_id code phone end gs resend_at 0 st'.kv wrong
          (rw unused stored-Holds) in
      right-answer s request_id code phone end (last_clock resend_at gs) (length gs)
        (record { now = then_on; clock = then_at; code = code })
        (try_guesses s request_id gs st'.kv)
        (subst
          (λ n.
            Holds s request_id (last_clock resend_at gs) (held s request_id code phone end n)
              (try_guesses s request_id gs st'.kv))
          (nothing_add (length gs)) held_now)
        h turn before (eq_refl code)
