-- ===== src/Identity/Otp/Attempts.antt =====
-- Guessing a code that was sent: the entry of the code after some wrong guesses.
use Prim.Native.String.{String}
use package.text.Mathlib.Text.{◌==◌ as str_eq}
use mathlib.Core.Option.{map as map_option}
use poctamat_back.Common.{
  ℕ, suc, ◌+◌, ◌≤◌, ◌<◌, ◌≡◌, refl, sym, ap, ◌∙◌, inl, inr, true, false, Option, none, some, List,
  [], ◌∷◌, ltb, leb, length, if◌then◌else◌, Bool-cases, ok, raise, otp_not_found,
  otp_attempts_exceeded, otp_invalid, arith, some_injective,
}
use poctamat_back.Settings.{Settings}
use poctamat_back.KeyValue.{
  otp_request, otp_phone, text, count, Fields, Entry, KeyValueStore, seconds, delete, put_value,
  get_value, set_field,
}
use poctamat_back.KeyValue.View.{
  alive, view, view-delete, view-store, same_key_refl, get_value-view, get_value-keeps,
}
use poctamat_back.KeyValue.Operations.{apply-view, sets, set_in, alive_set}
use poctamat_back.Identity.Otp.{otp_fields, file_code, check_stored, verify_otp}

-- One check of a code: the two readings of the clock, and the digits.
pub record Guess : Type 0 where
  pub now : ℕ
  pub clock : ℕ
  pub code : String

-- All guesses are wrong, the clock does not run backwards, and none comes at `end` or later.
abbrev pub AreWrong : String → ℕ → ℕ → List Guess → Type 0
AreWrong code from end [] = Unit {0}
AreWrong code from end (g ∷ gs) =
    (str_eq code g.code ≡ false)
    × (from ≤ g.now)
    × (g.now ≤ g.clock)
    × (g.now < end)
    × AreWrong code g.clock end gs

-- The reading of the last guess.
abbrev pub last_clock : ℕ → List Guess → ℕ
last_clock from [] = from
last_clock from (g ∷ gs) = last_clock g.clock gs

abbrev pub waiting : String → ℕ → String → ℕ → Entry
waiting code attempts phone end = record {
  value = otp_fields code attempts phone;
  expires_at = end;
}

pub waiting-alive :
    (now attempts end : ℕ) (code phone : String)
    → now < end
    → alive now (some (waiting code attempts phone end)) ≡ some (waiting code attempts phone end)
waiting-alive now attempts end code phone h = ground arith

module _ (s : Settings) (request_id : String) where
  abbrev pub try_guesses : List Guess → KeyValueStore → KeyValueStore
  try_guesses [] kv = kv
  try_guesses (g ∷ gs) kv = try_guesses gs (verify_otp s g.now g.clock request_id g.code kv).0

  -- From `from` on, the store holds `o` for the request.
  abbrev pub Holds : ℕ → Option Entry → KeyValueStore → Type 0
  Holds from o kv =
      (later : ℕ) → from ≤ later → view kv later (otp_request request_id) ≡ alive later o

  module _ (code phone : String) (end : ℕ) where
    used_up : (n : ℕ) → ltb n s.otp_max_attempts ≡ false → ltb (n + 1) s.otp_max_attempts ≡ false
    used_up n h = ground arith

    last_attempt :
        (n : ℕ) → leb s.otp_max_attempts (n + 1) ≡ true → ltb (n + 1) s.otp_max_attempts ≡ false
    last_attempt n h = ground arith

    not_last :
        (n : ℕ) → leb s.otp_max_attempts (n + 1) ≡ false → ltb (n + 1) s.otp_max_attempts ≡ true
    not_last n h = ground arith

    add_nothing : (n : ℕ) → n + 0 ≡ n
    add_nothing n = omega arith

    add_one : (n m : ℕ) → n + suc m ≡ n + 1 + m
    add_one n m = omega arith

    -- What a check answers while the code waits.
    check_waiting :
        (clock attempts : ℕ) (guess : String) (p : KeyValueStore × Option Fields)
        → p.1 ≡ some (otp_fields code attempts phone)
        → check_stored s clock (otp_request request_id) guess p ≡ (
            if leb s.otp_max_attempts (attempts + 1)
            then (delete (otp_request request_id) p.0, raise otp_attempts_exceeded 429)
            else if str_eq code guess
            then (delete (otp_request request_id) p.0, ok phone)
            else (
              set_field clock (otp_request request_id) "attempts" (count (attempts + 1)) p.0,
              raise otp_invalid 401,
            ))
    check_waiting clock attempts guess (kv, none) e = cc
    check_waiting clock attempts guess (kv, some fields) e = rw (some_injective e) refl

    check_gone :
        (clock : ℕ) (guess : String) (p : KeyValueStore × Option Fields)
        → p.1 ≡ none
        → check_stored s clock (otp_request request_id) guess p ≡ (p.0, raise otp_not_found 401)
    check_gone clock guess (kv, none) e = refl
    check_gone clock guess (kv, some fields) e = cc

    -- What the store has after `n` wrong guesses.
    abbrev pub held : ℕ → Option Entry
    held n = if ltb n s.otp_max_attempts then some (waiting code n phone end) else none

    got :
        (kv : KeyValueStore) (now : ℕ) {o : Option Entry}
        → view kv now (otp_request request_id) ≡ o
        → (get_value now (otp_request request_id) kv).1 ≡ map_option (λ (e : Entry). e.value) o
    got kv now e =
        get_value-view now (otp_request request_id) kv ∙ ap (map_option (λ (e : Entry). e.value)) e

    deleted-Holds :
        (from : ℕ) (kv : KeyValueStore) → Holds from none (delete (otp_request request_id) kv)
    deleted-Holds from kv later h =
        rw (view-delete (otp_request request_id) (otp_request request_id) later kv)
          (rw (same_key_refl (otp_request request_id)) refl)

    read-Holds :
        (from now : ℕ) (kv : KeyValueStore) (o : Option Entry)
        → from ≤ now
        → Holds from o kv
        → Holds now o (get_value now (otp_request request_id) kv).0
    read-Holds from now kv o h c later g =
        get_value-keeps now later (otp_request request_id) (otp_request request_id) kv g
        ∙ c later (omega arith)

    counted-Holds :
        (now clock n : ℕ) (kv : KeyValueStore)
        → now ≤ clock
        → Holds now (some (waiting code n phone end)) kv
        → Holds clock
            (some (waiting code (n + 1) phone end))
            (set_field clock (otp_request request_id) "attempts" (count (n + 1)) kv)
    counted-Holds now clock n kv turn c later g =
        apply-view clock clock later (sets (otp_request request_id) "attempts" (count (n + 1))) kv
          (otp_request request_id) (omega arith) g
        ∙ rw (same_key_refl (otp_request request_id)) (
            ap (map_option (set_in "attempts" (count (n + 1)))) (c later (omega arith))
            ∙ sym (alive_set later "attempts" (count (n + 1)) (waiting code n phone end)))

    module _ (from n : ℕ) (g : Guess) (kv : KeyValueStore) (c : Holds from (held n) kv)
        (h : from ≤ g.now) (turn : g.now ≤ g.clock) (before : g.now < end) where
      abbrev store_read : KeyValueStore
      store_read = (get_value g.now (otp_request request_id) kv).0

      -- While fewer than all attempts are used up, the code is looked at.
      verify-waiting :
          ltb n s.otp_max_attempts ≡ true
          → verify_otp s g.now g.clock request_id g.code kv ≡ (
              if leb s.otp_max_attempts (n + 1)
              then (delete (otp_request request_id) store_read, raise otp_attempts_exceeded 429)
              else if str_eq code g.code
              then (delete (otp_request request_id) store_read, ok phone)
              else (
                set_field g.clock (otp_request request_id) "attempts" (count (n + 1)) store_read,
                raise otp_invalid 401,
              ))
      unfolding verify_otp
      verify-waiting left =
          check_waiting g.clock n g.code (get_value g.now (otp_request request_id) kv)
            (got kv g.now (rw left at (c g.now h) ∙ waiting-alive g.now n end code phone before))

      verify-gone :
          ltb n s.otp_max_attempts ≡ false
          → verify_otp s g.now g.clock request_id g.code kv ≡ (store_read, raise otp_not_found 401)
      unfolding verify_otp
      verify-gone over =
          check_gone g.clock g.code (get_value g.now (otp_request request_id) kv)
            (got kv g.now (rw over at (c g.now h)))

      wrong-Holds :
          str_eq code g.code ≡ false
          → Holds g.clock (held (n + 1)) (verify_otp s g.now g.clock request_id g.code kv).0
      wrong-Holds wrong = elim (Bool-cases (ltb n s.otp_max_attempts)) [
        | inr over ↦ rw (verify-gone over) (
            rw (used_up n over)
              (λ later g'. read-Holds from g.now kv none h (rw over at c) later (omega arith)))
        | inl left ↦ elim (Bool-cases (leb s.otp_max_attempts (n + 1))) [
          | inl last ↦
              rw (verify-waiting left)
                (rw (last, last_attempt n last) (deleted-Holds g.clock store_read))
          | inr more ↦ rw (verify-waiting left) (
              rw (more, wrong, not_last n more)
                (counted-Holds g.now g.clock n store_read turn
                  (read-Holds from g.now kv (some (waiting code n phone end)) h (rw left at c))))
        ]
      ]

      -- The right digits.
      pub right-answer :
          str_eq code g.code ≡ true
          → (verify_otp s g.now g.clock request_id g.code kv).1 ≡ (
              if ltb (n + 1) s.otp_max_attempts
              then ok phone
              else if ltb n s.otp_max_attempts
              then raise otp_attempts_exceeded 429
              else raise otp_not_found 401)
      right-answer right = elim (Bool-cases (ltb n s.otp_max_attempts)) [
        | inr over ↦ rw (verify-gone over) (rw (over, used_up n over) refl)
        | inl left ↦ elim (Bool-cases (leb s.otp_max_attempts (n + 1))) [
          | inl last ↦ rw (verify-waiting left) (rw (last, left, last_attempt n last) refl)
          | inr more ↦ rw (verify-waiting left) (rw (more, right, not_last n more) refl)
        ]
      ]

    pub guesses-Holds :
        (gs : List Guess) (from n : ℕ) (kv : KeyValueStore)
        → AreWrong code from end gs
        → Holds from (held n) kv
        → Holds (last_clock from gs) (held (n + length gs)) (try_guesses gs kv)
    guesses-Holds [] from n kv w c = rw (add_nothing n) c
    guesses-Holds (g ∷ gs) from n kv (wrong, h, turn, before, rest) c = rw (add_one n (length gs)) (
        guesses-Holds gs g.clock (n + 1) (verify_otp s g.now g.clock request_id g.code kv).0 rest
          (wrong-Holds from n g kv c h turn before wrong))

  -- A filed code waits with no attempt used.
  pub filed-Holds :
      (at then_at : ℕ) (code phone : String) (kv : KeyValueStore)
      → Holds then_at
          (some (waiting code 0 phone (at + seconds s.otp_ttl_seconds)))
          (file_code s at then_at request_id code phone kv)
  unfolding put_value
  filed-Holds at then_at code phone kv later h =
      view-store (otp_phone phone) (otp_request request_id) _ later _
      ∙ (view-store (otp_request request_id) (otp_request request_id) _ later kv
          ∙ rw (same_key_refl (otp_request request_id)) refl)
