-- ===== src/Tests/Codes.antt =====
-- Examples of the one-time codes, the counters and the memoized responses.
use Prim.Native.String.{String}
use package.text.Mathlib.Text.{◌==◌ as str_eq}
use poctamat_back.Common.{
  ℕ, ◌+◌, ◌≡◌, refl, Option, none, some, List, [], ◌∷◌, ok, raise, arith, if◌then◌else◌,
  idempotency_key_reused, Result,
}
use poctamat_back.KeyValue.{
  KeyValueStore, rate, text, count, put_value, get_value, set_field, live, entry_of, delete,
  store_entry,
}
use poctamat_back.KeyValue.View.{view}
use poctamat_back.KeyValue.Operations.{apply, meaning, apply-view, increments}
use poctamat_back.RateLimit.Window.{Hit, passes, passes-window}
use poctamat_back.Identity.Otp.{Login, IssuedOtp, issue_otp, verify_otp}
use poctamat_back.Identity.Otp.Attempts.{Guess, try_guesses}
use poctamat_back.Identity.Otp.Guesses.{issue-guesses}
use poctamat_back.Idempotency.{Request, Response, Claims, State, dispatch, owner_of}
use poctamat_back.Idempotency.Repeat.{serve_all, dispatch-again}
use poctamat_back.Tests.{value_or, digest, settings}

abbrev quiet : Login
quiet = record { clients = []; notices = []; kv = [] }

abbrev phone : String
phone = "+99365000000"

-- A code that is asked for in the first microseconds.
abbrev asked : Login × Result IssuedOtp
asked = issue_otp settings 1 2 3 4 "r1" "4711" phone quiet

abbrev answer : IssuedOtp
answer = value_or (record { request_id = ""; expires_at = 0; resend_after = 0 }) asked.1

abbrev wrong : List Guess
wrong =
    record { now = 10; clock = 11; code = "0000" }
    ∷ record { now = 12; clock = 13; code = "1111" }
    ∷ []

issue-guesses_example :
    (verify_otp settings 20 21 "r1" "4711" (try_guesses settings "r1" wrong asked.0.kv)).1
    ≡ ok phone
unfolding issue_otp verify_otp put_value get_value set_field live entry_of delete store_entry
issue-guesses_example =
    issue-guesses settings 1 2 3 4 "r1" "4711" phone quiet asked.0 answer refl (omega arith) wrong
      (
        refl,
        omega arith,
        omega arith,
        omega arith,
        (refl, omega arith, omega arith, omega arith, tt),
      )
      20 21 (omega arith) (omega arith) (omega arith)

abbrev logged_in : KeyValueStore × Result String
logged_in = verify_otp settings 20 21 "r1" "4711" asked.0.kv

-- Three requests of one address and one of another, at most two of each in a second.
abbrev first_hit : Hit
first_hit = record { now = 1; clock = 2; host = some "10.0.0.1" }

abbrev hits : List Hit
hits =
    record { now = 3; clock = 4; host = some "10.0.0.2" }
    ∷ record { now = 5; clock = 6; host = some "10.0.0.1" }
    ∷ record { now = 7; clock = 8; host = some "10.0.0.1" }
    ∷ []

passes-window_example : passes "otp" 2 1 "10.0.0.1" (first_hit ∷ hits) [] ≡ 2
unfolding entry_of
passes-window_example =
    passes-window "otp" 2 1 "10.0.0.1" first_hit hits [] refl refl (omega arith) (
      omega arith,
      omega arith,
      omega arith,
      (omega arith, omega arith, omega arith, (omega arith, omega arith, omega arith, tt)),
    )

abbrev counted_once : KeyValueStore
counted_once = put_value 1 (rate "otp" "10.0.0.1") (("n", count 1) ∷ []) 60 []

apply-view_example :
    view (apply 5 6 (increments (rate "otp" "10.0.0.1") 60) counted_once) 7 (rate "otp" "10.0.0.1")
    ≡ meaning 5 6
        (increments (rate "otp" "10.0.0.1") 60)
        (view counted_once)
        7
        (rate "otp" "10.0.0.1")
apply-view_example =
    apply-view 5 6 7 (increments (rate "otp" "10.0.0.1") 60) counted_once (rate "otp" "10.0.0.1")
      (omega arith) (omega arith)

-- An application that counts its requests and answers the body.
abbrev echo : Request → ℕ → ℕ × Response
echo r n = (n + 1, record { status_code = 201; body = r.body })

abbrev anonymous : String → Option Claims
anonymous token = none

abbrev as_json : String → Option String
as_json t = if str_eq t "" then none else some t

abbrev posted : Request
posted = record {
  method = "POST";
  path = "/v1/bookings";
  key = some "k1";
  body = "{}";
  subject_id = none;
  bearer = none;
  host = some "10.0.0.1";
}

abbrev changed : Request
changed = record posted { body = "[]" }

abbrev other : Request
other = record posted { key = none }

abbrev started : State ℕ
started = record { app = 0; records = [] }

abbrev served : State ℕ
served =
    serve_all echo anonymous digest as_json (other ∷ [])
      (dispatch echo anonymous digest as_json posted started).0

dispatch-again_example :
    dispatch echo anonymous digest as_json changed served
    ≡ (served, raise idempotency_key_reused 409)
unfolding dispatch owner_of
dispatch-again_example =
    dispatch-again echo anonymous digest as_json posted "k1" started refl refl refl changed
      (other ∷ []) refl refl refl
