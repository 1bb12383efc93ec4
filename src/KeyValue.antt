-- ===== src/KeyValue.antt =====
-- The short-lived values of backend/app/core/kvstore.py. A key is the data that its f-string is
-- built from, a value the dict of its fields, and a field that `str` writes of a counter the number.
-- Each reading of `time.monotonic()` is an argument of its own, in microseconds. An operation
-- changes the dictionary at once: a request that fails later does not roll it back.
pub mod View
pub mod Operations
use Prim.Native.String.{String}
use package.text.Mathlib.Text.{◌==◌ as str_eq}
use mathlib.Core.Option.{map as map_option}
use poctamat_back.Common.{
  ℕ, ◌+◌, ◌-◌, ◌*◌, ◌/◌, Bool, true, false, not, ◌&&◌, Option, none, some, List, [], ◌∷◌, leb, ltb,
  ◌==◌, if◌then◌else◌, Result, ok, err, raise, internal_error,
}
use poctamat_back.Booking.{CodePurpose}
use poctamat_back.Booking.Codes.{same_purpose}

-- "otp:req:…", "otp:phone:…", "rl:…:…" and "code:resend:…:…".
pub data Key : Type 0 where
  otp_request : String → Key
  otp_phone : String → Key
  rate : String → String → Key
  code_resend : ℕ → CodePurpose → Key

abbrev pub same_key : Key → Key → Bool
same_key (otp_request a) (otp_request b) = str_eq a b
same_key (otp_phone a) (otp_phone b) = str_eq a b
same_key (rate a c) (rate b d) = str_eq a b && str_eq c d
same_key (code_resend a c) (code_resend b d) = a == b && same_purpose c d
same_key _ _ = false

pub data Field : Type 0 where
  text : String → Field
  count : ℕ → Field

abbrev pub Fields : Type 0
Fields = List (String × Field)

-- `value[name]`, `int(value[name])` and `value[name] = new`.
abbrev pub field : String → Fields → Option Field
field name [] = none
field name ((n, v) ∷ fields) = if str_eq n name then some v else field name fields

abbrev pub text_of : Option Field → Result String
text_of (some (text t)) = ok t
text_of _ = raise internal_error 500

abbrev pub int_of : Option Field → Result ℕ
int_of (some (count n)) = ok n
int_of _ = raise internal_error 500

abbrev pub with_field : String → Field → Fields → Fields
with_field name new [] = (name, new) ∷ []
with_field name new ((n, v) ∷ fields) =
    if str_eq n name then (n, new) ∷ fields else (n, v) ∷ with_field name new fields

-- The truth of a dict that may be missing.
abbrev pub has_value : Option Fields → Bool
has_value (some (f ∷ fields)) = true
has_value _ = false

-- `_Entry`.
pub record Entry : Type 0 where
  pub value : Fields
  pub expires_at : ℕ

abbrev pub KeyValueStore : Type 0
KeyValueStore = List (Key × Entry)

abbrev pub seconds : ℕ → ℕ
seconds n = n * 1_000_000

unfoldable pub entry_of : Key → KeyValueStore → Option Entry
entry_of k [] = none
entry_of k ((j, e) ∷ st) = if same_key j k then some e else entry_of k st

-- `del self._data[key]`, or nothing if there is no such key.
unfoldable pub delete : Key → KeyValueStore → KeyValueStore
delete k [] = []
delete k ((j, e) ∷ st) = if same_key j k then delete k st else (j, e) ∷ delete k st

-- `self._data[key] = entry`.
unfoldable pub store_entry : Key → Entry → KeyValueStore → KeyValueStore
store_entry k e st = (k, e) ∷ delete k st

abbrev pub clear : KeyValueStore → KeyValueStore
clear st = []

abbrev pub live_or_drop : ℕ → Key → KeyValueStore → Option Entry → KeyValueStore × Option Entry
live_or_drop now k st none = (st, none)
live_or_drop now k st (some e) = if leb e.expires_at now then (delete k st, none) else (st, some e)

-- `_live`.
unfoldable pub live : ℕ → Key → KeyValueStore → KeyValueStore × Option Entry
live now k st = live_or_drop now k st (entry_of k st)

unfoldable pub put_value : ℕ → Key → Fields → ℕ → KeyValueStore → KeyValueStore
put_value now k value ttl_seconds st =
    store_entry k (record { value = value; expires_at = now + seconds ttl_seconds }) st

unfoldable pub get_value : ℕ → Key → KeyValueStore → KeyValueStore × Option Fields
get_value now k st = let (st', e) = live now k st in (st', map_option (λ (x : Entry). x.value) e)

abbrev pub set_live : Key → String → Field → KeyValueStore × Option Entry → KeyValueStore
set_live k name new (st, none) = st
set_live k name new (st, some e) =
    store_entry k (record e { value = with_field name new e.value }) st

unfoldable pub set_field : ℕ → Key → String → Field → KeyValueStore → KeyValueStore
set_field now k name new st = set_live k name new (live now k st)

-- `max(1, int(expires_at - time.monotonic()))`; `int` cuts a negative remainder of less than a
-- second to zero, as the difference does here.
abbrev pub seconds_left : ℕ → ℕ → ℕ
seconds_left expires_at now =
    let left = (expires_at - now) / 1_000_000 in if ltb left 1 then 1 else left

abbrev pub count_up : Key → ℕ → Entry → KeyValueStore → Result ℕ → KeyValueStore × Result (ℕ × ℕ)
count_up k later e st (ok n) = (
  store_entry k (record e { value = with_field "n" (count (n + 1)) e.value }) st,
  ok (n + 1, seconds_left e.expires_at later),
)
count_up k later e st (err problem) = (st, err problem)

abbrev pub increment_live :
    ℕ → Key → ℕ → KeyValueStore × Option Entry → KeyValueStore × Result (ℕ × ℕ)
increment_live later k ttl_seconds (st, none) =
    (put_value later k (("n", count 1) ∷ []) ttl_seconds st, ok (1, ttl_seconds))
increment_live later k ttl_seconds (st, some e) = count_up k later e st (int_of (field "n" e.value))

-- The new value of the counter and the seconds left in its window.
unfoldable pub increment : ℕ → ℕ → Key → ℕ → KeyValueStore → KeyValueStore × Result (ℕ × ℕ)
increment now later k ttl_seconds st = increment_live later k ttl_seconds (live now k st)
