-- ===== src/Booking/Codes/Lookup.antt =====
-- `find_code` answers with a code exactly when one is live at the postamat; the end of a grant is
-- not among its conditions.
use Prim.Native.String.{String}
use text.Mathlib.Text.{◌==◌ as str_eq}
use text.Mathlib.TextEquality.{eq_iff}
use poctamat_back.Common.{
  ℕ, ◌≡◌, ◌⊎◌, inl, inr, Bool, true, Option, some, List, [], ◌∷◌, Has, is_some, Bool-cases,
  some_injective, subst, sym, refl, none, not, ◌==◌, ==_iff, arith,
}
use poctamat_back.Booking.{AccessCode, Booking, is_held}
use poctamat_back.Booking.Codes.{code_matches, booking_opens, first_or, find_code}

-- A live code: a stored booking at the postamat, which holds its cell, has it; its digest is that of
-- the text; and it has not been used. Nothing is asked of its end.
pub record IsLive (hash_pin : String → String) (bookings : List Booking) (postamat_id : ℕ)
    (plaintext : String) (c : AccessCode) : Type 0 where
  pub booking : Booking
  pub stored : Has booking bookings
  pub here : booking.postamat_id ≡ postamat_id
  pub holds : is_held booking.status ≡ true
  pub granted : Has c booking.codes
  pub same_digest : c.code_hash ≡ hash_pin plaintext
  pub unused : c.used_at ≡ none

not_used : (used_at : Option ℕ) → not (is_some used_at) ≡ true → used_at ≡ none
not_used none e = refl
not_used (some at) e = cc

matches-fields :
    (digest : String) (c : AccessCode)
    → code_matches digest c ≡ true
    → (c.code_hash ≡ digest) × (c.used_at ≡ none)
matches-fields digest c e =
    let same : str_eq c.code_hash digest ≡ true = ground (arith, e) in
    ((eq_iff c.code_hash digest).0 same, not_used c.used_at (rw same at e))

fields-matches :
    (digest : String) (c : AccessCode)
    → c.code_hash ≡ digest
    → c.used_at ≡ none
    → code_matches digest c ≡ true
fields-matches digest c same unused = rw (unused, (eq_iff c.code_hash digest).1 same) refl

opens-fields :
    (postamat_id : ℕ) (b : Booking)
    → booking_opens postamat_id b ≡ true
    → (b.postamat_id ≡ postamat_id) × (is_held b.status ≡ true)
opens-fields postamat_id b e =
    let here : (b.postamat_id == postamat_id) ≡ true = ground (arith, e) in
    ((==_iff b.postamat_id postamat_id).0 here, rw here at e)

fields-opens :
    (postamat_id : ℕ) (b : Booking)
    → b.postamat_id ≡ postamat_id
    → is_held b.status ≡ true
    → booking_opens postamat_id b ≡ true
fields-opens postamat_id b here holds = rw ((==_iff b.postamat_id postamat_id).1 here, holds) refl

first_or_sound :
    {A : Type 0} (p : A → Bool) (xs : List A) (rest : Option A) (x : A)
    → first_or p xs rest ≡ some x
    → (Has x xs × (p x ≡ true)) ⊎ (rest ≡ some x)
first_or_sound p [] rest x e = inr e
first_or_sound p (y ∷ ys) rest x e = elim (Bool-cases (p y)) [
  | inl hit ↦
      let same = some_injective (rw hit at e) in
      inl (inl (sym same), subst (λ z. p z ≡ true) same hit)
  | inr miss ↦ elim (first_or_sound p ys rest x (rw miss at e)) [
    | inl (m, t) ↦ inl (inr m, t)
    | inr r ↦ inr r
  ]
]

first_or-rest :
    {A : Type 0} (p : A → Bool) (xs : List A) (rest : Option A)
    → is_some rest ≡ true
    → is_some (first_or p xs rest) ≡ true
first_or-rest p [] rest e = e
first_or-rest p (y ∷ ys) rest e = elim (Bool-cases (p y)) [
  | inl hit ↦ rw hit
  | inr miss ↦ rw miss (first_or-rest p ys rest e)
]

first_or-hit :
    {A : Type 0} (p : A → Bool) (x : A) (xs : List A) (rest : Option A)
    → Has x xs
    → p x ≡ true
    → is_some (first_or p xs rest) ≡ true
first_or-hit p x [] rest m e = absurd m
first_or-hit p x (y ∷ ys) rest (inl same) e =
    let hit : p y ≡ true = subst (λ z. p z ≡ true) same e in rw hit
first_or-hit p x (y ∷ ys) rest (inr m) e = elim (Bool-cases (p y)) [
  | inl hit ↦ rw hit
  | inr miss ↦ rw miss (first_or-hit p x ys rest m e)
]

module _ (hash_pin : String → String) (postamat_id : ℕ) (plaintext : String) where
  weaken :
      (b : Booking) (bookings : List Booking) (c : AccessCode)
      → IsLive hash_pin bookings postamat_id plaintext c
      → IsLive hash_pin (b ∷ bookings) postamat_id plaintext c
  weaken b bookings c l = record {
    booking = l.booking;
    stored = inr l.stored;
    here = l.here;
    holds = l.holds;
    granted = l.granted;
    same_digest = l.same_digest;
    unused = l.unused;
  }

  -- A code that `find_code` answers belongs to a stored booking at the postamat that holds its
  -- cell, has the digest of the text, and has no time of use.
  pub find_code-IsLive :
      (bookings : List Booking) (c : AccessCode)
      → find_code hash_pin bookings postamat_id plaintext ≡ some c
      → IsLive hash_pin bookings postamat_id plaintext c
  unfolding find_code
  find_code-IsLive [] c e = cc
  find_code-IsLive (b ∷ bookings) c e = elim (Bool-cases (booking_opens postamat_id b)) [
    | inl opens ↦
        elim (first_or_sound (code_matches (hash_pin plaintext)) b.codes _ c (rw opens at e)) [
          | inl (granted, matches) ↦ record {
            booking = b;
            stored = inl refl;
            here = (opens-fields postamat_id b opens).0;
            holds = (opens-fields postamat_id b opens).1;
            granted = granted;
            same_digest = (matches-fields (hash_pin plaintext) c matches).0;
            unused = (matches-fields (hash_pin plaintext) c matches).1;
          }
          | inr later ↦ weaken b bookings c (find_code-IsLive bookings c later)
        ]
    | inr shut ↦ weaken b bookings c (find_code-IsLive bookings c (rw shut at e))
  ]

  -- If a stored booking at the postamat that holds its cell has a grant with the digest of the text
  -- and no time of use, then `find_code` answers some code; nothing is asked of the grant's
  -- `expires_at`, so one that ended is found too.
  pub IsLive-find_code :
      (bookings : List Booking) (c : AccessCode)
      → IsLive hash_pin bookings postamat_id plaintext c
      → is_some (find_code hash_pin bookings postamat_id plaintext) ≡ true
  unfolding find_code
  IsLive-find_code bookings c l = found bookings l.stored
    where
      found :
          (bs : List Booking)
          → Has l.booking bs
          → is_some (find_code hash_pin bs postamat_id plaintext) ≡ true
      found [] m = absurd m
      found (b ∷ bs) (inl same) =
          let opens : booking_opens postamat_id b ≡ true =
            subst (λ z. booking_opens postamat_id z ≡ true) same
              (fields-opens postamat_id l.booking l.here l.holds) in
          rw opens (
            first_or-hit (code_matches (hash_pin plaintext)) c b.codes _
              (subst (λ (z : Booking). Has c z.codes) same l.granted)
              (fields-matches (hash_pin plaintext) c l.same_digest l.unused))
      found (b ∷ bs) (inr m) = elim (Bool-cases (booking_opens postamat_id b)) [
        | inl opens ↦
            rw opens (first_or-rest (code_matches (hash_pin plaintext)) b.codes _ (found bs m))
        | inr shut ↦ rw shut (found bs m)
      ]
