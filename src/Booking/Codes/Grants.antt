-- ===== src/Booking/Codes/Grants.antt =====
-- `issue_code` keeps one grant for each purpose, and replaces what the purpose had before.
use Prim.Native.String.{String}
use text.Mathlib.TextEquality.{eq_iff}
use poctamat_back.Common.{
  ℕ, suc, ◌≤◌, ◌≡◌, refl, sym, subst, ◌∙◌, Bool, true, false, Option, none, some, List, [], ◌∷◌,
  first, count_if, Has, some_injective, Has-count_if, arith, Bool-cases, ◌≢◌, inl, inr,
}
use poctamat_back.Settings.{Settings}
use poctamat_back.Booking.{CodePurpose, deposit, pickup, AccessCode, Booking}
use poctamat_back.Booking.Codes.{same_purpose, code_matches, code_expiry, replace_code, issue_code}

abbrev pub is_for : CodePurpose → AccessCode → Bool
is_for purpose c = same_purpose c.purpose purpose

-- The grant of a purpose.
abbrev pub grant : CodePurpose → List AccessCode → Option AccessCode
grant purpose = first (is_for purpose)

-- A usable grant with this digest and this end.
pub record IsFresh (digest : String) (until : ℕ) (c : AccessCode) : Type 0 where
  pub keyed : c.code_hash ≡ digest
  pub untried : c.attempts ≡ 0
  pub unused : c.used_at ≡ none
  pub ends : c.expires_at ≡ some until

-- At most one grant for each purpose.
abbrev pub IsSingle : List AccessCode → Type 0
IsSingle codes = (purpose : CodePurpose) → count_if (is_for purpose) codes ≤ 1

same_purpose_refl : (p : CodePurpose) → same_purpose p p ≡ true
same_purpose_refl deposit = refl
same_purpose_refl pickup = refl

same_purpose-eq : (p q : CodePurpose) → same_purpose p q ≡ true → p ≡ q
same_purpose-eq p q e = ground arith

module _ (id : ℕ) (p : CodePurpose) (digest : String) (until : ℕ) where
  -- The grant that `issue_code` leaves behind, from the one that it finds.
  abbrev renewed : Option AccessCode → AccessCode
  renewed none = record {
    booking_id = id;
    purpose = p;
    code_hash = digest;
    attempts = 0;
    expires_at = some until;
    used_at = none;
  }
  renewed (some c) = record c {
    code_hash = digest;
    attempts = 0;
    used_at = none;
    expires_at = some until;
  }

  renewed-IsFresh : (o : Option AccessCode) → IsFresh digest until (renewed o)
  renewed-IsFresh none = ground arith
  renewed-IsFresh (some c) = ground arith

  grant-replace_code :
      (codes : List AccessCode)
      → grant p (replace_code id p digest until codes) ≡ some (renewed (grant p codes))
  unfolding replace_code
  grant-replace_code [] = ground (arith, same_purpose_refl p)
  grant-replace_code (x ∷ codes) = ground (arith, grant-replace_code codes)

  grant-replace_code_other :
      (q : CodePurpose) (codes : List AccessCode)
      → same_purpose p q ≡ false
      → grant q (replace_code id p digest until codes) ≡ grant q codes
  unfolding replace_code
  grant-replace_code_other q [] ne = rw ne
  grant-replace_code_other q (x ∷ codes) ne = elim (Bool-cases (same_purpose x.purpose p)) [
    | inl hit ↦ rw (hit, same_purpose-eq x.purpose p hit, ne)
    | inr miss ↦ rw miss (ground (arith, grant-replace_code_other q codes ne))
  ]

  count-replace_code_other :
      (q : CodePurpose) (codes : List AccessCode)
      → same_purpose p q ≡ false
      → count_if (is_for q) (replace_code id p digest until codes) ≡ count_if (is_for q) codes
  unfolding replace_code
  count-replace_code_other q [] ne = rw ne
  count-replace_code_other q (x ∷ codes) ne = elim (Bool-cases (same_purpose x.purpose p)) [
    | inl hit ↦ rw hit
    | inr miss ↦ rw miss (ground (arith, count-replace_code_other q codes ne))
  ]

  count-replace_code :
      (codes : List AccessCode)
      → count_if (is_for p) codes ≤ 1
      → count_if (is_for p) (replace_code id p digest until codes) ≤ 1
  unfolding replace_code
  count-replace_code [] h = ground arith
  count-replace_code (x ∷ codes) h = elim (Bool-cases (same_purpose x.purpose p)) [
    | inl hit ↦ rw (hit, hit) (rw hit at h)
    | inr miss ↦ rw (miss, miss) (count-replace_code codes (rw miss at h))
  ]

  replace_code-IsSingle :
      (codes : List AccessCode) → IsSingle codes → IsSingle (replace_code id p digest until codes)
  replace_code-IsSingle codes h q = elim (Bool-cases (same_purpose p q)) [
    | inl same ↦
        subst (λ r. count_if (is_for r) (replace_code id p digest until codes) ≤ 1)
          (same_purpose-eq p q same) (count-replace_code codes (h p))
    | inr other ↦ rw (count-replace_code_other q codes other) (h q)
  ]

-- If the booking has at most one grant for each purpose, issuing a code for a purpose leaves one
-- fresh grant for it, keyed by that code and ending at `code_expiry`; another purpose's grant is
-- untouched, and no purpose gets a second.
pub issue_code_lem :
    (hash_pin : String → String) (s : Settings) (b : Booking) (p q : CodePurpose) (code : String)
    (now : ℕ)
    → IsSingle b.codes
    → let codes = (issue_code hash_pin s b p code now).codes in
      ((c : AccessCode) × (grant p codes ≡ some c)
        × IsFresh (hash_pin code) (code_expiry s b p now) c)
      × (p ≢ q → grant q codes ≡ grant q b.codes)
      × IsSingle codes
unfolding issue_code
issue_code_lem hash_pin s b p q code now h =
    let digest = hash_pin code in
    let until = code_expiry s b p now in
    (
      (
        renewed b.id p digest until (grant p b.codes),
        grant-replace_code b.id p digest until b.codes,
        renewed-IsFresh b.id p digest until (grant p b.codes),
      ),
      λ ne.
          grant-replace_code_other b.id p digest until q b.codes
            (ground (arith, same_purpose-eq p q)),
      replace_code-IsSingle b.id p digest until b.codes h,
    )

-- With one grant for the purpose, that grant is the only one.
grant_unique :
    (p : CodePurpose) (codes : List AccessCode) (c x : AccessCode)
    → count_if (is_for p) codes ≤ 1
    → grant p codes ≡ some c
    → Has x codes
    → is_for p x ≡ true
    → x ≡ c
grant_unique p [] c x h e m f = absurd m
grant_unique p (y ∷ codes) c x h e (inl same) f =
    let hit : is_for p y ≡ true = subst (λ z. is_for p z ≡ true) same f in
    same ∙ some_injective (rw hit at e)
grant_unique p (y ∷ codes) c x h e (inr m) f = elim (Bool-cases (is_for p y)) [
  | inl hit ↦
      let crowded : suc (count_if (is_for p) codes) ≤ 1 = rw hit at h in
      absurd (omega (arith, Has-count_if (is_for p) x codes m f))
  | inr miss ↦ grant_unique p codes c x (rw miss at h) (rw miss at e) m f
]

other_digest :
    (digest other : String) (x : AccessCode)
    → x.code_hash ≡ digest
    → other ≢ digest
    → code_matches other x ≡ false
other_digest digest other x e ne = ground (arith, eq_iff x.code_hash other)

-- If the booking had at most one grant for each purpose, no grant of the purpose of a new code
-- matches a text with another digest.
pub issue_code-replaces :
    (hash_pin : String → String) (s : Settings) (b : Booking) (p : CodePurpose) (code old : String)
    (now : ℕ) (x : AccessCode)
    → IsSingle b.codes
    → Has x (issue_code hash_pin s b p code now).codes
    → is_for p x ≡ true
    → hash_pin old ≢ hash_pin code
    → code_matches (hash_pin old) x ≡ false
issue_code-replaces hash_pin s b p code old now x h m f ne =
    let ((c, found, fresh), _, single) = issue_code_lem hash_pin s b p p code now h in
    let same = grant_unique p _ c x (single p) found m f in
    other_digest (hash_pin code) (hash_pin old) x
      (subst (λ y. y.code_hash ≡ hash_pin code) (sym same) fresh.keyed) ne
