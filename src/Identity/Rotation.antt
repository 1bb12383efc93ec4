-- ===== src/Identity/Rotation.antt =====
-- A refresh token works once.
use Prim.Native.String.{String}
use text.Mathlib.TextPositions.{eq_refl}
use poctamat_back.Common.{
  ℕ, ◌+◌, ◌<◌, ◌≡◌, refl, ap, subst, ◌∙◌, inl, inr, true, false, Option, none, some, List, [], ◌∷◌,
  ◌++◌, first, Bool-cases, arith, ok, >>=-eq-ok, raise, ok_injective, is_ok, refresh_token_invalid,
}
use poctamat_back.Settings.{Settings, days}
use poctamat_back.Identity.{
  SubjectType, RefreshToken, Accounts, has_hash, is_unusable, usable_or_raise,
  assert_subject_usable, revoke_first, load_usable, issued, issue_token_pair, rotate_refresh_token,
}

is_revoked :
    (now revoked : ℕ) (subject : SubjectType) (t : RefreshToken)
    → is_unusable now subject (record t { revoked_at = some revoked }) ≡ true
is_revoked now revoked subject t = ground arith

-- After its row was revoked, a digest finds no usable row, whatever was added behind.
revoked-unusable :
    (digest : String) (revoked now : ℕ) (subject : SubjectType) (ts more : List RefreshToken)
    (t : RefreshToken)
    → first (has_hash digest) ts ≡ some t
    → usable_or_raise now subject (first (has_hash digest) (revoke_first digest revoked ts ++ more))
      ≡ raise refresh_token_invalid 401
unfolding revoke_first
revoked-unusable digest revoked now subject [] more t e = cc
revoked-unusable digest revoked now subject (x ∷ ts) more t e =
    elim (Bool-cases (has_hash digest x)) [
      | inl hit ↦ rw hit (rw hit (rw (is_revoked now revoked subject x) refl))
      | inr miss ↦
          rw miss (rw miss (revoked-unusable digest revoked now subject ts more t (rw miss at e)))
    ]

module _ (hash_token : String → String) where
  -- What a usable token is.
  pub load_usable-ok :
      (now : ℕ) (token : String) (subject : SubjectType) (accounts : Accounts) (t : RefreshToken)
      → load_usable hash_token now token subject accounts ≡ ok t
      → (first (has_hash (hash_token token)) accounts.tokens ≡ some t)
        × (is_unusable now subject t ≡ false)
  unfolding load_usable
  load_usable-ok now token subject accounts t e =
      go (first (has_hash (hash_token token)) accounts.tokens) refl e
    where
      go :
          (found : Option RefreshToken)
          → first (has_hash (hash_token token)) accounts.tokens ≡ found
          → usable_or_raise now subject found ≡ ok t
          → (first (has_hash (hash_token token)) accounts.tokens ≡ some t)
            × (is_unusable now subject t ≡ false)
      go none f h = cc
      go (some x) f h = elim (Bool-cases (is_unusable now subject x)) [
        | inl bad ↦ absurd (ground (arith, rw bad at h))
        | inr good ↦
            let same = ok_injective (rw good at h) in
            (f ∙ ap some same, subst (λ y. is_unusable now subject y ≡ false) same good)
      ]

  -- A refresh token that was rotated is refused from then on with REFRESH_TOKEN_INVALID, at every
  -- clock and for every kind of subject.
  pub rotate-once :
      (s : Settings) (now revoked later then_on : ℕ) (token fresh : String)
      (subject again : SubjectType) (accounts accounts' : Accounts)
      → rotate_refresh_token hash_token s now revoked later token fresh subject accounts
        ≡ ok accounts'
      → load_usable hash_token then_on token again accounts' ≡ raise refresh_token_invalid 401
  unfolding rotate_refresh_token issue_token_pair load_usable
  rotate-once s now revoked later then_on token fresh subject again accounts accounts' e =
      let (t, loaded, rest) = >>=-eq-ok (load_usable hash_token now token subject accounts) _ e in
      let (_, _, done) =
        >>=-eq-ok (assert_subject_usable t.subject_type t.subject_id accounts) _ rest in
      subst
        (λ (a : Accounts).
          usable_or_raise then_on again (first (has_hash (hash_token token)) a.tokens)
          ≡ raise refresh_token_invalid 401)
        (ok_injective done)
        (revoked-unusable (hash_token token) revoked then_on again accounts.tokens _ t
          (load_usable-ok now token subject accounts t loaded).0)

  first-append :
      (digest : String) (ts : List RefreshToken) (t : RefreshToken)
      → first (has_hash digest) ts ≡ none
      → has_hash digest t ≡ true
      → first (has_hash digest) (ts ++ t ∷ []) ≡ some t
  first-append digest [] t e h = rw h refl
  first-append digest (x ∷ ts) t e h = elim (Bool-cases (has_hash digest x)) [
    | inl hit ↦ cc
    | inr miss ↦ rw miss (first-append digest ts t (rw miss at e) h)
  ]

  first-revoke_first :
      (digest other : String) (now : ℕ) (ts : List RefreshToken)
      → first (has_hash digest) ts ≡ none
      → first (has_hash digest) (revoke_first other now ts) ≡ none
  unfolding revoke_first
  first-revoke_first digest other now [] e = refl
  first-revoke_first digest other now (x ∷ ts) e = elim (Bool-cases (has_hash digest x)) [
    | inl hit ↦ cc
    | inr miss ↦ elim (Bool-cases (has_hash other x)) [
      | inl taken ↦ rw taken (rw miss (rw miss at e))
      | inr left ↦ rw left (rw miss (first-revoke_first digest other now ts (rw miss at e)))
    ]
  ]

  -- The fresh token of a rotation that succeeds is usable for the same kind of subject until its
  -- end, if no stored row has its digest.
  pub rotate-usable :
      (s : Settings) (now revoked later then_on : ℕ) (token fresh : String) (subject : SubjectType)
      (accounts accounts' : Accounts)
      → rotate_refresh_token hash_token s now revoked later token fresh subject accounts
        ≡ ok accounts'
      → first (has_hash (hash_token fresh)) accounts.tokens ≡ none
      → then_on < later + days s.refresh_token_ttl_days
      → is_ok (load_usable hash_token then_on fresh subject accounts') ≡ true
  unfolding rotate_refresh_token issue_token_pair load_usable
  rotate-usable s now revoked later then_on token fresh subject accounts accounts' e new alive =
      let (t, loaded, rest) = >>=-eq-ok (load_usable hash_token now token subject accounts) _ e in
      let (_, _, done) =
        >>=-eq-ok (assert_subject_usable t.subject_type t.subject_id accounts) _ rest in
      let found =
        first-append (hash_token fresh) (revoke_first (hash_token token) revoked accounts.tokens)
          (issued hash_token s later fresh t.subject_type t.subject_id)
          (first-revoke_first (hash_token fresh) (hash_token token) revoked accounts.tokens new)
          (eq_refl (hash_token fresh)) in
      subst
        (λ (a : Accounts).
          is_ok (usable_or_raise then_on subject (first (has_hash (hash_token fresh)) a.tokens))
          ≡ true)
        (ok_injective done)
        (rw found (ground (arith, (load_usable-ok now token subject accounts t loaded).1, alive)))
