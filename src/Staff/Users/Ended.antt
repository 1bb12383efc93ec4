-- ===== src/Staff/Users/Ended.antt =====
-- A reset ends every session of the account, and the temporary password has no end.
use Prim.Native.String.{String}
use poctamat_back.Common.{
  ℕ, ◌≡◌, ◌≢◌, refl, sym, ap, ◌∙◌, subst, inl, inr, Bool, true, false, some, List, [], ◌∷◌,
  Bool-cases, some_injective, first, get, put, get-Has, is_ok, ◌==◌, ==_false, map, arith, ok,
  or_raise, or_raise-ok, >>=-eq-ok, ok_injective, not_found,
}
use poctamat_back.Identity.{RefreshToken, Accounts, AdminUser, admin, is_unusable, load_usable}
use poctamat_back.Identity.Rotation.{load_usable-ok}
use poctamat_back.Settings.{Settings}
use poctamat_back.Staff.{Office, TokenClaims, admin_key, has_login, log_in, require_permission}
use poctamat_back.Staff.Users.{is_stale, end_session, reset_password, reset_password_route}

first-end_session :
    (p : RefreshToken → Bool) (user_id now : ℕ) (ts : List RefreshToken) (t : RefreshToken)
    → first p (map (end_session user_id now) ts) ≡ some t
    → (x : RefreshToken) × (end_session user_id now x ≡ t)
first-end_session p user_id now [] t e = cc
first-end_session p user_id now (x ∷ ts) t e = elim (Bool-cases (p (end_session user_id now x))) [
  | inl hit ↦ (x, some_injective (rw hit at e))
  | inr miss ↦ first-end_session p user_id now ts t (rw miss at e)
]

end_session-unusable :
    (user_id now then_on : ℕ) (x : RefreshToken)
    → is_unusable then_on admin (end_session user_id now x) ≡ false
    → (end_session user_id now x).subject_id ≢ user_id
end_session-unusable user_id now then_on x h same = elim (Bool-cases (is_stale user_id x)) [
  | inl stale ↦ let bad = rw stale at h in absurd (ground (arith, bad))
  | inr fresh ↦
      let usable = rw fresh at h in
      let mine = rw fresh at same in absurd (ground (arith, usable, mine, fresh))
]

module _ (hash_token hash_secret : String → String) where
  reset_password-ends :
      (now then_on : ℕ) (password token : String) (user : AdminUser) (accounts : Accounts)
      (t : RefreshToken)
      → load_usable hash_token then_on token admin
          (reset_password hash_secret now password user accounts).0
        ≡ ok t
      → t.subject_id ≢ user.id
  unfolding reset_password
  reset_password-ends now then_on password token user accounts t e =
      let (seen, usable) = load_usable-ok hash_token then_on token admin _ t e in
      let (x, same) = first-end_session _ user.id now accounts.tokens t seen in
      subst (λ (y : RefreshToken). y.subject_id ≢ user.id) same
        (end_session-unusable user.id now then_on x
          (subst (λ y. is_unusable then_on admin y ≡ false) (sym same) usable))

  -- After a reset of a password through the route, no refresh token of that account is usable, at
  -- any clock.
  pub reset_password_route-ends :
      (now then_on : ℕ) (password token : String) (user_id : ℕ) (claims : TokenClaims)
      (office office' : Office) (given : String) (expires_at : ℕ) (t : RefreshToken)
      → reset_password_route hash_secret now password user_id claims office
        ≡ ok (office', given, expires_at)
      → load_usable hash_token then_on token admin office'.accounts ≡ ok t
      → t.subject_id ≢ user_id
  unfolding reset_password_route
  reset_password_route-ends now then_on password token user_id claims office office' given
        expires_at t e h =
      let (actor, _, e₁) = >>=-eq-ok (require_permission "users.write" claims office) _ e in
      let (user, found, e₂) =
        >>=-eq-ok (or_raise (get admin_key user_id office.accounts.admins) not_found 404) _ e₁ in
      let stored = or_raise-ok _ _ _ found in
      let named = (get-Has admin_key user_id user office.accounts.admins stored).1 in
      let after = ap (λ (r : Office × String × ℕ). r.0) (ok_injective e₂) in
      subst (λ k. t.subject_id ≢ k) named
        (reset_password-ends now then_on password token user office.accounts t (
          subst (λ (o : Office). load_usable hash_token then_on token admin o.accounts ≡ ok t)
            (sym after) h))

first-holds : {A : Type 0} (p : A → Bool) (xs : List A) (x : A) → first p xs ≡ some x → p x ≡ true
first-holds p [] x e = cc
first-holds p (y ∷ ys) x e = elim (Bool-cases (p y)) [
  | inl hit ↦ subst (λ z. p z ≡ true) (some_injective (rw hit at e)) hit
  | inr miss ↦ first-holds p ys x (rw miss at e)
]

-- Writing back an account that keeps its id and its login leaves it the first with the login.
first-put :
    (login : String) (old new : AdminUser) (rows : List AdminUser)
    → first (has_login login) rows ≡ some old
    → get admin_key new.id rows ≡ some old
    → has_login login new ≡ true
    → first (has_login login) (put admin_key new rows) ≡ some new
first-put login old new [] e g h = cc
first-put login old new (x ∷ rows) e g h = elim (Bool-cases (x.id == new.id)) [
  | inl here ↦ rw here (rw h refl)
  | inr other ↦ rw other (elim (Bool-cases (has_login login x)) [
    | inl hit ↦
        let same = some_injective (rw hit at e) in
        absurd (
          ==_false x.id new.id other
            (ap admin_key same ∙ (get-Has admin_key new.id old (x ∷ rows) g).1))
    | inr miss ↦ rw miss (first-put login old new rows (rw miss at e) (rw other at g) h)
  ])
]

module _ (hash_token hash_secret : String → String) (verify_secret : String → String → Bool)
    (verifies : (t : String) → verify_secret t (hash_secret t) ≡ true) where
  -- If a digest verifies the password that it was made of, a temporary password lets its active
  -- account in at every later clock, provided that the account is stored under its id and is the
  -- first with its login.
  pub reset_password-lasts :
      (s : Settings) (now then_on then_at : ℕ) (password fresh : String) (user : AdminUser)
      (accounts : Accounts)
      → first (has_login user.login) accounts.admins ≡ some user
      → get admin_key user.id accounts.admins ≡ some user
      → user.is_active ≡ true
      → is_ok (
          log_in hash_token verify_secret s then_on then_at fresh user.login password
            (reset_password hash_secret now password user accounts).0)
        ≡ true
  unfolding reset_password log_in
  reset_password-lasts s now then_on then_at password fresh user accounts e g active =
      let new = record user { password_hash = hash_secret password; must_change_password = true } in
      let found =
        first-put user.login user new accounts.admins e g
          (first-holds (has_login user.login) accounts.admins user e) in
      rw found (rw (verifies password) (rw active refl))
