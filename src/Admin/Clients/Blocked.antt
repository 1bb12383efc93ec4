-- ===== src/Admin/Clients/Blocked.antt =====
-- A client who is blocked is let in nowhere.
use Prim.Native.String.{String}
use package.text.Mathlib.Text.{◌==◌ as str_eq}
use poctamat_back.Common.{
  ℕ, ◌≡◌, ◌≢◌, refl, sym, ap, ◌∙◌, subst, inl, inr, Bool, true, false, not, some, List, first, get,
  put, get-put, get-Has, some_injective, arith, ok, or_raise, or_raise-ok, raise_if-ok, >>=-eq-ok,
  ok_injective, not_found, token_invalid, is_ok, err, Result, Bool-cases,
}
use poctamat_back.Settings.{Settings}
use poctamat_back.Identity.{
  Client, client, admin, SubjectType, RefreshToken, Accounts, same_subject, has_hash, load_usable,
  assert_subject_usable, is_blocked_client, rotate_refresh_token,
}
use poctamat_back.Identity.Rotation.{load_usable-ok}
use poctamat_back.Staff.{Office, TokenClaims, require_client}
use poctamat_back.Admin.Clients.{client_key, block_client}

-- The stored row is blocked.
IsBlocked-stored :
    (now : ℕ) (staff reason : String) (id : ℕ) (office office' : Office)
    → block_client now staff reason id office ≡ ok office'
    → (c : Client) × (get client_key id office'.accounts.clients ≡ some c) × (c.is_blocked ≡ true)
unfolding block_client
IsBlocked-stored now staff reason id office office' e =
    let (c, found, e₁) =
      >>=-eq-ok (or_raise (get client_key id office.accounts.clients) not_found 404) _ e in
    let held = or_raise-ok _ _ _ found in
    let named = (get-Has client_key id c office.accounts.clients held).1 in
    let after = ap (λ (o : Office). o.accounts.clients) (ok_injective e₁) in
    let blocked = record c {
      is_blocked = true;
      blocked_reason = some reason;
      blocked_at = some now;
    } in
    (
      blocked,
      subst (λ rows. get client_key id rows ≡ some blocked) after
          (subst
            (λ k. get client_key k (put client_key blocked office.accounts.clients) ≡ some blocked)
            named
            (get-put client_key blocked c office.accounts.clients
              (subst (λ k. get client_key k office.accounts.clients ≡ some c) (sym named) held))),
      refl,
    )

require_client-open :
    (claims : TokenClaims) (clients : List Client) (c : Client)
    → require_client claims clients ≡ ok c
    → (get client_key claims.sub clients ≡ some c) × (c.is_blocked ≡ false)
unfolding require_client
require_client-open claims clients c e =
    let (_, e₁) = raise_if-ok (not (str_eq claims.typ "client")) _ _ _ e in
    let (d, found, e₂) =
      >>=-eq-ok (or_raise (get client_key claims.sub clients) token_invalid 401) _ e₁ in
    let (free, e₃) = raise_if-ok d.is_blocked _ _ _ e₂ in
    let same = ok_injective e₃ in
    (or_raise-ok _ _ _ found ∙ ap some same, subst (λ (y : Client). y.is_blocked ≡ false) same free)

subject_open :
    (subject : SubjectType) (id : ℕ) (accounts : Accounts) {u : Unit {0}}
    → same_subject subject client ≡ true
    → assert_subject_usable subject id accounts ≡ ok u
    → is_blocked_client (get client_key id accounts.clients) ≡ false
unfolding assert_subject_usable
subject_open client id accounts h e =
    elim (Bool-cases (is_blocked_client (get client_key id accounts.clients))) [
      | inl shut ↦ let bad = rw shut at e in cc
      | inr free ↦ free
    ]
subject_open admin id accounts h e = cc

true-ne-false : (b : Bool) → b ≡ true → b ≡ false → ⊥
true-ne-false b h g = cc

not_ok : {A : Type 0} (r : Result A) → ((a : A) → r ≡ ok a → ⊥) → is_ok r ≡ false
not_ok (ok a) h = absurd (h a refl)
not_ok (err problem) h = refl

module _ (hash_token : String → String) (s : Settings) where
  block_client-shuts :
      (now : ℕ) (staff reason : String) (id : ℕ) (office office' : Office)
      → block_client now staff reason id office ≡ ok office'
      → ((claims : TokenClaims) (c : Client)
          → require_client claims office'.accounts.clients ≡ ok c
          → c.id ≢ id)
        × ((then_on revoked later : ℕ) (token fresh : String) (accounts : Accounts)
              (t : RefreshToken)
            → rotate_refresh_token hash_token s then_on revoked later token fresh client
                office'.accounts
              ≡ ok accounts
            → first (has_hash (hash_token token)) office'.accounts.tokens ≡ some t
            → t.subject_id ≢ id)
  unfolding rotate_refresh_token assert_subject_usable
  block_client-shuts now staff reason id office office' e =
      let (blocked, held, shut) = IsBlocked-stored now staff reason id office office' e in
      let clients = office'.accounts.clients in
      (
        λ claims c may own.
            let (found, free) = require_client-open claims clients c may in
            let named = (get-Has client_key claims.sub c clients found).1 in
            let same : blocked ≡ c =
              some_injective
                (sym held ∙ (ap (λ k. get client_key k clients) (sym own ∙ named) ∙ found)) in
            true-ne-false c.is_blocked (subst (λ (y : Client). y.is_blocked ≡ true) same shut) free,
        λ then_on revoked later token fresh accounts t rotated stored own.
            let (u, loaded, e₁) =
              >>=-eq-ok (load_usable hash_token then_on token client office'.accounts) _ rotated in
            let (seen, usable) =
              load_usable-ok hash_token then_on token client office'.accounts u loaded in
            let (_, allowed, _) =
              >>=-eq-ok (assert_subject_usable u.subject_type u.subject_id office'.accounts) _ e₁ in
            let free =
              subject_open u.subject_type u.subject_id office'.accounts (ground (arith, usable))
                allowed in
            let same : u ≡ t = some_injective (sym seen ∙ stored) in
            let whose : u.subject_id ≡ id = ap (λ (x : RefreshToken). x.subject_id) same ∙ own in
            true-ne-false (is_blocked_client (get client_key id clients)) (rw held shut)
              (rw whose at free),
      )

  -- After a client was blocked, a request with a token of that client is refused by
  -- `require_client`, and so is the exchange of any refresh token that is stored for the client, at
  -- every clock.
  pub block_client-locks_out :
      (now : ℕ) (staff reason : String) (id : ℕ) (office office' : Office) (claims : TokenClaims)
      (then_on revoked later : ℕ) (token fresh : String) (t : RefreshToken)
      → block_client now staff reason id office ≡ ok office'
      → claims.sub ≡ id
      → first (has_hash (hash_token token)) office'.accounts.tokens ≡ some t
      → t.subject_id ≡ id
      → (is_ok (require_client claims office'.accounts.clients) ≡ false)
        × (is_ok (
              rotate_refresh_token hash_token s then_on revoked later token fresh client
                office'.accounts)
            ≡ false)
  block_client-locks_out now staff reason id office office' claims then_on revoked later token fresh
        t e mine stored own =
      let (requests, refreshes) = block_client-shuts now staff reason id office office' e in
      let clients = office'.accounts.clients in
      (
        not_ok _ (λ c may.
            let found = (require_client-open claims clients c may).0 in
            requests claims c may ((get-Has client_key claims.sub c clients found).1 ∙ mine)),
        not_ok _ (λ accounts rotated.
            refreshes then_on revoked later token fresh accounts t rotated stored own),
      )
