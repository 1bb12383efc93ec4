-- ===== src/Staff/Users/Self.antt =====
-- Nobody takes their own access away.
use Prim.Native.String.{String}
use package.text.Mathlib.Text.{◌==◌ as str_eq}
use poctamat_back.Common.{
  ℕ, ◌≡◌, refl, sym, ap, ◌∙◌, subst, inl, inr, Bool, true, false, not, ◌&&◌, Option, none, some,
  List, Bool-cases, some_injective, get, put, get-put, get-put_ne, get-Has, is_ok, arith, ok,
  or_raise, or_raise-ok, raise_if-ok, >>=-eq-ok, ok_injective, not_found, admin_account_blocked,
  internal_error, ◌==◌, ==_iff, ==_false,
}
use poctamat_back.Identity.{AdminUser}
use poctamat_back.Staff.{
  Role, Office, TokenClaims, admin_key, role_key, has_text, require_admin, require_permission,
}
use poctamat_back.Staff.Users.{
  AdminUserPatch, switches_off, changes_role, locking_out, check_role, set_column, update_user,
  update_user_route,
}

-- What lets an account in.
record IsAdmitted (code : String) (claims : TokenClaims) (office : Office) (a : AdminUser)
    : Type 0 where
  staff : str_eq claims.typ "admin" ≡ true
  stored : get admin_key claims.sub office.accounts.admins ≡ some a
  active : a.is_active ≡ true
  role : Role
  in_role : get role_key a.role_id office.roles ≡ some role
  permitted : has_text code role.permissions ≡ true

require_permission-IsAdmitted :
    (code : String) (claims : TokenClaims) (office : Office) (a : AdminUser)
    → require_permission code claims office ≡ ok a
    → IsAdmitted code claims office a
unfolding require_permission require_admin
require_permission-IsAdmitted code claims office a e =
    let (a₁, admitted, e₁) = >>=-eq-ok (require_admin claims office.accounts.admins) _ e in
    let (typ, f₁) = raise_if-ok (not (str_eq claims.typ "admin")) _ _ _ admitted in
    let (a₂, found, f₂) =
      >>=-eq-ok
        (or_raise (get admin_key claims.sub office.accounts.admins) admin_account_blocked 403) _
        f₁ in
    let (active, f₃) = raise_if-ok (not a₂.is_active) _ _ _ f₂ in
    let (role, in_role, e₂) =
      >>=-eq-ok (or_raise (get role_key a₁.role_id office.roles) internal_error 500) _ e₁ in
    let (permitted, e₃) = raise_if-ok (not (has_text code role.permissions)) _ _ _ e₂ in
    let same : a₁ ≡ a = ok_injective e₃ in
    let same₂ : a₂ ≡ a = ok_injective f₃ ∙ same in
    record {
      staff = ground (arith, typ);
      stored = or_raise-ok _ _ _ found ∙ ap some same₂;
      active = subst (λ (y : AdminUser). y.is_active ≡ true) same₂ (ground (arith, active));
      role = role;
      in_role =
          subst (λ (y : AdminUser). get role_key y.role_id office.roles ≡ some role) same
            (or_raise-ok _ _ _ in_role);
      permitted = ground (arith, permitted);
    }

IsAdmitted-require_permission :
    (code : String) (claims : TokenClaims) (office : Office) (a : AdminUser)
    → IsAdmitted code claims office a
    → require_permission code claims office ≡ ok a
unfolding require_permission require_admin
IsAdmitted-require_permission code claims office a h =
    rw (h.staff, h.stored) (rw h.active (rw h.in_role (rw h.permitted refl)))

still_active :
    (o : Option (Option Bool)) (old new : Bool)
    → set_column o old ≡ ok new
    → switches_off o ≡ false
    → old ≡ true
    → new ≡ true
still_active none old new e off h = sym (ok_injective e) ∙ h
still_active (some none) old new e off h = cc
still_active (some (some x)) old new e off h = sym (ok_injective e) ∙ ground (arith, off)

same_role :
    (o : Option (Option ℕ)) (old new : ℕ)
    → set_column o old ≡ ok new
    → changes_role o old ≡ false
    → new ≡ old
same_role none old new e h = sym (ok_injective e)
same_role (some none) old new e h = cc
same_role (some (some x)) old new e h = sym (ok_injective e) ∙ ground (arith, h)

-- What an update of one's own account leaves.
update_user_self :
    (p : AdminUserPatch) (user user' actor : AdminUser) (roles : List Role)
    → update_user p user actor roles ≡ ok user'
    → (user'.id ≡ user.id)
      × (user.id ≡ actor.id
          → user.is_active ≡ true
          → (user'.is_active ≡ true) × (user'.role_id ≡ user.role_id))
unfolding update_user
update_user_self p user user' actor roles e =
    let (kept, e₁) = raise_if-ok (user.id == actor.id && locking_out p user) _ _ _ e in
    let (_, _, e₂) = >>=-eq-ok (check_role p.role_id roles) _ e₁ in
    let (full_name, _, e₃) = >>=-eq-ok (set_column p.full_name user.full_name) _ e₂ in
    let (role_id, roled, e₄) = >>=-eq-ok (set_column p.role_id user.role_id) _ e₃ in
    let (is_active, set, e₅) = >>=-eq-ok (set_column p.is_active user.is_active) _ e₄ in
    let same = ok_injective e₅ in
    (
      sym (ap (λ (y : AdminUser). y.id) same),
      λ own active.
          let mine = (==_iff user.id actor.id).1 own in
          (
            sym (ap (λ (y : AdminUser). y.is_active) same)
                ∙ still_active p.is_active user.is_active is_active set (ground (arith, mine, kept))
                    active,
            sym (ap (λ (y : AdminUser). y.role_id) same)
                ∙ same_role p.role_id user.role_id role_id roled (ground (arith, mine, kept)),
          ),
    )

get-put-put :
    (k : ℕ) (new : AdminUser) (rows : List AdminUser) (old : AdminUser)
    → get admin_key k rows ≡ some old
    → k ≡ new.id
    → get admin_key k (put admin_key new rows) ≡ some new
get-put-put k new rows old e same =
    subst (λ j. get admin_key j (put admin_key new rows) ≡ some new) (sym same)
      (get-put admin_key new old rows (subst (λ j. get admin_key j rows ≡ some old) same e))

-- An account that has a permission has it still after any update of an account that it makes
-- through the route, of its own or of another one.
pub update_user_route-keeps_access :
    (user_id : ℕ) (code : String) (claims : TokenClaims) (p : AdminUserPatch)
    (office office' : Office) (user actor : AdminUser)
    → require_permission code claims office ≡ ok actor
    → update_user_route user_id claims p office ≡ ok (office', user)
    → is_ok (require_permission code claims office') ≡ true
unfolding update_user_route
update_user_route-keeps_access user_id code claims p office office' user actor may e =
    let mine = require_permission-IsAdmitted code claims office actor may in
    let (actor₁, may₁, e₁) = >>=-eq-ok (require_permission "users.write" claims office) _ e in
    let me = require_permission-IsAdmitted "users.write" claims office actor₁ may₁ in
    let same_actor : actor ≡ actor₁ = some_injective (sym mine.stored ∙ me.stored) in
    let (old, found, e₂) =
      >>=-eq-ok (or_raise (get admin_key user_id office.accounts.admins) not_found 404) _ e₁ in
    let (user₁, updated, e₃) = >>=-eq-ok (update_user p old actor₁ office.roles) _ e₂ in
    let stored = or_raise-ok _ _ _ found in
    let (same_id, own) = update_user_self p old user₁ actor₁ office.roles updated in
    let after = ap (λ (r : Office × AdminUser). r.0) (ok_injective e₃) in
    let named = (get-Has admin_key user_id old office.accounts.admins stored).1 in
    let my_id = (get-Has admin_key claims.sub actor office.accounts.admins mine.stored).1 in
    subst (λ (o : Office). is_ok (require_permission code claims o) ≡ true) after
      (elim (Bool-cases (claims.sub == user₁.id)) [
        | inl own_account ↦
            let itself = (==_iff claims.sub user₁.id).0 own_account in
            let target : user_id ≡ claims.sub = sym named ∙ (sym same_id ∙ sym itself) in
            let am : old ≡ actor = some_injective (
              sym stored
              ∙ (ap (λ k. get admin_key k office.accounts.admins) target ∙ mine.stored)) in
            let (active, roled) =
              own (ap (λ (y : AdminUser). y.id) (am ∙ same_actor))
                (subst (λ (y : AdminUser). y.is_active ≡ true) (sym am) mine.active) in
            ap is_ok (
              IsAdmitted-require_permission code claims _ user₁ (record {
                staff = mine.staff;
                stored =
                    get-put-put claims.sub user₁ office.accounts.admins actor mine.stored itself;
                active = active;
                role = mine.role;
                in_role =
                    ap (λ k. get role_key k office.roles)
                      (roled ∙ ap (λ (y : AdminUser). y.role_id) am)
                    ∙ mine.in_role;
                permitted = mine.permitted;
              }))
        | inr other ↦ ap is_ok (
            IsAdmitted-require_permission code claims _ actor (record {
              staff = mine.staff;
              stored =
                  get-put_ne admin_key claims.sub user₁ office.accounts.admins
                    (==_false claims.sub user₁.id other)
                  ∙ mine.stored;
              active = mine.active;
              role = mine.role;
              in_role = mine.in_role;
              permitted = mine.permitted;
            }))
      ])
