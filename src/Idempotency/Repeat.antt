-- ===== src/Idempotency/Repeat.antt =====
-- A repeated request is answered as it was the first time, and the application is not asked again.
use Prim.Native.String.{String}
use package.text.Mathlib.Text.{◌==◌ as str_eq}
use package.text.Mathlib.TextPositions.{eq_refl}
use poctamat_back.Common.{
  ◌≡◌, refl, sym, ap, ◌∙◌, inl, inr, Bool, true, false, Option, none, some, List, [], ◌∷◌, ◌++◌,
  first, leb, Bool-cases, if◌then◌else◌, Result, raise, idempotency_key_reused,
}
use poctamat_back.Idempotency.{
  Claims, Request, Response, IdempotencyRecord, owner_of, scope_of, is_filed, key_of, State,
  json_response, new_record, answer_existing, with_key, by_key, dispatch,
}

first-stays :
    {A : Type 0} (p : A → Bool) (xs more : List A) {x : A}
    → first p xs ≡ some x
    → first p (xs ++ more) ≡ some x
first-stays p [] more e = cc
first-stays p (y ∷ xs) more e = elim (Bool-cases (p y)) [
  | inl hit ↦ rw hit (rw hit at e)
  | inr miss ↦ rw miss (first-stays p xs more (rw miss at e))
]

first-new :
    {A : Type 0} (p : A → Bool) (xs : List A) (x : A)
    → first p xs ≡ none
    → p x ≡ true
    → first p (xs ++ x ∷ []) ≡ some x
first-new p [] x e h = rw h refl
first-new p (y ∷ xs) x e h = elim (Bool-cases (p y)) [
  | inl hit ↦ let bad : some y ≡ none = rw hit at e in cc
  | inr miss ↦ rw miss (first-new p xs x (rw miss at e) h)
]

module _ {S : Type 0} (call_next : Request → S → S × Response) (decode : String → Option Claims)
    (sha256 : String → String) (rendered : String → Option String) where
  -- The requests one after the other.
  pub serve_all : List Request → State S → State S
  serve_all [] st = st
  serve_all (r ∷ rs) st = serve_all rs (dispatch call_next decode sha256 rendered r st).0

  -- A request adds records behind those that are there.
  dispatch-keeps :
      (p : IdempotencyRecord → Bool) (r : Request) (st : State S) {e : IdempotencyRecord}
      → first p st.records ≡ some e
      → first p (dispatch call_next decode sha256 rendered r st).0.records ≡ some e
  unfolding dispatch
  dispatch-keeps p r st {e} found = go (key_of r)
    where
      stored :
          (key : String) (o : Option IdempotencyRecord)
          → first p (with_key call_next decode sha256 rendered key r st o).0.records ≡ some e
      stored key none = elim (Bool-cases (leb 500 (call_next r st.app).1.status_code)) [
        | inl failed ↦ rw failed found
        | inr done ↦ rw done (first-stays p st.records _ found)
      ]
      stored key (some x) = elim (Bool-cases (str_eq x.request_hash (sha256 r.body))) [
        | inl same ↦ rw same found
        | inr other ↦ rw other found
      ]

      go :
          (o : Option String)
          → first p (by_key call_next decode sha256 rendered r st o).0.records ≡ some e
      go none = found
      go (some key) = stored key (first (is_filed (owner_of decode r) key (scope_of r)) st.records)

  serve_all-keeps :
      (p : IdempotencyRecord → Bool) (rs : List Request) (st : State S) {e : IdempotencyRecord}
      → first p st.records ≡ some e
      → first p (serve_all rs st).records ≡ some e
  unfolding serve_all
  serve_all-keeps p [] st found = found
  serve_all-keeps p (r ∷ rs) st found =
      serve_all-keeps p rs (dispatch call_next decode sha256 rendered r st).0
        (dispatch-keeps p r st found)

  module _ (r : Request) (key : String) (st : State S) (keyed : key_of r ≡ some key)
      (new : first (is_filed (owner_of decode r) key (scope_of r)) st.records ≡ none)
      (served : leb 500 (call_next r st.app).1.status_code ≡ false) where
    abbrev file : IdempotencyRecord
    file = new_record call_next decode sha256 rendered key r (call_next r st.app).1

    first_answer : dispatch call_next decode sha256 rendered r st ≡ (
      record { app = (call_next r st.app).0; records = st.records ++ file ∷ [] },
      json_response call_next decode sha256 rendered file.status_code (rendered file.response_body),
    )
    unfolding dispatch
    first_answer = rw keyed (rw new (rw served refl))

    is_filed-file : is_filed (owner_of decode r) key (scope_of r) file ≡ true
    is_filed-file = rw (eq_refl (owner_of decode r)) (rw (eq_refl key) (eq_refl (scope_of r)))

    first_filed :
        first
          (is_filed (owner_of decode r) key (scope_of r))
          (dispatch call_next decode sha256 rendered r st).0.records
        ≡ some file
    first_filed = rw first_answer (
        first-new (is_filed (owner_of decode r) key (scope_of r)) st.records file new is_filed-file)

    answered_by :
        (again : Request) (later : State S) (e : IdempotencyRecord)
        → key_of again ≡ some key
        → first (is_filed (owner_of decode again) key (scope_of again)) later.records ≡ some e
        → dispatch call_next decode sha256 rendered again later
          ≡ answer_existing call_next decode sha256 rendered again later e
    unfolding dispatch
    answered_by again later e same_key found = rw same_key (rw found refl)

    -- If a keyed POST was new to the middleware and its response was no server error, then after
    -- any further requests a request with its owner, key and scope changes nothing: with a body of
    -- the same digest it is answered as the first was, and with another digest it is refused with
    -- IDEMPOTENCY_KEY_REUSED.
    pub dispatch-again :
        (again : Request) (rs : List Request)
        → key_of again ≡ some key
        → owner_of decode again ≡ owner_of decode r
        → scope_of again ≡ scope_of r
        → let first_time = dispatch call_next decode sha256 rendered r st in
          let later = serve_all rs first_time.0 in
          dispatch call_next decode sha256 rendered again later ≡ (
            later,
            if str_eq (sha256 r.body) (sha256 again.body)
                then first_time.1
                else raise idempotency_key_reused 409,
          )
    dispatch-again again rs same_key same_owner same_scope =
        let later = serve_all rs (dispatch call_next decode sha256 rendered r st).0 in
        let stored =
          serve_all-keeps (is_filed (owner_of decode r) key (scope_of r)) rs
            (dispatch call_next decode sha256 rendered r st).0 first_filed in
        let found : first (is_filed (owner_of decode again) key (scope_of again)) later.records
            ≡ some file =
          rw (same_owner, same_scope) stored in
        answered_by again later file same_key found
        ∙ elim (Bool-cases (str_eq (sha256 r.body) (sha256 again.body))) [
          | inl same ↦
              rw same (sym (ap (λ (x : State S × Result Response). (later, x.1)) first_answer))
          | inr other ↦ rw other refl
        ]
