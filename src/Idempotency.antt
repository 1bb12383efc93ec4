-- ===== src/Idempotency.antt =====
-- backend/app/core/idempotency.py: whose key it is, and the middleware that answers a repeated POST
-- with its first response. `call_next` is the application behind the middleware on a state of its
-- own, `decode` what decode_token makes of a bearer token (none if it raises), `sha256` the digest of
-- a body, and `rendered` what a JSONResponse sends for `json.loads` of a body (none if that raises).
pub mod Repeat
use Prim.Native.String.{String, ◌++◌ as append}
use package.text.Mathlib.Text.{◌==◌ as str_eq}
use poctamat_back.Common.{
  ℕ, Bool, true, false, not, ◌&&◌, Option, none, some, List, [], ◌∷◌, ◌++◌, first, leb,
  if◌then◌else◌, Result, ok, raise, idempotency_key_reused, internal_error,
}

pub record Claims : Type 0 where
  pub sub : Option String
  pub typ : Option String

-- What the middleware reads of a request: `bearer` is the text behind "Bearer ", if the header has it.
pub record Request : Type 0 where
  pub method : String
  pub path : String
  pub key : Option String
  pub body : String
  pub subject_id : Option String
  pub bearer : Option String
  pub host : Option String

pub record Response : Type 0 where
  pub status_code : ℕ
  pub body : String

pub record IdempotencyRecord : Type 0 where
  pub owner : String
  pub key : String
  pub scope : String
  pub request_hash : String
  pub status_code : ℕ
  pub response_body : String

-- The truth of an optional text.
abbrev pub given : Option String → Option String
given none = none
given (some t) = if str_eq t "" then none else some t

abbrev pub get_or : Option String → String → String
get_or none d = d
get_or (some t) d = t

abbrev pub subject_of_claims : Option Claims → Option String
subject_of_claims none = none
subject_of_claims (some c) = elim (given c.sub) [
  | none ↦ none
  | some id ↦ some (append (get_or c.typ "subject") (append ":" id))
]

abbrev pub decoded : (String → Option Claims) → Option String → Option Claims
decoded decode none = none
decoded decode (some token) = decode token

abbrev pub ip_or_anonymous : Option String → String
ip_or_anonymous none = "anonymous"
ip_or_anonymous (some host) = append "ip:" host

abbrev pub from_token : Option String → Option String → String
from_token none host = ip_or_anonymous host
from_token (some owner) host = owner

abbrev pub from_state : Option String → Option String → Option String → String
from_state none token host = from_token token host
from_state (some id) token host = append "subject:" id

-- `_owner`, with `_subject_from_token`.
unfoldable pub owner_of : (String → Option Claims) → Request → String
owner_of decode r =
    from_state (given r.subject_id) (subject_of_claims (decoded decode r.bearer)) r.host

abbrev pub scope_of : Request → String
scope_of r = append r.method (append " " r.path)

abbrev pub is_filed : String → String → String → IdempotencyRecord → Bool
is_filed owner key scope e = str_eq e.owner owner && (str_eq e.key key && str_eq e.scope scope)

-- The key of a request that the middleware looks at.
abbrev pub key_of : Request → Option String
key_of r = if str_eq r.method "POST" then given r.key else none

pub record State (S : Type 0) : Type 0 where
  pub app : S
  pub records : List IdempotencyRecord

module _ {S : Type 0} (call_next : Request → S → S × Response) (decode : String → Option Claims)
    (sha256 : String → String) (rendered : String → Option String) where
  abbrev pub json_response : ℕ → Option String → Result Response
  json_response status_code none = raise internal_error 500
  json_response status_code (some body) = ok (record { status_code = status_code; body = body })

  abbrev pub new_record : String → Request → Response → IdempotencyRecord
  new_record key r response = record {
    owner = owner_of decode r;
    key = key;
    scope = scope_of r;
    request_hash = sha256 r.body;
    status_code = response.status_code;
    response_body = response.body;
  }

  -- After the handler: a server error is passed on, any other response is stored and rendered.
  abbrev pub memoize :
      String → Request → List IdempotencyRecord → S × Response → State S × Result Response
  memoize key r records (app, response) =
      if leb 500 response.status_code
      then (record { app = app; records = records }, ok response)
      else (
        record { app = app; records = records ++ new_record key r response ∷ [] },
        json_response response.status_code (rendered response.body),
      )

  abbrev pub answer_existing : Request → State S → IdempotencyRecord → State S × Result Response
  answer_existing r st e =
      if str_eq e.request_hash (sha256 r.body)
      then (st, json_response e.status_code (rendered e.response_body))
      else (st, raise idempotency_key_reused 409)

  abbrev pub with_key :
      String → Request → State S → Option IdempotencyRecord → State S × Result Response
  with_key key r st none = memoize key r st.records (call_next r st.app)
  with_key key r st (some e) = answer_existing r st e

  abbrev pub pass_on : List IdempotencyRecord → S × Response → State S × Result Response
  pass_on records (app, response) = (record { app = app; records = records }, ok response)

  abbrev pub by_key : Request → State S → Option String → State S × Result Response
  by_key r st none = pass_on st.records (call_next r st.app)
  by_key r st (some key) =
      with_key key r st (first (is_filed (owner_of decode r) key (scope_of r)) st.records)

  -- `IdempotencyMiddleware.dispatch`.
  unfoldable pub dispatch : Request → State S → State S × Result Response
  dispatch r st = by_key r st (key_of r)
