-- ===== src/Api/Types.antt =====
-- The server, the errors and the responses of urlshort/api.go. Message texts are not modelled.
use dflybot.Prelude.{ℕ, Bool, Option, none, some, List}
use dflybot.Prelude.Bytes.{Bytes, lit}
use dflybot.Store.Error.{Error, not_found, conflict, forbidden}
use dflybot.Store.Link.{Link, Buckets, Db}
use dflybot.Rules.Match.{Rule}
use dflybot.Api.Target.{UrlLib}

-- What the handlers read of the server. `short_url` is base.JoinPath(key).String().
pub record Server : Type 0 where
  pub rules : List Rule
  pub urls : UrlLib
  pub short_url : Bytes → Bytes

pub record ApiError : Type 0 where
  pub status : ℕ
  pub code : Bytes

abbrev pub bad_request : ApiError
bad_request = record { status = 400; code = lit "bad_request" }

abbrev pub forbidden_error : ApiError
forbidden_error = record { status = 403; code = lit "forbidden" }

abbrev pub internal_error : ApiError
internal_error = record { status = 500; code = lit "internal" }

pub record LinkView : Type 0 where
  pub key : Bytes
  pub short_url : Bytes
  pub target : Bytes
  pub rule : Bytes
  pub created_at : ℕ
  pub updated_at : ℕ

unfoldable pub link_view : Server → Link → LinkView
link_view s l = record {
  key = l.key;
  short_url = s.short_url l.key;
  target = l.target;
  rule = l.rule;
  created_at = l.created_at;
  updated_at = l.updated_at;
}

-- One item of a batch response.
pub record BatchResult : Type 0 where
  pub target : Bytes
  pub created : Bool
  pub link : Option LinkView
  pub error : Option Bytes

pub data Body : Type 0 where
  failure : Bytes → Body
  link : LinkView → Body
  created_link : LinkView → Bool → Body
  links : List LinkView → Bytes → Body
  batch : List BatchResult → Body
  nothing : Body

-- What the handler notes for the access log.
pub record Access : Type 0 where
  pub action : Bytes
  pub key : Bytes
  pub target : Bytes
  pub rule : Bytes

abbrev pub no_access : Access
no_access = record { action = lit ""; key = lit ""; target = lit ""; rule = lit "" }

-- A handler's response, its note for the access log, the error given to status.SetError, and the
-- database that it leaves.
pub record Outcome (B : Buckets) : Type 0 where
  pub status : ℕ
  pub body : Body
  pub access : Access
  pub set_error : Option Error
  pub db : Db B

-- writeAPIError
abbrev pub api_failure : {B : Buckets} → ApiError → Db B → Outcome B
api_failure e db = record {
  status = e.status;
  body = failure e.code;
  access = no_access;
  set_error = none;
  db = db;
}

-- apiErrorFromStore, and the error that it records.
unfoldable pub api_error_from_store : Error → ApiError
api_error_from_store forbidden = forbidden_error
api_error_from_store conflict = record { status = 409; code = lit "conflict" }
api_error_from_store not_found = record { status = 404; code = lit "not_found" }
api_error_from_store _ = internal_error

unfoldable pub recorded : Error → Option Error
recorded forbidden = none
recorded conflict = none
recorded not_found = none
recorded e = some e

-- storeError
unfoldable pub store_error : {B : Buckets} → Error → Db B → Outcome B
unfolding api_error_from_store recorded
store_error e db = record {
  status = (api_error_from_store e).status;
  body = failure (api_error_from_store e).code;
  access = no_access;
  set_error = recorded e;
  db = db;
}

-- decodeJSON on a request body: the value, or why there is none.
pub data Decoded (A : Type 0) : Type 0 where
  decoded : A → Decoded A
  too_large missing invalid trailing : Decoded A

unfoldable pub decode_error : {A : Type 0} → Decoded A → ApiError
decode_error too_large = record { status = 413; code = lit "payload_too_large" }
decode_error _ = bad_request
