-- ===== src/Api/Dispatch.antt =====
-- handleAPI, requireMethod and authenticate of urlshort/api.go: which handler a request reaches,
-- and with which client. Whether the two rate limiters let it pass is an argument.
pub mod Access
mod Tests
use dflybot.Prelude.{
  Bool, true, false, not, ◌&&◌, Option, none, some, List, [], ◌∷◌, ◌++◌, if◌then◌else◌, drop,
}
use dflybot.Prelude.Bytes.{Bytes, ◌==◌, has_prefix, lit}
use dflybot.Auth.{Client, authenticate}
use dflybot.Api.Types.{ApiError, forbidden_error}

pub data ApiAuth : Type 0 where
  auth_public auth_any auth_admin : ApiAuth

pub data Handler : Type 0 where
  api_index health status whoami links links_batch : Handler

pub record ApiEndpoint : Type 0 where
  pub methods : List Bytes
  pub path : Bytes
  pub auth : ApiAuth
  pub handle : Handler

abbrev api_base : Bytes
api_base = lit "/.api/v1"

abbrev pub api_endpoints : List ApiEndpoint
api_endpoints =
    record { methods = lit "GET" ∷ []; path = api_base; auth = auth_public; handle = api_index }
    ∷ record {
      methods = lit "GET" ∷ [];
      path = api_base ++ lit "/health";
      auth = auth_public;
      handle = health;
    }
    ∷ record {
      methods = lit "GET" ∷ [];
      path = api_base ++ lit "/status";
      auth = auth_admin;
      handle = status;
    }
    ∷ record {
      methods = lit "GET" ∷ [];
      path = api_base ++ lit "/whoami";
      auth = auth_any;
      handle = whoami;
    }
    ∷ record {
      methods = lit "GET" ∷ lit "POST" ∷ lit "PUT" ∷ lit "DELETE" ∷ [];
      path = api_base ++ lit "/links";
      auth = auth_any;
      handle = links;
    }
    ∷ record {
      methods = lit "POST" ∷ [];
      path = api_base ++ lit "/links/batch";
      auth = auth_any;
      handle = links_batch;
    }
    ∷ []

-- What handleAPI reads of a request. `rate_key` is rateKey(clientIPFrom(r)).
pub record ApiRequest : Type 0 where
  pub method : Bytes
  pub path : Bytes
  pub authorization : Bytes
  pub rate_key : Bytes

abbrev pub rate_limited : ApiError
rate_limited = record { status = 429; code = lit "rate_limited" }

abbrev pub unauthorized : ApiError
unauthorized = record { status = 401; code = lit "unauthorized" }

-- A request is answered with an error, or runs a handler. Public ones get no client.
pub data Dispatched : Type 0 where
  rejected : ApiError → Dispatched
  run : Handler → Option Client → Dispatched

-- strings.TrimSuffix(path, "/")
unfoldable pub trim_slash : Bytes → Bytes
trim_slash [] = []
trim_slash (c ∷ []) = if (c ∷ []) == lit "/" then [] else c ∷ []
trim_slash (c ∷ d ∷ s) = c ∷ trim_slash (d ∷ s)

unfoldable pub find_endpoint : Bytes → List ApiEndpoint → Option ApiEndpoint
find_endpoint path [] = none
find_endpoint path (ep ∷ eps) =
    let later = find_endpoint path eps in if ep.path == path then some ep else later

unfoldable pub require_method : Bytes → List Bytes → Bool
require_method method [] = false
require_method method (m ∷ ms) = if method == m then true else require_method method ms

-- What the server has besides the database: SHA-256, strings.TrimSpace, the clients, and the
-- answers of apiIPLimiter and apiLimiter to this request.
pub record Gate : Type 0 where
  pub sum256 : Bytes → Bytes
  pub trim_space : Bytes → Bytes
  pub clients : List Client
  pub ip_allows : Bytes → Bool
  pub client_allows : Bytes → Bool

abbrev pub bearer : Bytes
bearer = lit "Bearer "

abbrev pub is_admin_only : ApiAuth → Bool
is_admin_only auth_public = false
is_admin_only auth_any = false
is_admin_only auth_admin = true

module _ (g : Gate) where
  abbrev pub token_of : ApiRequest → Bytes
  token_of r = g.trim_space (drop 7 r.authorization)

  unfoldable pub authenticate_request : ApiRequest → Option Client
  authenticate_request r =
      if has_prefix r.authorization bearer
      then authenticate g.sum256 g.clients (token_of r)
      else none

  unfoldable pub allow_api_ip : ApiRequest → Bool
  allow_api_ip r = if r.rate_key == [] then false else g.ip_allows r.rate_key

  -- The end of handleAPI for an endpoint that wants a token.
  unfoldable pub with_client : ApiEndpoint → Client → Dispatched
  with_client ep c = elim ep.auth [
    | auth_admin ↦ if not c.is_admin then rejected forbidden_error else run ep.handle (some c)
    | auth_any ↦ if g.client_allows c.name then run ep.handle (some c) else rejected rate_limited
    | auth_public ↦ run ep.handle none
  ]

  unfoldable pub dispatch_endpoint : ApiRequest → ApiEndpoint → Dispatched
  unfolding authenticate_request with_client
  dispatch_endpoint r ep = elim ep.auth [
    | auth_public ↦ run ep.handle none
    | _ ↦ elim (authenticate_request r) [ none ↦ rejected unauthorized | some c ↦ with_client ep c ]
  ]

  unfoldable pub handle_api : ApiRequest → Dispatched
  unfolding allow_api_ip find_endpoint require_method trim_slash dispatch_endpoint
  handle_api r =
      if not (allow_api_ip r)
      then rejected rate_limited
      else elim (find_endpoint (trim_slash r.path) api_endpoints) [
        | none ↦ rejected (record { status = 404; code = lit "not_found" })
        | some ep ↦
            if not (require_method r.method ep.methods)
            then rejected (record { status = 405; code = lit "method_not_allowed" })
            else dispatch_endpoint r ep
      ]
