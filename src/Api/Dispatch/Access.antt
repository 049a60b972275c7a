-- ===== src/Api/Dispatch/Access.antt =====
-- Who gets through handleAPI.
use dflybot.Prelude.{
  true, Option, none, some, List, [], ◌∷◌, ◌≡◌, ◌≢◌, ◌⊎◌, arith, refl, inl, inr, Bool-cases,
  Option-cases, In, All,
}
use dflybot.Prelude.Bytes.{Bytes, ◌==◌, has_prefix}
use dflybot.Auth.{ClientConfig, Client, member, new_authenticator, authenticate}
use dflybot.Auth.Access.{authenticate_iff}
use dflybot.Api.Dispatch.{
  auth_public, auth_admin, Handler, api_index, health, status, ApiEndpoint, api_endpoints,
  ApiRequest, run, trim_slash, find_endpoint, Gate, bearer, token_of, authenticate_request,
  with_client, dispatch_endpoint, handle_api,
}

-- Public endpoints are the index and health, and status is for admins.
IsGuarded : ApiEndpoint → Type 0
IsGuarded ep =
    (ep.auth ≡ auth_public → (ep.handle ≡ api_index) ⊎ (ep.handle ≡ health))
    × (ep.handle ≡ status → ep.auth ≡ auth_admin)

api_endpoints-IsGuarded : All IsGuarded api_endpoints
unfolding IsGuarded
api_endpoints-IsGuarded = (
  ((λ e. inl refl), (λ e. cc)),
  (
    ((λ e. inr refl), (λ e. cc)),
    (
      ((λ e. cc), (λ e. refl)),
      (((λ e. cc), (λ e. cc)), (((λ e. cc), (λ e. cc)), (((λ e. cc), (λ e. cc)), tt))),
    ),
  ),
)

find_endpoint-All :
    (P : ApiEndpoint → Type 0) (path : Bytes) (eps : List ApiEndpoint) (ep : ApiEndpoint)
    → All P eps
    → find_endpoint path eps ≡ some ep
    → P ep
unfolding find_endpoint
find_endpoint-All P path [] ep h e = absurd (ground arith)
find_endpoint-All P path (x ∷ xs) ep (p, h) e = elim (Bool-cases (x.path == path)) [
  | inl b ↦ let q : x ≡ ep = ground arith in rw (← q) p
  | inr b ↦ find_endpoint-All P path xs ep h (ground arith)
]

module _ (g : Gate) where
  -- The client of an endpoint that wants a token.
  abbrev IsClient : ApiRequest → ApiEndpoint → Client → Type 0
  IsClient r ep c = (authenticate_request g r ≡ some c) × (ep.auth ≡ auth_admin → c.is_admin ≡ true)

  abbrev IsServed : ApiRequest → ApiEndpoint → Option Client → Type 0
  IsServed r ep none = ep.auth ≡ auth_public
  IsServed r ep (some c) = IsClient r ep c

  dispatch_endpoint-IsServed :
      (r : ApiRequest) (ep : ApiEndpoint) (h : Handler) (o : Option Client)
      → dispatch_endpoint g r ep ≡ run h o
      → (ep.handle ≡ h) × IsServed r ep o
  unfolding dispatch_endpoint with_client
  dispatch_endpoint-IsServed r ep h none e = (ground arith, ground arith)
  dispatch_endpoint-IsServed r ep h (some c) e = (ground arith, (ground arith, λ a. ground arith))

  -- What a request that runs the handler `h` has shown.
  pub IsGranted : ApiRequest → Handler → Option Client → Type 0
  IsGranted r h none = (h ≡ api_index) ⊎ (h ≡ health)
  IsGranted r h (some c) =
      (has_prefix r.authorization bearer ≡ true)
      × (token_of g r ≢ [])
      × In c g.clients
      × (member (g.sum256 (token_of g r)) c.digests ≡ true)
      × (h ≡ status → c.is_admin ≡ true)

  served-IsGranted :
      (cfgs : List ClientConfig) (r : ApiRequest) (ep : ApiEndpoint) (o : Option Client)
      → new_authenticator g.sum256 cfgs ≡ some g.clients
      → IsGuarded ep
      → IsServed r ep o
      → IsGranted r ep.handle o
  unfolding IsGranted IsGuarded authenticate_request
  served-IsGranted cfgs r ep none k d s = d.0 s
  served-IsGranted cfgs r ep (some c) k d (a, admin) =
      elim (Bool-cases (has_prefix r.authorization bearer)) [
        | inr b ↦ absurd (ground arith)
        | inl b ↦
            let e : authenticate g.sum256 g.clients (token_of g r) ≡ some c = ground arith in
            let (t, i, m) = (authenticate_iff g.sum256 cfgs g.clients (token_of g r) c k).0 e in
            (b, t, i, m, λ z. admin (d.1 z))
      ]

  -- A request that reaches a handler of the API without a client reaches the index or health. One
  -- that reaches a handler as a client has sent a bearer token that is not blank and whose digest
  -- is one of that client's, who is configured; and only an admin reaches status.
  pub handle_api-IsGranted :
      (cfgs : List ClientConfig) (r : ApiRequest) (h : Handler) (o : Option Client)
      → new_authenticator g.sum256 cfgs ≡ some g.clients
      → handle_api g r ≡ run h o
      → IsGranted r h o
  unfolding handle_api
  handle_api-IsGranted cfgs r h o k e =
      elim (Option-cases (find_endpoint (trim_slash r.path) api_endpoints)) [
        | inl f ↦ absurd (ground arith)
        | inr (ep, f) ↦
            let d =
              find_endpoint-All IsGuarded (trim_slash r.path) api_endpoints ep
                api_endpoints-IsGuarded f in
            let (q, s) = dispatch_endpoint-IsServed r ep h o (ground arith) in
            rw (← q) (served-IsGranted cfgs r ep o k d s)
      ]
