-- ===== src/Api/Dispatch/Tests.antt =====
-- A request through handleAPI. SHA-256 and strings.TrimSpace stand as the identity.
use dflybot.Prelude.{true, false, some, [], ◌∷◌, ◌≡◌, refl}
use dflybot.Prelude.Bytes.{lit, ◌==◌, has_prefix}
use dflybot.Auth.{ClientConfig, Client, add_digests, member, new_authenticator, authenticate}
use dflybot.Api.Types.{forbidden_error}
use dflybot.Api.Dispatch.{
  ApiRequest, links, rejected, run, trim_slash, find_endpoint, require_method, Gate, unauthorized,
  authenticate_request, allow_api_ip, with_client, dispatch_endpoint, handle_api,
}
use dflybot.Api.Dispatch.Access.{IsGranted, handle_api-IsGranted}

program : Unit {0}
unfolding ◌==◌ has_prefix add_digests member new_authenticator authenticate trim_slash find_endpoint
    require_method authenticate_request allow_api_ip with_client dispatch_endpoint handle_api
program = tt

abbrev git : ClientConfig
git = record {
  name = lit "git";
  enabled = true;
  admin = false;
  namespaces = lit "/g/" ∷ [];
  tokens = lit "t1" ∷ [];
}

abbrev git_client : Client
git_client = record {
  name = lit "git";
  is_admin = false;
  namespaces = lit "/g/" ∷ [];
  digests = lit "t1" ∷ [];
}

abbrev gate : Gate
gate = record {
  sum256 = λ t. t;
  trim_space = λ t. t;
  clients = git_client ∷ [];
  ip_allows = λ k. true;
  client_allows = λ c. true;
}

abbrev request : ApiRequest
request = record {
  method = lit "POST";
  path = lit "/.api/v1/links/";
  authorization = lit "Bearer t1";
  rate_key = lit "10.0.0.1";
}

answers :
    (handle_api gate request ≡ run links (some git_client))
    × (handle_api gate (record request { authorization = lit "Bearer t2" }) ≡ rejected unauthorized)
    × (handle_api gate (record request { method = lit "GET"; path = lit "/.api/v1/status" })
        ≡ rejected forbidden_error)
unfolding program
answers = (refl, refl, refl)

handle_api-IsGranted_example : IsGranted gate request links (some git_client)
unfolding program
handle_api-IsGranted_example =
    handle_api-IsGranted gate (git ∷ []) request links (some git_client) refl refl
