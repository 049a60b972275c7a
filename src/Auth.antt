-- ===== src/Auth.antt =====
-- urlshort/auth.go: bearer-token authentication and namespace authorization.
pub mod Access
mod Tests
use dflybot.Prelude.{Bool, true, false, Option, none, some, List, [], ◌∷◌, ◌++◌, if◌then◌else◌}
use mathlib.Core.List.{map}
use dflybot.Prelude.Bytes.{Bytes, ◌==◌, has_prefix, lit}

-- A [clients] entry of urlshort/config.go, with the fields that authentication reads.
pub record ClientConfig : Type 0 where
  pub name : Bytes
  pub enabled : Bool
  pub admin : Bool
  pub namespaces : List Bytes
  pub tokens : List Bytes

pub record Client : Type 0 where
  pub name : Bytes
  pub is_admin : Bool
  pub namespaces : List Bytes
  pub digests : List Bytes

-- The keys that CanAccess compares with a namespace: a loop with an early return.
unfoldable pub in_namespaces : Bytes → List Bytes → Bool
in_namespaces key [] = false
in_namespaces key (ns ∷ rest) = if has_prefix key ns then true else in_namespaces key rest

unfoldable pub can_access : Client → Bytes → Bool
unfolding in_namespaces
can_access c key = if c.is_admin then true else in_namespaces key c.namespaces

unfoldable pub first_namespace : Client → Bytes
first_namespace c = elim c.namespaces [ [] ↦ if c.is_admin then lit "/" else [] | ns ∷ rest ↦ ns ]

-- The digests that the map `seen` of NewAuthenticator holds, as a list.
unfoldable pub member : Bytes → List Bytes → Bool
member d [] = false
member d (e ∷ rest) = if e == d then true else member d rest

-- The inner loop of NewAuthenticator: `none` is the error "shares a token".
unfoldable pub add_digests : List Bytes → List Bytes → Option (List Bytes)
add_digests [] seen = some seen
add_digests (d ∷ ds) seen =
    let rest = add_digests ds (d ∷ seen) in if member d seen then none else rest

-- subtle.ConstantTimeCompare(a, b) == 1 is equality. The last match stays.
unfoldable pub match_digests : Client → Bytes → List Bytes → Option Client → Option Client
match_digests c presented [] matched = matched
match_digests c presented (d ∷ ds) matched =
    match_digests c presented ds (if presented == d then some c else matched)

unfoldable pub match_clients : Bytes → List Client → Option Client → Option Client
unfolding match_digests
match_clients presented [] matched = matched
match_clients presented (c ∷ cs) matched =
    match_clients presented cs (match_digests c presented c.digests matched)

-- sha256.Sum256 is a parameter: nothing here depends on what it computes.
module _ (sum256 : Bytes → Bytes) where
  unfoldable pub new_client : ClientConfig → Client
  new_client cfg = record {
    name = cfg.name;
    is_admin = cfg.admin;
    namespaces = cfg.namespaces;
    digests = map sum256 cfg.tokens;
  }

  -- The loop over the configured clients, with the digests seen so far.
  unfoldable pub build : List ClientConfig → List Bytes → Option (List Client)
  unfolding new_client
  build [] seen = some []
  build (cfg ∷ cfgs) seen = elim cfg.enabled [
    | false ↦ build cfgs seen
    | true ↦ elim (add_digests (new_client cfg).digests seen) [
      | none ↦ none
      | some seen' ↦ elim (build cfgs seen') [ none ↦ none | some cs ↦ some (new_client cfg ∷ cs) ]
    ]
  ]

  unfoldable pub new_authenticator : List ClientConfig → Option (List Client)
  unfolding build
  new_authenticator cfgs = build cfgs []

  unfoldable pub authenticate : List Client → Bytes → Option Client
  unfolding match_clients
  authenticate clients token =
      if token == [] then none else match_clients (sum256 token) clients none
