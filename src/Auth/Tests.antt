-- ===== src/Auth/Tests.antt =====
-- Runs of authentication and authorization, and the theorems at concrete inputs. SHA-256 stands
-- as the identity.
use dflybot.Prelude.{true, false, none, some, [], ◌∷◌, ◌≡◌, ◌≢◌, ◌↔◌, refl, In}
use dflybot.Prelude.Bytes.{Bytes, lit, ◌==◌, ne_of_test}
use dflybot.Auth.{
  ClientConfig, Client, first_namespace, member, add_digests, new_authenticator, authenticate,
}
use dflybot.Auth.Access.{authenticate_iff}

abbrev id : Bytes → Bytes
id t = t

abbrev git : ClientConfig
git = record {
  name = lit "git";
  enabled = true;
  admin = false;
  namespaces = lit "/g/" ∷ lit "/h/" ∷ [];
  tokens = lit "t1" ∷ lit "t2" ∷ [];
}

abbrev web : ClientConfig
web = record {
  name = lit "web";
  enabled = true;
  admin = false;
  namespaces = lit "/w/" ∷ [];
  tokens = lit "t3" ∷ [];
}

abbrev client : ClientConfig → Client
client cfg = record {
  name = cfg.name;
  is_admin = cfg.admin;
  namespaces = cfg.namespaces;
  digests = cfg.tokens;
}

accepted : new_authenticator id (git ∷ web ∷ []) ≡ some (client git ∷ client web ∷ [])
unfolding new_authenticator add_digests member ◌==◌
accepted = refl

-- A token that two clients share is refused.
shared : new_authenticator id (git ∷ record web { tokens = lit "t2" ∷ [] } ∷ []) ≡ none
unfolding new_authenticator add_digests member ◌==◌
shared = refl

second_token : authenticate id (client git ∷ client web ∷ []) (lit "t2") ≡ some (client git)
unfolding authenticate ◌==◌
second_token = refl

authenticate_iff_example :
    (authenticate id (client git ∷ client web ∷ []) (lit "t2") ≡ some (client git)) ↔ (
      (lit "t2" ≢ [])
      × In (client git) (client git ∷ client web ∷ [])
      × (member (lit "t2") (client git).digests ≡ true))
authenticate_iff_example =
    authenticate_iff id (git ∷ web ∷ []) (client git ∷ client web ∷ []) (lit "t2") (client git)
      accepted

git-first : first_namespace (client git) ≢ []
unfolding first_namespace ◌==◌
git-first = ne_of_test (lit "/g/") [] refl
