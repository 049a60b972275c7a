-- ===== src/Auth/Access.antt =====
-- Authentication is unambiguous, and access is by namespace.
use dflybot.Prelude.{
  true, false, Option, none, some, List, [], ◌∷◌, ◌++◌, ◌≡◌, ◌≢◌, ◌↔◌, ◌⊎◌, inl, inr, refl, arith,
  if◌then◌else◌, All, In, Bool-cases, Option-cases, List-cases,
}
use dflybot.Prelude.Bytes.{Bytes, ◌==◌, eq_iff, has_prefix, has_prefix-append}
use dflybot.Auth.{
  ClientConfig, Client, in_namespaces, can_access, first_namespace, member, add_digests, new_client,
  build, new_authenticator, match_digests, match_clients, authenticate,
}

abbrev Lacks : Bytes → Client → Type 0
Lacks d c = member d c.digests ≡ false

-- No digest belongs to two clients.
abbrev IsDisjoint : List Client → Type 0
IsDisjoint [] = Unit
IsDisjoint (c ∷ cs) = ((d : Bytes) → member d c.digests ≡ true → All (Lacks d) cs) × IsDisjoint cs

add_digests-seen :
    (d : Bytes) (ds seen seen' : List Bytes)
    → add_digests ds seen ≡ some seen'
    → member d seen ≡ true
    → (member d ds ≡ false) × (member d seen' ≡ true)
unfolding add_digests member
add_digests-seen d [] seen seen' h m = ground arith
add_digests-seen d (e ∷ ds) seen seen' h m =
    ground (arith, add_digests-seen d ds (e ∷ seen) seen', eq_iff e d)

add_digests-added :
    (d : Bytes) (ds seen seen' : List Bytes)
    → add_digests ds seen ≡ some seen'
    → member d ds ≡ true
    → member d seen' ≡ true
unfolding add_digests member
add_digests-added d [] seen seen' h m = ground arith
add_digests-added d (e ∷ ds) seen seen' h m = ground (
  arith,
  add_digests-added d ds (e ∷ seen) seen',
  add_digests-seen d ds (e ∷ seen) seen',
  eq_iff e d,
)

-- A loop over digests keeps the last client that has the presented one.
match_digests-member :
    (c : Client) (d : Bytes) (ds : List Bytes) (m : Option Client)
    → match_digests c d ds m ≡ (if member d ds then some c else m)
unfolding match_digests member
match_digests-member c d [] m = refl
match_digests-member c d (e ∷ ds) m =
    ground
      (arith, match_digests-member c d ds (if d == e then some c else m), eq_iff d e, eq_iff e d)

match_clients-absent :
    (d : Bytes) (cs : List Client) (m : Option Client) → All (Lacks d) cs → match_clients d cs m ≡ m
unfolding match_clients
match_clients-absent d [] m h = refl
match_clients-absent d (c ∷ cs) m h =
    rw (match_digests-member c d c.digests m) (rw h.0 (match_clients-absent d cs m h.1))

match_clients_sound :
    (d : Bytes) (cs : List Client) (m : Option Client) (c : Client)
    → match_clients d cs m ≡ some c
    → (m ≡ some c) ⊎ (In c cs × (member d c.digests ≡ true))
unfolding match_clients
match_clients_sound d [] m c h = inl h
match_clients_sound d (x ∷ cs) m c h =
    elim (match_clients_sound d cs (match_digests x d x.digests m) c h) [
      | inr (i, e) ↦ inr (inr i, e)
      | inl e ↦ elim (Bool-cases (member d x.digests)) [
        | inl t ↦ inr (
          inl (ground (arith, match_digests-member x d x.digests m)),
          ground (arith, match_digests-member x d x.digests m),
        )
        | inr t ↦ inl (ground (arith, match_digests-member x d x.digests m))
      ]
    ]

match_clients_complete :
    (d : Bytes) (cs : List Client) (m : Option Client) (c : Client)
    → IsDisjoint cs
    → In c cs
    → member d c.digests ≡ true
    → match_clients d cs m ≡ some c
unfolding match_clients
match_clients_complete d [] m c u i e = absurd i
match_clients_complete d (x ∷ cs) m c u (inl s) e =
    rw (match_clients-absent d cs (match_digests x d x.digests m) (u.0 d (rw s at e)))
      (ground (arith, match_digests-member x d x.digests m))
match_clients_complete d (x ∷ cs) m c u (inr i) e =
    match_clients_complete d cs (match_digests x d x.digests m) c u.1 i e

module _ (sum256 : Bytes → Bytes) where
  -- What a successful build did with its first configured client.
  abbrev Built : ClientConfig → List ClientConfig → List Bytes → List Client → Type 0
  Built cfg cfgs seen cs =
      (build sum256 cfgs seen ≡ some cs)
      ⊎ ((seen' : List Bytes) × (rest : List Client) × (add_digests (new_client sum256 cfg).digests
              seen
            ≡ some seen')
          × (build sum256 cfgs seen' ≡ some rest)
          × (cs ≡ new_client sum256 cfg ∷ rest))

  build-Built :
      (cfg : ClientConfig) (cfgs : List ClientConfig) (seen : List Bytes) (cs : List Client)
      → build sum256 (cfg ∷ cfgs) seen ≡ some cs
      → Built cfg cfgs seen cs
  unfolding build
  build-Built cfg cfgs seen cs h = elim (Bool-cases cfg.enabled) [
    | inr off ↦ inl (rw (off, build) at h)
    | inl on ↦ elim (Option-cases (add_digests (new_client sum256 cfg).digests seen)) [
      | inl bad ↦ absurd (ground arith)
      | inr (seen', good) ↦ elim (Option-cases (build sum256 cfgs seen')) [
        | inl bad ↦ absurd (ground arith)
        | inr (rest, built) ↦ inr (seen', rest, good, built, ground arith)
      ]
    ]
  ]

  build-Lacks :
      (cfgs : List ClientConfig) (seen : List Bytes) (cs : List Client) (d : Bytes)
      → build sum256 cfgs seen ≡ some cs
      → member d seen ≡ true
      → All (Lacks d) cs
  unfolding build
  build-Lacks [] seen [] d h m = tt
  build-Lacks [] seen (c ∷ cs) d h m = cc
  build-Lacks (cfg ∷ cfgs) seen cs d h m = elim (build-Built cfg cfgs seen cs h) [
    | inl rest ↦ build-Lacks cfgs seen cs d rest m
    | inr (seen', rest, good, built, e) ↦
        let (fresh, later) = add_digests-seen d (new_client sum256 cfg).digests seen seen' good m in
        rw e (fresh, build-Lacks cfgs seen' rest d built later)
  ]

  build-IsDisjoint :
      (cfgs : List ClientConfig) (seen : List Bytes) (cs : List Client)
      → build sum256 cfgs seen ≡ some cs
      → IsDisjoint cs
  unfolding build
  build-IsDisjoint [] seen [] h = tt
  build-IsDisjoint [] seen (c ∷ cs) h = cc
  build-IsDisjoint (cfg ∷ cfgs) seen cs h = elim (build-Built cfg cfgs seen cs h) [
    | inl rest ↦ build-IsDisjoint cfgs seen cs rest
    | inr (seen', rest, good, built, e) ↦ rw e (
      λ d has.
          build-Lacks cfgs seen' rest d built
            (add_digests-added d (new_client sum256 cfg).digests seen seen' good has),
      build-IsDisjoint cfgs seen' rest built,
    )
  ]

  -- With the clients that NewAuthenticator accepts, Authenticate returns a client exactly when the
  -- token is not blank and the digest of the token is one of that client's: the order of clients
  -- and tokens does not matter, and no token stands for two clients.
  pub authenticate_iff :
      (cfgs : List ClientConfig) (clients : List Client) (token : Bytes) (c : Client)
      → new_authenticator sum256 cfgs ≡ some clients
      → (authenticate sum256 clients token ≡ some c)
        ↔ ((token ≢ []) × In c clients × (member (sum256 token) c.digests ≡ true))
  unfolding authenticate new_authenticator
  authenticate_iff cfgs clients token c h = (sound, complete)
    where
      sound :
          authenticate sum256 clients token ≡ some c
          → (token ≢ []) × In c clients × (member (sum256 token) c.digests ≡ true)
      sound e = elim (Bool-cases (token == [])) [
        | inl blank ↦ absurd (ground arith)
        | inr some_token ↦
            elim (match_clients_sound (sum256 token) clients none c (rw some_token at e)) [
              | inl bad ↦ absurd (cc)
              | inr (i, m) ↦ (ground (arith, eq_iff token []), i, m)
            ]
      ]

      complete :
          (token ≢ []) × In c clients × (member (sum256 token) c.digests ≡ true)
          → authenticate sum256 clients token ≡ some c
      complete (n, i, m) =
          let given : (token == []) ≡ false = ground (arith, eq_iff token []) in
          rw given (
            match_clients_complete (sum256 token) clients none c
              (build-IsDisjoint cfgs [] clients h) i m)

in_namespaces_sound :
    (key : Bytes) (nss : List Bytes)
    → in_namespaces key nss ≡ true
    → (ns : Bytes) × In ns nss × (has_prefix key ns ≡ true)
unfolding in_namespaces
in_namespaces_sound key [] h = absurd (ground arith)
in_namespaces_sound key (ns ∷ rest) h = elim (Bool-cases (has_prefix key ns)) [
  | inl e ↦ (ns, inl refl, e)
  | inr e ↦ let (x, i, p) = in_namespaces_sound key rest (ground arith) in (x, inr i, p)
]

in_namespaces_complete :
    (key : Bytes) (nss : List Bytes) (ns : Bytes)
    → In ns nss
    → has_prefix key ns ≡ true
    → in_namespaces key nss ≡ true
unfolding in_namespaces
in_namespaces_complete key [] ns i p = absurd i
in_namespaces_complete key (x ∷ rest) ns (inl e) p = ground arith
in_namespaces_complete key (x ∷ rest) ns (inr i) p =
    ground (arith, in_namespaces_complete key rest ns i p)

can_access_sound :
    (c : Client) (key : Bytes)
    → can_access c key ≡ true
    → (c.is_admin ≡ true) ⊎ ((ns : Bytes) × In ns c.namespaces × (has_prefix key ns ≡ true))
unfolding can_access
can_access_sound c key h = elim (Bool-cases c.is_admin) [
  | inl admin ↦ inl admin
  | inr plain ↦ inr (in_namespaces_sound key c.namespaces (ground arith))
]

can_access_complete :
    (c : Client) (key : Bytes)
    → (c.is_admin ≡ true) ⊎ ((ns : Bytes) × In ns c.namespaces × (has_prefix key ns ≡ true))
    → can_access c key ≡ true
unfolding can_access
can_access_complete c key (inl admin) = ground arith
can_access_complete c key (inr (ns, i, p)) =
    ground (arith, in_namespaces_complete key c.namespaces ns i p)

-- CanAccess holds exactly for admins and for keys that begin with one of the client's namespaces.
pub can_access_iff :
    (c : Client) (key : Bytes)
    → (can_access c key ≡ true)
      ↔ ((c.is_admin ≡ true) ⊎ ((ns : Bytes) × In ns c.namespaces × (has_prefix key ns ≡ true)))
can_access_iff c key = (can_access_sound c key, can_access_complete c key)

-- A key below the fallback namespace is accessible: the one that a random key is made in.
pub can_access-first_namespace :
    (c : Client) (s : Bytes) → first_namespace c ≢ [] → can_access c (first_namespace c ++ s) ≡ true
unfolding can_access first_namespace in_namespaces
can_access-first_namespace c s n = elim (List-cases c.namespaces) [
  | inl e ↦ ground arith
  | inr (ns, rest, e) ↦ ground (arith, has_prefix-append ns s)
]
