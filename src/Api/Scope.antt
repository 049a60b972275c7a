-- ===== src/Api/Scope.antt =====
-- Namespaces: the handlers of urlshort/api.go write only below the namespaces of their client.
use mathlib.Core.List.{append_assoc}
use dflybot.Prelude.{
  ℕ, Bool, true, false, Option, some, List, [], ◌++◌, ◌≡◌, ◌≢◌, arith, refl, ap, Bool-cases,
  Option-cases, inl, inr,
}
use dflybot.Prelude.Bytes.{Bytes, ◌==◌, eq_iff, lit}
use dflybot.Store.Error.{Result, ok, Result-cases}
use dflybot.Store.Link.{CreateRequest, json, marshal, Buckets, Db, get_link}
use dflybot.Store.Create.{is_free, choose_key, insert_link, create_in_tx, create}
use dflybot.Store.Create.Cases.{create_in_tx_induction}
use dflybot.Store.Change.Frame.{update_frame, delete_frame}
use dflybot.Auth.{Client, can_access, first_namespace}
use dflybot.Auth.Access.{can_access-first_namespace}
use dflybot.Rules.Match.{Rule, Vars, match}
use dflybot.Rules.Generate.{render}
use dflybot.Rules.Random.Shape.{generate_random_key_sound}
use dflybot.Api.Target.{Canonical, target, refused, canonicalize_target}
use dflybot.Api.Types.{Server}
use dflybot.Api.Prepare.{
  Prepared, or_failed, random_gen, rule_gen, prepare_explicit, prepare_random, prepare_rule,
  published, prepare_new, prepare_target, prepare_create,
}
use dflybot.Api.Links.{Env, Item, create_item, update_item, delete_link}
use dflybot.Api.Effects.{create_item-db, update_item-db, delete_link-db}

-- A request that can only choose keys of the client.
pub record IsScoped (c : Client) (req : CreateRequest) : Type 0 where
  pub explicit : req.explicit_key ≢ [] → can_access c req.explicit_key ≡ true
  pub generated :
      (gen : (Bytes → Result Bool) → Result Bytes) (free : Bytes → Result Bool) (k : Bytes)
      → req.gen ≡ some gen
      → gen free ≡ ok k
      → can_access c k ≡ true

-- What is prepared asks for keys of the client only.
abbrev IsAllowed : Client → Prepared → Type 0
IsAllowed c p = (req : CreateRequest) → p ≡ Prepared.request req → IsScoped c req

random_gen-can_access :
    (c : Client) (reads : List (Option ℕ)) (free : Bytes → Result Bool) (k : Bytes)
    → first_namespace c ≢ []
    → random_gen (first_namespace c) reads free ≡ ok k
    → can_access c k ≡ true
unfolding random_gen or_failed
random_gen-can_access c reads free k n e =
    let (id, s, i, f, z) =
      generate_random_key_sound (first_namespace c) free reads k (ground arith) in
    rw s (
      rw (append_assoc (first_namespace c) (lit "~") id)
        (can_access-first_namespace c (lit "~" ++ id) n))

rule_gen-can_access :
    (c : Client) (rule : Rule) (vars : Vars) (free : Bytes → Result Bool) (k : Bytes)
    → rule_gen c rule vars free ≡ ok k
    → can_access c k ≡ true
unfolding rule_gen
rule_gen-can_access c rule vars free k e = ground arith

prepare_explicit-IsAllowed :
    (c : Client) (t explicit : Bytes) → IsAllowed c (prepare_explicit c t explicit)
unfolding prepare_explicit
prepare_explicit-IsAllowed c t explicit req e = record {
  explicit = λ n. ground arith;
  generated = λ gen free k g h. absurd (ground arith);
}

prepare_random-IsAllowed :
    (reads : List (Option ℕ)) (c : Client) (t : Bytes) → IsAllowed c (prepare_random reads c t)
unfolding prepare_random
prepare_random-IsAllowed reads c t req e = elim (Bool-cases (first_namespace c == [])) [
  | inl b ↦ absurd (ground arith)
  | inr b ↦ record {
    explicit = λ n. absurd (ground arith);
    generated = λ gen free k g h.
        random_gen-can_access c reads free k (ground (arith, eq_iff (first_namespace c) []))
          (ground arith);
  }
]

prepare_rule-IsAllowed :
    (c : Client) (t : Bytes) (rule : Rule) (vars : Vars) → IsAllowed c (prepare_rule c t rule vars)
unfolding prepare_rule
prepare_rule-IsAllowed c t rule vars req e = elim (Result-cases (render rule vars)) [
  | inr (x, r) ↦ absurd (ground arith)
  | inl (full, r) ↦ elim (Bool-cases (can_access c full)) [
    | inr b ↦ absurd (ground arith)
    | inl b ↦ record {
      explicit = λ n. absurd (ground arith);
      generated = λ gen free k g h. rule_gen-can_access c rule vars free k (ground arith);
    }
  ]
]

module _ (B : Buckets) (s : Server) where
  prepare_new-IsAllowed :
      (reads : List (Option ℕ)) (c : Client) (t : Bytes) → IsAllowed c (prepare_new B s reads c t)
  unfolding prepare_new
  prepare_new-IsAllowed reads c t req e = elim (Option-cases (match t s.rules)) [
    | inl m ↦ prepare_random-IsAllowed reads c t req (ground arith)
    | inr ((rule, vars), m) ↦ prepare_rule-IsAllowed c t rule vars req (ground arith)
  ]

  -- A request that prepareCreate lets through can only choose keys that its client may use: the
  -- explicit key, every key that the rule generates and every random key.
  pub prepare_create-IsScoped :
      (reads : List (Option ℕ)) (c : Client) (raw explicit : Bytes) (db : Db B)
      (req : CreateRequest)
      → prepare_create B s reads c raw explicit db ≡ Prepared.request req
      → IsScoped c req
  unfolding prepare_create prepare_target
  prepare_create-IsScoped reads c raw explicit db req e = go (canonicalize_target s.urls raw) refl
    where
      go : (o : Canonical) → canonicalize_target s.urls raw ≡ o → IsScoped c req
      go (refused x) h = absurd (ground arith)
      go (target t) h = elim (Bool-cases (explicit == [])) [
        | inr b ↦ prepare_explicit-IsAllowed c t explicit req (ground arith)
        | inl b ↦ elim (Option-cases (published B s t db)) [
          | inl p ↦ prepare_new-IsAllowed reads c t req (ground arith)
          | inr (l, p) ↦ absurd (ground arith)
        ]
      ]

module _ (B : Buckets) (c : Client) (req : CreateRequest) (h : IsScoped c req) where
  choose_key-can_access :
      (db : Db B) (k : Bytes) → choose_key B req db ≡ ok k → can_access c k ≡ true
  unfolding choose_key
  choose_key-can_access db k e = elim (Bool-cases (req.explicit_key == [])) [
    | inr b ↦ ground (arith, h.explicit, eq_iff req.explicit_key [])
    | inl b ↦ elim (Option-cases req.gen) [
      | inl g ↦ absurd (ground arith)
      | inr (gen, g) ↦ h.generated gen (is_free B db) k g (ground arith)
    ]
  ]

  insert_link-other :
      (now : ℕ) (key : Bytes) (db : Db B) (k : Bytes)
      → key ≢ k
      → get_link B (insert_link B now req key db).1 k ≡ get_link B db k
  unfolding insert_link marshal
  insert_link-other now key db k n =
      let raw = json req.target req.rule req.owner now now in
      ground (arith, B.links.get-put db.links key k raw, eq_iff key k)

  pub create_in_tx-scope :
      (now : ℕ) (db : Db B) (k : Bytes)
      → can_access c k ≡ false
      → get_link B (create_in_tx B now req db).1 k ≡ get_link B db k
  create_in_tx-scope now db k a =
      create_in_tx_induction B now req db (λ r. get_link B r.1 k ≡ get_link B db k) (λ key p. refl)
        (λ x p q. refl)
        (λ key p q.
          insert_link-other now key db k
            (λ e. ground (arith, choose_key-can_access db key q, ap (can_access c) e)))

  create-scope :
      (commits : Bool) (now : ℕ) (db : Db B) (k : Bytes)
      → can_access c k ≡ false
      → get_link B (create B commits now req db).1 k ≡ get_link B db k
  unfolding create
  create-scope commits now db k a = ground (arith, create_in_tx-scope now db k a)

module _ (B : Buckets) (s : Server) where
  differs : (c : Client) (a k : Bytes) → can_access c a ≡ true → can_access c k ≡ false → k ≢ a
  differs c a k p q e = ground (arith, ap (can_access c) e)

  -- A client cannot touch a key outside its namespaces: whatever POST of one link, PUT or
  -- DELETE it sends, the entry of such a key in the links bucket stays the same.
  pub writes_in_scope :
      (env : Env) (c : Client) (item : Item) (key k : Bytes) (db : Db B)
      → can_access c k ≡ false
      → (get_link B (create_item B s env c item db).db k ≡ get_link B db k)
        × (get_link B (update_item B s env c item db).db k ≡ get_link B db k)
        × (get_link B (delete_link B s env c key db).db k ≡ get_link B db k)
  writes_in_scope env c item key k db a = (
    elim (create_item-db B s env c item db) [
      | inr e ↦ ap (λ d. get_link B d k) e
      | inl (req, p, e) ↦ rw e (
          create-scope B c req
            (prepare_create-IsScoped B s env.reads c item.target item.key db req p) env.commits
            env.now db k a)
    ],
    elim (update_item-db B s env c item db) [
      | inr e ↦ ap (λ d. get_link B d k) e
      | inl (t, p, e) ↦
          rw e (update_frame B item.key k (differs c item.key k p a) env.commits env.now t db)
    ],
    elim (delete_link-db B s env c key db) [
      | inr e ↦ ap (λ d. get_link B d k) e
      | inl (p, e) ↦ rw e (delete_frame B key k (differs c key k p a) env.commits db)
    ],
  )
