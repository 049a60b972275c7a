-- ===== src/Api/Roundtrip.antt =====
-- From POST to the redirect: urlshort/api.go and urlshort/redirect.go together.
use mathlib.Core.Path.{subst}
use dflybot.Prelude.{
  ℕ, Bool, Option, none, some, List, [], ◌≡◌, arith, refl, inl, inr, Bool-cases, Option-cases,
}
use dflybot.Prelude.Bytes.{Bytes, ◌==◌, lit}
use dflybot.Store.Error.{ok, Result-cases}
use dflybot.Store.Link.{Link, unmarshal, CreateRequest, CreateResult, Buckets, Db}
use dflybot.Store.Create.{create}
use dflybot.Store.Create.Reads.{create-get}
use dflybot.Store.Read.{get, resolve}
use dflybot.Store.Consistent.{IsConsistent}
use dflybot.Auth.{Client}
use dflybot.Api.Target.{Canonical, target, refused, canonicalize_target}
use dflybot.Api.Types.{Server, LinkView, link_view, Body, store_error}
use dflybot.Api.Prepare.{
  Prepared, prepare_explicit, prepare_random, prepare_rule, published, prepare_new, prepare_target,
  prepare_create,
}
use dflybot.Api.Links.{Env, Item, finish_create, answer_create, create_prepared, create_item}
use dflybot.Api.Effects.{answer_create-db}
use dflybot.Api.Redirect.{Redirect, handle_redirect}

-- The answer 302 to a GET.
abbrev pub redirect : Bytes → Redirect
redirect t = record { status = 302; location = some t; text = some t; set_error = none }

module _ (B : Buckets) where
  -- The link can be read under its own key, and leads to `t`.
  abbrev Leads : Bytes → Link → Db B → Type 0
  Leads t l db = (get B l.key db ≡ ok l) × (l.target ≡ t)

  found_link-Leads :
      (t k : Bytes) (l : Link) (db : Db B)
      → IsConsistent B db
      → resolve B t db ≡ ok k
      → get B k db ≡ ok l
      → Leads t l db
  unfolding resolve get unmarshal
  found_link-Leads t k l db h r g = ground (arith, h.mapped t k)

  module _ (s : Server) where
    published-Leads :
        (t : Bytes) (l : Link) (db : Db B)
        → IsConsistent B db
        → published B s t db ≡ some l
        → Leads t l db
    unfolding published
    published-Leads t l db h p = elim (Result-cases (resolve B t db)) [
      | inr (x, r) ↦ absurd (ground arith)
      | inl (k, r) ↦ elim (Result-cases (get B k db)) [
        | inr (x, g) ↦ absurd (ground arith)
        | inl (l', g) ↦ found_link-Leads t k l db h r (ground arith)
      ]
    ]

    -- What prepareCreate finds or asks for is about the canonical target.
    IsAbout : Bytes → Prepared → Db B → Type 0
    IsAbout t (Prepared.request req) db = req.target ≡ t
    IsAbout t (Prepared.existing l) db = Leads t l db
    IsAbout t (Prepared.failed e x) db = Unit

    prepare_explicit-IsAbout :
        (c : Client) (t explicit : Bytes) (db : Db B) → IsAbout t (prepare_explicit c t explicit) db
    unfolding IsAbout prepare_explicit
    prepare_explicit-IsAbout c t explicit db = ground arith

    prepare_new-IsAbout :
        (reads : List (Option ℕ)) (c : Client) (t : Bytes) (db : Db B)
        → IsAbout t (prepare_new B s reads c t) db
    unfolding IsAbout prepare_new prepare_random prepare_rule
    prepare_new-IsAbout reads c t db = ground arith

    existing-IsAbout :
        (t : Bytes) (l : Link) (db : Db B)
        → IsConsistent B db
        → published B s t db ≡ some l
        → IsAbout t (Prepared.existing l) db
    unfolding IsAbout
    existing-IsAbout t l db h p = published-Leads t l db h p

    prepare_target-IsAbout :
        (reads : List (Option ℕ)) (c : Client) (t explicit : Bytes) (db : Db B)
        → IsConsistent B db
        → IsAbout t (prepare_target B s reads c t explicit db) db
    unfolding prepare_target
    prepare_target-IsAbout reads c t explicit db h = elim (Bool-cases (explicit == [])) [
      | inr b ↦ rw b (prepare_explicit-IsAbout c t explicit db)
      | inl b ↦ elim (Option-cases (published B s t db)) [
        | inl p ↦ rw b (rw p (prepare_new-IsAbout reads c t db))
        | inr (l, p) ↦ rw b (rw (p, prepare_target) (existing-IsAbout t l db h p))
      ]
    ]

    prepare_create-IsAbout :
        (reads : List (Option ℕ)) (c : Client) (raw explicit t : Bytes) (db : Db B)
        → IsConsistent B db
        → canonicalize_target s.urls raw ≡ target t
        → IsAbout t (prepare_create B s reads c raw explicit db) db
    unfolding prepare_create
    prepare_create-IsAbout reads c raw explicit t db h e =
        rw (e, prepare_create) (prepare_target-IsAbout reads c t explicit db h)

    -- A request is for the canonical form of the target.
    pub prepare_create-target :
        (reads : List (Option ℕ)) (c : Client) (raw explicit : Bytes) (db : Db B)
        (req : CreateRequest)
        → IsConsistent B db
        → prepare_create B s reads c raw explicit db ≡ Prepared.request req
        → canonicalize_target s.urls raw ≡ target req.target
    unfolding prepare_create IsAbout
    prepare_create-target reads c raw explicit db req h e = go (canonicalize_target s.urls raw) refl
      where
        go :
            (o : Canonical)
            → canonicalize_target s.urls raw ≡ o
            → canonicalize_target s.urls raw ≡ target req.target
        go (refused x) q = absurd (ground arith)
        go (target t) q =
            let about = prepare_create-IsAbout reads c raw explicit t db h q in
            let same : req.target ≡ t = subst (λ p. IsAbout t p db) e about in rw same q

    -- The answer carries a link only if Create returned it without an error.
    answer_create-created :
        (r : CreateResult) (db : Db B) (v : LinkView) (flag : Bool)
        → (answer_create B s r db).body ≡ Body.created_link v flag
        → (l : Link) × (r.error ≡ none) × (r.link ≡ some l) × (v ≡ link_view s l)
    unfolding answer_create finish_create store_error
    answer_create-created r db v flag e = elim (Option-cases r.error) [
      | inr (x, p) ↦ absurd (ground arith)
      | inl p ↦ elim (Option-cases r.link) [
        | inl q ↦ absurd (ground arith)
        | inr (l, q) ↦ (l, p, q, ground arith)
      ]
    ]

    create_prepared-Leads :
        (env : Env) (p : Prepared) (t : Bytes) (db : Db B) (v : LinkView) (flag : Bool)
        → IsConsistent B db
        → IsAbout t p db
        → (create_prepared B s env p db).body ≡ Body.created_link v flag
        → (l : Link) × Leads t l (create_prepared B s env p db).db × (v ≡ link_view s l)
    unfolding create_prepared finish_create IsAbout
    create_prepared-Leads env (Prepared.failed x y) t db v flag h a e = absurd (ground arith)
    create_prepared-Leads env (Prepared.existing l) t db v flag h a e = (l, a, ground arith)
    create_prepared-Leads env (Prepared.request req) t db v flag h a e =
        let out = create B env.commits env.now req db in
        let (l, p, q, w) = answer_create-created out.0 out.1 v flag e in
        let (r, g, n) = create-get B env.commits env.now req db l h p q in
        (l, rw (answer_create-db B s out.0 out.1) (g, ground arith), w)

    redirect_link :
        (l : Link) (t : Bytes) (db : Db B)
        → Leads t l db
        → handle_redirect B (lit "GET") l.key db ≡ redirect t
    unfolding handle_redirect ◌==◌
    redirect_link l t db h = ground arith

    -- A POST of a target that is answered with a link, new or old, makes a short link that works:
    -- in the database that the POST leaves, a GET of the key in the answer is redirected to the
    -- canonical form of the target.
    pub create_item-redirect :
        (env : Env) (c : Client) (item : Item) (db : Db B) (t : Bytes) (v : LinkView) (flag : Bool)
        → IsConsistent B db
        → canonicalize_target s.urls item.target ≡ target t
        → (create_item B s env c item db).body ≡ Body.created_link v flag
        → handle_redirect B (lit "GET") v.key (create_item B s env c item db).db ≡ redirect t
    unfolding create_item link_view
    create_item-redirect env c item db t v flag h e b =
        let p = prepare_create B s env.reads c item.target item.key db in
        let about = prepare_create-IsAbout env.reads c item.target item.key t db h e in
        let (l, leads, w) = create_prepared-Leads env p t db v flag h about b in
        rw w (redirect_link l t (create_prepared B s env p db).db leads)
