-- ===== src/Api/Effects.antt =====
-- What the link handlers of urlshort/api.go do to the database and answer.
use dflybot.Prelude.{true, [], ◌≡◌, arith, refl, ◌⊎◌, inl, inr, Bool-cases}
use dflybot.Prelude.Bytes.{Bytes, ◌==◌}
use dflybot.Store.Link.{CreateRequest, CreateResult, Buckets, Db}
use dflybot.Store.Create.{create}
use dflybot.Store.Create.Consistency.{create-IsConsistent}
use dflybot.Store.Change.{update, delete}
use dflybot.Store.Change.Consistency.{update-IsConsistent, delete-IsConsistent}
use dflybot.Store.Consistent.{IsConsistent}
use dflybot.Auth.{Client, can_access}
use dflybot.Api.Target.{Canonical, target, refused, canonicalize_target}
use dflybot.Api.Types.{Server, store_error}
use dflybot.Api.Prepare.{Prepared, prepare_create}
use dflybot.Api.Links.{
  Env, Item, finish_create, answer_create, create_prepared, create_item, update_item, delete_link,
}

module _ (B : Buckets) (s : Server) where
  -- Answering leaves the database as Create did.
  pub answer_create-db : (r : CreateResult) (db : Db B) → (answer_create B s r db).db ≡ db
  unfolding answer_create finish_create store_error
  answer_create-db r db = ground arith

  create_prepared-db :
      (env : Env) (p : Prepared) (db : Db B)
      → ((req : CreateRequest) × (p ≡ Prepared.request req)
          × ((create_prepared B s env p db).db ≡ (create B env.commits env.now req db).1))
        ⊎ ((create_prepared B s env p db).db ≡ db)
  unfolding create_prepared finish_create
  create_prepared-db env (Prepared.failed e x) db = inr refl
  create_prepared-db env (Prepared.existing l) db = inr refl
  create_prepared-db env (Prepared.request req) db =
      let (r, db') = create B env.commits env.now req db in inl (req, refl, answer_create-db r db')

  -- POST either runs one prepared Create on the database or leaves it.
  pub create_item-db :
      (env : Env) (c : Client) (item : Item) (db : Db B)
      → ((req : CreateRequest) × (prepare_create B s env.reads c item.target item.key db
            ≡ Prepared.request req)
          × ((create_item B s env c item db).db ≡ (create B env.commits env.now req db).1))
        ⊎ ((create_item B s env c item db).db ≡ db)
  unfolding create_item
  create_item-db env c item db =
      create_prepared-db env (prepare_create B s env.reads c item.target item.key db) db

  -- PUT either runs Update on a key of the client or leaves the database.
  pub update_item-db :
      (env : Env) (c : Client) (item : Item) (db : Db B)
      → ((t : Bytes) × (can_access c item.key ≡ true)
          × ((update_item B s env c item db).db ≡ (update B env.commits env.now item.key t db).1))
        ⊎ ((update_item B s env c item db).db ≡ db)
  unfolding update_item store_error
  update_item-db env c item db = go (canonicalize_target s.urls item.target) refl
    where
      go :
          (o : Canonical)
          → canonicalize_target s.urls item.target ≡ o
          → ((t : Bytes) × (can_access c item.key ≡ true)
              × ((update_item B s env c item db).db
                  ≡ (update B env.commits env.now item.key t db).1))
            ⊎ ((update_item B s env c item db).db ≡ db)
      go (refused x) e = inr (ground arith)
      go (target t) e = elim (Bool-cases (item.key == [])) [
        | inl b ↦ inr (ground arith)
        | inr b ↦ elim (Bool-cases (can_access c item.key)) [
          | inr a ↦ inr (ground arith)
          | inl a ↦ inl (t, a, ground arith)
        ]
      ]

  -- DELETE either runs Delete on a key of the client or leaves the database.
  pub delete_link-db :
      (env : Env) (c : Client) (key : Bytes) (db : Db B)
      → ((can_access c key ≡ true)
          × ((delete_link B s env c key db).db ≡ (delete B env.commits key db).1))
        ⊎ ((delete_link B s env c key db).db ≡ db)
  unfolding delete_link store_error
  delete_link-db env c key db = elim (Bool-cases (key == [])) [
    | inl b ↦ inr (ground arith)
    | inr b ↦ elim (Bool-cases (can_access c key)) [
      | inr a ↦ inr (ground arith)
      | inl a ↦ inl (a, ground arith)
    ]
  ]

  -- POST of one link, PUT and DELETE keep the database consistent: whatever the request, the client,
  -- the rules and the outcome of the commit. The batch of POST /links/batch is not among them.
  pub handlers-IsConsistent :
      (env : Env) (c : Client) (item : Item) (key : Bytes) (db : Db B)
      → IsConsistent B db
      → IsConsistent B (create_item B s env c item db).db
        × IsConsistent B (update_item B s env c item db).db
        × IsConsistent B (delete_link B s env c key db).db
  handlers-IsConsistent env c item key db h = (
    elim (create_item-db env c item db) [
      | inr e ↦ rw e h
      | inl (req, p, e) ↦ rw e (create-IsConsistent B env.commits env.now req db h)
    ],
    elim (update_item-db env c item db) [
      | inr e ↦ rw e h
      | inl (t, p, e) ↦ rw e (update-IsConsistent B env.commits env.now item.key t db h)
    ],
    elim (delete_link-db env c key db) [
      | inr e ↦ rw e h
      | inl (p, e) ↦ rw e (delete-IsConsistent B env.commits key db h)
    ],
  )
