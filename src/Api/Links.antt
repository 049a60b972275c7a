-- ===== src/Api/Links.antt =====
-- getLink, createLink, updateLink, deleteLink and handleLinksBatch of urlshort/api.go, from the
-- decoded request on.
use dflybot.Prelude.{ℕ, Bool, false, not, Option, none, some, List, [], if◌then◌else◌}
use dflybot.Prelude.Bytes.{Bytes, ◌==◌, lit}
use dflybot.Store.Error.{ok, err}
use dflybot.Store.Link.{Link, CreateResult, Buckets, Db}
use dflybot.Store.Create.{create}
use dflybot.Store.Change.{update, delete}
use dflybot.Store.Read.{get}
use dflybot.Auth.{Client, can_access}
use dflybot.Api.Target.{Canonical, canonicalize_target}
use dflybot.Api.Types.{
  Server, bad_request, forbidden_error, internal_error, link_view, Body, no_access, Outcome,
  api_failure, store_error, Decoded, decoded, decode_error,
}
use dflybot.Api.Prepare.{Prepared, prepare_create}

-- What the environment decides during one request: whether the commit succeeds, the clock and the
-- reads of the random source.
pub record Env : Type 0 where
  pub commits : Bool
  pub now : ℕ
  pub reads : List (Option ℕ)

-- The body of a create or update request.
pub record Item : Type 0 where
  pub target : Bytes
  pub key : Bytes

module _ (B : Buckets) (s : Server) where
  unfoldable pub get_link_handler : Client → Bytes → Db B → Outcome B
  get_link_handler c key db =
      if key == []
      then api_failure bad_request db
      else if not (can_access c key)
      then api_failure forbidden_error db
      else elim (get B key db) [
        | err e ↦ store_error e db
        | ok l ↦ record {
          status = 200;
          body = Body.link (link_view s l);
          access = record no_access { action = lit "resolve"; key = key };
          set_error = none;
          db = db;
        }
      ]

  unfoldable pub finish_create : Link → Bool → Db B → Outcome B
  finish_create l created db = record {
    status = if created then 201 else 200;
    body = Body.created_link (link_view s l) created;
    access = record {
      action = if created then lit "create" else lit "resolve";
      key = l.key;
      target = l.target;
      rule = l.rule;
    };
    set_error = none;
    db = db;
  }

  -- The answer to what Create returned. Without an error there is a link.
  unfoldable pub answer_create : CreateResult → Db B → Outcome B
  unfolding finish_create
  answer_create r db = elim r.error [
    | some e ↦ store_error e db
    | none ↦ elim r.link [
      | none ↦ api_failure internal_error db
      | some l ↦ finish_create l r.created db
    ]
  ]

  unfoldable pub create_prepared : Env → Prepared → Db B → Outcome B
  unfolding answer_create
  create_prepared env (Prepared.failed e x) db = record (api_failure e db) { set_error = x }
  create_prepared env (Prepared.existing l) db = finish_create l false db
  create_prepared env (Prepared.request req) db =
      let (r, db') = create B env.commits env.now req db in answer_create r db'

  unfoldable pub create_item : Env → Client → Item → Db B → Outcome B
  unfolding create_prepared
  create_item env c item db =
      create_prepared env (prepare_create B s env.reads c item.target item.key db) db

  unfoldable pub create_link : Env → Client → Decoded Item → Db B → Outcome B
  unfolding create_item
  create_link env c (decoded item) db = create_item env c item db
  create_link env c other db = api_failure (decode_error other) db

  unfoldable pub update_item : Env → Client → Item → Db B → Outcome B
  update_item env c item db = elim (canonicalize_target s.urls item.target) [
    | Canonical.refused e ↦ api_failure bad_request db
    | Canonical.target t ↦
        if item.key == []
        then api_failure bad_request db
        else if not (can_access c item.key)
        then api_failure forbidden_error db
        else (let (r, db') = update B env.commits env.now item.key t db in
            elim r [
              | err e ↦ store_error e db'
              | ok l ↦ record {
                status = 200;
                body = Body.link (link_view s l);
                access = record no_access {
                  action = lit "update";
                  key = item.key;
                  target = l.target;
                };
                set_error = none;
                db = db';
              }
            ])
  ]

  unfoldable pub update_link : Env → Client → Decoded Item → Db B → Outcome B
  unfolding update_item
  update_link env c (decoded item) db = update_item env c item db
  update_link env c other db = api_failure (decode_error other) db

  unfoldable pub delete_link : Env → Client → Bytes → Db B → Outcome B
  delete_link env c key db =
      if key == []
      then api_failure bad_request db
      else if not (can_access c key)
      then api_failure forbidden_error db
      else (let (r, db') = delete B env.commits key db in
          elim r [
            | err e ↦ store_error e db'
            | ok _ ↦ record {
              status = 204;
              body = Body.nothing;
              access = record no_access { action = lit "delete"; key = key };
              set_error = none;
              db = db';
            }
          ])
