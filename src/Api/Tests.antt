-- ===== src/Api/Tests.antt =====
-- Runs of the link handlers, and the theorems at concrete inputs. A URL is its host here, and
-- `git` is a client with one namespace.
use dflybot.Prelude.{true, false, none, some, List, [], ◌∷◌, ◌++◌, ◌≡◌, refl, arith, length-append}
use dflybot.Prelude.Bytes.{Bytes, lit, ◌==◌, has_prefix, blt}
use dflybot.Prelude.Sorted.{lookup, insert, remove, seek_list}
use dflybot.Store.Bolt.Memory.{memory}
use dflybot.Store.Link.{
  CreateRequest, Raw, marshal, unmarshal, Buckets, Db, empty_db, get_link, update_tx,
}
use dflybot.Store.Consistent.{IsConsistent, empty_db-IsConsistent}
use dflybot.Store.Create.{
  is_some, is_free, existing_link, choose_key, insert_link, create_in_tx, create, create_all,
  create_batch,
}
use dflybot.Store.Read.{resolve, get}
use dflybot.Auth.{Client, can_access}
use dflybot.Rules.Key.{
  validate_key, check_chars, valid_char, split_slash, check_segments, check_reserved,
}
use dflybot.Api.Target.{Url, UrlLib, target, canonicalize_target, canonical_url}
use dflybot.Api.Types.{Server, LinkView, link_view, Body, BatchResult}
use dflybot.Api.Prepare.{prepare_explicit, prepare_target, prepare_create}
use dflybot.Api.Links.{
  Env, Item, finish_create, answer_create, create_prepared, create_item, update_item, delete_link,
}
use dflybot.Api.Effects.{handlers-IsConsistent}
use dflybot.Api.Scope.{writes_in_scope}
use dflybot.Api.Roundtrip.{redirect, create_item-redirect}
use dflybot.Api.Redirect.{handle_redirect}
use dflybot.Api.Batch.{
  BatchItem, slot_of, prepare_slot, prepare_all, pending_requests, fill_one, fill, batch_response,
  run_batch, links_batch_items, handle_links_batch,
}
use dflybot.Api.Batch.Results.{AnswersAll, handle_links_batch-AnswersAll}

program : Unit {0}
unfolding create create_in_tx existing_link choose_key insert_link create_all create_batch is_free
    is_some marshal unmarshal update_tx lookup insert remove seek_list ◌==◌ has_prefix blt resolve
    get can_access validate_key check_chars valid_char split_slash check_segments check_reserved
    canonicalize_target canonical_url link_view prepare_explicit prepare_target prepare_create
    finish_create answer_create create_prepared create_item handle_redirect slot_of prepare_slot
    prepare_all pending_requests fill_one fill batch_response run_batch links_batch_items
    handle_links_batch
program = tt

abbrev mem : Buckets
mem = record { links = memory Raw; targets = memory Bytes }

abbrev bare_url : Bytes → Url
bare_url host = record {
  scheme = lit "http";
  has_user = false;
  hostname = host;
  port = [];
  print = λ scheme h. lit "http://" ++ h;
}

abbrev urls : UrlLib
urls = record { parse = λ raw. some (bare_url raw); to_lower = λ s. s }

abbrev server : Server
server = record { rules = []; urls = urls; short_url = λ k. lit "s:" ++ k }

abbrev git : Client
git = record { name = lit "git"; is_admin = false; namespaces = lit "/g/" ∷ []; digests = [] }

abbrev env : Env
env = record { commits = true; now = 5; reads = [] }

abbrev item : Item
item = record { target = lit "a"; key = lit "/g/a" }

abbrev db0 : Db mem
db0 = empty_db mem

abbrev view : LinkView
view = record {
  key = lit "/g/a";
  short_url = lit "s:/g/a";
  target = lit "http://a";
  rule = [];
  created_at = 5;
  updated_at = 5;
}

created : (create_item mem server env git item db0).body ≡ Body.created_link view true
unfolding program
created = refl

create_item-redirect_example :
    handle_redirect mem (lit "GET") (lit "/g/a") (create_item mem server env git item db0).db
    ≡ redirect (lit "http://a")
unfolding program
create_item-redirect_example =
    create_item-redirect mem server env git item db0 (lit "http://a") view true
      (empty_db-IsConsistent mem) refl refl

handlers-IsConsistent_example :
    IsConsistent mem (create_item mem server env git item db0).db
    × IsConsistent mem (update_item mem server env git item db0).db
    × IsConsistent mem (delete_link mem server env git (lit "/g/a") db0).db
handlers-IsConsistent_example =
    handlers-IsConsistent mem server env git item (lit "/g/a") db0 (empty_db-IsConsistent mem)

writes_in_scope_example :
    (get_link mem (create_item mem server env git item db0).db (lit "/w/a")
      ≡ get_link mem db0 (lit "/w/a"))
    × (get_link mem (update_item mem server env git item db0).db (lit "/w/a")
        ≡ get_link mem db0 (lit "/w/a"))
    × (get_link mem (delete_link mem server env git (lit "/w/a") db0).db (lit "/w/a")
        ≡ get_link mem db0 (lit "/w/a"))
unfolding program
writes_in_scope_example = writes_in_scope mem server env git item (lit "/w/a") (lit "/w/a") db0 refl

abbrev prepared : Bytes → Bytes → Bytes → CreateRequest
prepared t key owner = record {
  target = t;
  rule = [];
  owner = owner;
  explicit_key = key;
  gen = none;
}

abbrev items : List BatchItem
items =
    record { item = item; now = 5; reads = [] }
    ∷ record { item = record { target = lit "b"; key = lit "/w/b" }; now = 6; reads = [] }
    ∷ []

abbrev results : List BatchResult
results =
    record { target = lit "a"; created = true; link = some view; error = none }
    ∷ record { target = lit "b"; created = false; link = none; error = some (lit "forbidden") }
    ∷ []

handle_links_batch-AnswersAll_example : AnswersAll mem server items results
unfolding program
handle_links_batch-AnswersAll_example =
    handle_links_batch-AnswersAll mem server true git items db0 results refl

fits :
    (raw t k : Bytes)
    → canonicalize_target server.urls raw ≡ target t
    → mem.targets.accepts t k ≡ true
unfolding program
fits raw t k e = ground (arith, length-append raw (lit "]"))
