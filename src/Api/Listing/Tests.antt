-- ===== src/Api/Listing/Tests.antt =====
-- A list for a client of two namespaces, over a database that has links of others.
use dflybot.Prelude.{true, false, none, some, List, [], ◌∷◌, ◌++◌, ◌≡◌, refl, All}
use dflybot.Prelude.Bytes.{Bytes, lit, ◌==◌, has_prefix, blt}
use dflybot.Prelude.Sorted.{lookup, insert, seek_list}
use dflybot.Store.Bolt.Memory.{memory}
use dflybot.Store.Link.{CreateRequest, Raw, marshal, unmarshal, Buckets, Db, empty_db}
use dflybot.Store.Create.{is_some, choose_key, insert_link, create_in_tx, create}
use dflybot.Store.Read.{list_loop, clamp_limit, skip_cursor, start, list}
use dflybot.Auth.{Client, can_access}
use dflybot.Api.Types.{Server, LinkView, link_view, no_access, Body, Outcome}
use dflybot.Api.Listing.{
  positive, ListQuery, collect, only_namespace, list_filtered_loop, list_filtered, list_own,
  list_answer, list_with_limit, list_links,
}
use dflybot.Api.Listing.Access.{list_links-AreOwn}
use dflybot.Api.Listing.Ends.{list_links_total}

program : Unit {0}
unfolding ◌==◌ has_prefix blt lookup insert seek_list marshal unmarshal is_some choose_key
    insert_link create_in_tx create list_loop clamp_limit skip_cursor start list can_access
    link_view collect only_namespace list_filtered_loop list_filtered list_own list_answer
    list_with_limit list_links
program = tt

abbrev mem : Buckets
mem = record { links = memory Raw; targets = memory Bytes }

abbrev server : Server
server = record {
  rules = [];
  urls = record { parse = λ raw. none; to_lower = λ s. s };
  short_url = λ k. lit "s:" ++ k;
}

abbrev client : Client
client = record {
  name = lit "bot";
  is_admin = false;
  namespaces = lit "/g/" ∷ lit "/x/" ∷ [];
  digests = [];
}

abbrev request : Bytes → Bytes → CreateRequest
request t key = record { target = t; rule = []; owner = []; explicit_key = key; gen = none }

abbrev add : Bytes → Bytes → Db mem → Db mem
add t key db = (create mem true 5 (request t key) db).1

abbrev links_db : Db mem
links_db =
    add (lit "u") (lit "/x/c")
      (add (lit "v") (lit "/w/b") (add (lit "w") (lit "/g/a") (empty_db mem)))

abbrev query : ListQuery
query = record { namespace = []; limit = positive 2; cursor = [] }

abbrev view : Bytes → Bytes → LinkView
view key t = record {
  key = key;
  short_url = lit "s:" ++ key;
  target = t;
  rule = [];
  created_at = 5;
  updated_at = 5;
}

abbrev views : List LinkView
views = view (lit "/g/a") (lit "w") ∷ view (lit "/x/c") (lit "u") ∷ []

abbrev outcome : Outcome mem
outcome = record {
  status = 200;
  body = Body.links views (lit "/x/c");
  access = record no_access { action = lit "resolve" };
  set_error = none;
  db = links_db;
}

listed_links : list_links mem server client query links_db ≡ some outcome
unfolding program
listed_links = refl

list_links-AreOwn_example : All (λ (v : LinkView). can_access client v.key ≡ true) views
list_links-AreOwn_example =
    list_links-AreOwn mem client links_db server query outcome views (lit "/x/c") listed_links refl

list_links_total_example :
    (r : Outcome mem) × (list_links mem server client query links_db ≡ some r)
list_links_total_example = list_links_total mem links_db server client query
