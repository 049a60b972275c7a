-- ===== src/Store/Tests.antt =====
-- Runs of the link store on small databases, and the theorems at concrete inputs.
use dflybot.Prelude.{ℕ, true, none, [], ◌∷◌, ◌≡◌, refl, if◌then◌else◌}
use dflybot.Prelude.Bytes.{Bytes, lit, ◌==◌, has_prefix, blt}
use dflybot.Store.Error.{ok}
use dflybot.Prelude.Sorted.{lookup, insert, remove, seek_list}
use dflybot.Store.Bolt.Memory.{memory}
use dflybot.Store.Link.{
  Link, CreateRequest, Raw, marshal, unmarshal, Buckets, Db, empty_db, update_tx,
}
use dflybot.Store.Consistent.{IsConsistent, empty_db-IsConsistent}
use dflybot.Store.Create.{
  is_some, is_free, existing_link, choose_key, insert_link, create_in_tx, create, create_all,
  create_batch,
}
use dflybot.Store.Create.Consistency.{create-IsConsistent}
use dflybot.Store.Create.Reads.{create-get}
use dflybot.Store.Change.{taken, retarget, update_in_tx, update, delete_in_tx, delete}
use dflybot.Store.Change.Effects.{Updated, update-Updated}
use dflybot.Store.Read.{
  list_loop, clamp_limit, skip_cursor, count_loop, resolve, get, start, list, count_prefix, count,
}
use dflybot.Store.Read.Cut.{is_cut}
use dflybot.Store.Read.Scan.{filter_keys}
use dflybot.Store.Read.Paging.{page, listed, list-page}

-- Everything that a run computes with.
program : Unit {0}
unfolding create create_in_tx existing_link choose_key insert_link create_all create_batch is_free
    is_some marshal unmarshal update update_in_tx retarget taken delete delete_in_tx update_tx
    lookup insert remove seek_list ◌==◌ has_prefix blt list_loop clamp_limit skip_cursor count_loop
    resolve get start list count_prefix count
program = tt

abbrev mem : Buckets
mem = record { links = memory Raw; targets = memory Bytes }

abbrev request : Bytes → Bytes → CreateRequest
request target key = record {
  target = target;
  rule = [];
  owner = lit "bot";
  explicit_key = key;
  gen = none;
}

abbrev link : Bytes → Bytes → ℕ → Link
link key target now = record {
  key = key;
  target = target;
  rule = [];
  owner = lit "bot";
  created_at = now;
  updated_at = now;
}

abbrev db0 : Db mem
db0 = empty_db mem

abbrev db1 : Db mem
db1 = (create mem true 7 (request (lit "http://a") (lit "/g/a")) db0).1

abbrev db2 : Db mem
db2 = (create mem true 8 (request (lit "http://b") (lit "/g/b")) db1).1

db1-IsConsistent : IsConsistent mem db1
db1-IsConsistent =
    create-IsConsistent mem true 7 (request (lit "http://a") (lit "/g/a")) db0
      (empty_db-IsConsistent mem)

db2-IsConsistent : IsConsistent mem db2
db2-IsConsistent =
    create-IsConsistent mem true 8 (request (lit "http://b") (lit "/g/b")) db1 db1-IsConsistent

-- The states are what the source would hold.
db2_links : count mem db2 ≡ 2
unfolding program
db2_links = refl

resolve_b : resolve mem (lit "http://b") db2 ≡ ok (lit "/g/b")
unfolding program
resolve_b = refl

second_page :
    list mem (lit "/g/") 1 (lit "/g/a") db2
    ≡ ok (link (lit "/g/b") (lit "http://b") 8 ∷ [], lit "/g/b")
unfolding program
second_page = refl

create-IsConsistent_example :
    IsConsistent mem (create mem true 9 (request (lit "http://c") (lit "/g/a")) db2).1
create-IsConsistent_example =
    create-IsConsistent mem true 9 (request (lit "http://c") (lit "/g/a")) db2 db2-IsConsistent

create-get_example :
    (resolve mem (lit "http://c") (create mem true 9 (request (lit "http://c") (lit "/g/c")) db2).1
      ≡ ok (lit "/g/c"))
    × (get mem (lit "/g/c") (create mem true 9 (request (lit "http://c") (lit "/g/c")) db2).1
        ≡ ok (link (lit "/g/c") (lit "http://c") 9))
    × ◌≡◌ {A = Bytes} (lit "http://c") (lit "http://c")
unfolding program
create-get_example =
    create-get mem true 9 (request (lit "http://c") (lit "/g/c")) db2
      (link (lit "/g/c") (lit "http://c") 9) db2-IsConsistent refl refl

update-Updated_example :
    Updated mem
      (lit "/g/a")
      (lit "http://z")
      (record (link (lit "/g/a") (lit "http://z") 7) { updated_at = 9 })
      db2
      (update mem true 9 (lit "/g/a") (lit "http://z") db2).1
unfolding program
update-Updated_example =
    update-Updated mem true 9 (lit "/g/a") (lit "http://z") db2
      (record (link (lit "/g/a") (lit "http://z") 7) { updated_at = 9 }) db2-IsConsistent refl

list-page_example :
    list mem (lit "/g/") 1 (lit "/g/a") db2
    ≡ page 1 (
        if is_cut (lit "/g/") (lit "/g/a") (mem.links.entries db2.links)
        then []
        else filter_keys (listed (lit "/g/") (lit "/g/a")) (mem.links.entries db2.links))
unfolding program
list-page_example = list-page mem (lit "/g/") (lit "/g/a") db2 1

batch-targets : (k : Bytes) → mem.targets.accepts (lit "http://c") k ≡ true
unfolding program
batch-targets k = refl
