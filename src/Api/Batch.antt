-- ===== src/Api/Batch.antt =====
-- handleLinksBatch of urlshort/api.go, from the decoded request on.
pub mod Results
pub mod Effects
use dflybot.Prelude.{
  ℕ, Bool, true, false, Option, none, some, List, [], ◌∷◌, if◌then◌else◌, ltb, length,
}
use mathlib.Core.List.{map}
use dflybot.Prelude.Bytes.{Bytes, lit}
use dflybot.Store.Error.{Error, Result, ok, err}
use dflybot.Store.Link.{Link, CreateRequest, CreateResult, Buckets, Db}
use dflybot.Store.Create.{create_batch}
use dflybot.Auth.{Client}
use dflybot.Api.Types.{
  Server, ApiError, bad_request, internal_error, link_view, BatchResult, Body, Access, no_access,
  Outcome, api_failure, api_error_from_store, recorded, Decoded, decoded, decode_error,
}
use dflybot.Api.Types
use dflybot.Api.Prepare.{Prepared, prepare_create}
use dflybot.Api.Prepare
use dflybot.Api.Links.{Item}

abbrev pub max_batch_create : ℕ
max_batch_create = 100

-- An item with the clock and the random source at the time of its creation.
pub record BatchItem : Type 0 where
  pub item : Item
  pub now : ℕ
  pub reads : List (Option ℕ)

-- One entry of `results` after the first loop. A request is pending if the item has an entry in
-- `reqs` and `indexes`: the requests are in the order of the items, so that each result of the
-- store belongs to the next pending one.
pub record Slot : Type 0 where
  pub result : BatchResult
  pub pending : Option (ℕ × CreateRequest)
  pub set_error : Option Error

abbrev blank_result : Bytes → BatchResult
blank_result t = record { target = t; created = false; link = none; error = none }

-- status.SetError keeps the last error.
unfoldable pub or_later : Option Error → Option Error → Option Error
or_later e none = e
or_later e (some x) = some x

-- The requests that are left to the store.
unfoldable pub pending_requests : List Slot → List (ℕ × CreateRequest)
pending_requests [] = []
pending_requests (slot ∷ slots) =
    let rest = pending_requests slots in elim slot.pending [ none ↦ rest | some req ↦ req ∷ rest ]

unfoldable pub prepare_errors : List Slot → Option Error
unfolding or_later
prepare_errors [] = none
prepare_errors (slot ∷ slots) = or_later slot.set_error (prepare_errors slots)

module _ (B : Buckets) (s : Server) where
  -- The switch of the first loop.
  unfoldable pub slot_of : BatchItem → Prepared → Slot
  slot_of b (Prepared.failed e x) = record {
    result = record (blank_result b.item.target) { error = some e.code };
    pending = none;
    set_error = x;
  }
  slot_of b (Prepared.existing l) = record {
    result = record (blank_result b.item.target) { link = some (link_view s l) };
    pending = none;
    set_error = none;
  }
  slot_of b (Prepared.request req) = record {
    result = blank_result b.item.target;
    pending = some (b.now, req);
    set_error = none;
  }

  unfoldable pub prepare_slot : Client → Db B → BatchItem → Slot
  unfolding slot_of
  prepare_slot c db b = slot_of b (prepare_create B s b.reads c b.item.target b.item.key db)

  unfoldable pub prepare_all : Client → Db B → List BatchItem → List Slot
  unfolding prepare_slot
  prepare_all c db [] = []
  prepare_all c db (b ∷ bs) = prepare_slot c db b ∷ prepare_all c db bs

  -- What the second loop writes into an item's entry.
  unfoldable pub fill_one : BatchResult → CreateResult → BatchResult
  fill_one r stored = elim stored.error [
    | some e ↦ record r { error = some (api_error_from_store e).code }
    | none ↦ elim stored.link [
      | none ↦ r
      | some l ↦ record r { link = some (link_view s l); created = stored.created }
    ]
  ]

  unfoldable pub fill : List Slot → List CreateResult → List BatchResult
  unfolding fill_one
  fill [] stored = []
  fill (slot ∷ slots) [] = slot.result ∷ fill slots []
  fill (slot ∷ slots) (r ∷ rs) = elim slot.pending [
    | none ↦ slot.result ∷ fill slots (r ∷ rs)
    | some req ↦ fill_one slot.result r ∷ fill slots rs
  ]

  unfoldable pub stored_errors : List CreateResult → Option Error
  unfolding or_later recorded
  stored_errors [] = none
  stored_errors (r ∷ rs) =
      let rest = stored_errors rs in
      elim r.error [ none ↦ rest | some e ↦ or_later (recorded e) rest ]

  unfoldable pub batch_response : List BatchResult → Option Error → Db B → Outcome B
  batch_response results x db = record {
    status = 200;
    body = Body.batch results;
    access = record no_access { action = lit "batch_create" };
    set_error = x;
    db = db;
  }

  -- CreateBatch is called if a request is left for it.
  unfoldable pub run_batch : Bool → List Slot → Db B → Outcome B
  unfolding batch_response pending_requests prepare_errors stored_errors fill
  run_batch commits slots db = elim (pending_requests slots) [
    | [] ↦ batch_response (fill slots []) (prepare_errors slots) db
    | req ∷ reqs ↦
        let (r, db') = create_batch B commits (req ∷ reqs) db in
        elim r [
          | err e ↦ record (api_failure internal_error db') { set_error = some e }
          | ok stored ↦
              batch_response (fill slots stored)
                (or_later (prepare_errors slots) (stored_errors stored)) db'
        ]
  ]

  unfoldable pub links_batch_items : Bool → Client → List BatchItem → Db B → Outcome B
  unfolding prepare_all run_batch
  links_batch_items commits c items db =
      if ltb max_batch_create (length items)
      then api_failure bad_request db
      else run_batch commits (prepare_all c db items) db

  unfoldable pub handle_links_batch : Bool → Client → Decoded (List BatchItem) → Db B → Outcome B
  unfolding links_batch_items
  handle_links_batch commits c (decoded []) db = api_failure bad_request db
  handle_links_batch commits c (decoded (item ∷ items)) db =
      links_batch_items commits c (item ∷ items) db
  handle_links_batch commits c other db = api_failure (decode_error other) db
