-- ===== src/Api/Batch/Results.antt =====
-- The results of a batch: one for each item, in order, each with a link or an error.
use mathlib.Core.List.{map}
use mathlib.Core.Path.{ap₂}
use dflybot.Prelude.{
  ℕ, suc, Bool, true, not, none, some, List, [], ◌∷◌, ◌≡◌, ◌⊎◌, arith, refl, inl, inr, length, All,
  List-cases, ap, ◌∙◌,
}
use dflybot.Prelude.Bytes.{Bytes}
use dflybot.Store.Link.{CreateRequest, CreateResult, marshal, Buckets, Db}
use dflybot.Store.Create.{
  is_some, existing_link, insert_link, create_in_tx, create_all, create_batch,
}
use dflybot.Store.Create.Cases.{create_in_tx_induction}
use dflybot.Auth.{Client}
use dflybot.Api.Types.{Server, BatchResult, Body, decoded}
use dflybot.Api.Prepare.{Prepared, prepare_create}
use dflybot.Api.Batch.{
  BatchItem, Slot, pending_requests, slot_of, prepare_slot, prepare_all, fill_one, fill,
  batch_response, run_batch, links_batch_items, handle_links_batch,
}

-- A result of the store is a link or an error.
abbrev IsAnswered : CreateResult → Type 0
IsAnswered r = r.error ≡ none → is_some r.link ≡ true

module _ (B : Buckets) where
  existing_link-IsAnswered :
      (req : CreateRequest) (k : Bytes) (db : Db B) → IsAnswered (existing_link B req k db)
  unfolding existing_link is_some
  existing_link-IsAnswered req k db e = ground arith

  insert_link-IsAnswered :
      (now : ℕ) (req : CreateRequest) (k : Bytes) (db : Db B)
      → IsAnswered (insert_link B now req k db).0
  unfolding insert_link marshal is_some
  insert_link-IsAnswered now req k db e = ground arith

  create_in_tx-IsAnswered :
      (now : ℕ) (req : CreateRequest) (db : Db B) → IsAnswered (create_in_tx B now req db).0
  create_in_tx-IsAnswered now req db =
      create_in_tx_induction B now req db (λ r. IsAnswered r.0)
        (λ k p. existing_link-IsAnswered req k db) (λ x p q e. cc)
        (λ k p q. insert_link-IsAnswered now req k db)

  create_all-IsAnswered :
      (reqs : List (ℕ × CreateRequest)) (db : Db B)
      → All IsAnswered (create_all B reqs db).0 × (length (create_all B reqs db).0 ≡ length reqs)
  unfolding create_all
  create_all-IsAnswered [] db = (tt, refl)
  create_all-IsAnswered ((now, req) ∷ reqs) db =
      let (a, n) = create_all-IsAnswered reqs (create_in_tx B now req db).1 in
      ((create_in_tx-IsAnswered now req db, a), ap (λ m. suc m) n)

-- Exactly one of the link and the error is set.
abbrev pub IsOne : BatchResult → Type 0
IsOne r = is_some r.link ≡ not (is_some r.error)

-- An entry that is done has one of them, a pending one has neither.
abbrev IsSlot : Slot → Type 0
IsSlot slot =
    ((slot.pending ≡ none) × IsOne slot.result)
    ⊎ ((req : ℕ × CreateRequest) × (slot.pending ≡ some req)
        × (slot.result.link ≡ none)
        × (slot.result.error ≡ none))

module _ (B : Buckets) (s : Server) where
  slot_of-IsSlot :
      (b : BatchItem) (p : Prepared)
      → IsSlot (slot_of B s b p) × ((slot_of B s b p).result.target ≡ b.item.target)
  unfolding slot_of is_some
  slot_of-IsSlot b (Prepared.failed e x) = (inl (refl, refl), refl)
  slot_of-IsSlot b (Prepared.existing l) = (inl (refl, refl), refl)
  slot_of-IsSlot b (Prepared.request req) = (inr ((b.now, req), refl, refl, refl), refl)

  prepare_all-IsSlot :
      (c : Client) (db : Db B) (bs : List BatchItem)
      → All IsSlot (prepare_all B s c db bs)
        × (map (λ slot. slot.result.target) (prepare_all B s c db bs) ≡ map (λ b. b.item.target) bs)
  unfolding prepare_all prepare_slot
  prepare_all-IsSlot c db [] = (tt, refl)
  prepare_all-IsSlot c db (b ∷ bs) =
      let (a, m) = prepare_all-IsSlot c db bs in
      let (i, t) = slot_of-IsSlot b (prepare_create B s b.reads c b.item.target b.item.key db) in
      ((i, a), ap₂ (λ x xs. x ∷ xs) t m)

  fill_one-IsOne :
      (r : BatchResult) (stored : CreateResult)
      → r.link ≡ none
      → r.error ≡ none
      → IsAnswered stored
      → IsOne (fill_one B s r stored) × ((fill_one B s r stored).target ≡ r.target)
  unfolding fill_one is_some
  fill_one-IsOne r stored x y a = (ground arith, ground arith)

  fill-IsOne :
      (slots : List Slot) (stored : List CreateResult)
      → All IsSlot slots
      → All IsAnswered stored
      → length stored ≡ length (pending_requests slots)
      → All IsOne (fill B s slots stored)
        × (map (λ r. r.target) (fill B s slots stored) ≡ map (λ slot. slot.result.target) slots)
  unfolding fill pending_requests
  fill-IsOne [] stored h a n = (tt, refl)
  fill-IsOne (slot ∷ slots) [] (inl (p, one), h) a n =
      let (all, m) = fill-IsOne slots [] h a (ground arith) in
      ((one, all), ap (λ ts. slot.result.target ∷ ts) m)
  fill-IsOne (slot ∷ slots) [] (inr (req, p, x, y), h) a n = absurd (ground arith)
  fill-IsOne (slot ∷ slots) (r ∷ rs) (inl (p, one), h) a n =
      let (all, m) = fill-IsOne slots (r ∷ rs) h a (ground arith) in
      rw (p, fill) ((one, all), ap (λ ts. slot.result.target ∷ ts) m)
  fill-IsOne (slot ∷ slots) (r ∷ rs) (inr (req, p, x, y), h) (b, a) n =
      let (all, m) = fill-IsOne slots rs h a (ground arith) in
      let (one, t) = fill_one-IsOne slot.result r x y b in
      rw (p, fill) ((one, all), ap₂ (λ u us. u ∷ us) t m)

  -- The entries and the targets of a finished batch.
  abbrev pub AnswersAll : List BatchItem → List BatchResult → Type 0
  AnswersAll items results =
      All IsOne results × (map (λ r. r.target) results ≡ map (λ b. b.item.target) items)

  run_batch-fill :
      (commits : Bool) (slots : List Slot) (db : Db B) (results : List BatchResult)
      → (run_batch B s commits slots db).body ≡ Body.batch results
      → (stored : List CreateResult) × All IsAnswered stored
        × (length stored ≡ length (pending_requests slots))
        × (results ≡ fill B s slots stored)
  unfolding run_batch batch_response create_batch
  run_batch-fill commits slots db results e = elim (List-cases (pending_requests slots)) [
    | inl p ↦ ([], tt, rw p refl, ground arith)
    | inr (req, reqs, p) ↦
        let stored = (create_all B (req ∷ reqs) db).0 in
        let (a, n) = create_all-IsAnswered B (req ∷ reqs) db in (stored, a, rw p n, ground arith)
  ]

  -- A batch that is answered with results has one result for each item, in the order of the items
  -- and with its target, and each result has either a link or an error, never both.
  pub handle_links_batch-AnswersAll :
      (commits : Bool) (c : Client) (items : List BatchItem) (db : Db B)
      (results : List BatchResult)
      → (handle_links_batch B s commits c (decoded items) db).body ≡ Body.batch results
      → AnswersAll items results
  unfolding handle_links_batch links_batch_items
  handle_links_batch-AnswersAll commits c [] db results e = absurd (ground arith)
  handle_links_batch-AnswersAll commits c (b ∷ bs) db results e =
      let slots = prepare_all B s c db (b ∷ bs) in
      let (h, t) = prepare_all-IsSlot c db (b ∷ bs) in
      let (stored, a, n, r) = run_batch-fill commits slots db results (ground arith) in
      let (all, m) = fill-IsOne slots stored h a n in rw r (all, m ∙ t)
