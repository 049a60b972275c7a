-- ===== src/Api/Batch/Effects.antt =====
-- What a batch writes.
use dflybot.Prelude.{
  ℕ, Bool, true, false, List, [], ◌∷◌, ◌≡◌, arith, refl, inl, inr, All, ltb, List-cases, Bool-cases,
  length, ap, ◌∙◌, ◌⊎◌,
}
use dflybot.Prelude.Bytes.{Bytes}
use dflybot.Store.Link.{CreateRequest, Buckets, Db, get_link}
use dflybot.Store.Create.{create_in_tx, create_all, create_batch}
use dflybot.Store.Create.Consistency.{Storable, create_batch-IsConsistent}
use dflybot.Store.Consistent.{IsConsistent}
use dflybot.Auth.{Client, can_access}
use dflybot.Api.Target.{target, canonicalize_target}
use dflybot.Api.Types.{Server, decoded}
use dflybot.Api.Prepare.{Prepared, prepare_create}
use dflybot.Api.Scope.{IsScoped, prepare_create-IsScoped, create_in_tx-scope}
use dflybot.Api.Roundtrip.{prepare_create-target}
use dflybot.Api.Batch.{
  BatchItem, Slot, pending_requests, slot_of, prepare_slot, prepare_all, batch_response, run_batch,
  links_batch_items, handle_links_batch,
}

module _ (B : Buckets) (s : Server) where
  pending_requests-All :
      (P : CreateRequest → Type 0) (c : Client) (db : Db B)
      → ((b : BatchItem) (req : CreateRequest)
          → prepare_create B s b.reads c b.item.target b.item.key db ≡ Prepared.request req
          → P req)
      → (bs : List BatchItem) → All (λ r. P r.1) (pending_requests (prepare_all B s c db bs))
  unfolding pending_requests prepare_all prepare_slot slot_of
  pending_requests-All P c db f [] = tt
  pending_requests-All P c db f (b ∷ bs) =
      go (pending_requests-All P c db f bs)
        (prepare_create B s b.reads c b.item.target b.item.key db) refl
    where
      go :
          All (λ r. P r.1) (pending_requests (prepare_all B s c db bs))
          → (p : Prepared) → prepare_create B s b.reads c b.item.target b.item.key db ≡ p
          → All (λ r. P r.1) (pending_requests (slot_of B s b p ∷ prepare_all B s c db bs))
      go rest (Prepared.failed e x) q = rest
      go rest (Prepared.existing l) q = rest
      go rest (Prepared.request req) q = (f b req q, rest)

  run_batch-db :
      (commits : Bool) (slots : List Slot) (db : Db B)
      → (run_batch B s commits slots db).db ≡ (create_batch B commits (pending_requests slots) db).1
  unfolding run_batch batch_response create_batch
  run_batch-db commits slots db = elim (List-cases (pending_requests slots)) [
    | inl p ↦ ground arith
    | inr (req, reqs, p) ↦ ground arith
  ]

  -- A batch either runs CreateBatch on what is pending or leaves the database.
  handle_links_batch-db :
      (commits : Bool) (c : Client) (items : List BatchItem) (db : Db B)
      → ((handle_links_batch B s commits c (decoded items) db).db ≡ db)
        ⊎ ((handle_links_batch B s commits c (decoded items) db).db
            ≡ (create_batch B commits (pending_requests (prepare_all B s c db items)) db).1)
  unfolding handle_links_batch links_batch_items
  handle_links_batch-db commits c [] db = inl refl
  handle_links_batch-db commits c (b ∷ bs) db = elim (Bool-cases (ltb 100 (length (b ∷ bs)))) [
    | inl h ↦ inl (rw h refl)
    | inr h ↦ inr (rw h (run_batch-db commits (prepare_all B s c db (b ∷ bs)) db))
  ]

  -- A batch keeps the database consistent, if bbolt accepts every canonical target as a key: also
  -- where some of its items fail.
  pub handle_links_batch-IsConsistent :
      (commits : Bool) (c : Client) (items : List BatchItem) (db : Db B)
      → ((raw t k : Bytes)
          → canonicalize_target s.urls raw ≡ target t
          → B.targets.accepts t k ≡ true)
      → IsConsistent B db
      → IsConsistent B (handle_links_batch B s commits c (decoded items) db).db
  handle_links_batch-IsConsistent commits c items db fits h =
      let reqs = pending_requests (prepare_all B s c db items) in
      let storable : All (λ r. Storable B r.1) reqs =
        pending_requests-All (Storable B) c db
          (λ b req p k.
            fits b.item.target req.target k
              (prepare_create-target B s b.reads c b.item.target b.item.key db req h p))
          items in
      elim (handle_links_batch-db commits c items db) [
        | inl e ↦ rw e h
        | inr e ↦ rw e (create_batch-IsConsistent B commits reqs db storable h)
      ]

  create_all-scope :
      (c : Client) (reqs : List (ℕ × CreateRequest)) (db : Db B) (k : Bytes)
      → All (λ r. IsScoped c r.1) reqs
      → can_access c k ≡ false
      → get_link B (create_all B reqs db).1 k ≡ get_link B db k
  unfolding create_all
  create_all-scope c [] db k h a = refl
  create_all-scope c ((now, req) ∷ reqs) db k (h, hs) a =
      create_all-scope c reqs (create_in_tx B now req db).1 k hs a
      ∙ create_in_tx-scope B c req h now db k a

  create_batch-scope :
      (commits : Bool) (c : Client) (reqs : List (ℕ × CreateRequest)) (db : Db B) (k : Bytes)
      → All (λ r. IsScoped c r.1) reqs
      → can_access c k ≡ false
      → get_link B (create_batch B commits reqs db).1 k ≡ get_link B db k
  unfolding create_batch
  create_batch-scope commits c [] db k h a = refl
  create_batch-scope true c (r ∷ reqs) db k h a = create_all-scope c (r ∷ reqs) db k h a
  create_batch-scope false c (r ∷ reqs) db k h a = refl

  -- A batch leaves every entry of the links bucket whose key is outside its client's namespaces.
  pub handle_links_batch_in_scope :
      (commits : Bool) (c : Client) (items : List BatchItem) (db : Db B) (k : Bytes)
      → can_access c k ≡ false
      → get_link B (handle_links_batch B s commits c (decoded items) db).db k ≡ get_link B db k
  handle_links_batch_in_scope commits c items db k a =
      let reqs = pending_requests (prepare_all B s c db items) in
      let scoped : All (λ r. IsScoped c r.1) reqs =
        pending_requests-All (IsScoped c) c db
          (λ b req p. prepare_create-IsScoped B s b.reads c b.item.target b.item.key db req p)
          items in
      elim (handle_links_batch-db commits c items db) [
        | inl e ↦ ap (λ d. get_link B d k) e
        | inr e ↦ rw e (create_batch-scope commits c reqs db k scoped a)
      ]
