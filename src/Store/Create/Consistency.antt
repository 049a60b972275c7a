-- ===== src/Store/Create/Consistency.antt =====
-- Create and CreateBatch keep the database consistent.
use dflybot.Prelude.{
  ℕ, Bool, true, false, none, some, List, [], ◌∷◌, ◌≡◌, arith, All, refl, inl, inr, Option-cases,
  Bool-cases,
}
use dflybot.Prelude.Bytes.{Bytes, eq_refl}
use dflybot.Store.Error.{Result, ok, err}
use dflybot.Store.Link.{CreateRequest, Raw, marshal, Buckets, Db, get_link, get_target}
use dflybot.Store.Consistent.{target_of, IsConsistent, put_pair-IsConsistent}
use dflybot.Store.Create.Cases.{create_in_tx_induction}
use dflybot.Store.Create.{
  choose_key, insert_link, create_in_tx, create, create_all, create_batch, new_link,
}

-- The JSON of a new link names its target.
pub target_of-marshal :
    (now : ℕ) (req : CreateRequest) (raw : Raw)
    → marshal (new_link now req) ≡ ok raw
    → target_of (some raw) ≡ some req.target
unfolding marshal
target_of-marshal now req raw h = ground arith

module _ (B : Buckets) where
  -- A key that choose_key returns is free, whatever the generator does.
  pub choose_key-free :
      (req : CreateRequest) (db : Db B) (k : Bytes)
      → choose_key B req db ≡ ok k
      → get_link B db k ≡ none
  unfolding choose_key
  choose_key-free req db k h = ground arith

  insert_link-IsConsistent :
      (now : ℕ) (req : CreateRequest) (key : Bytes) (db : Db B)
      → IsConsistent B db
      → get_target B db req.target ≡ none
      → get_link B db key ≡ none
      → B.targets.accepts req.target key ≡ true
      → IsConsistent B (insert_link B now req key db).1
  unfolding insert_link
  insert_link-IsConsistent now req key db h ft fk a = go (marshal (new_link now req)) refl
    where
      go :
          (r : Result Raw)
          → marshal (new_link now req) ≡ r
          → IsConsistent B (insert_link B now req key db).1
      go (err e) m = rw (m, insert_link) h
      go (ok raw) m = elim (Bool-cases (B.links.accepts key raw)) [
        | inl l ↦
            rw (m, insert_link)
              (rw l (
                rw a (
                  put_pair-IsConsistent B db h req.target key raw ft fk
                    (target_of-marshal now req raw m))))
        | inr l ↦ rw (m, insert_link) (rw l h)
      ]

  insert_link-accepts :
      (now : ℕ) (req : CreateRequest) (key : Bytes) (db : Db B)
      → (insert_link B now req key db).0.error ≡ none
      → B.targets.accepts req.target key ≡ true
  unfolding insert_link
  insert_link-accepts now req key db e = ground arith

  create_in_tx-IsConsistent :
      (now : ℕ) (req : CreateRequest) (db : Db B)
      → IsConsistent B db
      → ((k : Bytes)
          → get_target B db req.target ≡ none
          → choose_key B req db ≡ ok k
          → B.targets.accepts req.target k ≡ true)
      → IsConsistent B (create_in_tx B now req db).1
  create_in_tx-IsConsistent now req db h a =
      create_in_tx_induction B now req db (λ r. IsConsistent B r.1) (λ k p. h) (λ x p q. h)
        (λ k p q. insert_link-IsConsistent now req k db h p (choose_key-free req db k q) (a k p q))

  create-keeps :
      (commits : Bool) (now : ℕ) (req : CreateRequest) (db : Db B)
      → ((create_in_tx B now req db).0.error ≡ none → IsConsistent B (create_in_tx B now req db).1)
      → IsConsistent B db
      → IsConsistent B (create B commits now req db).1
  unfolding create
  create-keeps commits now req db f h = elim (Option-cases (create_in_tx B now req db).0.error) [
    | inl e ↦ elim (Bool-cases commits) [
      | inl c ↦ rw (e, create) (rw c (f e))
      | inr c ↦ rw (e, create) (rw c h)
    ]
    | inr (x, e) ↦ rw (e, create) h
  ]

  create_in_tx-done :
      (now : ℕ) (req : CreateRequest) (db : Db B)
      → IsConsistent B db
      → (create_in_tx B now req db).0.error ≡ none
      → IsConsistent B (create_in_tx B now req db).1
  unfolding create_in_tx
  create_in_tx-done now req db h e =
      create_in_tx-IsConsistent now req db h
        (λ k p q. ground (arith, insert_link-accepts now req k db))

  -- Create keeps the database consistent: for every request, every generator, and whether or not
  -- bbolt refuses a write or the commit.
  pub create-IsConsistent :
      (commits : Bool) (now : ℕ) (req : CreateRequest) (db : Db B)
      → IsConsistent B db
      → IsConsistent B (create B commits now req db).1
  create-IsConsistent commits now req db h =
      create-keeps commits now req db (create_in_tx-done now req db h) h

  abbrev pub Storable : CreateRequest → Type 0
  Storable req = (k : Bytes) → B.targets.accepts req.target k ≡ true

  create_all-IsConsistent :
      (reqs : List (ℕ × CreateRequest)) (db : Db B)
      → All (λ r. Storable r.1) reqs
      → IsConsistent B db
      → IsConsistent B (create_all B reqs db).1
  unfolding create_all
  create_all-IsConsistent [] db a h = h
  create_all-IsConsistent ((now, req) ∷ reqs) db a h =
      create_all-IsConsistent reqs (create_in_tx B now req db).1 a.1
        (create_in_tx-IsConsistent now req db h (λ k p q. a.0 k))

  -- CreateBatch keeps the database consistent, if bbolt accepts each request's target as a key:
  -- also where items of the batch fail, and where the commit does.
  pub create_batch-IsConsistent :
      (commits : Bool) (reqs : List (ℕ × CreateRequest)) (db : Db B)
      → All (λ r. Storable r.1) reqs
      → IsConsistent B db
      → IsConsistent B (create_batch B commits reqs db).1
  unfolding create_batch
  create_batch-IsConsistent commits [] db a h = h
  create_batch-IsConsistent true (r ∷ reqs) db a h = create_all-IsConsistent (r ∷ reqs) db a h
  create_batch-IsConsistent false (r ∷ reqs) db a h = h

  -- A request whose first write succeeds and whose second one bbolt refuses leaves an inconsistent
  -- transaction, which CreateBatch commits.
  pub create_batch_torn :
      (now : ℕ) (req : CreateRequest) (key : Bytes) (raw : Raw) (db : Db B)
      → get_target B db req.target ≡ none
      → choose_key B req db ≡ ok key
      → marshal (new_link now req) ≡ ok raw
      → B.links.accepts key raw ≡ true
      → B.targets.accepts req.target key ≡ false
      → ¬ IsConsistent B (create_batch B true ((now, req) ∷ []) db).1
  unfolding create_batch create_all create_in_tx insert_link
  create_batch_torn now req key raw db p q m l a h = cc (
    h.linked key req.target (
        ground (
          arith,
          target_of-marshal now req raw m,
          B.links.get-put db.links key key raw,
          eq_refl key,
        )),
    p,
  )
