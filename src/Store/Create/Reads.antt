-- ===== src/Store/Create/Reads.antt =====
-- What Create returns, and what a reader sees after it.
use dflybot.Prelude.{ℕ, Bool, false, none, some, [], ◌≡◌, ◌≢◌, arith, refl, if◌then◌else◌}
use dflybot.Prelude.Bytes.{Bytes, eq_iff, eq_refl}
use dflybot.Store.Error.{ok, conflict, commit_failed}
use dflybot.Store.Link.{
  Link, CreateRequest, failed, found, json, marshal, unmarshal, Buckets, Db, get_link, get_target,
}
use dflybot.Store.Consistent.{IsConsistent}
use dflybot.Store.Read.{resolve, get}
use dflybot.Store.Create.Cases.{create_in_tx_induction}
use dflybot.Store.Create.{existing_link, insert_link, create_in_tx, create}

module _ (B : Buckets) where
  -- The link `l` answers the request `req` in the database `db`.
  abbrev pub ReadBack : CreateRequest → Link → Db B → Type 0
  ReadBack req l db =
      (resolve B req.target db ≡ ok l.key) × (get B l.key db ≡ ok l) × (l.target ≡ req.target)

  existing_link-ReadBack :
      (req : CreateRequest) (k : Bytes) (db : Db B) (l : Link)
      → IsConsistent B db
      → get_target B db req.target ≡ some k
      → (existing_link B req k db).link ≡ some l
      → ReadBack req l db
  unfolding existing_link resolve get unmarshal
  existing_link-ReadBack req k db l h p f = ground (arith, h.mapped req.target k)

  insert_link-ReadBack :
      (now : ℕ) (req : CreateRequest) (key : Bytes) (db : Db B) (l : Link)
      → (insert_link B now req key db).0.error ≡ none
      → (insert_link B now req key db).0.link ≡ some l
      → ReadBack req l (insert_link B now req key db).1
  unfolding insert_link resolve get unmarshal marshal
  insert_link-ReadBack now req key db l e f = ground (
    arith,
    B.targets.get-put db.targets req.target req.target key,
    B.links.get-put db.links key key (json req.target req.rule req.owner now now),
    eq_refl key,
    eq_refl req.target,
  )

  create_in_tx-ReadBack :
      (now : ℕ) (req : CreateRequest) (db : Db B) (l : Link)
      → IsConsistent B db
      → (create_in_tx B now req db).0.error ≡ none
      → (create_in_tx B now req db).0.link ≡ some l
      → ReadBack req l (create_in_tx B now req db).1
  create_in_tx-ReadBack now req db l h =
      create_in_tx_induction B now req db
        (λ r. r.0.error ≡ none → r.0.link ≡ some l → ReadBack req l r.1)
        (λ k p e f. existing_link-ReadBack req k db l h p f) (λ x p q e f. cc)
        (λ k p q. insert_link-ReadBack now req k db l)

  -- A request that Create answers without an error can be read back: the target resolves to the
  -- key of the link, Get of that key returns the link itself, and the link has the target asked
  -- for. This holds for new links and for those that existed.
  pub create-get :
      (commits : Bool) (now : ℕ) (req : CreateRequest) (db : Db B) (l : Link)
      → IsConsistent B db
      → (create B commits now req db).0.error ≡ none
      → (create B commits now req db).0.link ≡ some l
      → (resolve B req.target (create B commits now req db).1 ≡ ok l.key)
        × (get B l.key (create B commits now req db).1 ≡ ok l)
        × (l.target ≡ req.target)
  unfolding create
  create-get commits now req db l h e f = ground (arith, create_in_tx-ReadBack now req db l h)

  -- Create of a target that is mapped to another key than the explicit one is a conflict, and
  -- writes nothing.
  pub create_mapped :
      (commits : Bool) (now : ℕ) (req : CreateRequest) (db : Db B) (k : Bytes)
      → get_target B db req.target ≡ some k
      → req.explicit_key ≢ []
      → req.explicit_key ≢ k
      → create B commits now req db ≡ (failed conflict, db)
  unfolding create create_in_tx existing_link
  create_mapped commits now req db k p e f =
      ground (arith, eq_iff req.explicit_key [], eq_iff req.explicit_key k)

  -- Once a target has a link, Create of it without an explicit key returns that link, reports that
  -- nothing was created and writes nothing: whatever rule, owner and generator the request names.
  pub create_again :
      (commits : Bool) (now : ℕ) (req : CreateRequest) (db : Db B) (l : Link)
      → ReadBack req l db
      → req.explicit_key ≡ []
      → create B commits now req db ≡ (
          if commits
          then (found l false, db)
          else (record (found l false) { error = some commit_failed }, db))
  unfolding create create_in_tx existing_link resolve get
  create_again commits now req db l r e = ground (arith, eq_refl [], r.1, r.0)

  -- The frame of the two writes.
  insert_link-frame :
      (now : ℕ) (req : CreateRequest) (key : Bytes) (db : Db B) (l : Link) (k t : Bytes)
      → (insert_link B now req key db).0.link ≡ some l
      → k ≢ l.key
      → t ≢ req.target
      → (get_link B (insert_link B now req key db).1 k ≡ get_link B db k)
        × (get_target B (insert_link B now req key db).1 t ≡ get_target B db t)
  unfolding insert_link marshal
  insert_link-frame now req key db l k t f a b =
      let links = B.links.get-put db.links key k (json req.target req.rule req.owner now now) in
      let targets = B.targets.get-put db.targets req.target t key in
      (ground (arith, links, eq_iff key k), ground (arith, targets, eq_iff req.target t))

  create_in_tx-frame :
      (now : ℕ) (req : CreateRequest) (db : Db B) (l : Link) (k t : Bytes)
      → k ≢ l.key
      → t ≢ req.target
      → (create_in_tx B now req db).0.link ≡ some l
      → (get_link B (create_in_tx B now req db).1 k ≡ get_link B db k)
        × (get_target B (create_in_tx B now req db).1 t ≡ get_target B db t)
  create_in_tx-frame now req db l k t a b =
      create_in_tx_induction B now req db
        (λ r.
          r.0.link ≡ some l
          → (get_link B r.1 k ≡ get_link B db k) × (get_target B r.1 t ≡ get_target B db t))
        (λ key p f. (refl, refl)) (λ x p q f. cc)
        (λ key p q f. insert_link-frame now req key db l k t f a b)

  -- Create leaves the links under other keys and the mappings of other targets as they are.
  pub create_frame :
      (commits : Bool) (now : ℕ) (req : CreateRequest) (db : Db B) (l : Link) (k t : Bytes)
      → (create B commits now req db).0.link ≡ some l
      → k ≢ l.key
      → t ≢ req.target
      → (get_link B (create B commits now req db).1 k ≡ get_link B db k)
        × (get_target B (create B commits now req db).1 t ≡ get_target B db t)
  unfolding create
  create_frame commits now req db l k t f a b =
      ground (arith, create_in_tx-frame now req db l k t a b)
