-- ===== src/Store/Create.antt =====
-- Create, CreateBatch and createInTx of urlshort/store_bbolt.go.
pub mod Cases
pub mod Consistency
pub mod Reads
use dflybot.Prelude.{
  ℕ, Bool, true, false, not, ◌&&◌, Option, none, some, List, [], ◌∷◌, if◌then◌else◌,
}
use dflybot.Prelude.Bytes.{Bytes, ◌==◌}
use dflybot.Store.Error.{
  Result, ok, err, ◌>>=◌, conflict, inconsistent, invalid_link, no_generator, empty_key, put_failed,
  commit_failed,
}
use dflybot.Store.Link.{
  Link, CreateRequest, CreateResult, failed, found, marshal, unmarshal, Buckets, Db, get_link,
  get_target,
}

unfoldable pub is_some {ℓ} : {A : Type ℓ} → Option A → Bool
is_some none = false
is_some (some a) = true

abbrev pub new_link : ℕ → CreateRequest → Link
new_link now req = record {
  key = [];
  target = req.target;
  rule = req.rule;
  owner = req.owner;
  created_at = now;
  updated_at = now;
}

module _ (B : Buckets) where
  -- The function that createInTx hands to the generator.
  unfoldable pub is_free : Db B → Bytes → Result Bool
  unfolding is_some
  is_free db candidate = ok (not (is_some (get_link B db candidate)))

  -- The target is mapped to `k` already.
  unfoldable pub existing_link : CreateRequest → Bytes → Db B → CreateResult
  existing_link req k db =
      if not (req.explicit_key == []) && not (req.explicit_key == k)
      then failed conflict
      else elim (get_link B db k) [
        | none ↦ failed inconsistent
        | some raw ↦ elim (unmarshal raw) [
          | none ↦ failed invalid_link
          | some l ↦ found (record l { key = k }) false
        ]
      ]

  unfoldable pub choose_key : CreateRequest → Db B → Result Bytes
  unfolding is_some
  choose_key req db =
      if not (req.explicit_key == [])
      then (if is_some (get_link B db req.explicit_key) then err conflict else ok req.explicit_key)
      else elim req.gen [
        | none ↦ err no_generator
        | some gen ↦ do
          k ← gen (is_free db)
          if k == []
              then err empty_key
              else if is_some (get_link B db k)
              then err conflict
              else ok k
      ]

  -- The two writes. What the first has written stays in the transaction if the second fails.
  unfoldable pub insert_link : ℕ → CreateRequest → Bytes → Db B → CreateResult × Db B
  insert_link now req key db = elim (marshal (new_link now req)) [
    | err e ↦ (failed e, db)
    | ok raw ↦
        if B.links.accepts key raw
        then (let db1 : Db B = record db { links = B.links.put db.links key raw } in
            if B.targets.accepts req.target key
            then (
              found (record (new_link now req) { key = key }) true,
              record db1 { targets = B.targets.put db.targets req.target key },
            )
            else (failed put_failed, db1))
        else (failed put_failed, db)
  ]

  unfoldable pub create_in_tx : ℕ → CreateRequest → Db B → CreateResult × Db B
  create_in_tx now req db = elim (get_target B db req.target) [
    | some k ↦ (existing_link req k db, db)
    | none ↦ elim (choose_key req db) [
      | err e ↦ (failed e, db)
      | ok key ↦ insert_link now req key db
    ]
  ]

  -- `commits` says whether bbolt's commit succeeds. After a failed commit Create returns the link
  -- together with the error.
  unfoldable pub create : Bool → ℕ → CreateRequest → Db B → CreateResult × Db B
  create commits now req db =
      let (r, db') = create_in_tx now req db in
      elim r.error [
        | some e ↦ (r, db)
        | none ↦ if commits then (r, db') else (record r { error = some commit_failed }, db)
      ]

  -- The loop of CreateBatch; s.now() is read anew for each item.
  unfoldable pub create_all : List (ℕ × CreateRequest) → Db B → List CreateResult × Db B
  create_all [] db = ([], db)
  create_all ((now, req) ∷ reqs) db =
      let (r, db1) = create_in_tx now req db in let (rs, db2) = create_all reqs db1 in (r ∷ rs, db2)

  -- An item's error aborts nothing: the transaction returns nil.
  unfoldable pub create_batch :
      Bool → List (ℕ × CreateRequest) → Db B → Result (List CreateResult) × Db B
  create_batch commits [] db = (ok [], db)
  create_batch commits (req ∷ reqs) db =
      let (rs, db') = create_all (req ∷ reqs) db in
      if commits then (ok rs, db') else (err commit_failed, db)
