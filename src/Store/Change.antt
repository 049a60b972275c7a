-- ===== src/Store/Change.antt =====
-- Update and Delete of urlshort/store_bbolt.go.
mod Cases
pub mod Consistency
pub mod Effects
pub mod Frame
use dflybot.Prelude.{ℕ, Bool, not, Option, none, some, if◌then◌else◌}
use dflybot.Prelude.Bytes.{Bytes, ◌==◌}
use dflybot.Store.Error.{Result, ok, err, not_found, conflict, invalid_link, put_failed}
use dflybot.Store.Link.{Link, Raw, marshal, unmarshal, Buckets, Db, get_link, get_target, update_tx}

module _ (B : Buckets) where
  -- The target is mapped to another key.
  unfoldable pub taken : Bytes → Bytes → Db B → Bool
  taken key target db = elim (get_target B db target) [
    | none ↦ Bool.false
    | some existing ↦ not (existing == key)
  ]

  -- The writes of Update for a link `l` with another target.
  unfoldable pub retarget : ℕ → Bytes → Bytes → Link → Db B → Result Link × Db B
  retarget now key target l db =
      let cleared = B.targets.delete db.targets l.target in
      let db1 : Db B = record db { targets = cleared } in
      if B.targets.accepts target key
      then (let db2 : Db B = record db { targets = B.targets.put cleared target key } in
          let l' : Link = record l { target = target; updated_at = now } in
          elim (marshal l') [
            | err e ↦ (err e, db2)
            | ok raw ↦
                if B.links.accepts key raw
                then (
                  ok (record l' { key = key }),
                  record db2 { links = B.links.put db.links key raw },
                )
                else (err put_failed, db2)
          ])
      else (err put_failed, db1)

  unfoldable pub update_in_tx : ℕ → Bytes → Bytes → Db B → Result Link × Db B
  update_in_tx now key target db = elim (get_link B db key) [
    | none ↦ (err not_found, db)
    | some raw ↦ elim (unmarshal raw) [
      | none ↦ (err invalid_link, db)
      | some l ↦
          if taken key target db
          then (err conflict, db)
          else if not (l.target == target)
          then retarget now key target l db
          else (ok (record l { key = key }), db)
    ]
  ]

  unfoldable pub update : Bool → ℕ → Bytes → Bytes → Db B → Result Link × Db B
  unfolding update_in_tx update_tx
  update commits now key target = update_tx B commits (update_in_tx now key target)

  unfoldable pub delete_in_tx : Bytes → Db B → Result (Unit {0}) × Db B
  delete_in_tx key db = elim (get_link B db key) [
    | none ↦ (err not_found, db)
    | some raw ↦ elim (unmarshal raw) [
      | none ↦ (err invalid_link, db)
      | some l ↦ (
        ok tt,
        record db {
          targets = B.targets.delete db.targets l.target;
          links = B.links.delete db.links key;
        },
      )
    ]
  ]

  unfoldable pub delete : Bool → Bytes → Db B → Result (Unit {0}) × Db B
  unfolding delete_in_tx update_tx
  delete commits key = update_tx B commits (delete_in_tx key)
