-- ===== src/Store/Change/Effects.antt =====
-- What a reader sees after Update and Delete.
use dflybot.Prelude.{ℕ, Bool, true, false, some, ◌≡◌, ◌≢◌, arith, refl}
use dflybot.Prelude.Bytes.{Bytes, ◌==◌, eq_iff, eq_refl}
use dflybot.Store.Error.{Error, Result, ok, err, not_found, conflict}
use dflybot.Store.Link.{
  Link, Raw, json, marshal, unmarshal, Buckets, Db, get_link, get_target, update_tx,
}
use dflybot.Store.Consistent.{IsConsistent}
use dflybot.Store.Read.{resolve, get}
use dflybot.Store.Change.Cases.{update_in_tx_induction, without_pair}
use dflybot.Store.Change.Consistency.{target_of-unmarshal}
use dflybot.Store.Change.{taken, retarget, update_in_tx, update, delete_in_tx, delete}

module _ (B : Buckets) where
  -- A transaction that returns a value has committed what its function wrote.
  pub update_tx-eq-ok {ℓ} :
      {A : Type ℓ} (commits : Bool) (run : Db B → Result A × Db B) (db : Db B) (a : A)
      → (update_tx B commits run db).0 ≡ ok a
      → ((run db).0 ≡ ok a) × ((update_tx B commits run db).1 ≡ (run db).1)
  unfolding update_tx
  update_tx-eq-ok commits run db a e = ground arith

  -- A transaction that returns an error has written nothing.
  pub update_tx-eq-err {ℓ} :
      {A : Type ℓ} (commits : Bool) (run : Db B → Result A × Db B) (db : Db B) (x : Error)
      → (update_tx B commits run db).0 ≡ err x
      → (update_tx B commits run db).1 ≡ db
  unfolding update_tx
  update_tx-eq-err commits run db x e = ground arith

  -- What Update promises of the database that it leaves.
  pub record Updated (key target : Bytes) (l : Link) (db db' : Db B) : Type 0 where
    pub stored : get B key db' ≡ ok l
    pub resolved : resolve B target db' ≡ ok key
    pub named : l.target ≡ target
    pub unmapped :
        (old : Link)
        → get B key db ≡ ok old
        → old.target ≢ target
        → resolve B old.target db' ≡ err not_found
    pub kept :
        (old : Link)
        → get B key db ≡ ok old
        → (l.owner ≡ old.owner) × (l.rule ≡ old.rule) × (l.created_at ≡ old.created_at)
    pub other_links : (k : Bytes) → k ≢ key → get_link B db' k ≡ get_link B db k
    pub other_targets :
        (old : Link) (t : Bytes)
        → get B key db ≡ ok old
        → t ≢ old.target
        → t ≢ target
        → get_target B db' t ≡ get_target B db t

  retarget-Updated :
      (now : ℕ) (key target : Bytes) (raw : Raw) (l a : Link) (db : Db B)
      → get_link B db key ≡ some raw
      → unmarshal raw ≡ some l
      → (l.target == target) ≡ false
      → (retarget B now key target l db).0 ≡ ok a
      → Updated key target a db (retarget B now key target l db).1
  unfolding retarget get resolve marshal unmarshal
  retarget-Updated now key target raw l a db e u s r =
      let cleared = B.targets.delete db.targets l.target in
      let raw' = json target l.rule l.owner l.created_at now in
      record {
        stored = ground (arith, B.links.get-put db.links key key raw', eq_refl key);
        resolved = ground (arith, B.targets.get-put cleared target target key, eq_refl target);
        named = ground arith;
        unmapped = λ old g n. ground (
          arith,
          B.targets.get-put cleared target old.target key,
          B.targets.get-delete db.targets l.target old.target,
          eq_iff target old.target,
          eq_iff l.target old.target,
        );
        kept = λ old g. (ground arith, ground arith, ground arith);
        other_links = λ k n. ground (arith, B.links.get-put db.links key k raw', eq_iff key k);
        other_targets = λ old t g n m. ground (
          arith,
          B.targets.get-put cleared target t key,
          B.targets.get-delete db.targets l.target t,
          eq_iff target t,
          eq_iff l.target t,
        );
      }

  same-Updated :
      (key target : Bytes) (raw : Raw) (l : Link) (db : Db B)
      → IsConsistent B db
      → get_link B db key ≡ some raw
      → unmarshal raw ≡ some l
      → (l.target == target) ≡ true
      → Updated key target (record l { key = key }) db db
  unfolding get resolve
  same-Updated key target raw l db h e u s =
      let t : l.target ≡ target = (eq_iff l.target target).0 s in
      record {
        stored = ground arith;
        resolved = ground (arith, h.linked key l.target, target_of-unmarshal raw l u);
        named = t;
        unmapped = λ old g n. absurd (ground arith);
        kept = λ old g. (ground arith, ground arith, ground arith);
        other_links = λ k n. refl;
        other_targets = λ old u g n m. refl;
      }

  update_in_tx-Updated :
      (now : ℕ) (key target : Bytes) (db : Db B) (a : Link)
      → IsConsistent B db
      → (update_in_tx B now key target db).0 ≡ ok a
      → Updated key target a db (update_in_tx B now key target db).1
  update_in_tx-Updated now key target db a h =
      update_in_tx_induction B now key target db (λ r. r.0 ≡ ok a → Updated key target a db r.1)
        (λ e r. cc) (λ raw e u r. cc) (λ raw l e u t r. cc)
        (λ raw l e u t s r. retarget-Updated now key target raw l a db e u s r)
        (λ raw l e u t s r.
          let q : record l { key = key } ≡ a = cc in
          rw (← q) (same-Updated key target raw l db h e u s))

  -- After a successful Update the key holds the returned link, whose target is the one asked for
  -- and whose owner, rule and creation time are the old ones; the target resolves to the key, the
  -- old target to nothing, and all other links and mappings are as before.
  pub update-Updated :
      (commits : Bool) (now : ℕ) (key target : Bytes) (db : Db B) (a : Link)
      → IsConsistent B db
      → (update B commits now key target db).0 ≡ ok a
      → Updated key target a db (update B commits now key target db).1
  unfolding update
  update-Updated commits now key target db a h e =
      let (r, s) = update_tx-eq-ok commits (update_in_tx B now key target) db a e in
      rw s (update_in_tx-Updated now key target db a h r)

  -- A failed Update (no such key, a target of another key, a refused write, a failed commit) and a
  -- failed Delete leave the database as it was.
  pub change_atomic :
      (commits : Bool) (now : ℕ) (key target : Bytes) (db : Db B) (x : Error)
      → ((update B commits now key target db).0 ≡ err x
          → (update B commits now key target db).1 ≡ db)
        × ((delete B commits key db).0 ≡ err x → (delete B commits key db).1 ≡ db)
  unfolding update delete
  change_atomic commits now key target db x = (
    update_tx-eq-err commits (update_in_tx B now key target) db x,
    update_tx-eq-err commits (delete_in_tx B key) db x,
  )

  -- A target that another key has cannot be taken: Update answers with a conflict.
  pub update_conflict :
      (commits : Bool) (now : ℕ) (key target other : Bytes) (db : Db B)
      → IsConsistent B db
      → (l : Link) → get B key db ≡ ok l
      → resolve B target db ≡ ok other
      → other ≢ key
      → update B commits now key target db ≡ (err conflict, db)
  unfolding update update_in_tx taken get resolve
  update_conflict commits now key target other db h l g r n = ground (arith, eq_iff other key)

  -- What Delete promises of the database that it leaves.
  pub record Deleted (key : Bytes) (l : Link) (db db' : Db B) : Type 0 where
    pub gone : get B key db' ≡ err not_found
    pub unmapped : resolve B l.target db' ≡ err not_found
    pub other_links : (k : Bytes) → k ≢ key → get_link B db' k ≡ get_link B db k
    pub other_targets : (t : Bytes) → t ≢ l.target → get_target B db' t ≡ get_target B db t

  delete-eq :
      (key : Bytes) (l : Link) (db : Db B)
      → get B key db ≡ ok l
      → delete B true key db ≡ (ok tt, without_pair B l.target key db)
  unfolding delete delete_in_tx get
  delete-eq key l db g = ground arith

  -- Delete of a stored link succeeds if the commit does; then neither its key nor its target is
  -- found, and all other links and mappings are as before.
  pub delete-Deleted :
      (key : Bytes) (l : Link) (db : Db B)
      → get B key db ≡ ok l
      → ((delete B true key db).0 ≡ ok tt) × Deleted key l db (delete B true key db).1
  unfolding get resolve
  delete-Deleted key l db g = rw (delete-eq key l db g) (
    refl,
    record {
      gone = ground (arith, B.links.get-delete db.links key key, eq_refl key);
      unmapped =
          ground (arith, B.targets.get-delete db.targets l.target l.target, eq_refl l.target);
      other_links = λ k n. ground (arith, B.links.get-delete db.links key k, eq_iff key k);
      other_targets =
          λ t n. ground (arith, B.targets.get-delete db.targets l.target t, eq_iff l.target t);
    },
  )
