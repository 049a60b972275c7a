-- ===== src/Store/Change/Consistency.antt =====
-- Update and Delete keep the database consistent.
use dflybot.Prelude.{
  ℕ, Bool, false, none, some, ◌≡◌, arith, refl, Bool-cases, Option-cases, inl, inr,
}
use dflybot.Prelude.Bytes.{Bytes, ◌==◌, eq_iff}
use dflybot.Store.Error.{Result, ok, err}
use dflybot.Store.Link.{
  Link, Raw, json, marshal, unmarshal, Buckets, Db, get_link, get_target, update_tx,
}
use dflybot.Store.Consistent.{
  target_of, IsConsistent, move_pair-IsConsistent, delete_pair-IsConsistent,
}
use dflybot.Store.Change.Cases.{update_in_tx_induction, delete_in_tx_induction}
use dflybot.Store.Change.{taken, retarget, update_in_tx, update, delete_in_tx, delete}

-- The target that unmarshal reads is the one that consistency speaks of.
pub target_of-unmarshal :
    (raw : Raw) (l : Link) → unmarshal raw ≡ some l → target_of (some raw) ≡ some l.target
unfolding unmarshal
target_of-unmarshal (json t r o c u) l e = ground arith
target_of-unmarshal (Raw.other b) l e = cc

module _ (B : Buckets) where
  -- A transaction that keeps P where it returns no error keeps it in any case.
  pub update_tx-keeps {ℓ} :
      {A : Type ℓ} (P : Db B → Type 0) (commits : Bool) (run : Db B → Result A × Db B) (db : Db B)
      → P db
      → ((a : A) → (run db).0 ≡ ok a → P (run db).1)
      → P (update_tx B commits run db).1
  unfolding update_tx
  update_tx-keeps P commits run db h f = go (run db).0 refl
    where
      go : (r : Result _) → (run db).0 ≡ r → P (update_tx B commits run db).1
      go (ok a) e = elim (Bool-cases commits) [
        | inl c ↦ rw (e, update_tx) (rw c (f a e))
        | inr c ↦ rw (e, update_tx) (rw c h)
      ]
      go (err x) e = rw (e, update_tx) h

  retarget-eq :
      (now : ℕ) (key target : Bytes) (l : Link) (db : Db B) (a : Link)
      → (retarget B now key target l db).0 ≡ ok a
      → (retarget B now key target l db).1 ≡ record {
        links = B.links.put db.links key (json target l.rule l.owner l.created_at now);
        targets = B.targets.put (B.targets.delete db.targets l.target) target key;
      }
  unfolding retarget marshal
  retarget-eq now key target l db a r = ground arith

  -- A target that update may take, and that is not the link's own, is not mapped.
  free_target :
      (key target : Bytes) (l : Link) (db : Db B)
      → IsConsistent B db
      → target_of (get_link B db key) ≡ some l.target
      → taken B key target db ≡ false
      → (l.target == target) ≡ false
      → get_target B db target ≡ none
  unfolding taken
  free_target key target l db h e f g = elim (Option-cases (get_target B db target)) [
    | inl n ↦ n
    | inr (k, m) ↦ absurd (ground (arith, h.mapped target k, eq_iff k key, eq_iff l.target target))
  ]

  update_in_tx-IsConsistent :
      (now : ℕ) (key target : Bytes) (db : Db B) (a : Link)
      → IsConsistent B db
      → (update_in_tx B now key target db).0 ≡ ok a
      → IsConsistent B (update_in_tx B now key target db).1
  update_in_tx-IsConsistent now key target db a h =
      update_in_tx_induction B now key target db (λ r. r.0 ≡ ok a → IsConsistent B r.1) (λ e r. h)
        (λ raw e u r. h) (λ raw l e u t r. h)
        (λ raw l e u t s r.
          let named : target_of (get_link B db key) ≡ some l.target =
            rw e (target_of-unmarshal raw l u) in
          rw (retarget-eq now key target l db a r) (
            move_pair-IsConsistent B db h l.target target key _ named
              (free_target key target l db h named t s) refl))
        (λ raw l e u t s r. h)

  -- Update keeps the database consistent: on every branch, and also where bbolt refuses one of its
  -- writes after another is made.
  pub update-IsConsistent :
      (commits : Bool) (now : ℕ) (key target : Bytes) (db : Db B)
      → IsConsistent B db
      → IsConsistent B (update B commits now key target db).1
  unfolding update
  update-IsConsistent commits now key target db h =
      update_tx-keeps (IsConsistent B) commits (update_in_tx B now key target) db h
        (λ a. update_in_tx-IsConsistent now key target db a h)

  -- Delete keeps the database consistent, on every branch.
  pub delete-IsConsistent :
      (commits : Bool) (key : Bytes) (db : Db B)
      → IsConsistent B db
      → IsConsistent B (delete B commits key db).1
  unfolding delete
  delete-IsConsistent commits key db h =
      update_tx-keeps (IsConsistent B) commits (delete_in_tx B key) db h (λ a.
        delete_in_tx_induction B key db (λ r. r.0 ≡ ok a → IsConsistent B r.1) (λ e r. h)
          (λ raw e u r. h)
          (λ raw l e u r.
            delete_pair-IsConsistent B db h l.target key (rw e (target_of-unmarshal raw l u))))
