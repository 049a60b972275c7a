-- ===== src/Store/Change/Frame.antt =====
-- Update and Delete leave the links under other keys as they are, on every branch.
use dflybot.Prelude.{ℕ, Bool, ◌≡◌, ◌≢◌, arith, refl}
use dflybot.Prelude.Bytes.{Bytes, eq_iff}
use dflybot.Store.Error.{ok}
use dflybot.Store.Link.{Link, json, marshal, Buckets, Db, get_link}
use dflybot.Store.Change.Cases.{update_in_tx_induction, delete_in_tx_induction}
use dflybot.Store.Change.Consistency.{update_tx-keeps}
use dflybot.Store.Change.{retarget, update_in_tx, update, delete_in_tx, delete}

module _ (B : Buckets) (key k : Bytes) (n : k ≢ key) where
  retarget_frame :
      (now : ℕ) (target : Bytes) (l : Link) (db : Db B)
      → get_link B (retarget B now key target l db).1 k ≡ get_link B db k
  unfolding retarget marshal
  retarget_frame now target l db =
      let raw = json target l.rule l.owner l.created_at now in
      ground (arith, B.links.get-put db.links key k raw, eq_iff key k)

  pub update_frame :
      (commits : Bool) (now : ℕ) (target : Bytes) (db : Db B)
      → get_link B (update B commits now key target db).1 k ≡ get_link B db k
  unfolding update
  update_frame commits now target db =
      update_tx-keeps B (λ db'. get_link B db' k ≡ get_link B db k) commits
        (update_in_tx B now key target) db refl
        (λ a.
          update_in_tx_induction B now key target db
            (λ r. r.0 ≡ ok a → get_link B r.1 k ≡ get_link B db k) (λ e r. refl) (λ raw e u r. refl)
            (λ raw l e u t r. refl) (λ raw l e u t s r. retarget_frame now target l db)
            (λ raw l e u t s r. refl))

  pub delete_frame :
      (commits : Bool) (db : Db B) → get_link B (delete B commits key db).1 k ≡ get_link B db k
  unfolding delete
  delete_frame commits db =
      update_tx-keeps B (λ db'. get_link B db' k ≡ get_link B db k) commits (delete_in_tx B key) db
        refl
        (λ a.
          delete_in_tx_induction B key db (λ r. r.0 ≡ ok a → get_link B r.1 k ≡ get_link B db k)
            (λ e r. refl) (λ raw e u r. refl)
            (λ raw l e u r. ground (arith, B.links.get-delete db.links key k, eq_iff key k)))
