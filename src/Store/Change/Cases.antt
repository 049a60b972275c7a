-- ===== src/Store/Change/Cases.antt =====
-- The ways through Update and Delete, each as one rule for its properties.
use dflybot.Prelude.{
  ℕ, Option, none, some, ◌≡◌, refl, true, false, not, if◌then◌else◌, Bool-cases, Option-cases, inl,
  inr,
}
use dflybot.Prelude.Bytes.{Bytes, ◌==◌}
use dflybot.Store.Error.{Result, ok, err, not_found, conflict, invalid_link}
use dflybot.Store.Link.{Link, Raw, unmarshal, Buckets, Db, get_link}
use dflybot.Store.Change.{taken, retarget, update_in_tx, delete_in_tx}

module _ (B : Buckets) where
  pub update_in_tx_induction :
      (now : ℕ) (key target : Bytes) (db : Db B) (P : Result Link × Db B → Type 0)
      → (get_link B db key ≡ none → P (err not_found, db))
      → ((raw : Raw)
          → get_link B db key ≡ some raw
          → unmarshal raw ≡ none
          → P (err invalid_link, db))
      → ((raw : Raw) (l : Link)
          → get_link B db key ≡ some raw
          → unmarshal raw ≡ some l
          → taken B key target db ≡ true
          → P (err conflict, db))
      → ((raw : Raw) (l : Link)
          → get_link B db key ≡ some raw
          → unmarshal raw ≡ some l
          → taken B key target db ≡ false
          → (l.target == target) ≡ false
          → P (retarget B now key target l db))
      → ((raw : Raw) (l : Link)
          → get_link B db key ≡ some raw
          → unmarshal raw ≡ some l
          → taken B key target db ≡ false
          → (l.target == target) ≡ true
          → P (ok (record l { key = key }), db))
      → P (update_in_tx B now key target db)
  unfolding update_in_tx
  update_in_tx_induction now key target db P missing broken conflicting moved same =
      go (get_link B db key) refl
    where
      decoded :
          (raw : Raw) (l : Link)
          → get_link B db key ≡ some raw
          → unmarshal raw ≡ some l
          → P (
              if taken B key target db
              then (err conflict, db)
              else if not (l.target == target)
              then retarget B now key target l db
              else (ok (record l { key = key }), db))
      decoded raw l e u = elim (Bool-cases (taken B key target db)) [
        | inl t ↦ rw t (conflicting raw l e u t)
        | inr t ↦ elim (Bool-cases (l.target == target)) [
          | inl s ↦ rw t (rw s (same raw l e u t s))
          | inr s ↦ rw t (rw s (moved raw l e u t s))
        ]
      ]

      go : (o : Option Raw) → get_link B db key ≡ o → P (update_in_tx B now key target db)
      go none e = rw (e, update_in_tx) (missing e)
      go (some raw) e = elim (Option-cases (unmarshal raw)) [
        | inl u ↦ rw (e, update_in_tx) (rw (u, update_in_tx) (broken raw e u))
        | inr (l, u) ↦ rw (e, update_in_tx) (rw (u, update_in_tx) (decoded raw l e u))
      ]

  abbrev pub without_pair : Bytes → Bytes → Db B → Db B
  without_pair target key db = record db {
    targets = B.targets.delete db.targets target;
    links = B.links.delete db.links key;
  }

  pub delete_in_tx_induction :
      (key : Bytes) (db : Db B) (P : Result (Unit {0}) × Db B → Type 0)
      → (get_link B db key ≡ none → P (err not_found, db))
      → ((raw : Raw)
          → get_link B db key ≡ some raw
          → unmarshal raw ≡ none
          → P (err invalid_link, db))
      → ((raw : Raw) (l : Link)
          → get_link B db key ≡ some raw
          → unmarshal raw ≡ some l
          → P (ok tt, without_pair l.target key db))
      → P (delete_in_tx B key db)
  unfolding delete_in_tx
  delete_in_tx_induction key db P missing broken gone = go (get_link B db key) refl
    where
      go : (o : Option Raw) → get_link B db key ≡ o → P (delete_in_tx B key db)
      go none e = rw (e, delete_in_tx) (missing e)
      go (some raw) e = elim (Option-cases (unmarshal raw)) [
        | inl u ↦ rw (e, delete_in_tx) (rw (u, delete_in_tx) (broken raw e u))
        | inr (l, u) ↦ rw (e, delete_in_tx) (rw (u, delete_in_tx) (gone raw l e u))
      ]
