-- ===== src/Store/Create/Cases.antt =====
-- The three ways through createInTx, as one rule for its properties.
use dflybot.Prelude.{ℕ, Option, none, some, ◌≡◌, refl}
use dflybot.Prelude.Bytes.{Bytes}
use dflybot.Store.Error.{Error, Result, ok, err}
use dflybot.Store.Link.{CreateRequest, CreateResult, failed, Buckets, Db, get_target}
use dflybot.Store.Create.{existing_link, choose_key, insert_link, create_in_tx}

module _ (B : Buckets) (now : ℕ) (req : CreateRequest) (db : Db B) where
  pub create_in_tx_induction :
      (P : CreateResult × Db B → Type 0)
      → ((k : Bytes) → get_target B db req.target ≡ some k → P (existing_link B req k db, db))
      → ((x : Error)
          → get_target B db req.target ≡ none
          → choose_key B req db ≡ err x
          → P (failed x, db))
      → ((k : Bytes)
          → get_target B db req.target ≡ none
          → choose_key B req db ≡ ok k
          → P (insert_link B now req k db))
      → P (create_in_tx B now req db)
  unfolding create_in_tx
  create_in_tx_induction P old bad fresh =
      go (get_target B db req.target) refl (choose_key B req db) refl
    where
      go :
          (o : Option Bytes)
          → get_target B db req.target ≡ o
          → (r : Result Bytes) → choose_key B req db ≡ r
          → P (create_in_tx B now req db)
      go (some k) p r q = rw (p, create_in_tx) (old k p)
      go none p (err x) q = rw (p, create_in_tx) (rw (q, create_in_tx) (bad x p q))
      go none p (ok k) q = rw (p, create_in_tx) (rw (q, create_in_tx) (fresh k p q))
