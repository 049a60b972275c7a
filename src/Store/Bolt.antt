-- ===== src/Store/Bolt.antt =====
-- go.etcd.io/bbolt as urlshort/store_bbolt.go uses it: one bucket inside a transaction. bbolt is
-- not part of the repository, so its operations and their documented behaviour are a record that
-- the store takes as a parameter.
pub mod Memory
use dflybot.Prelude.{Bool, Option, none, some, List, ◌≡◌, if◌then◌else◌}
use dflybot.Prelude.Bytes.{Bytes, ◌==◌}
use dflybot.Prelude.Sorted.{lookup, IsAscending, seek_list}

-- `accepts` is Put's test of the key (not blank, not too long) and of the value's size. `seek b k`
-- is what a cursor visits from Seek(k) by Next. `entries` is ForEach, and Stats().KeyN its length.
pub record Bucket (V : Type 0) : Type 1 where
  pub Rep : Type 0
  pub empty : Rep
  pub get : Rep → Bytes → Option V
  pub accepts : Bytes → V → Bool
  pub put : Rep → Bytes → V → Rep
  pub delete : Rep → Bytes → Rep
  pub entries : Rep → List (Bytes × V)
  pub seek : Rep → Bytes → List (Bytes × V)
  pub get-empty : (k : Bytes) → get empty k ≡ none
  pub get-put :
      (b : Rep) (k j : Bytes) (v : V) → get (put b k v) j ≡ (if k == j then some v else get b j)
  pub get-delete : (b : Rep) (k j : Bytes) → get (delete b k) j ≡ (if k == j then none else get b j)
  pub entries-IsAscending : (b : Rep) → IsAscending (entries b)
  pub get-lookup : (b : Rep) (k : Bytes) → get b k ≡ lookup k (entries b)
  pub seek-entries : (b : Rep) (k : Bytes) → seek b k ≡ seek_list k (entries b)
