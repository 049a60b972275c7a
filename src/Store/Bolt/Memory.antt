-- ===== src/Store/Bolt/Memory.antt =====
-- A bucket held as an ascending list, with bbolt's limits on keys: it meets every law of `Bucket`.
use dflybot.Prelude.{ℕ, Bool, List, [], refl, ◌&&◌, ltb, leb, length}
use dflybot.Prelude.Bytes.{Bytes}
use dflybot.Prelude.Sorted.{
  IsAscending, lookup, insert, remove, seek_list, lookup-insert, lookup-remove, insert-IsAscending,
  remove-IsAscending,
}
use dflybot.Store.Bolt.{Bucket}

abbrev max_key_size : ℕ
max_key_size = 32768

-- Put refuses a blank key and one longer than MaxKeySize.
abbrev pub key_fits : Bytes → Bool
key_fits k = ltb 0 (length k) && leb (length k) max_key_size

abbrev pub memory : (V : Type 0) → Bucket V
unfolding lookup
memory V = record {
  Rep = (m : List (Bytes × V)) × IsAscending m;
  empty = ([], tt);
  get = λ b k. lookup k b.0;
  accepts = λ k v. key_fits k;
  put = λ b k v. (insert k v b.0, insert-IsAscending k v b.0 b.1);
  delete = λ b k. (remove k b.0, remove-IsAscending k b.0 b.1);
  entries = λ b. b.0;
  seek = λ b k. seek_list k b.0;
  get-empty = λ k. refl;
  get-put = λ b k j v. lookup-insert k j v b.0;
  get-delete = λ b k j. lookup-remove k j b.0;
  entries-IsAscending = λ b. b.1;
  get-lookup = λ b k. refl;
  seek-entries = λ b k. refl;
}
