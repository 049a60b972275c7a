-- ===== src/Store/Read.antt =====
-- Resolve, Get, List, CountPrefix and Count of urlshort/store_bbolt.go: read transactions.
pub mod Scan
pub mod Cut
pub mod Paging
use dflybot.Prelude.{
  ℕ, zero, suc, ◌+◌, Bool, true, false, Option, none, some, List, [], ◌∷◌, ◌++◌, if◌then◌else◌, leb,
  ltb, eqb, length,
}
use dflybot.Prelude.Bytes.{Bytes, ◌==◌, has_prefix}
use dflybot.Store.Error.{Result, ok, err, not_found, invalid_link}
use dflybot.Store.Link.{Link, Raw, unmarshal, Buckets, Db, get_link, get_target}

-- The loop of List over what the cursor visits: the links so far, and the next cursor.
unfoldable pub list_loop : Bytes → ℕ → List (Bytes × Raw) → List Link → Result (List Link × Bytes)
list_loop pfx limit [] links = ok (links, [])
list_loop pfx limit ((k, v) ∷ rest) links = elim (has_prefix k pfx) [
  | false ↦ ok (links, [])
  | true ↦ elim (unmarshal v) [
    | none ↦ err invalid_link
    | some l ↦
        let links' = links ++ (record l { key = k }) ∷ [] in
        elim (leb limit (length links')) [
          | true ↦ ok (links', k)
          | false ↦ list_loop pfx limit rest links'
        ]
  ]
]

-- A limit that is not positive (0 here) becomes 100, and none exceeds 1000.
unfoldable pub clamp_limit : ℕ → ℕ
clamp_limit limit =
    let positive = if eqb limit 0 then 100 else limit in
    if ltb 1000 positive then 1000 else positive

-- Next, if the cursor stands at the key `cursor` itself.
unfoldable pub skip_cursor : Bytes → List (Bytes × Raw) → List (Bytes × Raw)
skip_cursor cursor [] = []
skip_cursor cursor ((k, v) ∷ rest) = if k == cursor then rest else (k, v) ∷ rest

unfoldable pub count_loop : Bytes → List (Bytes × Raw) → ℕ → ℕ
count_loop pfx [] n = n
count_loop pfx ((k, v) ∷ rest) n = elim (has_prefix k pfx) [
  | true ↦ count_loop pfx rest (n + 1)
  | false ↦ n
]

module _ (B : Buckets) where
  unfoldable pub resolve : Bytes → Db B → Result Bytes
  resolve target db = elim (get_target B db target) [ none ↦ err not_found | some v ↦ ok v ]

  unfoldable pub get : Bytes → Db B → Result Link
  get key db = elim (get_link B db key) [
    | none ↦ err not_found
    | some raw ↦ elim (unmarshal raw) [
      | none ↦ err invalid_link
      | some l ↦ ok (record l { key = key })
    ]
  ]

  -- Where the cursor of List starts.
  unfoldable pub start : Bytes → Bytes → Db B → List (Bytes × Raw)
  unfolding skip_cursor
  start pfx cursor db =
      if cursor == []
      then B.links.seek db.links pfx
      else skip_cursor cursor (B.links.seek db.links cursor)

  unfoldable pub list : Bytes → ℕ → Bytes → Db B → Result (List Link × Bytes)
  unfolding list_loop clamp_limit start
  list pfx limit cursor db = list_loop pfx (clamp_limit limit) (start pfx cursor db) []

  unfoldable pub count_prefix : Bytes → Db B → ℕ
  unfolding count_loop
  count_prefix pfx db = count_loop pfx (B.links.seek db.links pfx) 0

  unfoldable pub count : Db B → ℕ
  count db = length (B.links.entries db.links)
