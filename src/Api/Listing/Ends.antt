-- ===== src/Api/Listing/Ends.antt =====
-- listLinks ends: the loop of listFiltered moves its cursor.
use dflybot.Prelude.{
  ℕ, zero, suc, ◌+◌, ◌≤◌, ◌<◌, Bool, true, false, some, List, [], ◌∷◌, ◌≡◌, ◌≢◌, ◌&&◌, ◌∙◌, sym,
  arith, refl, inl, inr, ltb, length, take, All, Bool-cases, Option-cases, List-cases,
}
use dflybot.Prelude.Bytes.{Bytes, ◌==◌, eq_iff, has_prefix, blt, blt_trans, blt_irrefl}
use dflybot.Store.Error.{Result, ok, err, Result-cases}
use dflybot.Store.Link.{Link, Raw, Buckets, Db}
use dflybot.Store.Read.{list, clamp_limit}
use dflybot.Store.Read.Scan.{filter_keys, filter-filter, filter-ext, filter_sound}
use dflybot.Store.Read.Paging.{page, listed, last_key, next_cursor, list-page_after}
use dflybot.Auth.{Client, can_access}
use dflybot.Api.Types.{bad_request, forbidden_error, Server, Outcome, api_failure}
use dflybot.Api.Listing.{
  Limit, default, invalid, positive, ListQuery, capped, collect, only_namespace, list_filtered_loop,
  list_filtered, list_own, list_answer, list_with_limit, list_links,
}

module _ {ℓ} {V : Type ℓ} where
  filter_length_le : (q : Bytes → Bool) (m : List (Bytes × V)) → length (filter_keys q m) ≤ length m
  unfolding filter_keys
  filter_length_le q [] = omega arith
  filter_length_le q ((k, v) ∷ m) = ground (arith, filter_length_le q m)

-- A test that the last key of a page fails drops an entry.
filter_shorter :
    (q : Bytes → Bool) (n : ℕ) (m : List (Bytes × Raw))
    → last_key (take n m) ≢ []
    → q (last_key (take n m)) ≡ false
    → length (filter_keys q m) < length m
unfolding filter_keys last_key
filter_shorter q zero m h e = absurd (h refl)
filter_shorter q (suc n) [] h e = absurd (h refl)
filter_shorter q (suc n) ((k, v) ∷ m) h e = elim (List-cases (take n m)) [
  | inl t ↦
      let d : q k ≡ false = rw (t, last_key) at e in rw d (omega (arith, filter_length_le q m))
  | inr (x, xs, t) ↦
      let same : last_key ((k, v) ∷ take n m) ≡ last_key (take n m) = rw (t, last_key) refl in
      let ih = filter_shorter q n m (rw same at h) (rw same at e) in ground (arith, ih)
]

last_key-All :
    (P : Bytes → Type 0) (n : ℕ) (m : List (Bytes × Raw))
    → All (λ e. P e.0) m
    → last_key (take n m) ≢ []
    → P (last_key (take n m))
unfolding last_key
last_key-All P zero m a h = absurd (h refl)
last_key-All P (suc n) [] a h = absurd (h refl)
last_key-All P (suc n) ((k, v) ∷ m) (p, a) h = elim (List-cases (take n m)) [
  | inl t ↦ rw (t, last_key) p
  | inr (x, xs, t) ↦
      let same : last_key ((k, v) ∷ take n m) ≡ last_key (take n m) = rw (t, last_key) refl in
      rw same (last_key-All P n m a (rw same at h))
]

page-next :
    (n : ℕ) (m : List (Bytes × Raw)) (ls : List Link) (k : Bytes)
    → page n m ≡ ok (ls, k)
    → k ≢ []
    → k ≡ last_key (take n m)
unfolding page next_cursor
page-next n m ls k e h = ground arith

blt_nil : (a : Bytes) → blt a [] ≡ false
unfolding blt
blt_nil [] = refl
blt_nil (c ∷ a) = refl

-- What is listed after a listed key was listed before.
listed_trans :
    (a b k : Bytes) → b ≢ [] → listed [] a b ≡ true → listed [] b k ≡ true → listed [] a k ≡ true
unfolding has_prefix
listed_trans a b k n h e = ground (arith, blt_trans a b k, eq_iff b [])

listed_irrefl : (b : Bytes) → b ≢ [] → listed [] b b ≡ false
unfolding has_prefix
listed_irrefl b n = ground (arith, blt_irrefl b, eq_iff b [])

filter-absorb :
    (p q : Bytes → Bool) (m : List (Bytes × Raw))
    → ((k : Bytes) → q k ≡ true → p k ≡ true)
    → filter_keys q (filter_keys p m) ≡ filter_keys q m
filter-absorb p q m f =
    filter-filter q p m ∙ filter-ext (λ k. q k && p k) q m (λ k. ground (arith, f k))

module _ (B : Buckets) (db : Db B) where
  -- The entries after a cursor.
  abbrev remaining : Bytes → List (Bytes × Raw)
  remaining cursor = filter_keys (listed [] cursor) (B.links.entries db.links)

  list-remaining :
      (limit : ℕ) (cursor : Bytes)
      → list B [] limit cursor db ≡ page (clamp_limit limit) (remaining cursor)
  list-remaining limit cursor = elim (Bool-cases (cursor == [])) [
    | inl b ↦ list-page_after B [] cursor db limit (inl ((eq_iff cursor []).0 b))
    | inr b ↦
        list-page_after B [] cursor db limit
          (inr ((λ e. ground (arith, eq_iff cursor [])), blt_nil cursor))
  ]

  -- The next cursor leaves fewer entries.
  remaining_shorter :
      (limit : ℕ) (cursor next : Bytes) (ls : List Link)
      → list B [] limit cursor db ≡ ok (ls, next)
      → next ≢ []
      → length (remaining next) < length (remaining cursor)
  remaining_shorter limit cursor next ls e n =
      let m = remaining cursor in
      let limit' = clamp_limit limit in
      let q : next ≡ last_key (take limit' m) =
        page-next limit' m ls next (sym (list-remaining limit cursor) ∙ e) n in
      let n' : last_key (take limit' m) ≢ [] = rw q at n in
      let h : listed [] cursor next ≡ true = rw q (
        last_key-All (λ k. listed [] cursor k ≡ true) limit' m
          (filter_sound (listed [] cursor) (B.links.entries db.links)) n') in
      let d : listed [] next (last_key (take limit' m)) ≡ false = rw (← q) (listed_irrefl next n) in
      rw
        (← filter-absorb (listed [] cursor) (listed [] next) (B.links.entries db.links)
          (λ k. listed_trans cursor next k n h))
        (filter_shorter (listed [] next) limit' m n' d)

  list_filtered_loop-ends :
      (fuel : ℕ) (c : Client) (limit : ℕ) (out : List Link) (next : Bytes)
      → length (remaining next) < fuel
      → (r : Result (List Link × Bytes)) × (list_filtered_loop B fuel c limit out next db ≡ some r)
  unfolding list_filtered_loop
  list_filtered_loop-ends zero c limit out next h = absurd (omega (arith, h))
  list_filtered_loop-ends (suc fuel) c limit out next h =
      elim (Bool-cases (ltb (length out) limit)) [
        | inr f ↦ (ok (out, next), ground arith)
        | inl f ↦ elim (Result-cases (list B [] limit next db)) [
          | inr (x, e) ↦ (err x, ground arith)
          | inl ((batch, n), e) ↦ elim (Option-cases (collect c limit batch out).1) [
            | inr (k, t) ↦ (ok ((collect c limit batch out).0, k), ground arith)
            | inl t ↦ elim (Bool-cases (n == [])) [
              | inl b ↦ (ok ((collect c limit batch out).0, []), ground arith)
              | inr b ↦
                  let n' : n ≢ [] = λ z. ground (arith, eq_iff n []) in
                  let less = remaining_shorter limit next n batch e n' in
                  let (r, ih) =
                    list_filtered_loop-ends fuel c limit (collect c limit batch out).0 n
                      (omega (arith, less, h)) in
                  (r, ground (arith, ih))
            ]
          ]
        ]
      ]

  list_filtered-ends :
      (c : Client) (limit : ℕ) (cursor : Bytes)
      → (r : Result (List Link × Bytes)) × (list_filtered B c limit cursor db ≡ some r)
  unfolding list_filtered
  list_filtered-ends c limit cursor =
      let es = B.links.entries db.links in
      list_filtered_loop-ends (length es + 1) c limit [] cursor
        (omega (arith, filter_length_le (listed [] cursor) es))

  list_own_of :
      (c : Client) (limit : ℕ) (cursor : Bytes) (r : Result (List Link × Bytes))
      → list_filtered B c limit cursor db ≡ some r
      → (r : Result (List Link × Bytes)) × (list_own B c limit cursor db ≡ some r)
  unfolding list_own
  list_own_of c limit cursor r h = elim (Bool-cases c.is_admin) [
    | inl a ↦ (list B [] limit cursor db, ground arith)
    | inr a ↦ elim (Option-cases (only_namespace c.namespaces)) [
      | inl o ↦ (r, ground arith)
      | inr (ns, o) ↦ (list B ns limit cursor db, ground arith)
    ]
  ]

  list_own-ends :
      (c : Client) (limit : ℕ) (cursor : Bytes)
      → (r : Result (List Link × Bytes)) × (list_own B c limit cursor db ≡ some r)
  list_own-ends c limit cursor =
      let (r, h) = list_filtered-ends c limit cursor in list_own_of c limit cursor r h

  list_with_limit-ends :
      (s : Server) (c : Client) (q : ListQuery) (limit : ℕ)
      → (r : Outcome B) × (list_with_limit B s c q limit db ≡ some r)
  unfolding list_with_limit
  list_with_limit-ends s c q limit =
      let (r, h) = list_own-ends c limit q.cursor in
      elim (Bool-cases (q.namespace == [])) [
        | inl e ↦ (list_answer B s r db, rw e (rw (h, list_with_limit) refl))
        | inr e ↦ elim (Bool-cases (can_access c q.namespace)) [
          | inl a ↦ (list_answer B s (list B q.namespace limit q.cursor db) db, rw e (rw a refl))
          | inr a ↦ (api_failure forbidden_error db, rw e (rw a refl))
        ]
      ]

  -- GET of a list ends with an answer: the loop of listFiltered cannot run forever, because every
  -- call of List but the last moves the cursor past an entry.
  pub list_links_total :
      (s : Server) (c : Client) (q : ListQuery) → (r : Outcome B) × (list_links B s c q db ≡ some r)
  unfolding list_links
  list_links_total s c q = go q.limit refl
    where
      go : (l : Limit) → q.limit ≡ l → (r : Outcome B) × (list_links B s c q db ≡ some r)
      go default e = rw (e, list_links) (list_with_limit-ends s c q 100)
      go invalid e = (api_failure bad_request db, rw (e, list_links) refl)
      go (positive n) e = rw (e, list_links) (list_with_limit-ends s c q (capped n))
