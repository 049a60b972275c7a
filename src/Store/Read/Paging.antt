-- ===== src/Store/Read/Paging.antt =====
-- List against its specification: the page after a cursor is the first `limit` of the entries that
-- have the prefix and come after the cursor, in key order.
use mathlib.Core.Path.{ap₂}
use mathlib.Core.List.{append_assoc, append-nil}
use dflybot.Prelude.{
  ℕ, zero, suc, ◌+◌, ◌-◌, Bool, true, false, ◌&&◌, ◌||◌, none, some, List, [], ◌∷◌, ◌++◌, ◌≡◌, ◌≢◌,
  ◌⊎◌, ◌∙◌, refl, sym, arith, if◌then◌else◌, leb, length, length-append, take, All, All-map,
  Bool-cases, Option-cases, ap, inl, inr,
}
use dflybot.Prelude.Bytes.{Bytes, ◌==◌, eq_iff, has_prefix, blt, blt_trans}
use dflybot.Store.Error.{Result, ok, err, invalid_link, ◌>>=◌}
use dflybot.Store.Link.{Link, Raw, unmarshal, Buckets, Db}
use dflybot.Store.Read.{list_loop, clamp_limit, start, list, count_loop, count_prefix}
use dflybot.Store.Read.Cut.{any_between, is_cut, none_between, while_cut}
use dflybot.Store.Read.Scan.{
  filter_keys, while_prefix, filter-filter, filter-ext, filter-IsAscending, filter_sound,
  while-eq-filter, while-seek, skip-seek,
}

-- The link of an entry, its key filled in.
unfoldable pub decode : Bytes × Raw → Result Link
decode (k, v) = elim (unmarshal v) [ none ↦ err invalid_link | some l ↦ ok (record l { key = k }) ]

-- All links, or the error of the first value that is not one.
unfoldable pub decode_all : List (Bytes × Raw) → Result (List Link)
decode_all [] = ok []
decode_all (e ∷ m) = let rest = decode_all m in do l ← decode e; ls ← rest; ok (l ∷ ls)

unfoldable pub last_key : List (Bytes × Raw) → Bytes
last_key [] = []
last_key (e ∷ []) = e.0
last_key (e ∷ f ∷ m) = last_key (f ∷ m)

-- The cursor for the page after the first `n` of `m`: blank if the page is not full.
unfoldable pub next_cursor : ℕ → List (Bytes × Raw) → Bytes
next_cursor n m = if leb n (length m) then last_key (take n m) else []

-- The page of the first `n` of `m`.
unfoldable pub page : ℕ → List (Bytes × Raw) → Result (List Link × Bytes)
page n m = do ls ← decode_all (take n m); ok (ls, next_cursor n m)

abbrev prepend : List Link → Result (List Link × Bytes) → Result (List Link × Bytes)
prepend ls r = r >>= λ p. ok (ls ++ p.0, p.1)

next_cursor-cons :
    (n : ℕ) (e : Bytes × Raw) (m : List (Bytes × Raw))
    → next_cursor (suc (suc n)) (e ∷ m) ≡ next_cursor (suc n) m
unfolding next_cursor last_key
next_cursor-cons n e [] = ground arith
next_cursor-cons n e (f ∷ m) = ground arith

page_full :
    (k : Bytes) (v : Raw) (m : List (Bytes × Raw)) (l : Link)
    → unmarshal v ≡ some l
    → page 1 ((k, v) ∷ m) ≡ ok (record l { key = k } ∷ [], k)
unfolding page decode_all decode next_cursor last_key
page_full k v m l u = rw (u, decode) (ground arith)

page-cons :
    (n : ℕ) (k : Bytes) (v : Raw) (m : List (Bytes × Raw)) (l : Link)
    → unmarshal v ≡ some l
    → page (suc (suc n)) ((k, v) ∷ m)
      ≡ (page (suc n) m >>= λ p. ok (record l { key = k } ∷ p.0, p.1))
unfolding page decode_all decode
page-cons n k v m l u = rw (u, decode) (rw next_cursor-cons (ground arith))

page_bad :
    (n : ℕ) (k : Bytes) (v : Raw) (m : List (Bytes × Raw))
    → unmarshal v ≡ none
    → page (suc n) ((k, v) ∷ m) ≡ err invalid_link
unfolding page decode_all decode
page_bad n k v m u = rw (u, decode)

prepend-bind :
    (links : List Link) (l : Link) (r : Result (List Link × Bytes))
    → prepend (links ++ l ∷ []) r ≡ prepend links (r >>= λ p. ok (l ∷ p.0, p.1))
prepend-bind links l (ok (ls, c)) = rw append_assoc
prepend-bind links l (err x) = refl

-- One step of the loop, over the limit that is left.
loop-step :
    (pfx : Bytes) (limit left : ℕ) (k : Bytes) (v : Raw) (m : List (Bytes × Raw))
    (links : List Link)
    → limit ≡ length links + suc left
    → has_prefix k pfx ≡ true
    → (l : Link) → unmarshal v ≡ some l
    → ((n : ℕ)
        → left ≡ suc n
        → list_loop pfx limit m (links ++ record l { key = k } ∷ [])
          ≡ prepend (links ++ record l { key = k } ∷ []) (page left (while_prefix pfx m)))
    → list_loop pfx limit ((k, v) ∷ m) links
      ≡ prepend links (page (suc left) ((k, v) ∷ while_prefix pfx m))
unfolding list_loop
loop-step pfx limit zero k v m links e has l u ih =
    let full : leb limit (length (links ++ record l { key = k } ∷ [])) ≡ true =
      ground (arith, length-append links (record l { key = k } ∷ [])) in
    rw (has, list_loop)
      (rw (u, list_loop) (rw (full, list_loop) (rw (page_full k v (while_prefix pfx m) l u))))
loop-step pfx limit (suc n) k v m links e has l u ih =
    let room : leb limit (length (links ++ record l { key = k } ∷ [])) ≡ false =
      ground (arith, length-append links (record l { key = k } ∷ [])) in
    rw (has, list_loop)
      (rw (u, list_loop)
        (rw (room, list_loop)
          (rw (page-cons n k v (while_prefix pfx m) l u) (ih n refl ∙ prepend-bind links _ _))))

-- The loop adds the page of what is left of the limit to the links it has.
loop-page :
    (pfx : Bytes) (limit left : ℕ) (m : List (Bytes × Raw)) (links : List Link)
    → limit ≡ length links + suc left
    → list_loop pfx limit m links ≡ prepend links (page (suc left) (while_prefix pfx m))
unfolding list_loop page decode_all while_prefix next_cursor
loop-page pfx limit left [] links e = rw append-nil (ground arith)
loop-page pfx limit left ((k, v) ∷ m) links e = elim (Bool-cases (has_prefix k pfx)) [
  | inr h ↦ rw (h, list_loop) (rw append-nil (ground arith))
  | inl h ↦ elim (Option-cases (unmarshal v)) [
    | inl u ↦ rw (h, list_loop) (rw (u, list_loop) (rw (page_bad left k v (while_prefix pfx m) u)))
    | inr (l, u) ↦ rw h (
        loop-step pfx limit left k v m links e h l u (λ n s. rw s (
          loop-page pfx limit n m (links ++ record l { key = k } ∷ [])
            (omega (arith, length-append links (record l { key = k } ∷ []), e)))))
  ]
]

-- Which keys a call of List lists: those with the prefix that come after the cursor.
abbrev pub listed : Bytes → Bytes → Bytes → Bool
listed pfx cursor k = has_prefix k pfx && (cursor == [] || blt cursor k)

after_cursor :
    (pfx cursor : Bytes) (m : List (Bytes × Raw))
    → blt cursor pfx ≡ false
    → All (λ e. blt cursor e.0 ≡ true) m
    → All (λ e. blt e.0 pfx ≡ false) m
after_cursor pfx cursor m h = All-map _ _ m (λ e after. elim (Bool-cases (blt e.0 pfx)) [
  | inl b ↦ absurd (ground (arith, blt_trans cursor e.0 pfx after b))
  | inr b ↦ b
])

clamp_limit_pos : (limit : ℕ) → clamp_limit limit ≡ suc (clamp_limit limit - 1)
unfolding clamp_limit
clamp_limit_pos limit = ground arith

prepend-nil : (r : Result (List Link × Bytes)) → prepend [] r ≡ r
prepend-nil (ok p) = refl
prepend-nil (err x) = refl

module _ (B : Buckets) (pfx cursor : Bytes) (db : Db B) where
  -- The cursor of a page is blank or not before the prefix, as a key of an earlier page is.
  abbrev pub IsCursor : Type 0
  IsCursor = (cursor ≡ []) ⊎ ((cursor ≢ []) × (blt cursor pfx ≡ false))

  while-start :
      IsCursor
      → while_prefix pfx (start B pfx cursor db)
        ≡ filter_keys (listed pfx cursor) (B.links.entries db.links)
  unfolding start
  while-start (inl e) =
      let blank : (cursor == []) ≡ true = (eq_iff cursor []).1 e in
      let es = B.links.entries db.links in
      rw blank (
        rw B.links.seek-entries (
          while-seek pfx es (B.links.entries-IsAscending db.links)
          ∙ filter-ext (λ k. has_prefix k pfx) (listed pfx cursor) es (λ k. ground arith)))
  while-start (inr (n, h)) =
      let given : (cursor == []) ≡ false = ground (arith, eq_iff cursor []) in
      let es = B.links.entries db.links in
      let up = B.links.entries-IsAscending db.links in
      rw given (
        rw B.links.seek-entries (
          rw (skip-seek cursor es up) (
            while-eq-filter pfx (filter_keys (blt cursor) es)
              (filter-IsAscending (blt cursor) es up)
              (after_cursor pfx cursor (filter_keys (blt cursor) es) h
                (filter_sound (blt cursor) es))
            ∙ filter-filter (λ k. has_prefix k pfx) (blt cursor) es
            ∙ filter-ext (λ k. has_prefix k pfx && blt cursor k) (listed pfx cursor) es
                (λ k. ground arith))))

  while-start_any : while_prefix pfx (start B pfx cursor db) ≡ (
      if is_cut pfx cursor (B.links.entries db.links)
      then []
      else filter_keys (listed pfx cursor) (B.links.entries db.links))
  unfolding start
  while-start_any =
      let es = B.links.entries db.links in
      let up = B.links.entries-IsAscending db.links in
      elim (Bool-cases (cursor == [])) [
        | inl e ↦
            let c : is_cut pfx cursor es ≡ false = rw e refl in
            while-start (inl ((eq_iff cursor []).0 e)) ∙ rw c refl
        | inr e ↦ elim (Bool-cases (any_between pfx cursor es)) [
          | inl b ↦
              rw (e, b)
                (rw B.links.seek-entries
                  (rw (skip-seek cursor es up) (while_cut pfx cursor es up b)))
          | inr b ↦
              rw (e, b)
                (rw B.links.seek-entries (
                  rw (skip-seek cursor es up) (
                    while-eq-filter pfx (filter_keys (blt cursor) es)
                      (filter-IsAscending (blt cursor) es up) (none_between pfx cursor es b)
                    ∙ filter-filter (λ k. has_prefix k pfx) (blt cursor) es
                    ∙ filter-ext (λ k. has_prefix k pfx && blt cursor k) (listed pfx cursor) es
                        (λ k. ground (arith, e)))))
        ]
      ]

  -- List returns the links of the first `limit` entries (0 counts as 100, at most 1000) that have
  -- the prefix and come after the cursor, in key order, or the error of the first that is no link;
  -- and the next cursor is the key of the last one, or blank if fewer were left. But where
  -- the cursor is not blank and some key lies between it and the prefix, the page is empty.
  pub list-page :
      (limit : ℕ)
      → list B pfx limit cursor db
        ≡ page (clamp_limit limit) (
            if is_cut pfx cursor (B.links.entries db.links)
            then []
            else filter_keys (listed pfx cursor) (B.links.entries db.links))
  unfolding list
  list-page limit =
      loop-page pfx (clamp_limit limit) (clamp_limit limit - 1) (start B pfx cursor db) []
        (omega (arith, clamp_limit_pos limit))
      ∙ prepend-nil _
      ∙ ap₂ page (sym (clamp_limit_pos limit)) while-start_any

  -- The same for a cursor that is blank or not before the prefix.
  pub list-page_after :
      (limit : ℕ)
      → IsCursor
      → list B pfx limit cursor db
        ≡ page (clamp_limit limit) (filter_keys (listed pfx cursor) (B.links.entries db.links))
  list-page_after limit h =
      list-page limit ∙ ap (page (clamp_limit limit)) (sym while-start_any ∙ while-start h)

count-while :
    (pfx : Bytes) (m : List (Bytes × Raw)) (n : ℕ)
    → count_loop pfx m n ≡ n + length (while_prefix pfx m)
unfolding count_loop while_prefix
count-while pfx [] n = omega arith
count-while pfx ((k, v) ∷ m) n = ground (arith, count-while pfx m (n + 1))

-- CountPrefix is the number of entries whose keys have the prefix.
pub count_prefix-eq :
    (B : Buckets) (pfx : Bytes) (db : Db B)
    → count_prefix B pfx db
      ≡ length (filter_keys (λ k. has_prefix k pfx) (B.links.entries db.links))
unfolding count_prefix
count_prefix-eq B pfx db = rw B.links.seek-entries (
    rw count-while (
      rw (while-seek pfx (B.links.entries db.links) (B.links.entries-IsAscending db.links))
        (omega arith)))
