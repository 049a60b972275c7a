-- ===== src/Api/Listing/Access.antt =====
-- listLinks shows a client the links of its namespaces only.
use mathlib.Core.List.{map}
use dflybot.Prelude.{
  ℕ, zero, suc, ◌+◌, true, some, List, [], ◌∷◌, ◌++◌, ◌≡◌, arith, refl, inl, inr, leb, ltb, length,
  eqb_iff, All, All-append, All-map, Bool-cases, Option-cases,
}
use dflybot.Prelude.Bytes.{Bytes, ◌==◌, has_prefix}
use dflybot.Store.Error.{Result, ok, err, Result-cases}
use dflybot.Store.Link.{Link, Raw, unmarshal, Buckets, Db}
use dflybot.Store.Read.{list, list_loop, clamp_limit, start}
use dflybot.Auth.{Client, can_access, in_namespaces}
use dflybot.Api.Types.{Server, LinkView, link_view, Body, Outcome}
use dflybot.Api.Listing.{
  Limit, default, invalid, positive, ListQuery, capped, collect, only_namespace, list_filtered_loop,
  list_filtered, list_own, list_answer, list_with_limit, list_links,
}

list_loop-All :
    (pfx : Bytes) (limit : ℕ) (es : List (Bytes × Raw)) (links ls : List Link) (next : Bytes)
    → All (λ (l : Link). has_prefix l.key pfx ≡ true) links
    → list_loop pfx limit es links ≡ ok (ls, next)
    → All (λ (l : Link). has_prefix l.key pfx ≡ true) ls
unfolding list_loop
list_loop-All pfx limit [] links ls next a e = let q : links ≡ ls = ground arith in rw (← q) a
list_loop-All pfx limit ((k, v) ∷ es) links ls next a e = elim (Bool-cases (has_prefix k pfx)) [
  | inr h ↦ let q : links ≡ ls = ground arith in rw (← q) a
  | inl h ↦ elim (Option-cases (unmarshal v)) [
    | inl u ↦ absurd (ground arith)
    | inr (l, u) ↦
        let links' = links ++ (record l { key = k }) ∷ [] in
        let a' : All (λ (l : Link). has_prefix l.key pfx ≡ true) links' =
          All-append _ links (record l { key = k } ∷ []) a (h, tt) in
        elim (Bool-cases (leb limit (length links'))) [
          | inl full ↦ let q : links' ≡ ls = ground arith in rw (← q) a'
          | inr room ↦ list_loop-All pfx limit es links' ls next a' (ground arith)
        ]
  ]
]

has_prefix_trans :
    (a b c : Bytes) → has_prefix a b ≡ true → has_prefix b c ≡ true → has_prefix a c ≡ true
unfolding has_prefix
has_prefix_trans a b [] h k = refl
has_prefix_trans a [] (z ∷ c) h k = absurd (ground arith)
has_prefix_trans [] (y ∷ b) (z ∷ c) h k = absurd (ground arith)
has_prefix_trans (x ∷ a) (y ∷ b) (z ∷ c) h k =
    ground (arith, has_prefix_trans a b c, eqb_iff x y, eqb_iff y z, eqb_iff x z)

in_namespaces_below :
    (key ns : Bytes) (nss : List Bytes)
    → has_prefix key ns ≡ true
    → in_namespaces ns nss ≡ true
    → in_namespaces key nss ≡ true
unfolding in_namespaces
in_namespaces_below key ns [] h e = e
in_namespaces_below key ns (n ∷ nss) h e =
    ground (arith, has_prefix_trans key ns n, in_namespaces_below key ns nss h)

admin_access : (c : Client) (key : Bytes) → c.is_admin ≡ true → can_access c key ≡ true
unfolding can_access
admin_access c key e = ground arith

-- What lies below an accessible key is accessible.
can_access_below :
    (c : Client) (key ns : Bytes)
    → has_prefix key ns ≡ true
    → can_access c ns ≡ true
    → can_access c key ≡ true
unfolding can_access
can_access_below c key ns h e = ground (arith, in_namespaces_below key ns c.namespaces h)

collect-All :
    (c : Client) (limit : ℕ) (batch out : List Link)
    → All (λ (l : Link). can_access c l.key ≡ true) out
    → All (λ (l : Link). can_access c l.key ≡ true) (collect c limit batch out).0
unfolding collect
collect-All c limit [] out a = a
collect-All c limit (l ∷ ls) out a = elim (Bool-cases (can_access c l.key)) [
  | inl h ↦
      let a' : All (λ (l : Link). can_access c l.key ≡ true) (out ++ l ∷ []) =
        All-append _ out (l ∷ []) a (h, tt) in
      rw h (elim (Bool-cases (leb limit (length (out ++ l ∷ [])))) [
        | inl full ↦ rw full a'
        | inr room ↦ rw room (collect-All c limit ls (out ++ l ∷ []) a')
      ])
  | inr h ↦ rw h (elim (Bool-cases (leb limit (length out))) [
    | inl full ↦ rw full a
    | inr room ↦ rw room (collect-All c limit ls out a)
  ])
]

only_namespace-eq : (nss : List Bytes) (ns : Bytes) → only_namespace nss ≡ some ns → nss ≡ ns ∷ []
unfolding only_namespace
only_namespace-eq [] ns e = absurd (ground arith)
only_namespace-eq (n ∷ []) ns e = ground arith
only_namespace-eq (n ∷ m ∷ nss) ns e = absurd (ground arith)

has_prefix_refl : (a : Bytes) → has_prefix a a ≡ true
unfolding has_prefix
has_prefix_refl [] = refl
has_prefix_refl (x ∷ a) = ground (arith, has_prefix_refl a)

views-All :
    (s : Server) (c : Client) (ls : List Link)
    → All (λ (l : Link). can_access c l.key ≡ true) ls
    → All (λ (v : LinkView). can_access c v.key ≡ true) (map (link_view s) ls)
unfolding link_view
views-All s c [] a = tt
views-All s c (l ∷ ls) a = (a.0, views-All s c ls a.1)

module _ (B : Buckets) (c : Client) (db : Db B) where
  -- All links are the client's.
  abbrev AreOwn : List Link → Type 0
  AreOwn ls = All (λ (l : Link). can_access c l.key ≡ true) ls

  list_filtered_loop-AreOwn :
      (fuel limit : ℕ) (out ls : List Link) (cursor next : Bytes)
      → AreOwn out
      → list_filtered_loop B fuel c limit out cursor db ≡ some (ok (ls, next))
      → AreOwn ls
  unfolding list_filtered_loop
  list_filtered_loop-AreOwn zero limit out ls cursor next a e = absurd (ground arith)
  list_filtered_loop-AreOwn (suc fuel) limit out ls cursor next a e =
      elim (Bool-cases (ltb (length out) limit)) [
        | inr f ↦ let q : out ≡ ls = ground arith in rw (← q) a
        | inl f ↦ elim (Result-cases (list B [] limit cursor db)) [
          | inr (x, h) ↦ absurd (ground arith)
          | inl ((batch, n), h) ↦
              let a' = collect-All c limit batch out a in
              elim (Option-cases (collect c limit batch out).1) [
                | inr (k, t) ↦
                    let q : (collect c limit batch out).0 ≡ ls = ground arith in rw (← q) a'
                | inl t ↦ elim (Bool-cases (n == [])) [
                  | inl b ↦ let q : (collect c limit batch out).0 ≡ ls = ground arith in rw (← q) a'
                  | inr b ↦
                      list_filtered_loop-AreOwn fuel limit (collect c limit batch out).0 ls n next
                        a' (ground arith)
                ]
              ]
        ]
      ]

  list-AreOwn :
      (ns : Bytes) (limit : ℕ) (cursor next : Bytes) (ls : List Link)
      → can_access c ns ≡ true
      → list B ns limit cursor db ≡ ok (ls, next)
      → AreOwn ls
  unfolding list
  list-AreOwn ns limit cursor next ls a e =
      All-map _ _ ls (λ l h. can_access_below c l.key ns h a)
        (list_loop-All ns (clamp_limit limit) (start B ns cursor db) [] ls next tt e)

  own_namespace : (ns : Bytes) → only_namespace c.namespaces ≡ some ns → can_access c ns ≡ true
  unfolding can_access in_namespaces
  own_namespace ns e =
      let q = only_namespace-eq c.namespaces ns e in ground (arith, has_prefix_refl ns)

  list_own-AreOwn :
      (limit : ℕ) (cursor next : Bytes) (ls : List Link)
      → list_own B c limit cursor db ≡ some (ok (ls, next))
      → AreOwn ls
  unfolding list_own list_filtered
  list_own-AreOwn limit cursor next ls e = elim (Bool-cases c.is_admin) [
    | inl a ↦ list-AreOwn [] limit cursor next ls (admin_access c [] a) (ground arith)
    | inr a ↦ elim (Option-cases (only_namespace c.namespaces)) [
      | inl o ↦
          list_filtered_loop-AreOwn (length (B.links.entries db.links) + 1) limit [] ls cursor next
            tt (ground arith)
      | inr (ns, o) ↦ list-AreOwn ns limit cursor next ls (own_namespace ns o) (ground arith)
    ]
  ]

  module _ (s : Server) where
    answer-AreOwn :
        (r : Result (List Link × Bytes)) (views : List LinkView) (next : Bytes)
        → ((ls : List Link) (n : Bytes) → r ≡ ok (ls, n) → AreOwn ls)
        → (list_answer B s r db).body ≡ Body.links views next
        → All (λ (v : LinkView). can_access c v.key ≡ true) views
    unfolding list_answer
    answer-AreOwn (err x) views next f e = absurd (ground arith)
    answer-AreOwn (ok (ls, n)) views next f e =
        let q : map (link_view s) ls ≡ views = ground arith in
        rw (← q) (views-All s c ls (f ls n refl))

    list_with_limit-AreOwn :
        (q : ListQuery) (limit : ℕ) (o : Outcome B) (views : List LinkView) (next : Bytes)
        → list_with_limit B s c q limit db ≡ some o
        → o.body ≡ Body.links views next
        → All (λ (v : LinkView). can_access c v.key ≡ true) views
    unfolding list_with_limit
    list_with_limit-AreOwn q limit o views next e b = elim (Bool-cases (q.namespace == [])) [
      | inr n ↦ elim (Bool-cases (can_access c q.namespace)) [
        | inr a ↦ absurd (ground arith)
        | inl a ↦
            answer-AreOwn (list B q.namespace limit q.cursor db) views next
              (λ ls m h. list-AreOwn q.namespace limit q.cursor m ls a h) (ground arith)
      ]
      | inl n ↦ elim (Option-cases (list_own B c limit q.cursor db)) [
        | inl h ↦ absurd (ground arith)
        | inr (r, h) ↦
            answer-AreOwn r views next
              (λ ls m k. list_own-AreOwn limit q.cursor m ls (ground arith)) (ground arith)
      ]
    ]

    -- A list that is shown to a client has only links whose keys the client may use, whatever
    -- namespace, limit and cursor the request names.
    pub list_links-AreOwn :
        (q : ListQuery) (o : Outcome B) (views : List LinkView) (next : Bytes)
        → list_links B s c q db ≡ some o
        → o.body ≡ Body.links views next
        → All (λ (v : LinkView). can_access c v.key ≡ true) views
    unfolding list_links
    list_links-AreOwn q o views next e b = go q.limit refl
      where
        go : (l : Limit) → q.limit ≡ l → All (λ (v : LinkView). can_access c v.key ≡ true) views
        go default h = list_with_limit-AreOwn q 100 o views next (rw (h, list_links) at e) b
        go invalid h = absurd (ground arith)
        go (positive n) h =
            list_with_limit-AreOwn q (capped n) o views next (rw (h, list_links) at e) b
