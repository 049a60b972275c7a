-- ===== src/TtlCache/Refines.antt =====
-- What the operations of ttlcache/ttlcache.go do to the keys that Get finds.
use mathlib.Core.Path.{subst}
use dflybot.Prelude.{
  ℕ, ◌≤◌, true, false, Option, none, some, List, [], ◌∷◌, ◌≡◌, ◌⊎◌, inl, inr, arith, refl, sym, ap,
  ◌∙◌, if◌then◌else◌, All, Bool-cases, Option-cases,
}
use dflybot.Prelude.Bytes.{Bytes, ◌==◌, eq_iff, blt, blt_irrefl}
use dflybot.Prelude.Sorted.{
  lookup, insert, remove, IsAscending, lookup-insert, lookup-remove, insert-IsAscending,
  remove-IsAscending,
}
use dflybot.TtlCache.{
  Item, expires, is_expired, Ttl, Cache, get_expire_at, is_live, live_value, set, add, get, pop,
  delete, clean_items, clean, Op, op_set, op_add, op_pop, op_delete, op_clean, step,
}

module _ {V : Type 0} where
  abbrev pub new_value : V → Option ℕ → ℕ → Option V
  new_value v e t = if expires e t then none else some v

  abbrev pub after_add : Option V → Option V → Bytes → Bytes → Option V → Option V
  after_add added kept k j (some w) = kept
  after_add added kept k j none = if k == j then added else kept

  -- What is found at a time after an operation, by what was found at the operation's own time and at
  -- that time without it.
  unfoldable pub found_after :
      Op V → ℕ → Cache V → (Bytes → Option V) → (Bytes → Option V) → ℕ → Bytes → Option V
  unfolding get_expire_at
  found_after (op_set k v e) now c before view t j =
      if k == j then new_value v (get_expire_at c e now) t else view j
  found_after (op_add k v e) now c before view t j =
      after_add (new_value v (get_expire_at c e now) t) (view j) k j (before k)
  found_after (op_pop k) now c before view t j = if k == j then none else view j
  found_after (op_delete k) now c before view t j = if k == j then none else view j
  found_after op_clean now c before view t j = view j

  lookup_after :
      (k : Bytes) (m : List (Bytes × Item V)) → All (λ x. blt k x.0 ≡ true) m → lookup k m ≡ none
  unfolding lookup
  lookup_after k [] h = refl
  lookup_after k ((j, i) ∷ m) (b, h) = elim (Bool-cases (j == k)) [
    | inl e ↦ ground (arith, rw ((eq_iff j k).0 e) at b, blt_irrefl k)
    | inr e ↦ rw (e, lookup) (lookup_after k m h)
  ]

  one_item :
      (v : V) (e : Option ℕ) (t : ℕ)
      → live_value (some (record { value = v; expire_at = e })) t ≡ new_value v e t
  unfolding is_expired
  one_item v e t = refl

  put-get :
      (k j : Bytes) (v : V) (e : Option ℕ) (t : ℕ) (items : List (Bytes × Item V))
      → live_value (lookup j (insert k (record { value = v; expire_at = e }) items)) t
        ≡ (if k == j then new_value v e t else live_value (lookup j items) t)
  put-get k j v e t items =
      let l = lookup-insert k j (record { value = v; expire_at = e }) items in
      elim (Bool-cases (k == j)) [
        | inl q ↦ ap (λ o. live_value o t) l ∙ rw q (one_item v e t)
        | inr q ↦ ap (λ o. live_value o t) l ∙ rw q refl
      ]

  without-get :
      (k j : Bytes) (t : ℕ) (items : List (Bytes × Item V))
      → live_value (lookup j (remove k items)) t
        ≡ (if k == j then none else live_value (lookup j items) t)
  without-get k j t items = elim (Bool-cases (k == j)) [
    | inl q ↦ ap (λ o. live_value o t) (lookup-remove k j items) ∙ rw q refl
    | inr q ↦ ap (λ o. live_value o t) (lookup-remove k j items) ∙ rw q refl
  ]

  expired_later :
      (i : Item V) (now t : ℕ) → now ≤ t → is_expired i now ≡ true → is_expired i t ≡ true
  unfolding is_expired
  expired_later i now t l h = elim (Option-cases i.expire_at) [
    | inl n ↦ ground (arith, rw n at h)
    | inr (u, s) ↦ rw s (ground (arith, rw s at h, l))
  ]

  gone_item : (i : Item V) (t : ℕ) → is_expired i t ≡ true → none ≡ live_value (some i) t
  gone_item i t e = rw e refl

  clean_items-get :
      (now t : ℕ) (j : Bytes) (items : List (Bytes × Item V))
      → now ≤ t
      → IsAscending items
      → live_value (lookup j (clean_items now items).0) t ≡ live_value (lookup j items) t
  unfolding clean_items lookup
  clean_items-get now t j [] l h = refl
  clean_items-get now t j ((k, i) ∷ items) l (b, h) =
      let ih = clean_items-get now t j items l h in
      elim (Bool-cases (is_expired i now)) [
        | inl e ↦ elim (Bool-cases (k == j)) [
          | inl q ↦
              let n =
                lookup_after j items
                  (subst (λ x. All (λ y. blt x y.0 ≡ true) items) ((eq_iff k j).0 q) b) in
              rw (e, q, clean_items, lookup)
                (ih ∙ ap (λ o. live_value o t) n ∙ gone_item i t (expired_later i now t l e))
          | inr q ↦ rw (e, q, clean_items, lookup) ih
        ]
        | inr e ↦ elim (Bool-cases (k == j)) [
          | inl q ↦ rw (e, q, clean_items, lookup) refl
          | inr q ↦ rw (e, q, clean_items, lookup) ih
        ]
      ]

  is_live-get :
      (o : Option (Item V)) (now : ℕ)
      → ((live_value o now ≡ none) × (is_live o now ≡ false))
        ⊎ ((v : V) × (live_value o now ≡ some v) × (is_live o now ≡ true))
  is_live-get none now = inl (refl, refl)
  is_live-get (some i) now = elim (Bool-cases (is_expired i now)) [
    | inl e ↦ inl (rw e (refl, refl))
    | inr e ↦ inr (rw e (i.value, refl, refl))
  ]

  add_absent :
      (k : Bytes) (v : V) (e : Ttl) (now : ℕ) (c : Cache V)
      → is_live (lookup k c.items) now ≡ false
      → (add k v e now c).0 ≡ set k v e now c
  unfolding add set
  add_absent k v e now c n = rw (n, add) refl

  add_present :
      (k : Bytes) (v : V) (e : Ttl) (now : ℕ) (c : Cache V)
      → is_live (lookup k c.items) now ≡ true
      → (add k v e now c).0 ≡ c
  unfolding add
  add_present k v e now c n = rw (n, add) refl

  -- What Get finds after an operation, at its time or later, is what the operation promises: Set and a
  -- successful Add put their value for as long as it lives, Add succeeds only where Get finds
  -- nothing, Pop and Delete take the key out, no operation changes another key, and a round of clean
  -- changes nothing.
  pub step-found_after :
      (op : Op V) (now t : ℕ) (c : Cache V) (j : Bytes)
      → IsAscending c.items
      → now ≤ t
      → get j t (step op now c) ≡ found_after op now c (λ k. get k now c) (λ k. get k t c) t j
  unfolding get step set add pop delete clean found_after
  step-found_after (op_set k v e) now t c j h l = put-get k j v (get_expire_at c e now) t c.items
  step-found_after (op_add k v e) now t c j h l = elim (is_live-get (lookup k c.items) now) [
    | inl (g, n) ↦
        ap (get j t) (add_absent k v e now c n)
        ∙ put-get k j v (get_expire_at c e now) t c.items
        ∙ sym (ap (λ o. after_add (new_value v (get_expire_at c e now) t) (get j t c) k j o) g)
    | inr (w, g, n) ↦
        ap (get j t) (add_present k v e now c n)
        ∙ sym (ap (λ o. after_add (new_value v (get_expire_at c e now) t) (get j t c) k j o) g)
  ]
  step-found_after (op_pop k) now t c j h l = without-get k j t c.items
  step-found_after (op_delete k) now t c j h l = without-get k j t c.items
  step-found_after op_clean now t c j h l = clean_items-get now t j c.items l h

  All-clean_items {κ} :
      (P : Bytes × Item V → Type κ) (now : ℕ) (items : List (Bytes × Item V))
      → All P items
      → All P (clean_items now items).0
  unfolding clean_items
  All-clean_items P now [] h = tt
  All-clean_items P now ((k, i) ∷ items) (p, h) = elim (Bool-cases (is_expired i now)) [
    | inl e ↦ rw (e, clean_items) (All-clean_items P now items h)
    | inr e ↦ rw (e, clean_items) (p, All-clean_items P now items h)
  ]

  clean_items-IsAscending :
      (now : ℕ) (items : List (Bytes × Item V))
      → IsAscending items
      → IsAscending (clean_items now items).0
  unfolding clean_items
  clean_items-IsAscending now [] h = tt
  clean_items-IsAscending now ((k, i) ∷ items) (b, h) = elim (Bool-cases (is_expired i now)) [
    | inl e ↦ rw (e, clean_items) (clean_items-IsAscending now items h)
    | inr e ↦
        rw (e, clean_items) (All-clean_items _ now items b, clean_items-IsAscending now items h)
  ]

  -- Every operation keeps the order of the keys, so that each is there once, and the cache's TTL.
  pub step-IsAscending :
      (op : Op V) (now : ℕ) (c : Cache V)
      → IsAscending c.items
      → IsAscending (step op now c).items × ((step op now c).own_ttl ≡ c.own_ttl)
  unfolding step set add pop delete clean
  step-IsAscending (op_set k v e) now c h = (insert-IsAscending k _ c.items h, refl)
  step-IsAscending (op_add k v e) now c h = elim (Bool-cases (is_live (lookup k c.items) now)) [
    | inl n ↦ rw (n, step, add) (h, refl)
    | inr n ↦ rw (n, step, add) (insert-IsAscending k _ c.items h, refl)
  ]
  step-IsAscending (op_pop k) now c h = (remove-IsAscending k c.items h, refl)
  step-IsAscending (op_delete k) now c h = (remove-IsAscending k c.items h, refl)
  step-IsAscending op_clean now c h = (clean_items-IsAscending now c.items h, refl)
