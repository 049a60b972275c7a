-- ===== src/TtlCache.antt =====
-- The cache of ttlcache/ttlcache.go. Its lock lets one operation run at a time; an operation has the
-- time at which it runs, in nanoseconds. The pool of items is not modelled.
pub mod Refines
mod Tests
use dflybot.Prelude.{
  ℕ, ◌+◌, Bool, true, false, ◌&&◌, Option, none, some, List, [], ◌∷◌, ◌++◌, if◌then◌else◌, ltb,
}
use dflybot.Prelude.Bytes.{Bytes}
use dflybot.Prelude.Sorted.{lookup, insert, remove}

-- A time of expiry, none for NoTTL.
pub record Item (V : Type 0) : Type 0 where
  pub value : V
  pub expire_at : Option ℕ

abbrev pub expires : Option ℕ → ℕ → Bool
expires none now = false
expires (some t) now = ltb 0 t && ltb t now

unfoldable pub is_expired : {V : Type 0} → Item V → ℕ → Bool
is_expired i now = expires i.expire_at now

-- A negative TTL, the one of the cache, or one of its own.
pub data Ttl : Type 0 where
  no_ttl : Ttl
  default_ttl : Ttl
  ttl : ℕ → Ttl

pub record Cache (V : Type 0) : Type 0 where
  pub items : List (Bytes × Item V)
  pub own_ttl : ℕ

module _ {V : Type 0} where
  unfoldable pub get_expire_at : Cache V → Ttl → ℕ → Option ℕ
  get_expire_at c no_ttl now = none
  get_expire_at c default_ttl now = some (now + c.own_ttl)
  get_expire_at c (ttl t) now = some (now + t)

  abbrev pub is_live : Option (Item V) → ℕ → Bool
  is_live none now = false
  is_live (some i) now = if is_expired i now then false else true

  abbrev put : Bytes → V → Option ℕ → Cache V → Cache V
  put k v t c = record c { items = insert k (record { value = v; expire_at = t }) c.items }

  -- Set.
  unfoldable pub set : Bytes → V → Ttl → ℕ → Cache V → Cache V
  unfolding get_expire_at
  set k v t now c = put k v (get_expire_at c t now) c

  -- Add, and whether it returned no error.
  unfoldable pub add : Bytes → V → Ttl → ℕ → Cache V → Cache V × Bool
  unfolding get_expire_at is_expired
  add k v t now c =
      if is_live (lookup k c.items) now
      then (c, false)
      else (put k v (get_expire_at c t now) c, true)

  abbrev pub live_value : Option (Item V) → ℕ → Option V
  live_value none now = none
  live_value (some i) now = if is_expired i now then none else some i.value

  unfoldable pub get : Bytes → ℕ → Cache V → Option V
  unfolding is_expired
  get k now c = live_value (lookup k c.items) now

  abbrev without : Bytes → Cache V → Cache V
  without k c = record c { items = remove k c.items }

  unfoldable pub pop : Bytes → ℕ → Cache V → Cache V × Option V
  unfolding is_expired
  pop k now c = (without k c, live_value (lookup k c.items) now)

  abbrev evicted : Bytes → Option (Item V) → List (Bytes × V)
  evicted k none = []
  evicted k (some i) = (k, i.value) ∷ []

  -- Delete, and what the callback is called for.
  unfoldable pub delete : Bytes → Cache V → Cache V × List (Bytes × V)
  delete k c = (without k c, evicted k (lookup k c.items))

  unfoldable pub clean_items : ℕ → List (Bytes × Item V) → List (Bytes × Item V) × List (Bytes × V)
  unfolding is_expired
  clean_items now [] = ([], [])
  clean_items now ((k, i) ∷ items) =
      let (kept, gone) = clean_items now items in
      if is_expired i now then (kept, (k, i.value) ∷ gone) else ((k, i) ∷ kept, gone)

  -- A round of clean.
  unfoldable pub clean : ℕ → Cache V → Cache V × List (Bytes × V)
  unfolding clean_items
  clean now c = let (kept, gone) = clean_items now c.items in (record c { items = kept }, gone)

pub data Op (V : Type 0) : Type 0 where
  op_set : Bytes → V → Ttl → Op V
  op_add : Bytes → V → Ttl → Op V
  op_pop : Bytes → Op V
  op_delete : Bytes → Op V
  op_clean : Op V

unfoldable pub step : {V : Type 0} → Op V → ℕ → Cache V → Cache V
unfolding set add pop delete clean
step (op_set k v t) now c = set k v t now c
step (op_add k v t) now c = (add k v t now c).0
step (op_pop k) now c = (pop k now c).0
step (op_delete k) now c = (delete k c).0
step op_clean now c = (clean now c).0
