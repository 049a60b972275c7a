-- ===== src/Limiter.antt =====
-- RateLimiter of urlshort/server.go: a bounded table of token buckets, the least recently used key
-- last. The map `entries` is the index of the list `order` by key, so that one list of pairs is
-- the state. golang.org/x/time/rate is a parameter: a bucket's state and its Allow.
pub mod Bounded
pub mod Recent
mod Tests
use dflybot.Prelude.{
  ℕ, Bool, true, false, Option, none, some, List, [], ◌∷◌, if◌then◌else◌, leb, length,
}
use dflybot.Prelude.Bytes.{Bytes, ◌==◌}

-- rate.NewLimiter(limit, burst) and Allow at a time.
pub record Rate : Type 1 where
  pub Limiter : Type 0
  pub new_limiter : Limiter
  pub allow : ℕ → Limiter → Bool × Limiter

module _ {L : Type 0} where
  -- entries[key]
  unfoldable pub find : Bytes → List (Bytes × L) → Option L
  find key [] = none
  find key ((k, l) ∷ order) = let rest = find key order in if k == key then some l else rest

  -- The list without the element of a key, which MoveToFront takes out.
  unfoldable pub take_out : Bytes → List (Bytes × L) → List (Bytes × L)
  take_out key [] = []
  take_out key ((k, l) ∷ order) =
      let rest = take_out key order in if k == key then order else (k, l) ∷ rest

  -- order.Remove(order.Back())
  unfoldable pub drop_back : List (Bytes × L) → List (Bytes × L)
  drop_back [] = []
  drop_back (e ∷ []) = []
  drop_back (e ∷ f ∷ order) = e ∷ drop_back (f ∷ order)

  -- Room for one more.
  unfoldable pub make_room : ℕ → List (Bytes × L) → List (Bytes × L)
  unfolding drop_back
  make_room max order = if leb max (length order) then drop_back order else order

-- NewRateLimiter: a bound that is not positive (0 here) becomes 10000.
unfoldable pub table_max : ℕ → ℕ
table_max max = if leb max 0 then 10000 else max

module _ (R : Rate) where
  -- The table with the key's bucket in front, before lim.Allow().
  unfoldable pub touch : ℕ → Bytes → List (Bytes × R.Limiter) → R.Limiter × List (Bytes × R.Limiter)
  unfolding find take_out make_room
  touch max key order = elim (find key order) [
    | some l ↦ (l, take_out key order)
    | none ↦ (R.new_limiter, make_room max order)
  ]

  -- Allow at the time `now`.
  unfoldable pub allow : ℕ → ℕ → Bytes → List (Bytes × R.Limiter) → Bool × List (Bytes × R.Limiter)
  unfolding touch
  allow max now key order =
      let (l, rest) = touch max key order in
      let (passes, l') = R.allow now l in (passes, (key, l') ∷ rest)
