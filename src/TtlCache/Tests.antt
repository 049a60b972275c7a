-- ===== src/TtlCache/Tests.antt =====
-- The theorem on the operations at a concrete cache.
use dflybot.Prelude.{ℕ, some, [], ◌∷◌, ◌≡◌, arith}
use dflybot.Prelude.Bytes.{lit}
use dflybot.TtlCache.{Cache, ttl, op_add, get, step}
use dflybot.TtlCache.Refines.{found_after, step-found_after}

abbrev cache : Cache ℕ
cache = record { items = (lit "a", record { value = 1; expire_at = some 10 }) ∷ []; own_ttl = 120 }

-- The value of "a" has expired, and is replaced.
step-found_after_example :
    get (lit "a") 25 (step (op_add (lit "a") 2 (ttl 30)) 20 cache)
    ≡ found_after
        (op_add (lit "a") 2 (ttl 30))
        20
        cache
        (λ k. get k 20 cache)
        (λ k. get k 25 cache)
        25
        (lit "a")
step-found_after_example =
    step-found_after (op_add (lit "a") 2 (ttl 30)) 20 25 cache (lit "a") (tt, tt) (omega arith)
