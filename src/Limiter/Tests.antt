-- ===== src/Limiter/Tests.antt =====
-- A full table. A bucket is the number of requests that it still lets pass.
use dflybot.Prelude.{
  ℕ, zero, suc, ◌≤◌, Bool, true, false, some, none, List, ◌≢◌, ap, [], ◌∷◌, ◌≡◌, refl, arith,
  length,
}
use dflybot.Prelude.Bytes.{Bytes, lit, ◌==◌, ne_of_test}
use dflybot.Limiter.{Rate, find, take_out, drop_back, make_room, touch, allow}
use dflybot.Limiter.Bounded.{HasOnce, allow-IsTable}
use dflybot.Limiter.Recent.{back_key}

program : Unit {0}
unfolding ◌==◌ find take_out drop_back make_room touch allow
program = tt

abbrev spend : ℕ → Bool × ℕ
spend zero = (false, 0)
spend (suc n) = (true, n)

abbrev counters : Rate
counters = record { Limiter = ℕ; new_limiter = 2; allow = λ now n. spend n }

abbrev full : List (Bytes × ℕ)
full = (lit "a", 1) ∷ (lit "b", 0) ∷ []

runs :
    (allow counters 2 9 (lit "b") full ≡ (false, (lit "b", 0) ∷ (lit "a", 1) ∷ []))
    × (allow counters 2 9 (lit "c") full ≡ (true, (lit "c", 1) ∷ (lit "a", 1) ∷ []))
unfolding program
runs = (refl, refl)

full_once : HasOnce full
unfolding program
full_once = ((ne_of_test (lit "b") (lit "a") refl, tt), (tt, tt))

allow-IsTable_example :
    (length (allow counters 2 9 (lit "c") full).1 ≤ 2)
    × HasOnce (allow counters 2 9 (lit "c") full).1
allow-IsTable_example =
    allow-IsTable counters 2 9 (lit "c") full (omega arith) (omega arith) full_once

a_not_c : (lit "a" == lit "c") ≡ false
unfolding program
a_not_c = refl

b_not_a : (lit "b" == lit "a") ≡ false
unfolding program
b_not_a = refl

back_not_a : back_key full ≢ some (lit "a")
unfolding back_key
back_not_a e =
    let n : lit "b" ≢ lit "a" = ne_of_test (lit "b") (lit "a") b_not_a in
    n (ap (λ o. elim o [ none ↦ [] | some k ↦ k ]) e)
