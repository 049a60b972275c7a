-- ===== src/OpMe/Outcome.antt =====
-- What handleOpMe of irc.go does to the cache, and the timestamps that it lets pass.
use dflybot.Prelude.{
  ℕ, true, Option, none, some, List, [], ◌∷◌, ◌≡◌, ◌≢◌, ◌⊎◌, inl, inr, arith, refl, All, Bool-cases,
  Option-cases,
}
use dflybot.Prelude.Bytes.{Bytes, ◌==◌}
use dflybot.TtlCache.{default_ttl, add, get}
use dflybot.OpMe.{
  Config, Reply, granted, in_leeway, mark, Seen, auth_id, check_mac, check_time, check_args,
  check_creds, handle_op_me, with_grant, Times, Grant, args_of, find, no_creds, key_of,
}

-- strings.Split at a colon: the parts have none.
abbrev pub IsSplit : (Bytes → List Bytes) → Type 0
IsSplit split =
    (arg user timestamp mac : Bytes)
    → args_of (split arg) ≡ some (user, timestamp, mac)
    → All (λ (c : ℕ). c ≢ 58) user

pub auth_id_injective :
    (u v s t : Bytes)
    → All (λ (c : ℕ). c ≢ 58) u
    → All (λ (c : ℕ). c ≢ 58) v
    → auth_id u s ≡ auth_id v t
    → s ≡ t
auth_id_injective [] [] s t h k e = ground (arith, e)
auth_id_injective [] (d ∷ v) s t h (n, k) e = ground (arith, e, n)
auth_id_injective (c ∷ u) [] s t (n, h) k e = ground (arith, e, n)
auth_id_injective (c ∷ u) (d ∷ v) s t (n, h) (m, k) e =
    auth_id_injective u v s t h k (ground (arith, e))

-- What is known of a granted authID: its timestamp, at which it is in the leeway.
abbrev pub IsFresh : Config → ℕ → Bytes → ℕ → Type 0
IsFresh cfg now id n =
    (user : Bytes) × (timestamp : Bytes) × (id ≡ auth_id user timestamp)
    × All (λ (c : ℕ). c ≢ 58) user
    × (cfg.parse_int timestamp ≡ some n)
    × (in_leeway now n ≡ true)

-- A command leaves the cache and grants nothing, or it grants an authID that the cache did not have.
abbrev pub Outcome : Config → Times → Seen → Seen × Reply → Type 0
Outcome cfg ts cache r =
    ((r.0 ≡ cache) × ((gs : List Grant) → with_grant ts r.1 gs ≡ gs))
    ⊎ ((id : Bytes) × (n : ℕ) × (r ≡ ((add id mark default_ttl ts.added cache).0, granted id))
        × (get id ts.got cache ≡ none)
        × IsFresh cfg ts.checked id n)

check_mac-Outcome :
    (cfg : Config) (ts : Times) (n : ℕ) (user timestamp key mac : Bytes) (cache : Seen)
    → All (λ (c : ℕ). c ≢ 58) user
    → cfg.parse_int timestamp ≡ some n
    → in_leeway ts.checked n ≡ true
    → Outcome cfg ts cache (check_mac cfg ts (auth_id user timestamp) key mac cache)
check_mac-Outcome cfg ts n user timestamp key mac cache h p l =
    let id = auth_id user timestamp in
    elim (Bool-cases (key == [])) [
      | inl e ↦ rw e (inl (refl, (λ gs. refl)))
      | inr e ↦ elim (Bool-cases (cfg.hmac key id == mac)) [
        | inr m ↦ rw (e, m) (inl (refl, (λ gs. refl)))
        | inl m ↦ elim (Option-cases (get id ts.got cache)) [
          | inr (u, g) ↦ rw (e, m, g) (inl (refl, (λ gs. refl)))
          | inl g ↦ rw (e, m, g) (inr (id, n, refl, g, (user, timestamp, refl, h, p, l)))
        ]
      ]
    ]

check_time-Outcome :
    (cfg : Config) (ts : Times) (creds : List (Bytes × Bytes)) (user timestamp mac : Bytes)
    (o : Option ℕ) (cache : Seen)
    → All (λ (c : ℕ). c ≢ 58) user
    → cfg.parse_int timestamp ≡ o
    → Outcome cfg ts cache (check_time cfg ts creds user timestamp mac o cache)
check_time-Outcome cfg ts creds user timestamp mac none cache h p = inl (refl, (λ gs. refl))
check_time-Outcome cfg ts creds user timestamp mac (some n) cache h p =
    elim (Bool-cases (in_leeway ts.checked n)) [
      | inl l ↦ rw l (
          check_mac-Outcome cfg ts n user timestamp (key_of (find user creds)) (cfg.to_lower mac)
            cache h p l)
      | inr l ↦ rw l (inl (refl, (λ gs. refl)))
    ]

check_args-Outcome :
    (cfg : Config) (ts : Times) (creds : List (Bytes × Bytes)) (arg : Bytes)
    (args : Option (Bytes × Bytes × Bytes)) (cache : Seen)
    → IsSplit cfg.split
    → args_of (cfg.split arg) ≡ args
    → Outcome cfg ts cache (check_args cfg ts creds args cache)
check_args-Outcome cfg ts creds arg none cache s e = inl (refl, (λ gs. refl))
check_args-Outcome cfg ts creds arg (some (user, timestamp, mac)) cache s e =
    check_time-Outcome cfg ts creds user timestamp mac (cfg.parse_int timestamp) cache
      (s arg user timestamp mac e) refl

check_creds-Outcome :
    (cfg : Config) (ts : Times) (arg : Bytes) (creds : Option (List (Bytes × Bytes))) (cache : Seen)
    → IsSplit cfg.split
    → Outcome cfg ts cache (check_creds cfg ts arg creds cache)
check_creds-Outcome cfg ts arg none cache s = inl (refl, (λ gs. refl))
check_creds-Outcome cfg ts arg (some creds) cache s =
    check_args-Outcome cfg ts creds arg (args_of (cfg.split arg)) cache s refl

pub handle_op_me-Outcome :
    (cfg : Config) (ts : Times) (channel arg : Bytes) (cache : Seen)
    → IsSplit cfg.split
    → Outcome cfg ts cache (handle_op_me cfg ts channel arg cache)
unfolding handle_op_me
handle_op_me-Outcome cfg ts channel arg cache s =
    check_creds-Outcome cfg ts arg (no_creds (find channel cfg.channels)) cache s
