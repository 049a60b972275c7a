-- ===== src/OpMe/Replay.antt =====
-- The authIDs that handleOpMe of irc.go grants, over a sequence of commands.
use mathlib.Core.Path.{subst}
use dflybot.Prelude.{
  ℕ, ◌+◌, ◌*◌, ◌≤◌, ◌<◌, ltb, true, false, Option, none, some, List, [], ◌∷◌, ◌≡◌, inl, inr, arith,
  refl, sym, ap, ◌∙◌, All, Bool-cases, Option-cases,
}
use dflybot.Prelude.Bytes.{Bytes, ◌==◌, eq_iff, eq_refl}
use dflybot.Prelude.Sorted.{lookup, IsAscending}
use dflybot.TtlCache.{
  expires, is_expired, default_ttl, get_expire_at, add, get, clean, step, op_add, op_clean,
}
use dflybot.TtlCache.Refines.{step-found_after, step-IsAscending, found_after, after_add, new_value}
use dflybot.OpMe.Outcome.{IsSplit, IsFresh, auth_id_injective, handle_op_me-Outcome}
use dflybot.OpMe.{
  Config, opme_leeway, in_leeway, Mark, mark, Seen, handle_op_me, new_seen, Times, Event, command,
  cleaned, Grant, with_grant, grants,
}

-- The cache of the bot: in order, and with twice the leeway as its TTL.
abbrev IsSeen : Seen → Type 0
IsSeen c = IsAscending c.items × (c.own_ttl ≡ opme_leeway * 2)

-- The authID is found up to the time `e`.
abbrev IsHeld : Seen → ℕ → Bytes → ℕ → Type 0
IsHeld c now id e = (t : ℕ) → now ≤ t → t ≤ e → (m : Mark) × (get id t c ≡ some m)

-- What is not found is not found later either.
still_none : (c : Seen) (id : Bytes) (t u : ℕ) → t ≤ u → get id t c ≡ none → get id u c ≡ none
unfolding get is_expired
still_none c id t u h g = elim (Option-cases (lookup id c.items)) [
  | inl e ↦ rw e refl
  | inr (i, e) ↦ elim (Option-cases i.expire_at) [
    | inl x ↦ ground (arith, rw (e, x) at g)
    | inr (x, y) ↦ rw (e, y) (ground (arith, h, rw (e, y) at g))
  ]
]

add-IsHeld :
    (now : ℕ) (id : Bytes) (c : Seen)
    → IsSeen c
    → get id now c ≡ none
    → IsHeld (add id mark default_ttl now c).0 now id (now + opme_leeway * 2)
unfolding step found_after get_expire_at
add-IsHeld now id c (a, o) g t h k =
    let x : expires (some (now + c.own_ttl)) t ≡ false = ground (arith, o, k) in
    (
      mark,
      step-found_after (op_add id mark default_ttl) now t c id a h
          ∙ ap (after_add (new_value mark (some (now + c.own_ttl)) t) (get id t c) id id) g
          ∙ rw (eq_refl id, x) refl,
    )

after_add-apart :
    (added kept o : Option Mark) (k j : Bytes)
    → (k == j) ≡ false
    → after_add added kept k j o ≡ kept
after_add-apart added kept none k j e = rw e refl
after_add-apart added kept (some m) k j e = refl

keep-IsHeld :
    (now later e : ℕ) (id k : Bytes) (c : Seen)
    → IsSeen c
    → (k == id) ≡ false
    → now ≤ later
    → IsHeld c now id e
    → IsHeld (add k mark default_ttl later c).0 later id e
unfolding step found_after get_expire_at
keep-IsHeld now later e id k c (a, o) d h g t b l =
    let (m, q) = g t (omega (arith, h, b)) l in
    (
      m,
      step-found_after (op_add k mark default_ttl) later t c id a b
          ∙ after_add-apart (new_value mark (some (later + c.own_ttl)) t) (get id t c)
              (get k later c) k id d
          ∙ q,
    )

clean-IsHeld :
    (now later e : ℕ) (id : Bytes) (c : Seen)
    → IsSeen c
    → now ≤ later
    → IsHeld c now id e
    → IsHeld (clean later c).0 later id e
unfolding step found_after
clean-IsHeld now later e id c (a, o) h g t b l =
    let (m, q) = g t (omega (arith, h, b)) l in (m, step-found_after op_clean later t c id a b ∙ q)

-- The clock does not go back, within a command and from one event to the next.
abbrev pub InOrder : ℕ → List Event → Type 0
InOrder now [] = Unit
InOrder now (cleaned t ∷ events) = (now ≤ t) × InOrder t events
InOrder now (command ts channel arg ∷ events) =
    (now ≤ ts.checked) × (ts.checked ≤ ts.got) × (ts.got ≤ ts.added) × InOrder ts.added events

add-IsSeen : (now : ℕ) (id : Bytes) (c : Seen) → IsSeen c → IsSeen (add id mark default_ttl now c).0
unfolding step
add-IsSeen now id c (a, o) =
    let (b, p) = step-IsAscending (op_add id mark default_ttl) now c a in (b, p ∙ o)

clean-IsSeen : (now : ℕ) (c : Seen) → IsSeen c → IsSeen (clean now c).0
unfolding step
clean-IsSeen now c (a, o) = let (b, p) = step-IsAscending op_clean now c a in (b, p ∙ o)

-- A later grant of the same authID: its Get comes more than twice the leeway after the Add, and it
-- took longer from its check of the time to its Get than the first took from its check to its Add.
abbrev pub IsApart : Grant → Grant → Type 0
IsApart g h =
    g.id ≡ h.id
    → (g.times.added + opme_leeway * 2 < h.times.got)
      × (g.times.added + h.times.checked < h.times.got + g.times.checked)

abbrev pub AreApart : List Grant → Type 0
AreApart [] = Unit
AreApart (g ∷ gs) = All (IsApart g) gs × AreApart gs

fresh_same :
    (cfg : Config) (t u n m : ℕ) (id : Bytes) → IsFresh cfg t id n → IsFresh cfg u id m → n ≡ m
fresh_same cfg t u n m id (v, s, e, nv, p, l) (w, r, f, nw, q, k) =
    let st = auth_id_injective v w s r nv nw (sym e ∙ f) in
    let nm : some n ≡ some m = sym p ∙ ap cfg.parse_int st ∙ q in ground (arith, nm)

-- Where a held authID is granted again.
again-IsApart :
    (cfg : Config) (now n m : ℕ) (c : Seen) (g : Grant) (ts : Times) (k : Bytes)
    → IsHeld c now g.id (g.times.added + opme_leeway * 2)
    → IsFresh cfg g.times.checked g.id n
    → now ≤ ts.got
    → get k ts.got c ≡ none
    → IsFresh cfg ts.checked k m
    → IsApart g (record { id = k; times = ts })
unfolding in_leeway
again-IsApart cfg now n m c g ts k held fg o none_k fk e =
    let f : IsFresh cfg ts.checked g.id m = subst (λ x. IsFresh cfg ts.checked x m) (sym e) fk in
    let nm = fresh_same cfg g.times.checked ts.checked n m g.id fg f in
    let lg : in_leeway g.times.checked n ≡ true = fg.5 in
    let lk : in_leeway ts.checked n ≡ true =
      subst (λ x. in_leeway ts.checked x ≡ true) (sym nm) f.5 in
    let absent : get g.id ts.got c ≡ none = ap (λ x. get x ts.got c) e ∙ none_k in
    let late : g.times.added + opme_leeway * 2 < ts.got =
      elim (Bool-cases (ltb (g.times.added + opme_leeway * 2) ts.got)) [
        | inl l ↦ ground (arith, l)
        | inr l ↦ let (x, y) = held ts.got o (ground (arith, l)) in ground (arith, sym absent ∙ y)
      ] in
    (late, ground (arith, late, lg, lk))

held-IsApart :
    (cfg : Config) (events : List Event) (now n : ℕ) (c : Seen) (g : Grant)
    → IsSplit cfg.split
    → IsSeen c
    → InOrder now events
    → IsHeld c now g.id (g.times.added + opme_leeway * 2)
    → IsFresh cfg g.times.checked g.id n
    → All (IsApart g) (grants cfg events c)
unfolding grants
held-IsApart cfg [] now n c g sp i o held fg = tt
held-IsApart cfg (cleaned t ∷ events) now n c g sp i (h, o) held fg =
    held-IsApart cfg events t n (clean t c).0 g sp (clean-IsSeen t c i) o
      (clean-IsHeld now t (g.times.added + opme_leeway * 2) g.id c i h held) fg
held-IsApart cfg (command ts channel arg ∷ events) now n c g sp i (h1, h2, h3, o) held fg =
    let r = handle_op_me cfg ts channel arg c in
    let e = g.times.added + opme_leeway * 2 in
    elim (handle_op_me-Outcome cfg ts channel arg c sp) [
      | inl (q, w) ↦ subst (All (IsApart g)) (sym (w (grants cfg events r.0))) (
          subst (λ x. All (IsApart g) (grants cfg events x)) (sym q)
            (held-IsApart cfg events ts.added n c g sp i o
              (λ t b l. held t (omega (arith, h1, h2, h3, b)) l) fg))
      | inr (k, m, q, a, f) ↦
          let first : IsApart g (record { id = k; times = ts }) =
            again-IsApart cfg now n m c g ts k held fg (omega (arith, h1, h2)) a f in
          let held1 : IsHeld (add k mark default_ttl ts.added c).0 ts.added g.id e =
            elim (Bool-cases (k == g.id)) [
              | inl d ↦
                  let l = (first (sym ((eq_iff k g.id).0 d))).0 in
                  λ t b u. absurd (omega (arith, l, h3, b, u))
              | inr d ↦ keep-IsHeld now ts.added e g.id k c i d (omega (arith, h1, h2, h3)) held
            ] in
          subst (λ x. All (IsApart g) (with_grant ts x.1 (grants cfg events x.0))) (sym q)
            (
              first,
              held-IsApart cfg events ts.added n (add k mark default_ttl ts.added c).0 g sp
                  (add-IsSeen ts.added k c i) o held1 fg,
            )
    ]

grants-AreApart :
    (cfg : Config) (events : List Event) (now : ℕ) (c : Seen)
    → IsSplit cfg.split
    → IsSeen c
    → InOrder now events
    → AreApart (grants cfg events c)
unfolding grants
grants-AreApart cfg [] now c sp i o = tt
grants-AreApart cfg (cleaned t ∷ events) now c sp i (h, o) =
    grants-AreApart cfg events t (clean t c).0 sp (clean-IsSeen t c i) o
grants-AreApart cfg (command ts channel arg ∷ events) now c sp i (h1, h2, h3, o) =
    let r = handle_op_me cfg ts channel arg c in
    elim (handle_op_me-Outcome cfg ts channel arg c sp) [
      | inl (q, w) ↦ subst AreApart (sym (w (grants cfg events r.0))) (
          subst (λ x. AreApart (grants cfg events x)) (sym q)
            (grants-AreApart cfg events ts.added c sp i o))
      | inr (k, m, q, a, f) ↦
          let c1 = (add k mark default_ttl ts.added c).0 in
          let i1 = add-IsSeen ts.added k c i in
          subst (λ x. AreApart (with_grant ts x.1 (grants cfg events x.0))) (sym q)
            (
              held-IsApart cfg events ts.added m c1 (record { id = k; times = ts }) sp i1 o
                  (add-IsHeld ts.added k c i (still_none c k ts.got ts.added h3 a)) f,
              grants-AreApart cfg events ts.added c1 sp i1 o,
            )
    ]

-- Where commands run one after the other and the clock does not go back, an authID is granted again
-- only to a command whose cache.Get comes more than twice the leeway after the cache.Add of each
-- grant before, and which takes longer from its check of the timestamp to that Get than the earlier
-- command took from its check to its Add; whatever the commands are, and whenever the cache is
-- cleaned.
pub grants_once :
    (cfg : Config) (events : List Event)
    → IsSplit cfg.split
    → InOrder 0 events
    → AreApart (grants cfg events new_seen)
grants_once cfg events sp o = grants-AreApart cfg events 0 new_seen sp (tt, refl) o
