-- ===== src/Seen/Keys.antt =====
-- The keys of the records of one channel, and the one that is found for a nick.
use mathlib.Core.Path.{subst}
use dflybot.Prelude.{
  Bool, true, false, none, some, [], ◌∷◌, ◌≡◌, ◌⊎◌, inl, inr, arith, refl, Bool-cases,
  if◌then◌else◌,
}
use dflybot.Prelude.Bytes.{Bytes, ◌==◌, eq_iff, eq_refl}
use dflybot.Prelude.Sorted.{lookup, insert, remove, lookup-insert, lookup-remove}
use dflybot.Seen.{SeenEntry, Nicks, ci_key}

abbrev pub has : Bytes → Nicks → Bool
has k ns = elim (lookup k ns) [ none ↦ false | some e ↦ true ]

-- strings.EqualFold: equality of texts up to case.
pub record IsFold (same : Bytes → Bytes → Bool) : Type 0 where
  pub same_refl : (a : Bytes) → same a a ≡ true
  pub same_sym : (a b : Bytes) → same a b ≡ true → same b a ≡ true
  pub same_trans : (a b c : Bytes) → same a b ≡ true → same b c ≡ true → same a c ≡ true

-- Each nick has one record, and no record is the blank nick's.
pub record HasOneEach (same : Bytes → Bytes → Bool) (ns : Nicks) : Type 0 where
  pub one : (j k : Bytes) → has j ns ≡ true → has k ns ≡ true → same j k ≡ true → j ≡ k
  pub named : has [] ns ≡ false

has_cons :
    (j k : Bytes) (e : SeenEntry) (ns : Nicks)
    → has k ((j, e) ∷ ns) ≡ (if j == k then true else has k ns)
unfolding lookup
has_cons j k e ns = ground arith

pub has-insert :
    (key k : Bytes) (e : SeenEntry) (ns : Nicks)
    → has k (insert key e ns) ≡ (if key == k then true else has k ns)
has-insert key k e ns = ground (arith, lookup-insert key k e ns)

pub has-remove :
    (key k : Bytes) (ns : Nicks) → has k (remove key ns) ≡ (if key == k then false else has k ns)
has-remove key k ns = ground (arith, lookup-remove key k ns)

module _ (same : Bytes → Bytes → Bool) where
  abbrev key_of : Nicks → Bytes → Bytes
  key_of ns nick = ci_key same ns nick

  -- A key that is found is one of the keys and equals the nick up to case; if none is found, no key
  -- does.
  abbrev Finds : Nicks → Bytes → Type 0
  Finds ns nick =
      ((key_of ns nick == [] ≡ false)
        × (has (key_of ns nick) ns ≡ true)
        × (same (key_of ns nick) nick ≡ true))
      ⊎ ((key_of ns nick == [] ≡ true) × ((k : Bytes) → has k ns ≡ true → same k nick ≡ false))

  has_none :
      (j : Bytes) (e : SeenEntry) (ns : Nicks) (nick : Bytes)
      → same j nick ≡ false
      → ((k : Bytes) → has k ns ≡ true → same k nick ≡ false)
      → (k : Bytes) → has k ((j, e) ∷ ns) ≡ true
      → same k nick ≡ false
  unfolding lookup
  has_none j e ns nick f b k h = elim (Bool-cases (j == k)) [
    | inl g ↦ subst (λ x. same x nick ≡ false) ((eq_iff j k).0 g) f
    | inr g ↦ b k (ground (arith, has_cons j k e ns, g, h))
  ]

  pub ci_key-Finds : (ns : Nicks) (nick : Bytes) → has [] ns ≡ false → Finds ns nick
  unfolding ci_key lookup ◌==◌
  ci_key-Finds [] nick n = inr (refl, λ k h. ground (arith, h))
  ci_key-Finds (([], e) ∷ ns) nick n = ground (arith, n)
  ci_key-Finds ((c ∷ k, e) ∷ ns) nick n = elim (Bool-cases (same (c ∷ k) nick)) [
    | inl f ↦ inl (
      rw (f, ci_key) refl,
      rw (f, ci_key) (ground (arith, has_cons (c ∷ k) (c ∷ k) e ns, eq_refl (c ∷ k))),
      rw (f, ci_key) f,
    )
    | inr f ↦ elim (ci_key-Finds ns nick n) [
      | inl (a, b, g) ↦ inl (
        rw (f, ci_key) a,
        rw (f, ci_key) (ground (arith, has_cons (c ∷ k) (key_of ns nick) e ns, b)),
        rw (f, ci_key) g,
      )
      | inr (a, b) ↦ inr (rw (f, ci_key) a, has_none (c ∷ k) e ns nick f b)
    ]
  ]
