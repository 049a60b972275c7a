-- ===== src/Prelude/Bytes.antt =====
-- Go strings as lists of bytes: literals, `==`, `strings.HasPrefix` and the order of
-- `bytes.Compare`, which is bbolt's order of keys.
use Prim.Native.Nat.{ℕ, compare, Ordering}
use Prim.Native.Char.{code}
use Prim.Native.String.{String}
use mathlib.Core.Path.{◌≡◌, refl}
use mathlib.Core.Logic.{◌↔◌, ◌≢◌}
use mathlib.Core.Bool.{Bool, true, false, ◌&&◌}
use mathlib.Core.List.{List, [], ◌∷◌, ◌++◌}
use native.Mathlib.Omega.{arith}
use dflybot.Prelude.Tests.{eqb}

abbrev pub Bytes : Type 0
Bytes = List ℕ

-- The bytes of an ASCII literal.
abbrev pub lit : String → Bytes
lit String.[] = []
lit (String.◌∷◌ c s) = code c ∷ lit s

infix 50 ◌==◌
unfoldable pub ◌==◌ : Bytes → Bytes → Bool
[] == [] = true
[] == (b ∷ bs) = false
(a ∷ as') == [] = false
(a ∷ as') == (b ∷ bs) = eqb a b && as' == bs

pub eq_iff : (a b : Bytes) → ((a == b) ≡ true) ↔ (a ≡ b)
unfolding ◌==◌
eq_iff [] [] = ground arith
eq_iff [] (b ∷ bs) = ground arith
eq_iff (a ∷ as') [] = ground arith
eq_iff (a ∷ as') (b ∷ bs) = ground (arith, eq_iff as' bs)

pub eq_refl : (a : Bytes) → (a == a) ≡ true
eq_refl a = (eq_iff a a).1 refl

-- strings.HasPrefix(s, prefix), with the library's argument order: the text first.
unfoldable pub has_prefix : Bytes → Bytes → Bool
has_prefix s [] = true
has_prefix [] (p ∷ ps) = false
has_prefix (c ∷ s) (p ∷ ps) = eqb c p && has_prefix s ps

pub has_prefix-append : (p s : Bytes) → has_prefix (p ++ s) p ≡ true
unfolding has_prefix
has_prefix-append [] s = refl
has_prefix-append (c ∷ p) s = ground (arith, has_prefix-append p s)

-- a < b in byte order.
unfoldable pub blt : Bytes → Bytes → Bool
blt [] [] = false
blt [] (b ∷ bs) = true
blt (a ∷ as') [] = false
blt (a ∷ as') (b ∷ bs) =
    let rest = blt as' bs in
    elim (compare a b) [ Ordering.lt ↦ true | Ordering.eq ↦ rest | Ordering.gt ↦ false ]

pub blt_irrefl : (a : Bytes) → blt a a ≡ false
unfolding blt
blt_irrefl [] = refl
blt_irrefl (a ∷ as') = ground (arith, blt_irrefl as')

pub blt_trans : (a b c : Bytes) → blt a b ≡ true → blt b c ≡ true → blt a c ≡ true
unfolding blt
blt_trans [] [] c h k = ground arith
blt_trans [] (b ∷ bs) [] h k = ground arith
blt_trans [] (b ∷ bs) (c ∷ cs) h k = refl
blt_trans (a ∷ as') [] c h k = ground arith
blt_trans (a ∷ as') (b ∷ bs) [] h k = ground arith
blt_trans (a ∷ as') (b ∷ bs) (c ∷ cs) h k = ground (arith, blt_trans as' bs cs)

-- Keys with a common prefix are contiguous: what lies between the prefix and one of them has it too.
pub has_prefix-between :
    (p a b : Bytes)
    → blt a p ≡ false
    → blt a b ≡ true
    → has_prefix b p ≡ true
    → has_prefix a p ≡ true
unfolding blt has_prefix
has_prefix-between [] a b h k e = ground arith
has_prefix-between (p ∷ ps) [] b h k e = ground arith
has_prefix-between (p ∷ ps) (a ∷ as') [] h k e = ground arith
has_prefix-between (p ∷ ps) (a ∷ as') (b ∷ bs) h k e = ground (arith, has_prefix-between ps as' bs)

pub blt_total : (a b : Bytes) → (a == b) ≡ false → blt b a ≡ false → blt a b ≡ true
unfolding blt ◌==◌
blt_total [] [] h k = ground arith
blt_total [] (b ∷ bs) h k = refl
blt_total (a ∷ as') [] h k = ground arith
blt_total (a ∷ as') (b ∷ bs) h k = ground (arith, blt_total as' bs)

pub blt_asym : (a b : Bytes) → blt a b ≡ true → blt b a ≡ false
unfolding blt
blt_asym [] [] h = ground arith
blt_asym [] (b ∷ bs) h = refl
blt_asym (a ∷ as') [] h = ground arith
blt_asym (a ∷ as') (b ∷ bs) h = ground (arith, blt_asym as' bs)

-- A key with a prefix is not before it.
pub has_prefix-not-blt : (a p : Bytes) → blt a p ≡ true → has_prefix a p ≡ false
unfolding blt has_prefix
has_prefix-not-blt [] [] h = ground arith
has_prefix-not-blt [] (p ∷ ps) h = refl
has_prefix-not-blt (a ∷ as') [] h = ground arith
has_prefix-not-blt (a ∷ as') (p ∷ ps) h = ground (arith, has_prefix-not-blt as' ps)

pub ne_of_test : (a b : Bytes) → (a == b) ≡ false → a ≢ b
ne_of_test a b h e = ground (arith, eq_iff a b)
