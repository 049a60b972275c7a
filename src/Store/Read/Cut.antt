-- ===== src/Store/Read/Cut.antt =====
-- The keys between the cursor and the prefix of List in urlshort/store_bbolt.go, at which it stops.
use dflybot.Prelude.{
  Bool, true, false, not, ◌&&◌, ◌||◌, List, [], ◌∷◌, ◌≡◌, arith, All, Bool-cases, inl, inr,
}
use dflybot.Prelude.Bytes.{Bytes, ◌==◌, has_prefix-not-blt, blt, blt_trans}
use dflybot.Prelude.Sorted.{IsAscending}
use dflybot.Store.Link.{Raw}
use dflybot.Store.Read.Scan.{filter_keys, while_prefix}

-- Some key lies between the cursor and the prefix.
unfoldable pub any_between : Bytes → Bytes → List (Bytes × Raw) → Bool
any_between pfx cursor [] = false
any_between pfx cursor ((k, v) ∷ m) = blt cursor k && blt k pfx || any_between pfx cursor m

abbrev pub is_cut : Bytes → Bytes → List (Bytes × Raw) → Bool
is_cut pfx cursor m = not (cursor == []) && any_between pfx cursor m

pub none_between :
    (pfx cursor : Bytes) (m : List (Bytes × Raw))
    → any_between pfx cursor m ≡ false
    → All (λ e. blt e.0 pfx ≡ false) (filter_keys (blt cursor) m)
unfolding any_between filter_keys
none_between pfx cursor [] h = tt
none_between pfx cursor ((k, v) ∷ m) h = elim (Bool-cases (blt cursor k)) [
  | inl e ↦ rw e (ground (arith, e, h), none_between pfx cursor m (ground (arith, e, h)))
  | inr e ↦ rw e (none_between pfx cursor m (ground (arith, e, h)))
]

between_before :
    (pfx cursor k : Bytes) (m : List (Bytes × Raw))
    → All (λ (e : Bytes × Raw). blt k e.0 ≡ true) m
    → any_between pfx cursor m ≡ true
    → blt k pfx ≡ true
unfolding any_between
between_before pfx cursor k [] a h = ground (arith, h)
between_before pfx cursor k ((j, v) ∷ m) (l, a) h = elim (Bool-cases (blt j pfx)) [
  | inl e ↦ blt_trans k j pfx l e
  | inr e ↦ between_before pfx cursor k m a (ground (arith, e, h))
]

pub while_cut :
    (pfx cursor : Bytes) (m : List (Bytes × Raw))
    → IsAscending m
    → any_between pfx cursor m ≡ true
    → while_prefix pfx (filter_keys (blt cursor) m) ≡ []
unfolding any_between filter_keys while_prefix
while_cut pfx cursor [] a h = ground (arith, h)
while_cut pfx cursor ((k, v) ∷ m) (l, a) h = elim (Bool-cases (blt cursor k)) [
  | inr e ↦ rw (e, filter_keys) (while_cut pfx cursor m a (ground (arith, e, h)))
  | inl e ↦
      let before : blt k pfx ≡ true = elim (Bool-cases (blt k pfx)) [
        | inl b ↦ b
        | inr b ↦ between_before pfx cursor k m l (ground (arith, b, h))
      ] in
      rw (e, filter_keys) (ground (arith, has_prefix-not-blt k pfx, before))
]
