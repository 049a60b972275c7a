-- ===== src/Store/Read/Scan.antt =====
-- What a cursor visits on an ascending list, against a filter of the whole list.
use mathlib.Core.Path.{fun_ext}
use dflybot.Prelude.{
  Bool, true, false, ◌&&◌, List, [], ◌∷◌, ◌≡◌, refl, sym, ap, arith, if◌then◌else◌, All, All-map,
  Bool-cases, inl, inr,
}
use dflybot.Prelude.Bytes.{
  Bytes, ◌==◌, eq_iff, has_prefix, has_prefix-between, has_prefix-not-blt, blt, blt_irrefl,
  blt_trans, blt_total, blt_asym,
}
use dflybot.Prelude.Sorted.{IsAscending, seek_list, after_trans}
use dflybot.Store.Link.{Raw}
use dflybot.Store.Read.{skip_cursor}

module _ {ℓ} {V : Type ℓ} where
  -- The entries whose keys pass a test.
  unfoldable pub filter_keys : (Bytes → Bool) → List (Bytes × V) → List (Bytes × V)
  filter_keys p [] = []
  filter_keys p ((k, v) ∷ m) = let rest = filter_keys p m in if p k then (k, v) ∷ rest else rest

  -- The entries before the first whose key lacks the prefix.
  unfoldable pub while_prefix : Bytes → List (Bytes × V) → List (Bytes × V)
  while_prefix pfx [] = []
  while_prefix pfx ((k, v) ∷ m) =
      let rest = while_prefix pfx m in if has_prefix k pfx then (k, v) ∷ rest else []

  filter_none :
      (p : Bytes → Bool) (m : List (Bytes × V)) → All (λ e. p e.0 ≡ false) m → filter_keys p m ≡ []
  unfolding filter_keys
  filter_none p [] h = refl
  filter_none p ((k, v) ∷ m) h = rw (h.0, filter_keys) (filter_none p m h.1)

  pub filter_of_All :
      (p : Bytes → Bool) (m : List (Bytes × V)) → All (λ e. p e.0 ≡ true) m → filter_keys p m ≡ m
  unfolding filter_keys
  filter_of_All p [] h = refl
  filter_of_All p ((k, v) ∷ m) h = rw (h.0, filter_keys) (ap (◌∷◌ (k, v)) (filter_of_All p m h.1))

  filter_keys-All {κ} :
      (P : Bytes × V → Type κ) (p : Bytes → Bool) (m : List (Bytes × V))
      → All P m
      → All P (filter_keys p m)
  unfolding filter_keys
  filter_keys-All P p [] h = tt
  filter_keys-All P p ((k, v) ∷ m) h =
      let ih = filter_keys-All P p m h.1 in
      elim (Bool-cases (p k)) [ inl e ↦ rw e (h.0, ih) | inr e ↦ rw e ih ]

  pub filter-IsAscending :
      (p : Bytes → Bool) (m : List (Bytes × V)) → IsAscending m → IsAscending (filter_keys p m)
  unfolding filter_keys
  filter-IsAscending p [] h = tt
  filter-IsAscending p ((k, v) ∷ m) h =
      let ih = filter-IsAscending p m h.1 in
      elim (Bool-cases (p k)) [ inl e ↦ rw e (filter_keys-All _ p m h.0, ih) | inr e ↦ rw e ih ]

  pub filter-filter :
      (p q : Bytes → Bool) (m : List (Bytes × V))
      → filter_keys p (filter_keys q m) ≡ filter_keys (λ k. p k && q k) m
  unfolding filter_keys
  filter-filter p q [] = refl
  filter-filter p q ((k, v) ∷ m) = ground (arith, filter-filter p q m)

  pub filter-ext :
      (p q : Bytes → Bool) (m : List (Bytes × V))
      → ((k : Bytes) → p k ≡ q k)
      → filter_keys p m ≡ filter_keys q m
  filter-ext p q m h = ap (λ (f : Bytes → Bool). filter_keys f m) (fun_ext h)

  -- What a filter keeps passes its test.
  pub filter_sound :
      (p : Bytes → Bool) (m : List (Bytes × V)) → All (λ e. p e.0 ≡ true) (filter_keys p m)
  unfolding filter_keys
  filter_sound p [] = tt
  filter_sound p ((k, v) ∷ m) =
      let ih = filter_sound p m in
      elim (Bool-cases (p k)) [
        | inl e ↦ rw (e, filter_keys) (e, ih)
        | inr e ↦ rw (e, filter_keys) ih
      ]

  without_prefix :
      (pfx k : Bytes) (m : List (Bytes × V))
      → blt k pfx ≡ false
      → has_prefix k pfx ≡ false
      → All (λ e. blt k e.0 ≡ true) m
      → filter_keys (λ j. has_prefix j pfx) m ≡ []
  without_prefix pfx k m a b h =
      filter_none (λ j. has_prefix j pfx) m
        (All-map _ _ m
          (λ e after. elim (Bool-cases (has_prefix e.0 pfx)) [
            | inl has ↦ absurd (ground (arith, has_prefix-between pfx k e.0 a after has))
            | inr hasnt ↦ hasnt
          ])
          h)

  -- From keys that are not before the prefix, the entries with the prefix come first.
  pub while-eq-filter :
      (pfx : Bytes) (m : List (Bytes × V))
      → IsAscending m
      → All (λ e. blt e.0 pfx ≡ false) m
      → while_prefix pfx m ≡ filter_keys (λ j. has_prefix j pfx) m
  unfolding while_prefix filter_keys
  while-eq-filter pfx [] h a = refl
  while-eq-filter pfx ((k, v) ∷ m) h a = elim (Bool-cases (has_prefix k pfx)) [
    | inl e ↦ rw e (ap (◌∷◌ (k, v)) (while-eq-filter pfx m h.1 a.1))
    | inr e ↦ rw e (rw (without_prefix pfx k m a.0 e h.0))
  ]

  not_before :
      (pfx k : Bytes) (m : List (Bytes × V))
      → blt k pfx ≡ false
      → All (λ e. blt k e.0 ≡ true) m
      → All (λ e. blt e.0 pfx ≡ false) m
  not_before pfx k m a = All-map _ _ m (λ e after. elim (Bool-cases (blt e.0 pfx)) [
    | inl b ↦ absurd (ground (arith, blt_trans k e.0 pfx after b))
    | inr b ↦ b
  ])

  pub while-seek :
      (pfx : Bytes) (m : List (Bytes × V))
      → IsAscending m
      → while_prefix pfx (seek_list pfx m) ≡ filter_keys (λ j. has_prefix j pfx) m
  unfolding seek_list filter_keys while_prefix
  while-seek pfx [] h = refl
  while-seek pfx ((k, v) ∷ m) h = elim (Bool-cases (blt k pfx)) [
    | inl b ↦ rw b (rw (has_prefix-not-blt k pfx b) (while-seek pfx m h.1))
    | inr b ↦ rw b (while-eq-filter pfx ((k, v) ∷ m) h (b, not_before pfx k m b h.0))
  ]

-- The entries after the cursor, however the cursor's own key was found.
pub skip-seek :
    (cursor : Bytes) (m : List (Bytes × Raw))
    → IsAscending m
    → skip_cursor cursor (seek_list cursor m) ≡ filter_keys (blt cursor) m
unfolding seek_list filter_keys skip_cursor
skip-seek c [] h = refl
skip-seek c ((k, v) ∷ m) h = elim (Bool-cases (blt k c)) [
  | inl b ↦ rw b (rw (blt_asym k c b) (skip-seek c m h.1))
  | inr b ↦ rw b (elim (Bool-cases (k == c)) [
    | inl e ↦
        let same : k ≡ c = (eq_iff k c).0 e in
        rw e (rw same (rw (blt_irrefl c) (sym (filter_of_All (blt c) m (rw same at h.0)))))
    | inr e ↦ rw e (
        rw (blt_total c k (ground (arith, eq_iff k c, eq_iff c k)) b) (
          ap (◌∷◌ (k, v)) (
            sym (
              filter_of_All (blt c) m (
                after_trans c k m (blt_total c k (ground (arith, eq_iff k c, eq_iff c k)) b)
                  h.0)))))
  ])
]
