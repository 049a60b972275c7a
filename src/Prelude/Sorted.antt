-- ===== src/Prelude/Sorted.antt =====
-- Association lists in ascending byte order of their keys.
use mathlib.Core.Path.{subst}
use mathlib.Core.Option.{some-injective}
use dflybot.Prelude.{
  Option, none, some, List, [], ◌∷◌, ◌≡◌, true, refl, arith, if◌then◌else◌, All, All-map,
  Bool-cases, inl, inr,
}
use dflybot.Prelude.Bytes.{Bytes, ◌==◌, eq_iff, blt, blt_trans, blt_total}

module _ {ℓ} {V : Type ℓ} where
  unfoldable pub lookup : Bytes → List (Bytes × V) → Option V
  lookup k [] = none
  lookup k ((j, v) ∷ m) = if j == k then some v else lookup k m

  unfoldable pub insert : Bytes → V → List (Bytes × V) → List (Bytes × V)
  insert k v [] = (k, v) ∷ []
  insert k v ((j, w) ∷ m) =
      let rest = insert k v m in
      if blt k j then (k, v) ∷ (j, w) ∷ m else if j == k then (k, v) ∷ m else (j, w) ∷ rest

  unfoldable pub remove : Bytes → List (Bytes × V) → List (Bytes × V)
  remove k [] = []
  remove k ((j, v) ∷ m) = let rest = remove k m in if j == k then rest else (j, v) ∷ rest

  -- The entries from the first key that is not before `k`.
  unfoldable pub seek_list : Bytes → List (Bytes × V) → List (Bytes × V)
  seek_list k [] = []
  seek_list k ((j, v) ∷ m) = let rest = seek_list k m in if blt j k then rest else (j, v) ∷ m

  abbrev pub IsAscending : List (Bytes × V) → Type 0
  IsAscending [] = Unit
  IsAscending (e ∷ m) = All (λ x. blt e.0 x.0 ≡ true) m × IsAscending m

  pub lookup-insert :
      (new j : Bytes) (w : V) (es : List (Bytes × V))
      → lookup j (insert new w es) ≡ (if new == j then some w else lookup j es)
  unfolding lookup insert
  lookup-insert new j w [] = refl
  lookup-insert new j w (e ∷ es) =
      ground (arith, eq_iff new j, lookup-insert new j w es, eq_iff e.0 new, eq_iff e.0 j)

  pub lookup-remove :
      (k j : Bytes) (m : List (Bytes × V))
      → lookup j (remove k m) ≡ (if k == j then none else lookup j m)
  unfolding lookup remove
  lookup-remove k j [] = ground arith
  lookup-remove k j ((i, v) ∷ m) =
      ground (arith, lookup-remove k j m, eq_iff i k, eq_iff i j, eq_iff k j)

  pub All-insert {κ} :
      (P : Bytes × V → Type κ) (k : Bytes) (v : V) (m : List (Bytes × V))
      → P (k, v)
      → All P m
      → All P (insert k v m)
  unfolding insert
  All-insert P k v [] p h = (p, tt)
  All-insert P k v ((j, w) ∷ m) p h =
      let ih = All-insert P k v m p h.1 in
      elim (Bool-cases (blt k j)) [
        | inl e ↦ rw e (p, (h.0, h.1))
        | inr e ↦
            rw e (elim (Bool-cases (j == k)) [ inl f ↦ rw f (p, h.1) | inr f ↦ rw f (h.0, ih) ])
      ]

  pub All-lookup {κ} :
      (P : Bytes × V → Type κ) (k : Bytes) (d : V) (m : List (Bytes × V))
      → All P m
      → lookup k m ≡ some d
      → P (k, d)
  unfolding lookup
  All-lookup P k d [] h l = ground (arith, l)
  All-lookup P k d ((j, v) ∷ m) (p, h) l = elim (Bool-cases (j == k)) [
    | inl e ↦
        let q : some v ≡ some d = rw (e, lookup) at l in
        subst (λ x. P (k, x)) (some-injective v d q) (subst (λ x. P (x, v)) ((eq_iff j k).0 e) p)
    | inr e ↦ All-lookup P k d m h (rw (e, lookup) at l)
  ]

  All-remove {κ} :
      (P : Bytes × V → Type κ) (k : Bytes) (m : List (Bytes × V)) → All P m → All P (remove k m)
  unfolding remove
  All-remove P k [] h = tt
  All-remove P k ((j, w) ∷ m) h =
      let ih = All-remove P k m h.1 in
      elim (Bool-cases (j == k)) [ inl f ↦ rw f ih | inr f ↦ rw f (h.0, ih) ]

  pub after_trans :
      (k j : Bytes) (m : List (Bytes × V))
      → blt k j ≡ true
      → All (λ x. blt j x.0 ≡ true) m
      → All (λ x. blt k x.0 ≡ true) m
  after_trans k j m h = All-map _ _ m (λ x. blt_trans k j x.0 h)

  pub insert-IsAscending :
      (k : Bytes) (v : V) (m : List (Bytes × V)) → IsAscending m → IsAscending (insert k v m)
  unfolding insert
  insert-IsAscending k v [] h = (tt, tt)
  insert-IsAscending k v ((j, w) ∷ m) h =
      let ih = insert-IsAscending k v m h.1 in
      elim (Bool-cases (blt k j)) [
        | inl e ↦ rw e ((e, after_trans k j m e h.0), (h.0, h.1))
        | inr e ↦ rw e (elim (Bool-cases (j == k)) [
          | inl f ↦ rw f (rw ((eq_iff j k).0 f) at h)
          | inr f ↦ rw f (All-insert _ k v m (blt_total j k f e) h.0, ih)
        ])
      ]

  pub remove-IsAscending :
      (k : Bytes) (m : List (Bytes × V)) → IsAscending m → IsAscending (remove k m)
  unfolding remove
  remove-IsAscending k [] h = tt
  remove-IsAscending k ((j, w) ∷ m) h =
      let ih = remove-IsAscending k m h.1 in
      elim (Bool-cases (j == k)) [ inl f ↦ rw f ih | inr f ↦ rw f (All-remove _ k m h.0, ih) ]
