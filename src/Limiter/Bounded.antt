-- ===== src/Limiter/Bounded.antt =====
-- The table of the rate limiter keeps its bound, has each key once, and forgets only the key that
-- was used least recently.
use dflybot.Prelude.{
  ℕ, suc, ◌≤◌, none, some, List, [], ◌∷◌, ◌≡◌, ◌≢◌, arith, refl, inl, inr, leb, length, All,
  Bool-cases, Option-cases,
}
use dflybot.Prelude.Bytes.{Bytes, ◌==◌, eq_iff}
use dflybot.Limiter.{Rate, find, take_out, drop_back, make_room, touch, allow}

module _ {L : Type 0} where
  -- Each key stands once.
  abbrev pub HasOnce : List (Bytes × L) → Type 0
  HasOnce [] = Unit
  HasOnce (e ∷ order) = All (λ f. f.0 ≢ e.0) order × HasOnce order

  find_none : (key : Bytes) (m : List (Bytes × L)) → find key m ≡ none → All (λ f. f.0 ≢ key) m
  unfolding find
  find_none key [] h = tt
  find_none key ((k, l) ∷ m) h = elim (Bool-cases (k == key)) [
    | inl e ↦ absurd (ground arith)
    | inr e ↦ ((λ q. ground (arith, eq_iff k key)), find_none key m (ground arith))
  ]

  take_out-All :
      (P : Bytes × L → Type 0) (key : Bytes) (m : List (Bytes × L))
      → All P m
      → All P (take_out key m)
  unfolding take_out
  take_out-All P key [] h = tt
  take_out-All P key ((k, l) ∷ m) (p, h) = elim (Bool-cases (k == key)) [
    | inl e ↦ rw e h
    | inr e ↦ rw e (p, take_out-All P key m h)
  ]

  drop_back-All : (P : Bytes × L → Type 0) (m : List (Bytes × L)) → All P m → All P (drop_back m)
  unfolding drop_back
  drop_back-All P [] h = tt
  drop_back-All P (e ∷ []) h = tt
  drop_back-All P (e ∷ f ∷ m) (p, h) = (p, drop_back-All P (f ∷ m) h)

  drop_back-HasOnce : (m : List (Bytes × L)) → HasOnce m → HasOnce (drop_back m)
  unfolding drop_back
  drop_back-HasOnce [] h = tt
  drop_back-HasOnce (e ∷ []) h = tt
  drop_back-HasOnce (e ∷ f ∷ m) (a, h) =
      (drop_back-All (λ g. g.0 ≢ e.0) (f ∷ m) a, drop_back-HasOnce (f ∷ m) h)

  drop_back_shorter :
      (e : Bytes × L) (m : List (Bytes × L)) → suc (length (drop_back (e ∷ m))) ≡ length (e ∷ m)
  unfolding drop_back
  drop_back_shorter e [] = refl
  drop_back_shorter e (f ∷ m) = omega (arith, drop_back_shorter f m)

  take_out-HasOnce :
      (key : Bytes) (m : List (Bytes × L))
      → HasOnce m
      → HasOnce (take_out key m) × All (λ f. f.0 ≢ key) (take_out key m)
  unfolding take_out
  take_out-HasOnce key [] h = (tt, tt)
  take_out-HasOnce key ((k, l) ∷ m) (a, h) =
      let (once, gone) = take_out-HasOnce key m h in
      elim (Bool-cases (k == key)) [
        | inl e ↦ let q : k ≡ key = (eq_iff k key).0 e in rw e (h, rw q at a)
        | inr e ↦ rw e (
          (take_out-All (λ f. f.0 ≢ k) key m a, once),
          ((λ q. ground (arith, eq_iff k key)), gone),
        )
      ]

  length-take_out :
      (key : Bytes) (m : List (Bytes × L)) (l : L)
      → find key m ≡ some l
      → suc (length (take_out key m)) ≡ length m
  unfolding take_out find
  length-take_out key [] l h = absurd (ground arith)
  length-take_out key ((k, x) ∷ m) l h = ground (arith, length-take_out key m l)

  make_room-HasOnce : (max : ℕ) (m : List (Bytes × L)) → HasOnce m → HasOnce (make_room max m)
  unfolding make_room
  make_room-HasOnce max m h = elim (Bool-cases (leb max (length m))) [
    | inl e ↦ rw e (drop_back-HasOnce m h)
    | inr e ↦ rw e h
  ]

  make_room-All :
      (P : Bytes × L → Type 0) (max : ℕ) (m : List (Bytes × L)) → All P m → All P (make_room max m)
  unfolding make_room
  make_room-All P max m h = elim (Bool-cases (leb max (length m))) [
    | inl e ↦ rw e (drop_back-All P m h)
    | inr e ↦ rw e h
  ]

  length-make_room :
      (max : ℕ) (m : List (Bytes × L))
      → 1 ≤ max
      → length m ≤ max
      → suc (length (make_room max m)) ≤ max
  unfolding make_room
  length-make_room max [] p h = ground arith
  length-make_room max (e ∷ m) p h = ground (arith, drop_back_shorter e m)

module _ (R : Rate) where
  touch-IsTable :
      (max : ℕ) (key : Bytes) (m : List (Bytes × R.Limiter))
      → 1 ≤ max
      → length m ≤ max
      → HasOnce m
      → (suc (length (touch R max key m).1) ≤ max)
        × HasOnce (touch R max key m).1
        × All (λ f. f.0 ≢ key) (touch R max key m).1
  unfolding touch
  touch-IsTable max key m p b h = elim (Option-cases (find key m)) [
    | inl e ↦
        rw (e, touch)
          (
            length-make_room max m p b,
            make_room-HasOnce max m h,
            make_room-All (λ f. f.0 ≢ key) max m (find_none key m e),
          )
    | inr (l, e) ↦
        rw (e, touch)
          (
            omega (arith, length-take_out key m l e, b),
            (take_out-HasOnce key m h).0,
            (take_out-HasOnce key m h).1,
          )
  ]

  -- Allow keeps the table of the rate limiter within its bound and with one bucket for each key,
  -- however many keys ask.
  pub allow-IsTable :
      (max now : ℕ) (key : Bytes) (m : List (Bytes × R.Limiter))
      → 1 ≤ max
      → length m ≤ max
      → HasOnce m
      → (length (allow R max now key m).1 ≤ max) × HasOnce (allow R max now key m).1
  unfolding allow
  allow-IsTable max now key m p b h =
      let (bound, once, gone) = touch-IsTable max key m p b h in (bound, (gone, once))
