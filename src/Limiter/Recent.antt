-- ===== src/Limiter/Recent.antt =====
-- The rate limiter forgets only the key that was used least recently.
use dflybot.Prelude.{
  ℕ, Option, none, some, List, [], ◌∷◌, ◌≡◌, ◌≢◌, arith, refl, inl, inr, Option-cases,
}
use dflybot.Prelude.Bytes.{Bytes, eq_iff}
use dflybot.Limiter.{Rate, find, take_out, drop_back, make_room, touch, allow}

module _ {L : Type 0} where
  -- The key that order.Back() holds.
  unfoldable pub back_key : List (Bytes × L) → Option Bytes
  back_key [] = none
  back_key (e ∷ []) = some e.0
  back_key (e ∷ f ∷ m) = back_key (f ∷ m)

  find-take_out :
      (key j : Bytes) (m : List (Bytes × L)) → j ≢ key → find j (take_out key m) ≡ find j m
  unfolding find take_out
  find-take_out key j [] n = refl
  find-take_out key j ((k, l) ∷ m) n =
      ground (arith, find-take_out key j m n, eq_iff k key, eq_iff k j)

  find-drop_back :
      (j : Bytes) (m : List (Bytes × L)) → back_key m ≢ some j → find j (drop_back m) ≡ find j m
  unfolding find drop_back back_key
  find-drop_back j [] n = refl
  find-drop_back j ((k, l) ∷ []) n = ground (arith, eq_iff k j)
  find-drop_back j ((k, l) ∷ f ∷ m) n = ground (arith, find-drop_back j (f ∷ m) n)

  find-make_room :
      (max : ℕ) (j : Bytes) (m : List (Bytes × L))
      → back_key m ≢ some j
      → find j (make_room max m) ≡ find j m
  unfolding make_room
  find-make_room max j m n = ground (arith, find-drop_back j m n)

module _ (R : Rate) where
  touch_frame :
      (max : ℕ) (key j : Bytes) (m : List (Bytes × R.Limiter))
      → j ≢ key
      → back_key m ≢ some j
      → find j (touch R max key m).1 ≡ find j m
  unfolding touch
  touch_frame max key j m n b = elim (Option-cases (find key m)) [
    | inl e ↦ rw (e, touch) (find-make_room max j m b)
    | inr (l, e) ↦ rw (e, touch) (find-take_out key j m n)
  ]

  -- A request of one key leaves the bucket of every other key as it is, unless that key is the one
  -- that was used least recently.
  pub allow_frame :
      (max now : ℕ) (key j : Bytes) (m : List (Bytes × R.Limiter))
      → j ≢ key
      → back_key m ≢ some j
      → find j (allow R max now key m).1 ≡ find j m
  unfolding allow find
  allow_frame max now key j m n b = ground (arith, touch_frame max key j m n b, eq_iff key j)
