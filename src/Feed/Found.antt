-- ===== src/Feed/Found.antt =====
-- Which of the fetched entries of a feed are accepted (Feed).
use mathlib.Core.Path.{subst}
use mathlib.Core.List.{map}
use dflybot.Prelude.{
  ℕ, ◌≤◌, Bool, true, false, not, List, [], ◌∷◌, ◌++◌, ◌≡◌, ◌⊎◌, inl, inr, arith, sym, ap, ◌∙◌,
  if◌then◌else◌, eqb, All, In, In-append, map-append, Bool-cases,
}
use dflybot.Feed.{
  Watermark, last_time, seen_at_boundary, max_time, ids_at, advance, is_new, accept, reads,
}
use dflybot.Feed.Once.{
  passed, is_new-passed, max_time-above, accept-is_new, seen_at_boundary-append, In-accept,
}

module _ {A I : Type 0} (time : A → ℕ) (id : A → I) (same : I → I → Bool) where
  ids_at-none :
      (t : ℕ) (es : List A) (i : I)
      → seen_at_boundary same (ids_at time id t es) i ≡ true
      → ((i j : I) → same i j ≡ true → i ≡ j)
      → In i (map id es)
  unfolding ids_at seen_at_boundary
  ids_at-none t [] i h s = ground (arith, h)
  ids_at-none t (e ∷ es) i h s = elim (Bool-cases (eqb (time e) t)) [
    | inl q ↦
        let k : (if same (id e) i then true else seen_at_boundary same (ids_at time id t es) i)
            ≡ true =
          rw (q, ids_at, seen_at_boundary) at h in
        elim (Bool-cases (same (id e) i)) [
          | inl r ↦ inl (sym (s (id e) i r))
          | inr r ↦ inr (ids_at-none t es i (rw r at k) s)
        ]
    | inr q ↦ inr (ids_at-none t es i (rw (q, ids_at) at h) s)
  ]

  advance_above :
      (es : List A) (w : Watermark I)
      → All (λ e. is_new time id same w e ≡ true) es
      → last_time w ≤ last_time (advance time id es w)
  unfolding advance is_new
  advance_above [] w h = omega arith
  advance_above (e ∷ es) w (h, hs) = ground (arith, max_time-above time id same (time e) es)

  -- An id at the watermark was there before, or has just been accepted.
  advance_marks-only :
      (es : List A) (w : Watermark I) (t : ℕ) (i : I)
      → ((i j : I) → same i j ≡ true → i ≡ j)
      → last_time (advance time id es w) ≤ t
      → passed same (advance time id es w) t i ≡ true
      → (passed same w t i ≡ true) ⊎ In i (map id es)
  unfolding advance passed
  advance_marks-only [] w t i s a p = inl p
  advance_marks-only (e ∷ es) w t i s a p =
      let m = max_time time (time e) es in
      elim (Bool-cases (seen_at_boundary same (ids_at time id m (e ∷ es)) i)) [
        | inl q ↦ inr (ids_at-none m (e ∷ es) i q s)
        | inr q ↦ inl (
            ground (
              arith,
              seen_at_boundary-append same w.last_ids (ids_at time id m (e ∷ es)) i,
              a,
              p,
              q,
            ))
      ]

  reads_above :
      (lists : List (List A)) (w : Watermark I)
      → last_time w ≤ last_time (reads time id same lists w).0
  unfolding reads
  reads_above [] w = omega arith
  reads_above (es ∷ lists) w =
      let found = accept time id same w es in
      omega (
        arith,
        advance_above found w (accept-is_new time id same w es),
        reads_above lists (advance time id found w),
      )

  reads_marks :
      (lists : List (List A)) (w : Watermark I) (t : ℕ) (i : I)
      → ((i j : I) → same i j ≡ true → i ≡ j)
      → last_time (reads time id same lists w).0 ≤ t
      → passed same (reads time id same lists w).0 t i ≡ true
      → (passed same w t i ≡ true) ⊎ In i (map id (reads time id same lists w).1)
  unfolding reads
  reads_marks [] w t i s a p = inl p
  reads_marks (es ∷ lists) w t i s a p =
      let found = accept time id same w es in
      let w1 = advance time id found w in
      let later = (reads time id same lists w1).1 in
      let b : last_time w1 ≤ t = omega (arith, reads_above lists w1, a) in
      let into = (In-append i (map id found) (map id later)).1 in
      subst (λ l. (passed same w t i ≡ true) ⊎ In i l) (sym (map-append id found later))
        (elim (reads_marks lists w1 t i s a p) [
          | inl q ↦ elim (advance_marks-only found w t i s b q) [
            | inl r ↦ inl r
            | inr k ↦ inr (into (inl k))
          ]
          | inr k ↦ inr (into (inr k))
        ])

  In-reads :
      (before after : List (List A)) (es : List A) (w : Watermark I) (e : A)
      → In e es
      → is_new time id same (reads time id same before w).0 e ≡ true
      → In e (reads time id same (before ++ es ∷ after) w).1
  unfolding reads
  In-reads [] after es w e i n =
      let found = accept time id same w es in
      (In-append e found (reads time id same after (advance time id found w)).1).1
        (inl ((In-accept time id same w es e).1 (i, n)))
  In-reads (es0 ∷ before) after es w e i n =
      let found = accept time id same w es0 in
      let w1 = advance time id found w in
      (In-append e found (reads time id same (before ++ es ∷ after) w1).1).1
        (inr (In-reads before after es w1 e i n))

  -- An entry that a poll fetches is accepted by that poll, if it is not older than what has been
  -- accepted before and neither the first watermark nor an earlier poll has it.
  pub In-found :
      (before after : List (List A)) (es : List A) (w : Watermark I) (e : A)
      → ((i j : I) → same i j ≡ true → i ≡ j)
      → In e es
      → last_time (reads time id same before w).0 ≤ time e
      → passed same w (time e) (id e) ≡ false
      → (In (id e) (map id (reads time id same before w).1) → ⊥)
      → In e (reads time id same (before ++ es ∷ after) w).1
  In-found before after es w e s i a p n =
      let w1 = (reads time id same before w).0 in
      In-reads before after es w e i (elim (Bool-cases (passed same w1 (time e) (id e))) [
        | inl q ↦ elim (reads_marks before w (time e) (id e) s a q) [
          | inl r ↦ ground (arith, r, p)
          | inr k ↦ elim (n k) [ ]
        ]
        | inr q ↦ is_new-passed time id same w1 e ∙ ap not q
      ])
