-- ===== src/Feed/Once.antt =====
-- The entries that the polls of a feed accept, by their ids (Feed).
use mathlib.Core.Path.{subst}
use mathlib.Core.List.{map}
use dflybot.Prelude.{
  ℕ, ◌≤◌, Bool, true, false, not, ◌&&◌, ◌||◌, List, [], ◌∷◌, ◌++◌, ◌≡◌, ◌↔◌, inl, inr, arith, refl,
  sym, ap, ◌∙◌, if◌then◌else◌, ltb, eqb, All, All-append, All-map, In, In-append, In-map, map-In,
  map-append, Distinct, Distinct-append, Bool-cases,
}
use dflybot.Feed.{
  Watermark, last_time, seen_at_boundary, max_time, ids_at, advance, is_new, accept, reads,
}

-- An entry's time is a function of its id.
abbrev pub IsTimed : {A I : Type 0} → (A → ℕ) → (A → I) → (I → ℕ) → List A → Type 0
IsTimed time id clock es = (e : _) → In e es → time e ≡ clock (id e)

module _ {I : Type 0} (same : I → I → Bool) where
  -- An entry of this time and id is at or before the watermark.
  unfoldable pub passed : Watermark I → ℕ → I → Bool
  unfolding seen_at_boundary
  passed w t i = ltb t (last_time w) || eqb t (last_time w) && seen_at_boundary same w.last_ids i

  pub seen_at_boundary-append :
      (xs ys : List I) (i : I)
      → seen_at_boundary same (xs ++ ys) i
        ≡ (seen_at_boundary same xs i || seen_at_boundary same ys i)
  unfolding seen_at_boundary
  seen_at_boundary-append [] ys i = refl
  seen_at_boundary-append (x ∷ xs) ys i = ground (arith, seen_at_boundary-append xs ys i)

module _ {A I : Type 0} (time : A → ℕ) (id : A → I) (same : I → I → Bool) where
  pub is_new-passed :
      (w : Watermark I) (e : A) → is_new time id same w e ≡ not (passed same w (time e) (id e))
  unfolding is_new passed
  is_new-passed w e = ground arith

  pub max_time-above : (m : ℕ) (es : List A) → m ≤ max_time time m es
  unfolding max_time
  max_time-above m [] = omega arith
  max_time-above m (e ∷ es) =
      ground (arith, max_time-above (if ltb m (time e) then time e else m) es)

  max_time-bounds : (m : ℕ) (es : List A) (e : A) → In e es → time e ≤ max_time time m es
  unfolding max_time
  max_time-bounds m [] e i = elim i [ ]
  max_time-bounds m (x ∷ es) e (inl p) =
      rw p (ground (arith, max_time-above (if ltb m (time x) then time x else m) es))
  max_time-bounds m (x ∷ es) e (inr i) =
      max_time-bounds (if ltb m (time x) then time x else m) es e i

  ids_at-In :
      (t : ℕ) (es : List A) (e : A)
      → ((i : I) → same i i ≡ true)
      → In e es
      → time e ≡ t
      → seen_at_boundary same (ids_at time id t es) (id e) ≡ true
  unfolding ids_at seen_at_boundary
  ids_at-In t [] e s i h = elim i [ ]
  ids_at-In t (x ∷ es) e s (inl p) h = rw p (ground (arith, rw p at h, s (id x)))
  ids_at-In t (x ∷ es) e s (inr i) h = ground (arith, ids_at-In t es e s i h)

  -- What was at or before the watermark stays so.
  advance-passed :
      (es : List A) (w : Watermark I) (t : ℕ) (i : I)
      → All (λ e. is_new time id same w e ≡ true) es
      → passed same w t i ≡ true
      → passed same (advance time id es w) t i ≡ true
  unfolding advance passed is_new
  advance-passed [] w t i h p = p
  advance-passed (e ∷ es) w t i (h, hs) p =
      let m = max_time time (time e) es in
      ground (
        arith,
        max_time-above (time e) es,
        seen_at_boundary-append same w.last_ids (ids_at time id m (e ∷ es)) i,
      )

  -- What was accepted is at or before the watermark from then on.
  pub advance-marks :
      (es : List A) (w : Watermark I) (e : A)
      → ((i : I) → same i i ≡ true)
      → In e es
      → passed same (advance time id es w) (time e) (id e) ≡ true
  unfolding advance passed
  advance-marks [] w e s i = elim i [ ]
  advance-marks (x ∷ es) w e s i =
      let m = max_time time (time x) es in
      ground (
        arith,
        max_time-above (time x) es,
        max_time-bounds (time x) es e,
        ids_at-In m (x ∷ es) e s i,
        seen_at_boundary-append same w.last_ids (ids_at time id m (x ∷ es)) (id e),
      )

  pub accept-is_new :
      (w : Watermark I) (es : List A)
      → All (λ e. is_new time id same w e ≡ true) (accept time id same w es)
  unfolding accept
  accept-is_new w [] = tt
  accept-is_new w (e ∷ es) =
      let ih = accept-is_new w es in
      elim (Bool-cases (is_new time id same w e)) [
        | inl q ↦ rw (q, accept) (All-append _ (accept time id same w es) (e ∷ []) ih (q, tt))
        | inr q ↦ rw (q, accept) ih
      ]

  pub In-accept :
      (w : Watermark I) (es : List A) (e : A)
      → In e (accept time id same w es) ↔ (In e es × (is_new time id same w e ≡ true))
  unfolding accept
  In-accept w [] e = ground arith
  In-accept w (x ∷ es) e = elim (Bool-cases (is_new time id same w x)) [
    | inl q ↦
        rw (q, accept)
          (
            (λ i. elim ((In-append e (accept time id same w es) (x ∷ [])).0 i) [
              | inl j ↦ let (k, n) = (In-accept w es e).0 j in (inr k, n)
              | inr (inl p) ↦ (inl p, ap (is_new time id same w) p ∙ q)
              | inr (inr b) ↦ elim b [ ]
            ]),
            (λ (i, n).
                (In-append e (accept time id same w es) (x ∷ [])).1
                  (elim i [ inl p ↦ inr (inl p) | inr k ↦ inl ((In-accept w es e).1 (k, n)) ])),
          )
    | inr q ↦
        rw (q, accept)
          (
            (λ i. let (k, n) = (In-accept w es e).0 i in (inr k, n)),
            (λ (i, n). elim i [
              | inl p ↦ ground (arith, n, q, ap (is_new time id same w) p)
              | inr k ↦ (In-accept w es e).1 (k, n)
            ]),
          )
  ]

  accept-Distinct :
      (w : Watermark I) (es : List A)
      → Distinct (map id es)
      → Distinct (map id (accept time id same w es))
  unfolding accept
  accept-Distinct w [] h = tt
  accept-Distinct w (x ∷ es) (n, h) = elim (Bool-cases (is_new time id same w x)) [
    | inl q ↦
        rw (q, accept)
          (subst Distinct (sym (map-append id (accept time id same w es) (x ∷ []))) (
            Distinct-append (map id (accept time id same w es)) (id x ∷ []) (accept-Distinct w es h)
              ((λ b. b), tt)
              (λ a i j. elim j [
                | inl p ↦
                    let (e, k, p') = In-map id (accept time id same w es) a i in
                    n (
                      subst (λ y. In y (map id es)) (sym p' ∙ p)
                        (map-In id es e ((In-accept w es e).0 k).0))
                | inr b ↦ b
              ])))
    | inr q ↦ rw (q, accept) (accept-Distinct w es h)
  ]

  -- What is read was not at or before the watermark, and is from then on, with all that was.
  pub reads-passed :
      (clock : I → ℕ) (lists : List (List A)) (w : Watermark I)
      → ((i : I) → same i i ≡ true)
      → All (IsTimed time id clock) lists
      → let r = reads time id same lists w in
        IsTimed time id clock r.1
        × ((e : A)
            → In e r.1
            → (passed same w (time e) (id e) ≡ false) × (passed same r.0 (time e) (id e) ≡ true))
        × ((t : ℕ) (i : I) → passed same w t i ≡ true → passed same r.0 t i ≡ true)
  unfolding reads
  reads-passed clock [] w s h = ((λ e i. elim i [ ]), (λ e i. elim i [ ]), (λ t i p. p))
  reads-passed clock (es ∷ lists) w s (c, h) =
      let found = accept time id same w es in
      let w1 = advance time id found w in
      let later = (reads time id same lists w1).1 in
      let (c1, p1, k1) = reads-passed clock lists w1 s h in
      let keep = λ (t : ℕ) (i : I). advance-passed found w t i (accept-is_new w es) in
      (
        (λ e i. elim ((In-append e found later).0 i) [
          | inl k ↦ c e ((In-accept w es e).0 k).0
          | inr l ↦ c1 e l
        ]),
        (λ e i. elim ((In-append e found later).0 i) [
          | inl k ↦ (
            ground (arith, is_new-passed w e, (In-accept w es e).0 k),
            k1 (time e) (id e) (advance-marks found w e s k),
          )
          | inr l ↦
              let (m, n) = p1 e l in
              (
                elim (Bool-cases (passed same w (time e) (id e))) [
                  | inl b ↦ ground (arith, keep (time e) (id e) b, m)
                  | inr b ↦ b
                ],
                n,
              )
        ]),
        (λ t i p. k1 t i (keep t i p)),
      )

  -- No id is accepted twice, and none that was at or before the watermark.
  pub reads-Distinct :
      (clock : I → ℕ) (lists : List (List A)) (w : Watermark I)
      → ((i : I) → same i i ≡ true)
      → All (λ es. Distinct (map id es) × IsTimed time id clock es) lists
      → Distinct (map id (reads time id same lists w).1)
  unfolding reads
  reads-Distinct clock [] w s h = tt
  reads-Distinct clock (es ∷ lists) w s ((d, c), h) =
      let found = accept time id same w es in
      let w1 = advance time id found w in
      let later = (reads time id same lists w1).1 in
      let (c1, p1, k1) = reads-passed clock lists w1 s (All-map _ _ lists (λ l (x, y). y) h) in
      subst Distinct (sym (map-append id found later)) (
        Distinct-append (map id found) (map id later) (accept-Distinct w es d)
          (reads-Distinct clock lists w1 s h)
          (λ a i j.
            let (e, k, p) = In-map id found a i in
            let (f, l, q) = In-map id later a j in
            let m = advance-marks found w e s k in
            let n = (p1 f l).0 in
            let pq : id e ≡ id f = sym p ∙ q in
            let tq : time e ≡ time f =
              c e ((In-accept w es e).0 k).0 ∙ ap clock pq ∙ sym (c1 f l) in
            ground (arith, rw (tq, pq) at m, n)))
