-- ===== src/Seen/Lookup/Misses.antt =====
-- What a query finds: nothing that matches is missed, and a request to be more specific has a choice.
use mathlib.Core.Path.{subst}
use dflybot.Prelude.{
  Bool, true, false, none, some, List, [], ◌∷◌, ◌≡◌, ◌≢◌, ◌⊎◌, inl, inr, arith, refl, sym, ap, ◌∙◌,
  All, All-map, Option-cases, Bool-cases,
}
use dflybot.Prelude.Bytes.{Bytes, ◌==◌, eq_iff, eq_refl, has_prefix}
use dflybot.Prelude.Sorted.{lookup, insert, lookup-insert, All-lookup}
use dflybot.Seen.{SeenEntry, Nicks, no_entry}
use dflybot.Seen.Lookup.{
  SeenMatch, Matches, present_nicks, find_ci, match_or_new, merge, add_match, add_present,
  add_recorded, present_matches, resolve_matches, match_all, seen_lookup,
}

insert_nonempty : (k : Bytes) (m : SeenMatch) (ms : Matches) → insert k m ms ≢ []
unfolding insert
insert_nonempty k m [] = λ e. ground (arith, e)
insert_nonempty k m ((j, n) ∷ ms) = λ e. ground (arith, e)

module _ (lower : Bytes → Bytes) (lq : Bytes) where
  -- A nick that is no candidate: it is the query, or does not begin with it.
  abbrev pub Skips : Bytes → Type 0
  Skips nick = (lower nick == lq ≡ true) ⊎ (has_prefix (lower nick) lq ≡ false)

  add_match_empty :
      (nick : Bytes) (entry : SeenEntry) (present : Bool) (matches : Matches)
      → add_match lower lq nick entry present matches ≡ []
      → (matches ≡ []) × Skips nick
  unfolding add_match
  add_match_empty nick entry present matches h = elim (Bool-cases (lower nick == lq)) [
    | inl e ↦ (rw (e, add_match) at h, inl e)
    | inr e ↦ elim (Bool-cases (has_prefix (lower nick) lq)) [
      | inl f ↦ absurd (
          insert_nonempty (lower nick)
            (merge entry present (match_or_new nick (lookup (lower nick) matches))) matches
            (rw (e, f, add_match) at h))
      | inr f ↦ (rw (e, f, add_match) at h, inr f)
    ]
  ]

  add_recorded_empty :
      (nicks : Nicks) (matches : Matches)
      → add_recorded lower lq nicks matches ≡ []
      → (matches ≡ []) × All (λ (e : Bytes × SeenEntry). Skips e.0) nicks
  unfolding add_recorded
  add_recorded_empty [] matches h = (h, tt)
  add_recorded_empty ((n, e) ∷ nicks) matches h =
      let (k, a) = add_recorded_empty nicks (add_match lower lq n e false matches) h in
      let (l, b) = add_match_empty n e false matches k in (l, (b, a))

  add_present_empty :
      (pres : List (Bytes × Bytes)) (matches : Matches)
      → add_present lower lq pres matches ≡ []
      → (matches ≡ []) × All (λ (e : Bytes × Bytes). Skips e.1) pres
  unfolding add_present
  add_present_empty [] matches h = (h, tt)
  add_present_empty ((l, n) ∷ pres) matches h =
      let (k, a) = add_present_empty pres (add_match lower lq n no_entry true matches) h in
      let (m, b) = add_match_empty n no_entry true matches k in (m, (b, a))

-- Each entry is a nick under its lower case.
abbrev IsLowered : (Bytes → Bytes) → List (Bytes × Bytes) → Type 0
IsLowered lower pres = (k d : Bytes) → lookup k pres ≡ some d → lower d ≡ k

abbrev Holds : (Bytes → Bytes) → List (Bytes × Bytes) → Bytes → Type 0
Holds lower pres n = (d : Bytes) × (lookup (lower n) pres ≡ some d)

module _ (lower : Bytes → Bytes) where
  insert-IsLowered :
      (n : Bytes) (pres : List (Bytes × Bytes))
      → IsLowered lower pres
      → IsLowered lower (insert (lower n) n pres)
  insert-IsLowered n pres i k d l = elim (Bool-cases (lower n == k)) [
    | inl e ↦
        let q : n ≡ d = ground (arith, rw e at (sym (lookup-insert (lower n) k n pres) ∙ l)) in
        ap lower (sym q) ∙ (eq_iff (lower n) k).0 e
    | inr e ↦ i k d (rw e at (sym (lookup-insert (lower n) k n pres) ∙ l))
  ]

  insert-Holds :
      (n m : Bytes) (pres : List (Bytes × Bytes))
      → Holds lower pres m
      → Holds lower (insert (lower n) n pres) m
  insert-Holds n m pres (d, l) = elim (Bool-cases (lower n == lower m)) [
    | inl e ↦ (n, lookup-insert (lower n) (lower m) n pres ∙ rw e refl)
    | inr e ↦ (d, lookup-insert (lower n) (lower m) n pres ∙ rw e l)
  ]

  abbrev Keeps : List (Bytes × Bytes) → List Bytes → List (Bytes × Bytes) → Type 0
  Keeps pres ns r =
      IsLowered lower r
      × ((m : Bytes) → Holds lower pres m → Holds lower r m)
      × All (Holds lower r) ns

  -- What is kept of the nicks that are present.
  present_nicks-Keeps :
      (ns : List Bytes) (pres : List (Bytes × Bytes))
      → IsLowered lower pres
      → Keeps pres ns (present_nicks lower ns pres)
  unfolding present_nicks
  present_nicks-Keeps [] pres i = (i, (λ m h. h), tt)
  present_nicks-Keeps (n ∷ ns) pres i = elim (Option-cases (lookup (lower n) pres)) [
    | inl e ↦
        let pres1 = insert (lower n) n pres in
        let (j, k, a) = present_nicks-Keeps ns pres1 (insert-IsLowered n pres i) in
        let h : Holds lower pres1 n =
          (n, lookup-insert (lower n) (lower n) n pres ∙ rw (eq_refl (lower n)) refl) in
        let q : present_nicks lower ns pres1 ≡ present_nicks lower (n ∷ ns) pres =
          rw (e, present_nicks) refl in
        subst (Keeps pres (n ∷ ns)) q (j, (λ m g. k m (insert-Holds n m pres g)), (k n h, a))
    | inr (d, e) ↦
        let (j, k, a) = present_nicks-Keeps ns pres i in
        let q : present_nicks lower ns pres ≡ present_nicks lower (n ∷ ns) pres =
          rw (e, present_nicks) refl in
        subst (Keeps pres (n ∷ ns)) q (j, k, (k n (d, e), a))
  ]

module _ (same : Bytes → Bytes → Bool) (lower : Bytes → Bytes)
    (sort : List Bytes → List Bytes) where
  resolve_matches-found :
      (query : Bytes) (ms ps : Matches) → (resolve_matches sort query ms ps).found ≡ false → ms ≡ []
  unfolding resolve_matches
  resolve_matches-found query [] ps h = refl
  resolve_matches-found query (m ∷ ms) (p ∷ []) h = ground (arith, h)
  resolve_matches-found query (m ∷ []) [] h = ground (arith, h)
  resolve_matches-found query (m ∷ []) (p ∷ q ∷ ps) h = ground (arith, h)
  resolve_matches-found query (m ∷ n ∷ ms) [] h = ground (arith, h)
  resolve_matches-found query (m ∷ n ∷ ms) (p ∷ q ∷ ps) h = ground (arith, h)

  -- Where no nick is present and none recorded as the query, the matches decide.
  not_found_matches :
      (nicks : Nicks) (query : Bytes) (present : List Bytes)
      → (seen_lookup same lower sort nicks query present).found ≡ false
      → (lookup (lower query) (present_nicks lower present []) ≡ none)
        × (find_ci same nicks query ≡ none)
        × (match_all same lower sort query (present_nicks lower present []) nicks ≡ [])
  unfolding seen_lookup
  not_found_matches nicks query present h =
      let pres = present_nicks lower present [] in
      let matches = match_all same lower sort query pres nicks in
      elim (Option-cases (lookup (lower query) pres)) [
        | inr (d, e) ↦ ground (arith, rw (e, seen_lookup) at h)
        | inl e ↦ elim (Option-cases (find_ci same nicks query)) [
          | inr (d, f) ↦ ground (arith, rw (e, f, seen_lookup) at h)
          | inl f ↦ (
            e,
            f,
            resolve_matches-found query matches (present_matches matches)
                (rw (e, f, seen_lookup) at h),
          )
        ]
      ]

  unmatched :
      (query n d : Bytes) (pres : List (Bytes × Bytes))
      → All (λ (e : Bytes × Bytes). Skips lower (lower query) e.1) pres
      → IsLowered lower pres
      → lookup (lower n) pres ≡ some d
      → lookup (lower query) pres ≡ none
      → has_prefix (lower n) (lower query) ≡ false
  unmatched query n d pres b i l e =
      let w = i (lower n) d l in
      elim (All-lookup (λ p. Skips lower (lower query) p.1) (lower n) d pres b l) [
        | inl q ↦
            let v = sym w ∙ (eq_iff (lower d) (lower query)).0 q in
            ground (arith, sym l ∙ ap (λ k. lookup k pres) v ∙ e)
        | inr q ↦ subst (λ k. has_prefix k (lower query) ≡ false) w q
      ]

  -- A query without a result has missed nothing: no nick that is present begins with it, up to case,
  -- and a recorded nick does so only if it is the query in lower case but is not equal to it for
  -- strings.EqualFold.
  pub seen_lookup_not_found :
      (nicks : Nicks) (query : Bytes) (present : List Bytes)
      → (seen_lookup same lower sort nicks query present).found ≡ false
      → All (λ (n : Bytes). has_prefix (lower n) (lower query) ≡ false) present
        × All (λ (e : Bytes × SeenEntry). Skips lower (lower query) e.0) nicks
        × (find_ci same nicks query ≡ none)
  unfolding match_all lookup
  seen_lookup_not_found nicks query present h =
      let lq = lower query in
      let pres = present_nicks lower present [] in
      let (e, f, g) = not_found_matches nicks query present h in
      let (m, a) = add_recorded_empty lower lq nicks (add_present lower lq pres []) g in
      let b = (add_present_empty lower lq pres [] m).1 in
      let (i, k, c) = present_nicks-Keeps lower present [] (λ k d l. ground (arith, l)) in
      (All-map _ _ present (λ n (d, l). unmatched query n d pres b i l e) c, a, f)
