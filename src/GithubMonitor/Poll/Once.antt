-- ===== src/GithubMonitor/Poll/Once.antt =====
-- The ids of the events that the polls of github-monitor/monitor.go announce.
use mathlib.Core.Path.{ap₂, subst}
use mathlib.Core.List.{map}
use dflybot.Prelude.{
  ℕ, true, false, some, List, [], ◌∷◌, ◌++◌, ◌≡◌, ◌≢◌, inl, inr, arith, refl, sym, ap, ◌∙◌, eqb,
  All, All-map, In, In-map, map-In, Distinct, Option-cases,
}
use dflybot.Feed.{Watermark, max_time, advance, accept, reads}
use dflybot.Feed.Once.{passed, IsTimed, reads-Distinct, reads-passed}
use dflybot.GithubMonitor.{Config, GhEvent, Activity, event_time, classify}
use dflybot.GithubMonitor.Classify.{classify_announces}
use dflybot.GithubMonitor.Poll.{
  RepoState, Fetch, failed, unchanged, fetched, is_first, activities, announced, poll, run, id_of,
  saved,
}

abbrev pub act_id : Activity → ℕ
act_id a = a.event_id

-- The lists of the polls that fetch one.
unfoldable pub lists_of : List (ℕ × Fetch) → List (List GhEvent)
lists_of [] = []
lists_of ((now, failed) ∷ polls) = lists_of polls
lists_of ((now, unchanged) ∷ polls) = lists_of polls
lists_of ((now, fetched es etag) ∷ polls) = es ∷ lists_of polls

pub eqb_refl : (n : ℕ) → eqb n n ≡ true
eqb_refl n = ground arith

module _ (cfg : Config) where
  activities-append :
      (xs ys : List GhEvent) → activities cfg (xs ++ ys) ≡ activities cfg xs ++ activities cfg ys
  unfolding activities
  activities-append [] ys = refl
  activities-append (x ∷ xs) ys = elim (Option-cases (classify cfg x)) [
    | inl n ↦ rw (n, activities) (activities-append xs ys)
    | inr (a, s) ↦ rw (s, activities) (ap (λ l. a ∷ l) (activities-append xs ys))
  ]

  -- An activity is of an event of the list.
  pub In-activities :
      (es : List GhEvent) (a : Activity)
      → In a (activities cfg es)
      → (e : GhEvent) × In e es × (classify cfg e ≡ some a)
  unfolding activities
  In-activities [] a i = elim i [ ]
  In-activities (e ∷ es) a i = elim (Option-cases (classify cfg e)) [
    | inl n ↦ let (f, j, q) = In-activities es a (rw (n, activities) at i) in (f, inr j, q)
    | inr (b, s) ↦
        let k : In a (b ∷ activities cfg es) = rw (s, activities) at i in
        elim k [
          | inl p ↦ (e, inl refl, s ∙ ap some (sym p))
          | inr j ↦ let (f, l, q) = In-activities es a j in (f, inr l, q)
        ]
  ]

  activities-Distinct :
      (es : List GhEvent)
      → Distinct (map (id_of cfg) es)
      → Distinct (map act_id (activities cfg es))
  unfolding activities
  activities-Distinct [] d = tt
  activities-Distinct (e ∷ es) (n, d) = elim (Option-cases (classify cfg e)) [
    | inl q ↦ rw (q, activities) (activities-Distinct es d)
    | inr (a, s) ↦
        rw (s, activities)
          (
            (λ i.
                let (b, j, p) = In-map act_id (activities cfg es) a.event_id i in
                let (f, k, q) = In-activities es b j in
                n (
                  subst (λ x. In x (map (id_of cfg) es))
                    (sym (classify_announces cfg f b q).3
                      ∙ sym p
                      ∙ (classify_announces cfg e a s).3)
                    (map-In (id_of cfg) es f k))),
            activities-Distinct es d,
          )
  ]

  abbrev pub IsSeeded : RepoState → Type 0
  IsSeeded st = (t : ℕ) × (st.mark.last_at ≡ some t)

  is_first_seeded : (st : RepoState) → IsSeeded st → is_first st ≡ false
  unfolding is_first
  is_first_seeded st (t, e) = rw (e, is_first) refl

  advance_seeded :
      (es : List GhEvent) (w : Watermark ℕ) (t : ℕ)
      → w.last_at ≡ some t
      → (u : ℕ) × ((advance (event_time cfg) (id_of cfg) es w).last_at ≡ some u)
  unfolding advance
  advance_seeded [] w t e = (t, e)
  advance_seeded (x ∷ es) w t e = (max_time (event_time cfg) (event_time cfg x) es, refl)

  abbrev pub reads_of : List (List GhEvent) → Watermark ℕ → Watermark ℕ × List GhEvent
  reads_of lists w = reads (event_time cfg) (id_of cfg) eqb lists w

  -- The polls of a seeded state are the reads of its watermark.
  pub run-reads :
      (polls : List (ℕ × Fetch)) (st : RepoState)
      → IsSeeded st
      → let r = reads_of (lists_of polls) st.mark in
        ((run cfg polls st).0.mark ≡ r.0)
        × ((run cfg polls st).1 ≡ activities cfg r.1)
        × IsSeeded (run cfg polls st).0
  unfolding run poll lists_of reads announced activities
  run-reads [] st s = (refl, refl, s)
  run-reads ((now, failed) ∷ polls) st s = run-reads polls st s
  run-reads ((now, unchanged) ∷ polls) st s = run-reads polls st s
  run-reads ((now, fetched es etag) ∷ polls) st s =
      let found = accept (event_time cfg) (id_of cfg) eqb st.mark es in
      let w1 = advance (event_time cfg) (id_of cfg) found st.mark in
      let (m, r, s1) =
        run-reads polls (saved cfg etag now w1 st) (advance_seeded found st.mark s.0 s.1) in
      rw (is_first_seeded st s, run, poll)
        (
          m,
          ap (λ l. activities cfg found ++ l) r
              ∙ sym (activities-append found (reads_of (lists_of polls) w1).1),
          s1,
        )

  -- The lists of the polls: no id stands twice in one, and an event's time is known by its id.
  abbrev pub AreLists : (ℕ → ℕ) → List (ℕ × Fetch) → Type 0
  AreLists clock polls =
      All (λ es. Distinct (map (id_of cfg) es) × IsTimed (event_time cfg) (id_of cfg) clock es)
        (lists_of polls)

  -- If no list has an event twice, none is announced twice.
  pub events_once :
      (clock : ℕ → ℕ) (polls : List (ℕ × Fetch)) (st : RepoState)
      → IsSeeded st
      → AreLists clock polls
      → Distinct (map act_id (run cfg polls st).1)
        × ((a : Activity)
            → In a (run cfg polls st).1
            → passed eqb st.mark (clock a.event_id) a.event_id ≡ false)
  events_once clock polls st s h =
      let found = (reads_of (lists_of polls) st.mark).1 in
      let d =
        reads-Distinct (event_time cfg) (id_of cfg) eqb clock (lists_of polls) st.mark eqb_refl h in
      let (c, p, k) =
        reads-passed (event_time cfg) (id_of cfg) eqb clock (lists_of polls) st.mark eqb_refl
          (All-map _ _ (lists_of polls) (λ l (x, y). y) h) in
      let r = (run-reads polls st s).1 in
      (
        subst (λ l. Distinct (map act_id l)) (sym r) (activities-Distinct found d),
        (λ a i.
            let (e, j, q) = In-activities found a (subst (In a) r i) in
            let n = (classify_announces cfg e a q).3 in
            subst (λ x. passed eqb st.mark (clock x) x ≡ false) (sym n)
              (subst (λ t. passed eqb st.mark t e.event_id ≡ false) (c e j) (p e j).0)),
      )

  -- In each list that is fetched an event has the time of its id.
  abbrev pub AreTimed : (ℕ → ℕ) → List (ℕ × Fetch) → Type 0
  AreTimed clock polls = All (IsTimed (event_time cfg) (id_of cfg) clock) (lists_of polls)

  -- What the watermark says of an event that is announced, before the polls and after them.
  announced_passed :
      (clock : ℕ → ℕ) (polls : List (ℕ × Fetch)) (st : RepoState)
      → IsSeeded st
      → AreTimed clock polls
      → (a : Activity) → In a (run cfg polls st).1
      → (passed eqb st.mark (clock a.event_id) a.event_id ≡ false)
        × (passed eqb (run cfg polls st).0.mark (clock a.event_id) a.event_id ≡ true)
  announced_passed clock polls st s h a i =
      let (m, r, u) = run-reads polls st s in
      let found = (reads_of (lists_of polls) st.mark).1 in
      let (c, p, k) =
        reads-passed (event_time cfg) (id_of cfg) eqb clock (lists_of polls) st.mark eqb_refl h in
      let (e, j, q) = In-activities found a (subst (In a) r i) in
      let n = (classify_announces cfg e a q).3 in
      let t : event_time cfg e ≡ clock a.event_id = c e j ∙ ap clock (sym n) in
      let (x, y) = p e j in
      (
        ap₂ (passed eqb st.mark) (sym t) n ∙ x,
        ap (λ w. passed eqb w (clock a.event_id) a.event_id) m
            ∙ ap₂ (passed eqb (reads_of (lists_of polls) st.mark).0) (sym t) n
            ∙ y,
      )

  -- From a seeded state on, where an event has the same time in all lists: no event that polls
  -- announce is announced again by later polls, however the polls end and however often their lists
  -- have it, and none is announced that the watermark had passed before. That one
  -- poll announces an event twice, whose list has it twice, is not excluded.
  pub events_apart :
      (clock : ℕ → ℕ) (polls later : List (ℕ × Fetch)) (st : RepoState)
      → IsSeeded st
      → AreTimed clock polls
      → AreTimed clock later
      → let r = run cfg polls st in
        ((a b : Activity) → In a r.1 → In b (run cfg later r.0).1 → a.event_id ≢ b.event_id)
        × ((a : Activity) → In a r.1 → passed eqb st.mark (clock a.event_id) a.event_id ≡ false)
  events_apart clock polls later st s h g =
      let r = run cfg polls st in
      let u = (run-reads polls st s).2 in
      (
        (λ a b i j e.
            let x = (announced_passed clock polls st s h a i).1 in
            let y = (announced_passed clock later r.0 u g b j).0 in
            let z = subst (λ v. passed eqb r.0.mark (clock v) v ≡ true) e x in
            ground (arith, sym z ∙ y)),
        (λ a i. (announced_passed clock polls st s h a i).0),
      )
