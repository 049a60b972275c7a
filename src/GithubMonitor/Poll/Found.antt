-- ===== src/GithubMonitor/Poll/Found.antt =====
-- Which fetched events the polls of github-monitor/monitor.go announce, and the first poll.
use mathlib.Core.Path.{subst}
use mathlib.Core.List.{map}
use dflybot.Prelude.{
  ℕ, ◌≤◌, true, false, none, some, List, [], ◌∷◌, ◌++◌, ◌≡◌, ◌≢◌, inl, inr, arith, refl, sym, ap,
  ◌∙◌, eqb, All, In, In-append, In-map, map-In, Distinct, Bool-cases, Option-cases,
}
use dflybot.Prelude.Bytes.{Bytes}
use dflybot.Feed.{Watermark, last_time, max_time, advance, accept, reads}
use dflybot.Feed.Once.{passed, In-accept, advance-marks}
use dflybot.Feed.Found.{In-found}
use dflybot.GithubMonitor.{Config, GhEvent, Activity, event_time, classify}
use dflybot.GithubMonitor.Poll.{
  RepoState, Fetch, failed, unchanged, fetched, is_first, seed_mark, activities, poll, run, id_of,
  saved,
}
use dflybot.GithubMonitor.Poll.Once.{
  act_id, lists_of, IsSeeded, AreLists, reads_of, run-reads, events_once, eqb_refl,
}

lists_of-append :
    (before after : List (ℕ × Fetch))
    → lists_of (before ++ after) ≡ lists_of before ++ lists_of after
unfolding lists_of
lists_of-append [] after = refl
lists_of-append ((now, failed) ∷ before) after = lists_of-append before after
lists_of-append ((now, unchanged) ∷ before) after = lists_of-append before after
lists_of-append ((now, fetched es etag) ∷ before) after =
    ap (λ l. es ∷ l) (lists_of-append before after)

module _ (cfg : Config) where
  -- An accepted event stands in one of the lists.
  reads-lists :
      (lists : List (List GhEvent)) (w : Watermark ℕ) (i : ℕ)
      → All (λ es. In i (map (id_of cfg) es) → ⊥) lists
      → In i (map (id_of cfg) (reads_of cfg lists w).1)
      → ⊥
  unfolding reads
  reads-lists [] w i h k = k
  reads-lists (es ∷ lists) w i (n, h) k =
      let found = accept (event_time cfg) (id_of cfg) eqb w es in
      let w1 = advance (event_time cfg) (id_of cfg) found w in
      let (e, j, p) = In-map (id_of cfg) (found ++ (reads_of cfg lists w1).1) i k in
      elim ((In-append e found (reads_of cfg lists w1).1).0 j) [
        | inl l ↦
            let m = ((In-accept (event_time cfg) (id_of cfg) eqb w es e).0 l).0 in
            n (subst (λ x. In x (map (id_of cfg) es)) (sym p) (map-In (id_of cfg) es e m))
        | inr l ↦ reads-lists lists w1 i h (
            subst (λ x. In x (map (id_of cfg) (reads_of cfg lists w1).1)) (sym p)
              (map-In (id_of cfg) (reads_of cfg lists w1).1 e l))
      ]

  activities-In :
      (es : List GhEvent) (e : GhEvent) (a : Activity)
      → In e es
      → classify cfg e ≡ some a
      → In a (activities cfg es)
  unfolding activities
  activities-In [] e a i q = elim i [ ]
  activities-In (x ∷ es) e a (inl p) q = rw (sym (ap (classify cfg) p) ∙ q, activities) (inl refl)
  activities-In (x ∷ es) e a (inr i) q = elim (Option-cases (classify cfg x)) [
    | inl n ↦ rw (n, activities) (activities-In es e a i q)
    | inr (b, s) ↦ rw (s, activities) (inr (activities-In es e a i q))
  ]

  -- An event that is to be announced is announced: by the first poll whose list has it, if it is not
  -- older than an event that was processed before.
  pub events_found :
      (before after : List (ℕ × Fetch)) (now : ℕ) (es : List GhEvent) (etag : Bytes)
      (st : RepoState) (e : GhEvent) (a : Activity)
      → IsSeeded cfg st
      → In e es
      → classify cfg e ≡ some a
      → last_time (run cfg before st).0.mark ≤ event_time cfg e
      → passed eqb st.mark (event_time cfg e) e.event_id ≡ false
      → All (λ fs. In e.event_id (map (id_of cfg) fs) → ⊥) (lists_of before)
      → In a (run cfg (before ++ (now, fetched es etag) ∷ after) st).1
  unfolding lists_of
  events_found before after now es etag st e a s i q t p n =
      let m = (run-reads cfg before st s).0 in
      let polls = before ++ (now, fetched es etag) ∷ after in
      let l = lists_of-append before ((now, fetched es etag) ∷ after) in
      let found =
        In-found (event_time cfg) (id_of cfg) eqb (lists_of before) (lists_of after) es st.mark e
          (λ x y h. ground (arith, h)) i (subst (λ w. last_time w ≤ event_time cfg e) m t) p
          (reads-lists (lists_of before) st.mark e.event_id n) in
      subst (In a) (sym (run-reads cfg polls st s).1) (
        activities-In (reads_of cfg (lists_of polls) st.mark).1 e a
          (subst (λ ls. In e (reads_of cfg ls st.mark).1) (sym l) found) q)

  seed_mark-advance :
      (es : List GhEvent) (w : Watermark ℕ)
      → es ≢ []
      → seed_mark cfg es w
        ≡ advance (event_time cfg) (id_of cfg) es (record { last_at = none; last_ids = [] })
  unfolding seed_mark advance
  seed_mark-advance [] w n = elim (n refl) [ ]
  seed_mark-advance (x ∷ es) w n =
      elim (Bool-cases (eqb (max_time (event_time cfg) (event_time cfg x) es) 0)) [
        | inl e ↦ rw e refl
        | inr e ↦ rw e refl
      ]

  seed_mark-seeded :
      (es : List GhEvent) (w : Watermark ℕ)
      → es ≢ []
      → (t : ℕ) × ((seed_mark cfg es w).last_at ≡ some t)
  unfolding seed_mark
  seed_mark-seeded [] w n = elim (n refl) [ ]
  seed_mark-seeded (x ∷ es) w n = (max_time (event_time cfg) (event_time cfg x) es, refl)

  -- The first list of events is not announced: neither by the poll that fetches it nor later.
  pub first_silent :
      (clock : ℕ → ℕ) (now : ℕ) (es : List GhEvent) (etag : Bytes) (polls : List (ℕ × Fetch))
      (st : RepoState)
      → is_first st ≡ true
      → es ≢ []
      → AreLists cfg clock ((now, fetched es etag) ∷ polls)
      → let acts = (run cfg ((now, fetched es etag) ∷ polls) st).1 in
        Distinct (map act_id acts)
        × ((a : Activity) (e : GhEvent) → In a acts → In e es → a.event_id ≢ e.event_id)
  unfolding run poll lists_of
  first_silent clock now es etag polls st f n ((d, c), h) =
      let w = seed_mark cfg es st.mark in
      let st1 = saved cfg etag now w st in
      let (d1, p1) = events_once cfg clock polls st1 (seed_mark-seeded es st.mark n) h in
      rw (f, run, poll)
        (
          d1,
          λ a e i j q.
              let m =
                advance-marks (event_time cfg) (id_of cfg) eqb es
                  (record { last_at = none; last_ids = [] }) e eqb_refl j in
              let m1 =
                subst (λ v. passed eqb v (event_time cfg e) e.event_id ≡ true)
                  (sym (seed_mark-advance es st.mark n)) m in
              let k = subst (λ x. passed eqb w (clock x) x ≡ false) q (p1 a i) in
              ground (arith, rw (c e j) at m1, k),
        )
