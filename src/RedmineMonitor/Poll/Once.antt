-- ===== src/RedmineMonitor/Poll/Once.antt =====
-- The ids of the entries that the polls of redmine-monitor/monitor.go announce.
use mathlib.Core.Path.{subst}
use mathlib.Core.List.{map}
use dflybot.Prelude.{
  ℕ, false, ◌&&◌, Option, none, some, List, [], ◌∷◌, ◌++◌, ◌≡◌, inl, inr, arith, refl, sym, ap, ◌∙◌,
  All, All-map, In, Distinct, Bool-cases,
}
use dflybot.Prelude.Bytes.{Bytes, ◌==◌, eq_refl}
use dflybot.Feed.{Watermark, max_time, advance, reads}
use dflybot.Feed.Once.{passed, IsTimed, reads-Distinct, reads-passed}
use dflybot.RedmineMonitor.{Entry, Activity, Config, entry_time}
use dflybot.RedmineMonitor.Activities.{Issues, classify, classified, wanted, scan, action_wanted}
use dflybot.RedmineMonitor.Activities.Kept.{act_id, In-scan, scan-Distinct}
use dflybot.RedmineMonitor.Poll.{
  ProjState, Fetch, blocked, failed, unchanged, fetched, handle_anubis, id_of, timed, cleared,
  accepted_of, announced, poll, run, is_unset,
}

module _ (cfg : Config) where
  -- The entries with a time of the polls that fetch a list.
  unfoldable pub lists_of : List (ℕ × Fetch) → List (List Entry)
  unfolding timed
  lists_of [] = []
  lists_of ((now, blocked) ∷ polls) = lists_of polls
  lists_of ((now, failed) ∷ polls) = lists_of polls
  lists_of ((now, unchanged) ∷ polls) = lists_of polls
  lists_of ((now, fetched es etag) ∷ polls) = timed cfg es ∷ lists_of polls

  wanted_append :
      (found : Option Activity) (xs ys : List Activity)
      → wanted cfg found (xs ++ ys) ≡ wanted cfg found xs ++ ys
  wanted_append none xs ys = refl
  wanted_append (some a) xs ys = elim (Bool-cases (action_wanted a.action cfg.actions)) [
    | inl w ↦ rw w refl
    | inr w ↦ rw w refl
  ]

  scan-append :
      (xs ys : List Entry) (issues : Issues)
      → let p = scan cfg xs issues in
        ((scan cfg (xs ++ ys) issues).1 ≡ p.1 ++ (scan cfg ys p.0).1)
        × ((scan cfg (xs ++ ys) issues).0 ≡ (scan cfg ys p.0).0)
  unfolding scan
  scan-append [] ys issues = (refl, refl)
  scan-append (x ∷ xs) ys issues =
      let found = classify cfg issues x in
      let issues1 = classified cfg issues found in
      let (e, f) = scan-append xs ys issues1 in
      let p = scan cfg xs issues1 in
      (ap (wanted cfg found) e ∙ wanted_append found p.1 (scan cfg ys p.0).1, f)

  abbrev pub IsSeeded : ProjState → Type 0
  IsSeeded st = (t : ℕ) × (st.mark.last_at ≡ some t)

  is_set : (st : ProjState) → IsSeeded st → (is_unset st.mark.last_at && st.etag == []) ≡ false
  is_set st (t, e) = rw e refl

  advance_seeded :
      (es : List Entry) (w : Watermark Bytes) (t : ℕ)
      → w.last_at ≡ some t
      → (u : ℕ) × ((advance (entry_time cfg) (id_of cfg) es w).last_at ≡ some u)
  unfolding advance
  advance_seeded [] w t e = (t, e)
  advance_seeded (x ∷ es) w t e = (max_time (entry_time cfg) (entry_time cfg x) es, refl)

  abbrev pub reads_of : List (List Entry) → Watermark Bytes → Watermark Bytes × List Entry
  reads_of lists w = reads (entry_time cfg) (id_of cfg) ◌==◌ lists w

  handle_anubis_keeps :
      (now : ℕ) (st : ProjState)
      → ((handle_anubis cfg now st).0.mark ≡ st.mark)
        × ((handle_anubis cfg now st).0.issues ≡ st.issues)
  unfolding handle_anubis
  handle_anubis_keeps now st = (ground arith, ground arith)

  -- The polls of a seeded state are the reads of its watermark, scanned with its issues.
  pub run-reads :
      (polls : List (ℕ × Fetch)) (st : ProjState)
      → IsSeeded st
      → let found = (reads_of (lists_of polls) st.mark).1 in
        (run cfg polls st).1 ≡ (scan cfg found st.issues).1
  unfolding run poll lists_of reads scan announced
  run-reads [] st s = refl
  run-reads ((now, blocked) ∷ polls) st (t, e) =
      let p = (handle_anubis cfg now st).0 in
      let (m, i) = handle_anubis_keeps now st in
      run-reads polls p (t, ap (λ (w : Watermark Bytes). w.last_at) m ∙ e)
      ∙ ap (λ w. (scan cfg (reads_of (lists_of polls) w).1 p.issues).1) m
      ∙ ap (λ x. (scan cfg (reads_of (lists_of polls) st.mark).1 x).1) i
  run-reads ((now, failed) ∷ polls) st s = run-reads polls st s
  run-reads ((now, unchanged) ∷ polls) st s =
      run-reads polls (record (cleared cfg st) { updated_at = now }) s
  run-reads ((now, fetched es etag) ∷ polls) st s =
      let found = accepted_of cfg es st in
      let p = announced cfg now es etag (cleared cfg st) in
      let later = (reads_of (lists_of polls) p.state.mark).1 in
      let ih = run-reads polls p.state (advance_seeded found st.mark s.0 s.1) in
      rw (is_set st s, run, poll)
        (ap (λ l. p.acts ++ l) ih ∙ sym (scan-append found later st.issues).0)

  -- The lists of the polls: no id stands twice in one, and an entry's time is known by its id.
  abbrev pub AreLists : (Bytes → ℕ) → List (ℕ × Fetch) → Type 0
  AreLists clock polls =
      All (λ es. Distinct (map (id_of cfg) es) × IsTimed (entry_time cfg) (id_of cfg) clock es)
        (lists_of polls)

  -- From a seeded state on no entry of the feed is announced twice, where no fetch has one twice,
  -- however the polls end, and none that the watermark had passed before.
  pub entries_once :
      (clock : Bytes → ℕ) (polls : List (ℕ × Fetch)) (st : ProjState)
      → IsSeeded st
      → AreLists clock polls
      → Distinct (map act_id (run cfg polls st).1)
        × ((a : Activity)
            → In a (run cfg polls st).1
            → passed ◌==◌ st.mark (clock a.entry_id) a.entry_id ≡ false)
  entries_once clock polls st s h =
      let found = (reads_of (lists_of polls) st.mark).1 in
      let d =
        reads-Distinct (entry_time cfg) (id_of cfg) ◌==◌ clock (lists_of polls) st.mark eq_refl h in
      let (c, p, k) =
        reads-passed (entry_time cfg) (id_of cfg) ◌==◌ clock (lists_of polls) st.mark eq_refl
          (All-map _ _ (lists_of polls) (λ l (x, y). y) h) in
      let r = run-reads polls st s in
      (
        subst (λ l. Distinct (map act_id l)) (sym r) (scan-Distinct cfg found st.issues d),
        (λ a i.
            let (e, j, q) = In-scan cfg found st.issues a (subst (In a) r i) in
            subst (λ x. passed ◌==◌ st.mark (clock x) x ≡ false) (sym q)
              (subst (λ t. passed ◌==◌ st.mark t e.id ≡ false) (c e j) (p e j).0)),
      )
