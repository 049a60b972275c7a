-- ===== src/RedmineMonitor/Activities/Kept.antt =====
-- The ids of the activities of classify and of the loop over the entries (RedmineMonitor/Activities).
use mathlib.Core.Path.{subst}
use mathlib.Core.List.{map}
use dflybot.Prelude.{
  Option, none, some, List, [], ◌∷◌, ◌≡◌, ◌⊎◌, inl, inr, arith, refl, sym, ap, ◌∙◌, In, In-map,
  map-In, Distinct, Bool-cases,
}
use dflybot.Prelude.Bytes.{Bytes}
use dflybot.RedmineMonitor.{Entry, IssueTitle, Activity, Config, is_issue, parse_title}
use dflybot.RedmineMonitor.Activities.{
  Issues, action_wanted, titled, classify, classified, wanted, scan,
}

abbrev pub act_id : Activity → Bytes
act_id a = a.entry_id

abbrev pub id_of : Entry → Bytes
id_of e = e.id

module _ (cfg : Config) where
  titled-id :
      (issues : Issues) (e : Entry) (it : Option IssueTitle) (a : Activity)
      → titled cfg issues e it ≡ some a
      → a.entry_id ≡ e.id
  titled-id issues e none a h = ground (arith, h)
  titled-id issues e (some it) a h = ground (arith, h)

  classify-id :
      (issues : Issues) (e : Entry) (a : Activity)
      → classify cfg issues e ≡ some a
      → a.entry_id ≡ e.id
  unfolding classify
  classify-id issues e a h = elim (Bool-cases (is_issue e)) [
    | inl i ↦ titled-id issues e (parse_title cfg e.title) a (rw (i, classify) at h)
    | inr i ↦ ground (arith, rw (i, classify) at h)
  ]

  In-wanted :
      (found : Option Activity) (acts : List Activity) (a : Activity)
      → In a (wanted cfg found acts)
      → (found ≡ some a) ⊎ In a acts
  In-wanted none acts a i = inr i
  In-wanted (some b) acts a i = elim (Bool-cases (action_wanted b.action cfg.actions)) [
    | inl w ↦ elim (rw w at i) [ inl p ↦ inl (ap some (sym p)) | inr j ↦ inr j ]
    | inr w ↦ inr (rw w at i)
  ]

  -- What is announced is of an entry of the list.
  pub In-scan :
      (es : List Entry) (issues : Issues) (a : Activity)
      → In a (scan cfg es issues).1
      → (e : Entry) × In e es × (a.entry_id ≡ e.id)
  unfolding scan
  In-scan [] issues a i = elim i [ ]
  In-scan (e ∷ es) issues a i =
      let found = classify cfg issues e in
      let rest = (scan cfg es (classified cfg issues found)).1 in
      elim (In-wanted found rest a i) [
        | inl q ↦ (e, inl refl, classify-id issues e a q)
        | inr j ↦ let (f, k, p) = In-scan es (classified cfg issues found) a j in (f, inr k, p)
      ]

  wanted-Distinct :
      (found : Option Activity) (acts : List Activity) (i : Bytes)
      → ((a : Activity) → found ≡ some a → a.entry_id ≡ i)
      → (In i (map act_id acts) → ⊥)
      → Distinct (map act_id acts)
      → Distinct (map act_id (wanted cfg found acts))
  wanted-Distinct none acts i f n d = d
  wanted-Distinct (some b) acts i f n d = elim (Bool-cases (action_wanted b.action cfg.actions)) [
    | inl w ↦ rw w ((λ j. n (subst (λ x. In x (map act_id acts)) (f b refl) j)), d)
    | inr w ↦ rw w d
  ]

  pub scan-Distinct :
      (es : List Entry) (issues : Issues)
      → Distinct (map id_of es)
      → Distinct (map act_id (scan cfg es issues).1)
  unfolding scan
  scan-Distinct [] issues d = tt
  scan-Distinct (e ∷ es) issues (n, d) =
      let found = classify cfg issues e in
      let issues1 = classified cfg issues found in
      wanted-Distinct found (scan cfg es issues1).1 e.id (λ a q. classify-id issues e a q)
        (λ i.
          let (a, j, p) = In-map act_id (scan cfg es issues1).1 e.id i in
          let (f, k, q) = In-scan es issues1 a j in
          n (subst (λ x. In x (map id_of es)) (sym (p ∙ q)) (map-In id_of es f k)))
        (scan-Distinct es issues1 d)
