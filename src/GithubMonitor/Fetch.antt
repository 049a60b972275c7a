-- ===== src/GithubMonitor/Fetch.antt =====
-- The pages of a repository's events: fetchEvents of github-monitor/github.go. What GitHub answers
-- to a request is a parameter.
use dflybot.Prelude.{
  ℕ, zero, suc, ◌-◌, ◌≤◌, Bool, true, false, not, ◌||◌, Option, none, some, List, [], ◌∷◌, ◌++◌,
  ◌≡◌, inl, inr, arith, refl, sym, ap, ◌∙◌, if◌then◌else◌, ltb, All, All-map, Bool-cases,
  Option-cases,
}
use mathlib.Core.Path.{subst}
use mathlib.Core.List.{append-nil, append_assoc}
use dflybot.Prelude.Bytes.{Bytes, ◌==◌}
use dflybot.GithubMonitor.{Config, GhEvent, event_time}
use dflybot.GithubMonitor.Poll.{Fetch, failed, unchanged, fetched}

-- An error, 304 Not Modified, or the events of a page, its ETag and the URL of the next page, blank
-- on the last one.
pub data Reply : Type 0 where
  bad : Reply
  not_modified : Reply
  page : List GhEvent → Bytes → Bytes → Reply

-- A request for a URL with an ETag, blank where it is not conditional.
abbrev pub Client : Type 0
Client = Bytes → Bytes → Reply

abbrev pub max_pages : ℕ
max_pages = 10

abbrev last_is_old : Config → ℕ → List GhEvent → Bool
last_is_old cfg since [] = false
last_is_old cfg since (e ∷ []) = not (ltb since (event_time cfg e))
last_is_old cfg since (e ∷ f ∷ es) = last_is_old cfg since (f ∷ es)

abbrev prepend : List GhEvent → Option (List GhEvent) → Option (List GhEvent)
prepend es none = none
prepend es (some more) = some (es ++ more)

module _ (cfg : Config) (get : Client) (since : ℕ) where
  -- The events from a page on, with so many pages to follow at most.
  unfoldable pub fetch_from : ℕ → Reply → Option (List GhEvent)
  fetch_from n bad = none
  fetch_from n not_modified = some []
  fetch_from zero (page es etag next) = some es
  fetch_from (suc n) (page es etag next) =
      let more = fetch_from n (get next []) in
      if next == [] || last_is_old cfg since es then some es else prepend es more

  abbrev fetch_of : Bytes → Option (List GhEvent) → Fetch
  fetch_of etag none = failed
  fetch_of etag (some es) = fetched es etag

  abbrev from_first : Reply → Fetch
  from_first bad = failed
  from_first not_modified = unchanged
  from_first (page es etag next) = fetch_of etag (fetch_from (max_pages - 1) (page es etag next))

  unfoldable pub fetch_events : Bytes → Bytes → Fetch
  unfolding fetch_from
  fetch_events url etag = from_first (get url etag)

-- All the events of the pages, none where a page fails.
unfoldable pub all_from : Client → ℕ → Reply → Option (List GhEvent)
all_from get n bad = none
all_from get n not_modified = some []
all_from get zero (page es etag next) = some es
all_from get (suc n) (page es etag next) =
    let more = all_from get n (get next []) in if next == [] then some es else prepend es more

module _ (cfg : Config) where
  abbrev pub IsNewestFirst : List GhEvent → Type 0
  IsNewestFirst [] = Unit
  IsNewestFirst (e ∷ es) = All (λ f. event_time cfg f ≤ event_time cfg e) es × IsNewestFirst es

  abbrev IsOld : ℕ → GhEvent → Type 0
  IsOld since e = event_time cfg e ≤ since

  IsNewestFirst-append : (xs ys : List GhEvent) → IsNewestFirst (xs ++ ys) → IsNewestFirst ys
  IsNewestFirst-append [] ys h = h
  IsNewestFirst-append (x ∷ xs) ys h = IsNewestFirst-append xs ys h.1

  after_last :
      (since : ℕ) (xs ys : List GhEvent)
      → last_is_old cfg since xs ≡ true
      → IsNewestFirst (xs ++ ys)
      → All (IsOld since) ys
  after_last since [] ys o h = ground (arith, o)
  after_last since (x ∷ []) ys o (h, k) = All-map _ _ ys (λ f b. ground (arith, o, b)) h
  after_last since (x ∷ z ∷ xs) ys o h = after_last since (z ∷ xs) ys o h.1

  -- The result is a beginning of the list, and the rest is not newer than the time given.
  abbrev pub Covers : ℕ → List GhEvent → List GhEvent → Type 0
  Covers since all got =
      (rest : List GhEvent) × (got ++ rest ≡ all) × All (λ e. event_time cfg e ≤ since) rest

  fetch_from-Covers :
      (get : Client) (since n : ℕ) (r : Reply) (all : List GhEvent)
      → all_from get n r ≡ some all
      → IsNewestFirst all
      → (got : List GhEvent) × (fetch_from cfg get since n r ≡ some got) × Covers since all got
  unfolding fetch_from all_from
  fetch_from-Covers get since n bad all a s = ground (arith, a)
  fetch_from-Covers get since n not_modified all a s = ([], refl, ([], ground (arith, a), tt))
  fetch_from-Covers get since zero (page es etag next) all a s =
      (es, refl, ([], append-nil es ∙ ground (arith, a), tt))
  fetch_from-Covers get since (suc n) (page es etag next) all a s = elim (Bool-cases (next == [])) [
    | inl e ↦
        let b : some es ≡ some all = rw (e, all_from) at a in
        (es, rw (e, fetch_from) refl, ([], append-nil es ∙ ground (arith, b), tt))
    | inr e ↦ elim (Option-cases (all_from get n (get next []))) [
      | inl f ↦ ground (arith, rw (e, f, all_from) at a)
      | inr (more, f) ↦
          let b : some (es ++ more) ≡ some all = rw (e, f, all_from) at a in
          let c : es ++ more ≡ all = ground (arith, b) in
          let d = subst IsNewestFirst (sym c) s in
          elim (Bool-cases (last_is_old cfg since es)) [
            | inl o ↦ (es, rw (e, o, fetch_from) refl, (more, c, after_last since es more o d))
            | inr o ↦
                let (got, g, (rest, q, k)) =
                  fetch_from-Covers get since n (get next []) more f
                    (IsNewestFirst-append es more d) in
                (
                  es ++ got,
                  rw (e, o, g, fetch_from) refl,
                  (rest, append_assoc es got rest ∙ ap (λ l. es ++ l) q ∙ c, k),
                )
          ]
    ]
  ]

  -- If the pages, up to the tenth, can be fetched and list the events from the newest on, then a poll
  -- gets all events that are newer than the watermark, in their order: it leaves out only an end of
  -- the list whose events are not newer.
  pub fetch_events_complete :
      (get : Client) (since : ℕ) (url etag tag next : Bytes) (es all : List GhEvent)
      → get url etag ≡ page es tag next
      → all_from get 9 (page es tag next) ≡ some all
      → IsNewestFirst all
      → (got : List GhEvent) × (fetch_events cfg get since url etag ≡ fetched got tag)
        × Covers since all got
  unfolding fetch_events
  fetch_events_complete get since url etag tag next es all e a s =
      let (got, g, c) = fetch_from-Covers get since 9 (page es tag next) all a s in
      (got, rw (e, fetch_events, g) refl, c)
