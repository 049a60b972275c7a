-- ===== src/Feed.antt =====
-- What the monitors of GitHub and Redmine share: the watermark by which they tell the new entries of
-- a feed, and the batches of their posts, as in poll and announce of github-monitor/monitor.go and
-- redmine-monitor/monitor.go. Times are in seconds after Go's zero time, which is 0.
pub mod Once
pub mod Found
pub mod Posts
pub mod Snippet
mod Tests
use mathlib.Core.List.{map}
use dflybot.Prelude.{
  ℕ, ◌+◌, Bool, true, false, not, ◌&&◌, ◌||◌, Option, none, some, List, [], ◌∷◌, ◌++◌,
  if◌then◌else◌, ltb, leb, eqb, length,
}
use dflybot.Prelude.Bytes.{Bytes, ◌==◌, lit}
use dflybot.Prelude.Sorted.{lookup}
use dflybot.GitMonitor.{Map}
use dflybot.GitMonitor.Send.{join, separator, sep_len, mem}

-- The time of the newest entry that was processed, none before the seeding, and the ids of those
-- that were processed at that time.
pub record Watermark (I : Type 0) : Type 0 where
  pub last_at : Option ℕ
  pub last_ids : List I

abbrev pub last_time : {I : Type 0} → Watermark I → ℕ
last_time w = elim w.last_at [ none ↦ 0 | some t ↦ t ]

module _ {I : Type 0} (same : I → I → Bool) where
  unfoldable pub seen_at_boundary : List I → I → Bool
  seen_at_boundary [] i = false
  seen_at_boundary (v ∷ vs) i = if same v i then true else seen_at_boundary vs i

-- The latest time, from the time `m` on.
unfoldable pub max_time : {A : Type 0} → (A → ℕ) → ℕ → List A → ℕ
max_time time m [] = m
max_time time m (e ∷ es) = max_time time (if ltb m (time e) then time e else m) es

module _ {A I : Type 0} (time : A → ℕ) (id : A → I) where
  -- The ids of the entries of a time.
  unfoldable pub ids_at : ℕ → List A → List I
  ids_at t [] = []
  ids_at t (e ∷ es) = let rest = ids_at t es in if eqb (time e) t then id e ∷ rest else rest

  -- The watermark after the entries that were accepted.
  unfoldable pub advance : List A → Watermark I → Watermark I
  unfolding max_time ids_at
  advance [] w = w
  advance (e ∷ es) w =
      let m = max_time time (time e) es in
      record {
        last_at = some m;
        last_ids = (if eqb m (last_time w) then w.last_ids else []) ++ ids_at m (e ∷ es);
      }

  module _ (same : I → I → Bool) where
    -- An entry that is newer than the watermark, or as old and not processed.
    unfoldable pub is_new : Watermark I → A → Bool
    unfolding seen_at_boundary
    is_new w e =
        ltb (last_time w) (time e)
        || eqb (time e) (last_time w) && not (seen_at_boundary same w.last_ids (id e))

    -- The new entries of a list that starts with the newest, oldest first.
    unfoldable pub accept : Watermark I → List A → List A
    unfolding is_new
    accept w [] = []
    accept w (e ∷ es) = let older = accept w es in if is_new w e then older ++ e ∷ [] else older

    -- The lists of one poll after the other, and all that they accept.
    unfoldable pub reads : List (List A) → Watermark I → Watermark I × List A
    unfolding accept advance
    reads [] w = (w, [])
    reads (es ∷ lists) w =
        let found = accept w es in
        let (w', later) = reads lists (advance found w) in (w', found ++ later)

abbrev pub flush : List Bytes → List (List Bytes) → List (List Bytes)
flush [] posts = posts
flush (l ∷ texts) posts = (l ∷ texts) ∷ posts

-- The loop of announce over the lines, by the texts of each post; the length of the prompt is on the
-- left of the comparison.
unfoldable pub announce_batches : ℕ → ℕ → List Bytes → ℕ → List Bytes → List (List Bytes)
announce_batches max prompt texts cur [] = flush texts []
announce_batches max prompt texts cur (line ∷ lines) =
    let longer =
      announce_batches max prompt (texts ++ line ∷ []) (cur + (sep_len texts + length line))
        lines in
    let started = announce_batches max prompt (line ∷ []) (length line) lines in
    if leb (cur + sep_len texts + length line + prompt) max then longer else flush texts started

-- The URLs to shorten, each once: those of the activities that are created, by action and URL.
unfoldable pub url_targets : List Bytes → List (Bytes × Bytes) → List Bytes
url_targets targets [] = targets
url_targets targets ((action, url) ∷ acts) =
    url_targets
      (if not (action == lit "create") || url == [] || mem url targets
        then targets
        else targets ++ url ∷ [])
      acts

abbrev ask : (List Bytes → Map) → List Bytes → Map
ask shorten [] = []
ask shorten (t ∷ ts) = shorten (t ∷ ts)

-- The short URLs, none without a shortener or a URL to shorten.
unfoldable pub shorten_urls : Option (List Bytes → Map) → List (Bytes × Bytes) → Map
unfolding url_targets
shorten_urls none acts = []
shorten_urls (some shorten) acts = ask shorten (url_targets [] acts)

unfoldable pub shown_url : Map → Bytes → Bytes
shown_url short [] = []
shown_url short (c ∷ url) = elim (lookup (c ∷ url) short) [ none ↦ c ∷ url | some u ↦ u ]

-- The posts of a poll's lines.
unfoldable pub posts : ℕ → Bytes → List Bytes → List Bytes
unfolding announce_batches join
posts max prompt lines =
    map (λ texts. prompt ++ join separator texts) (announce_batches max (length prompt) [] 0 lines)
