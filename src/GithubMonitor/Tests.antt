-- ===== src/GithubMonitor/Tests.antt =====
-- The theorems of the GitHub monitor at concrete inputs.
use dflybot.Prelude.{
  ◌≢◌, ℕ, false, none, some, Option, List, [], ◌∷◌, ◌≡◌, inl, inr, arith, refl, eqb, length, In,
}
use dflybot.Prelude.Bytes.{Bytes, ◌==◌, lit}
use dflybot.Feed.Once.{passed}
use dflybot.Feed.Snippet.{snippet}
use dflybot.GithubMonitor.{GhEvent, Activity, issue_kind, Config, event_time, classify}
use dflybot.GithubMonitor.Fetch.{
  page, Client, fetch_events, all_from, Covers, fetch_events_complete,
}
use dflybot.GithubMonitor.Poll.{RepoState, Fetch, failed, fetched, run, id_of, state_version}
use dflybot.GithubMonitor.Poll.Once.{lists_of, AreTimed, events_apart}
use dflybot.GithubMonitor.Poll.Found.{events_found}

abbrev first_byte : Bytes → Option ℕ
first_byte [] = none
first_byte (c ∷ s) = some c

abbrev cfg : Config
cfg = record {
  project = lit "DragonFlyBSD";
  repo = lit "dflybot";
  ignored_users = lit "bot" ∷ [];
  issue_actions = [];
  pr_actions = [];
  max_length = 400;
  shortener = none;
  get_ref = none;
  parse_time = first_byte;
  equal_fold = ◌==◌;
  runes = record { fields = λ s. s ∷ []; rune_count = λ s. length s; last_size = λ s. 1 };
  digits = λ n. 48 ∷ [];
}

-- Issue number 1 is opened.
abbrev opened : ℕ → Bytes → GhEvent
opened id at = record {
  event_id = id;
  type = lit "IssuesEvent";
  created_at = at;
  login = lit "alice";
  payload = record {
    action = lit "opened";
    issue = some (record {
      url = [];
      number = 1;
      title = lit "crash";
      html_url = lit "https://example.org/1";
      pull_request = [];
    });
    pr = none;
    comment = none;
    review = none;
  };
}

abbrev seeded : RepoState
seeded = record {
  version = state_version;
  etag = lit "a";
  mark = record { last_at = some 5; last_ids = 1 ∷ [] };
  updated_at = 0;
}

abbrev old : GhEvent
old = opened 1 (5 ∷ [])

abbrev same_second : GhEvent
same_second = opened 2 (5 ∷ [])

-- The time of each event by its id.
abbrev clock : ℕ → ℕ
clock id = 5

abbrev polls : List (ℕ × Fetch)
polls =
    (10, fetched (same_second ∷ old ∷ []) (lit "b"))
    ∷ (11, failed)
    ∷ (12, fetched (same_second ∷ old ∷ []) (lit "c"))
    ∷ []

abbrev announced_one : Activity
announced_one = record {
  kind = issue_kind;
  action = lit "create";
  number = 1;
  actor = lit "alice";
  title = lit "crash";
  url = lit "https://example.org/1";
  event_id = 2;
}

five_times : (e : GhEvent) → In e (same_second ∷ old ∷ []) → event_time cfg e ≡ clock (id_of cfg e)
five_times e (inl p) = rw p refl
five_times e (inr (inl p)) = rw p refl
five_times e (inr (inr b)) = elim b [ ]

classified_one : classify cfg same_second ≡ some announced_one
unfolding classify ◌==◌ snippet
classified_one = refl

timed_lists : AreTimed cfg clock polls
unfolding lists_of
timed_lists = (five_times, (five_times, tt))

unseen : passed eqb seeded.mark 5 2 ≡ false
unfolding passed
unseen = refl

-- Two lists have the event before, and it is in those after too.
events_apart_example :
    let r = run cfg polls seeded in
    ((a b : Activity) → In a r.1 → In b (run cfg polls r.0).1 → a.event_id ≢ b.event_id)
    × ((a : Activity) → In a r.1 → passed eqb seeded.mark (clock a.event_id) a.event_id ≡ false)
events_apart_example = events_apart cfg clock polls polls seeded (5, refl) timed_lists timed_lists

events_found_example :
    In announced_one
      (run cfg ((9, failed) ∷ (10, fetched (same_second ∷ old ∷ []) (lit "b")) ∷ []) seeded).1
unfolding run lists_of
events_found_example =
    events_found cfg ((9, failed) ∷ []) [] 10 (same_second ∷ old ∷ []) (lit "b") seeded same_second
      announced_one (5, refl) (inl refl) classified_one (omega arith) unseen tt

-- The first page has one event, the second the rest.
abbrev pages : Client
pages [] etag = page (same_second ∷ []) (lit "b") (lit "2")
pages (c ∷ url) etag = page (old ∷ []) (lit "c") []

fetched_both :
    all_from pages 9 (page (same_second ∷ []) (lit "b") (lit "2")) ≡ some (same_second ∷ old ∷ [])
unfolding all_from ◌==◌
fetched_both = refl

fetch_events_complete_example :
    (got : List GhEvent) × (fetch_events cfg pages 5 [] [] ≡ fetched got (lit "b"))
    × Covers cfg 5 (same_second ∷ old ∷ []) got
fetch_events_complete_example =
    fetch_events_complete cfg pages 5 [] [] (lit "b") (lit "2") (same_second ∷ [])
      (same_second ∷ old ∷ []) refl fetched_both ((omega arith, tt), (tt, tt))
