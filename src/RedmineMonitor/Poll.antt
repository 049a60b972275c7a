-- ===== src/RedmineMonitor/Poll.antt =====
-- A poll of a project's feed and the state that it keeps: poll, seed, handleAnubis and loadState of
-- ProjectMonitor in redmine-monitor/monitor.go.
pub mod Blocked
pub mod Once
pub mod Seeded
use dflybot.Prelude.{
  ℕ, ◌+◌, Bool, true, false, not, ◌&&◌, Option, none, some, List, [], ◌∷◌, ◌++◌, if◌then◌else◌, eqb,
  leb,
}
use dflybot.Prelude.Bytes.{Bytes, ◌==◌, lit}
use dflybot.Feed.{Watermark, last_time, max_time, ids_at, advance, accept}
use dflybot.RedmineMonitor.{Entry, IssueTitle, Activity, Config, entry_time, parse_title}
use dflybot.RedmineMonitor.Activities.{Issues, remember, scan}
use dflybot.RedmineMonitor.Posts.{announce}

-- last_at and last_ids are the watermark.
pub record ProjState : Type 0 where
  pub version : ℕ
  pub etag : Bytes
  pub mark : Watermark Bytes
  pub issues : Issues
  pub anubis_streak : ℕ
  pub anubis_warned : Bool
  pub updated_at : ℕ

-- What fetch returns: a block by Anubis, another error, no modification, or the entries and the ETag.
pub data Fetch : Type 0 where
  blocked : Fetch
  failed : Fetch
  unchanged : Fetch
  fetched : List Entry → Bytes → Fetch

-- A state, the activities that are announced, each with a line of the history, and all posts.
pub record Polled : Type 0 where
  pub state : ProjState
  pub acts : List Activity
  pub posts : List Bytes

abbrev pub state_version : ℕ
state_version = 1

abbrev pub new_state : ProjState
new_state = record {
  version = state_version;
  etag = [];
  mark = record { last_at = none; last_ids = [] };
  issues = [];
  anubis_streak = 0;
  anubis_warned = false;
  updated_at = 0;
}

abbrev pub anubis_warn_after : ℕ
anubis_warn_after = 3

abbrev pub is_unset : Option ℕ → Bool
is_unset none = true
is_unset (some t) = false

module _ (cfg : Config) where
  abbrev pub id_of : Entry → Bytes
  id_of e = e.id

  abbrev pub warning : ℕ → Bytes
  warning n =
      lit "["
      ++ cfg.name
      ++ lit "] I'm blocked by Anubis ("
      ++ cfg.format_int n
      ++ lit " consecutive polls). Help!"

  unfoldable pub handle_anubis : ℕ → ProjState → ProjState × List Bytes
  handle_anubis now st =
      let n = st.anubis_streak + 1 in
      let st1 = record st { anubis_streak = n; updated_at = now } in
      if leb anubis_warn_after n && not st.anubis_warned
      then (record st1 { anubis_warned = true }, warning n ∷ [])
      else (st1, [])

  abbrev pub remember_title : Option IssueTitle → Issues → Issues
  remember_title none issues = issues
  remember_title (some it) issues = remember cfg it issues

  -- The loop of seed over the titles.
  unfoldable pub remember_titles : List Entry → Issues → Issues
  unfolding parse_title remember
  remember_titles [] issues = issues
  remember_titles (e ∷ es) issues =
      remember_titles es (remember_title (parse_title cfg e.title) issues)

  abbrev seed_mark : List Entry → Watermark Bytes → Watermark Bytes
  seed_mark [] w = w
  seed_mark (e ∷ es) w =
      let m = max_time (entry_time cfg) 0 (e ∷ es) in
      record { last_at = some m; last_ids = ids_at (entry_time cfg) id_of m (e ∷ es) }

  unfoldable pub seed : List Entry → Bytes → ℕ → ProjState → ProjState
  unfolding remember_titles max_time ids_at
  seed entries etag now st = record st {
    issues = remember_titles entries st.issues;
    mark = seed_mark entries st.mark;
    etag = etag;
    updated_at = now;
  }

  -- The entries with a valid time.
  unfoldable pub timed : List Entry → List Entry
  timed [] = []
  timed (e ∷ es) = let rest = timed es in if eqb (entry_time cfg e) 0 then rest else e ∷ rest

  abbrev pub cleared : ProjState → ProjState
  cleared st = record st { anubis_streak = 0; anubis_warned = false }

  abbrev silent : ProjState → Polled
  silent st = record { state = st; acts = []; posts = [] }

  abbrev pub accepted_of : List Entry → ProjState → List Entry
  accepted_of entries st = accept (entry_time cfg) id_of ◌==◌ st.mark (timed entries)

  -- A poll of a feed that has changed, after the first run.
  unfoldable pub announced : ℕ → List Entry → Bytes → ProjState → Polled
  unfolding accept timed advance scan announce
  announced now entries etag st =
      let accepted = accepted_of entries st in
      let (issues1, acts) = scan cfg accepted st.issues in
      record {
        state = record st {
          issues = issues1;
          mark = advance (entry_time cfg) id_of accepted st.mark;
          etag = etag;
          updated_at = now;
        };
        acts = acts;
        posts = announce cfg acts;
      }

  unfoldable pub poll : ℕ → Fetch → ProjState → Polled
  unfolding handle_anubis seed announced
  poll now blocked st =
      let (st1, posts) = handle_anubis now st in record { state = st1; acts = []; posts = posts }
  poll now failed st = silent st
  poll now unchanged st = silent (record (cleared st) { updated_at = now })
  poll now (fetched entries etag) st =
      if is_unset st.mark.last_at && st.etag == []
      then silent (seed entries etag now (cleared st))
      else announced now entries etag (cleared st)

  -- Polls one after the other, all the activities that they announce, and all the posts.
  unfoldable pub run : List (ℕ × Fetch) → ProjState → ProjState × List Activity × List Bytes
  unfolding poll
  run [] st = (st, [], [])
  run ((now, f) ∷ polls) st =
      let p = poll now f st in
      let (st1, acts, later) = run polls p.state in (st1, p.acts ++ acts, p.posts ++ later)

-- What the file holds, none where it does not exist or cannot be read.
unfoldable pub load_state : Option ProjState → ProjState
load_state none = new_state
load_state (some st) = if eqb st.version state_version then st else new_state
