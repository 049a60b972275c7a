-- ===== src/GithubMonitor/Poll.antt =====
-- A poll of a repository and the state that it keeps: poll, loadState and saveState of RepoMonitor in
-- github-monitor/monitor.go.
pub mod Once
pub mod Found
use dflybot.Prelude.{
  ℕ, Bool, true, false, ◌&&◌, Option, none, some, List, [], ◌∷◌, ◌++◌, if◌then◌else◌, eqb,
}
use dflybot.Prelude.Bytes.{Bytes, ◌==◌}
use dflybot.Feed.{Watermark, last_time, max_time, ids_at, advance, accept}
use dflybot.GithubMonitor.{Config, GhEvent, Activity, event_time, classify}
use dflybot.GithubMonitor.Posts.{announce}

-- last_event_at and last_event_ids are the watermark.
pub record RepoState : Type 0 where
  pub version : ℕ
  pub etag : Bytes
  pub mark : Watermark ℕ
  pub updated_at : ℕ

-- What fetchEvents returns: an error, no modification, or the events and the ETag.
pub data Fetch : Type 0 where
  failed : Fetch
  unchanged : Fetch
  fetched : List GhEvent → Bytes → Fetch

-- A state, the activities that are announced, their posts and the lines of the history, each with
-- the time of its event.
pub record Polled : Type 0 where
  pub state : RepoState
  pub acts : List Activity
  pub posts : List Bytes
  pub history : List (ℕ × Activity)

abbrev pub state_version : ℕ
state_version = 2

abbrev pub new_state : RepoState
new_state = record {
  version = state_version;
  etag = [];
  mark = record { last_at = none; last_ids = [] };
  updated_at = 0;
}

abbrev is_none : Option ℕ → Bool
is_none none = true
is_none (some t) = false

-- Never seeded: not with a time, nor with the ETag of a repository without events.
unfoldable pub is_first : RepoState → Bool
is_first st = is_none st.mark.last_at && st.etag == []

module _ (cfg : Config) where
  abbrev pub id_of : GhEvent → ℕ
  id_of e = e.event_id

  -- The watermark of the first list.
  unfoldable pub seed_mark : List GhEvent → Watermark ℕ → Watermark ℕ
  unfolding max_time ids_at
  seed_mark [] w = w
  seed_mark (e ∷ es) w =
      let m = max_time (event_time cfg) (event_time cfg e) es in
      record { last_at = some m; last_ids = ids_at (event_time cfg) id_of m (e ∷ es) }

  abbrev add_act : Option Activity → List Activity → List Activity
  add_act none acts = acts
  add_act (some a) acts = a ∷ acts

  unfoldable pub activities : List GhEvent → List Activity
  unfolding classify
  activities [] = []
  activities (e ∷ es) = add_act (classify cfg e) (activities es)

  -- The time of the last event of an id.
  unfoldable pub id_time : List GhEvent → ℕ → ℕ → ℕ
  id_time [] id t = t
  id_time (e ∷ es) id t = id_time es id (if eqb e.event_id id then event_time cfg e else t)

  unfoldable pub history_lines : List GhEvent → List Activity → List (ℕ × Activity)
  unfolding id_time
  history_lines es [] = []
  history_lines es (a ∷ acts) = (id_time es a.event_id 0, a) ∷ history_lines es acts

  abbrev silent : RepoState → Polled
  silent st = record { state = st; acts = []; posts = []; history = [] }

  -- The state that is saved: with the list's ETag, at this time.
  abbrev pub saved : Bytes → ℕ → Watermark ℕ → RepoState → RepoState
  saved etag now w st = record st { etag = etag; mark = w; updated_at = now }

  unfoldable pub announced : List GhEvent → RepoState → Polled
  unfolding activities announce history_lines
  announced accepted st =
      let acts = activities accepted in
      record {
        state = st;
        acts = acts;
        posts = announce cfg acts;
        history = history_lines accepted acts;
      }

  unfoldable pub poll : ℕ → Fetch → RepoState → Polled
  unfolding is_first seed_mark accept advance announced
  poll now failed st = silent st
  poll now unchanged st = silent st
  poll now (fetched events etag) st =
      let accepted = accept (event_time cfg) id_of eqb st.mark events in
      if is_first st
      then silent (saved etag now (seed_mark events st.mark) st)
      else announced accepted (saved etag now (advance (event_time cfg) id_of accepted st.mark) st)

  -- Polls one after the other, and all the activities that they announce.
  unfoldable pub run : List (ℕ × Fetch) → RepoState → RepoState × List Activity
  unfolding poll
  run [] st = (st, [])
  run ((now, f) ∷ polls) st =
      let p = poll now f st in let (st1, later) = run polls p.state in (st1, p.acts ++ later)

-- What the file holds, none where it does not exist or cannot be read.
unfoldable pub load_state : Option RepoState → RepoState
load_state none = new_state
load_state (some st) = if eqb st.version state_version then st else new_state
