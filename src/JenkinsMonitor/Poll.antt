-- ===== src/JenkinsMonitor/Poll.antt =====
-- A poll of everything, and the life of a monitor: poll, loadState, saveState and Start of
-- jenkins-monitor/monitor.go. Whether a file can be written is a part of the events.
pub mod Counted
use dflybot.Prelude.{
  ℕ, Bool, true, false, ◌&&◌, Option, none, some, List, [], ◌∷◌, ◌++◌, if◌then◌else◌, eqb,
}
use dflybot.Prelude.Bytes.{Bytes}
use dflybot.JenkinsMonitor.{MonitorState, Config, Effect}
use dflybot.JenkinsMonitor.Builds.{Latest, Reply, Jobs, poll_job}
use dflybot.JenkinsMonitor.Nodes.{Node, poll_nodes}
use dflybot.JenkinsMonitor.Queue.{Item, poll_queue}

-- What Jenkins answers during a poll, at a time in seconds and in milliseconds.
pub record Answers : Type 0 where
  pub now : ℕ
  pub now_milli : ℕ
  pub last_completed : Bytes → Latest
  pub build : Bytes → ℕ → Reply
  pub computers : Option (List Node)
  pub queue_items : Option (List Item)

-- The monitor, with what its state file holds.
pub record Monitor : Type 0 where
  pub first_poll : Bool
  pub state : MonitorState
  pub file : Option MonitorState

abbrev pub state_version : ℕ
state_version = 1

abbrev pub new_state : MonitorState
new_state = record { version = state_version; jobs = []; nodes = [] }

unfoldable pub poll_jobs : Answers → Bool → List Bytes → Jobs → Jobs × List Effect × Bool
unfolding poll_job
poll_jobs a first [] jobs = (jobs, [], true)
poll_jobs a first (name ∷ names) jobs =
    let (jobs1, effects, good) =
      poll_job a.now first name (a.last_completed name) (a.build name) jobs in
    let (jobs2, later, all_good) = poll_jobs a first names jobs1 in
    (jobs2, effects ++ later, good && all_good)

-- saveState.
unfoldable pub save_state : Bool → Monitor → Monitor
save_state writes m = if writes then record m { file = some m.state } else m

-- The state is saved, and the first poll is over, after a poll without an error.
abbrev pub end_poll : Bool → Bool → Monitor → Monitor
end_poll writes true m = save_state writes (record m { first_poll = false })
end_poll writes false m = m

unfoldable pub poll : Config → Bool → Answers → Monitor → Monitor × List Effect
unfolding poll_jobs poll_nodes poll_queue save_state
poll cfg writes a m =
    let (jobs1, effects1, good1) = poll_jobs a m.first_poll cfg.jobs m.state.jobs in
    let (nodes1, effects2, good2) = poll_nodes cfg a.now a.computers m.state.nodes in
    let (jobs2, effects3, good3) = poll_queue cfg a.now_milli a.queue_items jobs1 in
    let m1 = record m { state = record m.state { jobs = jobs2; nodes = nodes1 } } in
    (end_poll writes (good1 && good2 && good3) m1, effects1 ++ effects2 ++ effects3)

unfoldable pub load_state : Option MonitorState → MonitorState
load_state none = new_state
load_state (some st) = if eqb st.version state_version then st else new_state

-- The start of Start.
unfoldable pub start : Option MonitorState → Monitor
unfolding load_state
start file = record { first_poll = true; state = load_state file; file = file }

-- A poll; the end of Start, which saves the state, and a new start; a start after a crash.
pub data Event : Type 0 where
  polled : Bool → Answers → Event
  restarted : Bool → Event
  crashed : Event

unfoldable pub step : Config → Event → Monitor → Monitor × List Effect
unfolding poll save_state start
step cfg (polled writes a) m = poll cfg writes a m
step cfg (restarted writes) m = (start (save_state writes m).file, [])
step cfg crashed m = (start m.file, [])

unfoldable pub run : Config → List Event → Monitor → Monitor × List Effect
unfolding step
run cfg [] m = (m, [])
run cfg (e ∷ es) m = let p = step cfg e m in let (m1, later) = run cfg es p.0 in (m1, p.1 ++ later)
