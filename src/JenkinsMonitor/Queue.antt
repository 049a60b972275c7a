-- ===== src/JenkinsMonitor/Queue.antt =====
-- The build queue: pollQueue of jenkins-monitor/monitor.go. Times are in milliseconds, and no age is
-- below 0.
pub mod Watched
use dflybot.Prelude.{
  ℕ, ◌-◌, ◌*◌, Bool, true, false, ◌||◌, Option, none, some, List, [], ◌∷◌, ◌++◌, if◌then◌else◌, leb,
  eqb,
}
use dflybot.Prelude.Bytes.{Bytes, ◌==◌, lit}
use dflybot.Prelude.Sorted.{lookup, insert}
use dflybot.JenkinsMonitor.{JobState, Config, Effect, post, log, queue_line, stuck, cleared}
use dflybot.JenkinsMonitor.Builds.{Jobs, state_of}

pub record Item : Type 0 where
  pub item_id : ℕ
  pub why : Bytes
  pub is_stuck : Bool
  pub is_blocked : Bool
  pub in_queue_since : ℕ
  pub task_name : Bytes

-- byJob: the last item of a job.
unfoldable pub by_job : Bytes → List Item → Option Item → Option Item
by_job name [] found = found
by_job name (it ∷ items) found = by_job name items (if it.task_name == name then some it else found)

abbrev pub default_queue_stuck_after : ℕ
default_queue_stuck_after = 300

unfoldable pub threshold : Config → ℕ
threshold cfg =
    1000
    * (if eqb cfg.queue_stuck_after 0 then default_queue_stuck_after else cfg.queue_stuck_after)

abbrev pub forget : JobState → JobState
forget st = record st { stuck_item_id = 0; stuck_since = 0; stuck_why = [] }

abbrev pub remember : Item → JobState → JobState
remember it st = record st {
  stuck_item_id = it.item_id;
  stuck_since = it.in_queue_since;
  stuck_why = it.why;
}

-- A job's part of the loop.
unfoldable pub watch : ℕ → ℕ → Bytes → Option Item → JobState → JobState × List Effect
watch limit now job none st = if eqb st.stuck_item_id 0 then (st, []) else (
  forget st,
  post (cleared job (now - st.stuck_since)) ∷ log (queue_line job (lit "cleared") []) ∷ [],
)
watch limit now job (some it) st =
    let age = now - it.in_queue_since in
    if it.is_blocked
    then (if eqb st.stuck_item_id 0 then st else forget st, [])
    else if eqb st.stuck_item_id it.item_id
    then (st, [])
    else if it.is_stuck || leb limit age
    then (
      remember it st,
      post (stuck job it.why age) ∷ log (queue_line job (lit "stuck") it.why) ∷ [],
    )
    else (st, [])

unfoldable pub watch_jobs : ℕ → ℕ → List Item → List Bytes → Jobs → Jobs × List Effect
unfolding watch by_job
watch_jobs limit now items [] jobs = (jobs, [])
watch_jobs limit now items (name ∷ names) jobs =
    let (st, effects) =
      watch limit now name (by_job name items none) (state_of (lookup name jobs)) in
    let (jobs1, later) = watch_jobs limit now items names (insert name st jobs) in
    (jobs1, effects ++ later)

-- The jobs afterwards, the effects, and whether there was no error.
unfoldable pub poll_queue : Config → ℕ → Option (List Item) → Jobs → Jobs × List Effect × Bool
unfolding watch_jobs threshold
poll_queue cfg now none jobs = (jobs, [], false)
poll_queue cfg now (some items) jobs =
    let (jobs1, effects) = watch_jobs (threshold cfg) now items cfg.jobs jobs in
    (jobs1, effects, true)
