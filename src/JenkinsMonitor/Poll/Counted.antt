-- ===== src/JenkinsMonitor/Poll/Counted.antt =====
-- The counts of failures through polls, restarts and crashes (JenkinsMonitor/Poll).
use dflybot.Prelude.{
  ℕ, ◌-◌, Bool, true, false, ◌&&◌, ◌||◌, Option, none, some, List, [], ◌∷◌, ◌++◌, inl, inr, eqb,
  leb, All, All-append, Bool-cases,
}
use dflybot.Prelude.Bytes.{Bytes}
use dflybot.Prelude.Sorted.{lookup, insert, All-insert}
use dflybot.JenkinsMonitor.{MonitorState, JobState, Config, Effect}
use dflybot.JenkinsMonitor.Builds.{Jobs, state_of, poll_job}
use dflybot.JenkinsMonitor.Builds.Streak.{
  IsCounted, CountedPost, poll_job-IsCounted, state_of-IsCounted,
}
use dflybot.JenkinsMonitor.Nodes.{
  Node, Nodes, update_node, poll_node, poll_computers, poll_answer, with_nodes, poll_nodes,
  node_wanted,
}
use dflybot.JenkinsMonitor.Queue.{Item, by_job, threshold, watch, watch_jobs, poll_queue}
use dflybot.JenkinsMonitor.Poll.{
  Answers, Monitor, poll_jobs, save_state, end_poll, poll, load_state, start, Event, polled,
  restarted, crashed, step, run, state_version,
}

abbrev pub AreCounted : Jobs → Type 0
AreCounted jobs = All (λ j. IsCounted j.1) jobs

abbrev FileIsCounted : Option MonitorState → Type 0
FileIsCounted none = Unit
FileIsCounted (some st) = AreCounted st.jobs

-- The counts are right in the state and in the file.
abbrev pub MonitorIsCounted : Monitor → Type 0
MonitorIsCounted m = AreCounted m.state.jobs × FileIsCounted m.file

poll_jobs-IsCounted :
    (a : Answers) (first : Bool) (names : List Bytes) (jobs : Jobs)
    → AreCounted jobs
    → AreCounted (poll_jobs a first names jobs).0 × All CountedPost (poll_jobs a first names jobs).1
unfolding poll_jobs
poll_jobs-IsCounted a first [] jobs h = (h, tt)
poll_jobs-IsCounted a first (name ∷ names) jobs h =
    let p = poll_job a.now first name (a.last_completed name) (a.build name) jobs in
    let (c, e) =
      poll_job-IsCounted a.now first name (a.last_completed name) (a.build name) jobs h in
    let (c1, e1) = poll_jobs-IsCounted a first names p.0 c in
    (c1, All-append CountedPost p.1 (poll_jobs a first names p.0).1 e e1)

update_node-CountedPost :
    (now : ℕ) (n : Node) (st : _) (b : Bool) → All CountedPost (update_node now n st b).1
update_node-CountedPost now n none true = (tt, (tt, tt))
update_node-CountedPost now n none false = tt
update_node-CountedPost now n (some st) true = elim (Bool-cases st.offline) [
  | inl e ↦ rw e tt
  | inr e ↦ rw e (tt, (tt, tt))
]
update_node-CountedPost now n (some st) false = elim (Bool-cases st.offline) [
  | inl e ↦ rw e (tt, (tt, tt))
  | inr e ↦ rw e tt
]

poll_computers-CountedPost :
    (cfg : Config) (now : ℕ) (computers : List Node) (nodes : Nodes)
    → All CountedPost (poll_computers cfg now computers nodes).1
unfolding poll_computers poll_node
poll_computers-CountedPost cfg now [] nodes = tt
poll_computers-CountedPost cfg now (n ∷ computers) nodes =
    elim (Bool-cases (node_wanted cfg n.display_name)) [
      | inl e ↦
          let r = poll_node now n nodes in
          rw (e, poll_computers)
            (All-append CountedPost r.1 (poll_computers cfg now computers r.0).1
              (update_node-CountedPost now n (lookup n.display_name nodes) n.offline)
              (poll_computers-CountedPost cfg now computers r.0))
      | inr e ↦ rw (e, poll_computers) (poll_computers-CountedPost cfg now computers nodes)
    ]

poll_answer-CountedPost :
    (cfg : Config) (now : ℕ) (computers : Option (List Node)) (nodes : Nodes)
    → All CountedPost (poll_answer cfg now computers nodes).1
poll_answer-CountedPost cfg now none nodes = tt
poll_answer-CountedPost cfg now (some computers) nodes =
    poll_computers-CountedPost cfg now computers nodes

with_nodes-CountedPost :
    (ns : List Bytes) (nodes : Nodes) (r : Nodes × List Effect × Bool)
    → All CountedPost r.1
    → All CountedPost (with_nodes ns nodes r).1
with_nodes-CountedPost [] nodes r h = tt
with_nodes-CountedPost (n ∷ ns) nodes r h = h

watch-IsCounted :
    (limit now : ℕ) (job : Bytes) (found : Option Item) (st : JobState)
    → IsCounted st
    → IsCounted (watch limit now job found st).0 × All CountedPost (watch limit now job found st).1
unfolding watch
watch-IsCounted limit now job none st c = elim (Bool-cases (eqb st.stuck_item_id 0)) [
  | inl e ↦ rw (e, watch) (c, tt)
  | inr e ↦ rw (e, watch) (c, (tt, (tt, tt)))
]
watch-IsCounted limit now job (some it) st c = elim (Bool-cases it.is_blocked) [
  | inl b ↦ elim (Bool-cases (eqb st.stuck_item_id 0)) [
    | inl e ↦ rw (b, e, watch) (c, tt)
    | inr e ↦ rw (b, e, watch) (c, tt)
  ]
  | inr b ↦ elim (Bool-cases (eqb st.stuck_item_id it.item_id)) [
    | inl e ↦ rw (b, e, watch) (c, tt)
    | inr e ↦ elim (Bool-cases (it.is_stuck || leb limit (now - it.in_queue_since))) [
      | inl d ↦ rw (b, e, d, watch) (c, (tt, (tt, tt)))
      | inr d ↦ rw (b, e, d, watch) (c, tt)
    ]
  ]
]

watch_jobs-IsCounted :
    (limit now : ℕ) (items : List Item) (names : List Bytes) (jobs : Jobs)
    → AreCounted jobs
    → AreCounted (watch_jobs limit now items names jobs).0
      × All CountedPost (watch_jobs limit now items names jobs).1
unfolding watch_jobs
watch_jobs-IsCounted limit now items [] jobs h = (h, tt)
watch_jobs-IsCounted limit now items (name ∷ names) jobs h =
    let st = state_of (lookup name jobs) in
    let p = watch limit now name (by_job name items none) st in
    let (c, e) =
      watch-IsCounted limit now name (by_job name items none) st (state_of-IsCounted name jobs h) in
    let jobs1 = insert name p.0 jobs in
    let (c1, e1) =
      watch_jobs-IsCounted limit now items names jobs1 (All-insert _ name p.0 jobs c h) in
    (c1, All-append CountedPost p.1 (watch_jobs limit now items names jobs1).1 e e1)

poll_queue-IsCounted :
    (cfg : Config) (now : ℕ) (items : Option (List Item)) (jobs : Jobs)
    → AreCounted jobs
    → AreCounted (poll_queue cfg now items jobs).0
      × All CountedPost (poll_queue cfg now items jobs).1
unfolding poll_queue
poll_queue-IsCounted cfg now none jobs h = (h, tt)
poll_queue-IsCounted cfg now (some items) jobs h =
    watch_jobs-IsCounted (threshold cfg) now items cfg.jobs jobs h

end_poll-IsCounted :
    (writes good : Bool) (m : Monitor)
    → MonitorIsCounted m
    → MonitorIsCounted (end_poll writes good m)
unfolding save_state
end_poll-IsCounted true true m (h, k) = (h, h)
end_poll-IsCounted false true m (h, k) = (h, k)
end_poll-IsCounted writes false m h = h

poll-IsCounted :
    (cfg : Config) (writes : Bool) (a : Answers) (m : Monitor)
    → MonitorIsCounted m
    → MonitorIsCounted (poll cfg writes a m).0 × All CountedPost (poll cfg writes a m).1
unfolding poll poll_nodes
poll-IsCounted cfg writes a m (h, k) =
    let r1 = poll_jobs a m.first_poll cfg.jobs m.state.jobs in
    let r2 = poll_nodes cfg a.now a.computers m.state.nodes in
    let r3 = poll_queue cfg a.now_milli a.queue_items r1.0 in
    let (c1, e1) = poll_jobs-IsCounted a m.first_poll cfg.jobs m.state.jobs h in
    let e2 =
      with_nodes-CountedPost cfg.nodes m.state.nodes
        (poll_answer cfg a.now a.computers m.state.nodes)
        (poll_answer-CountedPost cfg a.now a.computers m.state.nodes) in
    let (c3, e3) = poll_queue-IsCounted cfg a.now_milli a.queue_items r1.0 c1 in
    let m1 = record m { state = record m.state { jobs = r3.0; nodes = r2.0 } } in
    (
      end_poll-IsCounted writes (r1.2 && r2.2 && r3.2) m1 (c3, k),
      All-append CountedPost (r1.1 ++ r2.1) r3.1 (All-append CountedPost r1.1 r2.1 e1 e2) e3,
    )

start-IsCounted : (file : Option MonitorState) → FileIsCounted file → MonitorIsCounted (start file)
unfolding start load_state
start-IsCounted none h = (tt, tt)
start-IsCounted (some st) h = elim (Bool-cases (eqb st.version state_version)) [
  | inl e ↦ rw (e, start, load_state) (h, h)
  | inr e ↦ rw (e, start, load_state) (tt, h)
]

step-IsCounted :
    (cfg : Config) (e : Event) (m : Monitor)
    → MonitorIsCounted m
    → MonitorIsCounted (step cfg e m).0 × All CountedPost (step cfg e m).1
unfolding step save_state
step-IsCounted cfg (polled writes a) m h = poll-IsCounted cfg writes a m h
step-IsCounted cfg (restarted true) m (h, k) = (start-IsCounted (some m.state) h, tt)
step-IsCounted cfg (restarted false) m (h, k) = (start-IsCounted m.file k, tt)
step-IsCounted cfg crashed m (h, k) = (start-IsCounted m.file k, tt)

run_from-IsCounted :
    (cfg : Config) (es : List Event) (m : Monitor)
    → MonitorIsCounted m
    → MonitorIsCounted (run cfg es m).0 × All CountedPost (run cfg es m).1
unfolding run
run_from-IsCounted cfg [] m h = (h, tt)
run_from-IsCounted cfg (e ∷ es) m h =
    let p = step cfg e m in
    let (c, k) = step-IsCounted cfg e m h in
    let (c1, k1) = run_from-IsCounted cfg es p.0 c in
    (c1, All-append CountedPost p.1 (run cfg es p.0).1 k k1)

-- From a new monitor, through all polls, restarts and crashes, whatever Jenkins answers and whether or
-- not the file can be written, the count of failures in a row stays right for each job: it is not 0
-- if and only if the job is failed. So no post of a recovery, or of a failure, counts no failure.
pub run-IsCounted :
    (cfg : Config) (es : List Event)
    → let r = run cfg es (start none) in MonitorIsCounted r.0 × All CountedPost r.1
run-IsCounted cfg es = run_from-IsCounted cfg es (start none) (start-IsCounted none tt)
