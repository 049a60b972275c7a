-- ===== src/JenkinsMonitor/Tests.antt =====
-- The theorems of the Jenkins monitor at concrete inputs.
use dflybot.Prelude.{
  ℕ, ◌*◌, Bool, true, false, none, some, Option, List, [], ◌∷◌, ◌++◌, ◌≡◌, arith, refl,
  if◌then◌else◌, eqb, All, not, ◌&&◌, eqb,
}
use dflybot.Prelude.Bytes.{Bytes, ◌==◌, lit}
use dflybot.JenkinsMonitor.{ok, JobState, new_job, Build, Config, failure, Effect, post, is_failure}
use dflybot.JenkinsMonitor.Builds.{latest, Reply, transient, not_found, found, poll_builds}
use dflybot.JenkinsMonitor.Builds.Posted.{
  builds_of, failed_in, failing, streak, NoError, poll_builds_posts,
}
use dflybot.JenkinsMonitor.Builds.Retry.{poll_builds_repeats}
use dflybot.JenkinsMonitor.Builds.Streak.{CountedPost}
use dflybot.JenkinsMonitor.Nodes.{Node, node_wanted}
use dflybot.JenkinsMonitor.Nodes.Alternate.{
  run_nodes, changes, answers as said, last_known, is_offline, reports, run_nodes-alternate,
}
use dflybot.JenkinsMonitor.Queue.{Item, watch}
use dflybot.JenkinsMonitor.Queue.Watched.{
  run_watch, is_due, count_stuck, count_cleared, run_watch-once,
}
use dflybot.JenkinsMonitor.Poll.{Answers, Event, polled, restarted, crashed, start, run}
use dflybot.JenkinsMonitor.Poll.Counted.{MonitorIsCounted, run-IsCounted}

abbrev cfg : Config
cfg = record {
  name = lit "ci";
  jobs = lit "world" ∷ [];
  nodes = lit "n1" ∷ [];
  queue_stuck_after = 0;
  shortener = none;
  trim = λ s. s;
  fields = λ s. s ∷ [];
  equal_fold = ◌==◌;
  digits = λ n. 48 ∷ [];
}

abbrev build_of : ℕ → Bytes → Build
build_of n result = record { number = n; result = result; url = [] }

abbrev failed_build : Build
failed_build = build_of 6 (lit "FAILURE")

-- Build 6 failed, 7 is gone, and the others succeeded.
abbrev builds : ℕ → Reply
builds n =
    if eqb n 6
    then found failed_build
    else if eqb n 7
    then not_found
    else found (build_of n (lit "SUCCESS"))

-- The same, while the request for build 7 fails.
abbrev broken : ℕ → Reply
broken n = if eqb n 7 then transient else builds n

abbrev at_five : JobState
at_five = record new_job { state = ok; last_build = 5 }

builds_answer : NoError builds 3 6
builds_answer n a b = λ e. ground (arith, e)

poll_builds_posts_example :
    let p = poll_builds (lit "world") builds false (build_of 8 (lit "SUCCESS")) at_five in
    let new_builds = builds_of builds 3 6 in
    (p.2 ≡ true)
    × (failed_in p.1 ≡ failing new_builds)
    × (p.0.consecutive ≡ streak 0 new_builds)
    × (p.0.last_build ≡ 8)
poll_builds_posts_example =
    poll_builds_posts (lit "world") builds (build_of 8 (lit "SUCCESS")) at_five (omega arith)
      (omega arith) (omega arith) builds_answer

fails : is_failure (lit "FAILURE") ≡ true
unfolding is_failure ◌==◌
fails = refl

-- Build 6 is announced by both polls.
poll_builds_repeats_example :
    let p = poll_builds (lit "world") broken false (build_of 8 (lit "SUCCESS")) at_five in
    let q = poll_builds (lit "world") builds false (build_of 8 (lit "SUCCESS")) p.0 in
    (p.1 ≡ post (failure (lit "world") failed_build 1) ∷ [])
    × (p.2 ≡ false)
    × ((rest : List Effect) × (q.1 ≡ post (failure (lit "world") failed_build 2) ∷ rest))
poll_builds_repeats_example =
    poll_builds_repeats (lit "world") broken builds (build_of 8 (lit "SUCCESS")) failed_build
      at_five (omega arith) (omega arith) (omega arith) fails refl refl refl

abbrev computer : Bool → Node
computer offline = record { display_name = lit "n1"; offline = offline; cause = [] }

abbrev node_polls : List (ℕ × Option (List Node))
node_polls =
    (1, some (computer true ∷ []))
    ∷ (2, none)
    ∷ (3, some (computer true ∷ []))
    ∷ (4, some (computer false ∷ []))
    ∷ []

n1_wanted : node_wanted cfg (lit "n1") ≡ true
unfolding node_wanted ◌==◌
n1_wanted = refl

run_nodes-alternate_example :
    let r = run_nodes cfg node_polls [] in
    (reports (lit "n1") r.1 ≡ changes (is_offline (lit "n1") []) (said (lit "n1") node_polls))
    × (is_offline (lit "n1") r.0
        ≡ last_known (is_offline (lit "n1") []) (said (lit "n1") node_polls))
run_nodes-alternate_example = run_nodes-alternate cfg (lit "n1") node_polls [] n1_wanted

abbrev item : Item
item = record {
  item_id = 4;
  why = lit "waiting";
  is_stuck = false;
  is_blocked = false;
  in_queue_since = 0;
  task_name = lit "world";
}

abbrev queue_polls : List (ℕ × Item)
queue_polls = (100, item) ∷ (500, item) ∷ (900, item) ∷ []

run_watch-once_example :
    let p = run_watch 400 (lit "world") queue_polls new_job in
    let q = watch 400 1000 (lit "world") none p.0 in
    (count_stuck p.1
      ≡ (if not (eqb new_job.stuck_item_id 4) && is_due 400 queue_polls then 1 else 0))
    × (count_cleared (p.1 ++ q.1) ≡ (if eqb new_job.stuck_item_id 0 then count_stuck p.1 else 1))
    × (count_stuck q.1 ≡ 0)
    × (q.0.stuck_item_id ≡ 0)
run_watch-once_example =
    run_watch-once 400 4 1000 (lit "world") queue_polls new_job (λ e. ground (arith, e))
      ((refl, refl), ((refl, refl), ((refl, refl), tt)))

abbrev answers : ℕ → Answers
answers n = record {
  now = n;
  now_milli = 1000 * n;
  last_completed = λ name. latest (build_of n (lit "FAILURE"));
  build = λ name k. found (build_of k (lit "FAILURE"));
  computers = some [];
  queue_items = some [];
}

abbrev events : List Event
events =
    polled true (answers 3)
    ∷ polled false (answers 5)
    ∷ crashed
    ∷ polled true (answers 6)
    ∷ restarted true
    ∷ polled true (answers 7)
    ∷ []

run-IsCounted_example :
    let r = run cfg events (start none) in MonitorIsCounted r.0 × All CountedPost r.1
run-IsCounted_example = run-IsCounted cfg events
