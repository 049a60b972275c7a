-- ===== src/JenkinsMonitor/Queue/Watched.antt =====
-- How often pollQueue of jenkins-monitor/monitor.go announces an item of the queue.
use dflybot.Prelude.{
  ℕ, ◌+◌, ◌-◌, Bool, false, not, ◌&&◌, ◌||◌, none, some, List, [], ◌∷◌, ◌++◌, ◌≡◌, ◌≢◌, arith,
  if◌then◌else◌, leb, eqb, All,
}
use dflybot.Prelude.Bytes.{Bytes}
use dflybot.JenkinsMonitor.{
  JobState, Note, failure, recovery, node_offline, node_online, stuck, cleared, Effect, post, log,
}
use dflybot.JenkinsMonitor.Queue.{Item, watch}

abbrev stuck_note : Note → ℕ
stuck_note (failure job b n) = 0
stuck_note (recovery job b n) = 0
stuck_note (node_offline name reason) = 0
stuck_note (node_online name) = 0
stuck_note (stuck job why age) = 1
stuck_note (cleared job age) = 0

abbrev cleared_note : Note → ℕ
cleared_note (failure job b n) = 0
cleared_note (recovery job b n) = 0
cleared_note (node_offline name reason) = 0
cleared_note (node_online name) = 0
cleared_note (stuck job why age) = 0
cleared_note (cleared job age) = 1

unfoldable pub count_stuck : List Effect → ℕ
count_stuck [] = 0
count_stuck (post n ∷ es) = stuck_note n + count_stuck es
count_stuck (log h ∷ es) = count_stuck es

unfoldable pub count_cleared : List Effect → ℕ
count_cleared [] = 0
count_cleared (post n ∷ es) = cleared_note n + count_cleared es
count_cleared (log h ∷ es) = count_cleared es

-- Polls one after the other, by the time and the item of a job that is in the queue.
unfoldable pub run_watch : ℕ → Bytes → List (ℕ × Item) → JobState → JobState × List Effect
unfolding watch
run_watch limit job [] st = (st, [])
run_watch limit job ((now, it) ∷ polls) st =
    let p = watch limit now job (some it) st in
    let (st1, later) = run_watch limit job polls p.0 in (st1, p.1 ++ later)

-- At one of the polls the item is marked as stuck or old enough.
unfoldable pub is_due : ℕ → List (ℕ × Item) → Bool
is_due limit [] = false
is_due limit ((now, it) ∷ polls) =
    it.is_stuck || leb limit (now - it.in_queue_since) || is_due limit polls

-- The same item waits at all the polls.
abbrev pub Waits : ℕ → ℕ × Item → Type 0
Waits i (now, it) = (it.item_id ≡ i) × (it.is_blocked ≡ false)

count_stuck-append :
    (xs ys : List Effect) → count_stuck (xs ++ ys) ≡ count_stuck xs + count_stuck ys
unfolding count_stuck
count_stuck-append [] ys = omega arith
count_stuck-append (post n ∷ xs) ys = omega (arith, count_stuck-append xs ys)
count_stuck-append (log h ∷ xs) ys = count_stuck-append xs ys

count_cleared-append :
    (xs ys : List Effect) → count_cleared (xs ++ ys) ≡ count_cleared xs + count_cleared ys
unfolding count_cleared
count_cleared-append [] ys = omega arith
count_cleared-append (post n ∷ xs) ys = omega (arith, count_cleared-append xs ys)
count_cleared-append (log h ∷ xs) ys = count_cleared-append xs ys

abbrev is_at : ℕ → ℕ × Item → Bool
is_at limit (now, it) = it.is_stuck || leb limit (now - it.in_queue_since)

watch-Waits :
    (limit now : ℕ) (job : Bytes) (it : Item) (st : JobState)
    → it.is_blocked ≡ false
    → let p = watch limit now job (some it) st in
      let announces = not (eqb st.stuck_item_id it.item_id) && is_at limit (now, it) in
      (count_stuck p.1 ≡ (if announces then 1 else 0))
      × (count_cleared p.1 ≡ 0)
      × (p.0.stuck_item_id ≡ (if announces then it.item_id else st.stuck_item_id))
unfolding watch count_stuck count_cleared
watch-Waits limit now job it st b = ground (arith, b)

run_watch-Waits :
    (limit i : ℕ) (job : Bytes) (polls : List (ℕ × Item)) (st : JobState)
    → All (Waits i) polls
    → let p = run_watch limit job polls st in
      let announces = not (eqb st.stuck_item_id i) && is_due limit polls in
      (count_stuck p.1 ≡ (if announces then 1 else 0))
      × (count_cleared p.1 ≡ 0)
      × (p.0.stuck_item_id ≡ (if announces then i else st.stuck_item_id))
unfolding run_watch count_stuck count_cleared is_due
run_watch-Waits limit i job [] st h = ground arith
run_watch-Waits limit i job ((now, it) ∷ polls) st ((e, b), h) =
    let p = watch limit now job (some it) st in
    let later = (run_watch limit job polls p.0).1 in
    ground (
      arith,
      e,
      watch-Waits limit now job it st b,
      run_watch-Waits limit i job polls p.0 h,
      count_stuck-append p.1 later,
      count_cleared-append p.1 later,
    )

-- An item that all the polls find in the queue, not blocked and with an id that is not 0: it is
-- announced as stuck once, however many polls there are, if at one of them it is marked or old
-- enough and it is not the one that was remembered as stuck before; else not at all. When the next
-- poll finds no item of the job, the queue is announced as cleared, once, if this item was announced
-- or some item was remembered before, and else not.
pub run_watch-once :
    (limit i now : ℕ) (job : Bytes) (polls : List (ℕ × Item)) (st : JobState)
    → i ≢ 0
    → All (Waits i) polls
    → let p = run_watch limit job polls st in
      let q = watch limit now job none p.0 in
      (count_stuck p.1 ≡ (if not (eqb st.stuck_item_id i) && is_due limit polls then 1 else 0))
      × (count_cleared (p.1 ++ q.1) ≡ (if eqb st.stuck_item_id 0 then count_stuck p.1 else 1))
      × (count_stuck q.1 ≡ 0)
      × (q.0.stuck_item_id ≡ 0)
unfolding watch count_stuck count_cleared
run_watch-once limit i now job polls st n h =
    let p = run_watch limit job polls st in
    let q = watch limit now job none p.0 in
    ground (arith, n, run_watch-Waits limit i job polls st h, count_cleared-append p.1 q.1)
