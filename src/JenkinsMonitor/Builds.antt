-- ===== src/JenkinsMonitor/Builds.antt =====
-- The builds of a job: pollJob, collapseCurrent and processBuild of jenkins-monitor/monitor.go. What
-- Jenkins answers is a parameter.
pub mod Streak
pub mod Posted
pub mod Retry
use dflybot.Prelude.{
  ℕ, zero, suc, ◌+◌, ◌-◌, Bool, true, false, ◌&&◌, ◌||◌, Option, none, some, List, [], ◌∷◌, ◌++◌,
  ◌≡◌, ◌⊎◌, inl, inr, refl, if◌then◌else◌, ltb, eqb,
}
use dflybot.Prelude.Bytes.{Bytes, ◌==◌, lit}
use dflybot.Prelude.Sorted.{lookup, insert}
use dflybot.JenkinsMonitor.{
  Health, ok, failed, unknown, JobState, Build, new_job, Note, failure, recovery, Effect, post, log,
  job_line, is_failure,
}

-- lastCompleted: an error, no completed build, or the latest one.
pub data Latest : Type 0 where
  latest_error : Latest
  never_built : Latest
  latest : Build → Latest

-- build: an error, none of that number, or the build.
pub data Reply : Type 0 where
  transient : Reply
  not_found : Reply
  found : Build → Reply

abbrev pub max_new_builds : ℕ
max_new_builds = 20

abbrev is_failed : Health → Bool
is_failed ok = false
is_failed failed = true
is_failed unknown = false

abbrev pub fail : Build → JobState → JobState
fail b st = record st { consecutive = st.consecutive + 1; state = failed; announced = b.number }

abbrev pub succeed : JobState → JobState
succeed st = record st { state = ok; consecutive = 0 }

unfoldable pub process_build : Bytes → Build → JobState → JobState × List Effect
unfolding is_failure
process_build job b st =
    if b.result == lit "SUCCESS"
    then (
      record (succeed st) { last_result = b.result; last_url = b.url },
      if is_failed st.state then post (recovery job b st.consecutive) ∷ [] else [],
    )
    else if is_failure b.result
    then (
      record (fail b st) { last_result = b.result; last_url = b.url },
      post (failure job b (st.consecutive + 1)) ∷ [],
    )
    else (st, [])

abbrev pub adopt : Build → JobState → JobState
adopt cur st = record st { last_result = cur.result; last_build = cur.number; last_url = cur.url }

unfoldable pub collapse_current : Bytes → Build → JobState → JobState × List Effect
unfolding is_failure
collapse_current job cur st =
    if is_failure cur.result
    then (adopt cur (fail cur st), post (failure job cur (st.consecutive + 1)) ∷ [])
    else if cur.result == lit "SUCCESS"
    then (adopt cur (succeed st), [])
    else (adopt cur st, [])

-- The loop over so many builds from the number `n` on, and whether no error ended it.
unfoldable pub process_from : Bytes → (ℕ → Reply) → ℕ → ℕ → JobState → JobState × List Effect × Bool
unfolding process_build
process_from job get zero n st = (st, [], true)
process_from job get (suc k) n st = elim (get n) [
  | transient ↦ (st, [], false)
  | not_found ↦ process_from job get k (n + 1) st
  | found b ↦
      let (st1, posts) = process_build job b st in
      let (st2, later, good) = process_from job get k (n + 1) st1 in (st2, posts ++ later, good)
]

abbrev with_line : Bytes → JobState × List Effect → JobState × List Effect × Bool
with_line job (st, posts) = (st, posts ++ log (job_line job st) ∷ [], true)

abbrev end_loop : Bytes → ℕ → JobState × List Effect × Bool → JobState × List Effect × Bool
end_loop job number (st, posts, false) = (st, posts, false)
end_loop job number (st, posts, true) = with_line job (record st { last_build = number }, posts)

-- A poll of a job whose state is there, once the latest build is known.
unfoldable pub poll_builds :
    Bytes → (ℕ → Reply) → Bool → Build → JobState → JobState × List Effect × Bool
unfolding collapse_current process_from
poll_builds job get first cur st =
    let gap = cur.number - st.last_build in
    let collapsed = with_line job (collapse_current job cur st) in
    let processed = process_from job get gap (st.last_build + 1) st in
    if eqb st.last_build cur.number
    then with_line job (st, [])
    else if first || eqb st.last_build 0
    then collapsed
    else if ltb max_new_builds gap
    then collapsed
    else end_loop job cur.number processed

abbrev pub Jobs : Type 0
Jobs = List (Bytes × JobState)

abbrev pub state_of : Option JobState → JobState
state_of none = new_job
state_of (some st) = st

-- The jobs afterwards, the effects, and whether there was no error.
unfoldable pub poll_job : ℕ → Bool → Bytes → Latest → (ℕ → Reply) → Jobs → Jobs × List Effect × Bool
unfolding poll_builds
poll_job now first job latest_error get jobs = (jobs, [], false)
poll_job now first job never_built get jobs = (jobs, [], true)
poll_job now first job (latest cur) get jobs =
    let st = record (state_of (lookup job jobs)) { last_seen = now } in
    let (st1, effects, good) = poll_builds job get first cur st in
    (insert job st1 jobs, effects, good)

pub Reply-cases : (r : Reply) → (r ≡ transient) ⊎ ((r ≡ not_found) ⊎ ((b : Build) × (r ≡ found b)))
Reply-cases transient = inl refl
Reply-cases not_found = inr (inl refl)
Reply-cases (found b) = inr (inr (b, refl))
