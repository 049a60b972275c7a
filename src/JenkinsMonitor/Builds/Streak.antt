-- ===== src/JenkinsMonitor/Builds/Streak.antt =====
-- The count of failures in a row in a poll of a job (JenkinsMonitor/Builds).
use dflybot.Prelude.{
  ℕ, zero, suc, ◌+◌, ◌-◌, ◌<◌, Bool, true, false, ◌||◌, List, ◌≡◌, inl, inr, arith, refl, ltb, eqb,
  All, All-append, Bool-cases, Option-cases,
}
use dflybot.Prelude.Bytes.{Bytes, ◌==◌, lit}
use dflybot.Prelude.Sorted.{lookup, All-insert, All-lookup}
use dflybot.JenkinsMonitor.{
  JobState, Build, Note, failure, recovery, node_offline, node_online, stuck, cleared, Effect, post,
  log, is_failure,
}
use dflybot.JenkinsMonitor.Builds.{
  Latest, latest_error, never_built, latest, Reply, max_new_builds, is_failed, process_build,
  collapse_current, process_from, with_line, end_loop, poll_builds, Jobs, state_of, poll_job,
  Reply-cases,
}

-- A job is failed if and only if failures are counted.
abbrev pub IsCounted : JobState → Type 0
IsCounted st = is_failed st.state ≡ ltb 0 st.consecutive

abbrev CountedNote : Note → Type 0
CountedNote (failure job b n) = 0 < n
CountedNote (recovery job b n) = 0 < n
CountedNote (node_offline name reason) = Unit
CountedNote (node_online name) = Unit
CountedNote (stuck job why age) = Unit
CountedNote (cleared job age) = Unit

-- A post about a build counts one failure at least.
abbrev pub CountedPost : Effect → Type 0
CountedPost (post n) = CountedNote n
CountedPost (log h) = Unit

abbrev AreCounted : JobState × List Effect × Bool → Type 0
AreCounted (st, posts, good) = IsCounted st × All CountedPost posts

process_build-IsCounted :
    (job : Bytes) (b : Build) (st : JobState)
    → IsCounted st
    → IsCounted (process_build job b st).0 × All CountedPost (process_build job b st).1
unfolding process_build
process_build-IsCounted job b st c = elim (Bool-cases (b.result == lit "SUCCESS")) [
  | inl e ↦ elim (Bool-cases (is_failed st.state)) [
    | inl f ↦ rw (e, f, process_build) (refl, (ground (arith, c, f), tt))
    | inr f ↦ rw (e, f, process_build) (refl, tt)
  ]
  | inr e ↦ elim (Bool-cases (is_failure b.result)) [
    | inl f ↦ rw (e, f, process_build) (ground arith, (omega arith, tt))
    | inr f ↦ rw (e, f, process_build) (c, tt)
  ]
]

collapse_current-IsCounted :
    (job : Bytes) (b : Build) (st : JobState)
    → IsCounted st
    → IsCounted (collapse_current job b st).0 × All CountedPost (collapse_current job b st).1
unfolding collapse_current
collapse_current-IsCounted job b st c = elim (Bool-cases (is_failure b.result)) [
  | inl f ↦ rw (f, collapse_current) (ground arith, (omega arith, tt))
  | inr f ↦ elim (Bool-cases (b.result == lit "SUCCESS")) [
    | inl e ↦ rw (f, e, collapse_current) (refl, tt)
    | inr e ↦ rw (f, e, collapse_current) (c, tt)
  ]
]

process_from-IsCounted :
    (job : Bytes) (get : ℕ → Reply) (k n : ℕ) (st : JobState)
    → IsCounted st
    → AreCounted (process_from job get k n st)
unfolding process_from
process_from-IsCounted job get zero n st c = (c, tt)
process_from-IsCounted job get (suc k) n st c = elim (Reply-cases (get n)) [
  | inl e ↦ rw (e, process_from) (c, tt)
  | inr (inl e) ↦ rw (e, process_from) (process_from-IsCounted job get k (n + 1) st c)
  | inr (inr (b, e)) ↦
      let (c1, p1) = process_build-IsCounted job b st c in
      let st1 = (process_build job b st).0 in
      let (c2, p2) = process_from-IsCounted job get k (n + 1) st1 c1 in
      rw (e, process_from)
        (
          c2,
          All-append CountedPost (process_build job b st).1 (process_from job get k (n + 1) st1).1
              p1 p2,
        )
]

end_loop-IsCounted :
    (job : Bytes) (number : ℕ) (r : JobState × List Effect × Bool)
    → AreCounted r
    → AreCounted (end_loop job number r)
end_loop-IsCounted job number (st, posts, false) h = h
end_loop-IsCounted job number (st, posts, true) (c, p) =
    (c, All-append CountedPost posts _ p (tt, tt))

poll_builds-IsCounted :
    (job : Bytes) (get : ℕ → Reply) (first : Bool) (cur : Build) (st : JobState)
    → IsCounted st
    → AreCounted (poll_builds job get first cur st)
unfolding poll_builds
poll_builds-IsCounted job get first cur st c =
    let (cc, cp) = collapse_current-IsCounted job cur st c in
    let collapsed : AreCounted (with_line job (collapse_current job cur st)) =
      (cc, All-append CountedPost (collapse_current job cur st).1 _ cp (tt, tt)) in
    let gap = cur.number - st.last_build in
    elim (Bool-cases (eqb st.last_build cur.number)) [
      | inl e ↦ rw (e, poll_builds) (c, (tt, tt))
      | inr e ↦ elim (Bool-cases (first || eqb st.last_build 0)) [
        | inl f ↦ rw (e, f, poll_builds) collapsed
        | inr f ↦ elim (Bool-cases (ltb max_new_builds gap)) [
          | inl g ↦ rw (e, f, g, poll_builds) collapsed
          | inr g ↦
              rw (e, f, g, poll_builds)
                (end_loop-IsCounted job cur.number (process_from job get gap (st.last_build + 1) st)
                  (process_from-IsCounted job get gap (st.last_build + 1) st c))
        ]
      ]
    ]

pub state_of-IsCounted :
    (job : Bytes) (jobs : Jobs)
    → All (λ j. IsCounted j.1) jobs
    → IsCounted (state_of (lookup job jobs))
state_of-IsCounted job jobs h = elim (Option-cases (lookup job jobs)) [
  | inl n ↦ rw n refl
  | inr (st, s) ↦ rw s (All-lookup (λ j. IsCounted j.1) job st jobs h s)
]

-- In every poll of a job the count stays right: it is not 0 if and only if the job is failed. So no
-- recovery is posted that follows no failed build.
pub poll_job-IsCounted :
    (now : ℕ) (first : Bool) (job : Bytes) (l : Latest) (get : ℕ → Reply) (jobs : Jobs)
    → All (λ j. IsCounted j.1) jobs
    → let r = poll_job now first job l get jobs in
      All (λ j. IsCounted j.1) r.0 × All CountedPost r.1
unfolding poll_job
poll_job-IsCounted now first job latest_error get jobs h = (h, tt)
poll_job-IsCounted now first job never_built get jobs h = (h, tt)
poll_job-IsCounted now first job (latest cur) get jobs h =
    let st = record (state_of (lookup job jobs)) { last_seen = now } in
    let (c, p) = poll_builds-IsCounted job get first cur st (state_of-IsCounted job jobs h) in
    (All-insert _ job (poll_builds job get first cur st).0 jobs c h, p)
