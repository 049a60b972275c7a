-- ===== src/JenkinsMonitor/Builds/Retry.antt =====
-- What a request that fails in the middle of pollJob's loop leads to (JenkinsMonitor/Builds).
use mathlib.Core.Path.{subst}
use dflybot.Prelude.{
  ℕ, suc, ◌+◌, ◌-◌, ◌<◌, ◌≤◌, Bool, true, false, List, [], ◌∷◌, ◌++◌, ◌≡◌, inl, inr, arith, refl,
  sym, ap, ◌∙◌, ltb, eqb, Bool-cases,
}
use dflybot.Prelude.Bytes.{Bytes, ◌==◌, lit}
use dflybot.JenkinsMonitor.{JobState, Build, Note, failure, Effect, post, is_failure}
use dflybot.JenkinsMonitor.Builds.{
  Reply, transient, found, max_new_builds, process_build, process_from, end_loop, poll_builds, fail,
}
use dflybot.JenkinsMonitor.Builds.Posted.{success_not-failure}

-- A failed build is announced and counted.
process_build_failure :
    (job : Bytes) (b : Build) (st : JobState)
    → is_failure b.result ≡ true
    → process_build job b st ≡ (
      record (fail b st) { last_result = b.result; last_url = b.url },
      post (failure job b (st.consecutive + 1)) ∷ [],
    )
unfolding process_build
process_build_failure job b st f = elim (Bool-cases (b.result == lit "SUCCESS")) [
  | inl e ↦ ground (arith, success_not-failure b.result e, f)
  | inr e ↦ rw (e, f, process_build) refl
]

abbrev HasGap : Build → JobState → Type 0
HasGap cur st =
    (0 < st.last_build)
    × (st.last_build + 1 < cur.number)
    × (cur.number ≤ st.last_build + max_new_builds)

poll_builds_loop :
    (job : Bytes) (get : ℕ → Reply) (cur : Build) (st : JobState)
    → HasGap cur st
    → poll_builds job get false cur st
      ≡ end_loop job cur.number
          (process_from job get (suc (suc (cur.number - st.last_build - 2))) (st.last_build + 1) st)
unfolding poll_builds
poll_builds_loop job get cur st (a, b, c) =
    let e : eqb st.last_build cur.number ≡ false = ground (arith, b) in
    let f : eqb st.last_build 0 ≡ false = ground (arith, a) in
    let g : ltb max_new_builds (cur.number - st.last_build) ≡ false = ground (arith, c) in
    let k : cur.number - st.last_build ≡ suc (suc (cur.number - st.last_build - 2)) =
      omega (arith, b) in
    rw (e, f, g, poll_builds)
      (ap (λ n. end_loop job cur.number (process_from job get n (st.last_build + 1) st)) k)

process_from_failure :
    (job : Bytes) (get : ℕ → Reply) (k n : ℕ) (b : Build) (st : JobState)
    → get n ≡ found b
    → is_failure b.result ≡ true
    → let st1 : JobState = record (fail b st) { last_result = b.result; last_url = b.url } in
      let r = process_from job get k (n + 1) st1 in
      process_from job get (suc k) n st
      ≡ (r.0, post (failure job b (st.consecutive + 1)) ∷ r.1, r.2)
unfolding process_from
process_from_failure job get k n b st e f =
    let p = process_build_failure job b st f in
    rw (e, process_from)
      (ap (λ x. let r = process_from job get k (n + 1) x.0 in (r.0, x.1 ++ r.1, r.2)) p)

process_from_transient :
    (job : Bytes) (get : ℕ → Reply) (k n : ℕ) (st : JobState)
    → get n ≡ transient
    → process_from job get (suc k) n st ≡ (st, [], false)
unfolding process_from
process_from_transient job get k n st e = rw (e, process_from) refl

-- The effects of the loop come first.
starts :
    (job : Bytes) (number : ℕ) (n : Note) (r : JobState × List Effect × Bool)
    {p : JobState × List Effect × Bool}
    → p ≡ end_loop job number (r.0, post n ∷ r.1, r.2)
    → (rest : List Effect) × (p.1 ≡ post n ∷ rest)
starts job number n (st, posts, false) e = (posts, ap (λ z. z.1) e)
starts job number n (st, posts, true) e = (posts ++ _, ap (λ z. z.1) e)

-- A request that fails after a failed build was announced ends the poll, but the next poll starts with
-- that build again: it is announced once more and counted once more.
pub poll_builds_repeats :
    (job : Bytes) (get later : ℕ → Reply) (cur b : Build) (st : JobState)
    → 0 < st.last_build
    → st.last_build + 1 < cur.number
    → cur.number ≤ st.last_build + max_new_builds
    → is_failure b.result ≡ true
    → get (st.last_build + 1) ≡ found b
    → get (st.last_build + 1 + 1) ≡ transient
    → later (st.last_build + 1) ≡ found b
    → let p = poll_builds job get false cur st in
      let q = poll_builds job later false cur p.0 in
      (p.1 ≡ post (failure job b (st.consecutive + 1)) ∷ [])
      × (p.2 ≡ false)
      × ((rest : List Effect) × (q.1 ≡ post (failure job b (st.consecutive + 1 + 1)) ∷ rest))
poll_builds_repeats job get later cur b st a h c f g t l =
    let st1 : JobState = record (fail b st) { last_result = b.result; last_url = b.url } in
    let k = cur.number - st.last_build - 2 in
    let n = st.last_build + 1 in
    let p : poll_builds job get false cur st
        ≡ (st1, post (failure job b (st.consecutive + 1)) ∷ [], false) =
      poll_builds_loop job get cur st (a, h, c)
      ∙ ap (end_loop job cur.number) (
          process_from_failure job get (suc k) n b st g f
          ∙ ap (λ r. (r.0, post (failure job b (st.consecutive + 1)) ∷ r.1, r.2))
              (process_from_transient job get k (n + 1) st1 t)) in
    let r =
      process_from job later (suc k) (st.last_build + 1 + 1)
        (record (fail b st1) { last_result = b.result; last_url = b.url }) in
    let q : poll_builds job later false cur st1
        ≡ end_loop job cur.number (r.0, post (failure job b (st.consecutive + 1 + 1)) ∷ r.1, r.2) =
      poll_builds_loop job later cur st1 (a, h, c)
      ∙ ap (end_loop job cur.number) (process_from_failure job later (suc k) n b st1 l f) in
    subst
      (λ z.
        (z.1 ≡ post (failure job b (st.consecutive + 1)) ∷ [])
        × (z.2 ≡ false)
        × ((rest : List Effect) × ((poll_builds job later false cur z.0).1
              ≡ post (failure job b (st.consecutive + 1 + 1)) ∷ rest)))
      (sym p) (refl, refl, starts job cur.number (failure job b (st.consecutive + 1 + 1)) r q)
