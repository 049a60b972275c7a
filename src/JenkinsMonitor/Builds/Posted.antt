-- ===== src/JenkinsMonitor/Builds/Posted.antt =====
-- Which builds pollJob of jenkins-monitor/monitor.go announces, and what it counts.
use mathlib.Core.List.{append-nil}
use dflybot.Prelude.{
  ℕ, zero, suc, ◌+◌, ◌-◌, ◌<◌, ◌≤◌, Bool, true, false, Option, none, some, List, [], ◌∷◌, ◌++◌, ◌≡◌,
  ◌≢◌, inl, inr, arith, refl, sym, ap, ◌∙◌, if◌then◌else◌, ltb, eqb, length, Bool-cases,
}
use dflybot.Prelude.Bytes.{Bytes, ◌==◌, eq_iff, lit}
use dflybot.JenkinsMonitor.{
  JobState, Build, Note, failure, recovery, node_offline, node_online, stuck, cleared, Effect, post,
  log, is_failure,
}
use dflybot.JenkinsMonitor.Builds.{
  Reply, transient, not_found, found, max_new_builds, process_build, process_from, end_loop,
  poll_builds, Reply-cases,
}

-- The builds that Jenkins has, of so many numbers from `n` on.
unfoldable pub builds_of : (ℕ → Reply) → ℕ → ℕ → List Build
builds_of get zero n = []
builds_of get (suc k) n =
    let rest = builds_of get k (n + 1) in
    elim (get n) [ transient ↦ rest | not_found ↦ rest | found b ↦ b ∷ rest ]

abbrev failed_note : Note → List Build
failed_note (failure job b n) = b ∷ []
failed_note (recovery job b n) = []
failed_note (node_offline name reason) = []
failed_note (node_online name) = []
failed_note (stuck job why age) = []
failed_note (cleared job age) = []

abbrev failed_effect : Effect → List Build
failed_effect (post n) = failed_note n
failed_effect (log h) = []

-- The builds that are announced as failed.
unfoldable pub failed_in : List Effect → List Build
failed_in [] = []
failed_in (e ∷ es) = failed_effect e ++ failed_in es

-- The failed builds of a list.
unfoldable pub failing : List Build → List Build
failing [] = []
failing (b ∷ bs) = let rest = failing bs in if is_failure b.result then b ∷ rest else rest

-- The builds after the last one that succeeded, none where none did.
unfoldable pub after_success : List Build → Option (List Build)
after_success [] = none
after_success (b ∷ bs) = elim (after_success bs) [
  | some rest ↦ some rest
  | none ↦ if b.result == lit "SUCCESS" then some bs else none
]

-- The failures in a row, after a list of builds that follows `c` of them.
unfoldable pub streak : ℕ → List Build → ℕ
unfolding after_success failing
streak c bs = elim (after_success bs) [
  | some rest ↦ length (failing rest)
  | none ↦ c + length (failing bs)
]

abbrev pub NoError : (ℕ → Reply) → ℕ → ℕ → Type 0
NoError get k n = (i : ℕ) → n ≤ i → i < n + k → get i ≢ transient

failed_in-append : (xs ys : List Effect) → failed_in (xs ++ ys) ≡ failed_in xs ++ failed_in ys
unfolding failed_in
failed_in-append [] ys = refl
failed_in-append (post (failure job b n) ∷ xs) ys = ap (λ l. b ∷ l) (failed_in-append xs ys)
failed_in-append (post (recovery job b n) ∷ xs) ys = failed_in-append xs ys
failed_in-append (post (node_offline name reason) ∷ xs) ys = failed_in-append xs ys
failed_in-append (post (node_online name) ∷ xs) ys = failed_in-append xs ys
failed_in-append (post (stuck job why age) ∷ xs) ys = failed_in-append xs ys
failed_in-append (post (cleared job age) ∷ xs) ys = failed_in-append xs ys
failed_in-append (log h ∷ xs) ys = failed_in-append xs ys

pub success_not-failure : (r : Bytes) → (r == lit "SUCCESS") ≡ true → is_failure r ≡ false
unfolding is_failure ◌==◌
success_not-failure r e = rw ((eq_iff r (lit "SUCCESS")).0 e) refl

process_build-failed :
    (job : Bytes) (b : Build) (st : JobState)
    → (failed_in (process_build job b st).1 ≡ failing (b ∷ []))
      × ((process_build job b st).0.consecutive ≡ streak st.consecutive (b ∷ []))
unfolding process_build failed_in failing streak after_success
process_build-failed job b st = ground (arith, success_not-failure b.result)

streak-cons :
    (c : ℕ) (b : Build) (bs : List Build) → streak c (b ∷ bs) ≡ streak (streak c (b ∷ [])) bs
unfolding streak after_success failing
streak-cons c b bs = ground (arith, success_not-failure b.result)

streak-nil : (c : ℕ) → streak c [] ≡ c
unfolding streak after_success failing
streak-nil c = omega arith

NoError-later : (get : ℕ → Reply) (k n : ℕ) → NoError get (suc k) n → NoError get k (n + 1)
NoError-later get k n h i a b = h i (omega (arith, a)) (omega (arith, b))

failing-append : (xs ys : List Build) → failing (xs ++ ys) ≡ failing xs ++ failing ys
unfolding failing
failing-append [] ys = refl
failing-append (x ∷ xs) ys = elim (Bool-cases (is_failure x.result)) [
  | inl e ↦ rw (e, failing) (ap (λ l. x ∷ l) (failing-append xs ys))
  | inr e ↦ rw (e, failing) (failing-append xs ys)
]

-- What the loop does where no request fails.
process_from-posts :
    (job : Bytes) (get : ℕ → Reply) (k n : ℕ) (st : JobState)
    → NoError get k n
    → let r = process_from job get k n st in
      (r.2 ≡ true)
      × (failed_in r.1 ≡ failing (builds_of get k n))
      × (r.0.consecutive ≡ streak st.consecutive (builds_of get k n))
unfolding process_from builds_of failed_in failing
process_from-posts job get zero n st h = (refl, refl, sym (streak-nil st.consecutive))
process_from-posts job get (suc k) n st h =
    let g = NoError-later get k n h in
    elim (Reply-cases (get n)) [
      | inl e ↦ elim (h n (omega arith) (omega arith) e) [ ]
      | inr (inl e) ↦ rw (e, process_from, builds_of) (process_from-posts job get k (n + 1) st g)
      | inr (inr (b, e)) ↦
          let (p, c) = process_build-failed job b st in
          let r = process_build job b st in
          let (q, l, d) = process_from-posts job get k (n + 1) r.0 g in
          let bs = builds_of get k (n + 1) in
          rw (e, process_from, builds_of)
            (
              q,
              failed_in-append r.1 (process_from job get k (n + 1) r.0).1
                  ∙ ap (λ x. x ++ failed_in (process_from job get k (n + 1) r.0).1) p
                  ∙ ap (λ x. failing (b ∷ []) ++ x) l
                  ∙ sym (failing-append (b ∷ []) bs),
              d ∙ ap (λ x. streak x bs) c ∙ sym (streak-cons st.consecutive b bs),
            )
    ]

end_loop-posts :
    (job : Bytes) (number : ℕ) (r : JobState × List Effect × Bool)
    → r.2 ≡ true
    → let p = end_loop job number r in
      (p.2 ≡ true)
      × (failed_in p.1 ≡ failed_in r.1)
      × (p.0.consecutive ≡ r.0.consecutive)
      × (p.0.last_build ≡ number)
unfolding failed_in
end_loop-posts job number (st, posts, false) e = ground (arith, e)
end_loop-posts job number (st, posts, true) e =
    (refl, failed_in-append posts _ ∙ append-nil (failed_in posts), refl, refl)

-- The polls between: where new builds are there, at most 20, and no request fails, exactly the failed
-- ones of them are announced as failed, each once and in order; what is counted are the failures
-- since the last success, with those before if none succeeded; and the latest build is where the
-- next poll goes on.
pub poll_builds_posts :
    (job : Bytes) (get : ℕ → Reply) (cur : Build) (st : JobState)
    → 0 < st.last_build
    → st.last_build < cur.number
    → cur.number ≤ st.last_build + max_new_builds
    → NoError get (cur.number - st.last_build) (st.last_build + 1)
    → let p = poll_builds job get false cur st in
      let new_builds = builds_of get (cur.number - st.last_build) (st.last_build + 1) in
      (p.2 ≡ true)
      × (failed_in p.1 ≡ failing new_builds)
      × (p.0.consecutive ≡ streak st.consecutive new_builds)
      × (p.0.last_build ≡ cur.number)
unfolding poll_builds
poll_builds_posts job get cur st a b c h =
    let gap = cur.number - st.last_build in
    let e : eqb st.last_build cur.number ≡ false = ground (arith, b) in
    let f : eqb st.last_build 0 ≡ false = ground (arith, a) in
    let g : ltb max_new_builds gap ≡ false = ground (arith, c) in
    let (q, l, d) = process_from-posts job get gap (st.last_build + 1) st h in
    let (q1, l1, d1, n1) =
      end_loop-posts job cur.number (process_from job get gap (st.last_build + 1) st) q in
    rw (e, f, g, poll_builds) (q1, l1 ∙ l, d1 ∙ d, n1)
