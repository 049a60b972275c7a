-- ===== src/WebMonitor/Settling.antt =====
-- What runs of failed or passed probes make of the state of a site.
use dflybot.Prelude.{
  ℕ, suc, ◌+◌, ◌≤◌, ◌<◌, true, false, List, [], ◌∷◌, ◌++◌, ◌≡◌, ◌⊎◌, arith, refl, length, All,
}
use dflybot.WebMonitor.{
  Health, unknown, up, down, WebState, ProbeResult, Alert, update_up, update_down, update_by,
  update_state, poll, polls, fresh,
}
use dflybot.WebMonitor.Hysteresis.{check_cert-KeepsHealth}
use dflybot.WebMonitor.Counters.{Probe}

abbrev pub AllFail : List Probe → Type 0
AllFail ps = All (λ (p : Probe). p.0.is_ok ≡ false) ps

abbrev pub AllPass : List Probe → Type 0
AllPass ps = All (λ (p : Probe). p.0.is_ok ≡ true) ps

-- The counters of a state are below their limits, and the state is one of the three.
pub record IsReady (alert : Alert) (st : WebState) : Type 0 where
  pub known : (st.state ≡ unknown) ⊎ (st.state ≡ up) ⊎ (st.state ≡ down)
  pub below_down : st.pending_down < alert.down_repeats
  pub below_up : st.pending_up < alert.up_repeats

module _ (alert : Alert) (days : List ℕ) where
  -- A site that is down, or that `k` more failures take down.
  abbrev Sinks : ℕ → Health → ℕ → Type 0
  Sinks k s pending =
      (s ≡ down)
      ⊎ (((s ≡ unknown) ⊎ (s ≡ up))
          × (pending < alert.down_repeats)
          × (alert.down_repeats ≤ pending + k))

  update_state-Sinks :
      (res : ProbeResult) (now k : ℕ) (st : WebState)
      → res.is_ok ≡ false
      → Sinks (suc k) st.state st.pending_down
      → Sinks k
          (update_state alert res now st).0.state
          (update_state alert res now st).0.pending_down
  unfolding update_state update_by update_up update_down
  update_state-Sinks res now k st f h = ground arith

  poll-Sinks :
      (res : ProbeResult) (now k : ℕ) (st : WebState)
      → res.is_ok ≡ false
      → Sinks (suc k) st.state st.pending_down
      → Sinks k (poll alert days res now st).0.state (poll alert days res now st).0.pending_down
  unfolding poll
  poll-Sinks res now k st f h =
      let st1 = (update_state alert res now st).0 in
      let s = check_cert-KeepsHealth days res.cert now st1 in
      rw (s.state, s.pending_down) (update_state-Sinks res now k st f h)

  polls-Sinks :
      (ps : List Probe) (k : ℕ) (st : WebState)
      → AllFail ps
      → Sinks (length ps + k) st.state st.pending_down
      → Sinks k (polls alert days ps st).0.state (polls alert days ps st).0.pending_down
  unfolding polls
  polls-Sinks [] k st f h = ground arith
  polls-Sinks ((res, now) ∷ ps) k st (f, fs) h =
      polls-Sinks ps k (poll alert days res now st).0 fs
        (poll-Sinks res now (length ps + k) st f (ground arith))

  -- A site that is down, or that `k` more passes bring up.
  abbrev Rises : ℕ → Health → ℕ → Type 0
  Rises k s pending =
      (s ≡ up)
      ⊎ ((s ≡ unknown) × (1 ≤ k))
      ⊎ ((s ≡ down) × (pending < alert.up_repeats) × (alert.up_repeats ≤ pending + k))

  update_state-Rises :
      (res : ProbeResult) (now k : ℕ) (st : WebState)
      → res.is_ok ≡ true
      → Rises (suc k) st.state st.pending_up
      → Rises k (update_state alert res now st).0.state (update_state alert res now st).0.pending_up
  unfolding update_state update_by update_up update_down
  update_state-Rises res now k st f h = ground arith

  poll-Rises :
      (res : ProbeResult) (now k : ℕ) (st : WebState)
      → res.is_ok ≡ true
      → Rises (suc k) st.state st.pending_up
      → Rises k (poll alert days res now st).0.state (poll alert days res now st).0.pending_up
  unfolding poll
  poll-Rises res now k st f h =
      let st1 = (update_state alert res now st).0 in
      let s = check_cert-KeepsHealth days res.cert now st1 in
      rw (s.state, s.pending_up) (update_state-Rises res now k st f h)

  polls-Rises :
      (ps : List Probe) (k : ℕ) (st : WebState)
      → AllPass ps
      → Rises (length ps + k) st.state st.pending_up
      → Rises k (polls alert days ps st).0.state (polls alert days ps st).0.pending_up
  unfolding polls
  polls-Rises [] k st f h = ground arith
  polls-Rises ((res, now) ∷ ps) k st (f, fs) h =
      polls-Rises ps k (poll alert days res now st).0 fs
        (poll-Rises res now (length ps + k) st f (ground arith))

  -- Enough failed probes in a row take a site down, and enough passed ones bring it up, from
  -- every state whose counters are below their limits.
  pub polls_settle :
      (ps : List Probe) (st : WebState)
      → IsReady alert st
      → (AllFail ps → alert.down_repeats ≤ length ps → (polls alert days ps st).0.state ≡ down)
        × (AllPass ps → alert.up_repeats ≤ length ps → (polls alert days ps st).0.state ≡ up)
  polls_settle ps st h = (
    (λ f n. ground (arith, polls-Sinks ps 0 st f, h.known, h.below_down)),
    (λ f n. ground (arith, polls-Rises ps 0 st f, h.known, h.below_up)),
  )

  poll-IsReady :
      (res : ProbeResult) (now : ℕ) (st : WebState)
      → IsReady alert st
      → IsReady alert (poll alert days res now st).0
  unfolding poll update_state update_by update_up update_down
  poll-IsReady res now st h =
      let st1 = (update_state alert res now st).0 in
      let s = check_cert-KeepsHealth days res.cert now st1 in
      record {
        known = ground (arith, s.state, h.known);
        below_down = ground (arith, s.pending_down, h.known, h.below_down, h.below_up);
        below_up = ground (arith, s.pending_up, h.known, h.below_down, h.below_up);
      }

  -- No run of polls takes a counter to its limit: a state whose counters are below their limits
  -- has them there for ever, so that it never stands at a report that was due.
  pub polls-IsReady :
      (ps : List Probe) (st : WebState)
      → IsReady alert st
      → IsReady alert (polls alert days ps st).0
  unfolding polls
  polls-IsReady [] st h = h
  polls-IsReady ((res, now) ∷ ps) st h =
      polls-IsReady ps (poll alert days res now st).0 (poll-IsReady res now st h)

  polls-append :
      (ps qs : List Probe) (st : WebState)
      → (polls alert days (ps ++ qs) st).0 ≡ (polls alert days qs (polls alert days ps st).0).0
  unfolding polls
  polls-append [] qs st = refl
  polls-append ((res, now) ∷ ps) qs st = polls-append ps qs (poll alert days res now st).0

  -- A site of unknown state whose counter stands at `n`.
  abbrev Unsettled : ℕ → Health → ℕ → Type 0
  Unsettled n s pending = (s ≡ unknown) × (pending ≡ n)

  update_state-Unsettled :
      (res : ProbeResult) (now n : ℕ) (st : WebState)
      → res.is_ok ≡ false
      → suc n < alert.down_repeats
      → Unsettled n st.state st.pending_down
      → Unsettled
          (suc n)
          (update_state alert res now st).0.state
          (update_state alert res now st).0.pending_down
  unfolding update_state update_by update_up
  update_state-Unsettled res now n st f b h = ground arith

  polls-Unsettled :
      (ps : List Probe) (n : ℕ) (st : WebState)
      → AllFail ps
      → n + length ps < alert.down_repeats
      → Unsettled n st.state st.pending_down
      → Unsettled
          (n + length ps)
          (polls alert days ps st).0.state
          (polls alert days ps st).0.pending_down
  unfolding polls poll
  polls-Unsettled [] n st f b h = ground arith
  polls-Unsettled ((res, now) ∷ ps) n st (f, fs) b h =
      let st1 = (update_state alert res now st).0 in
      let s = check_cert-KeepsHealth days res.cert now st1 in
      let u = update_state-Unsettled res now n st f (omega (arith, b)) h in
      let e : Unsettled (suc n) (poll alert days res now st).0.state
          (poll alert days res now st).0.pending_down =
        rw (s.state, s.pending_down) u in
      ground
        (arith, polls-Unsettled ps (suc n) (poll alert days res now st).0 fs (omega (arith, b)) e)

  -- The pass that settles an unknown site keeps the counter.
  passes :
      (res : ProbeResult) (now n : ℕ) (st : WebState)
      → res.is_ok ≡ true
      → Unsettled n st.state st.pending_down
      → ((poll alert days res now st).0.state ≡ up)
        × ((poll alert days res now st).0.pending_down ≡ n)
  unfolding poll update_state update_by
  passes res now n st f h =
      let st1 = (update_state alert res now st).0 in
      let s = check_cert-KeepsHealth days res.cert now st1 in
      (ground (arith, s.state), ground (arith, s.pending_down))

  after :
      (qs : List Probe) (res : ProbeResult) (now : ℕ) (st : WebState) (n : ℕ)
      → AllFail qs
      → 1 ≤ length qs
      → n + length qs ≡ alert.down_repeats
      → (poll alert days res now st).0.state ≡ up
      → (poll alert days res now st).0.pending_down ≡ n
      → (polls alert days ((res, now) ∷ qs) st).0.state ≡ down
  unfolding polls
  after qs res now st n k l e p q =
      ground (arith, polls-Sinks qs 0 (poll alert days res now st).0 k)

  -- After a fresh start failures that do not follow one another are counted together: if as many
  -- probes fail as the configuration asks for, but with a passed one among them, the site is
  -- taken down all the same.
  pub polls_not_consecutive :
      (ps qs : List Probe) (res : ProbeResult) (now : ℕ)
      → AllFail ps
      → res.is_ok ≡ true
      → AllFail qs
      → 1 ≤ length qs
      → length ps + length qs ≡ alert.down_repeats
      → (polls alert days (ps ++ (res, now) ∷ qs) fresh).0.state ≡ down
  polls_not_consecutive ps qs res now f g k l e =
      let st1 = (polls alert days ps fresh).0 in
      let u : Unsettled (length ps) st1.state st1.pending_down =
        ground (arith, polls-Unsettled ps 0 fresh f (omega (arith, l, e)) (refl, refl)) in
      let (p, n) = passes res now (length ps) st1 g u in
      rw polls-append (after qs res now st1 (length ps) k l e p n)
