-- ===== src/WebMonitor/Counters.antt =====
-- The counter of failures: what a report of failure rests on.
use mathlib.Core.Path.{subst}
use dflybot.Prelude.{
  ℕ, ◌+◌, ◌≤◌, Option, none, some, List, [], ◌∷◌, ◌++◌, ◌≡◌, ◌⊎◌, inl, inr, arith, refl, sym, ap,
  ◌∙◌, All, In, if◌then◌else◌,
}
use dflybot.Prelude.Bytes.{Bytes}
use dflybot.WebMonitor.{
  up, down, WebState, ProbeResult, Alert, Announcement, down_msg, update_up, update_down, update_by,
  update_state, check_cert, posted, poll, polls,
}
use dflybot.WebMonitor.Hysteresis.{IsCert, check_cert-KeepsHealth}

abbrev pub Probe : Type 0
Probe = ProbeResult × ℕ

-- How many probes have failed in a row at the end of a run, with `n` before it.
unfoldable pub failures : ℕ → List Probe → ℕ
failures n [] = n
failures n ((res, now) ∷ ps) = failures (if res.is_ok then 0 else n + 1) ps

-- The counter of failures counts failures in a row, `n` of which have been.
pub record IsCounted (n : ℕ) (st : WebState) : Type 0 where
  pub known : (st.state ≡ up) ⊎ (st.state ≡ down)
  pub counted : st.pending_down ≤ n
  pub cleared : st.state ≡ down → st.pending_down ≡ 0

update_state-IsCounted :
    (alert : Alert) (res : ProbeResult) (now n : ℕ) (st : WebState)
    → IsCounted n st
    → IsCounted (if res.is_ok then 0 else n + 1) (update_state alert res now st).0
unfolding update_state update_by update_up update_down
update_state-IsCounted alert res now n st h = record {
  known = ground arith;
  counted = ground arith;
  cleared = ground arith;
}

-- What the report of a failure takes.
update_state_reports :
    (alert : Alert) (res : ProbeResult) (now n : ℕ) (st : WebState) (r : Bytes)
    → IsCounted n st
    → (update_state alert res now st).1 ≡ some (down_msg r)
    → alert.down_repeats ≤ (if res.is_ok then 0 else n + 1)
unfolding update_state update_by update_up update_down
update_state_reports alert res now n st r h e = ground arith

module _ (alert : Alert) (days : List ℕ) where
  poll-IsCounted :
      (res : ProbeResult) (now n : ℕ) (st : WebState)
      → IsCounted n st
      → IsCounted (if res.is_ok then 0 else n + 1) (poll alert days res now st).0
  unfolding poll
  poll-IsCounted res now n st h =
      let st1 = (update_state alert res now st).0 in
      let k = check_cert-KeepsHealth days res.cert now st1 in
      let c = update_state-IsCounted alert res now n st h in
      record {
        known = ground (arith, k.state, c.known);
        counted = omega (arith, k.pending_down, c.counted);
        cleared = λ e. k.pending_down ∙ c.cleared (sym k.state ∙ e);
      }

  polls-IsCounted :
      (ps : List Probe) (n : ℕ) (st : WebState)
      → IsCounted n st
      → IsCounted (failures n ps) (polls alert days ps st).0
  unfolding polls failures
  polls-IsCounted [] n st h = h
  polls-IsCounted ((res, now) ∷ ps) n st h =
      polls-IsCounted ps (if res.is_ok then 0 else n + 1) (poll alert days res now st).0
        (poll-IsCounted res now n st h)

  -- The report is that of updateState: what is said of the certificate is something else.
  report_of :
      (r : Bytes) (m c : Option Announcement)
      → All IsCert (posted c)
      → In (down_msg r) (posted m ++ posted c)
      → m ≡ some (down_msg r)
  report_of r none none a i = absurd i
  report_of r none (some c) (a, t) (inl e) = absurd (subst IsCert (sym e) a)
  report_of r none (some c) (a, t) (inr i) = absurd i
  report_of r (some m) none a (inl e) = ap some (sym e)
  report_of r (some m) none a (inr i) = absurd i
  report_of r (some m) (some c) (a, t) (inl e) = ap some (sym e)
  report_of r (some m) (some c) (a, t) (inr (inl e)) = absurd (subst IsCert (sym e) a)
  report_of r (some m) (some c) (a, t) (inr (inr i)) = absurd i

  failures-append :
      (ps : List Probe) (res : ProbeResult) (now n : ℕ)
      → failures n (ps ++ (res, now) ∷ []) ≡ (if res.is_ok then 0 else failures n ps + 1)
  unfolding failures
  failures-append [] res now n = refl
  failures-append ((r, t) ∷ ps) res now n =
      failures-append ps res now (if r.is_ok then 0 else n + 1)

  -- A site that is known to be up or down is reported as down only when as many probes in a row
  -- have failed as the configuration asks for, the last one being the one that is reported.
  pub down_after_failures :
      (ps : List Probe) (res : ProbeResult) (now : ℕ) (st : WebState) (r : Bytes)
      → IsCounted 0 st
      → In (down_msg r) (poll alert days res now (polls alert days ps st).0).1
      → alert.down_repeats ≤ failures 0 (ps ++ (res, now) ∷ [])
  unfolding poll
  down_after_failures ps res now st r h i =
      let before = (polls alert days ps st).0 in
      let st1 = (update_state alert res now before).0 in
      let k = check_cert-KeepsHealth days res.cert now st1 in
      let e =
        report_of r (update_state alert res now before).1 (check_cert days res.cert now st1).1
          k.about_cert i in
      rw failures-append
        (update_state_reports alert res now (failures 0 ps) before r (polls-IsCounted ps 0 st h) e)
