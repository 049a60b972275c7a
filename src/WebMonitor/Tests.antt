-- ===== src/WebMonitor/Tests.antt =====
-- A site that fails and recovers, and a certificate that runs out.
use dflybot.Prelude.{
  ℕ, true, false, Bool, none, some, List, [], ◌∷◌, ◌≡◌, ◌≤◌, ◌*◌, inl, inr, refl, arith,
}
use dflybot.Prelude.Bytes.{lit}
use dflybot.WebMonitor.{
  up, down, WebState, CertInfo, Alert, down_msg, up_msg, last_day, find_threshold, renew,
  warn_expired, warn_expiring, warn, update_cert, update_up, update_down, update_by, update_state,
  check_cert, poll, polls, fresh,
}
use dflybot.WebMonitor.Hysteresis.{Alternates, polls-Alternates}
use dflybot.WebMonitor.Counters.{Probe, failures, IsCounted}
use dflybot.WebMonitor.Settling.{AllFail, AllPass, IsReady, polls_settle, polls_not_consecutive}
use dflybot.WebMonitor.Certificate.{warned_days}

program : Unit {0}
unfolding last_day find_threshold renew warn_expired warn_expiring warn update_cert update_up
    update_down update_by update_state check_cert poll polls failures warned_days
program = tt

abbrev alert : Alert
alert = record { down_repeats = 2; up_repeats = 2 }

abbrev days : List ℕ
days = 1 ∷ 7 ∷ 15 ∷ []

abbrev probe : Bool → ℕ → Probe
probe is_ok t = (
  record { is_ok = is_ok; status = 200; ms = 5; reason = lit "timeout"; cert = none },
  t * 1000000000,
)

abbrev site_up : WebState
site_up = record fresh { state = up }

outage : List Probe
outage = probe true 60 ∷ probe false 120 ∷ probe false 180 ∷ probe true 240 ∷ probe true 300 ∷ []

reports : (polls alert days outage site_up).1 ≡ down_msg (lit "timeout") ∷ up_msg 120000000000 ∷ []
unfolding program outage
reports = refl

polls-Alternates_example : Alternates false (polls alert days outage site_up).1
polls-Alternates_example = polls-Alternates alert days outage site_up

site_up-IsCounted : IsCounted 0 site_up
site_up-IsCounted = record { known = inl refl; counted = omega arith; cleared = λ e. omega arith }

site_up-IsReady : IsReady alert site_up
site_up-IsReady = record {
  known = inr (inl refl);
  below_down = omega arith;
  below_up = omega arith;
}

abbrev two_failures : List Probe
two_failures = probe false 120 ∷ probe false 180 ∷ []

polls_settle_example :
    (AllFail two_failures → 2 ≤ 2 → (polls alert days two_failures site_up).0.state ≡ down)
    × (AllPass two_failures → 2 ≤ 2 → (polls alert days two_failures site_up).0.state ≡ up)
polls_settle_example = polls_settle alert days two_failures site_up site_up-IsReady

polls_not_consecutive_example :
    (polls alert days (probe false 60 ∷ probe true 120 ∷ probe false 180 ∷ []) fresh).0.state ≡ down
polls_not_consecutive_example =
    polls_not_consecutive alert days (probe false 60 ∷ []) (probe false 180 ∷ []) (probe true 120).0
      (probe true 120).1 (refl, tt) refl (refl, tt) (omega arith) refl

abbrev cert : ℕ → CertInfo
cert left = record { not_after = 9000000; days_left = some left }

abbrev known_cert : WebState
known_cert = record fresh { cert_not_after = 9000000; cert_warned_days = 16 }

abbrev checks : List (CertInfo × ℕ)
checks = (cert 9, 5) ∷ (cert 9, 6) ∷ (cert 3, 7) ∷ []

warned : warned_days days checks known_cert ≡ 15 ∷ 7 ∷ []
unfolding program
warned = refl
