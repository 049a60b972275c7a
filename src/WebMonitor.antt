-- ===== src/WebMonitor.antt =====
-- The state machine of one monitored site: updateState, updateCert, poll and loadState of
-- web-monitor/monitor.go, and makeStatusCheck of web-monitor/probe.go. Announcements are the values
-- that the messages are made of; probing, posting and files are the environment's.
pub mod Hysteresis
pub mod Counters
pub mod Settling
pub mod Certificate
pub mod Downtime
mod Tests
use mathlib.Core.List.{map}
use dflybot.Prelude.{
  ℕ, suc, ◌+◌, ◌-◌, ◌*◌, ◌/◌, ◌^◌, Bool, true, false, not, ◌&&◌, Option, none, some, List, [], ◌∷◌,
  ◌++◌, if◌then◌else◌, ltb, leb, eqb,
}
use dflybot.Prelude.Bytes.{Bytes}

-- `unknown` is the blank string of a fresh state; a state file may hold any other text.
pub data Health : Type 0 where
  unknown up down : Health
  other : Bytes → Health

-- Times are in seconds of the Unix epoch; a day is its number, and no day a blank date.
pub record WebState : Type 0 where
  pub version : ℕ
  pub state : Health
  pub pending_up : ℕ
  pub pending_down : ℕ
  pub down_since : ℕ
  pub cert_not_after : ℕ
  pub cert_warned_days : ℕ
  pub cert_warned_date : Option ℕ
  pub updated_at : ℕ

-- Whole days until the certificate's end; none if negative, that is, after it.
pub record CertInfo : Type 0 where
  pub not_after : ℕ
  pub days_left : Option ℕ

pub record ProbeResult : Type 0 where
  pub is_ok : Bool
  pub status : ℕ
  pub ms : ℕ
  pub reason : Bytes
  pub cert : Option CertInfo

pub record Alert : Type 0 where
  pub down_repeats : ℕ
  pub up_repeats : ℕ

-- The announcements: a failure with its reason, a recovery with the nanoseconds of downtime, a
-- certificate that has expired at a time, one that expires in days at a time.
pub data Announcement : Type 0 where
  down_msg : Bytes → Announcement
  up_msg : ℕ → Announcement
  cert_expired : ℕ → Announcement
  cert_expires : ℕ → ℕ → Announcement

abbrev pub ns : ℕ
ns = 10 ^ 9

-- The states `unknown` and `up`.
unfoldable pub update_up : Alert → ProbeResult → ℕ → WebState → WebState × Option Announcement
update_up alert res now st =
    if leb alert.down_repeats (st.pending_down + 1)
    then (
      record st { state = down; pending_down = 0; down_since = now / ns },
      some (down_msg res.reason),
    )
    else (record st { pending_down = st.pending_down + 1 }, none)

unfoldable pub update_down : Alert → ℕ → WebState → WebState × Option Announcement
update_down alert now st =
    if leb alert.up_repeats (st.pending_up + 1)
    then (
      record st { state = up; pending_up = 0; down_since = 0 },
      some (up_msg (now - st.down_since * ns)),
    )
    else (record st { pending_up = st.pending_up + 1 }, none)

-- The switch of updateState on the state and the outcome of the probe. A probe that fails before
-- DownRepeats is reached only counts.
unfoldable pub update_by :
    Health → Bool → Alert → ProbeResult → ℕ → WebState → WebState × Option Announcement
unfolding update_up update_down
update_by unknown true alert res now st = (record st { state = up }, none)
update_by up true alert res now st = (record st { pending_down = 0 }, none)
update_by unknown false alert res now st = update_up alert res now st
update_by up false alert res now st = update_up alert res now st
update_by down true alert res now st = update_down alert now st
update_by down false alert res now st = (record st { pending_up = 0 }, none)
update_by (other s) is_ok alert res now st = (st, none)

-- `now` is in nanoseconds.
unfoldable pub update_state : Alert → ProbeResult → ℕ → WebState → WebState × Option Announcement
unfolding update_by
update_state alert res now st = update_by st.state res.is_ok alert res now st

-- expiringDays[len - 1], the largest of the ascending thresholds, which are not empty.
unfoldable pub last_day : List ℕ → ℕ
last_day [] = 0
last_day (t ∷ []) = t
last_day (t ∷ u ∷ ts) = last_day (u ∷ ts)

-- The loop from the last threshold to the first one that is due and not warned of yet.
unfoldable pub find_threshold : List ℕ → ℕ → ℕ → Option ℕ
find_threshold [] days warned = none
find_threshold (t ∷ ts) days warned =
    let later = find_threshold ts days warned in
    elim later [ some u ↦ some u | none ↦ if leb days t && ltb t warned then some t else none ]

-- A new certificate starts over.
unfoldable pub renew : List ℕ → CertInfo → WebState → WebState
unfolding last_day
renew days cert st = if eqb st.cert_not_after cert.not_after then st else record st {
  cert_not_after = cert.not_after;
  cert_warned_days = last_day days + 1;
  cert_warned_date = none;
}

abbrev pub is_day : Option ℕ → ℕ → Bool
is_day none d = false
is_day (some e) d = eqb e d

unfoldable pub warn_expired : CertInfo → ℕ → WebState → WebState × Option Announcement
warn_expired cert today st =
    if is_day st.cert_warned_date today
    then (st, none)
    else (record st { cert_warned_date = some today }, some (cert_expired cert.not_after))

unfoldable pub warn_expiring : List ℕ → CertInfo → ℕ → WebState → WebState × Option Announcement
unfolding find_threshold
warn_expiring days cert left st = elim (find_threshold days left st.cert_warned_days) [
  | none ↦ (st, none)
  | some t ↦ (record st { cert_warned_days = t }, some (cert_expires left cert.not_after))
]

unfoldable pub warn : List ℕ → CertInfo → ℕ → WebState → WebState × Option Announcement
unfolding warn_expired warn_expiring
warn days cert now st = elim cert.days_left [
  | none ↦ warn_expired cert (now / (86400 * ns)) st
  | some left ↦ warn_expiring days cert left st
]

unfoldable pub update_cert : List ℕ → CertInfo → ℕ → WebState → WebState × Option Announcement
unfolding renew warn
update_cert days cert now st = warn days cert now (renew days cert st)

abbrev pub posted : Option Announcement → List Announcement
posted none = []
posted (some a) = a ∷ []

unfoldable pub check_cert : List ℕ → Option CertInfo → ℕ → WebState → WebState × Option Announcement
unfolding update_cert
check_cert days none now st = (st, none)
check_cert days (some cert) now st = update_cert days cert now st

-- poll, after the probe: the state to save and the announcements in the order of posting.
unfoldable pub poll : Alert → List ℕ → ProbeResult → ℕ → WebState → WebState × List Announcement
unfolding update_state check_cert
poll alert days res now st =
    let (st1, msg1) = update_state alert res now st in
    let (st2, msg2) = check_cert days res.cert now st1 in
    (record st2 { updated_at = now / ns }, posted msg1 ++ posted msg2)

-- monitor.Loop: polls one after the other, each with its probe and its time.
unfoldable pub polls :
    Alert → List ℕ → List (ProbeResult × ℕ) → WebState → WebState × List Announcement
unfolding poll
polls alert days [] st = (st, [])
polls alert days ((res, now) ∷ ps) st =
    let (st1, msgs) = poll alert days res now st in
    let (st2, later) = polls alert days ps st1 in (st2, msgs ++ later)

abbrev pub state_version : ℕ
state_version = 1

abbrev pub fresh : WebState
fresh = record {
  version = state_version;
  state = unknown;
  pending_up = 0;
  pending_down = 0;
  down_since = 0;
  cert_not_after = 0;
  cert_warned_days = 0;
  cert_warned_date = none;
  updated_at = 0;
}

-- What ReadJSON found: an unreadable file, none, or a state.
pub data StateFile : Type 0 where
  unreadable missing : StateFile
  read : WebState → StateFile

unfoldable pub load_state : StateFile → WebState → WebState
load_state unreadable st = st
load_state missing st = st
load_state (read st') st = if eqb st'.version state_version then st' else st

-- The expected-status predicate of a site.
unfoldable pub has_code : List ℕ → ℕ → Bool
has_code [] s = false
has_code (c ∷ cs) s = if eqb c s then true else has_code cs s

unfoldable pub status_ok : List ℕ → ℕ → Bool
unfolding has_code
status_ok [] s = leb 200 s && ltb s 300
status_ok (c ∷ cs) s = has_code (c ∷ cs) s
