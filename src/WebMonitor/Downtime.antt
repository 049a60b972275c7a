-- ===== src/WebMonitor/Downtime.antt =====
-- fmtDowntime of web-monitor/monitor.go: the numbers that are printed, with their units.
use dflybot.Prelude.{
  ℕ, ◌+◌, ◌*◌, ◌/◌, ◌%◌, ◌≤◌, ◌<◌, List, [], ◌∷◌, ◌≡◌, arith, if◌then◌else◌, ltb, eqb,
}

pub data TimeUnit : Type 0 where
  second minute hour : TimeUnit

-- `secs` are the whole seconds of the duration.
unfoldable pub fmt_downtime : ℕ → List (ℕ × TimeUnit)
fmt_downtime secs =
    if ltb secs 60
    then (secs, second) ∷ []
    else if ltb (secs / 60) 60
    then (if eqb (secs % 60) 0
        then (secs / 60, minute) ∷ []
        else (secs / 60, minute) ∷ (secs % 60, second) ∷ [])
    else if eqb (secs / 60 % 60) 0
    then (secs / 60 / 60, hour) ∷ []
    else (secs / 60 / 60, hour) ∷ (secs / 60 % 60, minute) ∷ []

abbrev pub seconds_of : TimeUnit → ℕ
seconds_of second = 1
seconds_of minute = 60
seconds_of hour = 3600

-- What a printed duration says, in seconds.
abbrev pub said : List (ℕ × TimeUnit) → ℕ
said [] = 0
said ((n, u) ∷ l) = n * seconds_of u + said l

-- A printed downtime is exact below an hour, and from there on less than a minute short.
pub fmt_downtime-said :
    (secs : ℕ)
    → (said (fmt_downtime secs) ≤ secs)
      × (secs < said (fmt_downtime secs) + 60)
      × (secs < 3600 → said (fmt_downtime secs) ≡ secs)
unfolding fmt_downtime
fmt_downtime-said secs = ground arith
