-- ===== src/Maintenance/Tests.antt =====
-- The theorem on the retention at a directory with an old backup and a startup backup too many.
use dflybot.Prelude.{ℕ, ◌+◌, none, some, Option, List, [], ◌∷◌}
use dflybot.Prelude.Bytes.{Bytes, lit}
use dflybot.Maintenance.{Config, day}

-- The last digit of the day is the date.
abbrev last_digit : Bytes → Option ℕ
last_digit (a ∷ b ∷ c ∷ d ∷ e ∷ f ∷ g ∷ h ∷ i ∷ j ∷ s) = some j
last_digit s = none

abbrev cfg : Config
cfg = record {
  retention_days = 1;
  startup_retention_count = 1;
  parse_day = last_digit;
  parse_moment = last_digit;
}

-- The startup backup of the 11th is too old, and of the other two one is too many.
abbrev names : List Bytes
names =
    lit "links-2026-09-12T010203.db"
    ∷ lit "links-2026-09-11T010203.db"
    ∷ lit "links-2026-09-13T010203.db"
    ∷ lit "links-2026-09-12.db"
    ∷ lit "notes.txt"
    ∷ []

abbrev now : ℕ
now = day + b'2'
