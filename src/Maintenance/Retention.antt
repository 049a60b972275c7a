-- ===== src/Maintenance/Retention.antt =====
-- Which backups cleanup of urlshort/maintenance.go removes.
use Prim.Native.Nat.{min}
use dflybot.Prelude.{ℕ, ◌+◌, ◌*◌, ◌<◌, eqb, if◌then◌else◌}
use dflybot.Prelude.Bytes.{Bytes}
use dflybot.Maintenance.{BackupFile, Config, day}

-- A file whose age is more than the days of retention; with 0 days no file is.
abbrev pub IsOld : Config → ℕ → BackupFile → Type 0
IsOld cfg now f = (0 < cfg.retention_days) × (f.date + cfg.retention_days * day < now)

-- How many of so many startup backups are kept; a count of 0 keeps all.
abbrev pub kept_count : ℕ → ℕ → ℕ
kept_count count found = if eqb count 0 then found else min count found
