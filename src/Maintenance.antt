-- ===== src/Maintenance.antt =====
-- The retention of the backups: listBackups, cleanup and record of urlshort/maintenance.go. Times are
-- in nanoseconds; the directory is a list of names with their times of modification, every file can
-- be removed, and time.ParseInLocation is a parameter. Files of the same date, which sort.Slice may
-- exchange, keep their order.
pub mod Retention
pub mod Listing
mod Tests
use mathlib.Core.List.{map}
use dflybot.Prelude.{
  ℕ, ◌+◌, ◌-◌, ◌*◌, Bool, true, false, not, ◌&&◌, ◌||◌, Option, none, some, List, [], ◌∷◌, ◌++◌,
  if◌then◌else◌, ltb, leb, eqb, length, take, drop,
}
use dflybot.Prelude.Bytes.{Bytes, ◌==◌, lit, has_prefix}
use dflybot.GitMonitor.Send.{mem}

pub record BackupFile : Type 0 where
  pub name : Bytes
  pub date : ℕ
  pub startup : Bool

-- The settings of the backups, and the times that the layouts of a day and of a moment read.
pub record Config : Type 0 where
  pub retention_days : ℕ
  pub startup_retention_count : ℕ
  pub parse_day : Bytes → Option ℕ
  pub parse_moment : Bytes → Option ℕ

abbrev pub day : ℕ
day = 86400000000000

unfoldable pub has_suffix : Bytes → Bytes → Bool
has_suffix s suffix = leb (length suffix) (length s) && drop (length s - length suffix) s == suffix

abbrev is_t : Bytes → Bool
is_t [] = false
is_t (c ∷ s) = eqb c 84

abbrev dated : Bytes → Bool → Option ℕ → Option BackupFile
dated name startup none = none
dated name startup (some d) = some (record { name = name; date = d; startup = startup })

-- The backup file of a name, none for other files.
unfoldable pub backup_file : Config → Bytes → Option BackupFile
unfolding has_prefix has_suffix
backup_file cfg name =
    let rest = take (length name - 9) (drop 6 name) in
    let startup = is_t (drop 10 rest) in
    if has_prefix name (lit "links-") && has_suffix name (lit ".db")
    then dated name startup (if startup then cfg.parse_moment rest else cfg.parse_day rest)
    else none

-- sort.Slice by the dates.
unfoldable pub insert_file : BackupFile → List BackupFile → List BackupFile
insert_file f [] = f ∷ []
insert_file f (g ∷ gs) =
    let rest = insert_file f gs in if ltb g.date f.date then g ∷ rest else f ∷ g ∷ gs

abbrev pub add_file : Option BackupFile → List BackupFile → List BackupFile
add_file none fs = fs
add_file (some f) fs = insert_file f fs

unfoldable pub list_backups : Config → List Bytes → List BackupFile
unfolding backup_file insert_file
list_backups cfg [] = []
list_backups cfg (name ∷ names) = add_file (backup_file cfg name) (list_backups cfg names)

unfoldable pub is_expired : Config → ℕ → BackupFile → Bool
is_expired cfg now f = ltb 0 cfg.retention_days && ltb f.date (now - cfg.retention_days * day)

-- The files that satisfy a test.
unfoldable pub select : (BackupFile → Bool) → List BackupFile → List BackupFile
select p [] = []
select p (f ∷ fs) = let rest = select p fs in if p f then f ∷ rest else rest

abbrev pub is_startup : BackupFile → Bool
is_startup f = f.startup

-- The startup backups that are kept by their age, and those of them that are too many.
unfoldable pub startups : Config → ℕ → List BackupFile → List BackupFile
unfolding select is_expired
startups cfg now files = select is_startup (select (λ f. not (is_expired cfg now f)) files)

unfoldable pub excess : Config → ℕ → List BackupFile → List BackupFile
unfolding startups
excess cfg now files =
    let found = startups cfg now files in
    if ltb 0 cfg.startup_retention_count
    then take (length found - cfg.startup_retention_count) found
    else []

-- The backups that cleanup removes.
unfoldable pub removed : Config → ℕ → List BackupFile → List BackupFile
unfolding excess select is_expired
removed cfg now files = select (is_expired cfg now) files ++ excess cfg now files

abbrev pub Dir : Type 0
Dir = List (Bytes × ℕ)

abbrev name_of : BackupFile → Bytes
name_of f = f.name

abbrev entry_name : Bytes × ℕ → Bytes
entry_name e = e.0

-- The directory without files of these names and without stale .part files.
unfoldable pub sweep : List Bytes → ℕ → Dir → Dir
unfolding has_suffix
sweep names now [] = []
sweep names now ((name, modified) ∷ dir) =
    let rest = sweep names now dir in
    if mem name names || has_suffix name (lit ".part") && ltb day (now - modified)
    then rest
    else (name, modified) ∷ rest

unfoldable pub cleanup : Config → ℕ → Dir → Dir
unfolding list_backups removed sweep
cleanup cfg now dir =
    sweep (map name_of (removed cfg now (list_backups cfg (map entry_name dir)))) now dir

abbrev pub last_of : BackupFile → List BackupFile → BackupFile
last_of f [] = f
last_of f (g ∷ gs) = last_of g gs

abbrev pub last_file : List BackupFile → Option BackupFile
last_file [] = none
last_file (f ∷ fs) = some (last_of f fs)

-- LastBackupFile, which record sets after a backup.
unfoldable pub record_file : Config → Dir → Option BackupFile
unfolding list_backups
record_file cfg dir = last_file (list_backups cfg (map entry_name dir))
