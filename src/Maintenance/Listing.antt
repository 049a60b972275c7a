-- ===== src/Maintenance/Listing.antt =====
-- The order of listBackups, and the file that record names (Maintenance).
use mathlib.Core.Path.{subst}
use mathlib.Core.List.{map}
use mathlib.Core.Option.{some-injective}
use dflybot.Prelude.{
  ◌≤◌, ◌<◌, some, List, [], ◌∷◌, ◌≡◌, ◌≢◌, ◌⊎◌, inl, inr, arith, refl, sym, ap, ◌∙◌, ltb, All,
  All-map, In, Bool-cases, Option-cases, List-cases,
}
use dflybot.Prelude.Bytes.{Bytes}
use dflybot.Maintenance.{
  BackupFile, Config, backup_file, insert_file, list_backups, last_file, last_of, Dir, record_file,
}

abbrev pub IsOldestFirst : List BackupFile → Type 0
IsOldestFirst [] = Unit
IsOldestFirst (f ∷ fs) = All (λ (g : BackupFile). f.date ≤ g.date) fs × IsOldestFirst fs

All-insert_file {κ} :
    (P : BackupFile → Type κ) (f : BackupFile) (fs : List BackupFile)
    → P f
    → All P fs
    → All P (insert_file f fs)
unfolding insert_file
All-insert_file P f [] p h = (p, tt)
All-insert_file P f (g ∷ gs) p (q, h) = elim (Bool-cases (ltb g.date f.date)) [
  | inl e ↦ rw (e, insert_file) (q, All-insert_file P f gs p h)
  | inr e ↦ rw (e, insert_file) (p, (q, h))
]

insert_file-IsOldestFirst :
    (f : BackupFile) (fs : List BackupFile) → IsOldestFirst fs → IsOldestFirst (insert_file f fs)
unfolding insert_file
insert_file-IsOldestFirst f [] h = (tt, tt)
insert_file-IsOldestFirst f (g ∷ gs) (h, k) = elim (Bool-cases (ltb g.date f.date)) [
  | inl e ↦
      rw (e, insert_file)
        (All-insert_file _ f gs (ground (arith, e)) h, insert_file-IsOldestFirst f gs k)
  | inr e ↦
      let l : f.date ≤ g.date = ground (arith, e) in
      rw (e, insert_file) ((l, All-map _ _ gs (λ x b. omega (arith, l, b)) h), (h, k))
]

-- The backups are listed from the oldest on.
pub list_backups-IsOldestFirst :
    (cfg : Config) (names : List Bytes) → IsOldestFirst (list_backups cfg names)
unfolding list_backups
list_backups-IsOldestFirst cfg [] = tt
list_backups-IsOldestFirst cfg (name ∷ names) =
    let ih = list_backups-IsOldestFirst cfg names in
    elim (Option-cases (backup_file cfg name)) [
      | inl n ↦ rw (n, list_backups) ih
      | inr (f, s) ↦ rw (s, list_backups) (insert_file-IsOldestFirst f (list_backups cfg names) ih)
    ]

In-insert_file :
    (f g : BackupFile) (fs : List BackupFile) → (g ≡ f) ⊎ In g fs → In g (insert_file f fs)
unfolding insert_file
In-insert_file f g [] i = i
In-insert_file f g (x ∷ fs) i = elim (Bool-cases (ltb x.date f.date)) [
  | inl e ↦
      rw (e, insert_file)
        (elim i [
          | inl p ↦ inr (In-insert_file f g fs (inl p))
          | inr (inl p) ↦ inl p
          | inr (inr j) ↦ inr (In-insert_file f g fs (inr j))
        ])
  | inr e ↦ rw (e, insert_file) i
]

In-list_backups :
    (cfg : Config) (names : List Bytes) (name : Bytes) (f : BackupFile)
    → In name names
    → backup_file cfg name ≡ some f
    → In f (list_backups cfg names)
unfolding list_backups
In-list_backups cfg [] name f i b = elim i [ ]
In-list_backups cfg (x ∷ names) name f (inl p) b =
    rw (sym (ap (backup_file cfg) p) ∙ b, list_backups)
      (In-insert_file f f (list_backups cfg names) (inl refl))
In-list_backups cfg (x ∷ names) name f (inr i) b =
    let ih = In-list_backups cfg names name f i b in
    elim (Option-cases (backup_file cfg x)) [
      | inl n ↦ rw (n, list_backups) ih
      | inr (g, s) ↦ rw (s, list_backups) (In-insert_file g f (list_backups cfg names) (inr ih))
    ]

last_of_newest :
    (f : BackupFile) (fs : List BackupFile)
    → IsOldestFirst (f ∷ fs)
    → (g : BackupFile) → In g (f ∷ fs)
    → g.date ≤ (last_of f fs).date
last_of_newest f [] h g (inl p) = rw p (omega arith)
last_of_newest f [] h g (inr b) = elim b [ ]
last_of_newest f (x ∷ fs) (h, k) g (inl p) =
    let l = last_of_newest x fs k x (inl refl) in rw p (omega (arith, h.0, l))
last_of_newest f (x ∷ fs) (h, k) g (inr i) = last_of_newest x fs k g i

-- The file that the status names as the last backup is the newest one by its date: it is not the
-- backup of a day, whose date is the start of the day, when a startup backup of that day is there.
pub record_file_newest :
    (cfg : Config) (dir : Dir) (daily startup : Bytes) (d s : BackupFile)
    → In daily (map (λ e. e.0) dir)
    → In startup (map (λ e. e.0) dir)
    → backup_file cfg daily ≡ some d
    → backup_file cfg startup ≡ some s
    → d.date < s.date
    → record_file cfg dir ≢ some d
unfolding record_file
record_file_newest cfg dir daily startup d s i j b c l e =
    let names = map (λ e. e.0) dir in
    let files = list_backups cfg names in
    let k = In-list_backups cfg names startup s j c in
    elim (List-cases files) [
      | inl n ↦ elim (subst (In s) n k) [ ]
      | inr (f, fs, q) ↦
          let m =
            last_of_newest f fs (subst IsOldestFirst q (list_backups-IsOldestFirst cfg names)) s
              (subst (In s) q k) in
          let r : last_of f fs ≡ d = some-injective (last_of f fs) d (sym (ap last_file q) ∙ e) in
          ground (arith, rw r at m, l)
    ]
