-- ===== src/Seen.antt =====
-- The seen database of the IRC channels, of seen.go: the records by nick and their operations.
-- strings.EqualFold is a parameter, `same`; times are Unix seconds. A map is a list in the order of
-- its keys, so that the order in which the code goes through it is one of those that Go may take.
pub mod Keys
pub mod Nicks
pub mod Store
pub mod Records
pub mod Lookup
pub mod Age
mod Tests
use mathlib.Core.List.{map}
use dflybot.Prelude.{
  ℕ, Bool, true, false, Option, none, some, List, [], ◌∷◌, ◌++◌, ◌&&◌, if◌then◌else◌, leb, eqb,
}
use dflybot.Prelude.Bytes.{Bytes, ◌==◌}
use dflybot.Prelude.Sorted.{lookup, insert, remove}

-- A zero time is none.
pub record SeenEntry : Type 0 where
  pub join : ℕ
  pub exit : ℕ
  pub message : ℕ

abbrev pub no_entry : SeenEntry
no_entry = record { join = 0; exit = 0; message = 0 }

unfoldable pub last : SeenEntry → ℕ
last e =
    if leb e.exit e.join && leb e.message e.join
    then e.join
    else if leb e.message e.exit
    then e.exit
    else e.message

abbrev pub Nicks : Type 0
Nicks = List (Bytes × SeenEntry)

pub record SeenData : Type 0 where
  pub version : ℕ
  pub channel : Bytes
  pub updated_at : ℕ
  pub nicks : Nicks

pub record SeenStore : Type 0 where
  pub channels : List (Bytes × SeenData)
  pub dirty : List (Bytes × Bool)

abbrev pub seen_version : ℕ
seen_version = 1

abbrev pub or_no_entry : Option SeenEntry → SeenEntry
or_no_entry none = no_entry
or_no_entry (some e) = e

abbrev new_data : Bytes → SeenData
new_data ch = record { version = seen_version; channel = ch; updated_at = 0; nicks = [] }

abbrev pub data_of : Bytes → Option SeenData → SeenData
data_of ch none = new_data ch
data_of ch (some d) = d

-- What the record `e` gives to one that has no time of its own.
unfoldable pub fill_entry : SeenEntry → SeenEntry → SeenEntry
fill_entry e ne = record {
  join = if eqb ne.join 0 then e.join else ne.join;
  exit = if eqb ne.exit 0 then e.exit else ne.exit;
  message = if eqb ne.message 0 then e.message else ne.message;
}

abbrev pub put_nicks : Bytes → SeenData → Option Nicks → SeenStore → SeenStore
put_nicks ch d none st = record st { channels = (ch, d) ∷ st.channels }
put_nicks ch d (some ns) st = record {
  channels = (ch, record d { nicks = ns }) ∷ st.channels;
  dirty = insert ch true st.dirty;
}

-- The loop over the channels; those that change become dirty.
unfoldable pub change_all :
    (Nicks → Option Nicks) → List (Bytes × SeenData) → List (Bytes × Bool) → SeenStore
change_all f [] dirty = record { channels = []; dirty = dirty }
change_all f ((ch, d) ∷ channels) dirty = put_nicks ch d (f d.nicks) (change_all f channels dirty)

module _ (same : Bytes → Bytes → Bool) where
  -- The blank text stands for no key.
  unfoldable pub ci_key : Nicks → Bytes → Bytes
  ci_key [] nick = []
  ci_key ((k, e) ∷ ns) nick = if same k nick then k else ci_key ns nick

  -- The key under which a nick's record is kept, or will be.
  unfoldable pub key_for : Nicks → Bytes → Bytes
  unfolding ci_key
  key_for ns nick = if ci_key ns nick == [] then nick else ci_key ns nick

  unfoldable pub change_nick : Bytes → (SeenEntry → SeenEntry) → Nicks → Nicks
  unfolding key_for
  change_nick nick apply ns =
      insert (key_for ns nick) (apply (or_no_entry (lookup (key_for ns nick) ns))) ns

  unfoldable pub get_nick : Nicks → Bytes → Option SeenEntry
  unfolding ci_key
  get_nick ns nick = if ci_key ns nick == [] then none else lookup (ci_key ns nick) ns

  unfoldable pub set : Bytes → Bytes → (SeenEntry → SeenEntry) → SeenStore → SeenStore
  unfolding change_nick
  set ch nick apply st =
      if ch == []
      then st
      else if nick == []
      then st
      else (let d = data_of ch (lookup ch st.channels) in
          record {
            channels = insert ch (record d { nicks = change_nick nick apply d.nicks }) st.channels;
            dirty = insert ch true st.dirty;
          })

  unfoldable pub join : Bytes → Bytes → ℕ → SeenStore → SeenStore
  unfolding set
  join ch nick t st = set ch nick (λ e. record e { join = t }) st

  unfoldable pub leave : Bytes → Bytes → ℕ → SeenStore → SeenStore
  unfolding set
  leave ch nick t st = set ch nick (λ e. record e { exit = t }) st

  unfoldable pub message : Bytes → Bytes → ℕ → SeenStore → SeenStore
  unfolding set
  message ch nick t st = set ch nick (λ e. record e { message = t }) st

  -- The records of one channel after a quit: none where the nick has no record.
  unfoldable pub quit_nick : Bytes → ℕ → Nicks → Option Nicks
  unfolding ci_key
  quit_nick nick t ns =
      if ci_key ns nick == []
      then none
      else some (
          insert (ci_key ns nick) (record (or_no_entry (lookup (ci_key ns nick) ns)) { exit = t })
            ns)

  unfoldable pub rename_nick : Bytes → Bytes → Nicks → Option Nicks
  unfolding ci_key change_nick fill_entry
  rename_nick old neu ns =
      if ci_key ns old == []
      then none
      else some (
          change_nick neu (fill_entry (or_no_entry (lookup (ci_key ns old) ns)))
            (remove (ci_key ns old) ns))

  unfoldable pub quit : Bytes → ℕ → SeenStore → SeenStore
  unfolding quit_nick change_all
  quit nick t st = if nick == [] then st else change_all (quit_nick nick t) st.channels st.dirty

  unfoldable pub rename : Bytes → Bytes → SeenStore → SeenStore
  unfolding rename_nick change_all
  rename old neu st =
      if old == []
      then st
      else if neu == []
      then st
      else if same old neu
      then st
      else change_all (rename_nick old neu) st.channels st.dirty

  unfoldable pub get : Bytes → Bytes → SeenStore → Option SeenEntry
  unfolding get_nick
  get ch nick st = elim (lookup ch st.channels) [ none ↦ none | some d ↦ get_nick d.nicks nick ]
