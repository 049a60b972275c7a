-- ===== src/History.antt =====
-- The buffered history file of the monitors: History of monitor/monitor.go. The steps of its methods
-- between their uses of the lock are events, so that a run is an interleaving of concurrent calls.
pub mod Account
mod Tests
use dflybot.Prelude.{
  ℕ, zero, suc, Bool, true, false, Option, none, some, List, [], ◌∷◌, ◌++◌, if◌then◌else◌,
}
use dflybot.Prelude.Bytes.{Bytes}

-- `taken` are the local variables of the calls of Flush that have not written yet, oldest first, and
-- `file` the lines of the file.
pub record History : Type 0 where
  pub lines : List Bytes
  pub closed : Bool
  pub taken : List (List Bytes)
  pub file : List Bytes

-- Append of a marshalled line; the first part of Flush; the end of the flush at a place of `taken`,
-- with its lines in the file or, after an error of opening or writing, dropped; the end of Close.
pub data Event : Type 0 where
  append : Bytes → Event
  take_lines : Event
  write : ℕ → Event
  fail : ℕ → Event
  set_closed : Event

-- Append and whether it returned no error.
unfoldable pub append_line : Bytes → History → History × Bool
append_line l h = if h.closed then (h, false) else (record h { lines = h.lines ++ l ∷ [] }, true)

abbrev pub take_buffer : List Bytes → History → History
take_buffer [] h = h
take_buffer (l ∷ ls) h = record h { lines = []; taken = h.taken ++ (l ∷ ls) ∷ [] }

-- The lines of a flush, none where there is no such flush, and the other flushes.
unfoldable pub finish : ℕ → List (List Bytes) → List Bytes × List (List Bytes)
finish n [] = ([], [])
finish zero (ls ∷ taken) = (ls, taken)
finish (suc n) (ls ∷ taken) = let (found, rest) = finish n taken in (found, ls ∷ rest)

unfoldable pub step : Event → History → History
unfolding append_line finish
step (append l) h = (append_line l h).0
step take_lines h = take_buffer h.lines h
step (write n) h =
    let (ls, rest) = finish n h.taken in record h { taken = rest; file = h.file ++ ls }
step (fail n) h = let (ls, rest) = finish n h.taken in record h { taken = rest }
step set_closed h = record h { closed = true }

unfoldable pub run : List Event → History → History
unfolding step
run [] h = h
run (e ∷ es) h = run es (step e h)

abbrev pub new_history : History
new_history = record { lines = []; closed = false; taken = []; file = [] }
