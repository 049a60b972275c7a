-- ===== src/History/Tests.antt =====
-- Runs of two flushes and an append between them.
use dflybot.Prelude.{◌+◌, true, List, [], ◌∷◌, ◌≡◌, refl}
use dflybot.Prelude.Bytes.{lit}
use dflybot.History.{
  History, Event, append, take_lines, write, fail, set_closed, append_line, step, run, new_history,
}
use dflybot.History.Account.{held, accepted, dropped, run-held, close_writes}

abbrev events : List Event
events =
    append (lit "a")
    ∷ take_lines
    ∷ append (lit "b")
    ∷ take_lines
    ∷ write 1
    ∷ fail 0
    ∷ set_closed
    ∷ append (lit "c")
    ∷ []

run-held_example :
    held (lit "b") (run events new_history) + dropped (lit "b") events new_history
    ≡ held (lit "b") new_history + accepted (lit "b") events new_history
run-held_example = run-held (lit "b") events new_history

abbrev one_line : History
one_line = record new_history { lines = lit "a" ∷ [] }

close_writes_example :
    let alone = run (take_lines ∷ write 0 ∷ set_closed ∷ []) one_line in
    let raced = run (take_lines ∷ append (lit "b") ∷ write 0 ∷ set_closed ∷ []) one_line in
    (alone.file ≡ lit "a" ∷ [])
    × (alone.lines ≡ [])
    × ((append_line (lit "b") (step take_lines one_line)).1 ≡ true)
    × (raced.closed ≡ true)
    × (raced.lines ≡ lit "b" ∷ [])
close_writes_example = close_writes one_line (lit "b") refl refl
