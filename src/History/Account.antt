-- ===== src/History/Account.antt =====
-- Where the lines are that Append accepted.
use dflybot.Prelude.{
  ℕ, zero, suc, ◌+◌, true, false, List, [], ◌∷◌, ◌++◌, ◌≡◌, inl, inr, arith, refl, ap, ◌∙◌,
  Bool-cases, if◌then◌else◌,
}
use dflybot.Prelude.Bytes.{Bytes, ◌==◌}
use dflybot.History.{
  History, Event, append, take_lines, write, fail, set_closed, append_line, take_buffer, finish,
  step, run,
}

-- How often a line occurs.
unfoldable pub count : Bytes → List Bytes → ℕ
count l [] = 0
count l (m ∷ ms) = (if m == l then 1 else 0) + count l ms

unfoldable pub count_all : Bytes → List (List Bytes) → ℕ
unfolding count
count_all l [] = 0
count_all l (ms ∷ taken) = count l ms + count_all l taken

-- How often Append accepted the line in a run, and how often a failed flush dropped it.
unfoldable pub accepted : Bytes → List Event → History → ℕ
unfolding step
accepted l [] h = 0
accepted l (append m ∷ es) h =
    (if (append_line m h).1 then (if m == l then 1 else 0) else 0)
    + accepted l es (step (append m) h)
accepted l (take_lines ∷ es) h = accepted l es (step take_lines h)
accepted l (write n ∷ es) h = accepted l es (step (write n) h)
accepted l (fail n ∷ es) h = accepted l es (step (fail n) h)
accepted l (set_closed ∷ es) h = accepted l es (step set_closed h)

unfoldable pub dropped : Bytes → List Event → History → ℕ
unfolding step count finish
dropped l [] h = 0
dropped l (append m ∷ es) h = dropped l es (step (append m) h)
dropped l (take_lines ∷ es) h = dropped l es (step take_lines h)
dropped l (write n ∷ es) h = dropped l es (step (write n) h)
dropped l (fail n ∷ es) h = count l (finish n h.taken).0 + dropped l es (step (fail n) h)
dropped l (set_closed ∷ es) h = dropped l es (step set_closed h)

-- The copies of a line in the buffer, in the flushes under way and in the file.
unfoldable pub held : Bytes → History → ℕ
unfolding count count_all
held l h = count l h.lines + count_all l h.taken + count l h.file

count-append : (l : Bytes) (xs ys : List Bytes) → count l (xs ++ ys) ≡ count l xs + count l ys
unfolding count
count-append l [] ys = omega arith
count-append l (x ∷ xs) ys = omega (arith, count-append l xs ys)

count_all-append :
    (l : Bytes) (xs ys : List (List Bytes))
    → count_all l (xs ++ ys) ≡ count_all l xs + count_all l ys
unfolding count_all
count_all-append l [] ys = omega arith
count_all-append l (x ∷ xs) ys = omega (arith, count_all-append l xs ys)

count_all-finish :
    (l : Bytes) (n : ℕ) (taken : List (List Bytes))
    → count_all l taken ≡ count l (finish n taken).0 + count_all l (finish n taken).1
unfolding count_all finish count
count_all-finish l n [] = omega arith
count_all-finish l zero (ls ∷ taken) = omega arith
count_all-finish l (suc n) (ls ∷ taken) = omega (arith, count_all-finish l n taken)

take_buffer-held :
    (l : Bytes) (ls : List Bytes) (h : History)
    → h.lines ≡ ls
    → held l (take_buffer ls h) ≡ held l h
unfolding held count count_all
take_buffer-held l [] h e = refl
take_buffer-held l (m ∷ ls) h e =
    omega (arith, count_all-append l h.taken ((m ∷ ls) ∷ []), ap (count l) e)

append_line-held :
    (l m : Bytes) (h : History)
    → held l (append_line m h).0
      ≡ held l h + (if (append_line m h).1 then (if m == l then 1 else 0) else 0)
unfolding append_line held count
append_line-held l m h = elim (Bool-cases h.closed) [
  | inl e ↦ rw (e, append_line) (omega arith)
  | inr e ↦ rw (e, append_line) (omega (arith, count-append l h.lines (m ∷ [])))
]

write-held : (l : Bytes) (n : ℕ) (h : History) → held l (step (write n) h) ≡ held l h
unfolding step held
write-held l n h =
    omega (arith, count-append l h.file (finish n h.taken).0, count_all-finish l n h.taken)

fail-held :
    (l : Bytes) (n : ℕ) (h : History)
    → held l (step (fail n) h) + count l (finish n h.taken).0 ≡ held l h
unfolding step held
fail-held l n h = omega (arith, count_all-finish l n h.taken)

-- In every interleaving of calls each line that Append accepted is kept, as often as it was accepted:
-- it is in the file, in the buffer or in a flush that has not written yet, or a failed flush has
-- dropped it. No line is written twice, and none that was not accepted.
pub run-held :
    (l : Bytes) (es : List Event) (h : History)
    → held l (run es h) + dropped l es h ≡ held l h + accepted l es h
unfolding run dropped accepted step held
run-held l [] h = refl
run-held l (append m ∷ es) h =
    omega (arith, run-held l es (step (append m) h), append_line-held l m h)
run-held l (take_lines ∷ es) h =
    omega (arith, run-held l es (step take_lines h), take_buffer-held l h.lines h refl)
run-held l (write n ∷ es) h = omega (arith, run-held l es (step (write n) h), write-held l n h)
run-held l (fail n ∷ es) h = omega (arith, run-held l es (step (fail n) h), fail-held l n h)
run-held l (set_closed ∷ es) h = run-held l es (step set_closed h)

taken_buffer :
    (ls : List Bytes) (h : History)
    → h.lines ≡ ls
    → ((take_buffer ls h).lines ≡ []) × ((take_buffer ls h).closed ≡ h.closed)
taken_buffer [] h e = (e, refl)
taken_buffer (l ∷ ls) h e = (refl, refl)

taken_lines :
    (ls : List Bytes) (h : History) → h.taken ≡ [] → (finish 0 (take_buffer ls h).taken).0 ≡ ls
unfolding finish
taken_lines [] h t = rw (t, finish) refl
taken_lines (l ∷ ls) h t = rw (t, finish) refl

taken_file : (ls : List Bytes) (h : History) → (take_buffer ls h).file ≡ h.file
taken_file [] h = refl
taken_file (l ∷ ls) h = refl

append_line_open :
    (l : Bytes) (h : History)
    → h.closed ≡ false
    → ((append_line l h).1 ≡ true) × ((append_line l h).0.lines ≡ h.lines ++ l ∷ [])
unfolding append_line
append_line_open l h c = (rw (c, append_line) refl, rw (c, append_line) refl)

-- Close by itself writes what is buffered, in order, and leaves nothing behind; but a line that is
-- appended while Close flushes is accepted and stays in the buffer, so that Close returns with the
-- history closed and the line not written.
pub close_writes :
    (h : History) (l : Bytes)
    → h.taken ≡ []
    → h.closed ≡ false
    → let alone = run (take_lines ∷ write 0 ∷ set_closed ∷ []) h in
      let raced = run (take_lines ∷ append l ∷ write 0 ∷ set_closed ∷ []) h in
      (alone.file ≡ h.file ++ h.lines)
      × (alone.lines ≡ [])
      × ((append_line l (step take_lines h)).1 ≡ true)
      × (raced.closed ≡ true)
      × (raced.lines ≡ l ∷ [])
unfolding run step
close_writes h l t c =
    let b = taken_buffer h.lines h refl in
    let a = append_line_open l (take_buffer h.lines h) (b.1 ∙ c) in
    (
      rw (taken_file h.lines h, taken_lines h.lines h t) refl,
      b.0,
      a.0,
      refl,
      a.1 ∙ ap (λ ls. ls ++ l ∷ []) b.0,
    )
