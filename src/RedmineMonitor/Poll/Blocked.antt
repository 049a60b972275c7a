-- ===== src/RedmineMonitor/Poll/Blocked.antt =====
-- The warning of handleAnubis in redmine-monitor/monitor.go.
use dflybot.Prelude.{
  ℕ, ◌+◌, ◌≤◌, false, ◌&&◌, List, [], ◌∷◌, ◌++◌, ◌≡◌, arith, refl, ap, ◌∙◌, inl, inr, if◌then◌else◌,
  ltb, leb, All, Bool-cases,
}
use dflybot.Prelude.Bytes.{Bytes, ◌==◌}
use dflybot.RedmineMonitor.{Config}
use dflybot.RedmineMonitor.Poll.{
  ProjState, Fetch, blocked, failed, unchanged, fetched, handle_anubis, warning, poll, run,
  anubis_warn_after, announced, seed, is_unset,
}

-- How many of the polls are blocked; the others fail.
unfoldable pub count_blocked : List (ℕ × Fetch) → ℕ
count_blocked [] = 0
count_blocked ((now, blocked) ∷ polls) = 1 + count_blocked polls
count_blocked ((now, failed) ∷ polls) = count_blocked polls
count_blocked ((now, unchanged) ∷ polls) = count_blocked polls
count_blocked ((now, fetched es etag) ∷ polls) = count_blocked polls

abbrev pub IsFailure : ℕ × Fetch → Type 0
IsFailure (now, blocked) = Unit
IsFailure (now, failed) = Unit
IsFailure (now, unchanged) = ⊥
IsFailure (now, fetched es etag) = ⊥

abbrev IsWarned : ProjState → Type 0
IsWarned st = st.anubis_warned ≡ leb anubis_warn_after st.anubis_streak

abbrev warns : Config → ℕ → ℕ → List Bytes
warns cfg n m =
    if ltb n anubis_warn_after && leb anubis_warn_after m
    then warning cfg anubis_warn_after ∷ []
    else []

handle_anubis-warns :
    (cfg : Config) (now : ℕ) (st : ProjState)
    → IsWarned st
    → let p = handle_anubis cfg now st in
      let n = st.anubis_streak in
      (p.1 ≡ warns cfg n (n + 1)) × (p.0.anubis_streak ≡ n + 1) × IsWarned p.0
unfolding handle_anubis
handle_anubis-warns cfg now st w = ground (arith, w)

warns-append :
    (cfg : Config) (n m k : ℕ) → n ≤ m → m ≤ k → warns cfg n m ++ warns cfg m k ≡ warns cfg n k
warns-append cfg n m k h l = ground (arith, h, l)

warns_refl : (cfg : Config) (n : ℕ) → warns cfg n n ≡ []
warns_refl cfg n = ground arith

run-warns :
    (cfg : Config) (polls : List (ℕ × Fetch)) (st : ProjState)
    → All IsFailure polls
    → IsWarned st
    → let p = run cfg polls st in
      let n = st.anubis_streak in
      (p.2 ≡ warns cfg n (n + count_blocked polls))
      × (p.0.anubis_streak ≡ n + count_blocked polls)
      × IsWarned p.0
unfolding run poll count_blocked
run-warns cfg [] st h w = (ground arith, omega arith, w)
run-warns cfg ((now, blocked) ∷ polls) st (i, h) w =
    let p = handle_anubis cfg now st in
    let n = st.anubis_streak in
    let k = count_blocked polls in
    let (e, s, w1) = handle_anubis-warns cfg now st w in
    let (e1, s1, w2) = run-warns cfg polls p.0 h w1 in
    let f : (run cfg polls p.0).2 ≡ warns cfg (n + 1) (n + (1 + k)) = ground (arith, e1, s) in
    (
      ap (λ x. x ++ (run cfg polls p.0).2) e
          ∙ ap (λ x. warns cfg n (n + 1) ++ x) f
          ∙ warns-append cfg n (n + 1) (n + (1 + k)) (omega arith) (omega arith),
      omega (arith, s, s1),
      w2,
    )
run-warns cfg ((now, failed) ∷ polls) st (i, h) w = run-warns cfg polls st h w
run-warns cfg ((now, unchanged) ∷ polls) st (i, h) w = elim i [ ]
run-warns cfg ((now, fetched es etag) ∷ polls) st (i, h) w = elim i [ ]

abbrev pub IsSuccess : Fetch → Type 0
IsSuccess blocked = ⊥
IsSuccess failed = ⊥
IsSuccess unchanged = Unit
IsSuccess (fetched es etag) = Unit

-- A poll that succeeds ends the streak.
poll-cleared :
    (cfg : Config) (now : ℕ) (f : Fetch) (st : ProjState)
    → IsSuccess f
    → let p = (poll cfg now f st).state in (p.anubis_streak ≡ 0) × (p.anubis_warned ≡ false)
unfolding poll announced seed
poll-cleared cfg now blocked st i = elim i [ ]
poll-cleared cfg now failed st i = elim i [ ]
poll-cleared cfg now unchanged st i = (refl, refl)
poll-cleared cfg now (fetched es etag) st i =
    elim (Bool-cases (is_unset st.mark.last_at && st.etag == [])) [
      | inl e ↦ rw (e, poll) (refl, refl)
      | inr e ↦ rw (e, poll) (refl, refl)
    ]

-- While no poll succeeds, a single warning is posted, by the third poll that Anubis blocks, and none
-- before; polls that fail otherwise neither count nor reset the count. A poll that succeeds ends the
-- streak, so that the next one is warned of again.
pub run_blocked :
    (cfg : Config) (polls : List (ℕ × Fetch)) (now : ℕ) (f : Fetch) (st : ProjState)
    → All IsFailure polls
    → IsSuccess f
    → st.anubis_streak ≡ 0
    → st.anubis_warned ≡ false
    → let p = run cfg polls st in
      let q = (poll cfg now f p.0).state in
      (p.2 ≡ (
        if leb anubis_warn_after (count_blocked polls)
        then warning cfg anubis_warn_after ∷ []
        else []))
      × (p.0.anubis_streak ≡ count_blocked polls)
      × (q.anubis_streak ≡ 0)
      × (q.anubis_warned ≡ false)
run_blocked cfg polls now f st h i s w =
    let (e, n, k) = run-warns cfg polls st h (ground (arith, s, w)) in
    let (a, b) = poll-cleared cfg now f (run cfg polls st).0 i in
    (ground (arith, e, s), omega (arith, n, s), a, b)
