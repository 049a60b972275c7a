-- ===== src/Feed/Snippet.antt =====
-- snippet of github-monitor/monitor.go and redmine-monitor/monitor.go: a text on one line and of at
-- most so many runes. The functions of strings and unicode/utf8 are parameters.
use dflybot.Prelude.{
  ℕ, zero, suc, ◌-◌, ◌≤◌, ◌<◌, List, [], ◌∷◌, ◌++◌, ◌≡◌, ◌≢◌, ◌⊎◌, inl, inr, arith, if◌then◌else◌,
  leb, leb→le, length, length-take, take, Bool-cases, refl,
}
use dflybot.Prelude.Bytes.{Bytes, lit}
use dflybot.GitMonitor.Send.{join, replace_breaks}

-- strings.Fields, RuneCountInString and the size that DecodeLastRuneInString returns.
pub record Runes : Type 0 where
  pub fields : Bytes → List Bytes
  pub rune_count : Bytes → ℕ
  pub last_size : Bytes → ℕ

abbrev pub ellipsis : Bytes
ellipsis = 226 ∷ 128 ∷ 166 ∷ []

-- The loop that drops the last rune; no more rounds than bytes are needed.
unfoldable pub shorten : Runes → ℕ → ℕ → Bytes → Bytes
shorten u max zero s = s
shorten u max (suc n) [] = []
shorten u max (suc n) (c ∷ s) =
    let rest = shorten u max n (take (length (c ∷ s) - u.last_size (c ∷ s)) (c ∷ s)) in
    if leb (u.rune_count (c ∷ s)) max then c ∷ s else rest

unfoldable pub snippet : Runes → ℕ → Bytes → Bytes
unfolding replace_breaks join shorten
snippet u max s =
    let line = join (lit " ") (u.fields (replace_breaks s)) in
    if leb (u.rune_count line) max then line else shorten u max (length line) line ++ ellipsis

-- What the documentation of the package says: no rune is in no text, and the last rune of a text has
-- a byte at least.
abbrev pub AreRunes : Runes → Type 0
AreRunes u = (u.rune_count [] ≡ 0) × ((s : Bytes) → s ≢ [] → 0 < u.last_size s)

shorten_count :
    (u : Runes) (max n : ℕ) (s : Bytes)
    → AreRunes u
    → length s ≤ n
    → u.rune_count (shorten u max n s) ≤ max
unfolding shorten
shorten_count u max zero [] (z, p) h = omega (arith, z)
shorten_count u max zero (c ∷ s) (z, p) h = ground (arith, h)
shorten_count u max (suc n) [] (z, p) h = omega (arith, z)
shorten_count u max (suc n) (c ∷ s) (z, p) h =
    let k = length (c ∷ s) - u.last_size (c ∷ s) in
    let q = p (c ∷ s) (λ e. ground (arith, e)) in
    let ih =
      shorten_count u max n (take k (c ∷ s)) (z, p) (omega (arith, length-take k (c ∷ s), q, h)) in
    elim (Bool-cases (leb (u.rune_count (c ∷ s)) max)) [
      | inl e ↦ rw (e, shorten) (leb→le (u.rune_count (c ∷ s)) max e)
      | inr e ↦ rw (e, shorten) ih
    ]

-- A text is of at most so many runes, or one that was is followed by the ellipsis: the loop ends
-- before the text is too short.
pub snippet_runes :
    (u : Runes) (max : ℕ) (s : Bytes)
    → AreRunes u
    → (u.rune_count (snippet u max s) ≤ max)
      ⊎ ((cut : Bytes) × (snippet u max s ≡ cut ++ ellipsis) × (u.rune_count cut ≤ max))
unfolding snippet
snippet_runes u max s h =
    let line = join (lit " ") (u.fields (replace_breaks s)) in
    elim (Bool-cases (leb (u.rune_count line) max)) [
      | inl e ↦ inl (rw (e, snippet) (leb→le (u.rune_count line) max e))
      | inr e ↦ inr (
        shorten u max (length line) line,
        rw (e, snippet) refl,
        shorten_count u max (length line) line h (omega arith),
      )
    ]
