-- ===== src/Shortener/Pairs.antt =====
-- The map of short URLs by target that ShortenBatch of monitor/urlshort.go fills.
use mathlib.Core.Path.{subst}
use mathlib.Core.List.{map}
use dflybot.Prelude.{
  Bool, true, false, ◌||◌, Option, none, some, List, [], ◌∷◌, ◌≡◌, inl, inr, arith, refl, ap, ◌∙◌,
  All, Bool-cases, if◌then◌else◌,
}
use dflybot.Prelude.Bytes.{Bytes, ◌==◌, eq_iff, blt}
use dflybot.Prelude.Sorted.{lookup, insert, lookup-insert, IsAscending, insert-IsAscending}
use dflybot.GitMonitor.Refs.{before_differs}
use dflybot.GitMonitor.{Map}
use dflybot.GitMonitor.Send.{mem}
use dflybot.Shortener.{add_short, pair_results, copy_into}

-- A short URL that is not blank.
abbrev pub usable : Option Bytes → Option Bytes
usable none = none
usable (some []) = none
usable (some (c ∷ url)) = some (c ∷ url)

abbrev pub or_else : Option Bytes → Option Bytes → Option Bytes
or_else none o = o
or_else (some s) o = some s

module _ (url_of : Bytes → Option Bytes) where
  add_short-lookup :
      (t x : Bytes) (o : Option Bytes) (short : Map)
      → lookup x (add_short t o short)
        ≡ (if t == x then or_else (usable o) (lookup x short) else lookup x short)
  add_short-lookup t x none short = ground arith
  add_short-lookup t x (some []) short = ground arith
  add_short-lookup t x (some (c ∷ url)) short = lookup-insert t x (c ∷ url) short

  twice :
      (b : Bool) (u o o' : Option Bytes)
      → o ≡ or_else u o'
      → (if b then or_else u o else o) ≡ or_else u o'
  twice true none o o' e = e
  twice true (some s) o o' e = refl
  twice false u o o' e = e

  pub pair_results-lookup :
      (ts : List Bytes) (short : Map) (x : Bytes)
      → lookup x (pair_results ts (map url_of ts) short)
        ≡ (if mem x ts then or_else (usable (url_of x)) (lookup x short) else lookup x short)
  unfolding pair_results
  pair_results-lookup [] short x = refl
  pair_results-lookup (t ∷ ts) short x =
      let ih = pair_results-lookup ts (add_short t (url_of t) short) x in
      let a = add_short-lookup t x (url_of t) short in
      elim (Bool-cases (t == x)) [
        | inl e ↦
            let q = (eq_iff t x).0 e in
            rw e (
              ih
              ∙ twice (mem x ts) (usable (url_of x)) (lookup x (add_short t (url_of t) short))
                  (lookup x short)
                  (rw e at a ∙ ap (λ y. or_else (usable (url_of y)) (lookup x short)) q))
        | inr e ↦
            rw e (ih ∙ ap (λ o. if mem x ts then or_else (usable (url_of x)) o else o) (rw e at a))
      ]

  pub pair_results-IsAscending :
      (ts : List Bytes) (rs : List (Option Bytes)) (short : Map)
      → IsAscending short
      → IsAscending (pair_results ts rs short)
  unfolding pair_results
  pair_results-IsAscending [] rs short a = a
  pair_results-IsAscending (t ∷ ts) [] short a = a
  pair_results-IsAscending (t ∷ ts) (none ∷ rs) short a = pair_results-IsAscending ts rs short a
  pair_results-IsAscending (t ∷ ts) (some [] ∷ rs) short a = pair_results-IsAscending ts rs short a
  pair_results-IsAscending (t ∷ ts) (some (c ∷ u) ∷ rs) short a =
      pair_results-IsAscending ts rs (insert t (c ∷ u) short) (insert-IsAscending t (c ∷ u) short a)

lookup_before :
    (t : Bytes) (m : Map) → All (λ (e : Bytes × Bytes). blt t e.0 ≡ true) m → lookup t m ≡ none
unfolding lookup
lookup_before t [] h = refl
lookup_before t ((j, w) ∷ m) (l, h) = rw (before_differs t j l, lookup) (lookup_before t m h)

pub copy_into-lookup :
    (chunk short : Map) (x : Bytes)
    → IsAscending chunk
    → lookup x (copy_into chunk short) ≡ or_else (lookup x chunk) (lookup x short)
unfolding copy_into lookup
copy_into-lookup [] short x a = refl
copy_into-lookup ((t, u) ∷ chunk) short x (h, a) =
    let ih = copy_into-lookup chunk (insert t u short) x a in
    elim (Bool-cases (t == x)) [
      | inl e ↦
          let n : lookup x chunk ≡ none =
            subst (λ y. lookup y chunk ≡ none) ((eq_iff t x).0 e) (lookup_before t chunk h) in
          rw (e, lookup) (ih ∙ rw (n, lookup-insert t x u short, e) refl)
      | inr e ↦ rw (e, lookup) (ih ∙ rw (lookup-insert t x u short, e) refl)
    ]

pub twice_or :
    (a b : Bool) (u o : Option Bytes)
    → (if b
        then or_else u (or_else (if a then or_else u none else none) o)
        else or_else (if a then or_else u none else none) o)
      ≡ (if a || b then or_else u o else o)
twice_or a b none o = ground arith
twice_or a b (some s) o = ground arith

pub or_else-none :
    (b : Bool) (u : Option Bytes) → (if b then or_else u none else none) ≡ (if b then u else none)
or_else-none b none = refl
or_else-none b (some s) = refl
