-- ===== src/Shortener/Complete.antt =====
-- What ShortenBatch of monitor/urlshort.go knows of its targets, by the replies to its requests.
use mathlib.Core.List.{map}
use dflybot.Prelude.{
  ℕ, zero, suc, ◌≤◌, Bool, ◌||◌, Option, none, some, List, [], ◌∷◌, ◌++◌, ◌≡◌, ◌⊎◌, inl, inr, arith,
  refl, sym, ap, ◌∙◌, length, length-take, take-drop, take, drop, All, if◌then◌else◌,
}
use dflybot.Prelude.Bytes.{Bytes}
use dflybot.Prelude.Sorted.{lookup}
use dflybot.GitMonitor.{Map}
use dflybot.GitMonitor.Send.{mem}
use dflybot.GitMonitor.Send.Batch.{concat}
use dflybot.Api.Batch.{max_batch_create}
use dflybot.Shortener.Pairs.{
  usable, or_else, pair_results-lookup, pair_results-IsAscending, copy_into-lookup, twice_or,
  or_else-none,
}
use dflybot.Shortener.{
  BatchReply, failed, answered, short_batch_size, first_error, pair_results, use_reply,
  shorten_loop, shorten_batch,
}

mem-append : (x : Bytes) (xs ys : List Bytes) → mem x (xs ++ ys) ≡ (mem x xs || mem x ys)
mem-append x [] ys = refl
mem-append x (t ∷ xs) ys = ground (arith, mem-append x xs ys)

length-drop_less :
    (n : ℕ) (t : Bytes) (ts : List Bytes) → length (drop (suc n) (t ∷ ts)) ≤ length ts
length-drop_less zero t ts = omega arith
length-drop_less (suc n) t [] = omega arith
length-drop_less (suc n) t (u ∷ ts) = omega (arith, length-drop_less n u ts)

-- A reply to a request: an error, or the short URLs of its targets in their order.
abbrev pub IsReply : (Bytes → Option Bytes) → List Bytes → BatchReply → Type 0
IsReply url_of ts reply = (reply ≡ answered (map url_of ts)) ⊎ ((e : Bytes) × (reply ≡ failed e))

abbrev answered_targets : List Bytes → BatchReply → List Bytes
answered_targets ts (failed e) = []
answered_targets ts (answered results) = ts

abbrev reply_error : BatchReply → Option Bytes
reply_error (failed e) = some e
reply_error (answered results) = none

-- The targets of the requests that are answered, and the error of the first that is not.
unfoldable pub all_answered : (List Bytes → BatchReply) → List (List Bytes) → List Bytes
all_answered post [] = []
all_answered post (ts ∷ chunks) = answered_targets ts (post ts) ++ all_answered post chunks

unfoldable pub all_errors : (List Bytes → BatchReply) → List (List Bytes) → Option Bytes
all_errors post [] = none
all_errors post (ts ∷ chunks) = or_else (reply_error (post ts)) (all_errors post chunks)

or_else_assoc : (a b c : Option Bytes) → or_else (or_else a b) c ≡ or_else a (or_else b c)
or_else_assoc none b c = refl
or_else_assoc (some s) b c = refl

or_else_nothing : (a : Option Bytes) → or_else a none ≡ a
or_else_nothing none = refl
or_else_nothing (some s) = refl

first_error-or : (err : Option Bytes) (e : Bytes) → first_error err e ≡ or_else err (some e)
first_error-or none e = refl
first_error-or (some e0) e = refl

-- A request that the service takes.
abbrev pub IsAllowed : List Bytes → Type 0
IsAllowed ts = (1 ≤ length ts) × (length ts ≤ max_batch_create)

module _ (post : List Bytes → BatchReply) (url_of : Bytes → Option Bytes)
    (replies : (ts : List Bytes) → IsReply url_of ts (post ts)) where
  -- What the client knows of a target after it learned those of a list.
  abbrev learned : Bool → Bytes → Option Bytes → Option Bytes
  learned asked x before = if asked then or_else (usable (url_of x)) before else before

  learned_twice :
      (a b : Bool) (x : Bytes) (o : Option Bytes)
      → learned b x (or_else (if a then or_else (usable (url_of x)) none else none) o)
        ≡ learned (a || b) x o
  learned_twice a b x o = twice_or a b (usable (url_of x)) o

  use_answer-lookup :
      (chunk : List Bytes) (short : Map) (err : Option Bytes) (x : Bytes)
      → lookup x (use_reply chunk (answered (map url_of chunk)) short err).0
        ≡ or_else (if mem x chunk then or_else (usable (url_of x)) none else none) (lookup x short)
  unfolding lookup
  use_answer-lookup chunk short err x =
      let found = pair_results chunk (map url_of chunk) [] in
      copy_into-lookup found short x
        (pair_results-IsAscending url_of chunk (map url_of chunk) [] tt)
      ∙ ap (λ o. or_else o (lookup x short)) (pair_results-lookup url_of chunk [] x)

  use_reply-Tells :
      (chunk rest : List Bytes) (short : Map) (err : Option Bytes) (x : Bytes)
      → let r = use_reply chunk (post chunk) short err in
        (learned (mem x rest) x (lookup x r.0)
          ≡ learned (mem x (answered_targets chunk (post chunk) ++ rest)) x (lookup x short))
        × (r.1 ≡ or_else err (reply_error (post chunk)))
  use_reply-Tells chunk rest short err x = elim (replies chunk) [
    | inr (e, q) ↦ rw q (refl, first_error-or err e)
    | inl q ↦ rw q (
      ap (learned (mem x rest) x) (use_answer-lookup chunk short err x)
          ∙ learned_twice (mem x chunk) (mem x rest) x (lookup x short)
          ∙ ap (λ b. learned b x (lookup x short)) (sym (mem-append x chunk rest)),
      sym (or_else_nothing err),
    )
  ]

  -- What the client sent as requests, and what it has of them afterwards.
  abbrev Sent : List Bytes → Map → Option Bytes → Map × Option Bytes → List (List Bytes) → Type 0
  Sent ts short err r chunks =
      (concat chunks ≡ ts)
      × All IsAllowed chunks
      × ((x : Bytes) → lookup x r.0 ≡ learned (mem x (all_answered post chunks)) x (lookup x short))
      × (r.1 ≡ or_else err (all_errors post chunks))

  shorten_loop-Sent :
      (n : ℕ) (ts : List Bytes) (short : Map) (err : Option Bytes)
      → length ts ≤ n
      → (chunks : List (List Bytes)) × Sent ts short err (shorten_loop post n ts short err) chunks
  unfolding shorten_loop all_answered all_errors concat
  shorten_loop-Sent zero [] short err l = ([], (refl, tt, (λ x. refl), sym (or_else_nothing err)))
  shorten_loop-Sent (suc n) [] short err l =
      ([], (refl, tt, (λ x. refl), sym (or_else_nothing err)))
  shorten_loop-Sent zero (t ∷ ts) short err l = ground (arith, l)
  shorten_loop-Sent (suc n) (t ∷ ts) short err l =
      let chunk = take short_batch_size (t ∷ ts) in
      let rest = drop short_batch_size (t ∷ ts) in
      let r = use_reply chunk (post chunk) short err in
      let (chunks, (all, allowed, found, errors)) =
        shorten_loop-Sent n rest r.0 r.1 (omega (arith, l, length-drop_less 99 t ts)) in
      (
        chunk ∷ chunks,
        (
          ap (λ l. chunk ++ l) all ∙ take-drop short_batch_size (t ∷ ts),
          (
            (
              omega (arith, length-take short_batch_size (t ∷ ts)),
              omega (arith, length-take short_batch_size (t ∷ ts)),
            ),
            allowed,
          ),
          (λ x. found x ∙ (use_reply-Tells chunk (all_answered post chunks) short err x).0),
          errors
              ∙ ap (λ e. or_else e (all_errors post chunks))
                  (use_reply-Tells chunk [] short err []).1
              ∙ or_else_assoc err (reply_error (post chunk)) (all_errors post chunks),
        ),
      )

  -- Where each reply is an error or has the short URLs of the request's targets in their order:
  -- ShortenBatch sends its targets, however many, in requests of at most as many items as the API
  -- takes, none of them empty. Afterwards it has the short URL of each target of a request that was
  -- answered, if there is one, and nothing else; it goes on after a request that failed, and returns
  -- the first error.
  pub shorten_batch-lookup :
      (targets : List Bytes)
      → (chunks : List (List Bytes)) × (concat chunks ≡ targets)
        × All IsAllowed chunks
        × ((x : Bytes)
            → lookup x (shorten_batch post targets).0
              ≡ (if mem x (all_answered post chunks) then usable (url_of x) else none))
        × ((shorten_batch post targets).1 ≡ all_errors post chunks)
  unfolding shorten_batch lookup
  shorten_batch-lookup targets =
      let (chunks, (all, allowed, found, errors)) =
        shorten_loop-Sent (length targets) targets [] none (omega arith) in
      (
        chunks,
        all,
        allowed,
        (λ x. found x ∙ or_else-none (mem x (all_answered post chunks)) (usable (url_of x))),
        errors,
      )
