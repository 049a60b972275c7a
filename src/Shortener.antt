-- ===== src/Shortener.antt =====
-- The client of the URL shortener that the monitors use: ShortenBatch of monitor/urlshort.go. What
-- the service answers to a request is a parameter.
pub mod Pairs
pub mod Complete
mod Tests
use dflybot.Prelude.{ℕ, zero, suc, Option, none, some, List, [], ◌∷◌, length, take, drop}
use dflybot.Prelude.Bytes.{Bytes}
use dflybot.Prelude.Sorted.{insert}
use dflybot.GitMonitor.{Map}

-- A request fails, or its decoded answer has a short URL or none for each result.
pub data BatchReply : Type 0 where
  failed : Bytes → BatchReply
  answered : List (Option Bytes) → BatchReply

abbrev pub short_batch_size : ℕ
short_batch_size = 100

-- A result without a link has no short URL, and a blank one does not count.
abbrev pub add_short : Bytes → Option Bytes → Map → Map
add_short target none short = short
add_short target (some []) short = short
add_short target (some (c ∷ url)) short = insert target (c ∷ url) short

-- The results by the targets of the request, up to the shorter list.
unfoldable pub pair_results : List Bytes → List (Option Bytes) → Map → Map
pair_results [] results short = short
pair_results (t ∷ ts) [] short = short
pair_results (t ∷ ts) (r ∷ results) short = pair_results ts results (add_short t r short)

unfoldable pub copy_into : Map → Map → Map
copy_into [] short = short
copy_into ((t, url) ∷ chunk) short = copy_into chunk (insert t url short)

abbrev pub first_error : Option Bytes → Bytes → Option Bytes
first_error none e = some e
first_error (some e0) e = some e0

abbrev pub use_reply : List Bytes → BatchReply → Map → Option Bytes → Map × Option Bytes
use_reply chunk (failed e) short err = (short, first_error err e)
use_reply chunk (answered results) short err =
    (copy_into (pair_results chunk results []) short, err)

-- The loop over the chunks; each round takes a target at least, so that as many rounds as there are
-- targets are enough.
unfoldable pub shorten_loop :
    (List Bytes → BatchReply) → ℕ → List Bytes → Map → Option Bytes → Map × Option Bytes
unfolding pair_results copy_into
shorten_loop post n [] short err = (short, err)
shorten_loop post zero (t ∷ ts) short err = (short, err)
shorten_loop post (suc n) (t ∷ ts) short err =
    let chunk = take short_batch_size (t ∷ ts) in
    let (short1, err1) = use_reply chunk (post chunk) short err in
    shorten_loop post n (drop short_batch_size (t ∷ ts)) short1 err1

unfoldable pub shorten_batch : (List Bytes → BatchReply) → List Bytes → Map × Option Bytes
unfolding shorten_loop
shorten_batch post targets = shorten_loop post (length targets) targets [] none
