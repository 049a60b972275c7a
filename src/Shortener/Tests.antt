-- ===== src/Shortener/Tests.antt =====
-- The client at more targets than one request takes.
use mathlib.Core.List.{map}
use dflybot.Prelude.{
  ℕ, zero, suc, Option, none, some, List, [], ◌∷◌, ◌++◌, ◌≡◌, refl, if◌then◌else◌, Bool, true,
  false, ltb, length, Bool-cases, inl, inr, All,
}
use dflybot.Prelude.Bytes.{Bytes, lit}
use dflybot.Prelude.Sorted.{lookup}
use dflybot.GitMonitor.Send.{mem}
use dflybot.GitMonitor.Send.Batch.{concat}
use dflybot.Shortener.{BatchReply, failed, answered, shorten_batch}
use dflybot.Shortener.Pairs.{usable}
use dflybot.Shortener.Complete.{IsReply, IsAllowed, all_answered, all_errors, shorten_batch-lookup}

abbrev short_of : Bytes → Option Bytes
short_of t = some (lit "s/" ++ t)

-- A request of less than 60 targets fails.
abbrev reply_if : Bool → List Bytes → BatchReply
reply_if true ts = failed (lit "busy")
reply_if false ts = answered (map short_of ts)

abbrev service : List Bytes → BatchReply
service ts = reply_if (ltb (length ts) 60) ts

service-IsReply : (ts : List Bytes) → IsReply short_of ts (service ts)
service-IsReply ts = elim (Bool-cases (ltb (length ts) 60)) [
  | inl e ↦ inr (lit "busy", rw e refl)
  | inr e ↦ inl (rw e refl)
]

abbrev numbered : ℕ → List Bytes
numbered zero = []
numbered (suc n) = (n ∷ []) ∷ numbered n

shorten_batch-lookup_example :
    (chunks : List (List Bytes)) × (concat chunks ≡ numbered 150)
    × All IsAllowed chunks
    × ((x : Bytes)
        → lookup x (shorten_batch service (numbered 150)).0
          ≡ (if mem x (all_answered service chunks) then usable (short_of x) else none))
    × ((shorten_batch service (numbered 150)).1 ≡ all_errors service chunks)
shorten_batch-lookup_example = shorten_batch-lookup service short_of service-IsReply (numbered 150)
