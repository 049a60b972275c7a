-- ===== src/Api/Listing.antt =====
-- listLinks and listFiltered of urlshort/api.go.
pub mod Access
pub mod Ends
mod Tests
use dflybot.Prelude.{
  ℕ, zero, suc, ◌+◌, Bool, true, false, not, Option, none, some, List, [], ◌∷◌, ◌++◌, if◌then◌else◌,
  leb, ltb, length,
}
use mathlib.Core.List.{map}
use dflybot.Prelude.Bytes.{Bytes, ◌==◌, lit}
use dflybot.Store.Error.{Error, Result, ok, err}
use dflybot.Store.Link.{Link, Buckets, Db}
use dflybot.Store.Read.{list}
use dflybot.Auth.{Client, can_access}
use dflybot.Api.Types.{
  Server, bad_request, forbidden_error, internal_error, link_view, Body, no_access, Outcome,
  api_failure,
}
use dflybot.Api.Types

-- The query parameter `limit`: missing, not a positive integer by strconv.Atoi, or one.
pub data Limit : Type 0 where
  default invalid : Limit
  positive : ℕ → Limit

pub record ListQuery : Type 0 where
  pub namespace : Bytes
  pub limit : Limit
  pub cursor : Bytes

-- The inner loop of listFiltered: the links so far, and the key at which the limit was reached.
unfoldable pub collect : Client → ℕ → List Link → List Link → List Link × Option Bytes
collect c limit [] out = (out, none)
collect c limit (l ∷ ls) out =
    let out' = if can_access c l.key then out ++ l ∷ [] else out in
    let rest = collect c limit ls out' in
    if leb limit (length out') then (out', some l.key) else rest

abbrev pub capped : ℕ → ℕ
capped n = if ltb 1000 n then 1000 else n

-- One namespace, if the client has no other.
unfoldable pub only_namespace : List Bytes → Option Bytes
only_namespace [] = none
only_namespace (ns ∷ []) = some ns
only_namespace (ns ∷ _ ∷ _) = none

module _ (B : Buckets) where
  -- The outer loop, with fuel for each call of List; `none` is the run that wants more.
  unfoldable pub list_filtered_loop :
      ℕ → Client → ℕ → List Link → Bytes → Db B → Option (Result (List Link × Bytes))
  unfolding collect
  list_filtered_loop zero c limit out next db = none
  list_filtered_loop (suc fuel) c limit out next db = elim (ltb (length out) limit) [
    | false ↦ some (ok (out, next))
    | true ↦ elim (list B [] limit next db) [
      | err e ↦ some (err e)
      | ok (batch, n) ↦
          let (out', hit) = collect c limit batch out in
          elim hit [
            | some k ↦ some (ok (out', k))
            | none ↦ elim (n == []) [
              | true ↦ some (ok (out', []))
              | false ↦ list_filtered_loop fuel c limit out' n db
            ]
          ]
    ]
  ]

  -- One call more than there are entries.
  unfoldable pub list_filtered : Client → ℕ → Bytes → Db B → Option (Result (List Link × Bytes))
  unfolding list_filtered_loop
  list_filtered c limit cursor db =
      list_filtered_loop (length (B.links.entries db.links) + 1) c limit [] cursor db

  -- The links of a client, when the request names no namespace.
  unfoldable pub list_own : Client → ℕ → Bytes → Db B → Option (Result (List Link × Bytes))
  unfolding list_filtered only_namespace
  list_own c limit cursor db =
      if c.is_admin then some (list B [] limit cursor db) else elim (only_namespace c.namespaces) [
        | some ns ↦ some (list B ns limit cursor db)
        | none ↦ list_filtered c limit cursor db
      ]

module _ (B : Buckets) (s : Server) where
  unfoldable pub list_answer : Result (List Link × Bytes) → Db B → Outcome B
  list_answer (err e) db = record (api_failure internal_error db) { set_error = some e }
  list_answer (ok (ls, next)) db = record {
    status = 200;
    body = Body.links (map (link_view s) ls) next;
    access = record no_access { action = lit "resolve" };
    set_error = none;
    db = db;
  }

  unfoldable pub list_with_limit : Client → ListQuery → ℕ → Db B → Option (Outcome B)
  unfolding list_answer list_own
  list_with_limit c q limit db =
      if not (q.namespace == [])
      then (if not (can_access c q.namespace)
          then some (api_failure forbidden_error db)
          else some (list_answer (list B q.namespace limit q.cursor db) db))
      else elim (list_own B c limit q.cursor db) [ none ↦ none | some r ↦ some (list_answer r db) ]

  unfoldable pub list_links : Client → ListQuery → Db B → Option (Outcome B)
  unfolding list_with_limit
  list_links c q db = elim q.limit [
    | invalid ↦ some (api_failure bad_request db)
    | default ↦ list_with_limit c q 100 db
    | positive n ↦ list_with_limit c q (capped n) db
  ]
