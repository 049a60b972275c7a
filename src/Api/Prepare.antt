-- ===== src/Api/Prepare.antt =====
-- prepareCreate of urlshort/api.go: validating one create request without writing.
use dflybot.Prelude.{ℕ, Bool, not, Option, none, some, List, [], if◌then◌else◌}
use dflybot.Prelude.Bytes.{Bytes, ◌==◌}
use dflybot.Store.Error.{Error, Result, ok, err, ◌>>=◌, forbidden, random_failed}
use dflybot.Store.Link.{Link, CreateRequest, Buckets, Db}
use dflybot.Store.Read.{resolve, get}
use dflybot.Auth.{Client, can_access, first_namespace}
use dflybot.Rules.Key.{validate_key}
use dflybot.Rules.Match.{Rule, Vars, match}
use dflybot.Rules.Generate.{render, generate_key}
use dflybot.Rules.Random.{generate_random_key}
use dflybot.Api.Target.{target, refused, canonicalize_target}
use dflybot.Api.Types.{Server, ApiError, bad_request, forbidden_error, internal_error}

-- `failed` carries the error given to status.SetError, if any.
pub data Prepared : Type 0 where
  request : CreateRequest → Prepared
  existing : Link → Prepared
  failed : ApiError → Option Error → Prepared

-- A list of reads that runs out stands for a rand.Read that fails from then on.
unfoldable pub or_failed : Option (Result Bytes) → Result Bytes
or_failed none = err random_failed
or_failed (some r) = r

-- The generator of a target that no rule matches.
unfoldable pub random_gen : Bytes → List (Option ℕ) → (Bytes → Result Bool) → Result Bytes
unfolding or_failed
random_gen ns reads is_free = or_failed (generate_random_key ns is_free reads)

-- The generator of a matched rule: the key must be the client's.
unfoldable pub rule_gen : Client → Rule → Vars → (Bytes → Result Bool) → Result Bytes
rule_gen c rule vars is_free = do
  key ← generate_key rule vars is_free
  if can_access c key then ok key else err forbidden

abbrev new_request :
    Client → Bytes → Bytes → Bytes → Option ((Bytes → Result Bool) → Result Bytes) → CreateRequest
new_request c t rule explicit gen = record {
  target = t;
  rule = rule;
  owner = c.name;
  explicit_key = explicit;
  gen = gen;
}

-- An explicit key.
unfoldable pub prepare_explicit : Client → Bytes → Bytes → Prepared
prepare_explicit c t explicit = elim (validate_key explicit) [
  | some e ↦ failed bad_request none
  | none ↦
      if can_access c explicit
      then request (new_request c t [] explicit none)
      else failed forbidden_error none
]

-- A new target that no rule matches.
unfoldable pub prepare_random : List (Option ℕ) → Client → Bytes → Prepared
prepare_random reads c t =
    if first_namespace c == []
    then failed bad_request none
    else request (new_request c t [] [] (some (random_gen (first_namespace c) reads)))

-- A new target that a rule matches.
unfoldable pub prepare_rule : Client → Bytes → Rule → Vars → Prepared
prepare_rule c t rule vars = elim (render rule vars) [
  | err e ↦ failed internal_error (some e)
  | ok full ↦
      if can_access c full
      then request (new_request c t rule.name [] (some (rule_gen c rule vars)))
      else failed forbidden_error none
]

module _ (B : Buckets) (s : Server) where
  -- The link that the target has already.
  unfoldable pub published : Bytes → Db B → Option Link
  published t db = elim (resolve B t db) [
    | err e ↦ none
    | ok key ↦ elim (get B key db) [ err e ↦ none | ok l ↦ some l ]
  ]

  unfoldable pub prepare_new : List (Option ℕ) → Client → Bytes → Prepared
  prepare_new reads c t = elim (match t s.rules) [
    | none ↦ prepare_random reads c t
    | some (rule, vars) ↦ prepare_rule c t rule vars
  ]

  unfoldable pub prepare_target : List (Option ℕ) → Client → Bytes → Bytes → Db B → Prepared
  prepare_target reads c t explicit db =
      if not (explicit == [])
      then prepare_explicit c t explicit
      else elim (published t db) [ some l ↦ existing l | none ↦ prepare_new reads c t ]

  unfoldable pub prepare_create : List (Option ℕ) → Client → Bytes → Bytes → Db B → Prepared
  prepare_create reads c raw explicit db = elim (canonicalize_target s.urls raw) [
    | refused e ↦ failed bad_request none
    | target t ↦ prepare_target reads c t explicit db
  ]
