-- ===== src/Rules/Generate.antt =====
-- Render and GenerateKey of urlshort/rules.go.
pub mod Shortest
use dflybot.Prelude.{
  ℕ, zero, suc, ◌+◌, ◌-◌, Bool, true, false, Option, none, some, List, [], ◌∷◌, if◌then◌else◌, ltb,
  length, take,
}
use dflybot.Prelude.Bytes.{Bytes, ◌==◌}
use dflybot.Store.Error.{Result, ok, err, ◌>>=◌, conflict, invalid_key, empty_hash}
use dflybot.Rules.Key.{validate_key}
use dflybot.Rules.Match.{Rule, Vars, set_var}

unfoldable pub checked : Bytes → Result Bytes
checked key = elim (validate_key key) [ none ↦ ok key | some e ↦ err invalid_key ]

unfoldable pub render : Rule → Vars → Result Bytes
unfolding checked
render r vars = do key ← r.execute vars; checked key

-- The key of a rule without a hash group.
unfoldable pub plain_key : Rule → Vars → (Bytes → Result Bool) → Result Bytes
plain_key r vars is_free = do
  key ← render r vars
  free ← is_free key
  if free then ok key else err conflict

-- The rest of the loop over prefix lengths: `rounds` lengths are left, from `l` on.
unfoldable pub hash_loop : Rule → Vars → Bytes → (Bytes → Result Bool) → ℕ → ℕ → Result Bytes
hash_loop r vars hash_val is_free zero l = err conflict
hash_loop r vars hash_val is_free (suc rounds) l =
    let later = hash_loop r vars hash_val is_free rounds (l + 1) in
    do
      key ← render r (set_var r.hash (take l hash_val) vars)
      free ← is_free key
      if free then ok key else later

abbrev pub min_length : Rule → Bytes → ℕ
min_length r hash_val =
    if ltb (length hash_val) r.hash_minlen then length hash_val else r.hash_minlen

unfoldable pub generate_key : Rule → Vars → (Bytes → Result Bool) → Result Bytes
unfolding plain_key hash_loop
generate_key r vars is_free =
    if r.hash == [] then plain_key r vars is_free else elim (vars r.hash) [
      | none ↦ err empty_hash
      | some hash_val ↦
          if hash_val == []
          then err empty_hash
          else hash_loop r vars hash_val is_free (length hash_val + 1 - min_length r hash_val)
              (min_length r hash_val)
    ]
