-- ===== src/Rules/Match.antt =====
-- Rule, NewRuleset and Match of urlshort/rules.go. Regular expressions and templates are Go's
-- `regexp` and `text/template`: a compiled one is the function that the code calls.
use dflybot.Prelude.{
  ℕ, ◌-◌, Bool, true, false, ◌&&◌, Option, none, some, List, [], ◌∷◌, ◌⊎◌, inl, inr, if◌then◌else◌,
  eqb, length, take, drop,
}
use dflybot.Prelude.Bytes.{Bytes, ◌==◌}
use dflybot.Store.Error.{Result}

-- map[string]string, as its lookup function.
abbrev pub Vars : Type 0
Vars = Bytes → Option Bytes

-- A compiled pattern: FindStringSubmatchIndex (a pair of positions for each group, `none` for the
-- pair -1) and SubexpNames.
pub record Regexp : Type 0 where
  pub find : Bytes → Option (List (Option (ℕ × ℕ)))
  pub names : List Bytes

pub record Rule : Type 0 where
  pub name : Bytes
  pub re : Regexp
  pub execute : Vars → Result Bytes
  pub hash : Bytes
  pub hash_minlen : ℕ

-- A [[rules]] entry of urlshort/config.go.
pub record RuleConfig : Type 0 where
  pub name : Bytes
  pub match : Bytes
  pub key : Bytes
  pub hash : Bytes
  pub hash_minlen : ℕ

-- The errors of NewRuleset.
pub data RuleError : Type 0 where
  bad_match matches_empty bad_template : RuleError

unfoldable pub is_some {ℓ} : {A : Type ℓ} → Option A → Bool
is_some none = false
is_some (some a) = true

-- regexp.Compile and parseKeyTemplate (with its abbreviations) are parameters.
module _ (compile : Bytes → Option Regexp) (parse : Bytes → Option (Vars → Result Bytes)) where
  -- One configured rule.
  unfoldable pub new_rule : RuleConfig → RuleError ⊎ Rule
  unfolding is_some
  new_rule cfg = elim (compile cfg.match) [
    | none ↦ inl bad_match
    | some re ↦ if is_some (re.find []) then inl matches_empty else elim (parse cfg.key) [
      | none ↦ inl bad_template
      | some execute ↦ inr (record {
        name = cfg.name;
        re = re;
        execute = execute;
        hash = cfg.hash;
        hash_minlen = cfg.hash_minlen;
      })
    ]
  ]

  unfoldable pub new_ruleset : List RuleConfig → RuleError ⊎ List Rule
  unfolding new_rule
  new_ruleset [] = inr []
  new_ruleset (cfg ∷ cfgs) = elim (new_rule cfg) [
    | inl e ↦ inl e
    | inr r ↦ elim (new_ruleset cfgs) [ inl e ↦ inl e | inr rs ↦ inr (r ∷ rs) ]
  ]

-- target[from:to]
unfoldable pub slice : Bytes → ℕ → ℕ → Bytes
slice s from to = take (to - from) (drop from s)

-- m[key] = v
unfoldable pub set_var : Bytes → Bytes → Vars → Vars
set_var key v vars k = if key == k then some v else vars k

-- The loop over the groups after the whole match: `i` has gone, blank names are skipped.
unfoldable pub group_vars : Bytes → List Bytes → List (Option (ℕ × ℕ)) → Vars → Vars
unfolding slice set_var
group_vars target [] groups vars = vars
group_vars target (name ∷ names) [] vars = vars
group_vars target (name ∷ names) (none ∷ groups) vars = group_vars target names groups vars
group_vars target (name ∷ names) (some (from, to) ∷ groups) vars =
    group_vars target names groups
      (if name == [] then vars else set_var name (slice target from to) vars)

abbrev pub no_vars : Vars
no_vars k = none

-- The groups that follow a match of the whole target; `none` where the loop of Match continues.
unfoldable pub whole_match : Bytes → Option (List (Option (ℕ × ℕ))) → Option (List (Option (ℕ × ℕ)))
whole_match target none = none
whole_match target (some []) = none
whole_match target (some (none ∷ groups)) = none
whole_match target (some (some (from, to) ∷ groups)) =
    if eqb from 0 && eqb to (length target) then some groups else none

-- The name of group 0, the whole match, is skipped.
abbrev pub group_names : List Bytes → List Bytes
group_names [] = []
group_names (whole ∷ names) = names

unfoldable pub match : Bytes → List Rule → Option (Rule × Vars)
unfolding whole_match group_vars
match target [] = none
match target (r ∷ rs) = elim (whole_match target (r.re.find target)) [
  | none ↦ match target rs
  | some groups ↦ some (r, group_vars target (group_names r.re.names) groups no_vars)
]
