-- ===== src/Rules/Tests.antt =====
-- Runs of the rules engine, and the theorems at concrete inputs. The rule renders `/h/` and its
-- group `id`.
use dflybot.Prelude.{
  ℕ, zero, suc, ◌≤◌, Bool, true, false, Option, none, some, List, [], ◌∷◌, ◌++◌, ◌≡◌, ◌≢◌, ◌↔◌,
  refl, arith, length, if◌then◌else◌,
}
use dflybot.Prelude.Bytes.{Bytes, lit, ◌==◌, ne_of_test}
use dflybot.Store.Error.{Result, ok}
use dflybot.Rules.Key.{
  validate_key, check_chars, valid_char, split_slash, check_segments, check_reserved, bad_segment,
  reserved,
}
use dflybot.Rules.Key.Valid.{IsKey, validate_key_iff}
use dflybot.Rules.Match.{Rule, Vars, Regexp, match}
use dflybot.Rules.Generate.{render, generate_key}
use dflybot.Rules.Generate.Shortest.{IsFirst, IsTaken, generate_key_hash_iff}
use dflybot.Rules.Random.{random_id, ends_with_slash, generate_random_key}
use dflybot.Rules.Random.Shape.{accepted}

accepted_key : validate_key (lit "/g/dragonfly-1.2_x") ≡ none
unfolding validate_key check_chars valid_char split_slash check_segments check_reserved ◌==◌
accepted_key = refl

refused_keys :
    (validate_key (lit "/.api/x") ≡ some bad_segment)
    × (validate_key (lit "/robots.txt") ≡ some reserved)
unfolding validate_key check_chars valid_char split_slash check_segments check_reserved ◌==◌
refused_keys = (refl, refl)

validate_key_iff_example : (validate_key (lit "/g/a") ≡ none) ↔ IsKey (lit "/g/a")
validate_key_iff_example = validate_key_iff (lit "/g/a")

-- (?P<id>.+)
abbrev any : Regexp
any = record {
  find = λ s. some (some (0, length s) ∷ some (0, length s) ∷ []);
  names = [] ∷ lit "id" ∷ [];
}

abbrev below_h : Option Bytes → Result Bytes
below_h none = ok (lit "/h/")
below_h (some s) = ok (lit "/h/" ++ s)

abbrev hashed : Rule
hashed = record {
  name = lit "hash";
  re = any;
  execute = λ vars. below_h (vars (lit "id"));
  hash = lit "id";
  hash_minlen = 2;
}

abbrev vars : Vars
vars k = if k == lit "id" then some (lit "abcd") else none

-- Only /h/ab is taken.
abbrev is_free : Bytes → Result Bool
is_free k = if k == lit "/h/ab" then ok false else ok true

abbrev never_free : Bytes → Result Bool
never_free k = ok false

program : Unit {0}
unfolding validate_key check_chars valid_char split_slash check_segments check_reserved ◌==◌
    generate_key render match random_id ends_with_slash generate_random_key accepted
program = tt

three_characters : generate_key hashed vars is_free ≡ ok (lit "/h/abc")
unfolding program
three_characters = refl

generate_key_hash_iff_example :
    (generate_key hashed vars is_free ≡ ok (lit "/h/abc"))
    ↔ ((i : ℕ) × IsFirst hashed vars (lit "abcd") is_free 3 2 i (lit "/h/abc"))
unfolding program
generate_key_hash_iff_example =
    generate_key_hash_iff hashed vars (lit "abcd") is_free (lit "/h/abc")
      (ne_of_test (lit "id") [] refl) refl (ne_of_test (lit "abcd") [] refl)

all-IsTaken : (j : ℕ) → 2 ≤ j → j ≤ 4 → IsTaken hashed vars (lit "abcd") never_free j
unfolding program
all-IsTaken zero a b = absurd (omega arith)
all-IsTaken (suc zero) a b = absurd (omega arith)
all-IsTaken (suc (suc zero)) a b = (lit "/h/ab", refl, refl)
all-IsTaken (suc (suc (suc zero))) a b = (lit "/h/abc", refl, refl)
all-IsTaken (suc (suc (suc (suc zero)))) a b = (lit "/h/abcd", refl, refl)
all-IsTaken (suc (suc (suc (suc (suc j))))) a b = absurd (omega arith)

abbrev reads : List (Option ℕ)
reads =
    some 0
    ∷ some 250
    ∷ some 1
    ∷ some 2
    ∷ some 3
    ∷ some 4
    ∷ some 5
    ∷ some 6
    ∷ some 7
    ∷ some 8
    ∷ some 9
    ∷ some 10
    ∷ some 61
    ∷ []

random_key : generate_random_key (lit "/g/") is_free reads ≡ some (ok (lit "/g/~0123456789Az"))
unfolding program
random_key = refl

read : (b : ℕ) → some b ≢ none
read b e = cc
