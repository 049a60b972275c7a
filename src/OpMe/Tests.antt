-- ===== src/OpMe/Tests.antt =====
-- The theorem on replays at a command that is sent twice.
use mathlib.Core.Path.{subst}
use dflybot.Prelude.{ℕ, ◌+◌, ◌*◌, refl, some, List, [], ◌∷◌, ◌≡◌, ◌≢◌, arith, All}
use dflybot.Prelude.Bytes.{Bytes, lit, ◌==◌, blt}
use dflybot.Prelude.Sorted.{lookup, insert}
use dflybot.TtlCache.{is_expired, get_expire_at, add, get, clean, clean_items}
use dflybot.OpMe.{
  Config, second, in_leeway, handle_op_me, new_seen, Times, Event, command, cleaned, Grant, grants,
}
use dflybot.OpMe.Outcome.{IsSplit}
use dflybot.OpMe.Replay.{AreApart, grants_once}

-- User "a" at the time "9", whatever the argument is.
abbrev parts : Bytes → List Bytes
parts arg = lit "a" ∷ lit "9" ∷ lit "0" ∷ []

abbrev cfg : Config
cfg = record {
  channels = (lit "#dfly", some ((lit "a", lit "key") ∷ [])) ∷ [];
  split = parts;
  to_lower = λ s. s;
  parse_int = λ s. some 9;
  hmac = λ key text. lit "0";
}

parts-IsSplit : IsSplit parts
parts-IsSplit arg user timestamp mac e =
    let q : lit "a" ≡ user = ground (arith, e) in
    subst (All (λ (c : ℕ). c ≢ 58)) q ((λ z. ground (arith, z)), tt)

abbrev at_time : ℕ → Times
at_time t = record { checked = t; got = t + 1; added = t + 2 }

abbrev events : List Event
events =
    command (at_time (second * 10)) (lit "#dfly") []
    ∷ cleaned (second * 11)
    ∷ command (at_time (second * 20)) (lit "#dfly") []
    ∷ []

grants_once_example : AreApart (grants cfg events new_seen)
grants_once_example = grants_once cfg events parts-IsSplit (
  omega arith,
  omega arith,
  omega arith,
  (omega arith, (omega arith, omega arith, omega arith, tt)),
)

granted : List Grant → List Bytes
granted [] = []
granted (g ∷ gs) = g.id ∷ granted gs

-- The second of the commands is refused.
granted_first : granted (grants cfg events new_seen) ≡ lit "a:9" ∷ []
unfolding granted grants handle_op_me in_leeway add get clean clean_items is_expired get_expire_at
    lookup insert ◌==◌ blt
granted_first = refl

-- The readings of a command at the end of the leeway that is delayed.
abbrev delayed : List Event
delayed =
    command (record { checked = 0; got = 0; added = 0 }) (lit "#dfly") []
    ∷ command (record { checked = second * 69; got = second * 121; added = second * 121 })
        (lit "#dfly") []
    ∷ []

-- A delayed replay is granted.
granted_twice : granted (grants cfg delayed new_seen) ≡ lit "a:9" ∷ lit "a:9" ∷ []
unfolding granted grants handle_op_me in_leeway add get clean clean_items is_expired get_expire_at
    lookup insert ◌==◌ blt
granted_twice = refl
