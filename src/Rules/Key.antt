-- ===== src/Rules/Key.antt =====
-- ValidateKey of urlshort/rules.go, with reservedExactKeys of urlshort/config.go.
pub mod Valid
use dflybot.Prelude.{
  ℕ, zero, suc, Bool, true, false, not, ◌&&◌, ◌||◌, Option, none, some, List, [], ◌∷◌,
  if◌then◌else◌, eqb, ltb, leb, length,
}
use dflybot.Prelude.Bytes.{Bytes, lit, ◌==◌}

-- The error of ValidateKey, one constructor for each message.
pub data KeyError : Type 0 where
  empty no_slash too_long bad_char dot_dot bad_segment reserved : KeyError

abbrev pub max_key_len : ℕ
max_key_len = 256

abbrev pub slash : ℕ
slash = b'/'

-- The cases of the switch.
unfoldable pub valid_char : ℕ → Bool
valid_char c =
    leb b'A' c && leb c b'Z'
    || leb b'a' c && leb c b'z'
    || leb b'0' c && leb c b'9'
    || eqb c slash
    || eqb c b'.'
    || eqb c b'_'
    || eqb c b'~'
    || eqb c b'-'

unfoldable pub check_chars : Bytes → Option KeyError
check_chars [] = none
check_chars (c ∷ s) = if valid_char c then check_chars s else some bad_char

-- strings.Split(s, "/").
unfoldable pub cons_head : ℕ → List Bytes → List Bytes
cons_head c [] = (c ∷ []) ∷ []
cons_head c (s ∷ ss) = (c ∷ s) ∷ ss

unfoldable pub split_slash : Bytes → List Bytes
unfolding cons_head
split_slash [] = [] ∷ []
split_slash (c ∷ s) =
    let rest = split_slash s in if eqb c slash then [] ∷ rest else cons_head c rest

-- A segment that starts with '.' or '~'.
unfoldable pub is_hidden : Bytes → Bool
is_hidden [] = false
is_hidden (c ∷ s) = eqb c b'.' || eqb c b'~'

unfoldable pub check_segments : List Bytes → Option KeyError
unfolding is_hidden
check_segments [] = none
check_segments (seg ∷ rest) =
    let later = check_segments rest in
    if seg == lit ".." then some dot_dot else if is_hidden seg then some bad_segment else later

abbrev pub reserved_exact_keys : List Bytes
reserved_exact_keys = lit "/" ∷ lit "/robots.txt" ∷ lit "/favicon.ico" ∷ []

unfoldable pub check_reserved : Bytes → List Bytes → Option KeyError
check_reserved key [] = none
check_reserved key (k ∷ ks) = if key == k then some reserved else check_reserved key ks

-- The first of two checks that fails.
infixr 40 ◌or_else◌
abbrev pub ◌or_else◌ : Option KeyError → Option KeyError → Option KeyError
none or_else y = y
(some e) or_else y = some e

unfoldable pub starts_with_slash : Bytes → Bool
starts_with_slash [] = false
starts_with_slash (c ∷ s) = eqb c slash

-- `none` is the nil error.
unfoldable pub validate_key : Bytes → Option KeyError
unfolding starts_with_slash
validate_key key =
    if key == []
    then some empty
    else if not (starts_with_slash key)
    then some no_slash
    else if ltb max_key_len (length key)
    then some too_long
    else check_chars key
      or_else check_segments (split_slash key)
      or_else check_reserved key reserved_exact_keys
