-- ===== src/OpMe.antt =====
-- The !opme command of the IRC bot: handleOpMe of irc.go with its cache (TtlCache). Times are in
-- nanoseconds, and none is before 1970. A command reads the clock three times. The commands run one
-- after the other. The library's functions on strings and numbers, and HMAC, are parameters.
pub mod Outcome
pub mod Replay
mod Tests
use dflybot.Prelude.{
  ◌&&◌, ℕ, ◌+◌, ◌-◌, ◌*◌, Bool, true, false, not, Option, none, some, List, [], ◌∷◌, ◌++◌,
  if◌then◌else◌, ltb,
}
use dflybot.Prelude.Bytes.{Bytes, ◌==◌, lit}
use dflybot.TtlCache.{Cache, default_ttl, add, get, clean}

-- The channels with their opme keys by user, none for a channel without, and strings.Split at a
-- colon, strings.ToLower, strconv.ParseInt and the hexadecimal HMAC-SHA256 of a text by a key.
pub record Config : Type 0 where
  pub channels : List (Bytes × Option (List (Bytes × Bytes)))
  pub split : Bytes → List Bytes
  pub to_lower : Bytes → Bytes
  pub parse_int : Bytes → Option ℕ
  pub hmac : Bytes → Bytes → Bytes

-- What the bot says to the nick, or the mode +o, for an authID.
pub data Reply : Type 0 where
  unsupported : Reply
  invalid : Reply
  denied : Reply
  granted : Bytes → Reply

abbrev pub opme_leeway : ℕ
opme_leeway = 60000000000

abbrev pub second : ℕ
second = 1000000000

-- The first of this name.
abbrev pub find : {A : Type 0} → Bytes → List (Bytes × A) → Option A
find k [] = none
find k ((j, a) ∷ es) = if j == k then some a else find k es

abbrev pub no_creds : Option (Option (List (Bytes × Bytes))) → Option (List (Bytes × Bytes))
no_creds none = none
no_creds (some creds) = creds

abbrev pub key_of : Option Bytes → Bytes
key_of none = []
key_of (some k) = k

-- The time is at most the leeway away from the timestamp.
unfoldable pub in_leeway : ℕ → ℕ → Bool
in_leeway now ts =
    not (ltb opme_leeway (now - ts * second)) && not (ltb opme_leeway (ts * second - now))

-- The user, the timestamp and the MAC of an argument.
abbrev pub args_of : List Bytes → Option (Bytes × Bytes × Bytes)
args_of (user ∷ timestamp ∷ mac ∷ []) = some (user, timestamp, mac)
args_of args = none

-- The value of a key, struct{}{}.
pub data Mark : Type 0 where
  mark : Mark

abbrev pub Seen : Type 0
Seen = Cache Mark

abbrev pub auth_id : Bytes → Bytes → Bytes
auth_id user timestamp = user ++ lit ":" ++ timestamp

-- The readings of the clock by time.Since, cache.Get and cache.Add.
pub record Times : Type 0 where
  pub checked : ℕ
  pub got : ℕ
  pub added : ℕ

module _ (cfg : Config) where
  abbrev pub check_replay : Times → Bytes → Seen → Option Mark → Seen × Reply
  check_replay ts id cache (some u) = (cache, denied)
  check_replay ts id cache none = ((add id mark default_ttl ts.added cache).0, granted id)

  abbrev pub check_mac : Times → Bytes → Bytes → Bytes → Seen → Seen × Reply
  check_mac ts id key mac cache =
      if key == []
      then (cache, denied)
      else if cfg.hmac key id == mac
      then check_replay ts id cache (get id ts.got cache)
      else (cache, denied)

  abbrev pub check_time :
      Times → List (Bytes × Bytes) → Bytes → Bytes → Bytes → Option ℕ → Seen → Seen × Reply
  check_time ts creds user timestamp mac none cache = (cache, invalid)
  check_time ts creds user timestamp mac (some n) cache =
      if in_leeway ts.checked n
      then check_mac ts (auth_id user timestamp) (key_of (find user creds)) (cfg.to_lower mac) cache
      else (cache, invalid)

  abbrev pub check_args :
      Times → List (Bytes × Bytes) → Option (Bytes × Bytes × Bytes) → Seen → Seen × Reply
  check_args ts creds none cache = (cache, invalid)
  check_args ts creds (some (user, timestamp, mac)) cache =
      check_time ts creds user timestamp mac (cfg.parse_int timestamp) cache

  abbrev pub check_creds : Times → Bytes → Option (List (Bytes × Bytes)) → Seen → Seen × Reply
  check_creds ts arg none cache = (cache, unsupported)
  check_creds ts arg (some creds) cache = check_args ts creds (args_of (cfg.split arg)) cache

  unfoldable pub handle_op_me : Times → Bytes → Bytes → Seen → Seen × Reply
  unfolding in_leeway add get
  handle_op_me ts channel arg cache =
      check_creds ts arg (no_creds (find channel cfg.channels)) cache

-- The cache of a new bot.
abbrev pub new_seen : Seen
new_seen = record { items = []; own_ttl = opme_leeway * 2 }

-- A command with its times, channel and argument, or a round of the cache's cleaning.
pub data Event : Type 0 where
  command : Times → Bytes → Bytes → Event
  cleaned : ℕ → Event

-- A grant: its authID and the times of its command.
pub record Grant : Type 0 where
  pub id : Bytes
  pub times : Times

abbrev pub with_grant : Times → Reply → List Grant → List Grant
with_grant ts unsupported gs = gs
with_grant ts invalid gs = gs
with_grant ts denied gs = gs
with_grant ts (granted id) gs = record { id = id; times = ts } ∷ gs

-- The grants that come of events.
unfoldable pub grants : Config → List Event → Seen → List Grant
unfolding handle_op_me clean
grants cfg [] cache = []
grants cfg (command ts channel arg ∷ events) cache =
    let (cache1, reply) = handle_op_me cfg ts channel arg cache in
    with_grant ts reply (grants cfg events cache1)
grants cfg (cleaned now ∷ events) cache = grants cfg events (clean now cache).0
