-- ===== src/JenkinsMonitor.antt =====
-- The Jenkins monitor: its state, what it announces and in which words, as in
-- jenkins-monitor/monitor.go. Numbers are not negative. The shortener and the library's functions on
-- strings are parameters.
pub mod Builds
pub mod Nodes
pub mod Queue
pub mod Poll
mod Tests
use dflybot.Prelude.{
  ℕ, ◌+◌, ◌*◌, ◌/◌, ◌%◌, Bool, true, false, ◌&&◌, Option, none, some, List, [], ◌∷◌, ◌++◌,
  if◌then◌else◌, ltb, eqb,
}
use dflybot.Prelude.Bytes.{Bytes, ◌==◌, lit}
use dflybot.GitMonitor.Send.{join}

pub data Health : Type 0 where
  ok : Health
  failed : Health
  unknown : Health

-- Times are in seconds, `stuck_since` is in milliseconds; a `stuck_item_id` of 0 is none.
pub record JobState : Type 0 where
  pub state : Health
  pub last_result : Bytes
  pub last_build : ℕ
  pub announced : ℕ
  pub consecutive : ℕ
  pub last_url : Bytes
  pub last_seen : ℕ
  pub stuck_item_id : ℕ
  pub stuck_since : ℕ
  pub stuck_why : Bytes

pub record NodeState : Type 0 where
  pub offline : Bool
  pub reason : Bytes
  pub seen : ℕ

-- Both by name, in the order of the names.
pub record MonitorState : Type 0 where
  pub version : ℕ
  pub jobs : List (Bytes × JobState)
  pub nodes : List (Bytes × NodeState)

pub record Build : Type 0 where
  pub number : ℕ
  pub result : Bytes
  pub url : Bytes

abbrev pub new_job : JobState
new_job = record {
  state = unknown;
  last_result = [];
  last_build = 0;
  announced = 0;
  consecutive = 0;
  last_url = [];
  last_seen = 0;
  stuck_item_id = 0;
  stuck_since = 0;
  stuck_why = [];
}

-- The calls of announce, before their text; ages are in milliseconds.
pub data Note : Type 0 where
  failure : Bytes → Build → ℕ → Note
  recovery : Bytes → Build → ℕ → Note
  node_offline : Bytes → Bytes → Note
  node_online : Bytes → Note
  stuck : Bytes → Bytes → ℕ → Note
  cleared : Bytes → ℕ → Note

-- The calls of logHistory, without their times.
pub data HistoryLine : Type 0 where
  job_line : Bytes → JobState → HistoryLine
  node_line : Bytes → NodeState → HistoryLine
  queue_line : Bytes → Bytes → Bytes → HistoryLine

-- What a poll does, in order.
pub data Effect : Type 0 where
  post : Note → Effect
  log : HistoryLine → Effect

-- The configuration of a monitor and what its texts call: Shorten of the shortener, none for an
-- error, strings.TrimSpace, Fields and EqualFold, and the decimal digits of a number.
pub record Config : Type 0 where
  pub name : Bytes
  pub jobs : List Bytes
  pub nodes : List Bytes
  pub queue_stuck_after : ℕ
  pub shortener : Option (Bytes → Option Bytes)
  pub trim : Bytes → Bytes
  pub fields : Bytes → List Bytes
  pub equal_fold : Bytes → Bytes → Bool
  pub digits : ℕ → Bytes

unfoldable pub is_failure : Bytes → Bool
is_failure r = if r == lit "FAILURE" then true else r == lit "UNSTABLE"

module _ (cfg : Config) where
  abbrev use_short : Bytes → Option Bytes → Bytes
  use_short target none = target
  use_short target (some short) = short

  abbrev shorten_with : Option (Bytes → Option Bytes) → Bytes → Bytes
  shorten_with none target = target
  shorten_with (some shorten) [] = []
  shorten_with (some shorten) (c ∷ target) = use_short (c ∷ target) (shorten (c ∷ target))

  unfoldable pub shorten_url : Bytes → Bytes
  shorten_url target = shorten_with cfg.shortener target

  unfoldable pub fail_text : Bytes → Build → ℕ → Bytes
  unfolding shorten_url
  fail_text job b consecutive = cfg.trim (
      job
      ++ lit " FAILED: build #"
      ++ cfg.digits b.number
      ++ (if b.result == lit "UNSTABLE" then lit " (UNSTABLE)" else [])
      ++ (if ltb 1 consecutive
          then lit " (" ++ cfg.digits consecutive ++ lit " consecutive failures)"
          else [])
      ++ lit " "
      ++ shorten_url b.url)

  unfoldable pub recover_text : Bytes → Build → ℕ → Bytes
  unfolding shorten_url
  recover_text job b after =
      job
      ++ lit " RECOVERED: build #"
      ++ cfg.digits b.number
      ++ lit " SUCCESS after "
      ++ cfg.digits after
      ++ lit " failed builds "
      ++ shorten_url b.url

  abbrev offline_reason : Bytes → Bytes
  offline_reason [] = []
  offline_reason (c ∷ reason) = lit ": " ++ c ∷ reason

  unfoldable pub node_text : Bytes → Bool → Bytes → Bytes
  node_text name true reason = lit "executor `" ++ name ++ lit "` OFFLINE" ++ offline_reason reason
  node_text name false reason = lit "executor `" ++ name ++ lit "` back ONLINE"

  unfoldable pub queue_age : ℕ → Bytes
  queue_age age =
      let h = age / 3600000 in
      let m = (age / 60000) % 60 in
      if ltb age 60000
      then lit "<1m"
      else if ltb age 3600000
      then cfg.digits (age / 60000) ++ lit "m"
      else if eqb m 0
      then cfg.digits h ++ lit "h"
      else cfg.digits h ++ lit "h" ++ cfg.digits m ++ lit "m"

  abbrev because : Bytes → Bytes
  because [] = []
  because (c ∷ why) = lit ": " ++ join (lit " ") (cfg.fields (c ∷ why))

  unfoldable pub queue_text : Bytes → Bytes → Bytes → ℕ → Bytes
  unfolding queue_age join
  queue_text job verb why age =
      job
      ++ lit " "
      ++ verb
      ++ because why
      ++ (if ltb 0 age then lit " (since " ++ queue_age age ++ lit " ago)" else [])

  abbrev text : Note → Bytes
  text (failure job b n) = fail_text job b n
  text (recovery job b n) = recover_text job b n
  text (node_offline name reason) = node_text name true reason
  text (node_online name) = node_text name false []
  text (stuck job why age) = queue_text job (lit "STUCK in queue") why age
  text (cleared job age) = queue_text job (lit "queue cleared") [] age

  unfoldable pub announce : Note → Bytes
  unfolding fail_text recover_text node_text queue_text
  announce n = lit "[" ++ cfg.name ++ lit "] " ++ text n
