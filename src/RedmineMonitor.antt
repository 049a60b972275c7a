-- ===== src/RedmineMonitor.antt =====
-- The Redmine monitor: the entries of the activity feed and what is announced of them, as in
-- redmine-monitor/atom.go and redmine-monitor/monitor.go. Numbers are not negative. The library's
-- functions, the poster, the shortener and the feed are parameters.
pub mod Activities
pub mod Posts
pub mod Poll
mod Tests
use mathlib.Core.List.{map}
use dflybot.Prelude.{
  ℕ, ◌+◌, Bool, true, false, not, ◌&&◌, ◌||◌, Option, none, some, List, [], ◌∷◌, ◌++◌,
  if◌then◌else◌, eqb, drop, length,
}
use dflybot.Prelude.Bytes.{Bytes, ◌==◌, lit, has_prefix}
use dflybot.Prelude.Sorted.{lookup, insert}
use dflybot.GitMonitor.{Map}
use dflybot.GitMonitor.Send.{join, replace_breaks}
use dflybot.Feed.{shorten_urls, shown_url, posts}
use dflybot.Feed.Snippet.{Runes, snippet}

-- `links` are the pairs of rel and href, `body` is the content's.
pub record Entry : Type 0 where
  pub title : Bytes
  pub id : Bytes
  pub updated : Bytes
  pub author : Bytes
  pub body : Bytes
  pub links : List (Bytes × Bytes)

pub record IssueTitle : Type 0 where
  pub tracker : Bytes
  pub number : ℕ
  pub status : Bytes
  pub subject : Bytes

pub record Activity : Type 0 where
  pub action : Bytes
  pub number : ℕ
  pub actor : Bytes
  pub tracker : Bytes
  pub subject : Bytes
  pub note : Bytes
  pub status : Bytes
  pub url : Bytes
  pub entry_id : Bytes
  pub at : ℕ

-- The last known state of an issue.
pub record IssueState : Type 0 where
  pub tracker : Bytes
  pub subject : Bytes
  pub status : Bytes

-- The configuration of a monitor and what it calls: GetMaxLength of the poster, ShortenBatch,
-- time.Parse, strings.TrimSpace, the functions of snippet, the four groups of titleRe,
-- strconv.ParseInt and FormatInt, and the text of an HTML body.
pub record Config : Type 0 where
  pub name : Bytes
  pub actions : List Bytes
  pub max_length : ℕ
  pub shortener : Option (List Bytes → Map)
  pub parse_time : Bytes → Option ℕ
  pub trim : Bytes → Bytes
  pub runes : Runes
  pub match_title : Bytes → Option (Bytes × Bytes × Bytes × Bytes)
  pub parse_int : Bytes → Option ℕ
  pub format_int : ℕ → Bytes
  pub plain_text : Bytes → Bytes

-- strings.Index: the text from the first place of another on.
unfoldable pub text_from : Bytes → Bytes → Option Bytes
text_from sub [] = if sub == [] then some [] else none
text_from sub (c ∷ s) =
    let later = text_from sub s in if has_prefix (c ∷ s) sub then some (c ∷ s) else later

-- strings.LastIndex: the text from the last place on.
unfoldable pub text_from_last : Bytes → Bytes → Option Bytes
text_from_last sub [] = if sub == [] then some [] else none
text_from_last sub (c ∷ s) = elim (text_from_last sub s) [
  | some r ↦ some r
  | none ↦ if has_prefix (c ∷ s) sub then some (c ∷ s) else none
]

infixl 20 ◌>>=◌
abbrev ◌>>=◌ {ℓ κ} : {A : Type ℓ} → {B : Type κ} → Option A → (A → Option B) → Option B
none >>= f = none
(some a) >>= f = f a

abbrev is_some : Option Bytes → Bool
is_some none = false
is_some (some s) = true

abbrev pub dash : Bytes
dash = lit " - "

-- The entry's id from "change-" on, blank for a creation.
unfoldable pub journal_id : Entry → Bytes
unfolding text_from
journal_id e = elim (text_from (lit "#change-") e.id) [ none ↦ [] | some r ↦ drop 1 r ]

unfoldable pub is_issue : Entry → Bool
unfolding text_from
is_issue e = is_some (text_from (lit "/issues/") e.id)

unfoldable pub is_creation : Entry → Bool
unfolding is_issue journal_id
is_creation e = is_issue e && journal_id e == []

abbrev alternate : List (Bytes × Bytes) → Bytes
alternate [] = []
alternate ((rel, href) ∷ links) = if rel == lit "alternate" then href else alternate links

unfoldable pub before_hash : Bytes → Bytes
before_hash [] = []
before_hash (c ∷ u) = let rest = before_hash u in if eqb c 35 then [] else c ∷ rest

unfoldable pub issue_url : Entry → Bytes
unfolding before_hash
issue_url e = let u = alternate e.links in before_hash (if u == [] then e.id else u)

module _ (cfg : Config) where
  -- The entry's time, the zero time where it cannot be parsed.
  abbrev pub entry_time : Entry → ℕ
  entry_time e = elim (cfg.parse_time e.updated) [ none ↦ 0 | some t ↦ t ]

  abbrev drop_project : Bytes → Option Bytes → Bytes
  drop_project tracker none = tracker
  drop_project tracker (some r) = cfg.trim (drop 3 r)

  unfoldable pub parse_title : Bytes → Option IssueTitle
  unfolding text_from_last
  parse_title s = do
    (t, n, status, subject) ← cfg.match_title (cfg.trim s)
    number ← cfg.parse_int n
    some (record {
      tracker = drop_project (cfg.trim t) (text_from_last dash (cfg.trim t));
      number = number;
      status = cfg.trim status;
      subject = cfg.trim subject;
    })

  unfoldable pub body_text : Bytes → Bytes
  unfolding replace_breaks join
  body_text body =
      if cfg.trim body == []
      then []
      else join (lit " ") (cfg.runes.fields (replace_breaks (cfg.plain_text body)))
