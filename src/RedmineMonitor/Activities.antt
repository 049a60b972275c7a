-- ===== src/RedmineMonitor/Activities.antt =====
-- Which activity an entry is, and the last known states of the issues: classify, remember,
-- actionWanted and the loop of poll over the accepted entries in redmine-monitor/monitor.go.
pub mod Known
pub mod Kept
use dflybot.Prelude.{
  ℕ, ◌+◌, Bool, true, false, not, ◌&&◌, ◌||◌, Option, none, some, List, [], ◌∷◌, ◌++◌,
  if◌then◌else◌, eqb, drop, length,
}
use dflybot.Prelude.Bytes.{Bytes, ◌==◌, lit}
use dflybot.Prelude.Sorted.{lookup, insert}
use dflybot.Feed.Snippet.{snippet}
use dflybot.RedmineMonitor.{
  Entry, IssueTitle, Activity, IssueState, Config, entry_time, parse_title, is_issue, is_creation,
  issue_url, body_text,
}

unfoldable pub contains : List Bytes → Bytes → Bool
contains [] v = false
contains (x ∷ list) v = if x == v then true else contains list v

abbrev pub supported_actions : List Bytes
supported_actions =
    lit "create" ∷ lit "comment" ∷ lit "close" ∷ lit "resolve" ∷ lit "reopen" ∷ lit "update" ∷ []

unfoldable pub action_wanted : Bytes → List Bytes → Bool
unfolding contains
action_wanted action [] = contains supported_actions action
action_wanted action (x ∷ list) = contains (x ∷ list) action

unfoldable pub is_closed : Bytes → Bool
is_closed s =
    if s == lit "Closed" then true else if s == lit "Resolved" then true else s == lit "Rejected"

abbrev pub was_closed : Option IssueState → Bool
was_closed none = false
was_closed (some st) = is_closed st.status

-- The action of a journal, by its status, the last known state and the note.
unfoldable pub journal_action : Bytes → Option IssueState → Bytes → Bytes
unfolding is_closed
journal_action [] prev [] = lit "update"
journal_action [] prev (n ∷ note) = lit "comment"
journal_action (c ∷ status) prev note =
    if c ∷ status == lit "Resolved"
    then lit "resolve"
    else if c ∷ status == lit "Closed" || c ∷ status == lit "Rejected"
    then lit "close"
    else if was_closed prev
    then lit "reopen"
    else lit "update"

abbrev pub or_new : Bytes → Bytes
or_new [] = lit "New"
or_new (c ∷ status) = c ∷ status

abbrev pub subject_max : ℕ
subject_max = 100

abbrev pub note_max : ℕ
note_max = 120

abbrev pub Issues : Type 0
Issues = List (Bytes × IssueState)

abbrev pub or_kept : Bytes → Bytes → Bytes
or_kept [] old = old
or_kept (c ∷ s) old = c ∷ s

abbrev pub issue_of : Option IssueState → IssueState
issue_of none = record { tracker = []; subject = []; status = [] }
issue_of (some st) = st

abbrev pub updated : IssueTitle → IssueState → IssueState
updated it st = record {
  tracker = or_kept it.tracker st.tracker;
  subject = or_kept it.subject st.subject;
  status = or_kept it.status st.status;
}

module _ (cfg : Config) where
  abbrev activity_of : Entry → IssueTitle → Bytes → Bytes → Bytes → Activity
  activity_of e it action status note = record {
    action = action;
    number = it.number;
    actor = cfg.trim e.author;
    tracker = it.tracker;
    subject = snippet cfg.runes subject_max it.subject;
    note = snippet cfg.runes note_max note;
    status = status;
    url = issue_url e;
    entry_id = e.id;
    at = entry_time cfg e;
  }

  abbrev pub titled : Issues → Entry → Option IssueTitle → Option Activity
  titled issues e none = none
  titled issues e (some it) =
      let prev = lookup (cfg.format_int it.number) issues in
      let note = body_text cfg e.body in
      if is_creation e
      then some (activity_of e it (lit "create") (or_new it.status) [])
      else some (activity_of e it (journal_action it.status prev note) it.status note)

  unfoldable pub classify : Issues → Entry → Option Activity
  unfolding is_issue parse_title is_creation journal_action body_text issue_url
  classify issues e = if is_issue e then titled issues e (parse_title cfg e.title) else none

  unfoldable pub remember : IssueTitle → Issues → Issues
  remember it issues =
      let key = cfg.format_int it.number in
      insert key (updated it (issue_of (lookup key issues))) issues

  abbrev pub title_of : Activity → IssueTitle
  title_of a = record {
    tracker = a.tracker;
    number = a.number;
    status = a.status;
    subject = a.subject;
  }

  abbrev pub classified : Issues → Option Activity → Issues
  classified issues none = issues
  classified issues (some a) = remember (title_of a) issues

  abbrev pub wanted : Option Activity → List Activity → List Activity
  wanted none acts = acts
  wanted (some a) acts = if action_wanted a.action cfg.actions then a ∷ acts else acts

  -- The loop over the accepted entries: the issues afterwards and the activities to announce.
  unfoldable pub scan : List Entry → Issues → Issues × List Activity
  unfolding classify remember action_wanted
  scan [] issues = (issues, [])
  scan (e ∷ es) issues =
      let found = classify issues e in
      let (issues1, acts) = scan es (classified issues found) in (issues1, wanted found acts)
