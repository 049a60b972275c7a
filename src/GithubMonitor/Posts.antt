-- ===== src/GithubMonitor/Posts.antt =====
-- The words of the activities: line and announce of github-monitor/monitor.go.
use mathlib.Core.List.{map}
use dflybot.Prelude.{ℕ, not, ◌&&◌, List, [], ◌++◌, if◌then◌else◌}
use dflybot.Prelude.Bytes.{Bytes, ◌==◌, lit}
use dflybot.Feed.{shorten_urls, shown_url, posts}
use dflybot.GithubMonitor.{Kind, issue_kind, pr_kind, Activity, Config}

abbrev kind_text : Kind → Bytes
kind_text issue_kind = lit "issue"
kind_text pr_kind = lit "PR"

unfoldable pub verb : Bytes → Bytes
verb a =
    if a == lit "create"
    then lit "opened"
    else if a == lit "close"
    then lit "closed"
    else if a == lit "reopen"
    then lit "reopened"
    else if a == lit "merge"
    then lit "merged"
    else if a == lit "update"
    then lit "updated"
    else a

unfoldable pub line : (ℕ → Bytes) → Activity → Bytes
unfolding verb
line digits a =
    let about = kind_text a.kind ++ lit " #" ++ digits a.number in
    if a.action == lit "comment"
    then a.actor ++ lit " commented on " ++ about ++ lit ": " ++ a.title
    else about
      ++ lit " ("
      ++ a.title
      ++ lit ") "
      ++ verb a.action
      ++ lit " by "
      ++ a.actor
      ++ (if a.action == lit "create" && not (a.url == []) then lit ": " ++ a.url else [])

abbrev with_url : Bytes → Activity → Activity
with_url url a = record a { url = url }

-- The posts for the activities of a poll.
unfoldable pub announce : Config → List Activity → List Bytes
unfolding line
announce cfg acts =
    let short = shorten_urls cfg.shortener (map (λ (a : Activity). (a.action, a.url)) acts) in
    posts cfg.max_length (lit "[" ++ cfg.project ++ lit "/" ++ cfg.repo ++ lit "] ")
      (map (λ (a : Activity). line cfg.digits (with_url (shown_url short a.url) a)) acts)
