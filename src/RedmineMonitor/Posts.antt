-- ===== src/RedmineMonitor/Posts.antt =====
-- The words of the activities: line and announce of redmine-monitor/monitor.go.
use mathlib.Core.List.{map}
use dflybot.Prelude.{ℕ, not, ◌&&◌, List, [], ◌++◌, if◌then◌else◌}
use dflybot.Prelude.Bytes.{Bytes, ◌==◌, lit}
use dflybot.Feed.{shorten_urls, shown_url, posts}
use dflybot.RedmineMonitor.{Activity, Config}

unfoldable pub verb : Bytes → Bytes
verb a =
    if a == lit "create"
    then lit "created"
    else if a == lit "comment"
    then lit "commented"
    else if a == lit "close"
    then lit "closed"
    else if a == lit "resolve"
    then lit "resolved"
    else if a == lit "reopen"
    then lit "reopened"
    else if a == lit "update"
    then lit "updated"
    else []

unfoldable pub line : (ℕ → Bytes) → Activity → Bytes
unfolding verb
line format_int a =
    let detail = (if a.tracker == [] then [] else a.tracker ++ lit ": ") ++ a.subject in
    lit "issue #"
    ++ format_int a.number
    ++ (if detail == [] then [] else lit " (" ++ detail ++ lit ")")
    ++ lit " "
    ++ verb a.action
    ++ lit " by "
    ++ a.actor
    ++ (if a.note == [] then [] else lit ": " ++ a.note)
    ++ (if a.action == lit "create" && not (a.url == []) then lit ": " ++ a.url else [])

abbrev with_url : Bytes → Activity → Activity
with_url url a = record a { url = url }

-- The posts for the activities of a poll.
unfoldable pub announce : Config → List Activity → List Bytes
unfolding line
announce cfg acts =
    let short = shorten_urls cfg.shortener (map (λ (a : Activity). (a.action, a.url)) acts) in
    posts cfg.max_length (lit "[" ++ cfg.name ++ lit "] ")
      (map (λ (a : Activity). line cfg.format_int (with_url (shown_url short a.url) a)) acts)
