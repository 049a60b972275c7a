-- ===== src/GithubMonitor.antt =====
-- The GitHub monitor: which events of a repository are announced and in which words, as in
-- github-monitor/monitor.go and the types of github-monitor/github.go. Numbers and ids are not
-- negative. The standard library's functions, the poster, the shortener and GitHub's answers are
-- parameters.
pub mod Classify
pub mod Fetch
pub mod Posts
pub mod Poll
mod Tests
use mathlib.Core.List.{map}
use dflybot.Prelude.{
  ℕ, Bool, true, false, not, ◌&&◌, ◌||◌, Option, none, some, List, [], ◌∷◌, ◌++◌, if◌then◌else◌,
}
use dflybot.Prelude.Bytes.{Bytes, ◌==◌, lit}
use dflybot.Feed.{shorten_urls, shown_url, posts}
use dflybot.Feed.Snippet.{Runes, snippet}
use dflybot.GitMonitor.{Map}

-- A referenced issue or pull request; `pull_request` is the raw JSON.
pub record GhRef : Type 0 where
  pub url : Bytes
  pub number : ℕ
  pub title : Bytes
  pub html_url : Bytes
  pub pull_request : Bytes

pub record GhReview : Type 0 where
  pub body : Bytes
  pub html_url : Bytes

-- A comment is its body.
pub record GhPayload : Type 0 where
  pub action : Bytes
  pub issue : Option GhRef
  pub pr : Option GhRef
  pub comment : Option Bytes
  pub review : Option GhReview

pub record GhEvent : Type 0 where
  pub event_id : ℕ
  pub type : Bytes
  pub created_at : Bytes
  pub login : Bytes
  pub payload : GhPayload

pub data Kind : Type 0 where
  issue_kind : Kind
  pr_kind : Kind

pub record Activity : Type 0 where
  pub kind : Kind
  pub action : Bytes
  pub number : ℕ
  pub actor : Bytes
  pub title : Bytes
  pub url : Bytes
  pub event_id : ℕ

-- The configuration of a monitor and what it calls: GetMaxLength of the poster, ShortenBatch,
-- getRef, none without a client, time.Parse, strings.EqualFold, the functions of snippet, and
-- the decimal digits of a number.
pub record Config : Type 0 where
  pub project : Bytes
  pub repo : Bytes
  pub ignored_users : List Bytes
  pub issue_actions : List Bytes
  pub pr_actions : List Bytes
  pub max_length : ℕ
  pub shortener : Option (List Bytes → Map)
  pub get_ref : Option (Bytes → Option GhRef)
  pub parse_time : Bytes → Option ℕ
  pub equal_fold : Bytes → Bytes → Bool
  pub runes : Runes
  pub digits : ℕ → Bytes

-- The event's time, the zero time where it cannot be parsed.
abbrev pub event_time : Config → GhEvent → ℕ
event_time cfg e = elim (cfg.parse_time e.created_at) [ none ↦ 0 | some t ↦ t ]

unfoldable pub contains : List Bytes → Bytes → Bool
contains [] v = false
contains (x ∷ list) v = if x == v then true else contains list v

abbrev pub default_issue_actions : List Bytes
default_issue_actions = lit "create" ∷ lit "comment" ∷ lit "close" ∷ lit "reopen" ∷ []

abbrev pub default_pr_actions : List Bytes
default_pr_actions =
    lit "create" ∷ lit "comment" ∷ lit "update" ∷ lit "close" ∷ lit "merge" ∷ lit "reopen" ∷ []

abbrev or_default : List Bytes → List Bytes → List Bytes
or_default [] all = all
or_default (x ∷ list) all = x ∷ list

unfoldable pub action_wanted : Kind → Bytes → List Bytes → List Bytes → Bool
unfolding contains
action_wanted issue_kind action issues prs =
    contains (or_default issues default_issue_actions) action
action_wanted pr_kind action issues prs = contains (or_default prs default_pr_actions) action

abbrev some_user : (Bytes → Bytes → Bool) → List Bytes → Bytes → Bool
some_user fold [] login = false
some_user fold (u ∷ ignored) login = if fold u login then true else some_user fold ignored login

unfoldable pub user_ignored : (Bytes → Bytes → Bool) → Bytes → List Bytes → Bool
user_ignored fold [] ignored = false
user_ignored fold (c ∷ login) ignored = some_user fold ignored (c ∷ login)

unfoldable pub is_pr : GhRef → Bool
is_pr r = not (r.pull_request == []) && not (r.pull_request == lit "null")

-- The action of an event of an issue or of a pull request, blank for those not announced.
unfoldable pub issue_action : Bytes → Bytes
issue_action a =
    if a == lit "opened"
    then lit "create"
    else if a == lit "closed"
    then lit "close"
    else if a == lit "reopened"
    then lit "reopen"
    else []

unfoldable pub pr_action : Bytes → Bytes
pr_action a =
    if a == lit "opened"
    then lit "create"
    else if a == lit "closed"
    then lit "close"
    else if a == lit "merged"
    then lit "merge"
    else if a == lit "reopened"
    then lit "reopen"
    else if a == lit "synchronize"
    then lit "update"
    else if a == lit "edited"
    then lit "update"
    else []

-- fillPR: the details, where a client, an address and an answer exist.
abbrev fetch_ref : Option (Bytes → Option GhRef) → GhRef → Option GhRef
fetch_ref none r = none
fetch_ref (some get) r = if r.url == [] then none else get r.url

unfoldable pub fill_pr : Option (Bytes → Option GhRef) → GhRef → GhRef
fill_pr client r = elim (fetch_ref client r) [ none ↦ r | some full ↦ full ]

abbrev pub title_max : ℕ
title_max = 100

abbrev pub comment_max : ℕ
comment_max = 120

abbrev pub activity_of : Config → Kind → Bytes → GhEvent → ℕ → ℕ → Bytes → Bytes → Activity
activity_of cfg kind action e number max text url = record {
  kind = kind;
  action = action;
  number = number;
  actor = e.login;
  title = snippet cfg.runes max text;
  url = url;
  event_id = e.event_id;
}

abbrev issue_event : Config → GhEvent → Bytes → Option GhRef → Option Activity
issue_event cfg e action none = none
issue_event cfg e action (some r) =
    if action == []
    then none
    else some (activity_of cfg issue_kind action e r.number title_max r.title r.html_url)

-- The details are fetched for events that are announced and lack them.
abbrev pr_event : Config → GhEvent → Bytes → Option GhRef → Option Activity
pr_event cfg e action none = none
pr_event cfg e action (some ref) =
    let r =
      if action_wanted pr_kind action cfg.issue_actions cfg.pr_actions
        && (ref.title == [] || ref.html_url == [])
      then fill_pr cfg.get_ref ref
      else ref in
    if action == []
    then none
    else some (activity_of cfg pr_kind action e r.number title_max r.title r.html_url)

abbrev comment_event : Config → GhEvent → Option GhRef → Option Bytes → Option Activity
comment_event cfg e none comment = none
comment_event cfg e (some r) none = none
comment_event cfg e (some r) (some body) =
    let kind = if is_pr r then pr_kind else issue_kind in
    some (activity_of cfg kind (lit "comment") e r.number comment_max body r.html_url)

abbrev review_event : Config → GhEvent → Option GhReview → Option GhRef → Option Activity
review_event cfg e none ref = none
review_event cfg e (some review) none = none
review_event cfg e (some review) (some r) =
    if review.body == [] || not (e.payload.action == lit "created")
    then none
    else some
        (activity_of cfg pr_kind (lit "comment") e r.number comment_max review.body review.html_url)

unfoldable pub activity_for : Config → GhEvent → Option Activity
unfolding issue_action pr_action fill_pr action_wanted is_pr
activity_for cfg e =
    let p = e.payload in
    if e.type == lit "IssuesEvent"
    then issue_event cfg e (issue_action p.action) p.issue
    else if e.type == lit "PullRequestEvent"
    then pr_event cfg e (pr_action p.action) p.pr
    else if e.type == lit "IssueCommentEvent"
    then comment_event cfg e p.issue p.comment
    else if e.type == lit "PullRequestReviewEvent"
    then review_event cfg e p.review p.pr
    else none

abbrev wanted_only : Config → Option Activity → Option Activity
wanted_only cfg none = none
wanted_only cfg (some a) =
    if action_wanted a.kind a.action cfg.issue_actions cfg.pr_actions then some a else none

unfoldable pub classify : Config → GhEvent → Option Activity
unfolding user_ignored activity_for
classify cfg e =
    if user_ignored cfg.equal_fold e.login cfg.ignored_users
    then none
    else wanted_only cfg (activity_for cfg e)
