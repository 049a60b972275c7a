-- ===== src/RedmineMonitor/Tests.antt =====
-- The theorems of the Redmine monitor at concrete inputs.
use dflybot.Prelude.{
  ℕ, true, false, none, some, Option, List, [], ◌∷◌, ◌≡◌, arith, refl, if◌then◌else◌, leb, length,
}
use dflybot.Prelude.Bytes.{Bytes, ◌==◌, lit, has_prefix}
use dflybot.RedmineMonitor.{Entry, IssueTitle, Activity, Config, is_issue, is_creation, parse_title}
use dflybot.RedmineMonitor.Activities.{is_closed, or_kept, classify, scan}
use dflybot.RedmineMonitor.Activities.Known.{IsFormat, latest_status, status_of, scan_reopen}
use dflybot.RedmineMonitor.Poll.{
  Fetch, blocked, failed, unchanged, new_state, seed, poll, run, warning, anubis_warn_after,
}
use dflybot.RedmineMonitor.Poll.Blocked.{count_blocked, run_blocked}
use dflybot.RedmineMonitor.Poll.Seeded.{oldest_status, seed_reopen}

abbrev first_byte : Bytes → Option ℕ
first_byte [] = none
first_byte (c ∷ s) = some c

-- All titles are of issue 1, and the title is the status.
abbrev groups : Bytes → Option (Bytes × Bytes × Bytes × Bytes)
groups s = some (lit "Bug", lit "1", s, lit "crash")

abbrev cfg : Config
cfg = record {
  name = lit "dfly";
  actions = [];
  max_length = 400;
  shortener = none;
  parse_time = first_byte;
  trim = λ s. s;
  runes = record { fields = λ s. s ∷ []; rune_count = λ s. length s; last_size = λ s. 1 };
  match_title = groups;
  parse_int = λ s. some 1;
  format_int = λ n. n ∷ [];
  plain_text = λ s. s;
}

abbrev entry : Bytes → ℕ → Entry
entry status at = record {
  title = status;
  id = lit "/issues/1#change-2";
  updated = at ∷ [];
  author = lit "bob";
  body = [];
  links = [];
}

abbrev title : Bytes → IssueTitle
title status = record { tracker = lit "Bug"; number = 1; status = status; subject = lit "crash" }

format : IsFormat cfg
format x y e = ground (arith, e)

feedback_issue : is_issue (entry (lit "Feedback") 9) ≡ true
unfolding is_issue has_prefix
feedback_issue = refl

feedback_journal : is_creation (entry (lit "Feedback") 9) ≡ false
unfolding is_creation ◌==◌ has_prefix
feedback_journal = refl

feedback_title : parse_title cfg (lit "Feedback") ≡ some (title (lit "Feedback"))
unfolding parse_title has_prefix ◌==◌
feedback_title = refl

feedback_open : is_closed (lit "Feedback") ≡ false
unfolding is_closed ◌==◌
feedback_open = refl

scan_reopen_example :
    let es = entry (lit "New") 6 ∷ entry (lit "Closed") 7 ∷ [] in
    let known = or_kept (latest_status cfg 1 es) (status_of cfg 1 []) in
    (a : Activity) × (classify cfg (scan cfg es []).0 (entry (lit "Feedback") 9) ≡ some a)
    × (a.action ≡ (if is_closed known then lit "reopen" else lit "update"))
scan_reopen_example =
    scan_reopen cfg (entry (lit "New") 6 ∷ entry (lit "Closed") 7 ∷ []) []
      (entry (lit "Feedback") 9) (title (lit "Feedback")) format feedback_issue feedback_journal
      feedback_title (λ e. ground (arith, e)) feedback_open

-- The feed of an issue that was closed after it was in progress.
abbrev closed_feed : List Entry
closed_feed = entry (lit "Closed") 7 ∷ entry (lit "In Progress") 6 ∷ []

seed_reopen_example :
    (a : Activity) × (classify cfg
        (seed cfg closed_feed (lit "a") 8 new_state).issues
        (entry (lit "Feedback") 9)
      ≡ some a)
    × (a.action
        ≡ (if is_closed (oldest_status cfg 1 closed_feed) then lit "reopen" else lit "update"))
seed_reopen_example =
    seed_reopen cfg closed_feed (lit "a") 8 (entry (lit "Feedback") 9) (title (lit "Feedback"))
      format feedback_issue feedback_journal feedback_title (λ e. ground (arith, e)) feedback_open

oldest_open : oldest_status cfg 1 closed_feed ≡ lit "In Progress"
unfolding oldest_status
oldest_open = refl

abbrev polls : List (ℕ × Fetch)
polls = (1, blocked) ∷ (2, failed) ∷ (3, blocked) ∷ (4, blocked) ∷ (5, blocked) ∷ []

run_blocked_example :
    let p = run cfg polls new_state in
    let q = (poll cfg 6 unchanged p.0).state in
    (p.2 ≡ (
      if leb anubis_warn_after (count_blocked polls)
      then warning cfg anubis_warn_after ∷ []
      else []))
    × (p.0.anubis_streak ≡ count_blocked polls)
    × (q.anubis_streak ≡ 0)
    × (q.anubis_warned ≡ false)
run_blocked_example =
    run_blocked cfg polls 6 unchanged new_state (tt, (tt, (tt, (tt, (tt, tt))))) tt refl refl
