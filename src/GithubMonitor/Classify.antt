-- ===== src/GithubMonitor/Classify.antt =====
-- What classify of github-monitor/monitor.go announces of an event.
use dflybot.Prelude.{
  true, false, Option, none, some, ◌≡◌, inl, inr, arith, ◌∙◌, Bool-cases, Option-cases,
}
use dflybot.Prelude.Bytes.{Bytes, ◌==◌, lit}
use dflybot.GithubMonitor.{
  GhRef, GhReview, GhEvent, Activity, Config, action_wanted, user_ignored, issue_action, pr_action,
  activity_for, classify, issue_event, pr_event, comment_event, review_event,
}

-- An activity is of the event: its id and its actor.
abbrev pub IsOf : GhEvent → Activity → Type 0
IsOf e a = (a.event_id ≡ e.event_id) × (a.actor ≡ e.login)

issue_event-IsOf :
    (cfg : Config) (e : GhEvent) (b : Bytes) (r : Option GhRef) (a : Activity)
    → issue_event cfg e b r ≡ some a
    → IsOf e a
issue_event-IsOf cfg e b none a h = ground (arith, h)
issue_event-IsOf cfg e b (some r) a h = ground (arith, h)

pr_event-IsOf :
    (cfg : Config) (e : GhEvent) (b : Bytes) (r : Option GhRef) (a : Activity)
    → pr_event cfg e b r ≡ some a
    → IsOf e a
pr_event-IsOf cfg e b none a h = ground (arith, h)
pr_event-IsOf cfg e b (some r) a h = ground (arith, h)

comment_event-IsOf :
    (cfg : Config) (e : GhEvent) (r : Option GhRef) (c : Option Bytes) (a : Activity)
    → comment_event cfg e r c ≡ some a
    → IsOf e a
comment_event-IsOf cfg e none c a h = ground (arith, h)
comment_event-IsOf cfg e (some r) none a h = ground (arith, h)
comment_event-IsOf cfg e (some r) (some c) a h = ground (arith, h)

review_event-IsOf :
    (cfg : Config) (e : GhEvent) (v : Option GhReview) (r : Option GhRef) (a : Activity)
    → review_event cfg e v r ≡ some a
    → IsOf e a
review_event-IsOf cfg e none r a h = ground (arith, h)
review_event-IsOf cfg e (some v) none a h = ground (arith, h)
review_event-IsOf cfg e (some v) (some r) a h = ground (arith, h)

activity_for-IsOf :
    (cfg : Config) (e : GhEvent) (a : Activity) → activity_for cfg e ≡ some a → IsOf e a
unfolding activity_for
activity_for-IsOf cfg e a h =
    let p = e.payload in
    elim (Bool-cases (e.type == lit "IssuesEvent")) [
      | inl q ↦ issue_event-IsOf cfg e (issue_action p.action) p.issue a (rw (q, activity_for) at h)
      | inr q1 ↦ elim (Bool-cases (e.type == lit "PullRequestEvent")) [
        | inl q ↦ pr_event-IsOf cfg e (pr_action p.action) p.pr a (rw (q1, q, activity_for) at h)
        | inr q2 ↦ elim (Bool-cases (e.type == lit "IssueCommentEvent")) [
          | inl q ↦ comment_event-IsOf cfg e p.issue p.comment a (rw (q1, q2, q, activity_for) at h)
          | inr q3 ↦ elim (Bool-cases (e.type == lit "PullRequestReviewEvent")) [
            | inl q ↦
                review_event-IsOf cfg e p.review p.pr a (rw (q1, q2, q3, q, activity_for) at h)
            | inr q ↦ ground (arith, rw (q1, q2, q3, q, activity_for) at h)
          ]
        ]
      ]
    ]

-- Only activities of an event that carries them are announced, with the event's actor, who is not
-- ignored, and only those of wanted actions.
pub classify_announces :
    (cfg : Config) (e : GhEvent) (a : Activity)
    → classify cfg e ≡ some a
    → (user_ignored cfg.equal_fold e.login cfg.ignored_users ≡ false)
      × (activity_for cfg e ≡ some a)
      × (action_wanted a.kind a.action cfg.issue_actions cfg.pr_actions ≡ true)
      × (a.event_id ≡ e.event_id)
      × (a.actor ≡ e.login)
unfolding classify
classify_announces cfg e a h =
    elim (Bool-cases (user_ignored cfg.equal_fold e.login cfg.ignored_users)) [
      | inl u ↦ ground (arith, rw (u, classify) at h)
      | inr u ↦ elim (Option-cases (activity_for cfg e)) [
        | inl n ↦ ground (arith, rw (u, n, classify) at h)
        | inr (b, s) ↦
            elim (Bool-cases (action_wanted b.kind b.action cfg.issue_actions cfg.pr_actions)) [
              | inl w ↦
                  let k : some b ≡ some a = rw (u, s, w, classify) at h in
                  let j : b ≡ a = ground (arith, k) in
                  let t : activity_for cfg e ≡ some a = s ∙ k in
                  let o = activity_for-IsOf cfg e a t in (u, t, rw j at w, o.0, o.1)
              | inr w ↦ ground (arith, rw (u, s, w, classify) at h)
            ]
      ]
    ]
