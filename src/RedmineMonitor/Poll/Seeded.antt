-- ===== src/RedmineMonitor/Poll/Seeded.antt =====
-- What seed of redmine-monitor/monitor.go knows of the issues after the first run.
use dflybot.Prelude.{
  ℕ, true, false, Option, none, some, List, [], ◌∷◌, ◌≡◌, ◌≢◌, refl, ap, ◌∙◌, if◌then◌else◌, eqb,
}
use dflybot.Prelude.Bytes.{Bytes, lit}
use dflybot.Prelude.Sorted.{lookup}
use dflybot.RedmineMonitor.{Entry, IssueTitle, Activity, Config, is_issue, is_creation, parse_title}
use dflybot.RedmineMonitor.Activities.{Issues, is_closed, or_kept, classify}
use dflybot.RedmineMonitor.Activities.Known.{
  status_of, IsFormat, status_of-remember, kept_told, kept_kept, classify_known,
}
use dflybot.RedmineMonitor.Poll.{new_state, remember_title, remember_titles, seed}

module _ (cfg : Config) where
  abbrev title_status : ℕ → Option IssueTitle → Bytes
  title_status n none = []
  title_status n (some it) = if eqb it.number n then it.status else []

  -- The last status of the titles of a list that is not blank: the oldest one of a feed.
  unfoldable pub oldest_status : ℕ → List Entry → Bytes
  unfolding parse_title
  oldest_status n [] = []
  oldest_status n (e ∷ es) = or_kept (oldest_status n es) (title_status n (parse_title cfg e.title))

  remember_title_status :
      (it : Option IssueTitle) (issues : Issues) (n : ℕ)
      → IsFormat cfg
      → status_of cfg n (remember_title cfg it issues)
        ≡ or_kept (title_status n it) (status_of cfg n issues)
  remember_title_status none issues n f = refl
  remember_title_status (some it) issues n f =
      status_of-remember cfg f n it issues
      ∙ kept_told (eqb it.number n) it.status (status_of cfg n issues)

  remember_titles-status :
      (es : List Entry) (issues : Issues) (n : ℕ)
      → IsFormat cfg
      → status_of cfg n (remember_titles cfg es issues)
        ≡ or_kept (oldest_status n es) (status_of cfg n issues)
  unfolding remember_titles oldest_status
  remember_titles-status [] issues n f = refl
  remember_titles-status (e ∷ es) issues n f =
      let it = parse_title cfg e.title in
      remember_titles-status es (remember_title cfg it issues) n f
      ∙ ap (or_kept (oldest_status n es)) (remember_title_status it issues n f)
      ∙ kept_kept (oldest_status n es) (title_status n it) (status_of cfg n issues)

  kept_none : (n : ℕ) (s : Bytes) → or_kept s (status_of cfg n []) ≡ s
  unfolding status_of lookup
  kept_none n [] = refl
  kept_none n (c ∷ s) = refl

  -- The first run takes the oldest status of an issue in the feed for its last known one: an issue
  -- that was closed by a newer entry counts as open, so that a journal that opens it again is
  -- announced as an update. It is a reopen where the oldest status is a closed one.
  pub seed_reopen :
      (es : List Entry) (etag : Bytes) (now : ℕ) (e : Entry) (it : IssueTitle)
      → IsFormat cfg
      → is_issue e ≡ true
      → is_creation e ≡ false
      → parse_title cfg e.title ≡ some it
      → it.status ≢ []
      → is_closed it.status ≡ false
      → (a : Activity) × (classify cfg (seed cfg es etag now new_state).issues e ≡ some a)
        × (a.action
            ≡ (if is_closed (oldest_status it.number es) then lit "reopen" else lit "update"))
  unfolding seed
  seed_reopen es etag now e it f i c p n o =
      let issues = (seed cfg es etag now new_state).issues in
      let (a, q, r) = classify_known cfg issues e it i c p n o in
      let k =
        remember_titles-status es [] it.number f
        ∙ kept_none it.number (oldest_status it.number es) in
      (a, q, r ∙ ap (λ s. if is_closed s then lit "reopen" else lit "update") k)
