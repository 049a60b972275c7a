-- ===== src/RedmineMonitor/Activities/Known.antt =====
-- The last known status of an issue, and what classify makes of it (RedmineMonitor/Activities).
use dflybot.Prelude.{
  ℕ, Bool, true, false, Option, none, some, List, [], ◌∷◌, ◌≡◌, ◌≢◌, inl, inr, arith, refl, sym, ap,
  ◌∙◌, if◌then◌else◌, eqb, Bool-cases,
}
use dflybot.Prelude.Bytes.{Bytes, ◌==◌, eq_iff, lit}
use dflybot.Prelude.Sorted.{lookup, insert, lookup-insert}
use dflybot.RedmineMonitor.{
  Entry, IssueTitle, Activity, IssueState, Config, is_issue, is_creation, parse_title, body_text,
}
use dflybot.RedmineMonitor.Activities.{
  Issues, is_closed, was_closed, journal_action, or_new, or_kept, issue_of, titled, classify,
  remember, classified, scan, updated,
}

pub kept_told :
    (b : Bool) (s x : Bytes) → (if b then or_kept s x else x) ≡ or_kept (if b then s else []) x
kept_told true s x = refl
kept_told false s x = refl

pub kept_kept : (a b c : Bytes) → or_kept a (or_kept b c) ≡ or_kept (or_kept a b) c
kept_kept [] b c = refl
kept_kept (x ∷ a) b c = refl

was_closed_status : (o : Option IssueState) → was_closed o ≡ is_closed (issue_of o).status
unfolding is_closed ◌==◌
was_closed_status none = refl
was_closed_status (some st) = refl

not_closed :
    (s : Bytes)
    → is_closed s ≡ false
    → ((s == lit "Closed") ≡ false)
      × ((s == lit "Resolved") ≡ false)
      × ((s == lit "Rejected") ≡ false)
unfolding is_closed
not_closed s c = ground (arith, c)

open_action :
    (s note : Bytes) (prev : Option IssueState)
    → s ≢ []
    → is_closed s ≡ false
    → journal_action s prev note
      ≡ (if is_closed (issue_of prev).status then lit "reopen" else lit "update")
unfolding journal_action
open_action [] note prev n c = elim (n refl) [ ]
open_action (x ∷ s) note prev n c =
    let (k, r, j) = not_closed (x ∷ s) c in rw (r, k, j, was_closed_status prev) refl

module _ (cfg : Config) where
  -- The status that is known of an issue, blank for none.
  unfoldable pub status_of : ℕ → Issues → Bytes
  status_of n issues = (issue_of (lookup (cfg.format_int n) issues)).status

  -- strconv.FormatInt tells the numbers apart.
  abbrev pub IsFormat : Type 0
  IsFormat = (x y : ℕ) → cfg.format_int x ≡ cfg.format_int y → x ≡ y

  format_test : IsFormat → (x y : ℕ) → (cfg.format_int x == cfg.format_int y) ≡ eqb x y
  format_test f x y = elim (Bool-cases (eqb x y)) [
    | inl e ↦
        let q : x ≡ y = ground (arith, e) in
        (eq_iff (cfg.format_int x) (cfg.format_int y)).1 (ap cfg.format_int q) ∙ sym e
    | inr e ↦ ground (arith, e, eq_iff (cfg.format_int x) (cfg.format_int y), f x y)
  ]

  pub status_of-remember :
      IsFormat
      → (n : ℕ) (it : IssueTitle) (issues : Issues)
      → status_of n (remember cfg it issues)
        ≡ (if eqb it.number n then or_kept it.status (status_of n issues) else status_of n issues)
  unfolding status_of remember
  status_of-remember f n it issues =
      let key = cfg.format_int it.number in
      let st = updated it (issue_of (lookup key issues)) in
      let l = lookup-insert key (cfg.format_int n) st issues in
      let t = format_test f it.number n in
      elim (Bool-cases (eqb it.number n)) [
        | inl e ↦
            let q : it.number ≡ n = ground (arith, e) in
            let at_n : lookup (cfg.format_int n) (insert key st issues) ≡ some st =
              l ∙ rw (t ∙ e) refl in
            ap (λ o. (issue_of o).status) at_n
            ∙ ap (λ x. or_kept it.status (status_of x issues)) q
            ∙ rw e refl
        | inr e ↦
            let at_n : lookup (cfg.format_int n) (insert key st issues)
                ≡ lookup (cfg.format_int n) issues =
              l ∙ rw (t ∙ e) refl in
            ap (λ o. (issue_of o).status) at_n ∙ rw e refl
      ]

  -- The number and the status that an entry tells, none where it is not of an issue.
  abbrev told : Entry → Option IssueTitle → Option (ℕ × Bytes)
  told e none = none
  told e (some it) = some (it.number, (if is_creation e then or_new it.status else it.status))

  unfoldable pub tells : Entry → Option (ℕ × Bytes)
  tells e = if is_issue e then told e (parse_title cfg e.title) else none

  abbrev told_of : ℕ → Option (ℕ × Bytes) → Bytes
  told_of n none = []
  told_of n (some (m, s)) = if eqb m n then s else []

  -- The last status of the entries that is not blank, blank for none.
  unfoldable pub latest_status : ℕ → List Entry → Bytes
  unfolding tells
  latest_status n [] = []
  latest_status n (e ∷ es) = or_kept (latest_status n es) (told_of n (tells e))

  titled-told :
      (issues : Issues) (e : Entry) (it : Option IssueTitle)
      → IsFormat
      → (n : ℕ)
      → status_of n (classified cfg issues (titled cfg issues e it))
        ≡ or_kept (told_of n (told e it)) (status_of n issues)
  titled-told issues e none f n = refl
  titled-told issues e (some it) f n = elim (Bool-cases (is_creation e)) [
    | inl c ↦ rw c (
        status_of-remember f n _ issues
        ∙ kept_told (eqb it.number n) (or_new it.status) (status_of n issues))
    | inr c ↦ rw c (
        status_of-remember f n _ issues
        ∙ kept_told (eqb it.number n) it.status (status_of n issues))
  ]

  classify-tells :
      (issues : Issues) (e : Entry)
      → IsFormat
      → (n : ℕ)
      → status_of n (classified cfg issues (classify cfg issues e))
        ≡ or_kept (told_of n (tells e)) (status_of n issues)
  unfolding classify tells
  classify-tells issues e f n = elim (Bool-cases (is_issue e)) [
    | inl i ↦ rw (i, classify, tells) (titled-told issues e (parse_title cfg e.title) f n)
    | inr i ↦ rw (i, classify, tells) refl
  ]

  -- After a list of entries the status that is known of an issue is the last one that is told of it,
  -- or else the one from before.
  pub scan-status_of :
      (es : List Entry) (issues : Issues) (n : ℕ)
      → IsFormat
      → status_of n (scan cfg es issues).0 ≡ or_kept (latest_status n es) (status_of n issues)
  unfolding scan latest_status
  scan-status_of [] issues n f = refl
  scan-status_of (e ∷ es) issues n f =
      let issues1 = classified cfg issues (classify cfg issues e) in
      scan-status_of es issues1 n f
      ∙ ap (or_kept (latest_status n es)) (classify-tells issues e f n)
      ∙ kept_kept (latest_status n es) (told_of n (tells e)) (status_of n issues)

  titled_open :
      (issues : Issues) (e : Entry) (it : IssueTitle)
      → is_creation e ≡ false
      → it.status ≢ []
      → is_closed it.status ≡ false
      → (a : Activity) × (titled cfg issues e (some it) ≡ some a)
        × (a.action
            ≡ (if is_closed (status_of it.number issues) then lit "reopen" else lit "update"))
  unfolding status_of
  titled_open issues e it c n o =
      let prev = lookup (cfg.format_int it.number) issues in
      rw c (_, refl, open_action it.status (body_text cfg e.body) prev n o)

  pub classify_known :
      (issues : Issues) (e : Entry) (it : IssueTitle)
      → is_issue e ≡ true
      → is_creation e ≡ false
      → parse_title cfg e.title ≡ some it
      → it.status ≢ []
      → is_closed it.status ≡ false
      → (a : Activity) × (classify cfg issues e ≡ some a)
        × (a.action
            ≡ (if is_closed (status_of it.number issues) then lit "reopen" else lit "update"))
  unfolding classify
  classify_known issues e it i c p n o =
      let (a, q, r) = titled_open issues e it c n o in (a, rw (i, p, classify) q, r)

  -- A journal with an open status is announced as a reopen if the last status that the entries before
  -- it tell of the issue, or else the one that was known, is a closed one, and as an update otherwise.
  pub scan_reopen :
      (es : List Entry) (issues : Issues) (e : Entry) (it : IssueTitle)
      → IsFormat
      → is_issue e ≡ true
      → is_creation e ≡ false
      → parse_title cfg e.title ≡ some it
      → it.status ≢ []
      → is_closed it.status ≡ false
      → let known = or_kept (latest_status it.number es) (status_of it.number issues) in
        (a : Activity) × (classify cfg (scan cfg es issues).0 e ≡ some a)
        × (a.action ≡ (if is_closed known then lit "reopen" else lit "update"))
  scan_reopen es issues e it f i c p n o =
      let (a, q, r) = classify_known (scan cfg es issues).0 e it i c p n o in
      let k = scan-status_of es issues it.number f in
      (a, q, r ∙ ap (λ s. if is_closed s then lit "reopen" else lit "update") k)
