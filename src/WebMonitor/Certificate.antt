-- ===== src/WebMonitor/Certificate.antt =====
-- The warnings about a certificate.
use dflybot.Prelude.{
  ℕ, ◌≤◌, ◌<◌, ◌*◌, ◌/◌, Option, none, some, List, [], ◌∷◌, ◌≡◌, arith, refl, sym, ◌∙◌, inl, inr,
  All, All-map, In, Option-cases, Bool-cases,
}
use dflybot.WebMonitor.{
  WebState, CertInfo, Announcement, down_msg, up_msg, cert_expired, cert_expires, find_threshold,
  renew, is_day, warn_expired, warn_expiring, warn, update_cert, ns,
}

-- A threshold that is due and not warned of.
abbrev pub IsDue : ℕ → ℕ → ℕ → Type 0
IsDue left warned t = (left ≤ t) × (t < warned)

abbrev pub IsAscending : List ℕ → Type 0
IsAscending [] = Unit
IsAscending (t ∷ ts) = All (λ u. t ≤ u) ts × IsAscending ts

find_threshold-eq-none :
    (days : List ℕ) (left warned : ℕ)
    → find_threshold days left warned ≡ none
    → All (λ t. ¬ IsDue left warned t) days
unfolding find_threshold
find_threshold-eq-none [] left warned e = tt
find_threshold-eq-none (t ∷ ts) left warned e =
    elim (Option-cases (find_threshold ts left warned)) [
      | inr (u, f) ↦ absurd (ground arith)
      | inl f ↦ ((λ d. ground arith), find_threshold-eq-none ts left warned f)
    ]

-- The largest threshold that is due.
pub record IsLargest (days : List ℕ) (left warned t : ℕ) : Type 0 where
  pub listed : In t days
  pub due : IsDue left warned t
  pub largest : All (λ u. IsDue left warned u → u ≤ t) days

le_of_In : (t u : ℕ) (ts : List ℕ) → All (λ v. t ≤ v) ts → In u ts → t ≤ u
le_of_In t u [] a i = absurd i
le_of_In t u (v ∷ ts) (h, a) (inl e) = omega (arith, h, e)
le_of_In t u (v ∷ ts) (h, a) (inr i) = le_of_In t u ts a i

find_threshold-IsLargest :
    (days : List ℕ) (left warned t : ℕ)
    → IsAscending days
    → find_threshold days left warned ≡ some t
    → IsLargest days left warned t
unfolding find_threshold
find_threshold-IsLargest [] left warned t a e = absurd (ground arith)
find_threshold-IsLargest (x ∷ xs) left warned t (h, a) e =
    elim (Option-cases (find_threshold xs left warned)) [
      | inr (u, f) ↦
          let q : u ≡ t = ground arith in
          let l = find_threshold-IsLargest xs left warned t a (rw q at f) in
          record {
            listed = inr l.listed;
            due = l.due;
            largest = ((λ d. le_of_In x t xs h l.listed), l.largest);
          }
      | inl f ↦
          let q : x ≡ t = ground arith in
          record {
            listed = inl (sym q);
            due = (ground arith, ground arith);
            largest = (
              (λ d. omega (arith, q)),
              All-map _ _ xs (λ u n d. absurd (n d)) (find_threshold-eq-none xs left warned f),
            );
          }
    ]

module _ (days : List ℕ) where
  -- What a check with `left` whole days to go does to the state.
  pub record Warns (left : ℕ) (cert : CertInfo) (st : WebState) (r : WebState × Option Announcement)
      : Type 0 where
    pub silent : r.1 ≡ none → All (λ t. ¬ IsDue left st.cert_warned_days t) days
    pub warned :
        (a : Announcement)
        → r.1 ≡ some a
        → (a ≡ cert_expires left cert.not_after)
          × IsLargest days left st.cert_warned_days r.0.cert_warned_days

  warn_expiring-Warns :
      (cert : CertInfo) (left : ℕ) (st : WebState)
      → IsAscending days
      → Warns left cert st (warn_expiring days cert left st)
  unfolding warn_expiring
  warn_expiring-Warns cert left st h =
      elim (Option-cases (find_threshold days left st.cert_warned_days)) [
        | inl e ↦ record {
          silent = λ q. find_threshold-eq-none days left st.cert_warned_days e;
          warned = λ a q. absurd (ground arith);
        }
        | inr (t, e) ↦
            let l = find_threshold-IsLargest days left st.cert_warned_days t h e in
            record {
              silent = λ q. absurd (ground arith);
              warned = λ a q. (ground arith, rw (e, warn_expiring) l);
            }
      ]

  warn_left :
      (cert : CertInfo) (now left : ℕ) (st : WebState)
      → cert.days_left ≡ some left
      → warn days cert now st ≡ warn_expiring days cert left st
  unfolding warn
  warn_left cert now left st e = ground arith

  -- A check of a certificate that has not expired is silent exactly when no threshold is due that
  -- was not warned of, and a warning is of the largest such one; a certificate not seen before
  -- counts as warned of at one day more than the largest threshold.
  pub update_cert-Warns :
      (cert : CertInfo) (now left : ℕ) (st : WebState)
      → IsAscending days
      → cert.days_left ≡ some left
      → Warns left cert (renew days cert st) (update_cert days cert now st)
  unfolding update_cert warn
  update_cert-Warns cert now left st h e =
      rw (warn_left cert now left (renew days cert st) e)
        (warn_expiring-Warns cert left (renew days cert st) h)

  -- The threshold, if the announcement warns of one.
  abbrev noted : WebState → Option Announcement → List ℕ → List ℕ
  noted st none later = later
  noted st (some (cert_expires left t)) later = st.cert_warned_days ∷ later
  noted st (some (cert_expired t)) later = later
  noted st (some (down_msg r)) later = later
  noted st (some (up_msg d)) later = later

  -- The thresholds that a run of checks warns of.
  unfoldable pub warned_days : List (CertInfo × ℕ) → WebState → List ℕ
  warned_days [] st = []
  warned_days ((cert, now) ∷ cs) st =
      let (st1, msg) = update_cert days cert now st in noted st1 msg (warned_days cs st1)

  -- Each is below the one before, and below `w`.
  abbrev pub IsFalling : ℕ → List ℕ → Type 0
  IsFalling w [] = Unit
  IsFalling w (t ∷ ts) = (t < w) × IsFalling t ts

  renew_same :
      (cert : CertInfo) (st : WebState)
      → st.cert_not_after ≡ cert.not_after
      → renew days cert st ≡ st
  unfolding renew
  renew_same cert st e = ground arith

  find_threshold_lt :
      (ts : List ℕ) (left warned t : ℕ) → find_threshold ts left warned ≡ some t → t < warned
  unfolding find_threshold
  find_threshold_lt [] left warned t e = absurd (ground arith)
  find_threshold_lt (x ∷ xs) left warned t e = ground (arith, find_threshold_lt xs left warned t)

  warn_expired-falls :
      (cert : CertInfo) (today : ℕ) (st : WebState) (later : List ℕ)
      → let r = warn_expired cert today st in
        IsFalling r.0.cert_warned_days later
        → (r.0.cert_not_after ≡ st.cert_not_after)
          × IsFalling st.cert_warned_days (noted r.0 r.1 later)
  unfolding warn_expired
  warn_expired-falls cert today st later h = elim (Bool-cases (is_day st.cert_warned_date today)) [
    | inl e ↦ rw e (refl, rw e at h)
    | inr e ↦ rw e (refl, rw e at h)
  ]

  warn_expiring-falls :
      (cert : CertInfo) (left : ℕ) (st : WebState) (later : List ℕ)
      → let r = warn_expiring days cert left st in
        IsFalling r.0.cert_warned_days later
        → (r.0.cert_not_after ≡ st.cert_not_after)
          × IsFalling st.cert_warned_days (noted r.0 r.1 later)
  unfolding warn_expiring
  warn_expiring-falls cert left st later h =
      elim (Option-cases (find_threshold days left st.cert_warned_days)) [
        | inl e ↦ rw (e, warn_expiring) (refl, rw (e, warn_expiring) at h)
        | inr (t, e) ↦
            rw (e, warn_expiring)
              (
                refl,
                (find_threshold_lt days left st.cert_warned_days t e, rw (e, warn_expiring) at h),
              )
      ]

  warn-falls :
      (cert : CertInfo) (now : ℕ) (st : WebState) (later : List ℕ)
      → let r = warn days cert now st in
        IsFalling r.0.cert_warned_days later
        → (r.0.cert_not_after ≡ st.cert_not_after)
          × IsFalling st.cert_warned_days (noted r.0 r.1 later)
  unfolding warn
  warn-falls cert now st later h = elim (Option-cases cert.days_left) [
    | inl e ↦
        rw (e, warn) (warn_expired-falls cert (now / (86400 * ns)) st later (rw (e, warn) at h))
    | inr (left, e) ↦ rw (e, warn) (warn_expiring-falls cert left st later (rw (e, warn) at h))
  ]

  warn_not_after :
      (cert : CertInfo) (now : ℕ) (st : WebState)
      → (warn days cert now st).0.cert_not_after ≡ st.cert_not_after
  unfolding warn warn_expired warn_expiring
  warn_not_after cert now st = ground arith

  -- Each threshold is warned of at most once for one certificate: over any run of checks of a
  -- certificate that is known already, the thresholds fall strictly, starting below the last one
  -- that was warned of.
  pub warned_days-IsFalling :
      (cs : List (CertInfo × ℕ)) (st : WebState)
      → All (λ (c : CertInfo × ℕ). c.0.not_after ≡ st.cert_not_after) cs
      → IsFalling st.cert_warned_days (warned_days cs st)
  unfolding warned_days update_cert
  warned_days-IsFalling [] st h = tt
  warned_days-IsFalling ((cert, now) ∷ cs) st (e, h) =
      let st1 = (warn days cert now st).0 in
      let n = warn_not_after cert now st in
      let ih = warned_days-IsFalling cs st1 (All-map _ _ cs (λ c q. q ∙ sym n) h) in
      rw (renew_same cert st (sym e)) (warn-falls cert now st (warned_days cs st1) ih).1

  renew_known :
      (cert : CertInfo) (st : WebState) → (renew days cert st).cert_not_after ≡ cert.not_after
  unfolding renew
  renew_known cert st = ground arith

  warn_past :
      (cert : CertInfo) (now : ℕ) (st : WebState)
      → cert.days_left ≡ none
      → warn days cert now st ≡ warn_expired cert (now / (86400 * ns)) st
  unfolding warn
  warn_past cert now st e = ground arith

  warned_today :
      (cert : CertInfo) (today : ℕ) (st : WebState)
      → let st1 = (warn_expired cert today st).0 in warn_expired cert today st1 ≡ (st1, none)
  unfolding warn_expired
  warned_today cert today st = ground arith

  -- An expired certificate is announced at most once on one day: a second check of it on the same
  -- day says nothing and leaves the state as it is.
  pub expired_once :
      (cert : CertInfo) (now later : ℕ) (st : WebState)
      → cert.days_left ≡ none
      → now / (86400 * ns) ≡ later / (86400 * ns)
      → update_cert days cert later (update_cert days cert now st).0
        ≡ ((update_cert days cert now st).0, none)
  unfolding update_cert
  expired_once cert now later st e d =
      let st1 = (warn days cert now (renew days cert st)).0 in
      rw (renew_same cert st1 (warn_not_after cert now (renew days cert st) ∙ renew_known cert st))
        (rw (warn_past cert later st1 e, ← d)
          (rw (warn_past cert now (renew days cert st) e)
            (warned_today cert (now / (86400 * ns)) (renew days cert st))))
