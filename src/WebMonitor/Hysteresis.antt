-- ===== src/WebMonitor/Hysteresis.antt =====
-- What the up and down announcements of a site mean.
use mathlib.Core.List.{append_assoc}
use dflybot.Prelude.{
  ℕ, ◌+◌, Bool, true, false, Option, none, some, List, [], ◌∷◌, ◌++◌, ◌≡◌, inl, inr, refl, All,
  Option-cases, Bool-cases, eqb, leb, ◌*◌, ◌/◌,
}
use dflybot.WebMonitor.{
  Health, unknown, up, down, other, WebState, CertInfo, ProbeResult, Alert, Announcement, down_msg,
  up_msg, cert_expired, cert_expires, update_up, update_down, update_by, update_state, update_cert,
  check_cert, posted, poll, polls, fresh, ns,
}
use dflybot.WebMonitor

-- The announcement is about the certificate.
abbrev pub IsCert : Announcement → Type 0
IsCert (down_msg r) = ⊥
IsCert (up_msg d) = ⊥
IsCert (cert_expired t) = Unit
IsCert (cert_expires d t) = Unit

abbrev pub is_down : Health → Bool
is_down unknown = false
is_down up = false
is_down down = true
is_down (other s) = false

-- Reports of failure and of recovery take turns, the first being one of recovery exactly if the
-- site is down at first.
abbrev pub Alternates : Bool → List Announcement → Type 0
Alternates b [] = Unit
Alternates b (down_msg r ∷ m) = (b ≡ false) × Alternates true m
Alternates b (up_msg d ∷ m) = (b ≡ true) × Alternates false m
Alternates b (cert_expired t ∷ m) = Alternates b m
Alternates b (cert_expires d t ∷ m) = Alternates b m

-- The check of the certificate leaves the health of the site alone, and says nothing about it.
pub record KeepsHealth (st : WebState) (r : WebState × Option Announcement) : Type 0 where
  pub state : r.0.state ≡ st.state
  pub pending_up : r.0.pending_up ≡ st.pending_up
  pub pending_down : r.0.pending_down ≡ st.pending_down
  pub about_cert : All IsCert (posted r.1)
  pub quiet :
      (b : Bool) (later : List Announcement)
      → Alternates b later
      → Alternates b (posted r.1 ++ later)

silent-KeepsHealth : (st : WebState) → KeepsHealth st (st, none)
silent-KeepsHealth st = record {
  state = refl;
  pending_up = refl;
  pending_down = refl;
  about_cert = tt;
  quiet = λ b later h. h;
}

module _ (cert : CertInfo) where
  warn_expired-KeepsHealth :
      (today : ℕ) (st : WebState) → KeepsHealth st (WebMonitor.warn_expired cert today st)
  unfolding WebMonitor.warn_expired
  warn_expired-KeepsHealth today st =
      elim (Bool-cases (WebMonitor.is_day st.cert_warned_date today)) [
        | inl e ↦ rw e (silent-KeepsHealth st)
        | inr e ↦ rw e (record {
          state = refl;
          pending_up = refl;
          pending_down = refl;
          about_cert = (tt, tt);
          quiet = λ b later h. h;
        })
      ]

  warn_expiring-KeepsHealth :
      (days : List ℕ) (left : ℕ) (st : WebState)
      → KeepsHealth st (WebMonitor.warn_expiring days cert left st)
  unfolding WebMonitor.warn_expiring
  warn_expiring-KeepsHealth days left st =
      elim (Option-cases (WebMonitor.find_threshold days left st.cert_warned_days)) [
        | inl e ↦ rw (e, WebMonitor.warn_expiring) (silent-KeepsHealth st)
        | inr (t, e) ↦
            rw (e, WebMonitor.warn_expiring)
              (record {
                state = refl;
                pending_up = refl;
                pending_down = refl;
                about_cert = (tt, tt);
                quiet = λ b later h. h;
              })
      ]

  warn-KeepsHealth :
      (days : List ℕ) (now : ℕ) (st : WebState) → KeepsHealth st (WebMonitor.warn days cert now st)
  unfolding WebMonitor.warn
  warn-KeepsHealth days now st = elim (Option-cases cert.days_left) [
    | inl e ↦ rw (e, WebMonitor.warn) (warn_expired-KeepsHealth (now / (86400 * ns)) st)
    | inr (left, e) ↦ rw (e, WebMonitor.warn) (warn_expiring-KeepsHealth days left st)
  ]

  update_cert-KeepsHealth :
      (days : List ℕ) (now : ℕ) (st : WebState) → KeepsHealth st (update_cert days cert now st)
  unfolding update_cert WebMonitor.renew
  update_cert-KeepsHealth days now st = elim (Bool-cases (eqb st.cert_not_after cert.not_after)) [
    | inl e ↦ rw e (warn-KeepsHealth days now st)
    | inr e ↦ rw e (
        let k = warn-KeepsHealth days now (record st {
          cert_not_after = cert.not_after;
          cert_warned_days = WebMonitor.last_day days + 1;
          cert_warned_date = none;
        }) in
        record {
          state = k.state;
          pending_up = k.pending_up;
          pending_down = k.pending_down;
          about_cert = k.about_cert;
          quiet = k.quiet;
        })
  ]

pub check_cert-KeepsHealth :
    (days : List ℕ) (cert : Option CertInfo) (now : ℕ) (st : WebState)
    → KeepsHealth st (check_cert days cert now st)
unfolding check_cert
check_cert-KeepsHealth days none now st = silent-KeepsHealth st
check_cert-KeepsHealth days (some cert) now st = update_cert-KeepsHealth cert days now st

module _ (alert : Alert) (res : ProbeResult) (now : ℕ) where
  update_up-Alternates :
      (st : WebState) (later : List Announcement)
      → is_down st.state ≡ false
      → Alternates (is_down (update_up alert res now st).0.state) later
      → Alternates false (posted (update_up alert res now st).1 ++ later)
  unfolding update_up
  update_up-Alternates st later e h =
      elim (Bool-cases (leb alert.down_repeats (st.pending_down + 1))) [
        | inl t ↦ rw t (refl, rw t at h)
        | inr t ↦ rw t (rw e at (rw t at h))
      ]

  update_down-Alternates :
      (st : WebState) (later : List Announcement)
      → is_down st.state ≡ true
      → Alternates (is_down (update_down alert now st).0.state) later
      → Alternates true (posted (update_down alert now st).1 ++ later)
  unfolding update_down
  update_down-Alternates st later e h =
      elim (Bool-cases (leb alert.up_repeats (st.pending_up + 1))) [
        | inl t ↦ rw t (refl, rw t at h)
        | inr t ↦ rw t (rw e at (rw t at h))
      ]

  update_by-Alternates :
      (s : Health) (b : Bool) (st : WebState) (later : List Announcement)
      → is_down st.state ≡ is_down s
      → Alternates (is_down (update_by s b alert res now st).0.state) later
      → Alternates (is_down s) (posted (update_by s b alert res now st).1 ++ later)
  unfolding update_by
  update_by-Alternates unknown true st later e h = h
  update_by-Alternates up true st later e h = rw e at h
  update_by-Alternates unknown false st later e h = update_up-Alternates st later e h
  update_by-Alternates up false st later e h = update_up-Alternates st later e h
  update_by-Alternates down true st later e h = update_down-Alternates st later e h
  update_by-Alternates down false st later e h = rw e at h
  update_by-Alternates (other s) b st later e h = rw e at h

module _ (alert : Alert) (days : List ℕ) where
  poll-Alternates :
      (res : ProbeResult) (now : ℕ) (st : WebState) (later : List Announcement)
      → Alternates (is_down (poll alert days res now st).0.state) later
      → Alternates (is_down st.state) ((poll alert days res now st).1 ++ later)
  unfolding poll update_state
  poll-Alternates res now st later h =
      let st1 = (update_state alert res now st).0 in
      let k = check_cert-KeepsHealth days res.cert now st1 in
      rw append_assoc (
        update_by-Alternates alert res now st.state res.is_ok st
          (posted (check_cert days res.cert now st1).1 ++ later) refl
          (k.quiet (is_down st1.state) later (rw k.state at h)))

  -- Over any run of polls the announcements of failures and of recoveries take turns.
  pub polls-Alternates :
      (ps : List (ProbeResult × ℕ)) (st : WebState)
      → Alternates (is_down st.state) (polls alert days ps st).1
  unfolding polls
  polls-Alternates [] st = tt
  polls-Alternates ((res, now) ∷ ps) st =
      poll-Alternates res now st (polls alert days ps (poll alert days res now st).0).1
        (polls-Alternates ps (poll alert days res now st).0)
