-- ===== src/GitMonitor/Tags.antt =====
-- What is announced of one tag over the polls.
use mathlib.Core.Path.{subst}
use mathlib.Core.List.{append-nil}
use dflybot.Prelude.{
  suc, ◌≤◌, false, some, List, [], ◌∷◌, ◌≡◌, ◌≢◌, inl, inr, arith, refl, ap, length, All,
  Bool-cases, Option-cases,
}
use dflybot.Prelude.Bytes.{Bytes}
use dflybot.Prelude.Sorted.{lookup}
use dflybot.GitMonitor.{
  Map, Git, State, CommitInfo, get_commit_info, collect_tags, collect_announcements, collects,
  visit_tag, has_sha, commit_of,
}
use dflybot.GitMonitor.Refs.{hashes_of, hashes_of-append, Leaves}
use dflybot.GitMonitor.Visit.{differs}
use dflybot.GitMonitor.TagVisit.{
  tells, id, has_sha-some, collect_tags-Leaves, collect_announcements-tag_hashes, visit_tag-told,
  visit_tag-quiet, visit_tag-untold, IsAnnotated, IsPlain,
}

module _ (t sha : Bytes) where
  annotated_poll :
      (git : Git) (ci : CommitInfo) (seen : Map)
      → IsAnnotated git t sha ci
      → has_sha (lookup t seen) sha ≡ false
      → Leaves
          (visit_tag git)
          id
          (tells t)
          t
          (some (commit_of git t sha))
          (ci.hash ∷ [])
          (collect_tags git seen)
  annotated_poll git ci seen a e =
      collect_tags-Leaves git t sha (lookup t seen) (some (commit_of git t sha)) (ci.hash ∷ []) seen
        a.stands (λ other l. visit_tag-told git t sha ci other (rw l e) a.shown) refl

  -- An annotated tag that was not seen at its object is announced at every poll, for the state
  -- keeps its commit and is compared with its object.
  pub annotated_again :
      (ci : CommitInfo) (gits : List Git) (st : State)
      → t ≢ []
      → All (λ (git : Git). IsAnnotated git t sha ci) gits
      → has_sha (lookup t st.seen_tags) sha ≡ false
      → length (hashes_of (tells t) (collects gits st).1) ≡ length gits
  unfolding collects hashes_of collect_announcements
  annotated_again ci [] st n a e = refl
  annotated_again ci (git ∷ gits) st n (a, rest) e =
      let (st1, ans) = collect_announcements git st in
      let p = annotated_poll git ci st.seen_tags a e in
      let later =
        annotated_again ci gits st1 n rest (rw p.0 (differs (commit_of git t sha) sha a.apart)) in
      rw
        (
          hashes_of-append (tells t) ans (collects gits st1).1,
          collect_announcements-tag_hashes git t st n,
          p.1,
        )
        (ap suc later)

  plain_poll :
      (git : Git) (seen : Map)
      → IsPlain git t sha
      → (hs : List Bytes) × (length hs ≤ 1)
        × Leaves (visit_tag git) id (tells t) t (some sha) hs (collect_tags git seen)
  plain_poll git seen a =
      let at_once = collect_tags-Leaves git t sha (lookup t seen) (some sha) in
      let c : commit_of git t sha ≡ sha = a.same in
      elim (Bool-cases (has_sha (lookup t seen) sha)) [
        | inl e ↦ (
          [],
          omega arith,
          at_once [] seen a.stands
              (λ other l.
                visit_tag-quiet git t sha other (has_sha-some (lookup t other) sha (rw l e)))
              refl,
        )
        | inr e ↦ elim (Option-cases (get_commit_info git (commit_of git t sha))) [
          | inl f ↦ (
            [],
            omega arith,
            at_once [] seen a.stands
                (λ other l.
                  subst
                    (λ x.
                      Leaves (visit_tag git) id (tells t) t (some x) [] (visit_tag git t sha other))
                    c (visit_tag-untold git t sha other (rw l e) f))
                refl,
          )
          | inr (ci, f) ↦ (
            ci.hash ∷ [],
            omega arith,
            at_once (ci.hash ∷ []) seen a.stands
                (λ other l.
                  subst
                    (λ x.
                      Leaves (visit_tag git) id (tells t) t (some x) (ci.hash ∷ [])
                        (visit_tag git t sha other))
                    c (visit_tag-told git t sha ci other (rw l e) f))
                refl,
          )
        ]
      ]

  plain_quiet :
      (gits : List Git) (st : State)
      → t ≢ []
      → All (λ (git : Git). IsPlain git t sha) gits
      → lookup t st.seen_tags ≡ some sha
      → hashes_of (tells t) (collects gits st).1 ≡ []
  unfolding collects hashes_of collect_announcements
  plain_quiet [] st n a l = refl
  plain_quiet (git ∷ gits) st n (a, rest) l =
      let (st1, ans) = collect_announcements git st in
      let p =
        collect_tags-Leaves git t sha (some sha) (some sha) [] st.seen_tags a.stands
          (visit_tag-quiet git t sha) l in
      rw
        (
          hashes_of-append (tells t) ans (collects gits st1).1,
          collect_announcements-tag_hashes git t st n,
          p.1,
        )
        (plain_quiet gits st1 n rest p.0)

  -- A tag that is a commit's name is announced at most once while it stands there, from every state.
  pub plain_once :
      (gits : List Git) (st : State)
      → t ≢ []
      → All (λ (git : Git). IsPlain git t sha) gits
      → length (hashes_of (tells t) (collects gits st).1) ≤ 1
  unfolding collects hashes_of collect_announcements
  plain_once [] st n a = omega arith
  plain_once (git ∷ gits) st n (a, rest) =
      let (st1, ans) = collect_announcements git st in
      let (hs, h, p) = plain_poll git st.seen_tags a in
      rw
        (
          hashes_of-append (tells t) ans (collects gits st1).1,
          collect_announcements-tag_hashes git t st n,
          p.1,
          plain_quiet gits st1 n rest p.0,
          append-nil hs,
        )
        h
