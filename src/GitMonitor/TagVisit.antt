-- ===== src/GitMonitor/TagVisit.antt =====
-- What one poll does for one tag and what it announces of it.
use dflybot.Prelude.{
  Bool, true, false, Option, none, some, List, [], ◌∷◌, ◌≡◌, ◌≢◌, inl, inr, arith, refl, sym, ap,
  Bool-cases, Option-cases,
}
use dflybot.Prelude.Bytes.{Bytes, ◌==◌, eq_iff, eq_refl}
use dflybot.Prelude.Sorted.{lookup, insert, lookup-insert}
use dflybot.GitMonitor.{
  Map, Git, State, Announcement, CommitInfo, list_refs, heads, tags, ref_of, get_commit_info,
  scan_commits, visit_branch, visit_refs, get_or_blank, rev_list, collect_branches, collect_tags,
  collect_announcements, visit_tag, announce_tag, has_sha, is_some, commit_of,
}
use dflybot.GitMonitor.Refs.{
  hashes_of, hashes_of-append, Leaves, Spares, visit_refs-focus, list_refs-IsAscending,
}
use dflybot.GitMonitor.Visit.{differs, lookup-insert_own}

abbrev pub tells : Bytes → Announcement → Bool
tells t a = a.tag == t

abbrev pub id : Bytes → Bytes
id k = k

pub has_sha-some : (o : Option Bytes) (sha : Bytes) → has_sha o sha ≡ true → o ≡ some sha
has_sha-some none sha e = ground (arith, e)
has_sha-some (some prev) sha e = ap some ((eq_iff prev sha).0 e)

module _ (git : Git) (t : Bytes) where
  announce_tag_other :
      (u : Bytes) (updated : Bool) (o : Option CommitInfo)
      → (u == t) ≡ false
      → hashes_of (tells t) (announce_tag u updated o) ≡ []
  unfolding hashes_of
  announce_tag_other u updated none e = refl
  announce_tag_other u updated (some ci) e = rw e refl

  visit_tag-Spares : Spares (visit_tag git) id (tells t) t
  unfolding visit_tag hashes_of
  visit_tag-Spares u sha seen e = elim (Bool-cases (has_sha (lookup u seen) sha)) [
    | inl f ↦ rw (f, visit_tag, hashes_of) (refl, refl)
    | inr f ↦
        rw (f, visit_tag)
          (
            rw (lookup-insert u t (commit_of git u sha) seen, e) refl,
            announce_tag_other u (is_some (lookup u seen))
                (get_commit_info git (commit_of git u sha)) e,
          )
  ]

  -- The tag stands at the object `sha` in this poll.
  pub record Stands (sha : Bytes) : Type 0 where
    pub refs : Map
    pub listed : list_refs git tags ≡ some refs
    pub tip : lookup t refs ≡ some sha

  pub collect_tags-Leaves :
      (sha : Bytes) (o o' : Option Bytes) (hs : List Bytes) (seen : Map)
      → Stands sha
      → ((seen : Map)
          → lookup t seen ≡ o
          → Leaves (visit_tag git) id (tells t) t o' hs (visit_tag git t sha seen))
      → lookup t seen ≡ o
      → Leaves (visit_tag git) id (tells t) t o' hs (collect_tags git seen)
  unfolding collect_tags
  collect_tags-Leaves sha o o' hs seen s own l =
      rw (s.listed, collect_tags)
        (visit_refs-focus (visit_tag git) id (tells t) t sha o o' hs visit_tag-Spares own s.refs
          (list_refs-IsAscending git tags s.refs s.listed) s.tip seen l)

  scan_commits_elsewhere :
      (b : Bytes) (shas : List Bytes) (seen : Map)
      → t ≢ []
      → hashes_of (tells t) (scan_commits git b shas seen).1 ≡ []
  unfolding scan_commits hashes_of
  scan_commits_elsewhere b [] seen n = refl
  scan_commits_elsewhere b (sha ∷ shas) seen n = elim (Option-cases (get_commit_info git sha)) [
    | inl f ↦ rw (f, scan_commits) (scan_commits_elsewhere b shas seen n)
    | inr (ci, f) ↦
        rw (f, scan_commits, hashes_of, differs [] t (λ e. n (sym e)))
          (scan_commits_elsewhere b shas (insert (ref_of b) sha seen) n)
  ]

  visit_branch_elsewhere :
      (b new : Bytes) (seen : Map)
      → t ≢ []
      → hashes_of (tells t) (visit_branch git b new seen).1 ≡ []
  unfolding visit_branch hashes_of
  visit_branch_elsewhere b new seen n =
      let old = get_or_blank (ref_of b) seen in
      elim (Bool-cases (old == [])) [
        | inl f ↦ rw (f, visit_branch, hashes_of) refl
        | inr f ↦ elim (Bool-cases (old == new)) [
          | inl g ↦ rw (f, g, visit_branch, hashes_of) refl
          | inr g ↦ elim (Option-cases (rev_list git old new)) [
            | inl l ↦ rw (f, g, l, visit_branch, hashes_of) refl
            | inr (shas, l) ↦ rw (f, g, l, visit_branch) (scan_commits_elsewhere b shas seen n)
          ]
        ]
      ]

  visit_branches_elsewhere :
      (refs seen : Map)
      → t ≢ []
      → hashes_of (tells t) (visit_refs (visit_branch git) refs seen).1 ≡ []
  unfolding visit_refs hashes_of
  visit_branches_elsewhere [] seen n = refl
  visit_branches_elsewhere ((b, sha) ∷ refs) seen n =
      let r = visit_branch git b sha seen in
      rw
        (
          hashes_of-append (tells t) r.1 (visit_refs (visit_branch git) refs r.0).1,
          visit_branch_elsewhere b sha seen n,
          visit_branches_elsewhere refs r.0 n,
        )
        refl

  collect_branches_elsewhere :
      (seen : Map) → t ≢ [] → hashes_of (tells t) (collect_branches git seen).1 ≡ []
  unfolding collect_branches hashes_of
  collect_branches_elsewhere seen n = elim (Option-cases (list_refs git heads)) [
    | inl e ↦ rw (e, collect_branches, hashes_of) refl
    | inr (refs, e) ↦ rw (e, collect_branches) (visit_branches_elsewhere refs seen n)
  ]

  pub collect_announcements-tag_hashes :
      (st : State)
      → t ≢ []
      → hashes_of (tells t) (collect_announcements git st).1
        ≡ hashes_of (tells t) (collect_tags git st.seen_tags).1
  unfolding collect_announcements
  collect_announcements-tag_hashes st n =
      rw
        (
          hashes_of-append (tells t) (collect_branches git st.last_seen).1
              (collect_tags git st.seen_tags).1,
          collect_branches_elsewhere st.last_seen n,
        )
        refl

  -- A visit where the object that stands in the state is another one.
  pub visit_tag-told :
      (sha : Bytes) (ci : CommitInfo) (seen : Map)
      → has_sha (lookup t seen) sha ≡ false
      → get_commit_info git (commit_of git t sha) ≡ some ci
      → Leaves
          (visit_tag git)
          id
          (tells t)
          t
          (some (commit_of git t sha))
          (ci.hash ∷ [])
          (visit_tag git t sha seen)
  unfolding visit_tag hashes_of
  visit_tag-told sha ci seen e f =
      rw (e, f, visit_tag, hashes_of, eq_refl t)
        (lookup-insert_own t (commit_of git t sha) seen, refl)

  pub visit_tag-quiet :
      (sha : Bytes) (seen : Map)
      → lookup t seen ≡ some sha
      → Leaves (visit_tag git) id (tells t) t (some sha) [] (visit_tag git t sha seen)
  unfolding visit_tag hashes_of
  visit_tag-quiet sha seen l = rw (l, eq_refl sha) (l, refl)

  pub visit_tag-untold :
      (sha : Bytes) (seen : Map)
      → has_sha (lookup t seen) sha ≡ false
      → get_commit_info git (commit_of git t sha) ≡ none
      → Leaves
          (visit_tag git)
          id
          (tells t)
          t
          (some (commit_of git t sha))
          []
          (visit_tag git t sha seen)
  unfolding visit_tag hashes_of
  visit_tag-untold sha seen e f =
      rw (e, f, visit_tag, hashes_of) (lookup-insert_own t (commit_of git t sha) seen, refl)

  -- The object of an annotated tag is not the commit `ci` that it points to.
  pub record IsAnnotated (sha : Bytes) (ci : CommitInfo) : Type 0 where
    pub stands : Stands sha
    pub apart : commit_of git t sha ≢ sha
    pub shown : get_commit_info git (commit_of git t sha) ≡ some ci

  -- The tag is a commit's name, or git does not tell the commit.
  pub record IsPlain (sha : Bytes) : Type 0 where
    pub stands : Stands sha
    pub same : commit_of git t sha ≡ sha
