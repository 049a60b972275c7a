-- ===== src/GitMonitor/Visit.antt =====
-- What one poll does for one branch and what it announces of it.
use dflybot.Prelude.{
  Bool, false, Option, none, some, List, [], ◌∷◌, ◌++◌, ◌≡◌, ◌≢◌, inl, inr, refl, sym, ◌∙◌, All,
  Bool-cases, Option-cases,
}
use dflybot.Prelude.Bytes.{Bytes, ◌==◌, eq_iff, eq_refl}
use dflybot.Prelude.Sorted.{lookup, insert, lookup-insert}
use dflybot.GitMonitor.{
  Map, Git, Announcement, CommitInfo, list_refs, ref_of, get_or_blank, rev_list, get_commit_info,
  scan_commits, visit_branch, visit_refs, collect_tags, visit_tag, tags, announce_tag, has_sha,
  is_some, commit_of,
}
use dflybot.GitMonitor.Refs.{hashes_of, hashes_of-append, Leaves, Spares}

abbrev pub on : Bytes → Announcement → Bool
on b a = a.branch == b

pub ref_of-eq : (c b : Bytes) → (ref_of c == ref_of b) ≡ (c == b)
unfolding ◌==◌
ref_of-eq c b = refl

pub differs : (a b : Bytes) → a ≢ b → (a == b) ≡ false
differs a b n = elim (Bool-cases (a == b)) [ inl e ↦ absurd (n ((eq_iff a b).0 e)) | inr e ↦ e ]

pub lookup-insert_own : (b sha : Bytes) (seen : Map) → lookup b (insert b sha seen) ≡ some sha
lookup-insert_own b sha seen = rw (lookup-insert b b sha seen, eq_refl b) refl

lookup-insert_other :
    (c b sha : Bytes) (seen : Map)
    → (c == b) ≡ false
    → lookup (ref_of b) (insert (ref_of c) sha seen) ≡ lookup (ref_of b) seen
lookup-insert_other c b sha seen e =
    rw (lookup-insert (ref_of c) (ref_of b) sha seen, ref_of-eq c b, e) refl

module _ (git : Git) (b : Bytes) where
  scan_commits-Spares :
      (c : Bytes) (shas : List Bytes) (seen : Map)
      → (c == b) ≡ false
      → Leaves
          (visit_branch git)
          ref_of
          (on b)
          (ref_of b)
          (lookup (ref_of b) seen)
          []
          (scan_commits git c shas seen)
  unfolding scan_commits hashes_of
  scan_commits-Spares c [] seen e = (refl, refl)
  scan_commits-Spares c (sha ∷ shas) seen e = elim (Option-cases (get_commit_info git sha)) [
    | inl f ↦ rw (f, scan_commits) (scan_commits-Spares c shas seen e)
    | inr (ci, f) ↦
        let ih = scan_commits-Spares c shas (insert (ref_of c) sha seen) e in
        rw (f, e, scan_commits, hashes_of) (ih.0 ∙ lookup-insert_other c b sha seen e, ih.1)
  ]

  pub visit_branch-Spares : Spares (visit_branch git) ref_of (on b) b
  unfolding visit_branch hashes_of
  visit_branch-Spares c new seen e =
      let old = get_or_blank (ref_of c) seen in
      elim (Bool-cases (old == [])) [
        | inl f ↦ rw f (lookup-insert_other c b new seen e, refl)
        | inr f ↦ rw f (elim (Bool-cases (old == new)) [
          | inl g ↦ rw g (refl, refl)
          | inr g ↦ rw g (elim (Option-cases (rev_list git old new)) [
            | inl l ↦ rw l (refl, refl)
            | inr (shas, l) ↦ rw l (scan_commits-Spares c shas seen e)
          ])
        ])
      ]

  -- The commit can be shown, with its own hash.
  abbrev pub IsShown : Bytes → Type 0
  IsShown sha = (ci : CommitInfo) × (get_commit_info git sha ≡ some ci) × (ci.hash ≡ sha)

  scan_commits_shown :
      (shas : List Bytes) (new : Bytes) (seen : Map)
      → All IsShown (shas ++ new ∷ [])
      → Leaves
          (visit_branch git)
          ref_of
          (on b)
          (ref_of b)
          (some new)
          (shas ++ new ∷ [])
          (scan_commits git b (shas ++ new ∷ []) seen)
  unfolding scan_commits hashes_of
  scan_commits_shown [] new seen ((ci, f, h), t) =
      rw (f, scan_commits, hashes_of, eq_refl b, h) (lookup-insert_own (ref_of b) new seen, refl)
  scan_commits_shown (sha ∷ shas) new seen ((ci, f, h), t) =
      let ih = scan_commits_shown shas new (insert (ref_of b) sha seen) t in
      rw (f, scan_commits, hashes_of, eq_refl b, h, ih.1) (ih.0, refl)

  pub visit_branch-same :
      (sha : Bytes) (seen : Map)
      → sha ≢ []
      → lookup (ref_of b) seen ≡ some sha
      → Leaves
          (visit_branch git)
          ref_of
          (on b)
          (ref_of b)
          (some sha)
          []
          (visit_branch git b sha seen)
  unfolding visit_branch hashes_of get_or_blank
  visit_branch-same sha seen n l =
      rw (get_or_blank, l, visit_branch, differs sha [] n, eq_refl sha) (l, refl)

  pub visit_branch-grown :
      (old new : Bytes) (shas : List Bytes) (seen : Map)
      → old ≢ []
      → old ≢ new
      → rev_list git old new ≡ some (shas ++ new ∷ [])
      → All IsShown (shas ++ new ∷ [])
      → lookup (ref_of b) seen ≡ some old
      → Leaves
          (visit_branch git)
          ref_of
          (on b)
          (ref_of b)
          (some new)
          (shas ++ new ∷ [])
          (visit_branch git b new seen)
  unfolding visit_branch get_or_blank
  visit_branch-grown old new shas seen n m r s l =
      rw (get_or_blank, l, visit_branch, differs old [] n, differs old new m, r)
        (scan_commits_shown shas new seen s)

  announce_tag_elsewhere :
      (t : Bytes) (updated : Bool) (o : Option CommitInfo)
      → b ≢ []
      → hashes_of (on b) (announce_tag t updated o) ≡ []
  unfolding hashes_of
  announce_tag_elsewhere t updated none n = refl
  announce_tag_elsewhere t updated (some ci) n = rw (differs [] b (λ e. n (sym e))) refl

  visit_tag_elsewhere :
      (t sha : Bytes) (seen : Map) → b ≢ [] → hashes_of (on b) (visit_tag git t sha seen).1 ≡ []
  unfolding visit_tag hashes_of
  visit_tag_elsewhere t sha seen n = elim (Bool-cases (has_sha (lookup t seen) sha)) [
    | inl e ↦ rw e refl
    | inr e ↦ rw e (
        announce_tag_elsewhere t (is_some (lookup t seen))
          (get_commit_info git (commit_of git t sha)) n)
  ]

  visit_tags_elsewhere :
      (refs seen : Map) → b ≢ [] → hashes_of (on b) (visit_refs (visit_tag git) refs seen).1 ≡ []
  unfolding visit_refs hashes_of
  visit_tags_elsewhere [] seen n = refl
  visit_tags_elsewhere ((t, sha) ∷ refs) seen n =
      let r = visit_tag git t sha seen in
      rw
        (
          hashes_of-append (on b) r.1 (visit_refs (visit_tag git) refs r.0).1,
          visit_tag_elsewhere t sha seen n,
          visit_tags_elsewhere refs r.0 n,
        )
        refl

  pub collect_tags_elsewhere :
      (seen : Map) → b ≢ [] → hashes_of (on b) (collect_tags git seen).1 ≡ []
  unfolding collect_tags hashes_of
  collect_tags_elsewhere seen n = elim (Option-cases (list_refs git tags)) [
    | inl e ↦ rw (e, collect_tags, hashes_of) refl
    | inr (refs, e) ↦ rw (e, collect_tags) (visit_tags_elsewhere refs seen n)
  ]
