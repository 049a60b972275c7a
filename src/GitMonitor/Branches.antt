-- ===== src/GitMonitor/Branches.antt =====
-- What is announced of one branch over the polls: each commit that it gained, once.
use mathlib.Core.Path.{subst}
use mathlib.Core.List.{append-nil}
use dflybot.Prelude.{
  Bool, true, false, some, List, [], ◌∷◌, ◌++◌, ◌≡◌, ◌≢◌, ◌↔◌, ◌⊎◌, inl, inr, arith, ap, All, In,
  In-append, Distinct, Distinct-append, Bool-cases,
}
use dflybot.Prelude.Bytes.{Bytes}
use dflybot.Prelude.Sorted.{lookup}
use dflybot.GitMonitor.{
  Map, Git, State, list_refs, heads, ref_of, rev_list, visit_branch, collect_branches, collect_tags,
  collect_announcements, collects,
}
use dflybot.GitMonitor.Refs.{
  hashes_of, hashes_of-append, Leaves, visit_refs-focus, list_refs-IsAscending,
}
use dflybot.GitMonitor.Visit.{
  on, visit_branch-Spares, IsShown, visit_branch-same, visit_branch-grown, collect_tags_elsewhere,
}

abbrev pub IsTransitive : (Bytes → Bytes → Bool) → Type 0
IsTransitive reach = (x y z : Bytes) → reach x y ≡ true → reach y z ≡ true → reach x z ≡ true

module _ (reach : Bytes → Bytes → Bool) (b : Bytes) where
  -- The commits that are reachable from `new` and not from `old`, each once.
  pub record IsRange (old new : Bytes) (shas : List Bytes) : Type 0 where
    pub between : (c : Bytes) → In c shas ↔ ((reach c new ≡ true) × (reach c old ≡ false))
    pub distinct : Distinct shas

  -- The tip `new` of the branch at one poll, and the commits that it has over `old`: none where
  -- the tip has not moved, or else those that rev-list prints, with the tip at the end.
  pub record Moves (git : Git) (old new : Bytes) (shas : List Bytes) : Type 0 where
    pub refs : Map
    pub listed : list_refs git heads ≡ some refs
    pub tip : lookup b refs ≡ some new
    pub known : old ≢ []
    pub forward : reach old new ≡ true
    pub is_range : IsRange old new shas
    pub printed :
        ((old ≡ new) × (shas ≡ []))
        ⊎ ((init : List Bytes) × (shas ≡ init ++ new ∷ [])
            × (old ≢ new)
            × (rev_list git old new ≡ some shas)
            × All (IsShown git b) shas)

  -- The tip of the branch over the polls.
  abbrev pub Grows : Bytes → List Git → Bytes → Type 0
  Grows old [] last = old ≡ last
  Grows old (git ∷ gits) last =
      (new : Bytes) × (shas : List Bytes) × Moves git old new shas × Grows new gits last

  visit_branch_moved :
      (git : Git) (old new : Bytes) (shas : List Bytes)
      → Moves git old new shas
      → (seen : Map) → lookup (ref_of b) seen ≡ some old
      → Leaves
          (visit_branch git)
          ref_of
          (on b)
          (ref_of b)
          (some new)
          shas
          (visit_branch git b new seen)
  visit_branch_moved git old new shas m seen l = elim m.printed [
    | inl (e, z) ↦ rw (z, ← e) (visit_branch-same git b old seen m.known l)
    | inr (init, z, n, r, s) ↦
        rw z (visit_branch-grown git b old new init seen m.known n (rw z at r) (rw z at s) l)
  ]

  collect_branches-Leaves :
      (git : Git) (old new : Bytes) (shas : List Bytes) (seen : Map)
      → Moves git old new shas
      → lookup (ref_of b) seen ≡ some old
      → Leaves
          (visit_branch git)
          ref_of
          (on b)
          (ref_of b)
          (some new)
          shas
          (collect_branches git seen)
  unfolding collect_branches
  collect_branches-Leaves git old new shas seen m l =
      rw (m.listed, collect_branches)
        (visit_refs-focus (visit_branch git) ref_of (on b) b new (some old) (some new) shas
          (visit_branch-Spares git b) (visit_branch_moved git old new shas m) m.refs
          (list_refs-IsAscending git heads m.refs m.listed) m.tip seen l)

  IsRange-append :
      (old new last : Bytes) (xs ys : List Bytes)
      → IsRange old new xs
      → IsRange new last ys
      → ((c : Bytes) → reach c old ≡ true → reach c new ≡ true)
      → ((c : Bytes) → reach c new ≡ true → reach c last ≡ true)
      → IsRange old last (xs ++ ys)
  IsRange-append old new last xs ys h k fwd up = record {
    between = λ c. ground (arith, In-append c xs ys, h.between c, k.between c, fwd c, up c);
    distinct =
        Distinct-append xs ys h.distinct k.distinct
          (λ c i j. ground (arith, (h.between c).0 i, (k.between c).0 j));
  }

  reach_last :
      (c old : Bytes) (gits : List Git) (last : Bytes)
      → IsTransitive reach
      → Grows old gits last
      → reach c old ≡ true
      → reach c last ≡ true
  reach_last c old [] last t e r = subst (λ x. reach c x ≡ true) e r
  reach_last c old (git ∷ gits) last t (new, shas, m, g) r =
      reach_last c new gits last t g (t c old new r m.forward)

  collect_announcements-hashes :
      (git : Git) (old new : Bytes) (shas : List Bytes) (st : State)
      → b ≢ []
      → Moves git old new shas
      → lookup (ref_of b) st.last_seen ≡ some old
      → hashes_of (on b) (collect_announcements git st).1 ≡ shas
  unfolding collect_announcements
  collect_announcements-hashes git old new shas st n m l =
      let r = collect_branches git st.last_seen in
      rw
        (
          hashes_of-append (on b) r.1 (collect_tags git st.seen_tags).1,
          (collect_branches-Leaves git old new shas st.last_seen m l).1,
          collect_tags_elsewhere git b st.seen_tags n,
        )
        (append-nil shas)

  -- Over polls in which the branch only moves forward, from a state that saw its commit `old`, the
  -- commits announced of it are those reachable from its last tip and not from `old`, each one
  -- once, whatever the other branches and the tags do in the meantime. Each git show is assumed to
  -- succeed, and rev-list to print what the range means.
  pub collects-IsRange :
      (gits : List Git) (old last : Bytes) (st : State)
      → IsTransitive reach
      → b ≢ []
      → Grows old gits last
      → lookup (ref_of b) st.last_seen ≡ some old
      → IsRange old last (hashes_of (on b) (collects gits st).1)
  unfolding collects hashes_of
  collects-IsRange [] old last st t n e l = record {
    between = λ c. ground (arith, ap (reach c) e, Bool-cases (reach c old));
    distinct = tt;
  }
  collects-IsRange (git ∷ gits) old last st t n (new, shas, m, g) l =
      let (st1, ans) = collect_announcements git st in
      let k = (collect_branches-Leaves git old new shas st.last_seen m l).0 in
      let rest = collects-IsRange gits new last st1 t n g k in
      let later = hashes_of (on b) (collects gits st1).1 in
      let j =
        IsRange-append old new last shas later m.is_range rest (λ c r. t c old new r m.forward)
          (λ c. reach_last c new gits last t g) in
      rw
        (
          hashes_of-append (on b) ans (collects gits st1).1,
          collect_announcements-hashes git old new shas st n m l,
        )
        (record { between = j.between; distinct = j.distinct })
