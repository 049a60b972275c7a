-- ===== src/GitMonitor/Seeding.antt =====
-- The first start: what the repository already has is not announced.
use mathlib.Core.Path.{subst}
use dflybot.Prelude.{
  ℕ, true, some, [], ◌∷◌, ◌≡◌, inl, inr, arith, refl, sym, ap, ◌∙◌, All, All-map, Bool-cases,
  Option-cases,
}
use dflybot.Prelude.Bytes.{Bytes, ◌==◌, eq_iff, eq_refl, blt}
use dflybot.Prelude.Sorted.{lookup, insert, lookup-insert, IsAscending}
use dflybot.GitMonitor.{
  Map, Git, list_refs, heads, tags, ref_of, get_or_blank, visit_branch, visit_refs, visit_tag,
  collect_branches, collect_tags, collect_announcements, seed_refs, seed_tags, seed_state, itself,
  fresh_state,
}
use dflybot.GitMonitor.Refs.{Visit, list_refs-IsAscending, before_differs}
use dflybot.GitMonitor.Visit.{ref_of-eq, lookup-insert_own}

-- A visit that finds what was seen.
abbrev IsQuiet : Visit → (Bytes → Bytes) → Type 0
IsQuiet visit key =
    (name sha : Bytes) (seen : Map)
    → lookup (key name) seen ≡ some sha
    → ((visit name sha seen).1 ≡ [])
      × ((k : Bytes) → lookup k (visit name sha seen).0 ≡ lookup k seen)

reinsert :
    (j sha : Bytes) (seen : Map) (k : Bytes)
    → lookup j seen ≡ some sha
    → lookup k (insert j sha seen) ≡ lookup k seen
reinsert j sha seen k l = elim (Bool-cases (j == k)) [
  | inl e ↦ rw (lookup-insert j k sha seen, e) (sym l ∙ ap (λ x. lookup x seen) ((eq_iff j k).0 e))
  | inr e ↦ rw (lookup-insert j k sha seen, e) refl
]

visit_branch-IsQuiet : (git : Git) → IsQuiet (visit_branch git) ref_of
unfolding visit_branch get_or_blank
visit_branch-IsQuiet git b sha seen l = elim (Bool-cases (sha == [])) [
  | inl e ↦ rw (get_or_blank, l, visit_branch, e) (refl, λ k. reinsert (ref_of b) sha seen k l)
  | inr e ↦ rw (get_or_blank, l, visit_branch, e, eq_refl sha) (refl, λ k. refl)
]

visit_tag-IsQuiet : (git : Git) → IsQuiet (visit_tag git) itself
unfolding visit_tag
visit_tag-IsQuiet git t sha seen l = rw (l, visit_tag, eq_refl sha) (refl, λ k. refl)

module _ (key : Bytes → Bytes) where
  -- The state has what is listed.
  abbrev Knows : Map → Map → Type 0
  Knows seen refs = All (λ (e : Bytes × Bytes). lookup (key e.0) seen ≡ some e.1) refs

  visit_refs-quiet :
      (visit : Visit) (refs seen : Map)
      → IsQuiet visit key
      → Knows seen refs
      → (visit_refs visit refs seen).1 ≡ []
  unfolding visit_refs
  visit_refs-quiet visit [] seen q k = refl
  visit_refs-quiet visit ((name, sha) ∷ refs) seen q (l, k) =
      let (e, same) = q name sha seen l in
      let k' : Knows (visit name sha seen).0 refs =
        All-map _ _ refs (λ r m. same (key r.0) ∙ m) k in
      rw (e, visit_refs-quiet visit refs (visit name sha seen).0 q k') refl

  abbrev IsKey : Type 0
  IsKey = (c b : Bytes) → (key c == key b) ≡ (c == b)

  seed_refs-other :
      (name : Bytes) (refs seen : Map)
      → IsKey
      → All (λ x. blt name x.0 ≡ true) refs
      → lookup (key name) (seed_refs key refs seen) ≡ lookup (key name) seen
  unfolding seed_refs
  seed_refs-other name [] seen i h = refl
  seed_refs-other name ((other, sha) ∷ refs) seen i (l, h) =
      seed_refs-other name refs (insert (key other) sha seen) i h
      ∙ rw
          (lookup-insert (key other) (key name) sha seen, i other name, before_differs name other l)
          refl

  seed_refs-Knows :
      (refs seen : Map) → IsKey → IsAscending refs → Knows (seed_refs key refs seen) refs
  unfolding seed_refs
  seed_refs-Knows [] seen i a = tt
  seed_refs-Knows ((name, sha) ∷ refs) seen i (h, a) =
      let seen1 = insert (key name) sha seen in
      (
        seed_refs-other name refs seen1 i h ∙ lookup-insert_own (key name) sha seen,
        seed_refs-Knows refs seen1 i a,
      )

seed_state-listed :
    (git : Git) (now : ℕ) (bs ts : Map)
    → list_refs git heads ≡ some bs
    → list_refs git tags ≡ some ts
    → (seed_state git now fresh_state).0 ≡ record {
      last_seen = seed_refs ref_of bs [];
      seen_tags = seed_refs itself ts [];
      updated_at = now;
    }
unfolding seed_state seed_tags
seed_state-listed git now bs ts l m = rw (l, m, seed_state, seed_tags) refl

collect_announcements-known :
    (git : Git) (now : ℕ) (bs ts : Map)
    → list_refs git heads ≡ some bs
    → list_refs git tags ≡ some ts
    → (collect_announcements git (record {
      last_seen = seed_refs ref_of bs [];
      seen_tags = seed_refs itself ts [];
      updated_at = now;
    })).1
      ≡ []
unfolding collect_announcements collect_branches collect_tags
collect_announcements-known git now bs ts l m =
    let b = seed_refs-Knows ref_of bs [] ref_of-eq (list_refs-IsAscending git heads bs l) in
    let t = seed_refs-Knows itself ts [] (λ c d. refl) (list_refs-IsAscending git tags ts m) in
    rw
      (
        l,
        m,
        collect_branches,
        collect_tags,
        visit_refs-quiet ref_of (visit_branch git) bs (seed_refs ref_of bs [])
            (visit_branch-IsQuiet git) b,
        visit_refs-quiet itself (visit_tag git) ts (seed_refs itself ts []) (visit_tag-IsQuiet git)
            t,
      )
      refl

-- After the first start the poll of a repository that has not changed announces nothing.
pub seed_state-quiet :
    (git : Git) (now : ℕ)
    → (seed_state git now fresh_state).1 ≡ true
    → (collect_announcements git (seed_state git now fresh_state).0).1 ≡ []
unfolding seed_state seed_tags
seed_state-quiet git now s = elim (Option-cases (list_refs git heads)) [
  | inl l ↦ ground (arith, rw (l, seed_state) at s)
  | inr (bs, l) ↦ elim (Option-cases (list_refs git tags)) [
    | inl m ↦ ground (arith, rw (l, m, seed_state, seed_tags) at s)
    | inr (ts, m) ↦
        subst (λ st. (collect_announcements git st).1 ≡ [])
          (sym (seed_state-listed git now bs ts l m))
          (collect_announcements-known git now bs ts l m)
  ]
]
