-- ===== src/GitMonitor/Refs.antt =====
-- What the loop over the refs does for one of them.
use mathlib.Core.Path.{subst}
use mathlib.Core.List.{append-nil}
use dflybot.Prelude.{
  Bool, true, false, Option, some, List, [], ◌∷◌, ◌++◌, ◌≡◌, inl, inr, arith, refl, ◌∙◌, All,
  Bool-cases, Option-cases, if◌then◌else◌,
}
use dflybot.Prelude.Bytes.{Bytes, ◌==◌, eq_iff, blt, blt_irrefl}
use dflybot.Prelude.Sorted.{lookup, IsAscending, insert-IsAscending}
use dflybot.GitMonitor.{
  Map, Git, Announcement, split_space, add_ref, parse_refs, list_refs, visit_refs,
}

add_ref-IsAscending :
    (parts : List Bytes) (refs : Map) → IsAscending refs → IsAscending (add_ref parts refs)
unfolding add_ref
add_ref-IsAscending [] refs h = h
add_ref-IsAscending (name ∷ []) refs h = h
add_ref-IsAscending (name ∷ sha ∷ []) refs h = insert-IsAscending name sha refs h
add_ref-IsAscending (name ∷ sha ∷ more ∷ parts) refs h = h

parse_refs-IsAscending :
    (lines : List Bytes) (refs : Map) → IsAscending refs → IsAscending (parse_refs lines refs)
unfolding parse_refs
parse_refs-IsAscending [] refs h = h
parse_refs-IsAscending (line ∷ lines) refs h =
    parse_refs-IsAscending lines (add_ref (split_space line) refs)
      (add_ref-IsAscending (split_space line) refs h)

-- The names that are listed are in order and no name is listed twice.
pub list_refs-IsAscending :
    (git : Git) (prefix : Bytes) (refs : Map) → list_refs git prefix ≡ some refs → IsAscending refs
unfolding list_refs
list_refs-IsAscending git prefix refs e = elim (Option-cases (git.for_each_ref prefix)) [
  | inl f ↦ ground (arith, f, e)
  | inr (lines, f) ↦
      let g : parse_refs lines [] ≡ refs = ground (arith, f, e) in
      subst IsAscending g (parse_refs-IsAscending lines [] tt)
]

-- The hashes of the announcements that pass a test.
unfoldable pub hashes_of : (Announcement → Bool) → List Announcement → List Bytes
hashes_of test [] = []
hashes_of test (a ∷ ans) =
    let rest = hashes_of test ans in if test a then a.info.hash ∷ rest else rest

pub hashes_of-append :
    (test : Announcement → Bool) (xs ys : List Announcement)
    → hashes_of test (xs ++ ys) ≡ hashes_of test xs ++ hashes_of test ys
unfolding hashes_of
hashes_of-append test [] ys = refl
hashes_of-append test (a ∷ xs) ys = elim (Bool-cases (test a)) [
  | inl e ↦ rw (e, hashes_of-append test xs ys) refl
  | inr e ↦ rw (e, hashes_of-append test xs ys) refl
]

pub before_differs : (a b : Bytes) → blt a b ≡ true → (b == a) ≡ false
before_differs a b l = elim (Bool-cases (b == a)) [
  | inl e ↦ ground (arith, subst (λ x. blt a x ≡ true) ((eq_iff b a).0 e) l, blt_irrefl a)
  | inr e ↦ e
]

abbrev pub Visit : Type 0
Visit = Bytes → Bytes → Map → Map × List Announcement

module _ (visit : Visit) (key : Bytes → Bytes) (test : Announcement → Bool) where
  -- What is kept for `k`, and the announcements that pass the test.
  abbrev pub Leaves : Bytes → Option Bytes → List Bytes → Map × List Announcement → Type 0
  Leaves k o hs r = (lookup k r.0 ≡ o) × (hashes_of test r.1 ≡ hs)

  -- A visit of another name.
  abbrev pub Spares : Bytes → Type 0
  Spares name =
      (other sha : Bytes) (seen : Map)
      → (other == name) ≡ false
      → Leaves (key name) (lookup (key name) seen) [] (visit other sha seen)

  unlisted :
      (name : Bytes) (refs seen : Map)
      → Spares name
      → All (λ x. blt name x.0 ≡ true) refs
      → Leaves (key name) (lookup (key name) seen) [] (visit_refs visit refs seen)
  unfolding visit_refs hashes_of
  unlisted name [] seen f h = (refl, refl)
  unlisted name ((other, sha) ∷ refs) seen f (l, h) =
      let r = f other sha seen (before_differs name other l) in
      let ih = unlisted name refs (visit other sha seen).0 f h in
      (
        ih.0 ∙ r.0,
        rw
            (
              hashes_of-append test (visit other sha seen).1
                  (visit_refs visit refs (visit other sha seen).0).1,
              r.1,
              ih.1,
            )
            refl,
      )

  abbrev After : Map → Bytes → Type 0
  After refs name = All (λ x. blt name x.0 ≡ true) refs

  listed_first :
      (name sha : Bytes) (o o' : Option Bytes) (hs : List Bytes)
      → Spares name
      → ((seen : Map) → lookup (key name) seen ≡ o → Leaves (key name) o' hs (visit name sha seen))
      → (refs : Map) → After refs name
      → (seen : Map) → lookup (key name) seen ≡ o
      → Leaves (key name) o' hs (visit_refs visit ((name, sha) ∷ refs) seen)
  unfolding visit_refs
  listed_first name sha o o' hs f own refs a seen k =
      let r = own seen k in
      let u = unlisted name refs (visit name sha seen).0 f a in
      (
        u.0 ∙ r.0,
        hashes_of-append test (visit name sha seen).1
              (visit_refs visit refs (visit name sha seen).0).1
            ∙ rw (r.1, u.1) (append-nil hs),
      )

  -- The loop does for a listed name what its own visit does, from every map with the same entry.
  pub visit_refs-focus :
      (name sha : Bytes) (o o' : Option Bytes) (hs : List Bytes)
      → Spares name
      → ((seen : Map) → lookup (key name) seen ≡ o → Leaves (key name) o' hs (visit name sha seen))
      → (refs : Map) → IsAscending refs
      → lookup name refs ≡ some sha
      → (seen : Map) → lookup (key name) seen ≡ o
      → Leaves (key name) o' hs (visit_refs visit refs seen)
  unfolding visit_refs lookup
  visit_refs-focus name sha o o' hs f own [] a l seen k = ground (arith, l)
  visit_refs-focus name sha o o' hs f own ((other, t) ∷ refs) (a, as') l seen k =
      elim (Bool-cases (other == name)) [
        | inl e ↦
            let p = (eq_iff other name).0 e in
            let q : t ≡ sha = ground (arith, rw e at l) in
            rw (p, q) (listed_first name sha o o' hs f own refs (subst (After refs) p a) seen k)
        | inr e ↦
            let r = f other t seen e in
            let ih =
              visit_refs-focus name sha o o' hs f own refs as' (rw e at l) (visit other t seen).0
                (r.0 ∙ k) in
            (
              ih.0,
              rw
                  (
                    hashes_of-append test (visit other t seen).1
                        (visit_refs visit refs (visit other t seen).0).1,
                    r.1,
                    ih.1,
                  )
                  refl,
            )
      ]
