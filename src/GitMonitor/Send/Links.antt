-- ===== src/GitMonitor/Send/Links.antt =====
-- The links that the shortener is asked for.
use mathlib.Core.Path.{subst}
use mathlib.Core.List.{map}
use dflybot.Prelude.{
  true, List, [], ◌∷◌, ◌++◌, ◌≡◌, ◌≢◌, ◌↔◌, ◌⊎◌, inl, inr, arith, refl, sym, ◌∙◌, In, In-append,
  Distinct, Distinct-append, Bool-cases, if◌then◌else◌,
}
use dflybot.Prelude.Bytes.{Bytes, ◌==◌, eq_iff}
use dflybot.GitMonitor.{Announcement}
use dflybot.GitMonitor.Send.{mem, link_targets}

mem_iff : (s : Bytes) (ts : List Bytes) → (mem s ts ≡ true) ↔ In s ts
mem_iff s [] = ground arith
mem_iff s (t ∷ ts) = elim (Bool-cases (t == s)) [
  | inl e ↦ rw e ((λ x. inl (sym ((eq_iff t s).0 e))), (λ i. refl))
  | inr e ↦ rw e (ground (arith, mem_iff s ts, eq_iff t s, e))
]

abbrev link_of : Announcement → Bytes
link_of a = a.link

-- Each URL that an announcement has is asked for, nothing else is, and none is asked for twice.
abbrev pub AsksFor : List Announcement → List Bytes → Type 0
AsksFor ans ts = Distinct ts × ((s : Bytes) → In s ts ↔ ((s ≢ []) × In s (map link_of ans)))

abbrev next : List Bytes → Announcement → List Bytes
next ts a = if a.link == [] then ts else if mem a.link ts then ts else ts ++ a.link ∷ []

next-Distinct : (ts : List Bytes) (a : Announcement) → Distinct ts → Distinct (next ts a)
next-Distinct ts a d = elim (Bool-cases (a.link == [])) [
  | inl e ↦ rw e d
  | inr e ↦ rw e (elim (Bool-cases (mem a.link ts)) [
    | inl f ↦ rw f d
    | inr f ↦ rw f (
        Distinct-append ts (a.link ∷ []) d ((λ z. z), tt)
          (λ s i j. ground (arith, f, i, j, (mem_iff s ts).1 i, mem_iff a.link ts)))
  ])
]

next-In :
    (ts : List Bytes) (a : Announcement) (s : Bytes)
    → In s (next ts a) ↔ (In s ts ⊎ ((s ≢ []) × (s ≡ a.link)))
next-In ts a s = elim (Bool-cases (a.link == [])) [
  | inl e ↦ rw e (ground (arith, (eq_iff a.link []).0 e))
  | inr e ↦
      let n : a.link ≢ [] = λ z. ground (arith, (eq_iff a.link []).1 z, e) in
      elim (Bool-cases (mem a.link ts)) [
        | inl f ↦
            rw (e, f)
              (
                (λ i. inl i),
                λ i. elim i [
                  | inl j ↦ j
                  | inr (m, q) ↦ subst (λ x. In x ts) (sym q) ((mem_iff a.link ts).0 f)
                ],
              )
        | inr f ↦
            rw (e, f)
              (
                (λ i. elim ((In-append s ts (a.link ∷ [])).0 i) [
                  | inl j ↦ inl j
                  | inr (inl q) ↦ inr ((λ z. n (sym q ∙ z)), q)
                  | inr (inr j) ↦ absurd j
                ]),
                λ i.
                    (In-append s ts (a.link ∷ [])).1
                      (elim i [ inl j ↦ inl j | inr (m, q) ↦ inr (inl q) ]),
              )
      ]
]

link_targets-Distinct :
    (ans : List Announcement) (ts : List Bytes) → Distinct ts → Distinct (link_targets ts ans)
unfolding link_targets
link_targets-Distinct [] ts d = d
link_targets-Distinct (a ∷ ans) ts d = link_targets-Distinct ans (next ts a) (next-Distinct ts a d)

link_targets-In :
    (ans : List Announcement) (ts : List Bytes) (s : Bytes)
    → In s (link_targets ts ans) ↔ (In s ts ⊎ ((s ≢ []) × In s (map link_of ans)))
unfolding link_targets
link_targets-In [] ts s = ground arith
link_targets-In (a ∷ ans) ts s = ground (arith, link_targets-In ans (next ts a) s, next-In ts a s)

-- The shortener is asked for each URL that an announcement has, for nothing else, and for none twice.
pub link_targets-AsksFor : (ans : List Announcement) → AsksFor ans (link_targets [] ans)
link_targets-AsksFor ans =
    (link_targets-Distinct ans [] tt, λ s. ground (arith, link_targets-In ans [] s))
